-- ===== src/Receiver/Course.antt =====
-- drivers/rtlsdr/rtlsdrDriver.cpp, `SyncSampling`: how the rounds go, told by the answers alone.
use es_sensor.Prelude.{
  ℕ, ◌%◌, ◌^◌, ◌≡◌, Bool, true, false, ◌&&◌, List, [], ◌∷◌, ◌==◌, if◌then◌else◌,
}
use es_sensor.Numeric.{Float, shift_one, is_zero}
use es_sensor.Context.{Context}
use es_sensor.Receiver.{Answers, Sampling}
use es_sensor.Receiver.Cut.{read_len}
use es_sensor.Receiver.Silence.{is_received, is_reset, proxy_after}
use mathlib.Core.Path.{subst}

-- What a round's read gives counts as complete: the read has not failed, and it has given all the
-- bytes it was asked for.
abbrev pub is_complete : Answers → ℕ → Bool
is_complete a len = is_zero a.read_result && (a.n_read % 2 ^ 32 == len)

-- How the rounds go, told by the answers alone: for a loop that runs or not, the answers, the length
-- of a read and the frequencies before, which frequencies are visited, one in each round, and which
-- of them are received. The loop ends when the answers do, or once it has been stopped: by a reset
-- that fails, or by a read that is not complete.
pub data Course (converter : Bool) (len : ℕ)
    : Bool → List Answers → ℕ → ℕ → List ℕ → List ℕ → Type 0 where
  out_of_answers :
      {running : Bool} {previous proxy : ℕ} → Course converter len running [] previous proxy [] []
  stopped :
      {answers : List Answers} {previous proxy : ℕ}
      → Course converter len false answers previous proxy [] []
  missed :
      {a : Answers} {answers : List Answers} {freq previous proxy : ℕ} {visited received : List ℕ}
      → is_received converter a freq previous proxy ≡ false
      → Course converter len true answers freq
          (proxy_after converter a freq previous proxy)
          visited
          received
      → Course converter len true (a ∷ answers) previous proxy (freq ∷ visited) received
  got :
      {a : Answers} {answers : List Answers} {freq previous proxy : ℕ} {visited received : List ℕ}
      → is_received converter a freq previous proxy ≡ true
      → Course converter len
          (is_reset converter a freq previous proxy && is_complete a len)
          answers
          freq
          (proxy_after converter a freq previous proxy)
          visited
          received
      → Course converter len true (a ∷ answers) previous proxy (freq ∷ visited) (freq ∷ received)

pub Course-move :
    {converter : Bool} {len len' : ℕ} {run run' : Bool} {answers : List Answers} {p p' q q' : ℕ}
    {visited received : List ℕ}
    → len ≡ len'
    → run ≡ run'
    → p ≡ p'
    → q ≡ q'
    → Course converter len run answers p q visited received
    → Course converter len' run' answers p' q' visited received
Course-move {converter} {len} {len'} {run} {run'} {answers} {p} {p'} {q} {q'} {visited} {received}
      at_len at_run at_p at_q course =
    subst (λ n. Course converter n run' answers p' q' visited received) at_len
      (subst (λ r. Course converter len r answers p' q' visited received) at_run
        (subst (λ n. Course converter len run answers n q' visited received) at_p
          (subst (λ n. Course converter len run answers p n visited received) at_q course)))

module _ {F : Type 0} ⦃float : Float F⦄ where
  -- The length of the reads.
  abbrev pub expected_len : Context F → Sampling F → ℕ
  expected_len c s =
      let fft = shift_one c.log2_fft_size in
      if s.fft_size == fft then s.slen else read_len fft c.soverlap c.avg_factor
