-- ===== src/Receiver/RoundSteps.antt =====
-- drivers/rtlsdr/rtlsdrDriver.cpp, `SyncSampling`: what one round keeps and sends.
use es_sensor.Prelude.{
  ℕ, zero, suc, ◌+◌, ◌≡◌, ◌⊎◌, inl, inr, refl, sym, ap, ◌∙◌, Bool, true, false, ◌&&◌, Option, none,
  some, List, ◌++◌, ◌==◌, if◌then◌else◌, if-both, length,
}
use es_sensor.Numeric.{Float, shift_one}
use es_sensor.Context.{Context}
use es_sensor.Hopping.{SequentialHopping, next_hop}
use es_sensor.Segment.{Segment, Timespec, of_iq}
use es_sensor.Blocks.AveragingGroups.{SameFrequency}
use es_sensor.Receiver.{Answers, Sampling}
use es_sensor.Receiver.Cut.{invert, read_len}
use es_sensor.Receiver.Silence.{is_received, is_reset, proxy_after, Outcome, tune-Outcome}
use es_sensor.Receiver.Tune.{Tuned, failed, skip, tuned, tune}
use es_sensor.Receiver.Sync.{cut_segments, set_read_len, read_segments, sync_round}
use es_sensor.Receiver.Course.{is_complete, expected_len}

if-same : (b : Bool) (n : ℕ) → (if b then n else n) ≡ n
if-same true n = refl
if-same false n = refl

module _ {F : Type 0} ⦃float : Float F⦄ where
  cut_segments-burst :
      (n : ℕ) (c : Context F) (fft : ℕ) (time : Timespec) (freq i : ℕ) (buf : List ℕ)
      → (length (cut_segments n c fft time freq i buf) ≡ n)
        × SameFrequency freq (cut_segments n c fft time freq i buf)
  unfolding cut_segments of_iq
  cut_segments-burst zero c fft time freq i buf = (refl, tt)
  cut_segments-burst (suc n) c fft time freq i buf =
      let (count, same) = cut_segments-burst n c fft time freq (i + 1) buf in
      (ap suc count, (refl, same))

  -- What one round has sent: nothing, or a burst of `avg_factor` segments of one frequency.
  pub record Burst (c : Context F) (freq : ℕ) (s s' : Sampling F) : Type 0 where
    pub burst : List (Segment F)
    pub size : length burst ≡ c.avg_factor
    pub same : SameFrequency freq burst
    pub sent : s'.sent ≡ s.sent ++ burst

  -- Computing the length of a read changes nothing else, and then the length stays.
  record Measured (c : Context F) (s s' : Sampling F) : Type 0 where
    sent : s'.sent ≡ s.sent
    hopping : s'.hopping ≡ s.hopping
    running : s'.running ≡ s.running
    previous : s'.previous_freq ≡ s.previous_freq
    proxy : s'.previous_proxy_freq ≡ s.previous_proxy_freq
    slen : s'.slen ≡ expected_len c s
    len : expected_len c s' ≡ expected_len c s

  set_read_len-Measured : (c : Context F) (s : Sampling F) → Measured c s (set_read_len c s)
  unfolding set_read_len
  set_read_len-Measured c s =
      let fft = shift_one c.log2_fft_size in
      if-both (Measured c s) (s.fft_size == fft)
        (λ e. record {
          sent = refl;
          hopping = refl;
          running = refl;
          previous = refl;
          proxy = refl;
          slen = ap (λ b. if b then s.slen else read_len fft c.soverlap c.avg_factor) (sym e);
          len = refl;
        })
        (λ e.
          let new = read_len fft c.soverlap c.avg_factor in
          let is_new : new ≡ expected_len c s = ap (λ b. if b then s.slen else new) (sym e) in
          record {
            sent = refl;
            hopping = refl;
            running = refl;
            previous = refl;
            proxy = refl;
            slen = is_new;
            len = if-same (fft == fft) new ∙ is_new;
          })

  read_segments-Burst :
      (c : Context F) (a : Answers) (freq : ℕ) (s : Sampling F)
      → Burst c freq s (read_segments c a freq s)
  unfolding read_segments
  read_segments-Burst c a freq s =
      let buf = if (set_read_len c s).must_invert then invert a.n_read a.buffer else a.buffer in
      let fft = shift_one c.log2_fft_size in
      let burst = cut_segments c.avg_factor c fft a.current_time freq 0 buf in
      let m = set_read_len-Measured c s in
      let (size, same) = cut_segments-burst c.avg_factor c fft a.current_time freq 0 buf in
      record { burst = burst; size = size; same = same; sent = ap (λ l. l ++ burst) m.sent }

  -- What one round did: it missed its frequency, or it received and sent a burst.
  pub record Step (converter : Bool) (c : Context F) (a : Answers) (s s' : Sampling F)
      : Type 0 where
    pub freq : ℕ
    pub hop : next_hop s.hopping ≡ some (freq, s'.hopping)
    pub previous : s'.previous_freq ≡ freq
    pub proxy :
        s'.previous_proxy_freq ≡ proxy_after converter a freq s.previous_freq s.previous_proxy_freq
    pub len : expected_len c s' ≡ expected_len c s
    pub sends :
        ((is_received converter a freq s.previous_freq s.previous_proxy_freq ≡ false)
          × (s'.sent ≡ s.sent)
          × (s'.running ≡ s.running))
        ⊎ ((is_received converter a freq s.previous_freq s.previous_proxy_freq ≡ true)
            × Burst c freq s s'
            × (s'.running ≡ (
                (s.running && is_reset converter a freq s.previous_freq s.previous_proxy_freq)
                && is_complete a (expected_len c s))))

  abbrev pub SomeStep : Bool → Context F → Answers → Sampling F → Option (Sampling F) → Type 0
  SomeStep converter c a s none = Unit
  SomeStep converter c a s (some s') = Step converter c a s s'

  -- What a read keeps, and whether the loop goes on.
  record Read (c : Context F) (a : Answers) (s s' : Sampling F) : Type 0 where
    hopping : s'.hopping ≡ s.hopping
    previous : s'.previous_freq ≡ s.previous_freq
    proxy : s'.previous_proxy_freq ≡ s.previous_proxy_freq
    len : expected_len c s' ≡ expected_len c s
    running : s'.running ≡ (s.running && is_complete a (expected_len c s))

  read_segments-Read :
      (c : Context F) (a : Answers) (freq : ℕ) (s : Sampling F)
      → Read c a s (read_segments c a freq s)
  unfolding read_segments
  read_segments-Read c a freq s =
      let m = set_read_len-Measured c s in
      record {
        hopping = m.hopping;
        previous = m.previous;
        proxy = m.proxy;
        len = m.len;
        running =
            ap (λ r. r && is_complete a (set_read_len c s).slen) m.running
            ∙ ap (λ n. s.running && is_complete a n) m.slen;
      }

  expected_len-same :
      (c : Context F) (s s' : Sampling F)
      → s'.fft_size ≡ s.fft_size
      → s'.slen ≡ s.slen
      → expected_len c s' ≡ expected_len c s
  expected_len-same c s s' e e' = rw (e, e') refl

  read_after :
      (converter : Bool) (c : Context F) (a : Answers) (freq : ℕ) (s : Sampling F)
      (hopping : SequentialHopping) (t : Tuned F)
      → next_hop s.hopping ≡ some (freq, hopping)
      → Outcome
          (is_received converter a freq s.previous_freq s.previous_proxy_freq)
          (proxy_after converter a freq s.previous_freq s.previous_proxy_freq)
          (is_reset converter a freq s.previous_freq s.previous_proxy_freq)
          freq
          (record s { hopping = hopping; must_invert = false })
          t
      → SomeStep converter c a s (elim t [
        | failed ↦ none
        | skip s' ↦ some s'
        | tuned s' ↦ some (read_segments c a freq s')
      ])
  read_after converter c a freq s h failed hop o = tt
  read_after converter c a freq s h (skip s') hop
        (not_received, (quiet, hopping, size, len), run, previous, proxy) =
      record {
        freq = freq;
        hop = hop ∙ ap (λ h. some (freq, h)) (sym hopping);
        previous = previous;
        proxy = proxy;
        len = expected_len-same c s s' size len;
        sends = inl (not_received, quiet, run);
      }
  read_after converter c a freq s h (tuned s') hop
        (is_got, (quiet, hopping, size, len), run, previous, proxy) =
      let b = read_segments-Burst c a freq s' in
      let r = read_segments-Read c a freq s' in
      let same = expected_len-same c s s' size len in
      record {
        freq = freq;
        hop = hop ∙ ap (λ h. some (freq, h)) (sym (r.hopping ∙ hopping));
        previous = r.previous ∙ previous;
        proxy = r.proxy ∙ proxy;
        len = r.len ∙ same;
        sends = inr (
          is_got,
          record {
            burst = b.burst;
            size = b.size;
            same = b.same;
            sent = b.sent ∙ ap (λ l. l ++ b.burst) quiet;
          },
          r.running
              ∙ ap (λ x. x && is_complete a (expected_len c s')) run
              ∙ ap
                  (λ n.
                    (s.running && is_reset converter a freq s.previous_freq s.previous_proxy_freq)
                    && is_complete a n)
                  same,
        );
      }

  hop_after :
      (converter : Bool) (c : Context F) (a : Answers) (s : Sampling F)
      (hop : Option (ℕ × SequentialHopping))
      → next_hop s.hopping ≡ hop
      → SomeStep converter c a s (elim hop [
        | none ↦ none
        | some (freq, hopping) ↦
            elim (tune converter c a freq (record s { hopping = hopping; must_invert = false })) [
              | failed ↦ none
              | skip s' ↦ some s'
              | tuned s' ↦ some (read_segments c a freq s')
            ]
      ])
  hop_after converter c a s none e = tt
  hop_after converter c a s (some (freq, hopping)) e =
      let start = record s { hopping = hopping; must_invert = false } in
      read_after converter c a freq s hopping (tune converter c a freq start) e
        (tune-Outcome converter c a freq start)

  pub sync_round-Step :
      (converter : Bool) (c : Context F) (a : Answers) (s : Sampling F)
      → SomeStep converter c a s (sync_round converter c a s)
  unfolding sync_round
  sync_round-Step converter c a s = hop_after converter c a s (next_hop s.hopping) refl
