-- ===== src/Receiver/Sync.antt =====
-- drivers/rtlsdr/rtlsdrDriver.cpp, `SyncSampling`: one round of the loop, and rounds in a row.
use es_sensor.Prelude.{
  ℕ, zero, suc, ◌+◌, ◌%◌, ◌^◌, Bool, true, false, ◌&&◌, Option, none, some, List, [], ◌∷◌, ◌++◌,
  ◌==◌, if◌then◌else◌,
}
use es_sensor.Prelude.Int.{negsuc}
use es_sensor.Numeric.{Float, shift_one, is_zero}
use es_sensor.Context.{Context}
use es_sensor.Hopping.{next_hop, construct}
use es_sensor.Segment.{Segment, Timespec, of_iq}
use es_sensor.Receiver.{read_sync, Answers, Sampling}
use es_sensor.Receiver.Cut.{read_len, invert, cut_samples}
use es_sensor.Receiver.Tune.{failed, skip, tuned, tune}

module _ {F : Type 0} ⦃float : Float F⦄ where
  -- The loop over `i`, with the segments that are left.
  unfoldable pub cut_segments : ℕ → Context F → ℕ → Timespec → ℕ → ℕ → List ℕ → List (Segment F)
  unfolding cut_samples of_iq
  cut_segments zero c fft time freq i buf = []
  cut_segments (suc n) c fft time freq i buf =
      of_iq (negsuc 999) time freq c.sampling_rate (cut_samples fft fft c.soverlap i 0 buf)
      ∷ cut_segments n c fft time freq (i + 1) buf

  -- The length of the read is computed anew only when the FFT size has changed.
  unfoldable pub set_read_len : Context F → Sampling F → Sampling F
  set_read_len c s =
      let fft = shift_one c.log2_fft_size in
      if s.fft_size == fft
      then s
      else record s { fft_size = fft; slen = read_len fft c.soverlap c.avg_factor }

  -- The read, and the segments cut out of it. A failed read ends the loop after this round.
  unfoldable pub read_segments : Context F → Answers → ℕ → Sampling F → Sampling F
  unfolding set_read_len cut_segments
  read_segments c a freq s =
      let s = set_read_len c s in
      let buf = if s.must_invert then invert a.n_read a.buffer else a.buffer in
      let complete = is_zero a.read_result && (a.n_read % 2 ^ 32 == s.slen) in
      record s {
        running = s.running && complete;
        commands = s.commands ++ (read_sync s.slen ∷ []);
        sent =
            s.sent
            ++ cut_segments c.avg_factor c (shift_one c.log2_fft_size) a.current_time freq 0 buf;
      }

  -- One round; `none` is an exception.
  unfoldable pub sync_round : Bool → Context F → Answers → Sampling F → Option (Sampling F)
  unfolding read_segments
  sync_round converter c a s = elim (next_hop s.hopping) [
    | none ↦ none
    | some (freq, hopping) ↦
        elim (tune converter c a freq (record s { hopping = hopping; must_invert = false })) [
          | failed ↦ none
          | skip s' ↦ some s'
          | tuned s' ↦ some (read_segments c a freq s')
        ]
  ]

  -- `while (mRunning)`, as long as there are answers.
  unfoldable pub sync_rounds : Bool → Context F → List Answers → Sampling F → Option (Sampling F)
  sync_rounds converter c [] s = some s
  sync_rounds converter c (a ∷ answers) s =
      let next : Option (Sampling F) = elim (sync_round converter c a s) [
        | none ↦ none
        | some s' ↦ sync_rounds converter c answers s'
      ] in
      if s.running then next else some s

  -- The variables as the function starts.
  unfoldable pub sync_start : Context F → Sampling F
  unfolding construct
  sync_start c = record {
    running = true;
    hopping = construct c;
    previous_freq = 0;
    previous_proxy_freq = 0;
    must_invert = false;
    direct_sampling = true;
    fft_size = 0;
    slen = 0;
    commands = [];
    sent = [];
  }
