-- ===== src/Receiver/Chain.antt =====
-- The receiver's loop (drivers/rtlsdr/rtlsdrDriver.cpp) in front of the PSD pipeline's blocks.
use es_sensor.Prelude.{ℕ, ◌/◌, ◌<◌, ◌≡◌, ap, ◌∙◌, Bool, some, List, [], ◌++◌, length, take}
use es_sensor.Numeric.{Float}
use es_sensor.Context.{Context}
use es_sensor.Segment.{Complex}
use es_sensor.Blocks.FftBatches.{whole}
use es_sensor.Blocks.PsdPipeline.{psd_pipeline, concat, frequencies, frequencies-psd_pipeline}
use es_sensor.Receiver.{Answers, Sampling}
use es_sensor.Receiver.Sync.{sync_rounds}
use es_sensor.Receiver.Course.{Course, expected_len}
use es_sensor.Receiver.Rounds.{sync_rounds-Sent}
use es_sensor.Hopping.Rounds.{hops}

module _ {F : Type 0} ⦃float : Float F⦄ (hamming : ℕ → ℕ → F)
    (fft_execute : ℕ → List (Complex F) → List (Complex F))
    (fft_shift : List (Complex F) → List (Complex F)) where
  -- What the PSD pipeline gives out for the segments that any number of rounds have sent, started
  -- with none: averaged segments, one for each frequency that was received, in the order of
  -- `nextHop`, as far as the segments fill whole FFT batches. Which frequencies are visited and
  -- received follows from the answers: one is visited in each round until the loop stops, and it is
  -- received unless it must be set and that fails. The batch length and the averaging factor are at
  -- least 1, and no exception ends the rounds.
  pub frequencies-sync_rounds :
      (converter : Bool) (c : Context F) (fft_size : ℕ) (answers : List Answers) (s s' : Sampling F)
      → 0 < c.fft_batchlen
      → 0 < c.avg_factor
      → s.sent ≡ []
      → sync_rounds converter c answers s ≡ some s'
      → let pipeline = psd_pipeline hamming fft_execute fft_shift in
        (visited received : List ℕ) × (hops (length visited) s.hopping ≡ some (visited, s'.hopping))
        × Course converter
            (expected_len c s)
            s.running
            answers
            s.previous_freq
            s.previous_proxy_freq
            visited
            received
        × (frequencies (pipeline c.fft_batchlen c.avg_factor fft_size s'.sent)
            ≡ take (whole c.fft_batchlen (length s'.sent) / c.avg_factor) received)
  frequencies-sync_rounds converter c fft_size answers s s' p q none_yet e =
      let r = sync_rounds-Sent converter c answers s s' e in
      let stream : s'.sent ≡ concat r.bursts = r.sent ∙ ap (λ l. l ++ concat r.bursts) none_yet in
      (
        r.visited,
        r.received,
        r.hopped,
        r.course,
        rw (stream) (
            frequencies-psd_pipeline hamming fft_execute fft_shift c.fft_batchlen c.avg_factor
              fft_size r.received r.bursts p q r.is_bursts),
      )
