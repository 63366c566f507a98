-- ===== src/Blocks/Fft.antt =====
-- ProcessingBlocks/FFT.cpp: segments are transformed in batches.
use es_sensor.Prelude.{ℕ, List, [], ◌∷◌, ◌++◌, map, ◌==◌, if◌then◌else◌, length}
use es_sensor.Segment.{Segment, Complex}
use es_sensor.Blocks.{Block}

-- `fft_execute` and `fft_shift` are the liquid library's, on signals of the given length.
module _ {F : Type 0} (fft_execute : ℕ → List (Complex F) → List (Complex F))
    (fft_shift : List (Complex F) → List (Complex F)) where
  unfoldable pub compute_one : ℕ → Segment F → Segment F
  compute_one signal_len seg = record seg {
    iq_samples_freq = fft_shift (fft_execute signal_len seg.iq_samples);
  }

  -- `ComputeFFT`
  pub compute_fft : ℕ → List (Segment F) → List (Segment F)
  unfolding compute_one
  compute_fft signal_len = map (compute_one signal_len)

  -- The body of `FFT::run`; the state is `mFFTBatch`.
  unfoldable pub fft_step : ℕ → ℕ → Block (List (Segment F)) (Segment F) (Segment F)
  unfolding compute_fft
  fft_step batch_len signal_len batch seg =
      let full = batch ++ (seg ∷ []) in
      if length full == batch_len then ([], compute_fft signal_len full) else (full, [])
