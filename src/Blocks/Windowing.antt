-- ===== src/Blocks/Windowing.antt =====
-- ProcessingBlocks/Windowing.cpp: every sample is weighted by the Hamming window.
use es_sensor.Prelude.{ℕ, zero, suc, ◌+◌, List, [], ◌∷◌}
use es_sensor.Numeric.{Float}
use es_sensor.Segment.{Segment, Complex}
use es_sensor.Blocks.{Block}

-- `hamming` is the window of the liquid library: the weight of sample `i` of `n`.
module _ {F : Type 0} ⦃float : Float F⦄ (hamming : ℕ → ℕ → F) where
  -- The weights `hamming(i + 1, fft_size)` for the `n` values of `i` that are left.
  pub window_weights : ℕ → ℕ → ℕ → List F
  window_weights zero i fft_size = []
  window_weights (suc n) i fft_size = hamming (i + 1) fft_size ∷ window_weights n (i + 1) fft_size

  -- `W += std::pow(w_i, 2)`
  pub sum_squares : F → List F → F
  sum_squares acc [] = acc
  sum_squares acc (w ∷ ws) = sum_squares (float.add acc (float.mul w w)) ws

  -- One sample: weighted, then scaled by `sqrt(fft_size / W)`.
  pub window_sample : F → F → Complex F → Complex F
  window_sample w scale c = record {
    real = float.mul (float.mul c.real w) scale;
    imag = float.mul (float.mul c.imag w) scale;
  }

  -- `w_func[p]` is read out of range past the window; 0 stands for what is read there.
  pub window_samples : F → List F → List (Complex F) → List (Complex F)
  unfolding window_sample
  window_samples scale ws [] = []
  window_samples scale [] (c ∷ cs) =
      window_sample (float.of_nat 0) scale c ∷ window_samples scale [] cs
  window_samples scale (w ∷ ws) (c ∷ cs) = window_sample w scale c ∷ window_samples scale ws cs

  -- The body of `Windowing::run` for a given `fft_size`.
  unfoldable pub windowing_one : ℕ → Segment F → Segment F
  unfolding window_weights sum_squares window_samples
  windowing_one fft_size seg =
      let w_func = window_weights fft_size 0 fft_size in
      let total = sum_squares (float.of_nat 0) w_func in
      let scale = float.sqrt (float.div (float.of_nat fft_size) total) in
      record seg { iq_samples = window_samples scale w_func seg.iq_samples }

  unfoldable pub windowing_step : ℕ → Block (Unit {0}) (Segment F) (Segment F)
  windowing_step fft_size s seg = (s, windowing_one fft_size seg ∷ [])
