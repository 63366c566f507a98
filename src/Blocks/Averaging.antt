-- ===== src/Blocks/Averaging.antt =====
-- ProcessingBlocks/Averaging.cpp: the power of `avg_factor` segments, averaged per frequency bin.
use es_sensor.Prelude.{
  ℕ, zero, suc, ◌+◌, Bool, false, not, ◌||◌, List, [], ◌∷◌, ◌++◌, ◌==◌, if◌then◌else◌, length,
  get_or,
}
use es_sensor.Numeric.{Float}
use es_sensor.Segment.{Segment, Complex}
use es_sensor.Blocks.{Block}

-- The loop that sets `wrong_cf`: two neighbours differ in their centre frequency.
unfoldable pub wrong_cf : {F : Type 0} → List (Segment F) → Bool
wrong_cf [] = false
wrong_cf (s ∷ []) = false
wrong_cf (s ∷ t ∷ rest) = not (s.center_frequency == t.center_frequency) || wrong_cf (t ∷ rest)

module _ {F : Type 0} ⦃float : Float F⦄ where
  -- `getIQSamplesFreq()[i]`; past the end, where the read is out of range, 0 stands for it.
  abbrev bin : Segment F → ℕ → Complex F
  bin s i = get_or s.iq_samples_freq i (record { real = float.of_nat 0; imag = float.of_nat 0 })

  -- The loop over `j`.
  pub sum_power : F → ℕ → List (Segment F) → F
  sum_power power i [] = power
  sum_power power i (s ∷ rest) =
      let c = bin s i in
      sum_power (float.add (float.add power (float.mul c.real c.real)) (float.mul c.imag c.imag)) i
        rest

  -- `MAX(10.0f * log10(power / avg_factor), -100)`
  pub to_db : ℕ → F → F
  to_db avg_factor power =
      let db =
        float.mul (float.lit 10 1) (float.log10 (float.div power (float.of_nat avg_factor))) in
      let floor = float.neg (float.of_nat 100) in if float.lt floor db then db else floor

  -- The loop over `i`, with the bins that are left.
  pub psd_from : ℕ → ℕ → ℕ → List (Segment F) → List F
  unfolding sum_power to_db
  psd_from zero i avg_factor segments = []
  psd_from (suc n) i avg_factor segments =
      to_db avg_factor (sum_power (float.of_nat 0) i segments)
      ∷ psd_from n (i + 1) avg_factor segments

  -- What is sent for a full vector: its first segment, with the averaged values.
  unfoldable pub average : ℕ → ℕ → List (Segment F) → List (Segment F)
  unfolding psd_from
  average avg_factor fft_size [] = []
  average avg_factor fft_size (s ∷ rest) =
      record s { psd_values = psd_from fft_size 0 avg_factor (s ∷ rest) } ∷ []

  -- The body of `Averaging::run`; the state is `avgVector`. On a wrong frequency the code leaves
  -- the round with the vector as it is.
  unfoldable pub averaging_step : ℕ → ℕ → Block (List (Segment F)) (Segment F) (Segment F)
  averaging_step avg_factor fft_size vector seg =
      let full = vector ++ (seg ∷ []) in
      if length full == avg_factor
      then if wrong_cf full then (full, []) else ([], average avg_factor fft_size full)
      else (full, [])
