-- ===== src/Filters/Downsampler.antt =====
-- MiscBlocks/Filter/Resampler: the CIC filter, then the polyphase filter.
use es_sensor.Prelude.{
  ℕ, zero, suc, ◌+◌, ◌*◌, ◌%◌, not, Option, none, some, List, map, ◌==◌, if◌then◌else◌,
}
use es_sensor.Numeric.{Float}
use es_sensor.Filters.Cic.{Cic, cic_filter}
use es_sensor.Filters.Fir.{Fir, fir_filter}

-- `gcd` on `unsigned int`, on fuel.
unfoldable pub gcd : ℕ → ℕ → ℕ → ℕ
gcd zero v1 v2 = v1
gcd (suc fuel) v1 v2 = let rest = gcd fuel v2 (v1 % v2) in if v2 == 0 then v1 else rest

pub record Downsampler (F : Type 0) : Type 0 where
  pub cic : Cic
  pub fir : Fir F
  pub cic_r : ℕ

module _ {F : Type 0} ⦃float : Float F⦄ where
  -- The loop of the constructor that brings the rate to at most `factor` times the output rate, on
  -- fuel: `cicR_` and `cicD`.
  unfoldable pub cic_rates : ℕ → F → F → ℕ → ℕ → ℕ × ℕ
  cic_rates zero input_rate bound cic_r cic_d = (cic_r, cic_d)
  cic_rates (suc fuel) input_rate bound cic_r cic_d =
      let rest = cic_rates fuel input_rate bound (cic_r + 1) (cic_d * 2) in
      if not (float.lt (float.div input_rate (float.of_nat cic_d)) bound)
      then rest
      else (cic_r, cic_d)

  -- `filter`, for a rational ratio: the bytes of one channel.
  unfoldable pub downsample : Downsampler F → List ℕ → Option (Downsampler F × List ℕ)
  unfolding cic_filter fir_filter
  downsample d samples =
      let (cic, sums) = cic_filter d.cic samples in
      let scaled =
        if not (d.cic_r == 1)
        then map (λ s. float.div (float.of_nat s) (float.of_nat d.cic.gain)) sums
        else map float.of_nat samples in
      let cic = if not (d.cic_r == 1) then cic else d.cic in
      elim (fir_filter d.fir scaled) [
        | none ↦ none
        | some (fir, outs) ↦
            some (record d { cic = cic; fir = fir }, map (λ o. float.trunc o % 256) outs)
      ]
