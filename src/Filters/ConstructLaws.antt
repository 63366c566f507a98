-- ===== src/Filters/ConstructLaws.antt =====
-- MiscBlocks/Filter/Resampler/Downsampler.h: the ratio of the filters that the constructor makes.
use native.Mathlib.Nat.{mul_assoc, mul_comm}
use es_sensor.Prelude.{
  ℕ, suc, ◌*◌, ◌/◌, ◌≤◌, ◌<◌, ◌≡◌, refl, ap, ◌∙◌, sym, Option, none, some, List, arith, ltb, ◌==◌,
  if-both,
}
use es_sensor.Numeric.{Float}
use es_sensor.Filters.Cic.{construct}
use es_sensor.Filters.Fir.{construct_fir}
use es_sensor.Filters.Downsampler.{Downsampler, gcd, cic_rates}
use es_sensor.Filters.Construct.{
  with_taps, create_filters, construct_downsampler, Divides, gcd-Divides,
}
use es_sensor.Decoder.Programs.{ResamplerConfig}

quotient : (g k : ℕ) → 0 < g → k * g / g ≡ k
quotient g k h = grind arith

-- Divided by a common divisor, two numbers keep their ratio.
same_ratio : (g n m : ℕ) → 0 < g → Divides g n → Divides g m → n / g * m ≡ m / g * n
same_ratio g n m h (a, e) (b, f) =
    let first : n / g ≡ a = ap (λ (x : ℕ). x / g) e ∙ quotient g a h in
    let second : m / g ≡ b = ap (λ (x : ℕ). x / g) f ∙ quotient g b h in
    let cross : a * (b * g) ≡ b * (a * g) =
      sym (mul_assoc a b g) ∙ ap (λ (x : ℕ). x * g) (mul_comm a b) ∙ mul_assoc b a g in
    rw (first, second) (ap (λ (x : ℕ). a * x) f ∙ cross ∙ ap (λ (x : ℕ). b * x) (sym e))

module _ {F : Type 0} ⦃float : Float F⦄ (pi : F) (sin cos : F → F) (pow : F → F → F) (ceil : F → ℕ)
    (abs : F → F) (fuel sums : ℕ) where
  abbrev Rates : ℕ → ℕ → ℕ → Option (Downsampler F) → Type 0
  Rates cic_d i k none = Unit
  Rates cic_d i k (some d) = (d.cic.rate ≡ cic_d) × (d.fir.rate_i ≡ i) × (d.fir.rate_d ≡ k)

  with_taps-Rates :
      (cfg : ResamplerConfig F) (cic_r cic_d i k : ℕ) (o : Option (List F))
      → Rates cic_d i k (with_taps pi sin cos pow ceil abs fuel sums cfg cic_r cic_d i k o)
  unfolding with_taps construct construct_fir
  with_taps-Rates cfg cic_r cic_d i k none = tt
  with_taps-Rates cfg cic_r cic_d i k (some taps) = (refl, refl, refl)

  create_filters-Rates :
      (cfg : ResamplerConfig F) (cic_r cic_d i k : ℕ)
      → Rates cic_d i k (create_filters pi sin cos pow ceil abs fuel sums cfg cic_r cic_d i k)
  unfolding create_filters
  create_filters-Rates cfg cic_r cic_d i k = with_taps-Rates cfg cic_r cic_d i k _

  -- The polyphase filter's rates stand in the ratio of the output rate to the input rate that is left,
  -- and the first is at most the largest interpolation.
  abbrev pub InRatio : ResamplerConfig F → ℕ → ℕ → Option (Downsampler F) → Type 0
  InRatio cfg decimation interpolation none = Unit
  InRatio cfg decimation interpolation (some d) =
      (d.fir.rate_i * decimation ≡ d.fir.rate_d * interpolation)
      × (d.fir.rate_i ≤ cfg.max_interpolation)

  Rates-InRatio :
      (cfg : ResamplerConfig F) (cic_d n m i k : ℕ) (o : Option (Downsampler F))
      → i * n ≡ k * m
      → i ≤ cfg.max_interpolation
      → Rates cic_d i k o
      → InRatio cfg n m o
  Rates-InRatio cfg cic_d n m i k none e le r = tt
  Rates-InRatio cfg cic_d n m i k (some d) e le (rate, ri, rd) = rw (ri, rd) (e, le)

  -- The filters that the constructor makes: the polyphase filter's rates stand exactly in the ratio of
  -- the output rate to the rate that the CIC filter leaves, both as the integers that they are converted
  -- to, and the interpolation is at most the largest allowed.
  pub construct_downsampler-InRatio :
      (cfg : ResamplerConfig F)
      → let bound = float.mul (float.of_nat cfg.cic_oversample_factor) cfg.output_rate in
        let cic_d = (cic_rates fuel cfg.input_rate bound 1 1).1 in
        InRatio cfg
          (float.trunc (float.div cfg.input_rate (float.of_nat cic_d)))
          (float.trunc cfg.output_rate)
          (construct_downsampler pi sin cos pow ceil abs fuel sums cfg)
  unfolding construct_downsampler
  construct_downsampler-InRatio cfg =
      let bound = float.mul (float.of_nat cfg.cic_oversample_factor) cfg.output_rate in
      let cic_r = (cic_rates fuel cfg.input_rate bound 1 1).0 in
      let cic_d = (cic_rates fuel cfg.input_rate bound 1 1).1 in
      let m = float.trunc cfg.output_rate in
      let n = float.trunc (float.div cfg.input_rate (float.of_nat cic_d)) in
      let d = gcd (suc m) n m in
      let (divides_n, divides_m) = gcd-Divides (suc m) n m (omega arith) in
      if-both (InRatio cfg n m) (d == 0) (λ _. tt)
        (λ some_d.
          if-both (InRatio cfg n m) (ltb cfg.max_interpolation (m / d)) (λ _. tt)
            (λ allowed.
              Rates-InRatio cfg cic_d n m (m / d) (n / d) _
                (same_ratio d m n (ground (arith, some_d)) divides_m divides_n)
                (ground (arith, allowed)) (create_filters-Rates cfg cic_r cic_d (m / d) (n / d))))
