-- ===== src/Filters/Construct.antt =====
-- MiscBlocks/Filter/Resampler/Downsampler.h: the constructor, for a rational ratio. `none` is its
-- exception, a division by 0 or a sum of the design that does not end.
use native.Mathlib.Nat.{div-add-mod', mul_assoc, add-mul}
use es_sensor.Prelude.{
  ℕ, zero, suc, ◌+◌, ◌*◌, ◌/◌, ◌%◌, ◌<◌, ◌≡◌, ap, ◌∙◌, sym, not, ◌&&◌, Option, none, some, List,
  map, arith, ltb, ◌==◌, if◌then◌else◌, Bool-cases, inl, inr,
}
use es_sensor.Numeric.{Float}
use es_sensor.Filters.Cic.{construct}
use es_sensor.Filters.Fir.{construct_fir}
use es_sensor.Filters.Design.{build_fir_filter}
use es_sensor.Filters.Downsampler.{Downsampler, gcd, cic_rates}
use es_sensor.Decoder.Programs.{ResamplerConfig}

-- `abs` is the standard library's `fabsf`; the others are the design's. `fuel` is for the loop over the
-- rates, `sums` for the sums of the design.
module _ {F : Type 0} ⦃float : Float F⦄ (pi : F) (sin cos : F → F) (pow : F → F → F) (ceil : F → ℕ)
    (abs : F → F) (fuel sums : ℕ) where
  unfoldable pub get_gain : ℕ → ℕ → F → F
  get_gain order rate f =
      let low = sin (float.mul (float.div pi (float.of_nat rate)) f) in
      let tmp = abs (float.div (float.div (sin (float.mul pi f)) low) (float.of_nat rate)) in
      if not (float.lt f (float.of_nat 0)) && not (float.lt (float.of_nat 0) f)
      then float.of_nat 1
      else pow tmp (float.of_nat order)

  abbrev pub order_of : ResamplerConfig F → ℕ → ℕ
  order_of cfg cic_r = if cic_r == 1 then 0 else cfg.cic_order

  unfoldable pub with_taps :
      ResamplerConfig F → ℕ → ℕ → ℕ → ℕ → Option (List F) → Option (Downsampler F)
  unfolding construct construct_fir
  with_taps cfg cic_r cic_d interpolation decimation none = none
  with_taps cfg cic_r cic_d interpolation decimation (some taps) = some (record {
    cic = construct (order_of cfg cic_r) cic_d;
    fir =
        construct_fir (map (λ t. float.mul t (float.of_nat interpolation)) taps) interpolation
          decimation;
    cic_r = cic_r;
  })

  -- The two filters, for the rates of the CIC filter and the ratio in lowest terms.
  unfoldable pub create_filters : ResamplerConfig F → ℕ → ℕ → ℕ → ℕ → Option (Downsampler F)
  unfolding with_taps get_gain build_fir_filter
  create_filters cfg cic_r cic_d interpolation decimation =
      let order = order_of cfg cic_r in
      let fir_input = float.div cfg.input_rate (float.of_nat cic_d) in
      let gain : Option (F → F) =
        if cic_r == 1
        then none
        else some (λ f. float.div (float.of_nat 1) (get_gain order cic_d f)) in
      let actual =
        float.div (float.mul fir_input (float.of_nat interpolation)) (float.of_nat decimation) in
      with_taps cfg cic_r cic_d interpolation decimation (
        build_fir_filter pi sin cos pow ceil sums (float.mul actual cfg.cutoff_fraction)
          (float.mul actual cfg.transition_width_fraction)
          (float.mul fir_input (float.of_nat interpolation)) cfg.desired_ripple gain
          (float.lit 5 10_000))

  unfoldable pub construct_downsampler : ResamplerConfig F → Option (Downsampler F)
  unfolding cic_rates gcd create_filters
  construct_downsampler cfg =
      let bound = float.mul (float.of_nat cfg.cic_oversample_factor) cfg.output_rate in
      let (cic_r, cic_d) = cic_rates fuel cfg.input_rate bound 1 1 in
      let interpolation = float.trunc cfg.output_rate in
      let decimation = float.trunc (float.div cfg.input_rate (float.of_nat cic_d)) in
      let d = gcd (suc interpolation) decimation interpolation in
      if d == 0
      then none
      else if ltb cfg.max_interpolation (interpolation / d)
      then none
      else create_filters cfg cic_r cic_d (interpolation / d) (decimation / d)

-- `g` divides `n`.
abbrev pub Divides : ℕ → ℕ → Type 0
Divides g n = (k : ℕ) × (n ≡ k * g)

Divides-mod : (g v1 v2 : ℕ) → Divides g v2 → Divides g (v1 % v2) → Divides g v1
Divides-mod g v1 v2 (a, e) (b, f) = (
  v1 / v2 * a + b,
  let parts : v1 / v2 * v2 + v1 % v2 ≡ v1 = div-add-mod' v1 v2 in
      let first : v1 / v2 * v2 ≡ v1 / v2 * a * g =
        ap (λ (n : ℕ). v1 / v2 * n) e ∙ sym (mul_assoc (v1 / v2) a g) in
      let both : (v1 / v2 * a + b) * g ≡ v1 / v2 * a * g + b * g = add-mul (v1 / v2 * a) b g in
      omega (arith, parts, first, f, both),
)

-- Where the fuel is above the second number, `gcd` divides both.
pub gcd-Divides :
    (fuel v1 v2 : ℕ) → v2 < fuel → Divides (gcd fuel v1 v2) v1 × Divides (gcd fuel v1 v2) v2
unfolding gcd
gcd-Divides zero v1 v2 h = absurd (omega arith)
gcd-Divides (suc fuel) v1 v2 h = elim (Bool-cases (v2 == 0)) [
  | inl e ↦
      let none_left : v2 ≡ 0 = ground (arith, e) in
      rw e ((1, omega arith), (0, omega (arith, none_left)))
  | inr e ↦
      let smaller : v1 % v2 < fuel = ground (arith, e) in
      let (second, rest) = gcd-Divides fuel v2 (v1 % v2) smaller in
      rw e (Divides-mod (gcd fuel v2 (v1 % v2)) v1 v2 second rest, second)
]
