-- ===== src/Tests/Filters.antt =====
-- Runs on MiscBlocks/Filter.
use es_sensor.Prelude.{
  true, ◌/◌, ℕ, ◌+◌, ◌*◌, ◌%◌, ◌^◌, ◌≤◌, ◌<◌, ◌≡◌, refl, Option, none, some, List, [], ◌∷◌, arith,
  length,
}
use es_sensor.Numeric.{Fixed, fixed_float}
use es_sensor.Filters.Cic.{construct, cic_filter, gain_of}
use es_sensor.Filters.Streams.{Stream, repeated, last_sum, decimated}
use es_sensor.Filters.CicLaws.{segment, sums, cic_filter-sums}
use es_sensor.Filters.CicGain.{cic_filter-exact}
use es_sensor.Filters.Fir.{Fir, construct_fir, fir_filter}
use es_sensor.Filters.Rings.{values}
use es_sensor.Filters.FirLaws.{resampled, fir_filter-resampled}
use es_sensor.Filters.Downsampler.{Downsampler, gcd, cic_rates}
use es_sensor.Filters.Design.{kaiser_order, least_ripple, summed_tap, build_fir_filter}
use es_sensor.Filters.Mirrors.{Mirrored}
use es_sensor.Filters.DesignLaws.{Summable, build_fir_filter-Mirrored}
use es_sensor.Filters.Construct.{construct_downsampler}
use es_sensor.Filters.ConstructLaws.{InRatio, construct_downsampler-InRatio}
use es_sensor.Decoder.Programs.{ResamplerConfig}

abbrev ramp : Stream
ramp n = n % 4

cic_filter_run : (cic_filter (construct 2 2) (1 ∷ 1 ∷ 1 ∷ 1 ∷ 1 ∷ [])).1 ≡ 3 ∷ 4 ∷ []
unfolding cic_filter construct
cic_filter_run = refl

cic_filter-sums_example :
    (cic_filter (construct 2 2) (segment ramp 0 5)).1 ≡ segment (sums 2 2 ramp) 0 2
cic_filter-sums_example = cic_filter-sums 2 2 ramp 5 2 1 (omega arith) refl

ramp-le : (j : ℕ) → ramp j ≤ 3
ramp-le j = grind arith

cic_filter-exact_example :
    let exact = decimated 2 (repeated 2 (last_sum 2) ramp) in
    let c = construct 2 2 in
    ((cic_filter c (segment ramp 0 5)).1 ≡ segment exact 0 2)
    × (c.gain ≡ 2 ^ 2)
    × ((k : ℕ) → exact k ≤ c.gain * 3)
cic_filter-exact_example =
    cic_filter-exact 2 2 3 ramp 5 2 1 ramp-le (omega arith) (omega arith) (omega arith) refl

-- The test numbers count 600ths, and a product is taken in them.
abbrev inputs : ℕ → Fixed
inputs n = (n + 1) * 600

abbrev taps : List Fixed
taps = 600 ∷ 1200 ∷ 1800 ∷ 2400 ∷ []

abbrev filtered : Option (Fir Fixed × List Fixed) → List Fixed
filtered none = []
filtered (some (fir, ys)) = ys

-- Two outputs for each three inputs.
fir_filter_run :
    filtered (fir_filter (construct_fir taps 2 3) (values inputs 0 4))
    ≡ 600 ∷ 8 * 600 ∷ 13 * 600 ∷ []
unfolding fir_filter construct_fir
fir_filter_run = refl

abbrev FilterResult : Type 0
FilterResult =
    let fir = construct_fir taps 2 3 in
    let size = length fir.delay_line in
    (fir' : Fir Fixed) × (count : ℕ) × (fir_filter fir (values inputs 0 4)
      ≡ some (fir', values (resampled inputs fir.taps 2 3 size) 0 count))
    × (4 * 2 ≤ count * 3)
    × (count * 3 < 4 * 2 + 3)

some_line : 0 < length (construct_fir taps 2 3).delay_line
unfolding construct_fir
some_line = omega arith

fir_filter-resampled_example : FilterResult
fir_filter-resampled_example = fir_filter-resampled inputs taps 2 3 4 some_line (omega arith)

gcd_run : gcd 10 240_000 60_000 ≡ 60_000
unfolding gcd
gcd_run = refl

-- The gain at the rate that the constructor takes for an output rate of 6 kHz.
gain_of_run : gain_of 6 128 ≡ 0
unfolding gain_of
gain_of_run = refl

abbrev identity : Fixed → Fixed
identity x = x

abbrev product : Fixed → Fixed → Fixed
product x y = x * y / 600

abbrev four : Fixed → ℕ
four x = 3

abbrev flat_gain : Option (Fixed → Fixed)
flat_gain = some (λ f. 600)

flat-Summable :
    Summable 1885 identity identity product four 4 flat_gain (fixed_float.div 600 600) 300 4
unfolding summed_tap
flat-Summable i = (_, refl)

build_fir_filter-Mirrored_example :
    (taps : List Fixed) × (build_fir_filter 1885 identity identity product four 4 600 600 600 0
        flat_gain 300
      ≡ some taps)
    × (length taps
        ≡ kaiser_order 1885 identity identity product four
            (least_ripple 1885 identity identity product four 0)
            600
            600
          + 1)
    × Mirrored taps
unfolding kaiser_order
build_fir_filter-Mirrored_example =
    build_fir_filter-Mirrored 1885 identity identity product four 4 600 600 600 0 flat_gain 300
      flat-Summable

-- From 2.4 MHz to 1.6 MHz, in kHz.
abbrev ais : ResamplerConfig Fixed
ais = record {
  rational = true;
  input_rate = 2400 * 600;
  output_rate = 1600 * 600;
  max_interpolation = 32;
  cic_order = 6;
  cic_oversample_factor = 4;
  desired_ripple = 0;
  transition_width_fraction = 120;
  cutoff_fraction = 120;
}

abbrev rates_of : Option (Downsampler Fixed) → ℕ × ℕ
rates_of none = (0, 0)
rates_of (some d) = (d.fir.rate_i, d.fir.rate_d)

construct_downsampler_run :
    rates_of (construct_downsampler 1885 identity identity product four identity 20 4 ais) ≡ (2, 3)
unfolding construct_downsampler
construct_downsampler_run = refl

construct_downsampler-InRatio_example :
    let bound = fixed_float.mul (fixed_float.of_nat 4) ais.output_rate in
    let cic_d = (cic_rates 20 ais.input_rate bound 1 1).1 in
    InRatio 1885 identity identity product four identity 20 4 ais
      (fixed_float.trunc (fixed_float.div ais.input_rate (fixed_float.of_nat cic_d)))
      (fixed_float.trunc ais.output_rate)
      (construct_downsampler 1885 identity identity product four identity 20 4 ais)
construct_downsampler-InRatio_example =
    construct_downsampler-InRatio 1885 identity identity product four identity 20 4 ais
