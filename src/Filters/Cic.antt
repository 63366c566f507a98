-- ===== src/Filters/Cic.antt =====
-- MiscBlocks/Filter/CIC: the integrators, the combs and the CIC filter over `uint32_t`, the internal
-- type that IQStream asks for. Of the two arrays of `maxOrder` (16) entries only the first `order_`
-- are kept; the model is of orders up to 16, above which the source writes behind them.
use es_sensor.Prelude.{
  ℕ, zero, suc, ◌+◌, ◌%◌, ◌^◌, Option, none, some, List, [], ◌∷◌, leb, if◌then◌else◌, replicate,
}
use es_sensor.Numeric.{add32, sub32, mul32}

-- `Integrator::update` and `Comb::update`: the output and the new value.
unfoldable pub integrator_update : ℕ → ℕ → ℕ × ℕ
integrator_update input value = let out = add32 input value in (out, out)

unfoldable pub comb_update : ℕ → ℕ → ℕ × ℕ
comb_update input value = (sub32 input value, input)

-- A stage for each value: the values afterwards, and what the last stage gives.
unfoldable pub run_integrators : List ℕ → ℕ → List ℕ × ℕ
unfolding integrator_update
run_integrators [] sample = ([], sample)
run_integrators (value ∷ values) sample =
    let (out, value') = integrator_update sample value in
    let (values', last) = run_integrators values out in (value' ∷ values', last)

unfoldable pub run_combs : List ℕ → ℕ → List ℕ × ℕ
unfolding comb_update
run_combs [] sample = ([], sample)
run_combs (value ∷ values) sample =
    let (out, value') = comb_update sample value in
    let (values', last) = run_combs values out in (value' ∷ values', last)

pub record Cic : Type 0 where
  pub rate : ℕ
  pub gain : ℕ
  pub out_index : ℕ
  pub integrators : List ℕ
  pub combs : List ℕ

unfoldable pub gain_of : ℕ → ℕ → ℕ
gain_of zero rate = 1
gain_of (suc order) rate = mul32 (gain_of order rate) rate

unfoldable pub construct : ℕ → ℕ → Cic
unfolding gain_of
construct order rate = record {
  rate = rate;
  gain = gain_of order rate;
  out_index = 0;
  integrators = replicate order 0;
  combs = replicate order 0;
}

-- One turn of the loop in `filter`: a sample, and what is put out for it.
unfoldable pub cic_step : Cic → ℕ → Cic × Option ℕ
unfolding run_integrators run_combs
cic_step c input =
    let (integrators, sample) = run_integrators c.integrators (input % 2 ^ 32) in
    let (combs, out) = run_combs c.combs sample in
    if leb c.rate (c.out_index + 1)
    then (record c { out_index = 0; integrators = integrators; combs = combs }, some out)
    else (record c { out_index = c.out_index + 1; integrators = integrators }, none)

abbrev pub put_out : Option ℕ → List ℕ → List ℕ
put_out none outs = outs
put_out (some out) outs = out ∷ outs

unfoldable pub cic_filter : Cic → List ℕ → Cic × List ℕ
unfolding cic_step
cic_filter c [] = (c, [])
cic_filter c (input ∷ inputs) =
    let (c', out) = cic_step c input in
    let (c'', outs) = cic_filter c' inputs in (c'', put_out out outs)
