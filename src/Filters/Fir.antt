-- ===== src/Filters/Fir.antt =====
-- MiscBlocks/Filter/FIR/RationalFIRFilter.h: the polyphase filter. A read or a write outside a vector
-- is `none`.
use es_sensor.Prelude.{
  ℕ, zero, suc, ◌+◌, ◌-◌, ◌*◌, ◌/◌, ◌%◌, Option, none, some, List, [], ◌∷◌, ◌++◌, ltb, leb, ◌==◌,
  if◌then◌else◌, length, get_elem?, replicate,
}
use es_sensor.Numeric.{Float}

pub record Fir (F : Type 0) : Type 0 where
  pub taps : List F
  pub rate_i : ℕ
  pub rate_d : ℕ
  pub delay_line : List F
  pub delay_index : ℕ
  pub out_index : ℕ

-- `xs[i] = x`, for an index inside.
abbrev pub set {ℓ} : {A : Type ℓ} → List A → ℕ → A → List A
set [] i v = []
set (x ∷ xs) zero v = v ∷ xs
set (x ∷ xs) (suc i) v = x ∷ set xs i v

abbrev pub step_back : ℕ → ℕ → ℕ
step_back size index = if index == 0 then size - 1 else index - 1

abbrev pub step_on : ℕ → ℕ → ℕ
step_on size index = if leb size (index + 1) then 0 else index + 1

module _ {F : Type 0} ⦃float : Float F⦄ where
  -- The taps are padded with `size % rate_i` zeros.
  unfoldable pub construct_fir : List F → ℕ → ℕ → Fir F
  construct_fir taps rate_i rate_d =
      let padded = taps ++ replicate (length taps % rate_i) (float.of_nat 0) in
      record {
        taps = padded;
        rate_i = rate_i;
        rate_d = rate_d;
        delay_line = replicate (length padded / rate_i) (float.of_nat 0);
        delay_index = 0;
        out_index = 0;
      }

  -- The loop of `calcPolyphase`, with `count` rounds left, of which `j` is the next.
  unfoldable pub polyphase_loop : Fir F → ℕ → ℕ → ℕ → F → Option F
  polyphase_loop fir zero j index o = some o
  polyphase_loop fir (suc count) j index o = elim (get_elem? fir.delay_line index) [
    | none ↦ none
    | some x ↦ elim (get_elem? fir.taps (fir.out_index + fir.rate_i * j)) [
      | none ↦ none
      | some tap ↦
          polyphase_loop fir count (j + 1) (step_back (length fir.delay_line) index)
            (float.add o (float.mul x tap))
    ]
  ]

  unfoldable pub calc_polyphase : Fir F → Option F
  unfolding polyphase_loop
  calc_polyphase fir = polyphase_loop fir (length fir.delay_line) 0 fir.delay_index (float.of_nat 0)

  -- The loop that puts out values until `outIndex_` has reached `rateI_`, on fuel: `none` too where it
  -- runs out. The sum of the two rates is taken to be below 2 ^ 32.
  unfoldable pub output_loop : ℕ → Fir F → Option (Fir F × List F)
  unfolding calc_polyphase
  output_loop zero fir = if ltb fir.out_index fir.rate_i then none else some (fir, [])
  output_loop (suc fuel) fir =
      let more : Option (Fir F × List F) = elim (calc_polyphase fir) [
        | none ↦ none
        | some y ↦ elim (output_loop fuel (record fir { out_index = fir.out_index + fir.rate_d })) [
          | none ↦ none
          | some (fir', ys) ↦ some (fir', y ∷ ys)
        ]
      ] in
      if ltb fir.out_index fir.rate_i then more else some (fir, [])

  -- One turn of the loop in `filter`. With `rateD_` above 0, `rateI_` rounds of the inner loop are
  -- enough.
  unfoldable pub fir_step : Fir F → F → Option (Fir F × List F)
  unfolding output_loop
  fir_step fir x =
      if ltb fir.delay_index (length fir.delay_line)
      then elim (output_loop fir.rate_i
          (record fir { delay_line = set fir.delay_line fir.delay_index x })) [
            | none ↦ none
            | some (fir', ys) ↦ some (
              record fir' {
                out_index = fir'.out_index - fir'.rate_i;
                delay_index = step_on (length fir'.delay_line) fir'.delay_index;
              },
              ys,
            )
          ]
      else none

  unfoldable pub fir_filter : Fir F → List F → Option (Fir F × List F)
  unfolding fir_step
  fir_filter fir [] = some (fir, [])
  fir_filter fir (x ∷ xs) = elim (fir_step fir x) [
    | none ↦ none
    | some (fir', ys) ↦ elim (fir_filter fir' xs) [
      | none ↦ none
      | some (fir'', zs) ↦ some (fir'', ys ++ zs)
    ]
  ]
