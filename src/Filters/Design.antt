-- ===== src/Filters/Design.antt =====
-- MiscBlocks/Filter/FIR/FIRDesign.cpp: the taps of a filter, from a Kaiser window and the filter's
-- impulse response. `none` is a sum that does not come to its end, or an index outside a vector.
use es_sensor.Prelude.{
  ℕ, zero, suc, ◌+◌, ◌-◌, ◌*◌, ◌/◌, ◌%◌, Option, none, some, List, [], ◌∷◌, ◌==◌, if◌then◌else◌,
  length, replicate, ltb,
}
use es_sensor.Numeric.{Float}
use es_sensor.Filters.Fir.{set}

-- A write into a vector; `none` writes behind it.
unfoldable pub put {ℓ} : {A : Type ℓ} → List A → ℕ → A → Option (List A)
put xs i v = if ltb i (length xs) then some (set xs i v) else none

-- One value at `i` and at `last - i`; an index below 0 is outside too.
unfoldable pub put_pair {ℓ} : {A : Type ℓ} → List A → ℕ → ℕ → A → Option (List A)
unfolding put
put_pair xs last i v = elim (put xs i v) [
  | none ↦ none
  | some ys ↦ if ltb last i then none else put ys (last - i) v
]

-- The loops that write a value for `i` at both ends, of which the last index is `last`.
unfoldable pub mirror {ℓ} : {A : Type ℓ} → (ℕ → Option A) → ℕ → ℕ → ℕ → List A → Option (List A)
unfolding put_pair
mirror value last zero i xs = some xs
mirror value last (suc count) i xs = elim (value i) [
  | none ↦ none
  | some v ↦ elim (put_pair xs last i v) [
    | none ↦ none
    | some ys ↦ mirror value last count (i + 1) ys
  ]
]

module _ {F : Type 0} ⦃float : Float F⦄ where
  -- `filter[i] *= window[i]`; `none` reads behind the window.
  unfoldable pub multiply : List F → List F → Option (List F)
  multiply [] window = some []
  multiply (x ∷ filter) [] = none
  multiply (x ∷ filter) (w ∷ window) = elim (multiply filter window) [
    | none ↦ none
    | some rest ↦ some (float.mul x w ∷ rest)
  ]

-- `pi`, `sinf`, `cosf`, `powf`, and `ceilf` with the conversion to an integer, are the standard
-- library's.
module _ {F : Type 0} ⦃float : Float F⦄ (pi : F) (sin cos : F → F) (pow : F → F → F)
    (ceil : F → ℕ) where
  unfoldable pub bessel_loop : ℕ → ℕ → F → F → F → F → F
  bessel_loop zero i x fac x2 result = result
  bessel_loop (suc count) i x fac x2 result =
      let fac = float.mul fac (float.of_nat (i * i)) in
      let x2 = float.mul x2 x in
      bessel_loop count (i + 1) x fac x2 (float.add result (float.div x2 fac))

  unfoldable pub bessel_i0 : F → F
  unfolding bessel_loop
  bessel_i0 x =
      let one = float.of_nat 1 in
      bessel_loop 15 1 (float.div (float.mul x x) (float.of_nat 4)) one one one

  -- `m`, for a ripple that is -21 at most: the window has one value more.
  unfoldable pub kaiser_order : F → F → F → ℕ
  kaiser_order rip tw fs =
      let tw = float.div (float.mul (float.mul (float.of_nat 2) pi) tw) fs in
      ceil (
        float.div (float.sub (float.neg (float.lit 795 100)) rip)
          (float.mul (float.lit 2285 1000) tw))

  unfoldable pub kaiser_beta : F → F
  kaiser_beta rip =
      let above = float.sub (float.neg (float.of_nat 21)) rip in
      if float.lt rip (float.neg (float.of_nat 50))
      then float.mul (float.lit 1102 10_000) (float.sub (float.neg (float.lit 87 10)) rip)
      else float.add (float.mul (float.lit 7886 100_000) above)
          (float.mul (float.lit 5842 10_000) (pow above (float.lit 4 10)))

  unfoldable pub kaiser_value : F → ℕ → ℕ → F
  unfolding bessel_i0
  kaiser_value beta m i =
      let one = float.of_nat 1 in
      let x =
        float.sub (float.div (float.mul (float.of_nat 2) (float.of_nat i)) (float.of_nat m)) one in
      float.div (bessel_i0 (float.mul beta (float.sqrt (float.sub one (pow x (float.of_nat 2))))))
        (bessel_i0 beta)

  abbrev pub least_ripple : F → F
  least_ripple rip =
      if float.lt (float.neg (float.of_nat 21)) rip then float.neg (float.of_nat 21) else rip

  unfoldable pub build_kaiser : F → F → F → Option (List F)
  unfolding mirror kaiser_order kaiser_beta kaiser_value
  build_kaiser rip tw fs =
      let rip = least_ripple rip in
      let m = kaiser_order rip tw fs in
      mirror (λ i. some (kaiser_value (kaiser_beta rip) m i)) m (m / 2 + 1) 0
        (replicate (m + 1) (float.of_nat 0))

  -- The value without a gain, by the closed form of the integral.
  unfoldable pub closed_tap : F → ℕ → ℕ → F
  closed_tap ft taps i =
      let k = float.sub (float.of_nat i) (float.div (float.of_nat (taps - 1)) (float.of_nat 2)) in
      float.div (float.div (sin (float.mul (float.mul (float.mul (float.of_nat 2) pi) ft) k)) k) pi

  -- `for (float f = -ft; f <= ft; f += step)`, on fuel.
  unfoldable pub sum_loop : (F → F) → F → F → ℕ → ℕ → ℕ → F → F → Option F
  sum_loop gain ft step taps i zero f sum = if float.lt ft f then some sum else none
  sum_loop gain ft step taps i (suc fuel) f sum =
      let half = float.div (float.of_nat taps) (float.of_nat 2) in
      let place = float.sub (float.add (float.lit 1 2) (float.of_nat i)) half in
      let rest = sum_loop gain ft step taps i fuel (float.add f step) (
        float.add sum (
          float.mul (gain f)
            (cos (float.mul (float.mul (float.mul (float.of_nat 2) pi) f) place)))) in
      if float.lt ft f then some sum else rest

  unfoldable pub summed_tap : ℕ → (F → F) → F → F → ℕ → ℕ → Option F
  unfolding sum_loop
  summed_tap fuel gain ft step taps i =
      elim (sum_loop gain ft step taps i fuel (float.neg ft) (float.of_nat 0)) [
        | none ↦ none
        | some sum ↦ some (float.mul sum step)
      ]

  unfoldable pub build_fir_base : ℕ → F → F → ℕ → Option (F → F) → F → Option (List F)
  unfolding mirror put closed_tap summed_tap
  build_fir_base fuel fc fs taps gain step =
      let ft = float.div fc fs in
      let zeros : List F = replicate taps (float.of_nat 0) in
      if taps == 0 then some [] else elim gain [
        | none ↦
            if taps == 1
            then some (float.of_nat 1 ∷ [])
            else elim (mirror (λ i. some (closed_tap ft taps i)) (taps - 1) (taps / 2) 0 zeros) [
              | none ↦ none
              | some xs ↦
                  if taps % 2 == 1
                  then put xs (taps / 2) (float.mul (float.of_nat 2) ft)
                  else some xs
            ]
        | some g ↦
            if taps == 1
            then some (g (float.of_nat 0) ∷ [])
            else mirror (summed_tap fuel g ft step taps) (taps - 1) (taps / 2 + 1) 0 zeros
      ]

  unfoldable pub build_fir_filter : ℕ → F → F → F → F → Option (F → F) → F → Option (List F)
  unfolding build_kaiser build_fir_base multiply
  build_fir_filter fuel fc tw fs rip gain step = elim (build_kaiser rip tw fs) [
    | none ↦ none
    | some window ↦ elim (build_fir_base fuel fc fs (length window) gain step) [
      | none ↦ none
      | some filter ↦ multiply filter window
    ]
  ]
