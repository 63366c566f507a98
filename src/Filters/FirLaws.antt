-- ===== src/Filters/FirLaws.antt =====
-- MiscBlocks/Filter/FIR/RationalFIRFilter.h: the polyphase filter against the plain sum that it stands
-- for, with its delay line as a ring.
use es_sensor.Prelude.{
  ℕ, zero, suc, ◌+◌, ◌-◌, ◌*◌, ◌/◌, ◌%◌, ◌≤◌, ◌<◌, ◌≡◌, refl, ap, ◌∙◌, true, false, inl, inr,
  Bool-cases, Option, none, some, List, ◌∷◌, ◌++◌, arith, ltb, length, replicate, length-replicate,
}
use es_sensor.Numeric.{Float}
use es_sensor.Filters.Fir.{
  Fir, set, construct_fir, step_on, calc_polyphase, output_loop, fir_step, fir_filter,
}
use es_sensor.Filters.Rings.{
  get_elem?-replicate, length-set, position_div, slot, slot-start, step_on-lt, values,
  values-append,
}
use es_sensor.Filters.Polyphase.{
  Holds, Ready, fir_at, next-Ready, polyphase-weighted, weighted, write-Holds,
}

next_position :
    (k rate_d rate_i n o : ℕ)
    → k * rate_d ≡ n * rate_i + o
    → suc k * rate_d ≡ n * rate_i + (o + rate_d)
next_position k rate_d rate_i n o e = grind arith

less_fuel :
    (rate_i rate_d o fuel : ℕ)
    → rate_i ≤ o + suc fuel * rate_d
    → rate_i ≤ o + rate_d + fuel * rate_d
less_fuel rate_i rate_d o fuel h = grind arith

next_input : (n rate_i o : ℕ) → rate_i ≤ o → n * rate_i + o ≡ suc n * rate_i + (o - rate_i)
next_input n rate_i o h = grind arith

next_place :
    (k a b n m rate_d rate_i o : ℕ)
    → (k + a + b) * rate_d ≡ (suc n + m) * rate_i + o
    → (k + (a + b)) * rate_d ≡ (n + suc m) * rate_i + o
next_place k a b n m rate_d rate_i o e =
    let counts : k + (a + b) ≡ k + a + b = omega arith in
    let inputs : n + suc m ≡ suc n + m = omega arith in rw (counts, inputs) e

enough_fuel : (rate_i rate_d o : ℕ) → 0 < rate_d → rate_i ≤ o + rate_i * rate_d
enough_fuel rate_i rate_d o h = grind arith

module _ {F : Type 0} ⦃float : Float F⦄ (x : ℕ → F) (taps : List F) (rate_i rate_d : ℕ) where
  -- The k-th value of the filter: the plain sum at input `k * rate_d / rate_i`, with the taps of phase
  -- `k * rate_d % rate_i`.
  abbrev pub resampled : ℕ → ℕ → F
  resampled size k =
      weighted x taps rate_i (k * rate_d / rate_i) (k * rate_d % rate_i) size 0 (float.of_nat 0)

  -- What the inner loop gives for one input.
  record Outputs (n index : ℕ) (line : List F) (k o : ℕ) (r : Option (Fir F × List F))
      : Type 0 where
    count : ℕ
    left : ℕ
    outputs :
        r
        ≡ some
            (fir_at x taps rate_i rate_d line index left, values (resampled (length line)) k count)
    done : rate_i ≤ left
    place : (k + count) * rate_d ≡ n * rate_i + left
    near : o < rate_i + rate_d → left < rate_i + rate_d

  calc_lem :
      (line : List F) (n index o k : ℕ)
      → index < length line
      → o < rate_i
      → rate_i * length line ≤ length taps
      → Holds x taps rate_i n index line
      → k * rate_d ≡ n * rate_i + o
      → calc_polyphase (fir_at x taps rate_i rate_d line index o) ≡ some (resampled (length line) k)
  unfolding calc_polyphase
  calc_lem line n index o k hi ho ht holds e =
      let (quotient, phase) = position_div rate_i n o (k * rate_d) ho e in
      rw (quotient, phase, ← slot-start (length line) index)
        (polyphase-weighted x taps rate_i rate_d line n index o (length line) 0 (float.of_nat 0) hi
          ho ht holds (omega arith))

  no-Outputs :
      (fuel n index : ℕ) (line : List F) (k o : ℕ)
      → ltb o rate_i ≡ false
      → k * rate_d ≡ n * rate_i + o
      → Outputs n index line k o (output_loop fuel (fir_at x taps rate_i rate_d line index o))
  unfolding output_loop
  no-Outputs zero n index line k o e place = record {
    count = 0;
    left = o;
    outputs = rw e refl;
    done = ground arith;
    place = let same : k + 0 ≡ k = omega arith in rw same place;
    near = λ h. h;
  }
  no-Outputs (suc fuel) n index line k o e place = record {
    count = 0;
    left = o;
    outputs = rw e refl;
    done = ground arith;
    place = let same : k + 0 ≡ k = omega arith in rw same place;
    near = λ h. h;
  }

  output_lem :
      (fuel n index : ℕ) (line : List F) (k o : ℕ)
      → index < length line
      → rate_i * length line ≤ length taps
      → Holds x taps rate_i n index line
      → k * rate_d ≡ n * rate_i + o
      → rate_i ≤ o + fuel * rate_d
      → Outputs n index line k o (output_loop fuel (fir_at x taps rate_i rate_d line index o))
  unfolding output_loop
  output_lem zero n index line k o hi ht holds place enough =
      no-Outputs zero n index line k o (ground arith) place
  output_lem (suc fuel) n index line k o hi ht holds place enough =
      elim (Bool-cases (ltb o rate_i)) [
        | inl more ↦
            let rest =
              output_lem fuel n index line (suc k) (o + rate_d) hi ht holds
                (next_position k rate_d rate_i n o place) (less_fuel rate_i rate_d o fuel enough) in
            let one = calc_lem line n index o k hi (ground arith) ht holds place in
            record {
              count = suc rest.count;
              left = rest.left;
              outputs = rw (more, one, rest.outputs) refl;
              done = rest.done;
              place =
                  let same : k + suc rest.count ≡ suc k + rest.count = omega arith in
                  rw same rest.place;
              near = λ h. rest.near (ground arith);
            }
        | inr e ↦ no-Outputs (suc fuel) n index line k o e place
      ]

  -- What a filter with a delay line of `size` puts out for `m` inputs from the n-th on.
  record Filtered (size n m k : ℕ) (r : Option (Fir F × List F)) : Type 0 where
    fir : Fir F
    count : ℕ
    left : ℕ
    outputs : r ≡ some (fir, values (resampled size) k count)
    place : (k + count) * rate_d ≡ (n + m) * rate_i + left
    near : left < rate_d

  after_outputs : Option (Fir F × List F) → Option (Fir F × List F)
  after_outputs o = elim o [
    | none ↦ none
    | some (fir', ys) ↦ some (
      record fir' {
        out_index = fir'.out_index - fir'.rate_i;
        delay_index = step_on (length fir'.delay_line) fir'.delay_index;
      },
      ys,
    )
  ]

  step_lem :
      (n index size : ℕ) (line : List F) (k o : ℕ)
      → length line ≡ size
      → index < length line
      → (r : Outputs n index
          (set line index (x n))
          k
          o
          (output_loop rate_i (fir_at x taps rate_i rate_d (set line index (x n)) index o)))
      → fir_step (fir_at x taps rate_i rate_d line index o) (x n)
        ≡ some (
          fir_at x taps rate_i rate_d (set line index (x n)) (step_on size index) (r.left - rate_i),
          values (resampled size) k r.count,
        )
  unfolding fir_step after_outputs
  step_lem n index size line k o e hi r =
      let inside : ltb index (length line) ≡ true = ground arith in
      let same = length-set line index (x n) ∙ e in
      rw inside (
        ap after_outputs r.outputs
        ∙ ap
            (λ (size : ℕ). some (
              fir_at x taps rate_i rate_d (set line index (x n)) (step_on size index)
                  (r.left - rate_i),
              values (resampled size) k r.count,
            ))
            same)

  filter_step :
      (fir fir' fir'' : Fir F) (v : F) (vs ys zs : List F)
      → fir_step fir v ≡ some (fir', ys)
      → fir_filter fir' vs ≡ some (fir'', zs)
      → fir_filter fir (v ∷ vs) ≡ some (fir'', ys ++ zs)
  unfolding fir_filter
  filter_step fir fir' fir'' v vs ys zs one rest = rw (fir_filter, one, rest) refl

  fir_filter_lem :
      (m n index size : ℕ) (line : List F) (k o : ℕ)
      → length line ≡ size
      → index < size
      → rate_i * size ≤ length taps
      → 0 < rate_d
      → Ready x taps rate_i n index line
      → k * rate_d ≡ n * rate_i + o
      → o < rate_d
      → Filtered size n m k (fir_filter (fir_at x taps rate_i rate_d line index o) (values x n m))
  unfolding fir_filter
  fir_filter_lem zero n index size line k o e hi ht hd ready place near = record {
    fir = fir_at x taps rate_i rate_d line index o;
    count = 0;
    left = o;
    outputs = refl;
    place =
        let k0 : k + 0 ≡ k = omega arith in let n0 : n + 0 ≡ n = omega arith in rw (k0, n0) place;
    near = near;
  }
  fir_filter_lem (suc m) n index size line k o e hi ht hd ready place near =
      let same : length (set line index (x n)) ≡ size = length-set line index (x n) ∙ e in
      let inside : index < length line = omega (arith, e) in
      let written : index < length (set line index (x n)) = omega (arith, same) in
      let enough_taps : rate_i * length (set line index (x n)) ≤ length taps = rw same ht in
      let holds = write-Holds x taps rate_i n index line inside ready in
      let r =
        output_lem rate_i n index (set line index (x n)) k o written enough_taps holds place
          (enough_fuel rate_i rate_d o hd) in
      let left_near : r.left < rate_i + rate_d = r.near (omega arith) in
      let left_done : rate_i ≤ r.left = r.done in
      let rest =
        fir_filter_lem m (suc n) (step_on size index) size (set line index (x n)) (k + r.count)
          (r.left - rate_i) same (step_on-lt size index hi) ht hd
          (rw (← same) (next-Ready x taps rate_i n index (set line index (x n)) written holds))
          (r.place ∙ next_input n rate_i r.left left_done) (omega arith) in
      record {
        fir = rest.fir;
        count = r.count + rest.count;
        left = rest.left;
        outputs =
            filter_step (fir_at x taps rate_i rate_d line index o) _ _ (x n) _ _ _
              (step_lem n index size line k o e inside r) rest.outputs
            ∙ ap (λ ys. some (rest.fir, ys)) (values-append (resampled size) k r.count rest.count);
        place = next_place k r.count rest.count n m rate_d rate_i rest.left rest.place;
        near = rest.near;
      }

quotient-le : (n k : ℕ) → k * (n / k) ≤ n
quotient-le n k = grind arith

module _ {F : Type 0} ⦃float : Float F⦄ where
  Ready-start :
      (x : ℕ → F) (taps : List F) (rate_i size : ℕ)
      → Ready x taps rate_i 0 0 (replicate size (float.of_nat 0))
  Ready-start x taps rate_i size j hj =
      let same : length (replicate size (float.of_nat 0)) ≡ size = length-replicate size _ in
      get_elem?-replicate size (slot (length (replicate size (float.of_nat 0))) 0 (suc j))
        (float.of_nat 0) (ground (arith, same, hj))

  Filtered-bounds :
      (x : ℕ → F) (taps : List F) (rate_i rate_d size m : ℕ) (o : Option (Fir F × List F))
      → (r : Filtered x taps rate_i rate_d size 0 m 0 o)
      → (m * rate_i ≤ r.count * rate_d) × (r.count * rate_d < m * rate_i + rate_d)
  Filtered-bounds x taps rate_i rate_d size m o r =
      let place = r.place in let near = r.near in (grind (arith, place), grind (arith, place, near))

  -- From its construction on, for any taps and rates with an output rate above 0 and a delay line that
  -- is not empty, and for any number `m` of inputs, the filter ends inside its vectors, and its k-th
  -- value is the plain sum, over the length of the delay line, of the inputs back from input
  -- `k * rate_d / rate_i`, each times the padded tap of phase `k * rate_d % rate_i`. Their count is the
  -- least whose multiple of `rate_d` reaches `m * rate_i`.
  pub fir_filter-resampled :
      (x : ℕ → F) (taps : List F) (rate_i rate_d m : ℕ)
      → 0 < length (construct_fir taps rate_i rate_d).delay_line
      → 0 < rate_d
      → let fir = construct_fir taps rate_i rate_d in
        let size = length fir.delay_line in
        (fir' : Fir F) × (count : ℕ) × (fir_filter fir (values x 0 m)
          ≡ some (fir', values (resampled x fir.taps rate_i rate_d size) 0 count))
        × (m * rate_i ≤ count * rate_d)
        × (count * rate_d < m * rate_i + rate_d)
  unfolding construct_fir
  fir_filter-resampled x taps rate_i rate_d m some_line hd =
      let padded = taps ++ replicate (length taps % rate_i) (float.of_nat 0) in
      let size = length padded / rate_i in
      let same : length (replicate size (float.of_nat 0)) ≡ size = length-replicate size _ in
      let start : 0 < size = rw (← same) some_line in
      let r =
        fir_filter_lem x padded rate_i rate_d m 0 0 size (replicate size (float.of_nat 0)) 0 0 same
          start (quotient-le (length padded) rate_i) hd (Ready-start x padded rate_i size)
          (omega arith) hd in
      let (reached, least) = Filtered-bounds x padded rate_i rate_d size m _ r in
      (r.fir, r.count, rw same r.outputs, reached, least)
