-- ===== src/Filters/DesignLaws.antt =====
-- MiscBlocks/Filter/FIR/FIRDesign.cpp: the taps have linear phase, and no index leaves its vector.
use es_sensor.Prelude.{
  ℕ, zero, suc, ◌+◌, ◌-◌, ◌/◌, ◌%◌, ◌<◌, ◌≡◌, refl, ap, ◌∙◌, sym, Bool-cases, inl, inr, false,
  Option, none, some, List, [], ◌∷◌, ◌==◌, arith, length, get_elem?, replicate, length-replicate,
}
use es_sensor.Numeric.{Float}
use es_sensor.Filters.Fir.{set}
use es_sensor.Filters.Rings.{length-set}
use es_sensor.Filters.Design.{
  kaiser_order, least_ripple, build_kaiser, closed_tap, summed_tap, build_fir_base, multiply,
  build_fir_filter,
}
use es_sensor.Filters.Mirrors.{
  Filled, put-inside, Mirrored, mirror-Filled, mirror-replicate, replicate-Mirrored,
  set_middle-Mirrored,
}

module _ {F : Type 0} ⦃float : Float F⦄ where
  both_times : Option F → Option F → Option F
  both_times (some x) (some w) = some (float.mul x w)
  both_times (some x) none = none
  both_times none o = none

  record Product (xs ws : List F) (o : Option (List F)) : Type 0 where
    values : List F
    result : o ≡ some values
    size : length values ≡ length xs
    element : (k : ℕ) → get_elem? values k ≡ both_times (get_elem? xs k) (get_elem? ws k)

  element_of :
      (x w : F) (xs ws values : List F)
      → ((k : ℕ) → get_elem? values k ≡ both_times (get_elem? xs k) (get_elem? ws k))
      → (k : ℕ)
      → get_elem? (float.mul x w ∷ values) k
        ≡ both_times (get_elem? (x ∷ xs) k) (get_elem? (w ∷ ws) k)
  unfolding both_times
  element_of x w xs ws values h zero = refl
  element_of x w xs ws values h (suc k) = h k

  multiply-Product : (xs ws : List F) → length xs ≡ length ws → Product xs ws (multiply xs ws)
  unfolding multiply both_times
  multiply-Product [] ws e = record { values = []; result = refl; size = refl; element = λ k. refl }
  multiply-Product (x ∷ xs) [] e = absurd (omega (arith, e))
  multiply-Product (x ∷ xs) (w ∷ ws) e =
      let rest = multiply-Product xs ws (omega (arith, e)) in
      record {
        values = float.mul x w ∷ rest.values;
        result = rw rest.result refl;
        size = ap suc rest.size;
        element = element_of x w xs ws rest.values rest.element;
      }

  Product-Mirrored :
      (n : ℕ) (xs ws : List F) (o : Option (List F))
      → length xs ≡ n
      → length ws ≡ n
      → Mirrored xs
      → Mirrored ws
      → (p : Product xs ws o) → Filled n o
  Product-Mirrored n xs ws o hx hw mx mw p = record {
    values = p.values;
    result = p.result;
    size = p.size ∙ hx;
    mirrored = λ j hj.
        let in_xs : j < length xs = omega (arith, hj, p.size) in
        let in_ws : j < length ws = omega (arith, hj, hx, hw, p.size) in
        let same_x : length xs ≡ length p.values = sym p.size in
        let same_w : length ws ≡ length p.values = omega (arith, hx, hw, p.size) in
        p.element j
        ∙ ap (λ a. both_times a (get_elem? ws j)) (mx j in_xs)
        ∙ ap (λ a. both_times (get_elem? xs (length xs - 1 - j)) a) (mw j in_ws)
        ∙ ap (λ l. both_times (get_elem? xs (l - 1 - j)) (get_elem? ws (length ws - 1 - j))) same_x
        ∙ ap (λ l. both_times (get_elem? xs (length p.values - 1 - j)) (get_elem? ws (l - 1 - j)))
            same_w
        ∙ sym (p.element (length p.values - 1 - j));
  }

module _ {F : Type 0} ⦃float : Float F⦄ (pi : F) (sin cos : F → F) (pow : F → F → F)
    (ceil : F → ℕ) where
  -- The sums over the gain come to their end.
  abbrev pub Summable : ℕ → Option (F → F) → F → F → ℕ → Type 0
  Summable fuel none ft step taps = Unit
  Summable fuel (some g) ft step taps =
      (i : ℕ) → (v : F) × (summed_tap pi sin cos pow ceil fuel g ft step taps i ≡ some v)

  one-Mirrored : (v : F) → Mirrored (v ∷ [])
  one-Mirrored v zero hj = refl
  one-Mirrored v (suc j) hj = absurd (omega (arith, hj))

  kaiser-Filled :
      (rip tw fs : F)
      → Filled
          (kaiser_order pi sin cos pow ceil (least_ripple pi sin cos pow ceil rip) tw fs + 1)
          (build_kaiser pi sin cos pow ceil rip tw fs)
  unfolding build_kaiser
  kaiser-Filled rip tw fs =
      let m = kaiser_order pi sin cos pow ceil (least_ripple pi sin cos pow ceil rip) tw fs in
      mirror-Filled _ m (m / 2 + 1) 0 (replicate (m + 1) (float.of_nat 0)) (λ j. (_, refl))
        (length-replicate (m + 1) _) (omega arith) (replicate-Mirrored (m + 1) (float.of_nat 0))

  closed-Filled :
      (fuel n : ℕ) (fc fs : F) (step : F)
      → 0 < n
      → (n == 1) ≡ false
      → Filled n (build_fir_base pi sin cos pow ceil fuel fc fs n none step)
  unfolding build_fir_base
  closed-Filled fuel n fc fs step pos more =
      let some_taps : (n == 0) ≡ false = ground arith in
      let ft = float.div fc fs in
      let r =
        mirror-replicate (λ i. some (closed_tap pi sin cos pow ceil ft n i)) n (n / 2)
          (float.of_nat 0) (λ j. (_, refl)) pos (omega arith) in
      elim (Bool-cases (n % 2 == 1)) [
        | inl odd ↦
            let halves : n ≡ n / 2 + 1 + n / 2 = ground (arith, odd) in
            record {
              values = set r.values (n / 2) (float.mul (float.of_nat 2) ft);
              result =
                  rw (some_taps, more, r.result, odd)
                    (put-inside r.values (n / 2) _ (omega (arith, r.size)));
              size = length-set r.values (n / 2) _ ∙ r.size;
              mirrored =
                  set_middle-Mirrored r.values (n / 2) (float.mul (float.of_nat 2) ft)
                    (omega (arith, r.size)) (r.size ∙ halves) r.mirrored;
            }
        | inr even ↦ record {
          values = r.values;
          result = rw (some_taps, more, r.result, even) refl;
          size = r.size;
          mirrored = r.mirrored;
        }
      ]

  base-Filled :
      (fuel n : ℕ) (fc fs : F) (gain : Option (F → F)) (step : F)
      → 0 < n
      → Summable fuel gain (float.div fc fs) step n
      → Filled n (build_fir_base pi sin cos pow ceil fuel fc fs n gain step)
  unfolding build_fir_base
  base-Filled fuel n fc fs none step pos total = elim (Bool-cases (n == 1)) [
    | inr more ↦ closed-Filled fuel n fc fs step pos more
    | inl one ↦
        let some_taps : (n == 0) ≡ false = ground arith in
        record {
          values = float.of_nat 1 ∷ [];
          result = rw (some_taps, one) refl;
          size = ground (arith, one);
          mirrored = one-Mirrored (float.of_nat 1);
        }
  ]
  base-Filled fuel n fc fs (some g) step pos total = elim (Bool-cases (n == 1)) [
    | inr more ↦
        let some_taps : (n == 0) ≡ false = ground arith in
        let r =
          mirror-replicate (summed_tap pi sin cos pow ceil fuel g (float.div fc fs) step n) n
            (n / 2 + 1) (float.of_nat 0) total pos (ground (arith, more)) in
        record {
          values = r.values;
          result = rw (some_taps, more) r.result;
          size = r.size;
          mirrored = r.mirrored;
        }
    | inl one ↦
        let some_taps : (n == 0) ≡ false = ground arith in
        record {
          values = g (float.of_nat 0) ∷ [];
          result = rw (some_taps, one) refl;
          size = ground (arith, one);
          mirrored = one-Mirrored (g (float.of_nat 0));
        }
  ]

  design-parts :
      (fuel n : ℕ) (fc tw fs rip : F) (gain : Option (F → F)) (step : F) (window base : List F)
      → build_kaiser pi sin cos pow ceil rip tw fs ≡ some window
      → length window ≡ n
      → build_fir_base pi sin cos pow ceil fuel fc fs n gain step ≡ some base
      → build_fir_filter pi sin cos pow ceil fuel fc tw fs rip gain step ≡ multiply base window
  unfolding build_fir_filter
  design-parts fuel n fc tw fs rip gain step window base e size f =
      let over : Option (List F) → Option (List F) =
        λ o. elim o [ none ↦ none | some filter ↦ multiply filter window ] in
      let after : Option (List F) → Option (List F) = λ o. elim o [
        | none ↦ none
        | some w ↦ elim (build_fir_base pi sin cos pow ceil fuel fc fs (length w) gain step) [
          | none ↦ none
          | some filter ↦ multiply filter w
        ]
      ] in
      ap after e
      ∙ ap (λ k. over (build_fir_base pi sin cos pow ceil fuel fc fs k gain step)) size
      ∙ ap over f

  -- Where the sums over the gain come to their end: the design gives taps, one more than the order of
  -- the window, without an access outside a vector; they are the same from both ends, so that the
  -- filter has linear phase.
  pub build_fir_filter-Mirrored :
      (fuel : ℕ) (fc tw fs rip : F) (gain : Option (F → F)) (step : F)
      → let n = kaiser_order pi sin cos pow ceil (least_ripple pi sin cos pow ceil rip) tw fs + 1 in
        Summable fuel gain (float.div fc fs) step n
        → (taps : List F) × (build_fir_filter pi sin cos pow ceil fuel fc tw fs rip gain step
            ≡ some taps)
          × (length taps ≡ n)
          × Mirrored taps
  unfolding build_fir_filter
  build_fir_filter-Mirrored fuel fc tw fs rip gain step total =
      let n = kaiser_order pi sin cos pow ceil (least_ripple pi sin cos pow ceil rip) tw fs + 1 in
      let window = kaiser-Filled rip tw fs in
      let base = base-Filled fuel n fc fs gain step (omega arith) total in
      let product = multiply-Product base.values window.values (base.size ∙ sym window.size) in
      let r =
        Product-Mirrored n base.values window.values _ base.size window.size base.mirrored
          window.mirrored product in
      (
        r.values,
        design-parts fuel n fc tw fs rip gain step window.values base.values window.result
              window.size base.result
            ∙ r.result,
        r.size,
        r.mirrored,
      )
