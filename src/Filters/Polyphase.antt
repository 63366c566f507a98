-- ===== src/Filters/Polyphase.antt =====
-- MiscBlocks/Filter/FIR/RationalFIRFilter.h, `calcPolyphase`: the plain sum that it gives.
use es_sensor.Prelude.{
  ℕ, zero, suc, ◌+◌, ◌*◌, ◌≤◌, ◌<◌, ◌≡◌, refl, ◌∙◌, some, List, arith, length, get_elem?, get_or,
}
use es_sensor.Numeric.{Float}
use es_sensor.Filters.Fir.{Fir, set, step_on, polyphase_loop}
use es_sensor.Filters.Rings.{
  get_elem?-get_or, get_elem?-set_ne, get_elem?-set_self, length-set, slot, slot-ne, slot-start,
  slot-step_back, slot-step_on, tap_index,
}

module _ {F : Type 0} ⦃float : Float F⦄ (x : ℕ → F) (taps : List F) (rate_i : ℕ) where
  -- The input of `j` turns before the n-th, 0 before the first.
  abbrev pub past : ℕ → ℕ → F
  past n zero = x n
  past zero (suc j) = float.of_nat 0
  past (suc n) (suc j) = past n j

  -- The plain sum: the inputs back from the n-th, each times its tap of phase `o`.
  abbrev pub weighted : ℕ → ℕ → ℕ → ℕ → F → F
  weighted n o zero j sum = sum
  weighted n o (suc count) j sum =
      weighted n o count (j + 1)
        (float.add sum (float.mul (past n j) (get_or taps (o + rate_i * j) (float.of_nat 0))))

  -- The delay line holds the inputs up to the n-th, or those before it.
  abbrev pub Holds : ℕ → ℕ → List F → Type 0
  Holds n index line =
      (j : ℕ) → j < length line → get_elem? line (slot (length line) index j) ≡ some (past n j)

  abbrev pub Ready : ℕ → ℕ → List F → Type 0
  Ready n index line =
      (j : ℕ)
      → suc j < length line
      → get_elem? line (slot (length line) index (suc j)) ≡ some (past n (suc j))

  pub write-Holds :
      (n index : ℕ) (line : List F)
      → index < length line
      → Ready n index line
      → Holds n index (set line index (x n))
  write-Holds n index line h ready zero hj =
      rw (length-set line index (x n), slot-start (length line) index)
        (get_elem?-set_self line index (x n) h)
  write-Holds n index line h ready (suc j) hj =
      let inside : suc j < length line = omega (arith, length-set line index (x n)) in
      rw (length-set line index (x n)) (
        get_elem?-set_ne line index (slot (length line) index (suc j)) (x n)
          (slot-ne (length line) index j h inside)
        ∙ ready j inside)

  pub next-Ready :
      (n index : ℕ) (line : List F)
      → index < length line
      → Holds n index line
      → Ready (suc n) (step_on (length line) index) line
  next-Ready n index line h holds j hj =
      rw (slot-step_on (length line) index j h hj) (holds j (omega arith))

  abbrev pub fir_at : ℕ → List F → ℕ → ℕ → Fir F
  fir_at rate_d line index o = record {
    taps = taps;
    rate_i = rate_i;
    rate_d = rate_d;
    delay_line = line;
    delay_index = index;
    out_index = o;
  }

  pub polyphase-weighted :
      (rate_d : ℕ) (line : List F) (n index o count j : ℕ) (sum : F)
      → index < length line
      → o < rate_i
      → rate_i * length line ≤ length taps
      → Holds n index line
      → count + j ≡ length line
      → polyphase_loop (fir_at rate_d line index o) count j (slot (length line) index j) sum
        ≡ some (weighted n o count j sum)
  unfolding polyphase_loop
  polyphase-weighted rate_d line n index o zero j sum hi ho ht holds e = refl
  polyphase-weighted rate_d line n index o (suc count) j sum hi ho ht holds e =
      let inside : j < length line = omega arith in
      let tap =
        get_elem?-get_or taps (o + rate_i * j) (float.of_nat 0)
          (tap_index rate_i (length line) o j (length taps) ht ho inside) in
      let next : suc j ≡ j + 1 = omega arith in
      rw (polyphase_loop, holds j inside, tap, slot-step_back (length line) index j hi inside, next)
        (polyphase-weighted rate_d line n index o count (j + 1) _ hi ho ht holds (omega arith))
