-- ===== src/Filters/Mirrors.antt =====
-- MiscBlocks/Filter/FIR/FIRDesign.cpp: the loops that write a value at both ends of a vector.
use es_sensor.Prelude.{
  ℕ, zero, suc, ◌+◌, ◌-◌, ◌≤◌, ◌<◌, ◌≡◌, refl, ap, ◌∙◌, sym, Bool, Bool-cases, inl, inr, true,
  false, Option, some, List, ◌==◌, if◌then◌else◌, arith, length, get_elem?, replicate,
  length-replicate, ltb,
}
use es_sensor.Filters.Fir.{set}
use es_sensor.Filters.Rings.{get_elem?-set_self, get_elem?-set_ne, length-set, get_elem?-replicate}
use es_sensor.Filters.Design.{put, put_pair, mirror}

pub either {ℓ} :
    {A : Type ℓ} (b c : Bool) (v p q : A)
    → p ≡ q
    → (if b then v else (if c then v else p)) ≡ (if c then v else (if b then v else q))
either true true v p q e = refl
either true false v p q e = refl
either false true v p q e = refl
either false false v p q e = e

module _ {ℓ} {A : Type ℓ} where
  pub get_elem?-set :
      (xs : List A) (i k : ℕ) (v : A)
      → i < length xs
      → get_elem? (set xs i v) k ≡ (if k == i then some v else get_elem? xs k)
  get_elem?-set xs i k v h = elim (Bool-cases (k == i)) [
    | inl e ↦
        let same : k ≡ i = ground (arith, e) in
        rw e (ap (get_elem? (set xs i v)) same ∙ get_elem?-set_self xs i v h)
    | inr e ↦ rw e (get_elem?-set_ne xs i k v (λ same. absurd (ground (arith, e, same))))
  ]

  -- The same value at the same distance from both ends.
  abbrev pub Mirrored : List A → Type ℓ
  Mirrored xs = (j : ℕ) → j < length xs → get_elem? xs j ≡ get_elem? xs (length xs - 1 - j)

  pub swap :
      (xs : List A) (i j : ℕ) (v : A)
      → i < length xs
      → j < length xs
      → get_elem? xs j ≡ get_elem? xs (length xs - 1 - j)
      → (if j == length xs - 1 - i then some v else (if j == i then some v else get_elem? xs j)) ≡ (
          if length xs - 1 - j == length xs - 1 - i
          then some v
          else (if length xs - 1 - j == i then some v else get_elem? xs (length xs - 1 - j)))
  swap xs i j v hi hj e =
      let n = length xs in
      let same : (n - 1 - j == n - 1 - i) ≡ (j == i) = ground arith in
      let other : (n - 1 - j == i) ≡ (j == n - 1 - i) = ground arith in
      rw (same, other)
        (either (j == n - 1 - i) (j == i) (some v) (get_elem? xs j) (get_elem? xs (n - 1 - j)) e)

  pub set_pair-Mirrored :
      (xs : List A) (i : ℕ) (v : A)
      → i < length xs
      → Mirrored xs
      → Mirrored (set (set xs i v) (length xs - 1 - i) v)
  set_pair-Mirrored xs i v hi m j hj =
      let n = length xs in
      let first : length (set xs i v) ≡ n = length-set xs i v in
      let both : length (set (set xs i v) (n - 1 - i) v) ≡ n =
        length-set (set xs i v) (n - 1 - i) v ∙ first in
      let other : n - 1 - i < length (set xs i v) = omega (arith, first) in
      let inside : j < n = omega (arith, both, hj) in
      let at = λ (k : ℕ).
        get_elem?-set (set xs i v) (n - 1 - i) k v other
        ∙ ap (λ o. if k == n - 1 - i then some v else o) (get_elem?-set xs i k v hi) in
      at j
      ∙ swap xs i j v hi inside (m j inside)
      ∙ sym (at (n - 1 - j))
      ∙ ap (λ l. get_elem? (set (set xs i v) (n - 1 - i) v) (l - 1 - j)) (sym both)

  -- The middle one of an odd number of values is its own counterpart.
  pub set_middle-Mirrored :
      (xs : List A) (i : ℕ) (v : A)
      → i < length xs
      → length xs ≡ i + 1 + i
      → Mirrored xs
      → Mirrored (set xs i v)
  set_middle-Mirrored xs i v hi odd m j hj =
      let n = length xs in
      let same : length (set xs i v) ≡ n = length-set xs i v in
      let inside : j < n = omega (arith, same, hj) in
      let fixed : (n - 1 - j == i) ≡ (j == i) = ground arith in
      get_elem?-set xs i j v hi
      ∙ ap (λ o. if j == i then some v else o) (m j inside)
      ∙ ap (λ b. if b then some v else get_elem? xs (n - 1 - j)) (sym fixed)
      ∙ sym (get_elem?-set xs i (n - 1 - j) v hi)
      ∙ ap (λ l. get_elem? (set xs i v) (l - 1 - j)) (sym same)

  pub replicate-Mirrored : (n : ℕ) (v : A) → Mirrored (replicate n v)
  replicate-Mirrored n v j hj =
      let size : length (replicate n v) ≡ n = length-replicate n v in
      get_elem?-replicate n j v (omega (arith, size, hj))
      ∙ sym (get_elem?-replicate n (length (replicate n v) - 1 - j) v (omega (arith, size, hj)))

  -- What the loops leave.
  pub record Filled (n : ℕ) (o : Option (List A)) : Type ℓ where
    pub values : List A
    pub result : o ≡ some values
    pub size : length values ≡ n
    pub mirrored : Mirrored values

  pub put-inside : (xs : List A) (i : ℕ) (v : A) → i < length xs → put xs i v ≡ some (set xs i v)
  unfolding put
  put-inside xs i v h = let e : ltb i (length xs) ≡ true = ground arith in rw (e) refl

  put_pair-inside :
      (xs : List A) (last i k : ℕ) (v : A)
      → i < length xs
      → i ≤ last
      → last - i ≡ k
      → k < length xs
      → put_pair xs last i v ≡ some (set (set xs i v) k v)
  unfolding put_pair
  put_pair-inside xs last i k v h le place inside =
      let e : ltb last i ≡ false = ground arith in
      let size = length-set xs i v in
      rw (put_pair, put-inside xs i v h, e, place)
        (put-inside (set xs i v) k v (omega (arith, size)))

  pub mirror-suc :
      (value : ℕ → Option A) (last count i : ℕ) (xs ys : List A) (v : A)
      → value i ≡ some v
      → put_pair xs last i v ≡ some ys
      → mirror value last (suc count) i xs ≡ mirror value last count (i + 1) ys
  unfolding mirror
  mirror-suc value last count i xs ys v e written = rw (mirror, e, written) refl

  pub mirror-Filled :
      (value : ℕ → Option A) (last count i : ℕ) (xs : List A)
      → ((j : ℕ) → (v : A) × (value j ≡ some v))
      → length xs ≡ last + 1
      → count + i ≤ last + 1
      → Mirrored xs
      → Filled (last + 1) (mirror value last count i xs)
  unfolding mirror
  mirror-Filled value last zero i xs total size h m = record {
    values = xs;
    result = refl;
    size = size;
    mirrored = m;
  }
  mirror-Filled value last (suc count) i xs total size h m =
      let (v, e) = total i in
      let inside : i < length xs = omega (arith, size) in
      let place : last - i ≡ length xs - 1 - i = omega (arith, size) in
      let ys = set (set xs i v) (length xs - 1 - i) v in
      let ys_size : length ys ≡ last + 1 =
        length-set (set xs i v) (length xs - 1 - i) v ∙ length-set xs i v ∙ size in
      let rest =
        mirror-Filled value last count (i + 1) ys total ys_size (omega arith)
          (set_pair-Mirrored xs i v inside m) in
      record {
        values = rest.values;
        result =
            mirror-suc value last count i xs ys v e (
              put_pair-inside xs last i (length xs - 1 - i) v inside (omega (arith, size)) place
                (omega (arith, size)))
            ∙ rest.result;
        size = rest.size;
        mirrored = rest.mirrored;
      }

  -- From zeros on, over at most half of the indices and one more.
  pub mirror-replicate :
      (value : ℕ → Option A) (n count : ℕ) (zero_value : A)
      → ((j : ℕ) → (v : A) × (value j ≡ some v))
      → 0 < n
      → count ≤ n
      → Filled n (mirror value (n - 1) count 0 (replicate n zero_value))
  mirror-replicate value n count zero_value total pos h =
      let size : length (replicate n zero_value) ≡ n - 1 + 1 =
        length-replicate n zero_value ∙ omega arith in
      let same : n - 1 + 1 ≡ n = omega arith in
      let r =
        mirror-Filled value (n - 1) count 0 (replicate n zero_value) total size (omega arith)
          (replicate-Mirrored n zero_value) in
      record { values = r.values; result = r.result; size = r.size ∙ same; mirrored = r.mirrored }
