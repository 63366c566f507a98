-- ===== src/Filters/Rings.antt =====
-- MiscBlocks/Filter/FIR/RationalFIRFilter.h: the delay line as a ring, and arithmetic of its indices.
use es_sensor.Prelude.{
  ℕ, zero, suc, ◌+◌, ◌-◌, ◌*◌, ◌/◌, ◌%◌, ◌≤◌, ◌<◌, ◌≡◌, ◌≢◌, refl, ap, some, List, [], ◌∷◌, ◌++◌,
  arith, leb, if◌then◌else◌, length, get_elem?, get_or, replicate,
}
use es_sensor.Filters.Fir.{set, step_back, step_on}

-- Where the value of `j` inputs ago stands in a ring of `size`, written last at `index`.
abbrev pub slot : ℕ → ℕ → ℕ → ℕ
slot size index j = if leb j index then index - j else index + size - j

pub slot-start : (size i : ℕ) → slot size i 0 ≡ i
slot-start size i = ground arith

pub slot-step_back :
    (size i j : ℕ) → i < size → j < size → step_back size (slot size i j) ≡ slot size i (suc j)
slot-step_back size i j hi hj = ground arith

pub slot-step_on :
    (size i j : ℕ) → i < size → suc j < size → slot size (step_on size i) (suc j) ≡ slot size i j
slot-step_on size i j hi hj = ground arith

pub slot-ne : (size i j : ℕ) → i < size → suc j < size → slot size i (suc j) ≢ i
slot-ne size i j hi hj = λ e. absurd (ground arith)

pub step_on-lt : (size i : ℕ) → i < size → step_on size i < size
step_on-lt size i h = ground arith

module _ {ℓ} {A : Type ℓ} where
  pub get_elem?-set_self :
      (xs : List A) (i : ℕ) (v : A) → i < length xs → get_elem? (set xs i v) i ≡ some v
  get_elem?-set_self [] i v h = absurd (omega arith)
  get_elem?-set_self (x ∷ xs) zero v h = refl
  get_elem?-set_self (x ∷ xs) (suc i) v h = get_elem?-set_self xs i v (omega arith)

  pub get_elem?-set_ne :
      (xs : List A) (i k : ℕ) (v : A) → k ≢ i → get_elem? (set xs i v) k ≡ get_elem? xs k
  get_elem?-set_ne [] i k v h = refl
  get_elem?-set_ne (x ∷ xs) zero zero v h = absurd (h refl)
  get_elem?-set_ne (x ∷ xs) zero (suc k) v h = refl
  get_elem?-set_ne (x ∷ xs) (suc i) zero v h = refl
  get_elem?-set_ne (x ∷ xs) (suc i) (suc k) v h = get_elem?-set_ne xs i k v (λ e. h (ap suc e))

  pub length-set : (xs : List A) (i : ℕ) (v : A) → length (set xs i v) ≡ length xs
  length-set [] i v = refl
  length-set (x ∷ xs) zero v = refl
  length-set (x ∷ xs) (suc i) v = ap suc (length-set xs i v)

  pub get_elem?-replicate : (n k : ℕ) (v : A) → k < n → get_elem? (replicate n v) k ≡ some v
  get_elem?-replicate zero k v h = absurd (omega arith)
  get_elem?-replicate (suc n) zero v h = refl
  get_elem?-replicate (suc n) (suc k) v h = get_elem?-replicate n k v (omega arith)

  pub get_elem?-get_or :
      (xs : List A) (i : ℕ) (v : A) → i < length xs → get_elem? xs i ≡ some (get_or xs i v)
  get_elem?-get_or [] i v h = absurd (omega arith)
  get_elem?-get_or (x ∷ xs) zero v h = refl
  get_elem?-get_or (x ∷ xs) (suc i) v h = get_elem?-get_or xs i v (omega arith)

  -- `m` values of a stream from the n-th on.
  abbrev pub values : (ℕ → A) → ℕ → ℕ → List A
  values f n zero = []
  values f n (suc m) = f n ∷ values f (suc n) m

  pub values-append :
      (f : ℕ → A) (n m r : ℕ) → values f n m ++ values f (n + m) r ≡ values f n (m + r)
  values-append f n zero r =
      let start : n + 0 ≡ n = omega arith in
      let count : 0 + r ≡ r = omega arith in rw (start, count) refl
  values-append f n (suc m) r =
      let start : n + suc m ≡ suc n + m = omega arith in
      let count : suc m + r ≡ suc (m + r) = omega arith in
      rw (start, count) (ap (λ l. f n ∷ l) (values-append f (suc n) m r))

pub tap_index :
    (rate size o j total : ℕ) → rate * size ≤ total → o < rate → j < size → o + rate * j < total
tap_index rate size o j total h ho hj = grind arith

pub position_div : (rate n o p : ℕ) → o < rate → p ≡ n * rate + o → (p / rate ≡ n) × (p % rate ≡ o)
position_div rate n o p h e = grind arith
