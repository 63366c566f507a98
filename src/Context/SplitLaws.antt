-- ===== src/Context/SplitLaws.antt =====
-- What `split` of context/ElectrosenseContext.cpp computes.
use es_sensor.Prelude.{
  ℕ, zero, suc, ◌+◌, ◌-◌, ◌≤◌, ◌<◌, ◌≡◌, refl, ap, ◌∙◌, ◌≢◌, inl, inr, Option, none, some, List, [],
  ◌∷◌, ◌++◌, arith, ◌==◌, if◌then◌else◌, Text, length, take, drop, length-drop, All, Bool-cases,
  drop-drop, false,
}
use mathlib.Core.List.{append_assoc}
use es_sensor.Context.Split.{find_from, find_first_of, split_loop, split}

abbrev cons_head : ℕ → List Text → List Text
cons_head x [] = (x ∷ []) ∷ []
cons_head x (w ∷ ws) = (x ∷ w) ∷ ws

-- The fields of a text, by recursion on the text.
pub pieces : ℕ → Text → List Text
pieces d [] = [] ∷ []
pieces d (x ∷ xs) = if x == d then [] ∷ pieces d xs else cons_head x (pieces d xs)

pub join : ℕ → List Text → Text
join d [] = []
join d (w ∷ []) = w
join d (w ∷ v ∷ ws) = w ++ (d ∷ join d (v ∷ ws))

pub join_one : (d : ℕ) (w : Text) → join d (w ∷ []) ≡ w
unfolding join
join_one d w = refl

pub join_cons :
    (d : ℕ) (w v : Text) (ws : List Text) → join d (w ∷ v ∷ ws) ≡ w ++ (d ∷ join d (v ∷ ws))
unfolding join
join_cons d w v ws = refl

abbrev pub Lacks : ℕ → Text → Type 0
Lacks d = All (λ x. x ≢ d)

-- What the search finds, seen on the text that is left.
abbrev Found : ℕ → Text → ℕ → Option ℕ → Type 0
Found d t i none = pieces d t ≡ t ∷ []
Found d t i (some p) =
    (k : ℕ) × (p ≡ i + k) × (k < length t) × (pieces d t ≡ take k t ∷ pieces d (drop (suc k) t))

Found-cons :
    (d x : ℕ) (xs : Text) (i : ℕ) (o : Option ℕ)
    → (x == d) ≡ false
    → Found d xs (i + 1) o
    → Found d (x ∷ xs) i o
unfolding pieces
Found-cons d x xs i none miss f = rw (miss, pieces) (ap (cons_head x) f)
Found-cons d x xs i (some p) miss (k, e, l, f) =
    (suc k, omega arith, omega arith, rw (miss, pieces) (ap (cons_head x) f))

find_from-Found : (d : ℕ) (t : Text) (i : ℕ) → Found d t i (find_from d t i)
unfolding find_from pieces
find_from-Found d [] i = refl
find_from-Found d (x ∷ xs) i = elim (Bool-cases (x == d)) [
  | inl hit ↦ rw hit (0, omega arith, omega arith, rw (hit, pieces))
  | inr miss ↦ rw miss (Found-cons d x xs i _ miss (find_from-Found d xs (i + 1)))
]

-- From `current` on, the loop appends the pieces of what is left.
split_loop-pieces :
    (fuel d : ℕ) (s : Text) (current : ℕ) (o : Option ℕ) (result : List Text)
    → length s - current ≤ fuel
    → Found d (drop current s) current o
    → split_loop fuel d s current o result ≡ result ++ pieces d (drop current s)
unfolding split_loop find_first_of
split_loop-pieces fuel d s current none result h f = rw f
split_loop-pieces zero d s current (some p) result h (k, e, l, f) =
    absurd (omega (arith, length-drop current s))
split_loop-pieces (suc fuel) d s current (some p) result h (k, e, l, f) =
    let ek : p - current ≡ k = omega arith in
    let ed : drop (suc k) (drop current s) ≡ drop (p + 1) s =
      drop-drop (suc k) current s ∙ ap (λ n. drop n s) (omega arith) in
    split_loop-pieces fuel d s (p + 1) _ (result ++ (take (p - current) (drop current s) ∷ []))
      (omega (arith, length-drop current s)) (find_from-Found d (drop (p + 1) s) (p + 1))
    ∙ append_assoc result _ _
    ∙ rw (f, ed, ek)

pub split-pieces : (d : ℕ) (s : Text) → split d s ≡ pieces d s
unfolding split
split-pieces d s = split_loop-pieces (length s) d s 0 _ [] (omega arith) (find_from-Found d s 0)

join-cons_head : (d x : ℕ) (ws : List Text) → join d (cons_head x ws) ≡ x ∷ join d ws
unfolding join
join-cons_head d x [] = refl
join-cons_head d x (w ∷ []) = refl
join-cons_head d x (w ∷ v ∷ ws) = refl

Lacks-cons_head :
    (d x : ℕ) (ws : List Text) → x ≢ d → All (Lacks d) ws → All (Lacks d) (cons_head x ws)
Lacks-cons_head d x [] h a = ((h, tt), tt)
Lacks-cons_head d x (w ∷ ws) h a = ((h, a.0), a.1)

pieces-ne-nil : (d : ℕ) (s : Text) → 0 < length (pieces d s)
unfolding pieces
pieces-ne-nil d [] = omega arith
pieces-ne-nil d (x ∷ xs) = elim (Bool-cases (x == d)) [
  | inl hit ↦ rw hit (omega arith)
  | inr miss ↦ rw miss (cons_head_pos (pieces d xs))
]
  where
    cons_head_pos : (ws : List Text) → 0 < length (cons_head x ws)
    cons_head_pos [] = omega arith
    cons_head_pos (w ∷ ws) = omega arith

join-nil_cons : (d : ℕ) (ws : List Text) → 0 < length ws → join d ([] ∷ ws) ≡ d ∷ join d ws
unfolding join
join-nil_cons d [] h = elim h [ ]
join-nil_cons d (w ∷ ws) h = refl

join-pieces : (d : ℕ) (s : Text) → join d (pieces d s) ≡ s
unfolding pieces
join-pieces d [] = unfold join in refl
join-pieces d (x ∷ xs) = elim (Bool-cases (x == d)) [
  | inl hit ↦
      rw hit (ground (arith, join-nil_cons d (pieces d xs) (pieces-ne-nil d xs), join-pieces d xs))
  | inr miss ↦ rw miss (join-cons_head d x (pieces d xs) ∙ ap (◌∷◌ x) (join-pieces d xs))
]

pieces-Lacks : (d : ℕ) (s : Text) → All (Lacks d) (pieces d s)
unfolding pieces
pieces-Lacks d [] = (tt, tt)
pieces-Lacks d (x ∷ xs) = elim (Bool-cases (x == d)) [
  | inl hit ↦ rw hit (tt, pieces-Lacks d xs)
  | inr miss ↦ rw miss (Lacks-cons_head d x _ (ground arith) (pieces-Lacks d xs))
]

-- A field before a delimiter is one piece.
pieces-append : (d : ℕ) (w s : Text) → Lacks d w → pieces d (w ++ (d ∷ s)) ≡ w ∷ pieces d s
unfolding pieces
pieces-append d [] s a = ground arith
pieces-append d (x ∷ w) s a = ground (arith, pieces-append d w s a.1)

pieces_alone : (d : ℕ) (w : Text) → Lacks d w → pieces d w ≡ w ∷ []
unfolding pieces
pieces_alone d [] a = refl
pieces_alone d (x ∷ w) a = ground (arith, pieces_alone d w a.1)

pieces-join :
    (d : ℕ) (w : Text) (ws : List Text)
    → All (Lacks d) (w ∷ ws)
    → pieces d (join d (w ∷ ws)) ≡ w ∷ ws
unfolding join
pieces-join d w [] a = pieces_alone d w a.0
pieces-join d w (v ∷ ws) a =
    pieces-append d w (join d (v ∷ ws)) a.0 ∙ ap (◌∷◌ w) (pieces-join d v ws a.1)

-- `split` cuts at every delimiter and loses nothing: its pieces, joined by the delimiter, are the
-- text again, and no piece contains the delimiter.
pub join-split : (d : ℕ) (s : Text) → (join d (split d s) ≡ s) × All (Lacks d) (split d s)
join-split d s = rw (split-pieces d s) (join-pieces d s, pieces-Lacks d s)

-- Fields without the delimiter, joined by it, are what `split` gives back.
pub split-join :
    (d : ℕ) (w : Text) (ws : List Text)
    → All (Lacks d) (w ∷ ws)
    → split d (join d (w ∷ ws)) ≡ w ∷ ws
split-join d w ws a = split-pieces d _ ∙ pieces-join d w ws a

pub split_alone : (d : ℕ) (w : Text) → Lacks d w → split d w ≡ w ∷ []
split_alone d w a = split-pieces d w ∙ pieces_alone d w a
