-- ===== src/Hopping/Rounds.antt =====
-- The order in which `nextHop` of drivers/common/SequentialHopping.cpp gives the frequencies out.
use es_sensor.Prelude.{
  ◌∙◌, sym, ℕ, zero, suc, ◌+◌, ◌-◌, ◌*◌, ◌/◌, ◌%◌, ◌^◌, ◌<◌, ◌≡◌, refl, ◌↔◌, true, Option, none,
  some, List, [], ◌∷◌, ap, map, arith, leb, ◌==◌, if◌then◌else◌, length, get_elem?, get_or,
}
use native.Mathlib.Decide.{dec_lt}
use native.Mathlib.Nat.{zero-mod, mod-lt, mod-add-mod, mod-eq_of_lt, mod_self}
use es_sensor.Hopping.{SequentialHopping, make_hopping, hop_count, next_hop, is_round_finished}
use es_sensor.Hopping.Freqs.{make_hopping-IsEven}

-- `nextHop` called `n` times: the frequencies in order, and the object after them. `none` is an
-- exception.
unfoldable pub hops : ℕ → SequentialHopping → Option (List ℕ × SequentialHopping)
hops zero h = some ([], h)
hops (suc n) h = elim (next_hop h) [
  | none ↦ none
  | some (freq, h') ↦ elim (hops n h') [ none ↦ none | some (fs, h'') ↦ some (freq ∷ fs, h'') ]
]

pub hops_step :
    (n freq : ℕ) (fs : List ℕ) (h h' h'' : SequentialHopping)
    → next_hop h ≡ some (freq, h')
    → hops n h' ≡ some (fs, h'')
    → hops (suc n) h ≡ some (freq ∷ fs, h'')
unfolding hops
hops_step n freq fs h h' h'' e e' = rw (e, hops) (rw (e', hops) refl)

-- i, i + 1, … , n numbers.
pub upto : ℕ → ℕ → List ℕ
upto zero i = []
upto (suc n) i = i ∷ upto n (i + 1)

-- The list read round and round, from position `i` on.
pub cycle : List ℕ → ℕ → ℕ → List ℕ
cycle freqs zero i = []
cycle freqs (suc n) i = get_or freqs (i % length freqs) 0 ∷ cycle freqs n (i + 1)

get_elem?-get_or : (xs : List ℕ) (i : ℕ) → i < length xs → get_elem? xs i ≡ some (get_or xs i 0)
get_elem?-get_or [] i h = elim h [ ]
get_elem?-get_or (x ∷ xs) zero h = refl
get_elem?-get_or (x ∷ xs) (suc i) h = get_elem?-get_or xs i (omega arith)

wrap_index : (r n : ℕ) → r < n → (if leb n (r + 1) then 0 else r + 1) ≡ (r + 1) % n
wrap_index r n h = elim (dec_lt (r + 1) n) [
  | yes inside ↦ rw (mod-eq_of_lt inside) (ground arith)
  | no outside ↦ let top : r + 1 ≡ n = omega arith in rw (top, mod_self n) (ground arith)
]

next_index : (i n : ℕ) → 0 < n → (if leb n (i % n + 1) then 0 else i % n + 1) ≡ (i + 1) % n
next_index i n p = wrap_index (i % n) n (mod-lt i p) ∙ mod-add-mod i n 1

next_hop_found :
    (h : SequentialHopping) (v : ℕ)
    → get_elem? h.freqs h.index ≡ some v
    → next_hop h
      ≡ some (v, record h { index = if leb (length h.freqs) (h.index + 1) then 0 else h.index + 1 })
unfolding next_hop
next_hop_found h v e = rw (e, next_hop)

next_hop-cycle :
    (i : ℕ) (h : SequentialHopping)
    → 0 < length h.freqs
    → h.index ≡ i % length h.freqs
    → next_hop h
      ≡ some (get_or h.freqs (i % length h.freqs) 0, record h { index = (i + 1) % length h.freqs })
next_hop-cycle i h p e =
    let n = length h.freqs in
    let v = get_or h.freqs (i % n) 0 in
    next_hop_found h v (ap (get_elem? h.freqs) e ∙ get_elem?-get_or h.freqs (i % n) (mod-lt i p))
    ∙ ap (λ k. some (v, record h { index = k }))
        (ap (λ k. if leb n (k + 1) then 0 else k + 1) e ∙ next_index i n p)

cycle-upto :
    (base step n i : ℕ) (freqs : List ℕ)
    → 0 < length freqs
    → ((j : ℕ) → j < length freqs → get_or freqs j 0 ≡ base + j * step)
    → cycle freqs n i ≡ map (λ k. base + k % length freqs * step) (upto n i)
unfolding cycle upto
cycle-upto base step zero i freqs p e = refl
cycle-upto base step (suc n) i freqs p e =
    rw (e (i % length freqs) (mod-lt i p), cycle-upto base step n (i + 1) freqs p e)

-- Started at position `i` of the round, `nextHop` never throws; `n` calls read the list round and
-- round, and leave the position `i + n`.
hops-cycle :
    (n i : ℕ) (h : SequentialHopping)
    → 0 < length h.freqs
    → h.index ≡ i % length h.freqs
    → hops n h ≡ some (cycle h.freqs n i, record h { index = (i + n) % length h.freqs })
unfolding hops cycle
hops-cycle zero i h p e =
    let same : i + 0 ≡ i = omega arith in
    let back : h.index ≡ (i + 0) % length h.freqs = rw same e in
    ap (λ k. some ([], record h { index = k })) back
hops-cycle (suc n) i h p e =
    let shift : i + suc n ≡ i + 1 + n = omega arith in
    rw (next_hop-cycle i h p e, hops)
      (rw
        (hops-cycle n (i + 1) (record h { index = (i + 1) % length h.freqs }) p refl, hops, shift))

make_hopping-index : (lo hi step : ℕ) → (make_hopping lo hi step).index ≡ 0
unfolding make_hopping
make_hopping-index lo hi step = refl

zero_test : {a b : ℕ} → a ≡ b → ((a == 0) ≡ true) ↔ (b ≡ 0)
zero_test e = ground arith

-- A hopping object, fresh from the constructor: any number of calls of `nextHop` succeed and give the
-- frequencies `lo + step / 2 + j * step` round and round, `j` running over the hops of one round; a
-- round is finished exactly when the number of calls is a multiple of their number. The step is above 0, there are
-- fewer than 2 ^ 31 hops, and no frequency exceeds 64 bits.
pub hops-make_hopping :
    (lo hi step n : ℕ)
    → hop_count lo hi step < 2 ^ 31
    → lo + step / 2 + (hop_count lo hi step + 1) * step < 2 ^ 64
    → let h = make_hopping lo hi step in
      let round = 1 + (hop_count lo hi step - 1) in
      (after : SequentialHopping) × (hops n h
        ≡ some (map (λ k. lo + step / 2 + k % round * step) (upto n 0), after))
      × ((is_round_finished after ≡ true) ↔ (n % round ≡ 0))
unfolding is_round_finished
hops-make_hopping lo hi step n few fits =
    let h = make_hopping lo hi step in
    let round = 1 + (hop_count lo hi step - 1) in
    let even = make_hopping-IsEven lo hi step few fits in
    let count : length h.freqs ≡ round = even.count in
    let p : 0 < length h.freqs = omega arith in
    let after : SequentialHopping = record h { index = (0 + n) % length h.freqs } in
    let last : (0 + n) % length h.freqs ≡ n % round =
      ap (λ k. (0 + n) % k) count ∙ ap (λ k. k % round) (omega arith) in
    (
      after,
      hops-cycle n 0 h p (make_hopping-index lo hi step ∙ sym (zero-mod (length h.freqs)))
          ∙ ap (λ fs. some (fs, after))
              (cycle-upto (lo + step / 2) step n 0 h.freqs p (λ j lt. even.spaced j (omega arith))
                ∙ ap (λ m. map (λ k. lo + step / 2 + k % m * step) (upto n 0)) count),
      zero_test last,
    )
