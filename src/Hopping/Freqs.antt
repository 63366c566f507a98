-- ===== src/Hopping/Freqs.antt =====
-- The list of centre frequencies that the constructor of drivers/common/SequentialHopping.cpp
-- builds.
use es_sensor.Prelude.{
  ℕ, zero, suc, ◌+◌, ◌-◌, ◌*◌, ◌/◌, ◌%◌, ◌^◌, ◌≤◌, ◌<◌, ◌≡◌, refl, List, [], ◌∷◌, ◌++◌, arith, leb,
  if◌then◌else◌, length, length-append, get_or,
}
use es_sensor.Prelude.Int.{pos_part}
use es_sensor.Numeric.{to_int}
use es_sensor.Hopping.{insert_hops, make_hopping, hop_count}

get_or-append :
    (xs : List ℕ) (v j : ℕ)
    → j ≤ length xs
    → get_or (xs ++ (v ∷ [])) j 0 ≡ (if leb (length xs) j then v else get_or xs j 0)
get_or-append [] v zero h = refl
get_or-append [] v (suc j) h = absurd (omega arith)
get_or-append (x ∷ xs) v zero h = ground arith
get_or-append (x ∷ xs) v (suc j) h = ground (arith, get_or-append xs v j)

-- `n` frequencies, a step apart from `base` on.
pub record IsEven (base step n : ℕ) (freqs : List ℕ) : Type 0 where
  pub count : length freqs ≡ n
  pub spaced : (j : ℕ) → j < n → get_or freqs j 0 ≡ base + j * step

last_step : (n step : ℕ) → 0 < n → (n - 1) * step + step ≡ n * step
last_step zero step p = elim p [ ]
last_step (suc n) step p = let e : suc n - 1 ≡ n = omega arith in rw e (grind arith)

insert_one :
    (base step n : ℕ) (freqs : List ℕ)
    → 0 < n
    → base + n * step < 2 ^ 64
    → IsEven base step n freqs
    → IsEven base step (n + 1) (freqs ++ ((get_or freqs (n - 1) 0 + step) % 2 ^ 64 ∷ []))
insert_one base step n freqs p fits e =
    let added = (get_or freqs (n - 1) 0 + step) % 2 ^ 64 in
    let added_is : added ≡ base + n * step =
      omega (arith, e.spaced (n - 1) (omega arith), last_step n step p) in
    record {
      count = omega (arith, length-append freqs (added ∷ []), e.count);
      spaced = λ j h. ground (
        arith,
        get_or-append freqs added j (omega (arith, e.count)),
        e.spaced j,
        e.count,
        at_end j n added_is,
      );
    }
  where
    at_end : {added : ℕ} (j k : ℕ) → added ≡ base + k * step → j ≡ k → added ≡ base + j * step
    at_end j k a e = rw e a

insert_hops-IsEven :
    (rounds base step i : ℕ) (freqs : List ℕ)
    → 0 < i
    → base + (i + rounds) * step < 2 ^ 64
    → IsEven base step i freqs
    → IsEven base step (i + rounds) (insert_hops rounds i step freqs)
unfolding insert_hops
insert_hops-IsEven zero base step i freqs p fits e =
    let same : i ≡ i + 0 = omega arith in rw (← same) e
insert_hops-IsEven (suc n) base step i freqs p fits e =
    let shift : i + suc n ≡ i + 1 + n = omega arith in
    rw shift (
      insert_hops-IsEven n base step (i + 1) _ (omega arith) (rw shift at fits)
        (insert_one base step i freqs p (grind arith) e))

-- With a step above 0, fewer than 2 ^ 31 hops and no overflow of 64 bits, the constructor lists
-- `max(1, total)` frequencies: half a step above the lower bound, and a step apart.
pub make_hopping-IsEven :
    (lo hi step : ℕ)
    → hop_count lo hi step < 2 ^ 31
    → lo + step / 2 + (hop_count lo hi step + 1) * step < 2 ^ 64
    → let h = make_hopping lo hi step in
      IsEven (lo + step / 2) step (1 + (hop_count lo hi step - 1)) h.freqs
unfolding make_hopping
make_hopping-IsEven lo hi step few fits =
    let rounds : pos_part (to_int (hop_count lo hi step % 2 ^ 32)) ≡ hop_count lo hi step =
      ground arith in
    rw rounds (
      insert_hops-IsEven (hop_count lo hi step - 1) (lo + step / 2) step 1 _ (omega arith)
        (grind arith) (record { count = refl; spaced = first }))
  where
    first : (j : ℕ) → j < 1 → get_or ((lo + step / 2) ∷ []) j 0 ≡ lo + step / 2 + j * step
    first zero h = omega arith
    first (suc j) h = absurd (omega arith)
