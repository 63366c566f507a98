-- ===== src/Receiver/Bounds.antt =====
-- drivers/rtlsdr/rtlsdrDriver.cpp, lines 627 to 672: the length of a read, and that the loop which
-- cuts the segments stays inside the buffer.
use es_sensor.Prelude.{ℕ, suc, ◌+◌, ◌-◌, ◌*◌, ◌%◌, ◌^◌, ◌≤◌, ◌<◌, ◌≡◌, ap, ◌∙◌, arith}
use es_sensor.Numeric.{sub32}
use es_sensor.Receiver.Cut.{raw_len, round_up, read_len, position}
use mathlib.Core.Path.{subst}
use native.Mathlib.Nat.{mod-eq_of_lt, mul-le-mul, le_refl}

-- Rounding goes up to the next multiple of 512.
pub round_up_lem : (n : ℕ) → (round_up n % 512 ≡ 0) × (n ≤ round_up n) × (round_up n < n + 512)
unfolding round_up
round_up_lem n = ground arith

abbrev sub32-exact : (a b : ℕ) → b ≤ a → a < 2 ^ 32 → sub32 a b ≡ a - b
sub32-exact a b le small = omega arith

round_up_eq : {r n : ℕ} → r ≡ n → (round_up r % 512 ≡ 0) × (n ≤ round_up r) × (round_up r < n + 512)
round_up_eq {r} e =
    subst (λ n. (round_up r % 512 ≡ 0) × (n ≤ round_up r) × (round_up r < n + 512)) e
      (round_up_lem r)

-- What the words compute as long as nothing overflows.
pub raw_len-exact :
    (fft soverlap avg : ℕ)
    → soverlap ≤ fft
    → ((fft - soverlap) * avg + soverlap) * 2 < 2 ^ 32
    → fft < 2 ^ 32
    → raw_len fft soverlap avg ≡ ((fft - soverlap) * avg + soverlap) * 2
unfolding raw_len
raw_len-exact fft soverlap avg le small small' =
    let product : (fft - soverlap) * avg < 2 ^ 32 = omega arith in
    let sum : (fft - soverlap) * avg + soverlap < 2 ^ 32 = omega arith in
    ap (λ d. (d * avg % 2 ^ 32 + soverlap) % 2 ^ 32 * 2 % 2 ^ 32)
      (sub32-exact fft soverlap le small')
    ∙ ap (λ n. (n + soverlap) % 2 ^ 32 * 2 % 2 ^ 32) (mod-eq_of_lt product)
    ∙ ap (λ n. n * 2 % 2 ^ 32) (mod-eq_of_lt sum)
    ∙ mod-eq_of_lt small

pub position-exact :
    (fft soverlap i j : ℕ)
    → soverlap ≤ fft
    → fft < 2 ^ 32
    → j + i * (fft - soverlap) * 2 < 2 ^ 32
    → position fft soverlap i j ≡ j + i * (fft - soverlap) * 2
unfolding position
position-exact fft soverlap i j le small small' =
    let product : i * (fft - soverlap) < 2 ^ 32 = omega arith in
    let double : i * (fft - soverlap) * 2 < 2 ^ 32 = omega arith in
    ap (λ d. (j + i * d % 2 ^ 32 * 2 % 2 ^ 32) % 2 ^ 32) (sub32-exact fft soverlap le small)
    ∙ ap (λ n. (j + n * 2 % 2 ^ 32) % 2 ^ 32) (mod-eq_of_lt product)
    ∙ ap (λ n. (j + n) % 2 ^ 32) (mod-eq_of_lt double)
    ∙ mod-eq_of_lt small'

-- The bytes that the segments of one read take.
abbrev pub used : ℕ → ℕ → ℕ → ℕ
used fft soverlap avg = ((fft - soverlap) * avg + soverlap) * 2

-- Segment `i` of `avg` ends where the last one does, or before.
segment_inside :
    (step soverlap avg i p : ℕ)
    → i < avg
    → p < 2 * (step + soverlap)
    → p + i * step * 2 < (step * avg + soverlap) * 2
segment_inside step soverlap avg i p hi hp =
    let le : step * suc i ≤ step * avg = mul-le-mul (le_refl step) hi in omega arith

position-below : {p q n : ℕ} → q < n → (q < 2 ^ 32 → p ≡ q) → n < 2 ^ 31 → p < n
position-below lt exact small = let e = exact (omega arith) in omega arith

-- Every byte of every segment is one of these.
pub position-in_used :
    (fft soverlap avg i p : ℕ)
    → soverlap ≤ fft
    → used fft soverlap avg < 2 ^ 31
    → fft < 2 ^ 31
    → i < avg
    → p < 2 * fft
    → position fft soverlap i p < used fft soverlap avg
position-in_used fft soverlap avg i p le small small' hi hp =
    position-below (segment_inside (fft - soverlap) soverlap avg i p hi (omega arith))
      (λ inside. position-exact fft soverlap i p le (omega arith) inside) small

-- A read takes these bytes, and less than 512 more.
pub read_len-rounded :
    (fft soverlap avg : ℕ)
    → soverlap ≤ fft
    → used fft soverlap avg < 2 ^ 31
    → fft < 2 ^ 31
    → (read_len fft soverlap avg % 512 ≡ 0)
      × (used fft soverlap avg ≤ read_len fft soverlap avg)
      × (read_len fft soverlap avg < used fft soverlap avg + 512)
unfolding read_len
read_len-rounded fft soverlap avg le small small' =
    round_up_eq (raw_len-exact fft soverlap avg le (omega arith) (omega arith))
