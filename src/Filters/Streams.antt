-- ===== src/Filters/Streams.antt =====
-- Streams of exact numbers, to say what a CIC filter computes: running sums, and sums of the last
-- `rate` values.
use mathlib.Core.Path.{fun_ext}
use es_sensor.Prelude.{ℕ, zero, suc, ◌+◌, ◌-◌, ◌<◌, ◌≡◌, refl, ap, ◌∙◌, arith}

abbrev pub Stream : Type 0
Stream = ℕ → ℕ

-- The value before, 0 at the start.
abbrev pub before : Stream → Stream
before f zero = 0
before f (suc n) = f n

abbrev pub integral : Stream → Stream
integral f zero = f zero
integral f (suc n) = f (suc n) + integral f n

-- The sum of the last `r` values up to the n-th; before the start the values are 0.
abbrev pub last_sum : ℕ → Stream → Stream
last_sum zero f n = 0
last_sum (suc r) f zero = f zero
last_sum (suc r) f (suc n) = f (suc n) + last_sum r f n

abbrev pub repeated {ℓ} : {A : Type ℓ} → ℕ → (A → A) → A → A
repeated zero f a = a
repeated (suc n) f a = repeated n f (f a)

-- The place of the last value of the k-th block of `rate` values.
abbrev pub block_end : ℕ → ℕ → ℕ
block_end rate zero = rate - 1
block_end rate (suc k) = block_end rate k + rate

abbrev pub decimated : ℕ → Stream → Stream
decimated rate f k = f (block_end rate k)

pub integral_step : (f : Stream) (n : ℕ) → integral f n ≡ f n + before (integral f) n
integral_step f zero = omega arith
integral_step f (suc n) = refl

repeated_shift {ℓ} :
    {A : Type ℓ} (n : ℕ) (f : A → A) (a : A) → repeated n f (f a) ≡ f (repeated n f a)
repeated_shift zero f a = refl
repeated_shift (suc n) f a = repeated_shift n f (f a)

integral-last_sum :
    (r m n : ℕ) (f : Stream) → n ≡ m + r → integral f n ≡ integral f m + last_sum r f n
integral-last_sum zero m n f e = let same : n ≡ m = omega arith in rw same (omega arith)
integral-last_sum (suc r) m zero f e = absurd (omega arith)
integral-last_sum (suc r) m (suc n) f e = omega (arith, integral-last_sum r m n f (omega arith))

integral_short : (r n : ℕ) (f : Stream) → n < r → integral f n ≡ last_sum r f n
integral_short zero n f h = absurd (omega arith)
integral_short (suc r) zero f h = refl
integral_short (suc r) (suc n) f h = omega (arith, integral_short r n f (omega arith))

last_sum-first : (r : ℕ) (f : Stream) → last_sum r (integral f) zero ≡ last_sum r f zero
last_sum-first zero f = refl
last_sum-first (suc r) f = refl

last_sum-next :
    (r n : ℕ) (f : Stream)
    → last_sum r (integral f) (suc n) ≡ last_sum r f (suc n) + last_sum r (integral f) n
last_sum-next zero n f = omega arith
last_sum-next (suc r) zero f = omega (arith, last_sum-first r f)
last_sum-next (suc r) (suc n) f = omega (arith, last_sum-next r n f)

last_sum-integral_at :
    (r n : ℕ) (f : Stream) → last_sum r (integral f) n ≡ integral (last_sum r f) n
last_sum-integral_at r zero f = last_sum-first r f
last_sum-integral_at r (suc n) f = omega (arith, last_sum-next r n f, last_sum-integral_at r n f)

last_sum-integral : (r : ℕ) (f : Stream) → last_sum r (integral f) ≡ integral (last_sum r f)
last_sum-integral r f = fun_ext (λ n. last_sum-integral_at r n f)

last_sum-integrals :
    (order r : ℕ) (f : Stream)
    → last_sum r (repeated order integral f) ≡ repeated order integral (last_sum r f)
last_sum-integrals zero r f = refl
last_sum-integrals (suc order) r f =
    last_sum-integrals order r (integral f) ∙ ap (repeated order integral) (last_sum-integral r f)

-- What a comb takes away again: the running sum up to the block before.
block_sum :
    (rate k : ℕ) (f : Stream)
    → 0 < rate
    → decimated rate (integral f) k
      ≡ before (decimated rate (integral f)) k + decimated rate (last_sum rate f) k
block_sum rate zero f h = omega (arith, integral_short rate (rate - 1) f (omega arith))
block_sum rate (suc k) f h =
    integral-last_sum rate (block_end rate k) (block_end rate (suc k)) f refl

pub block_sums :
    (order rate k : ℕ) (f : Stream)
    → 0 < rate
    → decimated rate (repeated (suc order) integral f) k
      ≡ before (decimated rate (repeated (suc order) integral f)) k
        + decimated rate (repeated order integral (last_sum rate f)) k
block_sums order rate k f h =
    rw (repeated_shift order integral f, ← last_sum-integrals order rate f)
      (block_sum rate k (repeated order integral f) h)
