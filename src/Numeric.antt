-- ===== src/Numeric.antt =====
-- Machine numbers: the C++ conversions between integer types, and the interface that stands for
-- `float` and `double`, whose arithmetic is not computed here.
use es_sensor.Prelude.{
  ℕ, ◌+◌, ◌-◌, ◌*◌, ◌/◌, ◌%◌, ◌^◌, ◌≤◌, ◌<◌, ◌≡◌, Bool, true, false, ◌==◌, arith, ltb,
  if◌then◌else◌, Text,
}
use es_sensor.Prelude.Int.{ℤ, pos, negsuc}
use mathlib.Core.List.{List}
use native.Mathlib.Nat.{mod-eq_of_lt, pow-le-pow_right, one-le-pow}

-- The conversion of a signed value to an unsigned type of `w` bits.
abbrev pub to_unsigned : ℕ → ℤ → ℕ
to_unsigned w (pos n) = n % 2 ^ w
to_unsigned w (negsuc n) = 2 ^ w - 1 - n % 2 ^ w

-- The conversion of a bit pattern of 32 bits to `int`.
abbrev pub to_int : ℕ → ℤ
to_int n = if ltb n (2 ^ 31) then pos n else negsuc (2 ^ 32 - 1 - n)

abbrev pub is_negative : ℤ → Bool
is_negative (pos n) = false
is_negative (negsuc n) = true

abbrev pub is_zero : ℤ → Bool
is_zero (pos n) = n == 0
is_zero (negsuc n) = false

-- `(unsigned int)(1 << k)`. The shift is defined up to `k = 30`; the theorems assume that.
unfoldable pub shift_one : ℕ → ℕ
shift_one k = 2 ^ k % 2 ^ 32

pub pow_pos : (k : ℕ) → 0 < 2 ^ k
pow_pos k = one-le-pow k 2 (omega arith)

pub shift_one-eq : (k : ℕ) → k ≤ 31 → shift_one k ≡ 2 ^ k
unfolding shift_one
shift_one-eq k h =
    let small : 2 ^ k ≤ 2 ^ 31 = pow-le-pow_right {n = 2} (omega arith) h in
    mod-eq_of_lt (omega arith)

-- `unsigned int` subtraction and addition.
abbrev pub sub32 : ℕ → ℕ → ℕ
sub32 a b = (a % 2 ^ 32 + 2 ^ 32 - b % 2 ^ 32) % 2 ^ 32

abbrev pub add32 : ℕ → ℕ → ℕ
add32 a b = (a + b) % 2 ^ 32

abbrev pub mul32 : ℕ → ℕ → ℕ
mul32 a b = a * b % 2 ^ 32

-- What the program does with floating point numbers. `lit m k` is the constant m / k, `trunc` the
-- conversion to an unsigned integer, `to_signed` the one to `int`, `atof` the one from text, `show` the stream's output at
-- precision 5.
pub record Float (F : Type 0) : Type 0 where
  pub of_nat : ℕ → F
  pub lit : ℕ → ℕ → F
  pub neg : F → F
  pub add : F → F → F
  pub sub : F → F → F
  pub mul : F → F → F
  pub div : F → F → F
  pub lt : F → F → Bool
  pub sqrt : F → F
  pub log10 : F → F
  pub trunc : F → ℕ
  pub to_signed : F → ℤ
  pub atof : Text → F
  pub show : F → Text

-- A carrier for tests: naturals that count 600ths. (Subtraction stops at 0, and `sqrt`, `log10`
-- and the texts are placeholders.)
abbrev pub Fixed : Type 0
Fixed = ℕ

instance abbrev pub fixed_float : Float Fixed
fixed_float = record {
  of_nat = λ n. n * 600;
  lit = λ m k. m * 600 / k;
  neg = λ a. 0;
  add = λ a b. a + b;
  sub = λ a b. a - b;
  mul = λ a b. a * b / 600;
  div = λ a b. a * 600 / b;
  lt = λ a b. ltb a b;
  sqrt = λ a. a;
  log10 = λ a. a;
  trunc = λ a. a / 600;
  to_signed = λ a. pos (a / 600);
  atof = λ s. 0;
  show = λ a. List.[];
}
