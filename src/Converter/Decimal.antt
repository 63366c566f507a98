-- ===== src/Converter/Decimal.antt =====
-- Numbers that are written in decimal are read back by `strtoul`.
use native.Mathlib.Nat.{pow-suc}
use es_sensor.Prelude.{
  ℕ, zero, suc, ◌+◌, ◌-◌, ◌*◌, ◌/◌, ◌%◌, ◌^◌, ◌≤◌, ◌<◌, ◌≡◌, refl, ap, ◌∙◌, sym, true, false, some,
  [], ◌∷◌, ◌++◌, arith, ltb, ◌==◌, if-both, Text, All, All-append, min,
}
use mathlib.Core.Path.{subst}
use es_sensor.Sinks.Csv.{digits}
use es_sensor.Converter.Reply.{
  is_digit, is_space, read_digits, starts_with_digit, read_unsigned, read_signed, skip_spaces,
  strtoul,
}

abbrev IsDigit : ℕ → Type 0
IsDigit c = is_digit c ≡ true

abbrev pub value : ℕ → Text → ℕ
value n [] = n
value n (c ∷ text) = value (n * 10 + (c - b'0')) text

value-snoc :
    (n : ℕ) (text : Text) (c : ℕ) → value n (text ++ (c ∷ [])) ≡ value n text * 10 + (c - b'0')
value-snoc n [] c = refl
value-snoc n (d ∷ text) c = value-snoc (n * 10 + (d - b'0')) text c

digits-IsDigit : (fuel n : ℕ) → All IsDigit (digits fuel n)
unfolding digits is_digit
digits-IsDigit zero n = tt
digits-IsDigit (suc fuel) n =
    if-both (All IsDigit) (ltb n 10) (λ e. (ground arith, tt))
      (λ e.
        All-append IsDigit (digits fuel (n / 10)) _ (digits-IsDigit fuel (n / 10))
          (ground arith, tt))

pub value-digits : (fuel n : ℕ) → n < 10 ^ fuel → value 0 (digits fuel n) ≡ n
unfolding digits
value-digits zero n h = let one : 10 ^ 0 ≡ 1 = refl in omega arith
value-digits (suc fuel) n h =
    let power : 10 ^ suc fuel ≡ 10 ^ fuel * 10 = pow-suc 10 fuel in
    let rest = value-digits fuel (n / 10) (omega arith) in
    if-both (λ (t : Text). value 0 t ≡ n) (ltb n 10) (λ e. omega arith)
      (λ e. value-snoc 0 (digits fuel (n / 10)) (b'0' + n % 10) ∙ omega (arith, rest))

read_digits-value :
    (n : ℕ) (text rest : Text)
    → All IsDigit text
    → starts_with_digit rest ≡ false
    → read_digits n (text ++ rest) ≡ (value n text, rest)
unfolding read_digits is_digit
read_digits-value n [] [] h e = refl
read_digits-value n [] (c ∷ rest) h e = rw e refl
read_digits-value n (c ∷ text) rest (d, h) e =
    rw d (read_digits-value (n * 10 + (c - b'0')) text rest h e)

pub digits-cons : (fuel n : ℕ) → (c : ℕ) × (text : Text) × (digits (suc fuel) n ≡ c ∷ text)
unfolding digits
digits-cons fuel n =
    if-both (λ (t : Text). (c : ℕ) × (text : Text) × (t ≡ c ∷ text)) (ltb n 10)
      (λ e. (b'0' + n, [], refl)) (λ e. snoc (digits fuel (n / 10)))
  where
    snoc : (t : Text) → (c : ℕ) × (text : Text) × (t ++ ((b'0' + n % 10) ∷ []) ≡ c ∷ text)
    snoc [] = (b'0' + n % 10, [], refl)
    snoc (c ∷ t) = (c, t ++ ((b'0' + n % 10) ∷ []), refl)

no_space : (c : ℕ) (text : Text) → IsDigit c → skip_spaces (c ∷ text) ≡ c ∷ text
unfolding skip_spaces is_space is_digit
no_space c text h = ground arith

no_sign :
    (ulong_max c : ℕ) (text : Text)
    → IsDigit c
    → read_signed ulong_max (c ∷ text)
      ≡ some (min (read_digits 0 (c ∷ text)).0 ulong_max, (read_digits 0 (c ∷ text)).1)
unfolding read_signed read_unsigned is_digit
no_sign ulong_max c text h =
    let plus : (c == b'+') ≡ false = ground arith in
    let minus : (c == b'-') ≡ false = ground arith in rw (plus, minus, h) refl

strtoul-value :
    (ulong_max c : ℕ) (text rest : Text)
    → All IsDigit (c ∷ text)
    → starts_with_digit rest ≡ false
    → value 0 (c ∷ text) ≤ ulong_max
    → strtoul ulong_max ((c ∷ text) ++ rest) ≡ (value 0 (c ∷ text), rest)
unfolding strtoul
strtoul-value ulong_max c text rest h e le =
    let fits : min (value 0 (c ∷ text)) ulong_max ≡ value 0 (c ∷ text) = omega arith in
    rw
      (
        strtoul,
        no_space c (text ++ rest) h.0,
        no_sign ulong_max c (text ++ rest) h.0,
        read_digits-value 0 (c ∷ text) rest h e,
      )
      (ap (λ (n : ℕ). (n, rest)) fits)

pub strtoul-digits :
    (ulong_max n : ℕ) (rest : Text)
    → n < 10 ^ 20
    → n ≤ ulong_max
    → starts_with_digit rest ≡ false
    → strtoul ulong_max (digits 20 n ++ rest) ≡ (n, rest)
strtoul-digits ulong_max n rest h le e =
    let (c, text, shape) = digits-cons 19 n in
    let number : value 0 (c ∷ text) ≡ n = ap (value 0) (sym shape) ∙ value-digits 20 n h in
    rw shape (
      strtoul-value ulong_max c text rest (subst (All IsDigit) shape (digits-IsDigit 20 n)) e
        (omega arith)
      ∙ ap (λ (v : ℕ). (v, rest)) number)
