-- ===== src/Converter/Reply.antt =====
-- drivers/rtlsdr/converter/converter.c, `converterTune`: the reply is read.
use es_sensor.Prelude.{
  ℕ, ◌+◌, ◌-◌, ◌*◌, ◌%◌, ◌^◌, Bool, true, false, not, ◌&&◌, ◌||◌, Option, none, some, [], ◌∷◌, leb,
  ◌==◌, if◌then◌else◌, Text, drop, min,
}

unfoldable pub is_digit : ℕ → Bool
is_digit c = leb b'0' c && leb c b'9'

unfoldable pub is_space : ℕ → Bool
is_space c = c == b' ' || (leb 9 c && leb c 13)

-- The digits at the start of a text, behind a number read so far, and what follows them.
unfoldable pub read_digits : ℕ → Text → ℕ × Text
unfolding is_digit
read_digits n [] = (n, [])
read_digits n (c ∷ text) =
    let rest = read_digits (n * 10 + (c - b'0')) text in if is_digit c then rest else (n, c ∷ text)

-- The sign and the digits: `none` where there is no number.
abbrev pub starts_with_digit : Text → Bool
starts_with_digit [] = false
starts_with_digit (c ∷ text) = leb b'0' c && leb c b'9'

unfoldable pub read_unsigned : ℕ → Text → Option (ℕ × Text)
unfolding read_digits
read_unsigned ulong_max text =
    if starts_with_digit text
    then (let (n, rest) = read_digits 0 text in some (min n ulong_max, rest))
    else none

unfoldable pub skip_spaces : Text → Text
unfolding is_space
skip_spaces [] = []
skip_spaces (c ∷ text) = let rest = skip_spaces text in if is_space c then rest else c ∷ text

unfoldable pub read_signed : ℕ → Text → Option (ℕ × Text)
unfolding read_unsigned
read_signed ulong_max [] = none
read_signed ulong_max (c ∷ text) =
    if c == b'+'
    then read_unsigned ulong_max text
    else if c == b'-'
    then elim (read_unsigned ulong_max text) [
      | none ↦ none
      | some (n, rest) ↦
          some (if n == ulong_max then n else ((ulong_max + 1 - n) % (ulong_max + 1)), rest)
    ]
    else read_unsigned ulong_max (c ∷ text)

-- The standard library's `strtoul` to the base 10, with the end of the number; `ulong_max` is the
-- greatest `unsigned long`.
unfoldable pub strtoul : ℕ → Text → ℕ × Text
unfolding skip_spaces read_signed
strtoul ulong_max text = elim (read_signed ulong_max (skip_spaces text)) [
  | none ↦ (0, text)
  | some number ↦ number
]

-- `strtoul(replyBuffer+14, …)` and `strtoul(nextPart+16, …)`: the intermediate frequency, cut to 32
-- bits, and whether the spectrum is inverted.
unfoldable pub read_reply : ℕ → Text → ℕ × Bool
unfolding strtoul
read_reply ulong_max buffer =
    let (frequency, next_part) = strtoul ulong_max (drop 14 buffer) in
    let (inverted, end) = strtoul ulong_max (drop 16 next_part) in
    (frequency % 2 ^ 32, not ((inverted % 2 ^ 32) == 0))

-- `strncmp(text, start, strlen(start)) == 0`, for a start without a null character.
unfoldable pub starts_with : Text → Text → Bool
starts_with [] text = true
starts_with (c ∷ start) [] = false
starts_with (c ∷ start) (d ∷ text) = (c == d) && starts_with start text
