-- ===== src/Sinks/CsvLaws.antt =====
-- MiscBlocks/FileSink.cpp: a line is read back.
use es_sensor.Prelude.{
  ℕ, zero, suc, ◌+◌, ◌^◌, ◌<◌, ◌≡◌, ◌≢◌, refl, sym, ap, ◌∙◌, false, Option, none, some, List, [],
  ◌∷◌, ◌++◌, map, arith, ◌==◌, if◌then◌else◌, Text,
}
use es_sensor.Prelude.Int.{ℤ, pos, negsuc}
use es_sensor.Numeric.{Float}
use es_sensor.Segment.{Segment}
use es_sensor.Context.Split.{split}
use es_sensor.Context.SplitLaws.{Lacks, join_one, join_cons, split-join}
use es_sensor.Converter.Decimal.{value, value-digits, digits-cons}
use es_sensor.Sinks.Csv.{digits, show_int, line, digits-Lacks, show_int-Lacks, split-line}
use mathlib.Core.Path.{subst}

abbrev negative : ℕ → ℤ
negative zero = pos 0
negative (suc n) = negsuc n

-- A whole number, with or without a minus.
abbrev pub read_int : Text → ℤ
read_int [] = pos 0
read_int (c ∷ text) = if c == b'-' then negative (value 0 text) else pos (value 0 (c ∷ text))

-- A line as a reader sees it: seconds and nanoseconds on both sides of the first field's point, the
-- frequency, and the texts behind it.
pub record Row : Type 0 where
  pub seconds : ℤ
  pub nanoseconds : ℤ
  pub frequency : ℕ
  pub values : List Text

abbrev pub read_time : List Text → ℕ → List Text → Option Row
read_time (sec ∷ nsec ∷ []) frequency values = some (record {
  seconds = read_int sec;
  nanoseconds = read_int nsec;
  frequency = frequency;
  values = values;
})
read_time _ frequency values = none

abbrev pub read_fields : List Text → Option Row
read_fields (time ∷ frequency ∷ values) = read_time (split b'.' time) (value 0 frequency) values
read_fields _ = none

abbrev pub read_line : Text → Option Row
read_line text = read_fields (split b',' text)

-- The number has at most 20 digits, which any of 64 bits has.
abbrev pub IsShort : ℤ → Type 0
IsShort (pos n) = n < 10 ^ 20
IsShort (negsuc n) = n + 1 < 10 ^ 20

not_minus : (c : ℕ) (text : Text) → c ≢ b'-' → read_int (c ∷ text) ≡ pos (value 0 (c ∷ text))
not_minus c text h = let e : (c == b'-') ≡ false = ground arith in rw (e) refl

read_int-digits : (n : ℕ) → n < 10 ^ 20 → read_int (digits 20 n) ≡ pos n
read_int-digits n h =
    let (c, text, shape) = digits-cons 19 n in
    let lacks = subst (Lacks b'-') shape (digits-Lacks b'-' 20 n (omega arith)) in
    ap read_int shape
    ∙ not_minus c text lacks.0
    ∙ ap (λ t. pos (value 0 t)) (sym shape)
    ∙ ap pos (value-digits 20 n h)

read_int-show_int : (n : ℤ) → IsShort n → read_int (show_int n) ≡ n
unfolding show_int
read_int-show_int (pos n) h = read_int-digits n h
read_int-show_int (negsuc n) h =
    ap negative (value-digits 20 (n + 1) h) ∙ ap negative (let e : n + 1 ≡ suc n = omega arith in e)

split_time :
    (a b : ℤ) → split b'.' (show_int a ++ (b'.' ∷ show_int b)) ≡ show_int a ∷ show_int b ∷ []
split_time a b =
    let lacks = λ (n : ℤ). show_int-Lacks b'.' n (omega arith) (λ e. absurd (omega arith)) in
    ap (split b'.') (
      sym (
        join_cons b'.' (show_int a) (show_int b) []
        ∙ ap (λ t. show_int a ++ (b'.' ∷ t)) (join_one b'.' (show_int b))))
    ∙ split-join b'.' (show_int a) (show_int b ∷ []) (lacks a, (lacks b, tt))

module _ {F : Type 0} ⦃float : Float F⦄ where
  -- A line is read back: cut at its commas, and the first field at its point, and with the numbers
  -- read as decimals, it gives the seconds, the nanoseconds and the frequency, and the text of each
  -- value in order, with an empty one behind them. The numbers have at most 20 digits, and the text
  -- of a value has no comma.
  pub read_line-line :
      (s : Segment F)
      → IsShort s.time_stamp.tv_sec
      → IsShort s.time_stamp.tv_nsec
      → s.center_frequency < 10 ^ 20
      → ((x : F) → Lacks b',' (float.show x))
      → read_line (line s)
        ≡ some (record {
          seconds = s.time_stamp.tv_sec;
          nanoseconds = s.time_stamp.tv_nsec;
          frequency = s.center_frequency;
          values = map float.show s.psd_values ++ ([] ∷ []);
        })
  read_line-line s sec nsec freq h =
      let values = map float.show s.psd_values ++ ([] ∷ []) in
      let a = s.time_stamp.tv_sec in
      let b = s.time_stamp.tv_nsec in
      ap read_fields (split-line s h)
      ∙ ap (λ l. read_time l (value 0 (digits 20 s.center_frequency)) values) (split_time a b)
      ∙ (λ i. some (record {
        seconds = read_int-show_int a sec i;
        nanoseconds = read_int-show_int b nsec i;
        frequency = value-digits 20 s.center_frequency freq i;
        values = values;
      }))
