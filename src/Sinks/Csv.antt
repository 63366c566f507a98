-- ===== src/Sinks/Csv.antt =====
-- MiscBlocks/FileSink.cpp: one line of text for each segment.
use es_sensor.Prelude.{
  ℕ, zero, suc, ◌+◌, ◌/◌, ◌%◌, ◌≡◌, ◌≢◌, ◌<◌, sym, ap, ◌∙◌, List, [], ◌∷◌, ◌++◌, map, arith, ltb,
  if◌then◌else◌, if-both, Text, All, All-append,
}
use es_sensor.Prelude.Int.{ℤ, pos, negsuc}
use es_sensor.Numeric.{Float}
use es_sensor.Segment.{Segment}
use es_sensor.Context.Split.{split}
use es_sensor.Context.SplitLaws.{Lacks, join, join_one, join_cons, split-join}
use mathlib.Core.List.{append_assoc}

-- The digits of a number, on fuel; 20 digits are enough for 64 bits.
unfoldable pub digits : ℕ → ℕ → Text
digits zero n = []
digits (suc fuel) n =
    let rest = digits fuel (n / 10) in
    if ltb n 10 then ((b'0' + n) ∷ []) else (rest ++ ((b'0' + n % 10) ∷ []))

unfoldable pub show_int : ℤ → Text
unfolding digits
show_int (pos n) = digits 20 n
show_int (negsuc n) = b'-' ∷ digits 20 (n + 1)

pub digits-Lacks : (d fuel n : ℕ) → d < b'0' → Lacks d (digits fuel n)
unfolding digits
digits-Lacks d zero n h = tt
digits-Lacks d (suc fuel) n h =
    if-both (Lacks d) (ltb n 10) (λ _. (λ e. absurd (omega arith), tt))
      (λ _.
        All-append (λ x. x ≢ d) (digits fuel (n / 10)) ((b'0' + n % 10) ∷ [])
          (digits-Lacks d fuel (n / 10) h) (λ e. absurd (omega arith), tt))

pub show_int-Lacks : (d : ℕ) (n : ℤ) → d < b'0' → d ≢ b'-' → Lacks d (show_int n)
unfolding show_int
show_int-Lacks d (pos n) h other = digits-Lacks d 20 n h
show_int-Lacks d (negsuc n) h other = (λ e. other (sym e), digits-Lacks d 20 (n + 1) h)

module _ {F : Type 0} ⦃float : Float F⦄ where
  unfoldable pub show_values : List F → Text
  show_values [] = []
  show_values (x ∷ xs) = float.show x ++ (b',' ∷ show_values xs)

  -- The line without its end. The nanoseconds are written without leading zeros.
  unfoldable pub line : Segment F → Text
  unfolding show_int digits show_values
  line s =
      show_int s.time_stamp.tv_sec
      ++ (b'.' ∷ show_int s.time_stamp.tv_nsec)
      ++ (b',' ∷ digits 20 s.center_frequency)
      ++ (b',' ∷ show_values s.psd_values)

  unfoldable pub write_line : Segment F → Text → Text
  unfolding line
  write_line s file = file ++ line s ++ (10 ∷ [])

  -- The fields of a line; behind the last value stands a comma.
  abbrev pub fields : Segment F → List Text
  fields s =
      (show_int s.time_stamp.tv_sec ++ (b'.' ∷ show_int s.time_stamp.tv_nsec))
      ∷ digits 20 s.center_frequency
      ∷ (map float.show s.psd_values ++ ([] ∷ []))

  values-join :
      (xs : List F) (w : Text)
      → w ++ (b',' ∷ show_values xs) ≡ join b',' (w ∷ (map float.show xs ++ ([] ∷ [])))
  unfolding show_values
  values-join [] w = sym (join_cons b',' w [] [] ∙ ap (λ t. w ++ (b',' ∷ t)) (join_one b',' []))
  values-join (x ∷ xs) w =
      ap (λ t. w ++ (b',' ∷ t)) (values-join xs (float.show x))
      ∙ sym (join_cons b',' w (float.show x) _)

  values-Lacks :
      (xs : List F)
      → ((x : F) → Lacks b',' (float.show x))
      → All (Lacks b',') (map float.show xs ++ ([] ∷ []))
  values-Lacks [] h = (tt, tt)
  values-Lacks (x ∷ xs) h = (h x, values-Lacks xs h)

  line-join : (s : Segment F) → line s ≡ join b',' (fields s)
  unfolding line
  line-join s =
      let time = show_int s.time_stamp.tv_sec ++ (b'.' ∷ show_int s.time_stamp.tv_nsec) in
      let freq = digits 20 s.center_frequency in
      append_assoc time (b',' ∷ freq) (b',' ∷ show_values s.psd_values)
      ∙ ap (λ t. time ++ (b',' ∷ t)) (values-join s.psd_values freq)
      ∙ sym (join_cons b',' time freq _)

  -- A line, cut at its commas, gives back the segment's fields: time, frequency and all values, in
  -- order, and an empty field behind them. The text of a value has no comma.
  pub split-line :
      (s : Segment F) → ((x : F) → Lacks b',' (float.show x)) → split b',' (line s) ≡ fields s
  split-line s h =
      let time = show_int s.time_stamp.tv_sec ++ (b'.' ∷ show_int s.time_stamp.tv_nsec) in
      let time_lacks : Lacks b',' time =
        All-append (λ x. x ≢ b',') (show_int s.time_stamp.tv_sec) _
          (show_int-Lacks b',' s.time_stamp.tv_sec (omega arith) (λ e. absurd (omega arith)))
          (
            λ e. absurd (omega arith),
            show_int-Lacks b',' s.time_stamp.tv_nsec (omega arith) (λ e. absurd (omega arith)),
          ) in
      ap (split b',') (line-join s)
      ∙ split-join b',' time _ (
        time_lacks,
        (digits-Lacks b',' 20 s.center_frequency (omega arith), values-Lacks s.psd_values h),
      )
