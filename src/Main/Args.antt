-- ===== src/Main/Args.antt =====
-- main.cpp, lines 184 to 278 and 322 to 336: the command line becomes the configuration. `getopt` is
-- outside: what it gives back is a list of options with their arguments, and the rest.
use es_sensor.Prelude.{
  ℕ, zero, suc, ◌+◌, ◌-◌, ◌*◌, Bool, true, not, ◌&&◌, ◌||◌, Option, none, some, List, [], ◌∷◌, leb,
  ◌==◌, if◌then◌else◌, Text, codes, text_eq,
}
use es_sensor.Prelude.Int.{ℤ, pos, negsuc}
use es_sensor.Numeric.{Float, to_unsigned}
use es_sensor.Context.{Context}
use es_sensor.Context.Set.{
  set_dev_index, set_clk_off, set_pipeline, set_clk_corr_perior, set_gain, set_hopping_strategy,
  set_sampling_rate, set_log2_fft_size, set_fft_batchlen, set_avg_factor, set_soverlap,
  set_freq_overlap, set_monitor_time, set_min_time_res, set_windowing, set_compr_level,
  set_tcp_hosts, set_tls_hosts, set_fifo_priority, set_output_file_name, set_start_time_sampling,
  set_min_freq, set_max_freq,
}

-- The standard library's `atoi`, `atol` and `atoll`, for values that fit: spaces, a sign, digits.
abbrev is_digit : ℕ → Bool
is_digit x = leb b'0' x && leb x b'9'

unfoldable pub digits : ℕ → Text → ℕ
digits acc [] = acc
digits acc (x ∷ xs) =
    let rest = digits (acc * 10 + (x - b'0')) xs in if is_digit x then rest else acc

abbrev negate : ℕ → ℤ
negate zero = pos 0
negate (suc n) = negsuc n

unfoldable pub atol : Text → ℤ
unfolding digits
atol [] = pos 0
atol (x ∷ xs) =
    let rest = atol xs in
    if (x == b' ') || (leb 9 x && leb x 13)
    then rest
    else if x == b'-'
    then negate (digits 0 xs)
    else if x == b'+'
    then pos (digits 0 xs)
    else pos (digits 0 (x ∷ xs))

abbrev unsigned : Text → ℕ
unfolding atol
unsigned s = to_unsigned 32 (atol s)

module _ {F : Type 0} ⦃float : Float F⦄ where
  -- One option. `none` is `usage`, which ends the program, or the exit in `setOutputFileName`.
  unfoldable pub apply_option : ℕ → Text → Context F → Option (Context F)
  unfolding unsigned atol
  apply_option opt arg c =
      if opt == b'd'
      then some (set_dev_index (atol arg) c)
      else if opt == b'c'
      then some (set_clk_off (atol arg) c)
      else if opt == b'z'
      then some (set_pipeline arg c)
      else if opt == b'k'
      then some (set_clk_corr_perior (unsigned arg) c)
      else if opt == b'g'
      then (if float.lt (float.atof arg) (float.neg (float.of_nat 1))
          then none
          else some (set_gain (float.atof arg) c))
      else if opt == b'y'
      then some (set_hopping_strategy arg c)
      else if opt == b's'
      then some (set_sampling_rate (unsigned arg) c)
      else if opt == b'f'
      then some (set_log2_fft_size (unsigned arg) c)
      else if opt == b'b'
      then some (set_fft_batchlen (unsigned arg) c)
      else if opt == b'a'
      then some (set_avg_factor (unsigned arg) c)
      else if opt == b'o'
      then some (set_soverlap (unsigned arg) c)
      else if opt == b'q'
      then some (set_freq_overlap (float.atof arg) c)
      else if opt == b't'
      then some (set_monitor_time (unsigned arg) c)
      else if opt == b'r'
      then some (set_min_time_res (unsigned arg) c)
      else if opt == b'w'
      then some (set_windowing arg c)
      else if opt == b'l'
      then some (set_compr_level (unsigned arg) c)
      else if opt == b'm'
      then some (set_tcp_hosts arg c)
      else if opt == b'n'
      then some (set_tls_hosts arg c)
      else if opt == b'p'
      then some (set_fifo_priority true c)
      else if opt == b'u'
      then set_output_file_name arg c
      else if opt == b'x'
      then some (set_start_time_sampling (unsigned arg) c)
      else none

  unfoldable pub apply_options : List (ℕ × Text) → Context F → Option (Context F)
  unfolding apply_option
  apply_options [] c = some c
  apply_options ((opt, arg) ∷ opts) c = elim (apply_option opt arg c) [
    | none ↦ none
    | some c' ↦ apply_options opts c'
  ]

  -- The arguments behind the options have to be the two frequencies.
  unfoldable pub apply_frequencies : List Text → Context F → Option (Context F)
  unfolding atol
  apply_frequencies (lo ∷ hi ∷ []) c =
      some (set_max_freq (to_unsigned 64 (atol hi)) (set_min_freq (to_unsigned 64 (atol lo)) c))
  apply_frequencies _ c = none

  unfoldable pub parse_args : List (ℕ × Text) → List Text → Context F → Option (Context F)
  unfolding apply_options apply_frequencies
  parse_args opts args c = elim (apply_options opts c) [
    | none ↦ none
    | some c' ↦ apply_frequencies args c'
  ]

-- "A few checks before start": whether the program goes on.
unfoldable pub may_start : {F : Type 0} → Context F → Bool
may_start c =
    not (text_eq c.pipeline (codes "IQ") && not (c.min_freq == c.max_freq))
    && not (text_eq c.pipeline (codes "PSD") && leb c.max_freq c.min_freq)
