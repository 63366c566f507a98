-- ===== src/Main/ArgsValid.antt =====
-- main.cpp, lines 184 to 336: what holds of the configuration whatever the command line says.
use es_sensor.Prelude.{
  ℕ, ◌≤◌, ◌≡◌, Option, none, some, List, [], ◌∷◌, arith, ◌==◌, if-both, Text, codes, text_eq,
}
use mathlib.Core.Path.{subst}
use es_sensor.Numeric.{Float}
use es_sensor.Context.{Context}
use es_sensor.Context.Set.{
  set_dev_index, set_clk_off, set_pipeline, set_clk_corr_perior, set_gain, set_hopping_strategy,
  set_sampling_rate, set_log2_fft_size, set_fft_batchlen, set_avg_factor, set_soverlap,
  set_freq_overlap, set_monitor_time, set_min_time_res, set_windowing, set_compr_level,
  set_tcp_hosts, set_tls_hosts, set_fifo_priority, set_output_file_name, set_split_output,
  set_typed_output, set_start_time_sampling, set_min_freq, set_max_freq,
}
use es_sensor.Context.Split.{split}
use es_sensor.Main.Args.{apply_option, apply_options, apply_frequencies, parse_args}

-- The averaging factor, the compression level and the two ids are in range.
pub record Ranges (avg compr hopping windowing : ℕ) : Type 0 where
  pub avg_pos : 1 ≤ avg
  pub compr_le : compr ≤ 9
  pub hopping_le : hopping ≤ 2
  pub windowing_le : windowing ≤ 2

abbrev pub InRange : {F : Type 0} → Context F → Type 0
InRange c = Ranges c.avg_factor c.compr_level c.hopping_strategy_id c.windowing_id

module _ {F : Type 0} where
  abbrev SomeInRange : Option (Context F) → Type 0
  SomeInRange none = Unit
  SomeInRange (some c) = InRange c

  typed_output-InRange :
      (kind name : Text) (c : Context F) → InRange c → SomeInRange (set_typed_output kind name c)
  unfolding set_typed_output
  typed_output-InRange kind name c v =
      if-both SomeInRange (text_eq kind (codes "BYTE")) (λ _. v)
        (λ _. if-both SomeInRange (text_eq kind (codes "FLOAT")) (λ _. v) (λ _. tt))

  split_output-InRange :
      (ws : List Text) (file : Text) (c : Context F)
      → InRange c
      → SomeInRange (set_split_output ws file c)
  unfolding set_split_output
  split_output-InRange [] file c v = v
  split_output-InRange (kind ∷ []) file c v = v
  split_output-InRange (kind ∷ name ∷ more) file c v = typed_output-InRange kind name c v

  set_output_file_name-InRange :
      (name : Text) (c : Context F) → InRange c → SomeInRange (set_output_file_name name c)
  unfolding set_output_file_name
  set_output_file_name-InRange [] c v = v
  set_output_file_name-InRange (x ∷ xs) c v =
      split_output-InRange (split b':' (x ∷ xs)) (x ∷ xs) c v

  avg_factor-InRange : (n : ℕ) (c : Context F) → InRange c → InRange (set_avg_factor n c)
  unfolding set_avg_factor
  avg_factor-InRange n c v = ground arith

  compr_level-InRange : (n : ℕ) (c : Context F) → InRange c → InRange (set_compr_level n c)
  unfolding set_compr_level
  compr_level-InRange n c v = ground arith

  windowing-InRange : (s : Text) (c : Context F) → InRange c → InRange (set_windowing s c)
  unfolding set_windowing
  windowing-InRange s c v = ground arith

  hopping-InRange : (s : Text) (c : Context F) → InRange c → InRange (set_hopping_strategy s c)
  unfolding set_hopping_strategy
  hopping-InRange s c v = ground arith

module _ {F : Type 0} ⦃float : Float F⦄ where
  apply_option-InRange :
      (opt : ℕ) (arg : Text) (c : Context F) → InRange c → SomeInRange (apply_option opt arg c)
  unfolding apply_option set_dev_index set_clk_off set_pipeline set_clk_corr_perior set_gain
      set_sampling_rate set_log2_fft_size set_fft_batchlen set_soverlap set_freq_overlap
      set_monitor_time set_min_time_res set_tcp_hosts set_tls_hosts set_fifo_priority
      set_start_time_sampling
  apply_option-InRange opt arg c v =
      if-both SomeInRange (opt == b'd') (λ _. v)
        (λ _.
          if-both SomeInRange (opt == b'c') (λ _. v)
            (λ _.
              if-both SomeInRange (opt == b'z') (λ _. v)
                (λ _.
                  if-both SomeInRange (opt == b'k') (λ _. v)
                    (λ _.
                      if-both SomeInRange (opt == b'g')
                        (λ _.
                          if-both SomeInRange
                            (float.lt (float.atof arg) (float.neg (float.of_nat 1))) (λ _. tt)
                            (λ _. v))
                        (λ _.
                          if-both SomeInRange (opt == b'y') (λ _. hopping-InRange arg c v)
                            (λ _.
                              if-both SomeInRange (opt == b's') (λ _. v)
                                (λ _.
                                  if-both SomeInRange (opt == b'f') (λ _. v)
                                    (λ _.
                                      if-both SomeInRange (opt == b'b') (λ _. v)
                                        (λ _.
                                          if-both SomeInRange (opt == b'a')
                                            (λ _. avg_factor-InRange _ c v)
                                            (λ _.
                                              if-both SomeInRange (opt == b'o') (λ _. v)
                                                (λ _.
                                                  if-both SomeInRange (opt == b'q') (λ _. v)
                                                    (λ _.
                                                      if-both SomeInRange (opt == b't') (λ _. v)
                                                        (λ _.
                                                          if-both SomeInRange (opt == b'r') (λ _. v)
                                                            (λ _.
                                                            if-both SomeInRange (opt == b'w')
                                                            (λ _. windowing-InRange arg c v)
                                                            (λ _.
                                                            if-both SomeInRange (opt == b'l')
                                                            (λ _. compr_level-InRange _ c v)
                                                            (λ _.
                                                            if-both SomeInRange (opt == b'm')
                                                            (λ _. v)
                                                            (λ _.
                                                            if-both SomeInRange (opt == b'n')
                                                            (λ _. v)
                                                            (λ _.
                                                            if-both SomeInRange (opt == b'p')
                                                            (λ _. v)
                                                            (λ _.
                                                            if-both SomeInRange (opt == b'u')
                                                            (λ _.
                                                            set_output_file_name-InRange arg c v)
                                                            (λ _.
                                                            if-both SomeInRange (opt == b'x')
                                                            (λ _. v) (λ _. tt)))))))))))))))))))))

  options_after :
      (opts : List (ℕ × Text)) (o : Option (Context F))
      → ((c : Context F) → InRange c → SomeInRange (apply_options opts c))
      → SomeInRange o
      → SomeInRange (elim o [ none ↦ none | some c' ↦ apply_options opts c' ])
  options_after opts none rest h = tt
  options_after opts (some c') rest h = rest c' h

  apply_options-InRange :
      (opts : List (ℕ × Text)) (c : Context F) → InRange c → SomeInRange (apply_options opts c)
  unfolding apply_options
  apply_options-InRange [] c v = v
  apply_options-InRange ((opt, arg) ∷ opts) c v =
      options_after opts (apply_option opt arg c) (λ c' v'. apply_options-InRange opts c' v')
        (apply_option-InRange opt arg c v)

  apply_frequencies-InRange :
      (args : List Text) (c : Context F) → InRange c → SomeInRange (apply_frequencies args c)
  unfolding apply_frequencies set_min_freq set_max_freq
  apply_frequencies-InRange [] c v = tt
  apply_frequencies-InRange (lo ∷ []) c v = tt
  apply_frequencies-InRange (lo ∷ hi ∷ []) c v = v
  apply_frequencies-InRange (lo ∷ hi ∷ more ∷ args) c v = tt

  -- Whatever the command line says, if the program accepts it, the averaging factor is at least 1,
  -- the compression level at most 9, and the ids of the window and of the hopping strategy are known,
  -- from a configuration where that holds, such as the default one.
  pub parse_args-InRange :
      (opts : List (ℕ × Text)) (args : List Text) (c c' : Context F)
      → InRange c
      → parse_args opts args c ≡ some c'
      → InRange c'
  unfolding parse_args
  parse_args-InRange opts args c c' v e =
      subst SomeInRange e (after (apply_options opts c) (apply_options-InRange opts c v))
    where
      after :
          (o : Option (Context F))
          → SomeInRange o
          → SomeInRange (elim o [ none ↦ none | some c'' ↦ apply_frequencies args c'' ])
      after none h = tt
      after (some c'') h = apply_frequencies-InRange args c'' h
