-- ===== src/Context/Set.antt =====
-- context/ElectrosenseContext.cpp: the setters and the constructor.
use es_sensor.Prelude.{
  ℕ, ◌/◌, Bool, true, Option, none, some, List, [], ◌∷◌, ltb, if◌then◌else◌, Text, codes, text_eq,
}
use es_sensor.Prelude.Int.{ℤ, pos}
use es_sensor.Numeric.{Float, shift_one, sub32}
use es_sensor.Context.{
  Context, default_avg_factor, default_cmpr_level, default_log2_fft_size, default_tls_hosts,
  default_output_filename, sequential_hopping_strategy, random_hopping_strategy,
  similarity_hopping_strategy, hanning_window, blackman_harris_window, rectangular_window,
  output_type_byte, output_type_float,
}
use es_sensor.Context.Split.{split}

module _ {F : Type 0} where
  unfoldable pub set_pipeline : Text → Context F → Context F
  set_pipeline p c = record c { pipeline = p }

  unfoldable pub set_avg_factor : ℕ → Context F → Context F
  set_avg_factor n c = record c { avg_factor = if ltb n 1 then default_avg_factor else n }

  unfoldable pub set_clk_corr_perior : ℕ → Context F → Context F
  set_clk_corr_perior n c = record c { clk_corr_perior = n }

  unfoldable pub set_clk_off : ℤ → Context F → Context F
  set_clk_off n c = record c { clk_off = n }

  unfoldable pub set_compr_level : ℕ → Context F → Context F
  set_compr_level n c = record c { compr_level = if ltb 9 n then default_cmpr_level else n }

  unfoldable pub set_dev_index : ℤ → Context F → Context F
  set_dev_index n c = record c { dev_index = n }

  unfoldable pub set_fft_batchlen : ℕ → Context F → Context F
  set_fft_batchlen n c = record c { fft_batchlen = n }

  unfoldable pub set_fifo_priority : Bool → Context F → Context F
  set_fifo_priority b c = record c { fifo_priority = b }

  unfoldable pub set_direct_sampling_mode : ℕ → Context F → Context F
  set_direct_sampling_mode n c = record c { direct_sampling_mode = n }

  unfoldable pub set_start_time_sampling : ℕ → Context F → Context F
  set_start_time_sampling n c = record c { start_time_sampling = n }

  unfoldable pub set_freq_overlap : F → Context F → Context F
  set_freq_overlap x c = record c { freq_overlap = x }

  unfoldable pub set_gain : F → Context F → Context F
  set_gain x c = record c { gain = x }

  -- A name that is none of the three leaves the id as it was.
  unfoldable pub set_hopping_strategy : Text → Context F → Context F
  set_hopping_strategy s c = record c {
    hopping_strategy = s;
    hopping_strategy_id =
        if text_eq s (codes "sequential")
        then sequential_hopping_strategy
        else if text_eq s (codes "random")
        then random_hopping_strategy
        else if text_eq s (codes "similarity")
        then similarity_hopping_strategy
        else c.hopping_strategy_id;
  }

  unfoldable pub set_log2_fft_size : ℕ → Context F → Context F
  set_log2_fft_size n c = record c { log2_fft_size = n }

  unfoldable pub set_max_freq : ℕ → Context F → Context F
  set_max_freq n c = record c { max_freq = n }

  unfoldable pub set_min_freq : ℕ → Context F → Context F
  set_min_freq n c = record c { min_freq = n }

  unfoldable pub set_min_time_res : ℕ → Context F → Context F
  set_min_time_res n c = record c { min_time_res = n }

  unfoldable pub set_monitor_time : ℕ → Context F → Context F
  set_monitor_time n c = record c { monitor_time = n }

  unfoldable pub set_sampling_rate : ℕ → Context F → Context F
  set_sampling_rate n c = record c { sampling_rate = n }

  unfoldable pub set_soverlap : ℕ → Context F → Context F
  set_soverlap n c = record c {
    soverlap =
        if ltb (sub32 (shift_one c.log2_fft_size) 1) n then shift_one c.log2_fft_size / 2 else n;
  }

  unfoldable pub set_tls_hosts : Text → Context F → Context F
  set_tls_hosts s c = record c { tls_host = s }

  unfoldable pub set_tcp_hosts : Text → Context F → Context F
  set_tcp_hosts s c = record c { tcp_host = s }

  unfoldable pub set_windowing : Text → Context F → Context F
  set_windowing s c = record c {
    windowing = s;
    windowing_id =
        if text_eq s (codes "hanning")
        then hanning_window
        else if text_eq s (codes "blackman_harris_4")
        then blackman_harris_window
        else rectangular_window;
  }

  unfoldable pub set_buffer_time : ℕ → Context F → Context F
  set_buffer_time n c = record c { buffer_time = n }

  unfoldable pub set_decoder : ℕ → Context F → Context F
  set_decoder n c = record c { decoder = n }

  unfoldable pub set_gain_decoder : ℕ → Context F → Context F
  set_gain_decoder n c = record c { gain_decoder = n }

  -- The prefix before the first colon; `none` is `exit(-1)`.
  unfoldable pub set_typed_output : Text → Text → Context F → Option (Context F)
  set_typed_output kind name c =
      if text_eq kind (codes "BYTE")
      then some (record c { output_type = output_type_byte; output_file_name = name })
      else if text_eq kind (codes "FLOAT")
      then some (record c { output_type = output_type_float; output_file_name = name })
      else none

  unfoldable pub set_split_output : List Text → Text → Context F → Option (Context F)
  unfolding set_typed_output
  set_split_output (kind ∷ name ∷ more) file c = set_typed_output kind name c
  set_split_output _ file c =
      some (record c { output_type = output_type_byte; output_file_name = file })

  unfoldable pub set_output_file_name : Text → Context F → Option (Context F)
  unfolding set_split_output
  set_output_file_name [] c = some c
  set_output_file_name (x ∷ xs) c = set_split_output (split b':' (x ∷ xs)) (x ∷ xs) c

-- `exit` does not come back; the constructor calls a setter that cannot reach it.
abbrev or_exit {ℓ} : {A : Type ℓ} → Option A → A → A
or_exit none d = d
or_exit (some a) d = a

module _ {F : Type 0} ⦃float : Float F⦄ where
  -- The constructor, over the storage that the object is built in: the strings start empty, and
  -- `output_type` and `gain_decoder` keep what stood there.
  unfoldable pub construct : Context F → Context F
  unfolding set_avg_factor set_buffer_time set_clk_corr_perior set_clk_off set_compr_level
      set_decoder set_dev_index set_direct_sampling_mode set_fft_batchlen set_fifo_priority
      set_freq_overlap set_gain set_hopping_strategy set_log2_fft_size set_max_freq set_min_freq
      set_min_time_res set_monitor_time set_output_file_name set_pipeline set_sampling_rate
      set_soverlap set_start_time_sampling set_tcp_hosts set_tls_hosts set_windowing
  construct raw =
      let c = record raw { output_file_name = [] } in
      let c = set_pipeline (codes "PSD") c in
      let c = set_log2_fft_size default_log2_fft_size c in
      let c = set_monitor_time 0 c in
      let c = set_min_time_res 0 c in
      let c = set_dev_index (pos 0) c in
      let c = set_clk_off (pos 0) c in
      let c = set_clk_corr_perior 3600 c in
      let c = set_hopping_strategy (codes "sequential") c in
      let c = set_gain (float.lit 328 10) c in
      let c = set_freq_overlap (float.lit 1 6) c in
      let c = set_avg_factor default_avg_factor c in
      let c = set_soverlap 128 c in
      let c = set_windowing (codes "hanning") c in
      let c = set_fft_batchlen 10 c in
      let c = set_compr_level default_cmpr_level c in
      let c = set_sampling_rate 2_400_000 c in
      let c = set_tcp_hosts (codes "127.0.0.1:5000") c in
      let c = set_tls_hosts default_tls_hosts c in
      let c = set_fifo_priority true c in
      let c = set_direct_sampling_mode 0 c in
      let c = set_min_freq 0 c in
      let c = set_max_freq 0 c in
      let c = set_buffer_time 5 c in
      let c = or_exit (set_output_file_name default_output_filename c) c in
      let c = set_start_time_sampling 0 c in set_decoder 0 c
