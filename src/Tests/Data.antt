-- ===== src/Tests/Data.antt =====
-- A configuration and other data for the runs.
use es_sensor.Prelude.{ℕ, true, false, some, List, [], ◌∷◌, codes}
use es_sensor.Prelude.Int.{pos, negsuc}
use es_sensor.Numeric.{Fixed, fixed_float}
use es_sensor.Context.{Context}
use es_sensor.Segment.{Segment, Timespec, Complex}
use es_sensor.Receiver.{Answers}

-- FFT size 4, overlap 1, 2 segments for each average, batches of 2, 24 to 27 MHz in steps of 2 MHz.
abbrev pub config : Context Fixed
config = record {
  min_freq = 24_000_000;
  max_freq = 27_000_000;
  clk_corr_perior = 3600;
  sampling_rate = 2_400_000;
  log2_fft_size = 2;
  avg_factor = 2;
  soverlap = 1;
  monitor_time = 0;
  min_time_res = 0;
  fft_batchlen = 2;
  compr_level = 6;
  dev_index = pos 0;
  clk_off = pos 0;
  gain = 600;
  freq_overlap = 100;
  hopping_strategy = codes "sequential";
  windowing = codes "hanning";
  tcp_host = [];
  tls_host = codes "0";
  output_file_name = [];
  output_type = 0;
  fifo_priority = true;
  direct_sampling_mode = 2;
  buffer_time = 5;
  pipeline = codes "PSD";
  start_time_sampling = 0;
  hopping_strategy_id = 0;
  windowing_id = 0;
  decoder = 0;
  gain_decoder = 0;
}

abbrev pub noon : Timespec
noon = record { tv_sec = pos 1000; tv_nsec = pos 999_999_999 }

abbrev pub buffer : List ℕ
buffer = 1 ∷ 2 ∷ 3 ∷ 4 ∷ 5 ∷ 6 ∷ 7 ∷ 8 ∷ 9 ∷ 10 ∷ 11 ∷ 12 ∷ 13 ∷ 14 ∷ 15 ∷ 16 ∷ []

-- A round in which every call succeeds.
abbrev pub good_answers : Answers
good_answers = record {
  converter_tune = some (100, false);
  direct_result = pos 0;
  gain_mode_result = pos 0;
  gain_result = pos 0;
  center_result = pos 0;
  reset_result = pos 0;
  current_time = noon;
  read_result = pos 0;
  n_read = 512;
  buffer = buffer;
}

abbrev pub no_weight : ℕ → ℕ → Fixed
no_weight i n = 600

abbrev pub same_signal : ℕ → List (Complex Fixed) → List (Complex Fixed)
same_signal n xs = xs

abbrev pub no_shift : List (Complex Fixed) → List (Complex Fixed)
no_shift xs = xs

abbrev pub segment_at : ℕ → Segment Fixed
segment_at freq = record {
  sensor_id = negsuc 999;
  time_stamp = noon;
  center_frequency = freq;
  sampling_rate = 2_400_000;
  iq_samples = [];
  iq_samples_freq = [];
  psd_values = 600 ∷ 1200 ∷ [];
  iq_time_v2 = 5 ∷ [];
  avro_buffer = some (7 ∷ 8 ∷ 9 ∷ 10 ∷ 11 ∷ []);
  samples = some (1 ∷ 2 ∷ []);
}
