-- ===== src/Context.antt =====
-- context/ElectrosenseContext.h and .cpp: the configuration that all threads share. The singleton is
-- a value that the functions take and return; the getters are the fields.
pub mod Split
pub mod SplitLaws
pub mod Set
pub mod Valid
pub mod Output
use es_sensor.Prelude.{ℕ, ◌+◌, ◌%◌, ◌^◌, Bool, ◌==◌, if◌then◌else◌, Text, codes, []}
use es_sensor.Prelude.Int.{ℤ}
use es_sensor.Numeric.{Float, shift_one}

abbrev pub default_avg_factor : ℕ
default_avg_factor = 5

abbrev pub default_cmpr_level : ℕ
default_cmpr_level = 6

abbrev pub default_log2_fft_size : ℕ
default_log2_fft_size = 8

abbrev pub default_tls_hosts : Text
default_tls_hosts = codes "0"

abbrev pub default_output_filename : Text
default_output_filename = []

abbrev pub sequential_hopping_strategy : ℕ
sequential_hopping_strategy = 0

abbrev pub random_hopping_strategy : ℕ
random_hopping_strategy = 1

abbrev pub similarity_hopping_strategy : ℕ
similarity_hopping_strategy = 2

abbrev pub hanning_window : ℕ
hanning_window = 0

abbrev pub blackman_harris_window : ℕ
blackman_harris_window = 1

abbrev pub rectangular_window : ℕ
rectangular_window = 2

abbrev pub output_type_byte : ℕ
output_type_byte = 0

abbrev pub output_type_float : ℕ
output_type_float = 1

pub record Context (F : Type 0) : Type 0 where
  pub min_freq : ℕ
  pub max_freq : ℕ
  pub clk_corr_perior : ℕ
  pub sampling_rate : ℕ
  pub log2_fft_size : ℕ
  pub avg_factor : ℕ
  pub soverlap : ℕ
  pub monitor_time : ℕ
  pub min_time_res : ℕ
  pub fft_batchlen : ℕ
  pub compr_level : ℕ
  pub dev_index : ℤ
  pub clk_off : ℤ
  pub gain : F
  pub freq_overlap : F
  pub hopping_strategy : Text
  pub windowing : Text
  pub tcp_host : Text
  pub tls_host : Text
  pub output_file_name : Text
  pub output_type : ℕ
  pub fifo_priority : Bool
  pub direct_sampling_mode : ℕ
  pub buffer_time : ℕ
  pub pipeline : Text
  pub start_time_sampling : ℕ
  pub hopping_strategy_id : ℕ
  pub windowing_id : ℕ
  pub decoder : ℕ
  pub gain_decoder : ℕ

-- "We need an odd number of bins."
abbrev pub make_odd : ℕ → ℕ
make_odd n = if (n % 2) == 0 then (n + 1) % 2 ^ 32 else n

module _ {F : Type 0} ⦃float : Float F⦄ where
  -- `(1 - freqOverlap) * n`, converted to an unsigned integer.
  abbrev pub reduced : Context F → ℕ → ℕ
  reduced c n = float.trunc (float.mul (float.sub (float.of_nat 1) c.freq_overlap) (float.of_nat n))

  pub get_reduced_fft_size : Context F → ℕ
  get_reduced_fft_size c = make_odd (reduced c ((shift_one c.log2_fft_size + 1) % 2 ^ 32))
