-- ===== src/Segment.antt =====
-- types/SpectrumSegment.h and .cpp: one piece of measured spectrum, as it passes from block to block.
use es_sensor.Prelude.{ℕ, Option, none, some, List, []}
use es_sensor.Prelude.Int.{ℤ}

-- `struct timespec`.
pub record Timespec : Type 0 where
  pub tv_sec : ℤ
  pub tv_nsec : ℤ

-- `std::complex<float>`.
pub record Complex (F : Type 0) : Type 0 where
  pub real : F
  pub imag : F

-- `avro_buffer` and `samples` are `NULL` or a buffer with its bytes.
pub record Segment (F : Type 0) : Type 0 where
  pub sensor_id : ℤ
  pub time_stamp : Timespec
  pub center_frequency : ℕ
  pub sampling_rate : ℕ
  pub iq_samples : List (Complex F)
  pub iq_samples_freq : List (Complex F)
  pub psd_values : List F
  pub iq_time_v2 : List F
  pub avro_buffer : Option (List ℕ)
  pub samples : Option (List ℕ)

module _ {F : Type 0} where
  -- The constructor from complex samples.
  unfoldable pub of_iq : ℤ → Timespec → ℕ → ℕ → List (Complex F) → Segment F
  of_iq id time freq rate iq = record {
    sensor_id = id;
    time_stamp = time;
    center_frequency = freq;
    sampling_rate = rate;
    iq_samples = iq;
    iq_samples_freq = [];
    psd_values = [];
    iq_time_v2 = [];
    avro_buffer = none;
    samples = none;
  }

  -- The constructor from raw bytes, which it copies.
  unfoldable pub of_bytes : ℤ → Timespec → ℕ → ℕ → List ℕ → Segment F
  of_bytes id time freq rate bytes = record {
    sensor_id = id;
    time_stamp = time;
    center_frequency = freq;
    sampling_rate = rate;
    iq_samples = [];
    iq_samples_freq = [];
    psd_values = [];
    iq_time_v2 = [];
    avro_buffer = none;
    samples = some bytes;
  }

  unfoldable pub set_avro_buffer : List ℕ → Segment F → Segment F
  set_avro_buffer bytes s = record s { avro_buffer = some bytes }
