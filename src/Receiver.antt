-- ===== src/Receiver.antt =====
-- drivers/rtlsdr/rtlsdrDriver.cpp: the receiver, whose synchronous loop feeds the PSD pipeline. The
-- rtl-sdr library and the frequency converter are outside: a round takes their answers, and records
-- the commands that it gave them.
pub mod Cut
pub mod Open
pub mod Tune
pub mod Sync
pub mod Bounds
pub mod Windows
pub mod Inside
pub mod Direct
pub mod Silence
pub mod Course
pub mod RoundSteps
pub mod Rounds
pub mod Async
pub mod Control
pub mod Streams
pub mod Chain
use es_sensor.Prelude.{ℕ, Bool, Option, List}
use es_sensor.Prelude.Int.{ℤ}
use es_sensor.Hopping.{SequentialHopping}
use es_sensor.Segment.{Segment, Timespec}

pub data Command : Type 0 where
  open_dongle : ℤ → Command
  set_direct_sampling : ℕ → Command
  set_sample_rate : ℕ → Command
  set_center_freq : ℕ → Command
  set_agc_mode : ℕ → Command
  set_tuner_gain_mode : ℕ → Command
  set_tuner_gain : ℤ → Command
  reset_buffer : Command
  tune_converter : ℕ → Command
  read_sync : ℕ → Command

-- What the library calls of one round give back, if they are made. `converter_tune` is `none` where
-- `converterTune` fails, and else its intermediate frequency in kHz and whether the spectrum is
-- inverted; `buffer` is what stands in `iq_buf` after the read.
pub record Answers : Type 0 where
  pub converter_tune : Option (ℕ × Bool)
  pub direct_result : ℤ
  pub gain_mode_result : ℤ
  pub gain_result : ℤ
  pub center_result : ℤ
  pub reset_result : ℤ
  pub current_time : Timespec
  pub read_result : ℤ
  pub n_read : ℕ
  pub buffer : List ℕ

-- The variables of `SyncSampling` between two rounds, with the commands and the segments so far.
pub record Sampling (F : Type 0) : Type 0 where
  pub running : Bool
  pub hopping : SequentialHopping
  pub previous_freq : ℕ
  pub previous_proxy_freq : ℕ
  pub must_invert : Bool
  pub direct_sampling : Bool
  pub fft_size : ℕ
  pub slen : ℕ
  pub commands : List Command
  pub sent : List (Segment F)
