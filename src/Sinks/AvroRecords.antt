-- ===== src/Sinks/AvroRecords.antt =====
-- MiscBlocks/AvroSerialization.cpp: the records that are filled for a segment, and the blocks that
-- send their bytes. The Avro library's encoding is a parameter.
use es_sensor.Prelude.{
  ℕ, ◌+◌, ◌-◌, ◌*◌, ◌/◌, ◌%◌, ◌^◌, Option, none, some, List, [], ◌∷◌, leb, if◌then◌else◌, length,
}
use es_sensor.Prelude.Int.{ℤ, pos, negsuc}
use es_sensor.Numeric.{Float, shift_one, to_int, to_unsigned}
use es_sensor.Segment.{Segment, set_avro_buffer}
use es_sensor.Context.{Context, make_odd, reduced}
use es_sensor.Sinks.Avro.{bins_of}

-- The fields of schemas/rtl-spec.avsc; the optional ones are `none` for `null`.
pub record PsdRecord (F : Type 0) : Type 0 where
  pub sen_id : ℤ
  pub hopping_strategy : ℕ
  pub windowing_function : ℕ
  pub fft_size : ℤ
  pub averaging_factor : ℤ
  pub frequency_overlap : F
  pub frequency_resolution : F
  pub gain : F
  pub sen_pos : Option F
  pub sen_temp : Option F
  pub time_secs : ℤ
  pub time_microsecs : ℤ
  pub center_freq : ℤ
  pub squared_mag : List F

-- The fields of schemas/iq-spec.avsc that are not always null.
pub record IqRecord (F : Type 0) : Type 0 where
  pub sen_id : ℤ
  pub time_secs : ℤ
  pub time_micro_secs : ℤ
  pub sen_temp : Option F
  pub sen_latitude : Option F
  pub sen_longitude : Option F
  pub sen_altitude : Option F
  pub hopping_strategy : Option ℕ
  pub antenna_gain : Option F
  pub frontend_gain : Option F
  pub sampling_rate : Option ℤ
  pub center_freq : ℤ
  pub loss_rate : Option F
  pub measurements : List F

-- The conversion to `int`, of a value of any size, and to `int64_t`.
abbrev pub int_of : ℤ → ℤ
int_of n = to_int (to_unsigned 32 n)

abbrev pub long_of : ℕ → ℤ
long_of n = let n = n % 2 ^ 64 in if leb (2 ^ 63) n then negsuc (2 ^ 64 - 1 - n) else pos n

module _ {F : Type 0} ⦃float : Float F⦄ where
  -- The record of `PSD` for a segment whose values are given.
  unfoldable pub psd_record : ℤ → Context F → Segment F → List F → PsdRecord F
  psd_record mac c segment bins = record {
    sen_id = mac;
    hopping_strategy = 0;
    windowing_function = 1;
    fft_size = to_int (shift_one c.log2_fft_size);
    averaging_factor = to_int (c.avg_factor % 2 ^ 32);
    frequency_overlap = c.freq_overlap;
    frequency_resolution =
        float.div (float.of_nat c.sampling_rate) (float.of_nat (shift_one c.log2_fft_size));
    gain = c.gain;
    sen_pos = none;
    sen_temp = none;
    time_secs = segment.time_stamp.tv_sec;
    time_microsecs = int_of segment.time_stamp.tv_nsec;
    center_freq = long_of segment.center_frequency;
    squared_mag = bins;
  }

  -- The values of `IQ` are appended in pairs; `none` reads behind the end.
  unfoldable pub pairs : List F → Option (List F)
  pairs [] = some []
  pairs (real ∷ []) = none
  pairs (real ∷ imag ∷ rest) = elim (pairs rest) [
    | none ↦ none
    | some values ↦ some (real ∷ imag ∷ values)
  ]

  unfoldable pub iq_record : ℤ → Context F → Segment F → List F → IqRecord F
  iq_record mac c segment values = record {
    sen_id = mac;
    time_secs = segment.time_stamp.tv_sec;
    time_micro_secs = int_of segment.time_stamp.tv_nsec;
    sen_temp = none;
    sen_latitude = none;
    sen_longitude = none;
    sen_altitude = none;
    hopping_strategy = none;
    antenna_gain = none;
    frontend_gain = some c.gain;
    sampling_rate = some (to_int (c.sampling_rate % 2 ^ 32));
    center_freq = long_of segment.center_frequency;
    loss_rate = none;
    measurements = values;
  }

-- `((5 * 4 + fft_size * 4) + 3) & ~0x03` and `((s + size * 2 * 4) + 3) & ~0x03`, in `unsigned int`.
unfoldable pub psd_buffer_size : ℕ → ℕ
psd_buffer_size fft_size = (20 + fft_size * 4 + 3) % 2 ^ 32 / 4 * 4

unfoldable pub iq_buffer_size : ℕ → ℕ
iq_buffer_size size = (4096 + size * 2 * 4 + 3) % 2 ^ 32 / 4 * 4

-- `encode` gives the bytes of a record, `cut_off` what stands in a buffer that is too small for them.
module _ {R : Type 0} (encode : R → List ℕ) (cut_off : R → ℕ → List ℕ) where
  unfoldable pub avro_write : R → ℕ → List ℕ
  avro_write r size = if leb (length (encode r)) size then encode r else cut_off r size

module _ {F : Type 0} ⦃float : Float F⦄ where
  -- A turn of `PSD` with a segment, and of `IQ`: the segment that is passed on.
  unfoldable pub psd_segment :
      (PsdRecord F → List ℕ)
      → (PsdRecord F → ℕ → List ℕ)
      → ℤ
      → Context F
      → ℕ
      → Segment F
      → Option (Segment F)
  unfolding bins_of psd_record psd_buffer_size avro_write set_avro_buffer
  psd_segment encode cut_off mac c reduced segment =
      let fft_size = shift_one c.log2_fft_size in
      elim (bins_of fft_size reduced segment) [
        | none ↦ none
        | some bins ↦ some (
            set_avro_buffer
              (avro_write encode cut_off (psd_record mac c segment bins) (psd_buffer_size fft_size))
              segment)
      ]

  -- The loop of `PSD`; the reduced size is computed once, and made odd from the first segment on.
  unfoldable pub psd_segments :
      (PsdRecord F → List ℕ)
      → (PsdRecord F → ℕ → List ℕ)
      → ℤ
      → Context F
      → ℕ
      → List (Segment F)
      → Option (List (Segment F))
  unfolding psd_segment
  psd_segments encode cut_off mac c reduced_size [] = some []
  psd_segments encode cut_off mac c reduced_size (segment ∷ segments) =
      let reduced_size = make_odd reduced_size in
      elim (psd_segment encode cut_off mac c reduced_size segment) [
        | none ↦ none
        | some out ↦ elim (psd_segments encode cut_off mac c reduced_size segments) [
          | none ↦ none
          | some outs ↦ some (out ∷ outs)
        ]
      ]

  unfoldable pub iq_segment :
      (IqRecord F → List ℕ)
      → (IqRecord F → ℕ → List ℕ)
      → ℤ
      → Context F
      → Segment F
      → Option (Segment F)
  unfolding pairs iq_record iq_buffer_size avro_write set_avro_buffer
  iq_segment encode cut_off mac c segment = elim (pairs segment.iq_time_v2) [
    | none ↦ none
    | some values ↦ some (
        set_avro_buffer
          (avro_write encode cut_off (iq_record mac c segment values)
            (iq_buffer_size (length segment.iq_time_v2)))
          segment)
  ]
