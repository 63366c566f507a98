-- ===== src/Sinks/AvroLaws.antt =====
-- MiscBlocks/AvroSerialization.cpp, `PSD`: what a collector finds in the bytes of each segment.
use es_sensor.Prelude.{ℕ, ◌-◌, ◌/◌, ◌^◌, ◌≤◌, ◌<◌, ◌≡◌, Option, none, some, List, ◌∷◌, length}
use es_sensor.Prelude.Int.{ℤ, pos, ◌≤ℤ◌}
use es_sensor.Numeric.{Float, shift_one}
use es_sensor.Segment.{Segment, set_avro_buffer}
use es_sensor.Context.{Context}
use es_sensor.Sinks.Avro.{window}
use es_sensor.Sinks.AvroRecords.{PsdRecord, psd_record, psd_buffer_size}

module _ {F : Type 0} ⦃float : Float F⦄ (encode : PsdRecord F → List ℕ)
    (cut_off : PsdRecord F → ℕ → List ℕ) (mac : ℤ) (c : Context F) where
  abbrev pub fft_of : ℕ
  fft_of = shift_one c.log2_fft_size

  -- The segment with the record of its window of `n` values.
  abbrev pub sent_as : ℕ → Segment F → Segment F
  sent_as n s = set_avro_buffer (encode (psd_record mac c s (window ((fft_of - n) / 2) n s))) s

  -- The segment has as many values as the FFT, and its record fits into the buffer.
  pub record Fitting (n : ℕ) (s : Segment F) : Type 0 where
    pub size : length s.psd_values ≡ fft_of
    pub fits :
        length (encode (psd_record mac c s (window ((fft_of - n) / 2) n s)))
        ≤ psd_buffer_size fft_of
    pub nanoseconds : (pos 0 ≤ℤ s.time_stamp.tv_nsec) × (s.time_stamp.tv_nsec ≤ℤ pos 999_999_999)
    pub frequency : s.center_frequency < 2 ^ 63

  -- What a segment is to be sent as: its time, its frequency, `n` of its values as they are, and the
  -- sensor's settings.
  abbrev pub description : ℕ → Segment F → PsdRecord F
  description n s = record {
    sen_id = mac;
    hopping_strategy = 0;
    windowing_function = 1;
    fft_size = pos fft_of;
    averaging_factor = pos c.avg_factor;
    frequency_overlap = c.freq_overlap;
    frequency_resolution = float.div (float.of_nat c.sampling_rate) (float.of_nat fft_of);
    gain = c.gain;
    sen_pos = none;
    sen_temp = none;
    time_secs = s.time_stamp.tv_sec;
    time_microsecs = s.time_stamp.tv_nsec;
    center_freq = pos s.center_frequency;
    squared_mag = window ((fft_of - n) / 2) n s;
  }

  abbrev more : Option (Segment F) → Option (List (Segment F)) → Option (List (Segment F))
  more o rest = elim o [
    | none ↦ none
    | some out ↦ elim rest [ none ↦ none | some outs ↦ some (out ∷ outs) ]
  ]

  abbrev pub decoded : (List ℕ → Option (PsdRecord F)) → Segment F → Option (PsdRecord F)
  decoded decode s = elim s.avro_buffer [ none ↦ none | some bytes ↦ decode bytes ]
