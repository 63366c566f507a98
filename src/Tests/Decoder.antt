-- ===== src/Tests/Decoder.antt =====
-- Runs on MiscBlocks/IQStream.cpp and on ProcessingBlocks/PSDFast.cpp.
use es_sensor.Prelude.{
  ℕ, ◌+◌, ◌-◌, ◌*◌, ◌%◌, ◌^◌, ◌<◌, ◌≡◌, refl, true, false, Option, none, some, List, [], ◌∷◌, arith,
  length, take, drop, replicate, length-replicate, codes, Text, if◌then◌else◌, ◌==◌, All, ◌/◌,
}
use es_sensor.Prelude.Int.{ℤ, pos, negsuc}
use es_sensor.Numeric.{Fixed, fixed_float}
use es_sensor.Segment.{Complex}
use es_sensor.Filters.Cic.{construct}
use es_sensor.Filters.Fir.{construct_fir}
use es_sensor.Filters.Downsampler.{Downsampler}
use es_sensor.Decoder.Bytes.{le_bytes, length-le_bytes, of_le}
use es_sensor.Decoder.Messages.{message, read_messages}
use es_sensor.Decoder.MessageLaws.{Fits}
use es_sensor.Decoder.Stream.{Round, IqStream, iq_loop, stop_stream}
use es_sensor.Decoder.StreamLaws.{Ordinary, deliveries, bytes_of, state_after, iq_loop-deliveries}
use es_sensor.Decoder.Spectrum.{spectrum, datagram}
use es_sensor.Decoder.Control.{Json, apply_json, control}
use es_sensor.Decoder.SpectrumLaws.{Sizes, datagram_lem}
use es_sensor.Tests.Data.{config, segment_at}

abbrev resampler : Downsampler Fixed
resampler = record { cic = construct 6 2; fir = construct_fir (600 ∷ []) 1 2; cic_r = 2 }

abbrev stream : IqStream Fixed
stream = record {
  socket_enable = false;
  decoder_state = true;
  ri = resampler;
  rq = resampler;
  sent = [];
}

-- A segment that comes before there is a client, a client, and a segment for it.
abbrev no_client : Round Fixed
no_client = record {
  running = true;
  client = none;
  segment = some (segment_at 5);
  running_before_send = true;
  running_after_send = true;
  decoder = 3;
  min_freq = 1_090_000_000;
  gain_decoder = 40;
  send_result = pos 18;
}

abbrev rounds : List (Round Fixed)
rounds =
    no_client
    ∷ (record no_client { client = some (pos 4); segment = none })
    ∷ (record no_client { gain_decoder = 30 })
    ∷ []

fits :
    (gain : ℕ)
    → gain < 2 ^ 32
    → Fits (record { center_frequency = 1_090_000_000; gain = gain; n_samples = 2 }) (1 ∷ 2 ∷ [])
fits gain h = record { center = omega arith; gain = h; size = omega arith; whole = refl }

rounds-Ordinary : All Ordinary rounds
unfolding message
rounds-Ordinary = (
  record {
    running = refl;
    before_send = refl;
    dump1090 = refl;
    accepted = tt;
    taken = (fits 40 (omega arith), refl);
  },
  (
    record { running = refl; before_send = refl; dump1090 = refl; accepted = refl; taken = tt },
    (
      record {
        running = refl;
        before_send = refl;
        dump1090 = refl;
        accepted = tt;
        taken = (fits 30 (omega arith), refl);
      },
      tt,
    ),
  ),
)

iq_loop-deliveries_example :
    (iq_loop rounds stream ≡ some (state_after rounds stream))
    × (let ds = deliveries false rounds in read_messages (length ds) (bytes_of ds) ≡ some ds)
iq_loop-deliveries_example = iq_loop-deliveries rounds stream rounds-Ordinary

abbrev flat : ℕ → ℕ → Fixed
flat i n = 600

-- A transform of which only the number of samples counts.
abbrev transform : ℕ → List (Complex Fixed) → List (Complex Fixed)
transform n xs = replicate n (record { real = 600; imag = 0 })

abbrev no_shift : List (Complex Fixed) → List (Complex Fixed)
no_shift xs = xs

abbrev eight_bytes : Fixed → List ℕ
eight_bytes x = le_bytes 8 x

abbrev char_of : Fixed → ℕ
char_of x = x / 600 % 256

abbrev samples : List ℕ
samples = replicate 1024 127

sizes : Sizes flat transform no_shift eight_bytes char_of
sizes = record {
  fft = λ n xs. length-replicate n (record { real = 600; imag = 0 });
  shift = λ xs. refl;
  double = λ x. length-le_bytes 8 x;
}

abbrev power : List ℕ
power = replicate 512 10

spectrum_run : spectrum flat transform no_shift eight_bytes char_of samples ≡ some power
unfolding spectrum
spectrum_run = refl

datagram_lem_example :
    (d : List ℕ) × (datagram flat transform no_shift eight_bytes char_of 100_000_000 power ≡ some d)
    × (length d ≡ 533)
    × (take 8 (drop 1 d)
        ≡ eight_bytes (fixed_float.of_nat ((100_000_000 + 2 ^ 64 - 1_200_000) % 2 ^ 64)))
    × (take 8 (drop 9 d) ≡ eight_bytes (fixed_float.of_nat ((100_000_000 + 1_200_000) % 2 ^ 64)))
    × (of_le (take 4 (drop 17 d)) ≡ length power)
    × (drop 21 d ≡ power)
datagram_lem_example =
    datagram_lem flat transform no_shift eight_bytes char_of 100_000_000 samples power sizes
      spectrum_run

abbrev request : Json
request = record {
  fc = some (pos 100_500_000);
  decoder = some (pos 1);
  gain = some (pos 32);
  decoder_settings = some (some (pos 12));
}

-- A parser that knows one text.
abbrev parse : Text → Option Json
parse [] = none
parse (c ∷ text) = if c == b'{' then some request else none

abbrev number : ℤ → Fixed
number (pos n) = n * 600
number (negsuc n) = 0

abbrev no_name : Json
no_name = record {
  fc = none;
  decoder = some (pos 9_000_000_000);
  gain = none;
  decoder_settings = none;
}

-- The frequency, the decoder's gain and the other settings of a message, and of a text that is none.
control_run :
    ((control parse number (some (codes "{}")) config).min_freq ≡ 100_500_000)
    × ((control parse number (some (codes "{}")) config).gain_decoder ≡ 12)
    × ((control parse number (some (codes "fc")) config).min_freq ≡ 0)
    × ((apply_json parse number no_name config).decoder ≡ 2_147_483_647)
unfolding control apply_json
control_run = (refl, refl, refl, refl)

stop_stream_run : (stop_stream false).0 ≡ false
unfolding stop_stream
stop_stream_run = refl
