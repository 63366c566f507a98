-- ===== src/Tests/Program.antt =====
-- Runs on main.cpp and on the file sinks.
use es_sensor.Prelude.{
  ℕ, ◌≡◌, refl, true, false, not, ◌&&◌, Option, none, some, List, [], ◌∷◌, arith, length, codes,
  Text,
}
use es_sensor.Prelude.Int.{pos, negsuc}
use es_sensor.Numeric.{Fixed, fixed_float}
use es_sensor.Context.{Context}
use es_sensor.Context.SplitLaws.{Lacks}
use es_sensor.Main.Args.{parse_args}
use es_sensor.Main.ArgsValid.{InRange, parse_args-InRange}
use es_sensor.Main.Wiring.{wire, choices}
use es_sensor.Main.WiringLaws.{single_readers, all_read, all_fed, wire_lem}
use es_sensor.Main.Watch.{Tick, Watcher, Watched, watch, watch-Watched}
use es_sensor.Sinks.Csv.{line}
use es_sensor.Sinks.CsvLaws.{read_line, read_line-line}
use es_sensor.Segment.{Segment}
use es_sensor.Sinks.Avro.{send_bins}
use es_sensor.Sinks.Samples.{SampleFile}
use es_sensor.Tests.Data.{config, segment_at}

abbrev arguments : List (ℕ × Text)
arguments = (b'a', codes "0") ∷ (b'l', codes "12") ∷ []

abbrev frequencies : List Text
frequencies = codes "24000000" ∷ codes "30000000" ∷ []

abbrev config_or : Option (Context Fixed) → Context Fixed
config_or none = config
config_or (some c) = c

abbrev parsed : Context Fixed
parsed = config_or (parse_args arguments frequencies config)

parse_args_run : parse_args arguments frequencies config ≡ some parsed
unfolding parse_args
parse_args_run = refl

config-InRange : InRange config
config-InRange = record {
  avg_pos = omega arith;
  compr_le = omega arith;
  hopping_le = omega arith;
  windowing_le = omega arith;
}

parse_args-InRange_example : InRange parsed
parse_args-InRange_example =
    parse_args-InRange arguments frequencies config parsed config-InRange parse_args_run

wire_lem_example :
    let w = wire config in
    let k = choices config in
    (single_readers w.inputs ≡ true)
    × (all_read w.components w.inputs ≡ true)
    × (all_fed w.components w.inputs ≡ not (not k.psd && not k.iq && k.has_tls_hosts))
wire_lem_example = wire_lem config

no_text : (x : Fixed) → Lacks b',' (fixed_float.show x)
no_text x = tt

abbrev before_1970 : Segment Fixed
before_1970 = record (segment_at 5) { time_stamp = record { tv_sec = negsuc 11; tv_nsec = pos 7 } }

read_line-line_example :
    read_line (line before_1970)
    ≡ some (record {
      seconds = negsuc 11;
      nanoseconds = pos 7;
      frequency = 5;
      values = [] ∷ [] ∷ [] ∷ [];
    })
read_line-line_example =
    read_line-line before_1970 (omega arith) (omega arith) (omega arith) no_text

abbrev old_file : SampleFile Fixed
old_file = record { bytes = 9 ∷ []; floats = []; samples = 1 }

-- The decoder changes, its process dies, and a component stops.
abbrev ticks : List Tick
ticks =
    (record { running = true ∷ true ∷ []; decoder = 1; decoder_alive = true })
    ∷ (record { running = true ∷ true ∷ []; decoder = 1; decoder_alive = false })
    ∷ (record { running = true ∷ false ∷ []; decoder = 1; decoder_alive = true })
    ∷ []

abbrev watcher : Watcher
watcher = record { current_dec = 0; actions = [] }

watch_run : length (watch true ticks watcher).1.actions ≡ 4
unfolding watch
watch_run = refl

watch-Watched_example : Watched true ticks watcher (watch true ticks watcher)
watch-Watched_example = watch-Watched true ticks watcher

-- Segments of an FFT of 8, of which 5 values are sent.
abbrev spectra : List (Segment Fixed)
spectra =
    (record (segment_at 5) { psd_values = 0 ∷ 1 ∷ 2 ∷ 3 ∷ 4 ∷ 5 ∷ 6 ∷ 7 ∷ [] })
    ∷ (record (segment_at 6) { psd_values = 7 ∷ 6 ∷ 5 ∷ 4 ∷ 3 ∷ 2 ∷ 1 ∷ 0 ∷ [] })
    ∷ []

send_bins_run :
    send_bins 8 4 spectra ≡ some ((1 ∷ 2 ∷ 3 ∷ 4 ∷ 5 ∷ []) ∷ (6 ∷ 5 ∷ 4 ∷ 3 ∷ 2 ∷ []) ∷ [])
unfolding send_bins
send_bins_run = refl

-- A size that is larger than the FFT's is read behind the segment's end.
send_bins_outside : send_bins 8 8 spectra ≡ none
unfolding send_bins
send_bins_outside = refl
