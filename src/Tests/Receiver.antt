-- ===== src/Tests/Receiver.antt =====
-- Runs on drivers/rtlsdr/rtlsdrDriver.cpp.
use es_sensor.Prelude.{
  ◌++◌, ◌≤◌, ℕ, ◌+◌, ◌-◌, ◌*◌, ◌/◌, ◌%◌, ◌<◌, ◌≡◌, refl, true, false, Option, none, some, List, [],
  ◌∷◌, arith, take, drop, length, get_elem?, codes, text_eq_refl,
}
use es_sensor.Prelude.Int.{pos, ◌+ℤ◌, ◌*ℤ◌}
use es_sensor.Numeric.{Fixed, fixed_float, shift_one}
use es_sensor.Hopping.{next_hop}
use es_sensor.Context.{Context}
use es_sensor.Segment.{Segment, Timespec}
use es_sensor.Hopping.Rounds.{hops}
use es_sensor.Blocks.FftBatches.{whole}
use es_sensor.Blocks.PsdPipeline.{psd_pipeline, frequencies}
use es_sensor.Receiver.{Sampling}
use es_sensor.Receiver.Cut.{read_len}
use es_sensor.Receiver.Bounds.{used}
use es_sensor.Receiver.Inside.{cut_segments-inside}
use es_sensor.Receiver.Sync.{cut_segments, sync_rounds, sync_start, sync_round}
use es_sensor.Receiver.Windows.{pairs, cut_segments-windows, cut_segments-overlap}
use es_sensor.Receiver.Direct.{InMode, sync_rounds-InMode, device_mode}
use es_sensor.Receiver.Tune.{tune}
use es_sensor.Receiver.Open.{OpenAnswers, Opened, open_receiver, StaysIn, open_stays_off}
use es_sensor.Receiver.Course.{Course, expected_len}
use es_sensor.Receiver.Rounds.{Sent, sync_rounds-Sent}
use es_sensor.Receiver.Chain.{frequencies-sync_rounds}
use es_sensor.Receiver.Async.{Reception, read_async}
use es_sensor.Receiver.Streams.{Received, received_count, read_async-Received}
use es_sensor.Receiver.Control.{ControlAnswers, Control, control_round}
use es_sensor.Tests.Data.{config, noon, buffer, good_answers, no_weight, same_signal, no_shift}

-- The buffer, with another byte behind the 14 that two segments of 4 samples take.
abbrev longer_buffer : List ℕ
longer_buffer = take 14 buffer ++ (77 ∷ [])

cut_segments-inside_example :
    (read_len 4 1 2 % 512 ≡ 0)
    × (used 4 1 2 ≤ read_len 4 1 2)
    × (read_len 4 1 2 < used 4 1 2 + 512)
    × (cut_segments 2 config 4 noon 5 0 buffer ≡ cut_segments 2 config 4 noon 5 0 longer_buffer)
cut_segments-inside_example =
    cut_segments-inside config 4 2 noon 5 buffer longer_buffer (omega arith) (omega arith)
      (omega arith) refl

cut_segments-windows_example :
    (s : Segment Fixed) × (get_elem? (cut_segments 2 config 4 noon 5 0 buffer) 1 ≡ some s)
    × (s.center_frequency ≡ 5)
    × (s.iq_samples ≡ take 4 (drop ((0 + 1) * (4 - 1)) (pairs buffer)))
cut_segments-windows_example =
    cut_segments-windows 2 config 4 noon 5 0 1 buffer (omega arith) (omega arith) (omega arith)
      (omega arith) (omega arith)

cut_segments-overlap_example :
    let segments = cut_segments 2 config 4 noon 5 0 buffer in
    (s t : Segment Fixed) × (get_elem? segments 0 ≡ some s)
    × (get_elem? segments 1 ≡ some t)
    × (drop 3 s.iq_samples ≡ take 1 t.iq_samples)
cut_segments-overlap_example =
    cut_segments-overlap 2 config 4 noon 5 0 buffer (omega arith) (omega arith) (omega arith)
      (omega arith) (omega arith)

abbrev after : Option (Sampling Fixed) → Sampling Fixed
after none = sync_start config
after (some s) = s

abbrev two_rounds : Sampling Fixed
two_rounds = after (sync_rounds false config (good_answers ∷ good_answers ∷ []) (sync_start config))

two_rounds_run :
    sync_rounds false config (good_answers ∷ good_answers ∷ []) (sync_start config)
    ≡ some two_rounds
unfolding sync_rounds sync_start sync_round next_hop tune shift_one read_len
two_rounds_run = refl

start_sent : (sync_start config).sent ≡ []
unfolding sync_start
start_sent = refl

sync_rounds-InMode_example : InMode 0 two_rounds
sync_rounds-InMode_example =
    sync_rounds-InMode config 0 (good_answers ∷ good_answers ∷ []) two_rounds (omega arith)
      two_rounds_run

sync_rounds-Sent_example :
    Sent false config (good_answers ∷ good_answers ∷ []) (sync_start config) two_rounds
sync_rounds-Sent_example =
    sync_rounds-Sent false config (good_answers ∷ good_answers ∷ []) (sync_start config) two_rounds
      two_rounds_run

frequencies-sync_rounds_example :
    let start = sync_start config in
    (visited received : List ℕ) × (hops (length visited) start.hopping
      ≡ some (visited, two_rounds.hopping))
    × Course false
        (expected_len config start)
        start.running
        (good_answers ∷ good_answers ∷ [])
        start.previous_freq
        start.previous_proxy_freq
        visited
        received
    × (frequencies (psd_pipeline no_weight same_signal no_shift 2 2 4 two_rounds.sent)
        ≡ take (whole 2 (length two_rounds.sent) / 2) received)
frequencies-sync_rounds_example =
    frequencies-sync_rounds no_weight same_signal no_shift false config 4
      (good_answers ∷ good_answers ∷ []) (sync_start config) two_rounds (omega arith) (omega arith)
      start_sent two_rounds_run

abbrev low_config : Context Fixed
low_config = record config { direct_sampling_mode = 0; min_freq = 10_000_000 }

abbrev open_answers : OpenAnswers
open_answers = record {
  device_count = 1;
  open_result = pos 0;
  direct_result = pos 0;
  rate_result = pos 0;
  center_result = pos 0;
  gain_mode_result = pos 0;
  gain_result = pos 0;
  converter_found = false;
}

abbrev opened_or : Option (Opened Fixed) → Opened Fixed
opened_or none = record { commands = []; context = config; converter_enabled = false }
opened_or (some o) = o

abbrev low_opened : Opened Fixed
low_opened = opened_or (open_receiver low_config (pos 0) open_answers)

low_opened_run : open_receiver low_config (pos 0) open_answers ≡ some low_opened
unfolding open_receiver
low_opened_run = refl

open_stays_off_example :
    (low_opened.context.direct_sampling_mode ≡ 2)
    × (device_mode 0 low_opened.commands ≡ 0)
    × StaysIn 0
        (tune false low_opened.context good_answers 10_500_000 (sync_start low_opened.context))
open_stays_off_example =
    open_stays_off low_config (pos 0) open_answers low_opened good_answers 10_500_000 refl
      (omega arith) (omega arith) refl low_opened_run

abbrev later : Timespec
later = record { tv_sec = pos 1003; tv_nsec = pos 5 }

abbrev dec_config : Context Fixed
dec_config = record config { pipeline = codes "DEC" }

abbrev reception : Reception Fixed
reception = record {
  center_frequency = 100_000_000;
  duration = 2;
  samples_read = 0;
  init_time = record { tv_sec = pos 0; tv_nsec = pos 0 };
  queue = [];
  queue2 = [];
  cancelled = false;
}

abbrev buffers : List (Timespec × List ℕ)
buffers = (noon, 1 ∷ 2 ∷ []) ∷ (later, 3 ∷ 4 ∷ []) ∷ (later, 5 ∷ 6 ∷ []) ∷ []

two_received : received_count 2 noon buffers ≡ 2
unfolding ◌+ℤ◌ ◌*ℤ◌
two_received = refl

read_async-Received_example :
    Received dec_config
      (take (received_count 2 noon buffers) buffers)
      reception
      (read_async dec_config buffers reception)
read_async-Received_example =
    read_async-Received dec_config noon (1 ∷ 2 ∷ [])
      ((later, 3 ∷ 4 ∷ []) ∷ (later, 5 ∷ 6 ∷ []) ∷ []) reception (text_eq_refl (codes "DEC")) refl
      (
        (omega arith, omega arith),
        omega arith,
        ((omega arith, omega arith), omega arith, ((omega arith, omega arith), omega arith, tt)),
      )
      refl

abbrev control : Control Fixed
control = record { last_fc = 1; previous_proxy_freq = 0; last_gain = 5; commands = [] }

abbrev control_answers : ControlAnswers
control_answers = record { gain_mode_result = pos 0; converter_tune = some 100_000 }

abbrev control_or : Option (Control Fixed) → Control Fixed
control_or none = control
control_or (some s) = s

abbrev controlled : Control Fixed
controlled = control_or (control_round true config control_answers control)

controlled_run : control_round true config control_answers control ≡ some controlled
unfolding control_round
controlled_run = refl

irreflexive : (x : Fixed) → fixed_float.lt x x ≡ false
irreflexive x = ground arith
