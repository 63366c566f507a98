-- ===== src/Tests/Converter.antt =====
-- Runs on the frequency converter and on rtlsdr_proxy.
use es_sensor.Prelude.{
  ℕ, ◌+◌, ◌-◌, ◌^◌, ◌≡◌, refl, Bool, true, false, not, Option, none, some, [], ◌∷◌, ◌++◌, ◌==◌,
  if◌then◌else◌, arith, length, codes, Text,
}
use es_sensor.Prelude.Int.{pos}
use es_sensor.Numeric.{Fixed, fixed_float}
use es_sensor.Receiver.{Sampling}
use es_sensor.Receiver.Tune.{tune_by_converter}
use es_sensor.Receiver.Cut.{invert}
use es_sensor.Receiver.Sync.{sync_start}
use es_sensor.Converter.{Polled, timeout, poll_error, no_data, received, Port}
use es_sensor.Converter.Reply.{read_reply, starts_with}
use es_sensor.Sinks.Csv.{digits}
use es_sensor.Converter.Commands.{
  converter_tune, converter_init, open_port, press_enter, setup_command, line_end,
}
use es_sensor.Converter.InitLaws.{set_up, converter_init-set_up}
use es_sensor.Converter.TuneLaws.{converter_tune-reply}
use es_sensor.Converter.Proxy.{
  Proxy, set_center_freq64, set_center_freq_32, get_center_freq_32, proxy_buffer,
}
use es_sensor.Converter.ProxyLaws.{Alike, Matches, set_center_freq64-tune_by_converter}
use es_sensor.Tests.Data.{config, good_answers}

abbrev ulong_max : ℕ
ulong_max = 2 ^ 64 - 1

abbrev between : Text
between = codes " kHz; inverted: "

abbrev reply : Text
reply = codes "F Frequency: 1234 kHz; inverted: 1" ++ line_end

read_reply_run : read_reply ulong_max (b'I' ∷ reply) ≡ (1234, true)
unfolding read_reply
read_reply_run = refl

abbrev prompt : Polled
prompt = received b'#' (32 ∷ [])

abbrev tuning : Port
tuning = record {
  writes = pos (length (setup_command 100_000)) ∷ pos 2 ∷ [];
  polls = (no_data ∷ prompt ∷ []) ++ (received b'I' reply ∷ []);
  sent = [];
}

converter_tune-reply_example : converter_tune ulong_max [] 100_000 tuning ≡ (
  some (1234, not (1 == 0)),
  record { writes = []; polls = []; sent = [] ++ setup_command 100_000 ++ line_end },
)
unfolding starts_with digits
converter_tune-reply_example =
    converter_tune-reply ulong_max 100_000 1234 1 b'I' [] between line_end reply
      (no_data ∷ prompt ∷ []) [] [] [] (omega arith) (omega arith) (omega arith) refl refl refl
      (tt, (refl, tt)) refl (omega arith)

-- The first command is written in two parts.
abbrev new_port : Port
new_port = record {
  writes =
      pos 2
      ∷ pos 2
      ∷ pos 2
      ∷ pos 2
      ∷ pos 2
      ∷ pos 3
      ∷ pos 2
      ∷ pos 2
      ∷ pos 14
      ∷ pos 2
      ∷ pos 20
      ∷ pos 2
      ∷ [];
  polls =
      prompt ∷ timeout ∷ prompt ∷ received b'S' (codes "oF Count: 7") ∷ received b'I' reply ∷ [];
  sent = [];
}

abbrev port_of : Option (Bool × Port) → Port
port_of none = new_port
port_of (some (ready, port)) = port

abbrev ready_port : Port
ready_port = port_of (converter_init ulong_max [] (pos 3) (pos 0) (pos 0) new_port)

converter_init_run :
    converter_init ulong_max [] (pos 3) (pos 0) (pos 0) new_port ≡ some (true, ready_port)
unfolding converter_init digits
converter_init_run = refl

converter_init-set_up_example : ready_port.sent ≡ set_up (press_enter 5 new_port).sent
converter_init-set_up_example =
    converter_init-set_up ulong_max [] (pos 3) (pos 0) (pos 0) new_port ready_port
      converter_init_run

-- An error of `poll` while the device's first words are thrown away is not an end: with the answers
-- used up the loop goes on.
open_port_endless :
    open_port
      (pos 3)
      (pos 0)
      (pos 0)
      (record new_port { polls = poll_error ∷ poll_error ∷ poll_error ∷ [] })
    ≡ none
unfolding open_port
open_port_endless = refl

abbrev sampling : Sampling Fixed
sampling = sync_start config

abbrev proxy : Proxy
proxy = record { current_rtl_freq = 0; current_tuner_freq = 0; use_inversion = true; commands = [] }

set_center_freq_run :
    get_center_freq_32 (set_center_freq_32 (some (100, false)) (pos 0) (2 ^ 32 + 7) proxy).1 ≡ 7
unfolding get_center_freq_32 set_center_freq_32
set_center_freq_run = refl

sampling-Alike : Alike sampling proxy
unfolding sync_start
sampling-Alike = record { proxy_freq = refl; given = refl }

set_center_freq64-tune_by_converter_example :
    Matches good_answers.converter_tune
      (tune_by_converter good_answers 30_000_000 sampling)
      (set_center_freq64 good_answers.converter_tune good_answers.center_result 30_000_000 proxy)
    × (proxy_buffer proxy 2 (1 ∷ 2 ∷ 3 ∷ [])
        ≡ (if proxy.use_inversion then invert 2 (1 ∷ 2 ∷ 3 ∷ []) else 1 ∷ 2 ∷ 3 ∷ []))
set_center_freq64-tune_by_converter_example =
    set_center_freq64-tune_by_converter good_answers 30_000_000 sampling proxy 2 (1 ∷ 2 ∷ 3 ∷ [])
      sampling-Alike
