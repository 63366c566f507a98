-- ===== src/Converter/Commands.antt =====
-- drivers/rtlsdr/converter/converter.c: writing, commands with and without a reply, tuning and set-up.
use es_sensor.Prelude.{
  ℕ, zero, suc, ◌+◌, ◌-◌, Bool, true, false, not, ◌&&◌, Option, none, some, List, [], ◌∷◌, ◌++◌,
  if◌then◌else◌, Text, take, drop, length, codes,
}
use es_sensor.Prelude.Int.{ℤ, pos, negsuc}
use es_sensor.Numeric.{is_negative, is_zero}
use es_sensor.Converter.{Polled, timeout, poll_error, no_data, read_error, received, Port}
use es_sensor.Converter.Reply.{read_reply, starts_with}
use es_sensor.Sinks.Csv.{digits}

-- What `converterWrite` gives: its result, what went out, and the answers that are left.
pub record Written : Type 0 where
  pub result : ℤ
  pub out : Text
  pub answers : List ℤ

-- The loop of `converterWrite` over the rest of the buffer; `len` is the whole length. Where no answer
-- is left, `write` gives 0.
unfoldable pub write_loop : ℕ → List ℤ → Text → Written
write_loop len answers [] = record { result = pos len; out = []; answers = answers }
write_loop len [] (c ∷ buffer) = record { result = pos 0; out = []; answers = [] }
write_loop len (negsuc e ∷ answers) (c ∷ buffer) = record {
  result = negsuc e;
  out = [];
  answers = answers;
}
write_loop len (pos zero ∷ answers) (c ∷ buffer) = record {
  result = pos 0;
  out = [];
  answers = answers;
}
write_loop len (pos (suc n) ∷ answers) (c ∷ buffer) =
    let rest = write_loop len answers (drop n buffer) in
    record {
      result = rest.result;
      out = take (suc n) (c ∷ buffer) ++ rest.out;
      answers = rest.answers;
    }

abbrev pub is_positive : ℤ → Bool
is_positive (pos zero) = false
is_positive (pos (suc n)) = true
is_positive (negsuc n) = false

-- `converterWrite(driver, buffer, len) > 0`, and the port behind it.
unfoldable pub converter_write : Text → Port → Bool × Port
unfolding write_loop
converter_write buffer port =
    let written = write_loop (length buffer) port.writes buffer in
    (
      is_positive written.result,
      record port { writes = written.answers; sent = port.sent ++ written.out },
    )

abbrev pub line_end : Text
line_end = 13 ∷ 10 ∷ []

unfoldable pub blind_command : Text → Port → Bool × Port
unfolding converter_write
blind_command command port =
    let (sent, port) = converter_write command port in
    let (ended, port) = converter_write line_end port in (sent && ended, port)

-- The buffer of `size` bytes behind a read of at most `size - 1`: the text, a null character, and
-- what was there before.
abbrev pub filled : ℕ → Text → Text → Text
filled size text old = let text = take (size - 1) text in text ++ (0 ∷ drop (length text + 1) old)

-- The loop that waits for a reply: the buffer with the reply, and the answers that are left. An error
-- of `poll` is taken to leave no event.
unfoldable pub await : Text → ℕ → Text → List Polled → Option Text × List Polled
unfolding starts_with
await start size buffer [] = (none, [])
await start size buffer (timeout ∷ polls) = (none, polls)
await start size buffer (poll_error ∷ polls) = (none, polls)
await start size buffer (no_data ∷ polls) = await start size buffer polls
await start size buffer (read_error r ∷ polls) = (none, polls)
await start size buffer (received c text ∷ polls) =
    let buffer = filled size (c ∷ text) buffer in
    let rest = await start size buffer polls in
    if starts_with start buffer then (some buffer, polls) else rest

unfoldable pub do_command : Text → Text → ℕ → Text → Port → Option Text × Port
unfolding converter_write await
do_command command response_start size buffer port =
    let (sent, port) = converter_write command port in
    let (ended, port) = converter_write line_end port in
    if sent && ended
    then (let (reply, polls) = await response_start size buffer port.polls in
        (reply, record port { polls = polls }))
    else (none, port)

-- `snprintf(replyBuffer, …, "convert setup %llu", inputFrequency)`
unfoldable pub setup_command : ℕ → Text
setup_command frequency = codes "convert setup " ++ digits 20 frequency

-- The command is written from the buffer that takes the reply; `junk` is what stands in it at first.
unfoldable pub converter_tune : ℕ → Text → ℕ → Port → Option (ℕ × Bool) × Port
unfolding do_command setup_command read_reply
converter_tune ulong_max junk frequency port =
    let command = setup_command frequency in
    let buffer = command ++ (0 ∷ drop (length command + 1) junk) in
    let (reply, port) = do_command command (codes "IF Frequency:") 100 buffer port in
    (elim reply [ none ↦ none | some buffer ↦ some (read_reply ulong_max buffer) ], port)

-- The loop in which what the device says at first is thrown away: the result of the last call, and
-- whether the device has said anything. An error of `poll` does not end it; `none` is a loop that goes
-- on behind the answers given.
unfoldable pub drain : Bool → List Polled → Option (ℤ × Bool × List Polled)
drain replied [] = none
drain replied (timeout ∷ polls) = some (pos 0, replied, polls)
drain replied (poll_error ∷ polls) = drain replied polls
drain replied (no_data ∷ polls) = drain replied polls
drain replied (read_error r ∷ polls) = some (r, true, polls)
drain replied (received c text ∷ polls) = drain true polls

unfoldable pub press_enter : ℕ → Port → Port
unfolding converter_write
press_enter zero port = port
press_enter (suc n) port = press_enter n (converter_write line_end port).1

-- `converterOpenPort`, over what `open`, `tcgetattr` and `tcsetattr` answer: its result. The descriptor
-- itself, which it closes where it fails, is left out.
unfoldable pub open_port : ℤ → ℤ → ℤ → Port → Option (ℤ × Port)
unfolding press_enter drain
open_port fd get_result set_result port =
    if is_negative fd
    then some (negsuc 0, port)
    else if is_negative get_result
    then some (negsuc 0, port)
    else if is_negative set_result
    then some (negsuc 0, port)
    else (let port = press_enter 5 port in
        elim (drain false port.polls) [
          | none ↦ none
          | some (result, replied, polls) ↦
              some (if not replied then negsuc 0 else result, record port { polls = polls })
        ])

unfoldable pub converter_init : ℕ → Text → ℤ → ℤ → ℤ → Port → Option (Bool × Port)
unfolding open_port do_command blind_command converter_tune
converter_init ulong_max junk fd get_result set_result port =
    elim (open_port fd get_result set_result port) [
      | none ↦ none
      | some (result, port) ↦
          if not (is_zero result)
          then some (false, port)
          else (let (count, port) = do_command (codes "sof 1") (codes "SoF Count") 100 junk port in
              elim count [
                | none ↦ some (false, port)
                | some buffer ↦
                    let (sent, port) = blind_command (codes "convert hs5g 1") port in
                    if not sent
                    then some (false, port)
                    else (let (tuned, port) = converter_tune ulong_max junk 100_000 port in
                        some (elim tuned [ none ↦ false | some r ↦ true ], port))
              ])
    ]
