-- ===== src/Converter/TuneLaws.antt =====
-- drivers/rtlsdr/converter/converter.c, `converterTune`: a reply is found and read.
use mathlib.Core.List.{append_assoc, append-nil}
use es_sensor.Prelude.{
  ℕ, ◌+◌, ◌-◌, ◌^◌, ◌≤◌, ◌<◌, ◌≡◌, refl, ap, ◌∙◌, sym, Bool, true, false, not, ◌&&◌, none, some,
  Option, List, [], ◌∷◌, ◌++◌, arith, ◌==◌, if◌then◌else◌, Text, All, length, take, drop, take_all,
  drop-append, codes,
}
use native.Mathlib.Nat.{mod-eq_of_lt}
use es_sensor.Prelude.Int.{ℤ, pos}
use es_sensor.Sinks.Csv.{digits}
use es_sensor.Converter.{Polled, timeout, poll_error, no_data, read_error, received, Port}
use es_sensor.Converter.Reply.{read_reply, starts_with, starts_with_digit}
use es_sensor.Converter.Decimal.{strtoul-digits}
use es_sensor.Converter.Commands.{
  Written, write_loop, is_positive, converter_write, line_end, filled, await, do_command,
  setup_command, converter_tune,
}

-- What the device says that is not the reply waited for.
abbrev pub Passes : Text → ℕ → Polled → Type 0
Passes start size no_data = Unit
Passes start size (received c text) = starts_with start (take (size - 1) (c ∷ text)) ≡ false
Passes start size p = ⊥

abbrev NoNull : ℕ → Type 0
NoNull c = (c == 0) ≡ false

starts_with-null :
    (start text rest : Text)
    → All NoNull start
    → starts_with start (text ++ (0 ∷ rest)) ≡ starts_with start text
unfolding starts_with
starts_with-null [] text rest h = refl
starts_with-null (c ∷ start) [] rest (e, h) = rw e refl
starts_with-null (c ∷ start) (d ∷ text) rest (e, h) = rw (starts_with-null start text rest h) refl

-- The reply behind what is passed over.
await-reply :
    (start : Text) (size : ℕ) (old : Text) (noise : List Polled) (c : ℕ) (text : Text)
    (polls : List Polled)
    → All NoNull start
    → All (Passes start size) noise
    → starts_with start (take (size - 1) (c ∷ text)) ≡ true
    → (rest : Text) × (await start size old (noise ++ (received c text ∷ polls))
        ≡ (some (take (size - 1) (c ∷ text) ++ (0 ∷ rest)), polls))
unfolding await
await-reply start size old [] c text polls clean passes found =
    let t = take (size - 1) (c ∷ text) in
    (
      drop (length t + 1) old,
      rw (starts_with-null start t (drop (length t + 1) old) clean, found) refl,
    )
await-reply start size old (no_data ∷ noise) c text polls clean passes found =
    await-reply start size old noise c text polls clean passes.1 found
await-reply start size old (received d other ∷ noise) c text polls clean passes found =
    let t = take (size - 1) (d ∷ other) in
    let (rest, e) =
      await-reply start size (filled size (d ∷ other) old) noise c text polls clean passes.1
        found in
    (rest, rw (starts_with-null start t (drop (length t + 1) old) clean, passes.0) e)
await-reply start size old (timeout ∷ noise) c text polls clean passes found = absurd passes.0
await-reply start size old (poll_error ∷ noise) c text polls clean passes found = absurd passes.0
await-reply start size old (read_error r ∷ noise) c text polls clean passes found = absurd passes.0

-- The reply with its two numbers; between them stand 16 characters.
abbrev pub reply_text : ℕ → Text → ℕ → Text → Text
reply_text frequency between inverted end =
    codes "IF Frequency: " ++ (digits 20 frequency ++ (between ++ (digits 20 inverted ++ end)))

digit_of_append :
    (between rest : Text)
    → length between ≡ 16
    → starts_with_digit (between ++ rest) ≡ starts_with_digit between
digit_of_append [] rest e = absurd (omega arith)
digit_of_append (c ∷ between) rest e = refl

module _ (ulong_max frequency inverted : ℕ) (between end : Text) where
  read_reply_lem :
      frequency < 2 ^ 32
      → inverted < 2 ^ 32
      → 2 ^ 32 ≤ ulong_max + 1
      → length between ≡ 16
      → starts_with_digit between ≡ false
      → starts_with_digit end ≡ false
      → read_reply ulong_max (reply_text frequency between inverted end)
        ≡ (frequency, not (inverted == 0))
  unfolding read_reply
  read_reply_lem hf hi hu size no_digit no_end =
      let first =
        strtoul-digits ulong_max frequency (between ++ (digits 20 inverted ++ end)) (omega arith)
          (omega arith) (digit_of_append between _ size ∙ no_digit) in
      let second = strtoul-digits ulong_max inverted end (omega arith) (omega arith) no_end in
      let skip : drop 16 (between ++ (digits 20 inverted ++ end)) ≡ digits 20 inverted ++ end =
        rw (← size) (drop-append between (digits 20 inverted ++ end)) in
      rw (first, skip, second, mod-eq_of_lt hf, mod-eq_of_lt hi) refl

drop_whole : (t : Text) → drop (length t) t ≡ []
drop_whole t = ap (drop (length t)) (sym (append-nil t)) ∙ drop-append t []

-- A buffer that `write` takes at once.
write_at_once :
    (c : ℕ) (text : Text) (answers : List ℤ)
    → write_loop (length (c ∷ text)) (pos (length (c ∷ text)) ∷ answers) (c ∷ text)
      ≡ record { result = pos (length (c ∷ text)); out = c ∷ text; answers = answers }
unfolding write_loop
write_at_once c text answers =
    rw (drop_whole text, take_all (length text) text (omega arith), append-nil text) refl

write_line_at_once :
    (c : ℕ) (text : Text) (port : Port) (answers : List ℤ)
    → port.writes ≡ pos (length (c ∷ text)) ∷ answers
    → converter_write (c ∷ text) port
      ≡ (true, record port { writes = answers; sent = port.sent ++ (c ∷ text) })
unfolding converter_write
write_line_at_once c text port answers e =
    ap
      (λ (w : List ℤ).
        let written = write_loop (length (c ∷ text)) w (c ∷ text) in
        (
          is_positive written.result,
          record port { writes = written.answers; sent = port.sent ++ written.out },
        ))
      e
    ∙ ap
        (λ (written : Written). (
          is_positive written.result,
          record port { writes = written.answers; sent = port.sent ++ written.out },
        ))
        (write_at_once c text answers)

command_at_once :
    (c : ℕ) (command start : Text) (size : ℕ) (old : Text) (port : Port) (answers : List ℤ)
    → port.writes ≡ pos (length (c ∷ command)) ∷ pos 2 ∷ answers
    → do_command (c ∷ command) start size old port ≡ (
      (await start size old port.polls).0,
      record {
        writes = answers;
        polls = (await start size old port.polls).1;
        sent = port.sent ++ (c ∷ command) ++ line_end;
      },
    )
unfolding do_command
command_at_once c command start size old port answers e =
    let finish : Bool × Port → Option Text × Port = λ w.
      if w.0
      then (let (reply, polls) = await start size old w.1.polls in
          (reply, record (w.1) { polls = polls }))
      else (none, w.1) in
    let port' = record port { writes = pos 2 ∷ answers; sent = port.sent ++ (c ∷ command) } in
    ap
      (λ (w : Bool × Port).
        finish (w.0 && (converter_write line_end w.1).0, (converter_write line_end w.1).1))
      (write_line_at_once c command port (pos 2 ∷ answers) e)
    ∙ ap finish (write_line_at_once 13 (10 ∷ []) port' answers refl)

clean_start : All NoNull (codes "IF Frequency:")
clean_start = (
  refl,
  (
    refl,
    (refl, (refl, (refl, (refl, (refl, (refl, (refl, (refl, (refl, (refl, (refl, tt))))))))))),
  ),
)

reply_starts :
    (frequency inverted : ℕ) (between end : Text)
    → starts_with (codes "IF Frequency:") (reply_text frequency between inverted end) ≡ true
unfolding starts_with
reply_starts frequency inverted between end = refl

end_of_reply :
    (end rest : Text)
    → starts_with_digit end ≡ false
    → starts_with_digit (end ++ (0 ∷ rest)) ≡ false
end_of_reply [] rest e = refl
end_of_reply (c ∷ end) rest e = e

reply_text-append :
    (frequency inverted : ℕ) (between end rest : Text)
    → reply_text frequency between inverted end ++ rest
      ≡ reply_text frequency between inverted (end ++ rest)
reply_text-append frequency inverted between end rest =
    ap (λ (t : Text). codes "IF Frequency: " ++ t)
      (append_assoc (digits 20 frequency) (between ++ (digits 20 inverted ++ end)) rest
        ∙ ap (λ (t : Text). digits 20 frequency ++ t)
            (append_assoc between (digits 20 inverted ++ end) rest
              ∙ ap (λ (t : Text). between ++ t) (append_assoc (digits 20 inverted) end rest)))

-- Where the device takes each line at once, passes over what it will and then replies with a
-- frequency and a flag below 2 ^ 32, in a reply that fits into the buffer, `converterTune` has written
-- just its command and gives the frequency and whether the flag is set.
pub converter_tune-reply :
    (ulong_max wanted frequency inverted c : ℕ) (junk between end text : Text)
    (noise polls : List Polled) (writes : List ℤ) (sent : Text)
    → frequency < 2 ^ 32
    → inverted < 2 ^ 32
    → 2 ^ 32 ≤ ulong_max + 1
    → length between ≡ 16
    → starts_with_digit between ≡ false
    → starts_with_digit end ≡ false
    → All (Passes (codes "IF Frequency:") 100) noise
    → c ∷ text ≡ reply_text frequency between inverted end
    → length (c ∷ text) ≤ 99
    → converter_tune ulong_max junk wanted (record {
      writes = pos (length (setup_command wanted)) ∷ pos 2 ∷ writes;
      polls = noise ++ (received c text ∷ polls);
      sent = sent;
    })
      ≡ (
        some (frequency, not (inverted == 0)),
        record { writes = writes; polls = polls; sent = sent ++ setup_command wanted ++ line_end },
      )
unfolding converter_tune setup_command
converter_tune-reply ulong_max wanted frequency inverted c junk between end text noise polls writes
      sent hf hi hu size no_digit no_end passes shape short =
    let command = setup_command wanted in
    let buffer = command ++ (0 ∷ drop (length command + 1) junk) in
    let start = codes "IF Frequency:" in
    let whole : take 99 (c ∷ text) ≡ reply_text frequency between inverted end =
      take_all 99 (c ∷ text) short ∙ shape in
    let starts : starts_with start (take 99 (c ∷ text)) ≡ true =
      ap (starts_with start) whole ∙ reply_starts frequency inverted between end in
    let (rest, found) = await-reply start 100 buffer noise c text polls clean_start passes starts in
    let numbers : read_reply ulong_max (take 99 (c ∷ text) ++ (0 ∷ rest))
        ≡ (frequency, not (inverted == 0)) =
      ap (λ (t : Text). read_reply ulong_max (t ++ (0 ∷ rest))) whole
      ∙ ap (read_reply ulong_max) (reply_text-append frequency inverted between end (0 ∷ rest))
      ∙ read_reply_lem ulong_max frequency inverted between (end ++ (0 ∷ rest)) hf hi hu size
          no_digit (end_of_reply end rest no_end) in
    let port' : Port = record {
      writes = pos (length command) ∷ pos 2 ∷ writes;
      polls = noise ++ (received c text ∷ polls);
      sent = sent;
    } in
    let result : Option Text × Port → Option (ℕ × Bool) × Port =
      λ w. (elim (w.0) [ none ↦ none | some b ↦ some (read_reply ulong_max b) ], w.1) in
    let port : List Polled → Port =
      λ polls. record { writes = writes; polls = polls; sent = sent ++ command ++ line_end } in
    ap result (
      command_at_once b'c' (codes "onvert setup " ++ digits 20 wanted) start 100 buffer port' writes
        refl)
    ∙ ap (λ (a : Option Text × List Polled). result (a.0, port (a.1))) found
    ∙ ap (λ (r : ℕ × Bool). (some r, port polls)) numbers
