-- ===== src/Converter/CommandLaws.antt =====
-- drivers/rtlsdr/converter/converter.c: what commands put on the port, and how replies are taken.
use es_sensor.Prelude.{
  ℕ, zero, suc, ◌+◌, ◌≡◌, refl, ap, ◌∙◌, Bool, true, false, ◌&&◌, none, some, Option, List, [], ◌∷◌,
  ◌++◌, if-both, Text, length, drop, take-append-drop, codes,
}
use es_sensor.Prelude.Int.{ℤ, pos, negsuc}
use es_sensor.Converter.{Port}
use es_sensor.Converter.Reply.{read_reply}
use es_sensor.Converter.Commands.{
  write_loop, is_positive, converter_write, line_end, blind_command, do_command, setup_command,
  converter_tune,
}

-- What a result above 0 says of the port: the buffer went out whole.
write_loop-whole :
    (len : ℕ) (answers : List ℤ) (buffer : Text)
    → is_positive (write_loop len answers buffer).result ≡ true
    → (write_loop len answers buffer).out ≡ buffer
unfolding write_loop
write_loop-whole len answers [] h = refl
write_loop-whole len [] (c ∷ buffer) h = cc
write_loop-whole len (negsuc e ∷ answers) (c ∷ buffer) h = cc
write_loop-whole len (pos zero ∷ answers) (c ∷ buffer) h = cc
write_loop-whole len (pos (suc n) ∷ answers) (c ∷ buffer) h =
    rw (write_loop-whole len answers (drop n buffer) h) (take-append-drop (suc n) (c ∷ buffer))

converter_write-whole :
    (buffer : Text) (port : Port)
    → (converter_write buffer port).0 ≡ true
    → (converter_write buffer port).1.sent ≡ port.sent ++ buffer
unfolding converter_write
converter_write-whole buffer port h =
    ap (λ (t : Text). port.sent ++ t) (write_loop-whole (length buffer) port.writes buffer h)

both : (a b : Bool) → (a && b) ≡ true → (a ≡ true) × (b ≡ true)
both true b h = (refl, h)
both false b h = cc

pub blind_command-whole :
    (command : Text) (port : Port)
    → (blind_command command port).0 ≡ true
    → (blind_command command port).1.sent ≡ port.sent ++ command ++ line_end
unfolding blind_command
blind_command-whole command port h =
    let port' = (converter_write command port).1 in
    let (sent, ended) = both _ (converter_write line_end port').0 h in
    converter_write-whole line_end port' ended
    ∙ ap (λ (t : Text). t ++ line_end) (converter_write-whole command port sent)

-- A command whose reply was found has gone out whole.
pub do_command-whole :
    (command response_start : Text) (size : ℕ) (buffer : Text) (port : Port) (reply : Text)
    → (do_command command response_start size buffer port).0 ≡ some reply
    → (do_command command response_start size buffer port).1.sent ≡ port.sent ++ command ++ line_end
unfolding do_command blind_command
do_command-whole command response_start size buffer port reply =
    let port' = (blind_command command port).1 in
    if-both
      (λ (r : Option Text × Port). r.0 ≡ some reply → r.1.sent ≡ port.sent ++ command ++ line_end)
      (blind_command command port).0 (λ e h. blind_command-whole command port e) (λ e h. cc)

pub converter_tune-whole :
    (ulong_max : ℕ) (junk : Text) (frequency : ℕ) (port : Port) (r : ℕ × Bool)
    → (converter_tune ulong_max junk frequency port).0 ≡ some r
    → (converter_tune ulong_max junk frequency port).1.sent
      ≡ port.sent ++ setup_command frequency ++ line_end
unfolding converter_tune
converter_tune-whole ulong_max junk frequency port r =
    found (do_command command (codes "IF Frequency:") 100 buffer port).0
      (do_command-whole command (codes "IF Frequency:") 100 buffer port)
  where
    command : Text
    command = setup_command frequency

    buffer : Text
    buffer = command ++ (0 ∷ drop (length command + 1) junk)

    found :
        {P : Type 0} (o : Option Text)
        → ((reply : Text) → o ≡ some reply → P)
        → elim o [ none ↦ none | some buffer ↦ some (read_reply ulong_max buffer) ] ≡ some r
        → P
    found none h e = cc
    found (some reply) h e = h reply refl
