-- ===== src/Converter/InitLaws.antt =====
-- drivers/rtlsdr/converter/converter.c, `converterInit`: what a successful set-up has sent.
use mathlib.Core.Path.{subst}
use es_sensor.Prelude.{
  ℕ, ◌≡◌, refl, ap, ◌∙◌, Bool, true, false, not, none, some, Option, List, ◌++◌, if◌then◌else◌,
  if-both, Text, codes,
}
use es_sensor.Prelude.Int.{ℤ, negsuc}
use es_sensor.Numeric.{is_negative, is_zero}
use es_sensor.Converter.{Polled, Port}
use es_sensor.Converter.Commands.{
  line_end, blind_command, do_command, setup_command, converter_tune, drain, press_enter, open_port,
  converter_init,
}
use es_sensor.Converter.CommandLaws.{blind_command-whole, do_command-whole, converter_tune-whole}

-- The three commands of the set-up, behind what was sent before.
abbrev pub set_up : Text → Text
set_up before =
    before
    ++ codes "sof 1"
    ++ line_end
    ++ codes "convert hs5g 1"
    ++ line_end
    ++ setup_command 100_000
    ++ line_end

abbrev Started : Text → Option (Bool × Port) → Type 0
Started before none = Unit
Started before (some (false, port)) = Unit
Started before (some (true, port)) = port.sent ≡ set_up before

abbrev Opened : Text → Option (ℤ × Port) → Type 0
Opened before none = Unit
Opened before (some (result, port)) = is_zero result ≡ true → port.sent ≡ before

of_not : (b : Bool) → not b ≡ false → b ≡ true
of_not true h = refl
of_not false h = cc

tuned_after :
    (before : Text) (o : Option (ℕ × Bool)) (port : Port)
    → ((r : ℕ × Bool) → o ≡ some r → port.sent ≡ set_up before)
    → Started before (some (elim o [ none ↦ false | some r ↦ true ], port))
tuned_after before none port h = tt
tuned_after before (some r) port h = h r refl

module _ (ulong_max : ℕ) (junk : Text) (before : Text) where
  hs5g_after :
      (port : Port)
      → port.sent ≡ before ++ codes "sof 1" ++ line_end
      → Started before (
          let (sent, port) = blind_command (codes "convert hs5g 1") port in
          if not sent
          then some (false, port)
          else (let (tuned, port) = converter_tune ulong_max junk 100_000 port in
              some (elim tuned [ none ↦ false | some r ↦ true ], port)))
  hs5g_after port e =
      let command = codes "convert hs5g 1" in
      let port' = (blind_command command port).1 in
      if-both (Started before) (not (blind_command command port).0) (λ _. tt)
        (λ sent.
          tuned_after before (converter_tune ulong_max junk 100_000 port').0
            (converter_tune ulong_max junk 100_000 port').1
            (λ r found.
              converter_tune-whole ulong_max junk 100_000 port' r found
              ∙ ap (λ (t : Text). t ++ setup_command 100_000 ++ line_end)
                  (blind_command-whole command port (of_not _ sent)
                    ∙ ap (λ (t : Text). t ++ command ++ line_end) e)))

  count_after :
      (count : Option Text) (port : Port)
      → ((reply : Text) → count ≡ some reply → port.sent ≡ before ++ codes "sof 1" ++ line_end)
      → Started before (elim count [
        | none ↦ some (false, port)
        | some buffer ↦
            let (sent, port) = blind_command (codes "convert hs5g 1") port in
            if not sent
            then some (false, port)
            else (let (tuned, port) = converter_tune ulong_max junk 100_000 port in
                some (elim tuned [ none ↦ false | some r ↦ true ], port))
      ])
  count_after none port h = tt
  count_after (some buffer) port h = hs5g_after port (h buffer refl)

drained_after :
    (port : Port) (o : Option (ℤ × Bool × List Polled))
    → Opened port.sent (elim o [
      | none ↦ none
      | some (result, replied, polls) ↦
          some (if not replied then negsuc 0 else result, record port { polls = polls })
    ])
drained_after port none = tt
drained_after port (some (result, replied, polls)) = λ e. refl

open_port-Opened :
    (fd get_result set_result : ℤ) (port : Port)
    → Opened (press_enter 5 port).sent (open_port fd get_result set_result port)
unfolding open_port
open_port-Opened fd get_result set_result port =
    let P : Option (ℤ × Port) → Type 0 = Opened (press_enter 5 port).sent in
    if-both P (is_negative fd) (λ e h. cc)
      (λ e.
        if-both P (is_negative get_result) (λ e h. cc)
          (λ e.
            if-both P (is_negative set_result) (λ e h. cc)
              (λ e. drained_after (press_enter 5 port) (drain false (press_enter 5 port).polls))))

Started-after :
    (ulong_max : ℕ) (junk before : Text) (o : Option (ℤ × Port))
    → Opened before o
    → Started before (elim o [
      | none ↦ none
      | some (result, port) ↦
          if not (is_zero result)
          then some (false, port)
          else (let (count, port) = do_command (codes "sof 1") (codes "SoF Count") 100 junk port in
              elim count [
                | none ↦ some (false, port)
                | some buffer ↦
                    let (sent, port) = blind_command (codes "convert hs5g 1") port in
                    if not sent
                    then some (false, port)
                    else (let (tuned, port) = converter_tune ulong_max junk 100_000 port in
                        some (elim tuned [ none ↦ false | some r ↦ true ], port))
              ])
    ])
Started-after ulong_max junk before none h = tt
Started-after ulong_max junk before (some (result, port)) h =
    let command = codes "sof 1" in
    let answer = do_command command (codes "SoF Count") 100 junk port in
    if-both (Started before) (not (is_zero result)) (λ _. tt)
      (λ opened. count_after ulong_max junk before answer.0 answer.1 (λ reply found.
        do_command-whole command (codes "SoF Count") 100 junk port reply found
        ∙ ap (λ (t : Text). t ++ command ++ line_end) (h (of_not _ opened))))

-- When `converterInit` succeeds, then behind what the five line ends left on the port stand exactly
-- the three commands of the set-up, each whole and with its line end, and nothing else.
pub converter_init-set_up :
    (ulong_max : ℕ) (junk : Text) (fd get_result set_result : ℤ) (port port' : Port)
    → converter_init ulong_max junk fd get_result set_result port ≡ some (true, port')
    → port'.sent ≡ set_up (press_enter 5 port).sent
unfolding converter_init
converter_init-set_up ulong_max junk fd get_result set_result port port' e =
    let before = (press_enter 5 port).sent in
    subst (Started before) e (
      Started-after ulong_max junk before (open_port fd get_result set_result port)
        (open_port-Opened fd get_result set_result port))
