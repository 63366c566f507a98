-- ===== src/Decoder/Control.antt =====
-- ProcessingBlocks/PSDFast.cpp: the settings that come back as JSON on the spectrum's socket.
use es_sensor.Prelude.{◌-◌, ◌^◌, if◌then◌else◌, Option, none, some, [], ◌∷◌, Text}
use es_sensor.Prelude.Int.{ℤ, pos, negsuc, ltb_ℤ}
use es_sensor.Numeric.{Float, to_unsigned}
use es_sensor.Context.{Context}
use es_sensor.Context.Set.{set_min_freq, set_decoder, set_gain, set_gain_decoder}

-- What the JSON library finds in an object: the numbers under `fc`, `decoder` and `gain`, and the
-- object under `decoder_settings` with its own `gain`. A key that is not there is `none`.
pub record Json : Type 0 where
  pub fc : Option ℤ
  pub decoder : Option ℤ
  pub gain : Option ℤ
  pub decoder_settings : Option (Option ℤ)

-- `json_object_get_int64`: 0 without an object.
unfoldable pub number_of : Option ℤ → ℤ
number_of none = pos 0
number_of (some n) = n

-- `json_object_get_int` gives the nearest `int32_t`.
unfoldable pub int_of : Option ℤ → ℤ
unfolding number_of
int_of o =
    let n = number_of o in
    if ltb_ℤ n (negsuc (2 ^ 31 - 1))
    then negsuc (2 ^ 31 - 1)
    else if ltb_ℤ (pos (2 ^ 31 - 1)) n
    then pos (2 ^ 31 - 1)
    else n

-- A text that is no JSON gives no object, in which no key is found.
abbrev pub no_json : Json
no_json = record { fc = none; decoder = none; gain = none; decoder_settings = none }

module _ {F : Type 0} ⦃float : Float F⦄ (json_tokener_parse : Text → Option Json)
    (float_of : ℤ → F) where
  unfoldable pub apply_json : Json → Context F → Context F
  unfolding number_of int_of set_min_freq set_decoder set_gain set_gain_decoder
  apply_json j c =
      let c = set_min_freq (to_unsigned 64 (number_of j.fc)) c in
      let c = set_decoder (to_unsigned 32 (int_of j.decoder)) c in
      let c = set_gain (float_of (int_of j.gain)) c in
      elim j.decoder_settings [
        | none ↦ c
        | some gain ↦ set_gain_decoder (to_unsigned 32 (int_of gain)) c
      ]

  -- What `recvfrom` has given: nothing within 5 ms or an error, or a text.
  unfoldable pub control : Option Text → Context F → Context F
  unfolding apply_json
  control none c = c
  control (some []) c = c
  control (some (x ∷ text)) c = elim (json_tokener_parse (x ∷ text)) [
    | none ↦ apply_json no_json c
    | some j ↦ apply_json j c
  ]
