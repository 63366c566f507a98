-- ===== src/Receiver/Tune.antt =====
-- drivers/rtlsdr/rtlsdrDriver.cpp, lines 530 to 618: the receiver goes to another frequency.
use es_sensor.Prelude.{
  ℕ, ◌*◌, ◌/◌, ◌%◌, ◌^◌, Bool, true, false, not, ◌&&◌, Option, none, some, [], ◌∷◌, ◌++◌, ltb, leb,
  ◌==◌, if◌then◌else◌,
}
use es_sensor.Prelude.Int.{pos, ◌*ℤ◌}
use es_sensor.Numeric.{Float, is_negative, is_zero}
use es_sensor.Context.{Context}
use es_sensor.Receiver.{
  Command, set_direct_sampling, set_center_freq, set_agc_mode, set_tuner_gain_mode, set_tuner_gain,
  reset_buffer, tune_converter, Answers, Sampling,
}

-- `failed` is an exception, `skip` the `continue` after a frequency that could not be set.
pub data Tuned (F : Type 0) : Type 0 where
  failed : Tuned F
  skip : Sampling F → Tuned F
  tuned : Sampling F → Tuned F

module _ {F : Type 0} where
  abbrev pub command : Command → Sampling F → Sampling F
  command k s = record s { commands = s.commands ++ (k ∷ []) }

  -- Sets the frequency of the dongle and resets its buffer.
  unfoldable pub set_center : Answers → ℕ → Sampling F → Tuned F
  set_center a freq s =
      let s = command (set_center_freq (freq % 2 ^ 32)) s in
      if is_zero a.center_result
      then (let s = command reset_buffer s in
          tuned (record s { running = s.running && not (is_negative a.reset_result) }))
      else skip s

  -- With the converter the dongle is set to its intermediate frequency; in hertz that is taken to be
  -- below 2 ^ 32, above which the conversion from `double` is undefined and the model wraps around.
  unfoldable pub tune_by_converter : Answers → ℕ → Sampling F → Tuned F
  unfolding set_center
  tune_by_converter a freq s = elim a.converter_tune [
    | none ↦ failed
    | some (proxy, invert) ↦
        let s = record (command (tune_converter (freq / 1000)) s) { must_invert = invert } in
        if s.previous_proxy_freq == proxy
        then tuned s
        else set_center a (proxy * 1000) (record s { previous_proxy_freq = proxy })
  ]

module _ {F : Type 0} ⦃float : Float F⦄ where
  -- Leaves direct sampling, with the gain set by hand.
  unfoldable pub leave_direct : Context F → Answers → Sampling F → Option (Sampling F)
  unfolding ◌*ℤ◌
  leave_direct c a s =
      let s = command (set_direct_sampling 0) s in
      if is_negative a.direct_result
      then none
      else (let s = command (set_tuner_gain_mode 1) (command (set_agc_mode 0) s) in
          if is_negative a.gain_mode_result
          then none
          else (let s = command (set_tuner_gain (float.to_signed c.gain *ℤ pos 10)) s in
              if is_negative a.gain_result
              then none
              else some (record s { direct_sampling = false })))

  unfoldable pub enter_direct : Answers → Sampling F → Option (Sampling F)
  enter_direct a s =
      let s = command (set_direct_sampling 2) s in
      if is_negative a.direct_result
      then none
      else some (record (command (set_agc_mode 1) (command (set_tuner_gain_mode 0) s)) {
        direct_sampling = true;
      })

  -- Below 24 MHz the dongle samples directly, if the configuration allows it at all.
  unfoldable pub switch_direct : Context F → Answers → ℕ → Sampling F → Option (Sampling F)
  unfolding leave_direct enter_direct
  switch_direct c a freq s =
      if ltb 0 c.direct_sampling_mode
      then if leb 24_000_000 freq && s.direct_sampling
        then leave_direct c a s
        else if ltb freq 24_000_000 && not s.direct_sampling
        then enter_direct a s
        else some s
      else some s

  unfoldable pub tune_native : Context F → Answers → ℕ → Sampling F → Tuned F
  unfolding switch_direct set_center
  tune_native c a freq s = elim (switch_direct c a freq s) [
    | none ↦ failed
    | some s' ↦ set_center a freq s'
  ]

  -- `if (previous_freq != center_freq) …`
  unfoldable pub tune : Bool → Context F → Answers → ℕ → Sampling F → Tuned F
  unfolding tune_by_converter tune_native
  tune converter c a freq s =
      if s.previous_freq == freq
      then tuned s
      else (let s = record s { previous_freq = freq } in
          if converter then tune_by_converter a freq s else tune_native c a freq s)
