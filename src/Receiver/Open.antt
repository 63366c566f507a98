-- ===== src/Receiver/Open.antt =====
-- drivers/rtlsdr/rtlsdrDriver.cpp, `open`: the dongle is opened and set up.
use es_sensor.Prelude.{
  ℕ, ◌<◌, ◌≡◌, refl, sym, Bool, true, false, not, ◌&&◌, ◌||◌, Option, none, some, List, [], ◌∷◌,
  arith, ltb, leb, ◌==◌, if◌then◌else◌, if-both,
}
use mathlib.Core.Path.{subst}
use es_sensor.Prelude.Int.{ℤ, pos, negsuc, ◌*ℤ◌}
use es_sensor.Numeric.{Float, is_negative, is_zero}
use es_sensor.Context.{Context}
use es_sensor.Context.Set.{set_direct_sampling_mode}
use es_sensor.Receiver.{
  Command, open_dongle, set_direct_sampling, set_sample_rate, set_center_freq, set_tuner_gain_mode,
  set_tuner_gain, reset_buffer, Answers, Sampling,
}
use es_sensor.Receiver.Tune.{
  Tuned, failed, skip, tuned, set_center, switch_direct, tune_native, tune,
}
use es_sensor.Receiver.Sync.{sync_start}
use es_sensor.Receiver.Direct.{device_mode}

-- What the library calls of `open` give back.
pub record OpenAnswers : Type 0 where
  pub device_count : ℕ
  pub open_result : ℤ
  pub direct_result : ℤ
  pub rate_result : ℤ
  pub center_result : ℤ
  pub gain_mode_result : ℤ
  pub gain_result : ℤ
  pub converter_found : Bool

-- The commands that were given, the configuration afterwards, and `mConverterEnabled`.
pub record Opened (F : Type 0) : Type 0 where
  pub commands : List Command
  pub context : Context F
  pub converter_enabled : Bool

-- The only dongle need not be named. An index out of range is reported, and tried all the same.
unfoldable pub choose_device : ℕ → ℤ → ℤ
choose_device count (pos n) = pos n
choose_device count (negsuc n) = if (count == 1) && (n == 0) then pos 0 else negsuc n

-- The tests that throw.
unfoldable pub refused : OpenAnswers → Bool
refused a =
    (a.device_count == 0)
    || is_negative a.open_result
    || is_negative a.direct_result
    || is_negative a.rate_result
    || is_negative a.center_result
    || is_negative a.gain_mode_result
    || is_negative a.gain_result

module _ {F : Type 0} ⦃float : Float F⦄ where
  unfoldable pub open_commands : Context F → ℤ → ℕ → List Command
  unfolding choose_device ◌*ℤ◌
  open_commands c device count =
      open_dongle (choose_device count device)
      ∷ set_direct_sampling c.direct_sampling_mode
      ∷ set_sample_rate c.sampling_rate
      ∷ set_center_freq 24_000_000
      ∷ set_tuner_gain_mode 1
      ∷ set_tuner_gain (float.to_signed c.gain *ℤ pos 10)
      ∷ reset_buffer
      ∷ []

  -- Below 24 MHz and without the converter the configuration asks for direct sampling.
  unfoldable pub choose_direct : Bool → Context F → Context F
  unfolding set_direct_sampling_mode
  choose_direct converter c =
      if not converter && ltb c.min_freq 24_000_000 then set_direct_sampling_mode 2 c else c

  -- `none` is an exception. A buffer that cannot be reset is only reported.
  unfoldable pub open_receiver : Context F → ℤ → OpenAnswers → Option (Opened F)
  unfolding refused open_commands choose_direct
  open_receiver c device a =
      if refused a
      then none
      else some (record {
        commands = open_commands c device a.device_count;
        context = choose_direct a.converter_found c;
        converter_enabled = a.converter_found;
      })

  abbrev pub StaysIn : ℕ → Tuned F → Type 0
  StaysIn mode failed = Unit
  StaysIn mode (skip s) = device_mode mode s.commands ≡ mode
  StaysIn mode (tuned s) = device_mode mode s.commands ≡ mode

  set_center-StaysIn :
      (mode : ℕ) (a : Answers) (freq : ℕ) (s : Sampling F)
      → s.commands ≡ []
      → StaysIn mode (set_center a freq s)
  unfolding set_center
  set_center-StaysIn mode a freq s e =
      rw (e) (if-both (StaysIn mode) (is_zero a.center_result) (λ _. refl) (λ _. refl))

  switch_direct_low :
      (c : Context F) (a : Answers) (freq : ℕ) (s : Sampling F)
      → freq < 24_000_000
      → s.direct_sampling ≡ true
      → switch_direct c a freq s ≡ some s
  unfolding switch_direct
  switch_direct_low c a freq s h e =
      if-both (λ o. o ≡ some s) (ltb 0 c.direct_sampling_mode)
        (λ _.
          if-both (λ o. o ≡ some s) (leb 24_000_000 freq && s.direct_sampling)
            (λ high. absurd (ground arith))
            (λ _.
              if-both (λ o. o ≡ some s) (ltb freq 24_000_000 && not s.direct_sampling)
                (λ off. absurd (ground arith)) (λ _. refl)))
        (λ _. refl)

  tune_native-StaysIn :
      (c : Context F) (a : Answers) (freq : ℕ) (s : Sampling F)
      → freq < 24_000_000
      → s.direct_sampling ≡ true
      → s.commands ≡ []
      → StaysIn 0 (tune_native c a freq s)
  unfolding tune_native
  tune_native-StaysIn c a freq s low on none_yet =
      subst (λ o. StaysIn 0 (elim o [ none ↦ failed | some s' ↦ set_center a freq s' ]))
        (sym (switch_direct_low c a freq s low on)) (set_center-StaysIn 0 a freq s none_yet)

  first_tune-StaysIn :
      (c : Context F) (a : Answers) (freq : ℕ)
      → freq < 24_000_000
      → StaysIn 0 (tune false c a freq (sync_start c))
  unfolding tune sync_start
  first_tune-StaysIn c a freq low =
      if-both (StaysIn 0) (0 == freq) (λ _. refl)
        (λ _.
          tune_native-StaysIn c a freq (record (sync_start c) { previous_freq = freq }) low refl
            refl)

  opened : Context F → ℤ → OpenAnswers → Opened F
  opened c device a = record {
    commands = open_commands c device a.device_count;
    context = choose_direct a.converter_found c;
    converter_enabled = a.converter_found;
  }

  open_receiver-opened :
      (c : Context F) (device : ℤ) (a : OpenAnswers) (o : Opened F)
      → open_receiver c device a ≡ some o
      → opened c device a ≡ o
  unfolding open_receiver opened
  open_receiver-opened c device a o =
      if-both (λ r. r ≡ some o → opened c device a ≡ o) (refused a) (λ _ e. cc) (λ _ e. cc)

  abbrev StaysOff : Answers → ℕ → Opened F → Type 0
  StaysOff a freq o =
      (o.context.direct_sampling_mode ≡ 2)
      × (device_mode 0 o.commands ≡ 0)
      × StaysIn 0 (tune false o.context a freq (sync_start o.context))

  -- The dongle is opened without a converter, with direct sampling off and a lowest frequency below
  -- 24 MHz: the dongle is then in mode 0, but the configuration says 2, and the first frequency below
  -- 24 MHz that the receiver is sent to leaves the dongle in mode 0 (unless an exception ends the
  -- program).
  pub open_stays_off :
      (c : Context F) (device : ℤ) (oa : OpenAnswers) (o : Opened F) (a : Answers) (freq : ℕ)
      → c.direct_sampling_mode ≡ 0
      → c.min_freq < 24_000_000
      → freq < 24_000_000
      → oa.converter_found ≡ false
      → open_receiver c device oa ≡ some o
      → (o.context.direct_sampling_mode ≡ 2)
        × (device_mode 0 o.commands ≡ 0)
        × StaysIn 0 (tune false o.context a freq (sync_start o.context))
  unfolding opened choose_direct open_commands
  open_stays_off c device oa o a freq off low h missing e =
      subst (StaysOff a freq) (open_receiver-opened c device oa o e) (
        rw (missing) (
          if-both
            (λ c'. StaysOff a freq (record {
              commands = open_commands c device oa.device_count;
              context = c';
              converter_enabled = false;
            }))
            (not false && ltb c.min_freq 24_000_000)
            (λ _. (refl, off, first_tune-StaysIn (set_direct_sampling_mode 2 c) a freq h))
            (λ high. absurd (ground arith))))
