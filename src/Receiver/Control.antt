-- ===== src/Receiver/Control.antt =====
-- drivers/rtlsdr/rtlsdrDriver.cpp, `socket_webrtc_thread`: in the DEC pipeline the gain and the
-- frequency of the configuration are polled, and the receiver is set to them.
use es_sensor.Prelude.{
  ℕ, ◌*◌, ◌/◌, ◌%◌, ◌^◌, ◌≡◌, refl, Bool, false, ◌||◌, Option, none, some, List, [], ◌∷◌, ◌++◌,
  ◌==◌, if◌then◌else◌, if-both, ==_iff, sym, ◌∙◌,
}
use mathlib.Core.Path.{subst}
use mathlib.Core.Bool.{true≢false}
use es_sensor.Prelude.Int.{ℤ}
use es_sensor.Numeric.{Float, is_negative}
use es_sensor.Context.{Context}
use es_sensor.Receiver.{
  Command, set_center_freq, set_tuner_gain_mode, set_tuner_gain, tune_converter,
}

-- What the library calls of one round give back; `converter_tune` is `none` where it fails.
pub record ControlAnswers : Type 0 where
  pub gain_mode_result : ℤ
  pub converter_tune : Option ℕ

pub record Control (F : Type 0) : Type 0 where
  pub last_fc : ℕ
  pub previous_proxy_freq : ℕ
  pub last_gain : F
  pub commands : List Command

module _ {F : Type 0} ⦃float : Float F⦄ where
  unfoldable pub control_start : Context F → Control F
  control_start c = record {
    last_fc = c.min_freq;
    previous_proxy_freq = 0;
    last_gain = c.gain;
    commands = [];
  }

  -- `a != b` for two numbers.
  unfoldable pub differs : F → F → Bool
  differs a b = float.lt a b || float.lt b a

  abbrev give : Command → Control F → Control F
  give k s = record s { commands = s.commands ++ (k ∷ []) }

  -- The commands for a gain: above 0 it is set by hand, at 0 automatically, below 0 not at all.
  unfoldable pub gain_commands : ControlAnswers → F → List Command
  unfolding differs
  gain_commands a gain =
      if float.lt (float.of_nat 0) gain
      then set_tuner_gain_mode 1
        ∷ (if is_negative a.gain_mode_result
            then []
            else set_tuner_gain (float.to_signed (float.mul gain (float.of_nat 10))) ∷ [])
      else if differs gain (float.of_nat 0)
      then []
      else set_tuner_gain_mode 0 ∷ []

  unfoldable pub control_gain : Context F → ControlAnswers → Control F → Control F
  unfolding gain_commands differs
  control_gain c a s =
      if differs s.last_gain c.gain
      then (record s { last_gain = c.gain; commands = s.commands ++ gain_commands a c.gain })
      else s

  -- `none` is an exception.
  unfoldable pub control_frequency :
      Bool → Context F → ControlAnswers → Control F → Option (Control F)
  control_frequency converter c a s =
      if s.last_fc == c.min_freq
      then some s
      else (let s = record s { last_fc = c.min_freq } in
          if converter
          then elim a.converter_tune [
            | none ↦ none
            | some proxy ↦
                let s = give (tune_converter (c.min_freq / 1000)) s in
                if s.previous_proxy_freq == proxy
                then some s
                else some (
                    give (set_center_freq (proxy * 1000 % 2 ^ 32))
                      (record s { previous_proxy_freq = proxy }))
          ]
          else some (give (set_center_freq (c.min_freq % 2 ^ 32)) s))

  -- One round of the loop.
  unfoldable pub control_round : Bool → Context F → ControlAnswers → Control F → Option (Control F)
  unfolding control_gain control_frequency
  control_round converter c a s = control_frequency converter c a (control_gain c a s)

  -- The gain and the frequency of the configuration are those that were last seen.
  abbrev Settled : Context F → Option (Control F) → Type 0
  Settled c none = Unit
  Settled c (some s) = (s.last_fc ≡ c.min_freq) × (differs s.last_gain c.gain ≡ false)

  differs_same : ((x : F) → float.lt x x ≡ false) → (x : F) → differs x x ≡ false
  unfolding differs
  differs_same irrefl x = rw (irrefl x) refl

  control_gain-settled :
      (c : Context F) (a : ControlAnswers) (s : Control F)
      → ((x : F) → float.lt x x ≡ false)
      → differs (control_gain c a s).last_gain c.gain ≡ false
  unfolding control_gain
  control_gain-settled c a s irrefl =
      if-both (λ (s' : Control F). differs s'.last_gain c.gain ≡ false) (differs s.last_gain c.gain)
        (λ _. differs_same irrefl c.gain) (λ e. e)

  control_frequency-Settled :
      (converter : Bool) (c : Context F) (a : ControlAnswers) (s : Control F)
      → differs s.last_gain c.gain ≡ false
      → Settled c (control_frequency converter c a s)
  unfolding control_frequency
  control_frequency-Settled converter c a s h =
      if-both (Settled c) (s.last_fc == c.min_freq) (λ e. ((==_iff s.last_fc c.min_freq).0 e, h))
        (λ _. if-both (Settled c) converter (λ _. tuned_after a.converter_tune) (λ _. (refl, h)))
    where
      tuned_after :
          (o : Option ℕ)
          → Settled c (elim o [
            | none ↦ none
            | some proxy ↦
                let s = record s { last_fc = c.min_freq } in
                let s = give (tune_converter (c.min_freq / 1000)) s in
                if s.previous_proxy_freq == proxy
                then some s
                else some (
                    give
                      (set_center_freq (proxy * 1000 % 2 ^ 32))
                      (record s { previous_proxy_freq = proxy }))
          ])
      tuned_after none = tt
      tuned_after (some proxy) =
          if-both (Settled c) (s.previous_proxy_freq == proxy) (λ _. (refl, h)) (λ _. (refl, h))

  Settled-idle :
      (converter : Bool) (c : Context F) (a : ControlAnswers) (s : Control F)
      → Settled c (some s)
      → control_round converter c a s ≡ some s
  unfolding control_round
  Settled-idle converter c a s (frequency, gain) =
      if-both (λ s'. control_frequency converter c a s' ≡ some s) (differs s.last_gain c.gain)
        (λ e. absurd (true≢false (sym e ∙ gain)))
        (λ _.
          if-both (λ o. o ≡ some s) (s.last_fc == c.min_freq) (λ _. refl)
            (λ e. absurd (true≢false (sym ((==_iff s.last_fc c.min_freq).1 frequency) ∙ e))))

  -- A round with the configuration that the last round has seen gives no command, whatever the
  -- library's calls answer; a number does not differ from itself.
  pub control_round_idle :
      (converter : Bool) (c : Context F) (a a' : ControlAnswers) (s s' : Control F)
      → ((x : F) → float.lt x x ≡ false)
      → control_round converter c a s ≡ some s'
      → control_round converter c a' s' ≡ some s'
  unfolding control_round
  control_round_idle converter c a a' s s' irrefl e =
      let settled =
        control_frequency-Settled converter c a (control_gain c a s)
          (control_gain-settled c a s irrefl) in
      Settled-idle converter c a' s' (subst (Settled c) e settled)
