-- ===== src/Receiver/Silence.antt =====
-- drivers/rtlsdr/rtlsdrDriver.cpp, `SyncSampling`, lines 530 to 618: what comes of tuning, told by
-- the answers alone.
use es_sensor.Prelude.{
  ℕ, ◌*◌, ◌/◌, ◌≡◌, refl, ◌∙◌, ap, Bool, true, false, Option, none, some, ◌==◌, if◌then◌else◌,
  if-both, ltb, leb, ◌&&◌, ◌||◌, not, arith,
}
use es_sensor.Numeric.{Float, is_zero, is_negative}
use es_sensor.Context.{Context}
use es_sensor.Receiver.{tune_converter, Answers, Sampling}
use es_sensor.Receiver.Tune.{
  command, Tuned, failed, skip, tuned, set_center, tune_by_converter, leave_direct, enter_direct,
  switch_direct, tune_native, tune,
}

-- The intermediate frequency that the converter gives is the one that is set already.
abbrev pub proxy_stays : Option (ℕ × Bool) → ℕ → Bool
proxy_stays none previous = false
proxy_stays (some (proxy, invert)) previous = previous == proxy

abbrev pub new_proxy : Option (ℕ × Bool) → ℕ → ℕ
new_proxy none previous = previous
new_proxy (some (proxy, invert)) previous = proxy

-- A round sets the dongle's frequency, unless the frequency, or behind a converter the intermediate
-- frequency, is the one before.
abbrev pub is_set : Bool → Answers → ℕ → ℕ → ℕ → Bool
is_set converter a freq previous proxy =
    not (previous == freq) && not (converter && proxy_stays a.converter_tune proxy)

-- A round receives, unless it sets the dongle's frequency and that fails.
abbrev pub is_received : Bool → Answers → ℕ → ℕ → ℕ → Bool
is_received converter a freq previous proxy =
    not (is_set converter a freq previous proxy) || is_zero a.center_result

-- The intermediate frequency after a round.
abbrev pub proxy_after : Bool → Answers → ℕ → ℕ → ℕ → ℕ
proxy_after converter a freq previous proxy =
    if converter && not (previous == freq) then new_proxy a.converter_tune proxy else proxy

-- Where the dongle's frequency has been set its buffer is reset, and that did not fail.
abbrev pub is_reset : Bool → Answers → ℕ → ℕ → ℕ → Bool
is_reset converter a freq previous proxy =
    not (is_set converter a freq previous proxy && is_negative a.reset_result)

and_true : (b : Bool) → b ≡ (b && true)
and_true true = refl
and_true false = refl

module _ {F : Type 0} where
  -- What is sent, the hopping and the length of a read stay as they are.
  abbrev pub Quiet : Sampling F → Sampling F → Type 0
  Quiet old s =
      (s.sent ≡ old.sent)
      × (s.hopping ≡ old.hopping)
      × (s.fft_size ≡ old.fft_size)
      × (s.slen ≡ old.slen)

  -- So do the two frequencies, and whether the loop runs.
  abbrev Still : Sampling F → Sampling F → Type 0
  Still old s =
      Quiet old s
      × (s.running ≡ old.running)
      × (s.previous_freq ≡ old.previous_freq)
      × (s.previous_proxy_freq ≡ old.previous_proxy_freq)

  abbrev StillOption : Sampling F → Option (Sampling F) → Type 0
  StillOption old none = Unit
  StillOption old (some s) = Still old s

  -- What tuning to `freq` gives, from whether it is received, the intermediate frequency after it,
  -- and whether the reset went well.
  abbrev pub Outcome : Bool → ℕ → Bool → ℕ → Sampling F → Tuned F → Type 0
  Outcome received proxy reset freq old failed = Unit
  Outcome received proxy reset freq old (skip s) =
      (received ≡ false)
      × Quiet old s
      × (s.running ≡ old.running)
      × (s.previous_freq ≡ freq)
      × (s.previous_proxy_freq ≡ proxy)
  Outcome received proxy reset freq old (tuned s) =
      (received ≡ true)
      × Quiet old s
      × (s.running ≡ (old.running && reset))
      × (s.previous_freq ≡ freq)
      × (s.previous_proxy_freq ≡ proxy)

  proxy_branch :
      (same center negative : Bool) (proxy freq : ℕ) (old : Sampling F) (t t' : Tuned F)
      → (same ≡ true → Outcome true proxy true freq old t)
      → Outcome center proxy (not negative) freq old t'
      → Outcome
          (not (not same) || center)
          proxy
          (not (not same && negative))
          freq
          old
          (if same then t else t')
  proxy_branch true center negative proxy freq old t t' h k = h refl
  proxy_branch false center negative proxy freq old t t' h k = k

  tune_branch :
      (same converter stays center negative : Bool) (new proxy freq : ℕ) (old : Sampling F)
      (t t' t'' : Tuned F)
      → (same ≡ true → Outcome true proxy true freq old t)
      → Outcome (not (not stays) || center) new (not (not stays && negative)) freq old t'
      → Outcome center proxy (not negative) freq old t''
      → let set = not same && not (converter && stays) in
        Outcome
          (not set || center)
          (if converter && not same then new else proxy)
          (not (set && negative))
          freq
          old
          (if same then t else if converter then t' else t'')
  tune_branch true true stays center negative new proxy freq old t t' t'' h k l = h refl
  tune_branch true false stays center negative new proxy freq old t t' t'' h k l = h refl
  tune_branch false true stays center negative new proxy freq old t t' t'' h k l = k
  tune_branch false false stays center negative new proxy freq old t t' t'' h k l = l

  set_center-Outcome :
      (a : Answers) (freq : ℕ) (s : Sampling F)
      → Outcome
          (is_zero a.center_result)
          s.previous_proxy_freq
          (not (is_negative a.reset_result))
          s.previous_freq
          s
          (set_center a freq s)
  unfolding set_center
  set_center-Outcome a freq s =
      if-both
        (Outcome (is_zero a.center_result) s.previous_proxy_freq (not (is_negative a.reset_result))
          s.previous_freq s)
        (is_zero a.center_result) (λ e. (e, (refl, refl, refl, refl), refl, refl, refl))
        (λ e. (e, (refl, refl, refl, refl), refl, refl, refl))

module _ {F : Type 0} ⦃float : Float F⦄ where
  still : (s : Sampling F) → Still s s
  still s = ((refl, refl, refl, refl), refl, refl, refl)

  leave_direct-Still :
      (c : Context F) (a : Answers) (s : Sampling F) → StillOption s (leave_direct c a s)
  unfolding leave_direct
  leave_direct-Still c a s =
      if-both (StillOption s) (is_negative a.direct_result) (λ _. tt)
        (λ _.
          if-both (StillOption s) (is_negative a.gain_mode_result) (λ _. tt)
            (λ _. if-both (StillOption s) (is_negative a.gain_result) (λ _. tt) (λ _. still s)))

  switch_direct-Still :
      (c : Context F) (a : Answers) (freq : ℕ) (s : Sampling F)
      → StillOption s (switch_direct c a freq s)
  unfolding switch_direct enter_direct
  switch_direct-Still c a freq s =
      let P = StillOption s in
      if-both P (ltb 0 c.direct_sampling_mode)
        (λ _.
          if-both P (leb 24_000_000 freq && s.direct_sampling) (λ _. leave_direct-Still c a s)
            (λ _.
              if-both P (ltb freq 24_000_000 && not s.direct_sampling)
                (λ _. if-both P (is_negative a.direct_result) (λ _. tt) (λ _. still s))
                (λ _. still s)))
        (λ _. still s)

  Outcome-trans :
      (received reset : Bool) (old s : Sampling F) (t : Tuned F)
      → Still old s
      → Outcome received s.previous_proxy_freq reset s.previous_freq s t
      → Outcome received old.previous_proxy_freq reset old.previous_freq old t
  Outcome-trans received reset old s failed still h = tt
  Outcome-trans received reset old s (skip s') ((a, b, c, d), run, prev, proxy)
        (r, (a', b', c', d'), run', prev', proxy') =
      (r, (a' ∙ a, b' ∙ b, c' ∙ c, d' ∙ d), run' ∙ run, prev' ∙ prev, proxy' ∙ proxy)
  Outcome-trans received reset old s (tuned s') ((a, b, c, d), run, prev, proxy)
        (r, (a', b', c', d'), run', prev', proxy') =
      (
        r,
        (a' ∙ a, b' ∙ b, c' ∙ c, d' ∙ d),
        run' ∙ ap (λ x. x && reset) run,
        prev' ∙ prev,
        proxy' ∙ proxy,
      )

  center_after :
      (old : Sampling F) (a : Answers) (freq : ℕ) (o : Option (Sampling F))
      → StillOption old o
      → Outcome
          (is_zero a.center_result)
          old.previous_proxy_freq
          (not (is_negative a.reset_result))
          old.previous_freq
          old
          (elim o [ none ↦ failed | some s' ↦ set_center a freq s' ])
  center_after old a freq none h = tt
  center_after old a freq (some s) h =
      Outcome-trans _ _ old s (set_center a freq s) h (set_center-Outcome a freq s)

  converter_after :
      (a : Answers) (freq : ℕ) (s : Sampling F) (o : Option (ℕ × Bool))
      → Outcome
          (not (not (proxy_stays o s.previous_proxy_freq)) || is_zero a.center_result)
          (new_proxy o s.previous_proxy_freq)
          (not (not (proxy_stays o s.previous_proxy_freq) && is_negative a.reset_result))
          s.previous_freq
          s
          (elim o [
            | none ↦ failed
            | some (proxy, invert) ↦
                let s = record (command (tune_converter (freq / 1000)) s) {
                  must_invert = invert;
                } in
                if s.previous_proxy_freq == proxy
                then tuned s
                else set_center a (proxy * 1000) (record s { previous_proxy_freq = proxy })
          ])
  converter_after a freq s none = tt
  converter_after a freq s (some (proxy, invert)) =
      let s' = record (command (tune_converter (freq / 1000)) s) { must_invert = invert } in
      let set = record s' { previous_proxy_freq = proxy } in
      let t = set_center a (proxy * 1000) set in
      proxy_branch (s.previous_proxy_freq == proxy) (is_zero a.center_result)
        (is_negative a.reset_result) proxy s.previous_freq s (tuned s') t
        (λ e. (refl, (refl, refl, refl, refl), and_true s.running, refl, ground arith))
        (unchanged _ _ _ _ t (set_center-Outcome a (proxy * 1000) set))
    where
      unchanged :
          (received reset : Bool) (proxy freq : ℕ) (t : Tuned F)
          → Outcome received proxy reset freq
              (record (command (tune_converter (freq / 1000)) s) {
                must_invert = invert;
                previous_proxy_freq = proxy;
              })
              t
          → Outcome received proxy reset freq s t
      unchanged _ _ _ _ failed h = tt
      unchanged _ _ _ _ (skip s') h = h
      unchanged _ _ _ _ (tuned s') h = h

  -- Tuning, in every case.
  pub tune-Outcome :
      (converter : Bool) (c : Context F) (a : Answers) (freq : ℕ) (s : Sampling F)
      → Outcome
          (is_received converter a freq s.previous_freq s.previous_proxy_freq)
          (proxy_after converter a freq s.previous_freq s.previous_proxy_freq)
          (is_reset converter a freq s.previous_freq s.previous_proxy_freq)
          freq
          s
          (tune converter c a freq s)
  unfolding tune tune_native tune_by_converter
  tune-Outcome converter c a freq s =
      let s' = record s { previous_freq = freq } in
      let old = s.previous_proxy_freq in
      tune_branch (s.previous_freq == freq) converter (proxy_stays a.converter_tune old)
        (is_zero a.center_result) (is_negative a.reset_result) (new_proxy a.converter_tune old) old
        freq s (tuned s) (tune_by_converter a freq s') (tune_native c a freq s')
        (λ e. (refl, (refl, refl, refl, refl), and_true s.running, ground arith, refl))
        (from_start _ _ _ (tune_by_converter a freq s')
          (converter_after a freq s' a.converter_tune))
        (from_start _ _ _ (tune_native c a freq s')
          (center_after s' a freq (switch_direct c a freq s') (switch_direct-Still c a freq s')))
    where
      from_start :
          (received reset : Bool) (proxy : ℕ) (t : Tuned F)
          → Outcome received proxy reset freq (record s { previous_freq = freq }) t
          → Outcome received proxy reset freq s t
      from_start _ _ _ failed h = tt
      from_start _ _ _ (skip s') h = h
      from_start _ _ _ (tuned s') h = h
