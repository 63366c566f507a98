-- ===== src/Receiver/Direct.antt =====
-- drivers/rtlsdr/rtlsdrDriver.cpp, lines 563 to 604: the flag `direct_sampling` against the mode that
-- the dongle is in.
use es_sensor.Prelude.{
  ℕ, ◌%◌, ◌^◌, ◌≤◌, ◌<◌, ◌≡◌, refl, sym, ap, ◌∙◌, ◌⊎◌, inl, inr, Bool, true, false, not, ◌&&◌,
  Option, none, some, List, [], ◌∷◌, ◌++◌, arith, ltb, leb, ◌==◌, if◌then◌else◌, if-both,
}
use mathlib.Core.Path.{subst}
use es_sensor.Numeric.{Float, is_negative, is_zero, shift_one}
use es_sensor.Context.{Context}
use es_sensor.Hopping.{SequentialHopping, next_hop}
use es_sensor.Receiver.{
  Command, set_center_freq, set_direct_sampling, read_sync, reset_buffer, Answers, Sampling,
}
use es_sensor.Receiver.Tune.{
  Tuned, failed, skip, tuned, set_center, leave_direct, enter_direct, switch_direct, tune_native,
  tune,
}
use es_sensor.Receiver.Sync.{set_read_len, read_segments, sync_round, sync_rounds, sync_start}

-- The mode that the dongle is in after a command, and after a list of them.
abbrev pub mode_after : Command → ℕ → ℕ
mode_after (set_direct_sampling n) mode = n
mode_after _ mode = mode

abbrev pub device_mode : ℕ → List Command → ℕ
device_mode mode [] = mode
device_mode mode (k ∷ ks) = device_mode (mode_after k mode) ks

device_mode-snoc :
    (mode : ℕ) (ks : List Command) (k : Command)
    → device_mode mode (ks ++ (k ∷ [])) ≡ mode_after k (device_mode mode ks)
device_mode-snoc mode [] k = refl
device_mode-snoc mode (k' ∷ ks) k = device_mode-snoc (mode_after k' mode) ks k

abbrev pub touches : Command → Bool
touches (set_direct_sampling n) = true
touches _ = false

-- The commands have left the direct sampling mode alone.
abbrev pub Untouched : List Command → Type 0
Untouched [] = Unit
Untouched (k ∷ ks) = (touches k ≡ false) × Untouched ks

-- The flag says what mode the dongle is in, which was in mode `mode` before the commands; or it is
-- set as at the start, and no command about the mode has been given.
abbrev pub Known : ℕ → List Command → Bool → Type 0
Known mode ks flag =
    (device_mode mode ks ≡ (if flag then 2 else 0)) ⊎ (Untouched ks × (flag ≡ true))

mode_after_same : (k : Command) (mode : ℕ) → touches k ≡ false → mode_after k mode ≡ mode
mode_after_same (set_direct_sampling n) mode e = absurd (ground arith)
mode_after_same _ mode e = refl

Untouched-snoc :
    (ks : List Command) (k : Command)
    → touches k ≡ false
    → Untouched ks
    → Untouched (ks ++ (k ∷ []))
Untouched-snoc [] k e h = (e, tt)
Untouched-snoc (k' ∷ ks) k e (e', h) = (e', Untouched-snoc ks k e h)

Known-snoc :
    (mode : ℕ) (ks : List Command) (k : Command) (flag : Bool)
    → touches k ≡ false
    → Known mode ks flag
    → Known mode (ks ++ (k ∷ [])) flag
Known-snoc mode ks k flag e (inl h) =
    inl (device_mode-snoc mode ks k ∙ mode_after_same k (device_mode mode ks) e ∙ h)
Known-snoc mode ks k flag e (inr (h, on)) = inr (Untouched-snoc ks k e h, on)

module _ {F : Type 0} where
  abbrev Agrees : ℕ → Sampling F → Type 0
  Agrees mode s = device_mode mode s.commands ≡ (if s.direct_sampling then 2 else 0)

  -- Besides, the flag is set exactly when the receiver was last sent below 24 MHz, or not yet.
  abbrev pub InMode : ℕ → Sampling F → Type 0
  InMode mode s =
      (s.direct_sampling ≡ ltb s.previous_freq 24_000_000) × Known mode s.commands s.direct_sampling

  abbrev SomeInMode : ℕ → Option (Sampling F) → Type 0
  SomeInMode mode none = Unit
  SomeInMode mode (some s) = InMode mode s

  abbrev TunedInMode : ℕ → Tuned F → Type 0
  TunedInMode mode failed = Unit
  TunedInMode mode (skip s) = InMode mode s
  TunedInMode mode (tuned s) = InMode mode s

module _ {F : Type 0} ⦃float : Float F⦄ (c : Context F) (a : Answers) (mode : ℕ) where
  -- The receiver was last sent to `freq`, and is in the mode for it.
  abbrev Switched : ℕ → Option (Sampling F) → Type 0
  Switched freq none = Unit
  Switched freq (some s') =
      Known mode s'.commands s'.direct_sampling
      × (s'.previous_freq ≡ freq)
      × (s'.direct_sampling ≡ ltb freq 24_000_000)

  leave_direct-Agrees :
      (freq : ℕ) (s : Sampling F)
      → s.previous_freq ≡ freq
      → 24_000_000 ≤ freq
      → Switched freq (leave_direct c a s)
  unfolding leave_direct
  leave_direct-Agrees freq s p h =
      if-both (Switched freq) (is_negative a.direct_result) (λ e. tt)
        (λ e.
          if-both (Switched freq) (is_negative a.gain_mode_result) (λ e. tt)
            (λ e.
              if-both (Switched freq) (is_negative a.gain_result) (λ e. tt)
                (λ e. (
                  inl (
                      rw
                        (
                          device_mode-snoc mode _ _,
                          device_mode-snoc mode _ _,
                          device_mode-snoc mode _ _,
                          device_mode-snoc mode s.commands (set_direct_sampling 0),
                        )
                        refl),
                  p,
                  ground arith,
                ))))

  enter_direct-Agrees :
      (freq : ℕ) (s : Sampling F)
      → s.previous_freq ≡ freq
      → freq < 24_000_000
      → Switched freq (enter_direct a s)
  unfolding enter_direct
  enter_direct-Agrees freq s p h =
      if-both (Switched freq) (is_negative a.direct_result) (λ e. tt)
        (λ e. (
          inl (
              rw
                (
                  device_mode-snoc mode _ _,
                  device_mode-snoc mode _ _,
                  device_mode-snoc mode s.commands (set_direct_sampling 2),
                )
                refl),
          p,
          ground arith,
        ))

  stays :
      (freq : ℕ) (flag : Bool)
      → (leb 24_000_000 freq && flag) ≡ false
      → (ltb freq 24_000_000 && not flag) ≡ false
      → flag ≡ ltb freq 24_000_000
  stays freq true e e' = ground arith
  stays freq false e e' = ground arith

  switch_direct-Agrees :
      (freq : ℕ) (s : Sampling F)
      → 0 < c.direct_sampling_mode
      → s.previous_freq ≡ freq
      → Known mode s.commands s.direct_sampling
      → Switched freq (switch_direct c a freq s)
  unfolding switch_direct
  switch_direct-Agrees freq s on p h =
      if-both (Switched freq) (ltb 0 c.direct_sampling_mode)
        (λ e.
          if-both (Switched freq) (leb 24_000_000 freq && s.direct_sampling)
            (λ high. leave_direct-Agrees freq s p (ground arith))
            (λ not_high.
              if-both (Switched freq) (ltb freq 24_000_000 && not s.direct_sampling)
                (λ low. enter_direct-Agrees freq s p (ground arith))
                (λ not_low. (h, p, stays freq s.direct_sampling not_high not_low))))
        (λ e. absurd (ground arith))

  set_center-InMode :
      (freq : ℕ) (s : Sampling F) → InMode mode s → TunedInMode mode (set_center a freq s)
  unfolding set_center
  set_center-InMode freq s h =
      let centred = Known-snoc mode s.commands (set_center_freq (freq % 2 ^ 32)) _ refl h.1 in
      if-both (TunedInMode mode) (is_zero a.center_result)
        (λ e. (h.0, Known-snoc mode _ reset_buffer _ refl centred)) (λ e. (h.0, centred))

  center_after :
      (freq : ℕ) (o : Option (Sampling F))
      → Switched freq o
      → TunedInMode mode (elim o [ none ↦ failed | some s' ↦ set_center a freq s' ])
  center_after freq none h = tt
  center_after freq (some s') (agrees, prev, flag) =
      set_center-InMode freq s' (flag ∙ ap (λ f. ltb f 24_000_000) (sym prev), agrees)

  tune_native-InMode :
      (freq : ℕ) (s : Sampling F)
      → 0 < c.direct_sampling_mode
      → s.previous_freq ≡ freq
      → Known mode s.commands s.direct_sampling
      → TunedInMode mode (tune_native c a freq s)
  unfolding tune_native
  tune_native-InMode freq s on p h =
      center_after freq (switch_direct c a freq s) (switch_direct-Agrees freq s on p h)

  tune-InMode :
      (freq : ℕ) (s : Sampling F)
      → 0 < c.direct_sampling_mode
      → InMode mode s
      → TunedInMode mode (tune false c a freq s)
  unfolding tune
  tune-InMode freq s on h =
      if-both (TunedInMode mode) (s.previous_freq == freq) (λ e. h)
        (λ e. tune_native-InMode freq (record s { previous_freq = freq }) on refl h.1)

  set_read_len-InMode : (s : Sampling F) → InMode mode s → InMode mode (set_read_len c s)
  unfolding set_read_len
  set_read_len-InMode s h =
      if-both (InMode mode) (s.fft_size == shift_one c.log2_fft_size) (λ e. h) (λ e. h)

  read_segments-InMode :
      (freq : ℕ) (s : Sampling F) → InMode mode s → InMode mode (read_segments c a freq s)
  unfolding read_segments
  read_segments-InMode freq s h =
      let (flag, known) = set_read_len-InMode s h in
      let s' = set_read_len c s in
      (flag, Known-snoc mode s'.commands (read_sync s'.slen) s'.direct_sampling refl known)

  read_after :
      (freq : ℕ) (t : Tuned F)
      → TunedInMode mode t
      → SomeInMode mode (elim t [
        | failed ↦ none
        | skip s' ↦ some s'
        | tuned s' ↦ some (read_segments c a freq s')
      ])
  read_after freq failed h = tt
  read_after freq (skip s') h = h
  read_after freq (tuned s') h = read_segments-InMode freq s' h

  tune_after :
      (s : Sampling F) (hop : Option (ℕ × SequentialHopping))
      → 0 < c.direct_sampling_mode
      → InMode mode s
      → SomeInMode mode (elim hop [
        | none ↦ none
        | some (freq, hopping) ↦
            elim (tune false c a freq (record s { hopping = hopping; must_invert = false })) [
              | failed ↦ none
              | skip s' ↦ some s'
              | tuned s' ↦ some (read_segments c a freq s')
            ]
      ])
  tune_after s none on h = tt
  tune_after s (some (freq, hopping)) on h =
      let s = record s { hopping = hopping; must_invert = false } in
      read_after freq (tune false c a freq s) (tune-InMode freq s on h)

  sync_round-InMode :
      (s : Sampling F)
      → 0 < c.direct_sampling_mode
      → InMode mode s
      → SomeInMode mode (sync_round false c a s)
  unfolding sync_round
  sync_round-InMode s on h = tune_after s (next_hop s.hopping) on h

module _ {F : Type 0} ⦃float : Float F⦄ (c : Context F) (mode : ℕ) where
  rounds_after :
      (answers : List Answers) (o : Option (Sampling F))
      → ((s : Sampling F) → InMode mode s → SomeInMode mode (sync_rounds false c answers s))
      → SomeInMode mode o
      → SomeInMode mode (elim o [ none ↦ none | some s' ↦ sync_rounds false c answers s' ])
  rounds_after answers none rest h = tt
  rounds_after answers (some s') rest h = rest s' h

  sync_rounds-SomeInMode :
      (answers : List Answers) (s : Sampling F)
      → 0 < c.direct_sampling_mode
      → InMode mode s
      → SomeInMode mode (sync_rounds false c answers s)
  unfolding sync_rounds
  sync_rounds-SomeInMode [] s on h = h
  sync_rounds-SomeInMode (a ∷ answers) s on h =
      if-both (SomeInMode mode) s.running
        (λ e.
          rounds_after answers (sync_round false c a s)
            (λ s' h'. sync_rounds-SomeInMode answers s' on h') (sync_round-InMode c a mode s on h))
        (λ e. h)

  -- Any number of rounds without a converter, from the start of the loop, in a configuration that
  -- allows direct sampling, whatever mode the dongle is in before: the flag is set exactly when the
  -- frequency that the receiver was last sent to is below 24 MHz (or it was sent to none), and it
  -- says what mode the dongle is in (2 for direct sampling, 0 without), unless it is set as at the
  -- start and no command about the mode has been given.
  pub sync_rounds-InMode :
      (answers : List Answers) (s' : Sampling F)
      → 0 < c.direct_sampling_mode
      → sync_rounds false c answers (sync_start c) ≡ some s'
      → InMode mode s'
  unfolding sync_start
  sync_rounds-InMode answers s' on e =
      subst (SomeInMode mode) e
        (sync_rounds-SomeInMode answers (sync_start c) on (refl, inr (tt, refl)))
