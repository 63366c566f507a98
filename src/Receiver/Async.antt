-- ===== src/Receiver/Async.antt =====
-- drivers/rtlsdr/rtlsdrDriver.cpp, lines 168 to 335: the asynchronous reception of the IQ and DEC
-- pipelines.
use es_sensor.Prelude.{
  ℕ, ◌+◌, ◌*◌, ◌<◌, ◌≡◌, refl, ap, ◌↔◌, inl, inr, Bool, true, false, not, ◌&&◌, ◌||◌, List, [], ◌∷◌,
  ◌++◌, arith, ◌==◌, if◌then◌else◌, if-both, Bool-cases, length, codes, text_eq,
}
use es_sensor.Prelude.Int.{
  ℤ, pos, negsuc, pos_part, neg_part, ◌+ℤ◌, ◌-ℤ◌, ◌*ℤ◌, ◌≤ℤ◌, ltb_ℤ, int_laws,
}
use es_sensor.Numeric.{Float, is_negative, is_zero}
use es_sensor.Context.{Context}
use es_sensor.Segment.{Segment, Timespec, Complex, of_iq, of_bytes}

unfoldable pub timespec_diff : Timespec → Timespec → Timespec
unfolding ◌+ℤ◌ ◌-ℤ◌
timespec_diff start stop =
    if is_negative (stop.tv_nsec -ℤ start.tv_nsec)
    then (record {
      tv_sec = stop.tv_sec -ℤ start.tv_sec -ℤ pos 1;
      tv_nsec = stop.tv_nsec -ℤ start.tv_nsec +ℤ pos 1_000_000_000;
    })
    else (record { tv_sec = stop.tv_sec -ℤ start.tv_sec; tv_nsec = stop.tv_nsec -ℤ start.tv_nsec })

-- A time as the clock gives it.
abbrev pub IsNormal : Timespec → Type 0
IsNormal t = (pos 0 ≤ℤ t.tv_nsec) × (t.tv_nsec ≤ℤ pos 999_999_999)

-- The time in nanoseconds.
abbrev pub nanoseconds : Timespec → ℤ
nanoseconds t = t.tv_sec *ℤ pos 1_000_000_000 +ℤ t.tv_nsec

pub seconds_parts :
    (a : ℤ)
    → pos_part (a *ℤ pos 1_000_000_000) + neg_part a * 1_000_000_000
      ≡ neg_part (a *ℤ pos 1_000_000_000) + pos_part a * 1_000_000_000
unfolding ◌*ℤ◌
seconds_parts a = ground arith

-- A borrow moves one second into the nanoseconds.
borrow :
    (s n s' n' : ℤ)
    → (s' -ℤ s -ℤ pos 1) *ℤ pos 1_000_000_000
        +ℤ (n' -ℤ n +ℤ pos 1_000_000_000)
        +ℤ (s *ℤ pos 1_000_000_000 +ℤ n)
      ≡ s' *ℤ pos 1_000_000_000 +ℤ n'
borrow s n s' n' = omega (int_laws, seconds_parts)

no_borrow :
    (s n s' n' : ℤ)
    → (s' -ℤ s) *ℤ pos 1_000_000_000 +ℤ (n' -ℤ n) +ℤ (s *ℤ pos 1_000_000_000 +ℤ n)
      ≡ s' *ℤ pos 1_000_000_000 +ℤ n'
no_borrow s n s' n' = omega (int_laws, seconds_parts)

negative_parts : (a : ℤ) → is_negative a ≡ true → (pos_part a ≡ 0) × (0 < neg_part a)
negative_parts a e = ground arith

nonnegative_parts : (a : ℤ) → is_negative a ≡ false → neg_part a ≡ 0
nonnegative_parts a e = ground arith

-- The difference of two times of the clock is again in normal form, and it is the difference in
-- nanoseconds.
pub timespec_diff-nanoseconds :
    (start stop : Timespec)
    → IsNormal start
    → IsNormal stop
    → IsNormal (timespec_diff start stop)
      × (nanoseconds (timespec_diff start stop) +ℤ nanoseconds start ≡ nanoseconds stop)
unfolding timespec_diff
timespec_diff-nanoseconds start stop h k =
    let d = stop.tv_nsec -ℤ start.tv_nsec in
    if-both (λ t. IsNormal t × (nanoseconds t +ℤ nanoseconds start ≡ nanoseconds stop))
      (is_negative d)
      (λ e.
        let low = negative_parts d e in
        (
          (omega int_laws, omega int_laws),
          borrow start.tv_sec start.tv_nsec stop.tv_sec stop.tv_nsec,
        ))
      (λ e.
        let high = nonnegative_parts d e in
        (
          (omega int_laws, omega int_laws),
          no_borrow start.tv_sec start.tv_nsec stop.tv_sec stop.tv_nsec,
        ))

-- What `callback_package_t` and the two queues hold, and whether reception has been cancelled.
pub record Reception (F : Type 0) : Type 0 where
  pub center_frequency : ℕ
  pub duration : ℕ
  pub samples_read : ℕ
  pub init_time : Timespec
  pub queue : List (Segment F)
  pub queue2 : List (Segment F)
  pub cancelled : Bool

module _ {F : Type 0} ⦃float : Float F⦄ where
  -- The loop over the bytes of the last branch; a missing last byte counts as 0 here.
  unfoldable pub byte_pairs : List ℕ → List (Complex F)
  byte_pairs [] = []
  byte_pairs (x ∷ []) = record { real = float.of_nat x; imag = float.of_nat 0 } ∷ []
  byte_pairs (x ∷ y ∷ buf) =
      record { real = float.of_nat x; imag = float.of_nat y } ∷ byte_pairs buf

  -- The segments for one buffer, by the pipeline's name.
  unfoldable pub receive : Context F → Timespec → List ℕ → Reception F → Reception F
  unfolding byte_pairs of_iq of_bytes
  receive c time buf r =
      let raw = of_bytes (negsuc 999) time r.center_frequency c.sampling_rate buf in
      if text_eq c.pipeline (codes "DEC")
      then record r { queue = r.queue ++ (raw ∷ []); queue2 = r.queue2 ++ (raw ∷ []) }
      else if text_eq c.pipeline (codes "IQ")
      then record r { queue = r.queue ++ (raw ∷ []) }
      else (record r {
        queue =
            r.queue
            ++ (of_iq (negsuc 999) time r.center_frequency c.sampling_rate (byte_pairs buf) ∷ []);
      })

  -- `capbuf_rtlsdr_callback` at the time `time`.
  unfoldable pub callback : Context F → Timespec → List ℕ → Reception F → Reception F
  unfolding receive timespec_diff
  callback c time buf r =
      let start = if is_zero r.init_time.tv_sec then time else r.init_time in
      let r = receive c time buf (record r { init_time = start }) in
      let elapsed = (timespec_diff start time).tv_sec in
      record r {
        samples_read = r.samples_read + length buf;
        cancelled = r.cancelled || (not (r.duration == 0) && not (ltb_ℤ elapsed (pos r.duration)));
      }

  -- `rtlsdr_read_async`: one call of the callback for each buffer, until reception is cancelled.
  unfoldable pub read_async : Context F → List (Timespec × List ℕ) → Reception F → Reception F
  unfolding callback
  read_async c [] r = r
  read_async c ((time, buf) ∷ buffers) r =
      let rest = read_async c buffers (callback c time buf r) in if r.cancelled then r else rest

-- What `aux_thread` does before it reads, for a start time and the time of the clock.
pub data Wait : Type 0 where
  at_once : Wait
  in_the_past : Wait
  until : ℕ → Wait

unfoldable pub start_wait : ℕ → Timespec → Wait
unfolding timespec_diff
start_wait start now =
    if start == 0
    then at_once
    else (let diff = timespec_diff now (record { tv_sec = pos start; tv_nsec = pos 0 }) in
        if is_negative diff.tv_sec || is_negative diff.tv_nsec then in_the_past else until start)

abbrev pub start_of : ℕ → Timespec
start_of start = record { tv_sec = pos start; tv_nsec = pos 0 }

-- The sign of a difference in normal form is that of its seconds.
late :
    (s n now start : ℤ)
    → pos 0 ≤ℤ n
    → n ≤ℤ pos 999_999_999
    → s *ℤ pos 1_000_000_000 +ℤ n +ℤ now ≡ start
    → (is_negative s || is_negative n) ≡ true
    → start +ℤ pos 1 ≤ℤ now
late s n now start low high sum e = elim (Bool-cases (is_negative s)) [
  | inl e' ↦
      let parts = negative_parts s e' in
      let eq = ap (λ x. pos_part x + neg_part start) sum in
      let eq' = ap (λ x. neg_part x + pos_part start) sum in omega (int_laws, seconds_parts)
  | inr e' ↦ let parts = negative_parts n (ground arith) in absurd (omega arith)
]

in_time :
    (s n now start : ℤ)
    → s *ℤ pos 1_000_000_000 +ℤ n +ℤ now ≡ start
    → (is_negative s || is_negative n) ≡ false
    → now ≤ℤ start
in_time s n now start sum e =
    let parts = nonnegative_parts s (ground arith) in
    let parts' = nonnegative_parts n (ground arith) in
    let eq = ap (λ x. pos_part x + neg_part start) sum in
    let eq' = ap (λ x. neg_part x + pos_part start) sum in omega (int_laws, seconds_parts)

-- With a start time set, the thread gives up exactly when the clock has passed it, and else sleeps
-- until then.
pub start_wait_iff :
    (start : ℕ) (now : Timespec)
    → IsNormal now
    → 0 < start
    → ((start_wait start now ≡ in_the_past)
        ↔ (nanoseconds (start_of start) +ℤ pos 1 ≤ℤ nanoseconds now))
      × ((start_wait start now ≡ until start) ↔ (nanoseconds now ≤ℤ nanoseconds (start_of start)))
unfolding start_wait
start_wait_iff start now h p =
    let start' = start_of start in
    let d = timespec_diff now start' in
    let (normal, sum) = timespec_diff-nanoseconds now start' h (omega arith, omega arith) in
    let Fits : Wait → Type 0 = λ w.
      ((w ≡ in_the_past) ↔ (nanoseconds start' +ℤ pos 1 ≤ℤ nanoseconds now))
      × ((w ≡ until start) ↔ (nanoseconds now ≤ℤ nanoseconds start')) in
    if-both Fits (start == 0) (λ e. absurd (ground arith))
      (λ _.
        if-both Fits (is_negative d.tv_sec || is_negative d.tv_nsec)
          (λ e.
            let after = late d.tv_sec d.tv_nsec _ _ normal.0 normal.1 sum e in
            ((λ _. after, λ _. refl), (λ w. cc, λ before. absurd (omega int_laws))))
          (λ e.
            let before = in_time d.tv_sec d.tv_nsec _ _ sum e in
            ((λ w. cc, λ after. absurd (omega int_laws)), (λ _. before, λ _. refl))))
