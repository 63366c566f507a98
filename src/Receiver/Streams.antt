-- ===== src/Receiver/Streams.antt =====
-- drivers/rtlsdr/rtlsdrDriver.cpp, lines 213 to 294: what the two queues hold after any number of
-- buffers.
use es_sensor.Prelude.{
  ℕ, suc, ◌+◌, ◌<◌, ◌≡◌, refl, sym, ap, ◌∙◌, true, List, [], ◌∷◌, ◌++◌, map, arith, if◌then◌else◌,
  if-both, length, take, codes, text_eq, ◌*◌, ◌&&◌, not, ltb, ◌==◌, Bool, false, Bool-cases, inl,
  inr,
}
use mathlib.Core.List.{append_assoc, append-nil}
use es_sensor.Prelude.Int.{ℤ, pos, negsuc, ◌+ℤ◌, ◌*ℤ◌, ◌≤ℤ◌, ltb_ℤ, int_laws}
use es_sensor.Numeric.{Float, is_zero}
use es_sensor.Context.{Context}
use es_sensor.Segment.{Segment, Timespec, of_bytes}
use es_sensor.Receiver.Async.{
  Reception, receive, callback, read_async, timespec_diff, IsNormal, nanoseconds, seconds_parts,
  timespec_diff-nanoseconds,
}
use mathlib.Core.Path.{subst}

-- The number of bytes in some buffers.
abbrev pub bytes : List (Timespec × List ℕ) → ℕ
bytes [] = 0
bytes ((time, buf) ∷ buffers) = length buf + bytes buffers

-- The times of some buffers are times of the clock, after its first second.
abbrev pub Clock : List (Timespec × List ℕ) → Type 0
Clock [] = Unit
Clock ((time, buf) ∷ buffers) = IsNormal time × (pos 1 ≤ℤ time.tv_sec) × Clock buffers

-- A duration is set, and in nanoseconds that much time has gone by since `start`.
abbrev pub is_over : ℕ → Timespec → Timespec → Bool
is_over duration start time =
    not (duration == 0)
    && not (ltb_ℤ (nanoseconds time) (nanoseconds start +ℤ pos (duration * 1_000_000_000)))

-- The number of buffers up to the first one at which the time is over, that one included.
abbrev pub received_count : ℕ → Timespec → List (Timespec × List ℕ) → ℕ
received_count duration start [] = 0
received_count duration start ((time, buf) ∷ buffers) =
    let rest = received_count duration start buffers in
    if is_over duration start time then 1 else suc rest

ltb_eq : (a b a' b' : ℕ) → (a < b → a' < b') → (a' < b' → a < b) → ltb a b ≡ ltb a' b'
ltb_eq a b a' b' h k = elim (Bool-cases (ltb a b)) [
  | inl e ↦ let lt = h (ground arith) in ground arith
  | inr e ↦ elim (Bool-cases (ltb a' b')) [
    | inl e' ↦ let lt = k (ground arith) in absurd (ground arith)
    | inr e' ↦ e ∙ sym e'
  ]
]

positive_lem : (x : ℤ) → pos 1 ≤ℤ x → is_zero x ≡ false
positive_lem x h = ground arith

sum_parts :
    (sec nsec start : ℤ) (duration : ℕ)
    → pos 0 ≤ℤ nsec
    → nsec ≤ℤ pos 999_999_999
    → ltb_ℤ sec (pos duration)
      ≡ ltb_ℤ (sec *ℤ pos 1_000_000_000 +ℤ nsec +ℤ start) (start +ℤ pos (duration * 1_000_000_000))
sum_parts sec nsec start duration low high =
    ltb_eq _ _ _ _ (λ h. omega (int_laws, seconds_parts)) (λ h. omega (int_laws, seconds_parts))

-- The callback looks at whole seconds; that is the same.
elapsed_lem :
    (start time : Timespec) (duration : ℕ)
    → IsNormal start
    → IsNormal time
    → (not (duration == 0) && not (ltb_ℤ (timespec_diff start time).tv_sec (pos duration)))
      ≡ is_over duration start time
elapsed_lem start time duration h k =
    let d = timespec_diff start time in
    let (normal, sum) = timespec_diff-nanoseconds start time h k in
    ap (λ b. not (duration == 0) && not b)
      (sum_parts d.tv_sec d.tv_nsec (nanoseconds start) duration normal.0 normal.1
        ∙ ap (λ n. ltb_ℤ n (nanoseconds start +ℤ pos (duration * 1_000_000_000))) sum)

module _ {F : Type 0} ⦃float : Float F⦄ (c : Context F) where
  -- The segment for a buffer received at the frequency `freq`.
  abbrev pub raw_segment : ℕ → Timespec × List ℕ → Segment F
  unfolding of_bytes
  raw_segment freq (time, buf) = of_bytes (negsuc 999) time freq c.sampling_rate buf

  -- `r'` is `r` after the buffers `taken` have been queued.
  pub record Received (taken : List (Timespec × List ℕ)) (r r' : Reception F) : Type 0 where
    pub first : r'.queue ≡ r.queue ++ map (raw_segment r.center_frequency) taken
    pub second : r'.queue2 ≡ r.queue2 ++ map (raw_segment r.center_frequency) taken
    pub count : r'.samples_read ≡ r.samples_read + bytes taken

  receive_decoder :
      (time : Timespec) (buf : List ℕ) (r : Reception F)
      → text_eq c.pipeline (codes "DEC") ≡ true
      → let s = raw_segment r.center_frequency (time, buf) in
        receive c time buf r
        ≡ record r { queue = r.queue ++ (s ∷ []); queue2 = r.queue2 ++ (s ∷ []) }
  unfolding receive
  receive_decoder time buf r e = rw (e) refl

  callback-Received :
      (time : Timespec) (buf : List ℕ) (r : Reception F)
      → text_eq c.pipeline (codes "DEC") ≡ true
      → Received ((time, buf) ∷ []) r (callback c time buf r)
        × ((callback c time buf r).center_frequency ≡ r.center_frequency)
        × ((callback c time buf r).duration ≡ r.duration)
  unfolding callback
  callback-Received time buf r e =
      rw
        (receive_decoder time buf
          (record r { init_time = if is_zero r.init_time.tv_sec then time else r.init_time }) e)
        (record { first = refl; second = refl; count = omega arith }, refl, refl)

  Received-cons :
      (b : Timespec × List ℕ) (bs : List (Timespec × List ℕ)) (r r' r'' : Reception F)
      → Received (b ∷ []) r r'
      → r'.center_frequency ≡ r.center_frequency
      → Received bs r' r''
      → Received (b ∷ bs) r r''
  Received-cons b bs r r' r'' one same rest =
      let segment = raw_segment r.center_frequency in
      let segments = map segment bs in
      record {
        first =
            rest.first
            ∙ ap (λ f. r'.queue ++ map (raw_segment f) bs) same
            ∙ ap (λ q. q ++ segments) one.first
            ∙ append_assoc r.queue (segment b ∷ []) segments;
        second =
            rest.second
            ∙ ap (λ f. r'.queue2 ++ map (raw_segment f) bs) same
            ∙ ap (λ q. q ++ segments) one.second
            ∙ append_assoc r.queue2 (segment b ∷ []) segments;
        count = let one = one.count in let rest = rest.count in omega arith;
      }

  Received-none : (r : Reception F) → Received [] r r
  Received-none r = record {
    first = sym (append-nil r.queue);
    second = sym (append-nil r.queue2);
    count = omega arith;
  }

  -- After the callback: where the time starts, and whether reception has been cancelled.
  callback_times :
      (time : Timespec) (buf : List ℕ) (r : Reception F) (start : Timespec)
      → text_eq c.pipeline (codes "DEC") ≡ true
      → (if is_zero r.init_time.tv_sec then time else r.init_time) ≡ start
      → IsNormal start
      → IsNormal time
      → r.cancelled ≡ false
      → ((callback c time buf r).init_time ≡ start)
        × ((callback c time buf r).cancelled ≡ is_over r.duration start time)
  unfolding callback
  callback_times time buf r start e at normal normal' on =
      rw
        (receive_decoder time buf
          (record r { init_time = if is_zero r.init_time.tv_sec then time else r.init_time }) e)
        (at, rw (at, on) (elapsed_lem start time r.duration normal normal'))

  read_async-cancelled :
      (buffers : List (Timespec × List ℕ)) (r : Reception F)
      → r.cancelled ≡ true
      → read_async c buffers r ≡ r
  unfolding read_async
  read_async-cancelled [] r e = refl
  read_async-cancelled ((time, buf) ∷ buffers) r e = rw (e) refl

  -- Where the time starts for the rest of the buffers.
  abbrev first_time : Timespec → List (Timespec × List ℕ) → Timespec
  first_time init [] = init
  first_time init ((time, buf) ∷ buffers) = if is_zero init.tv_sec then time else init

  first_time-set :
      (start : Timespec) (buffers : List (Timespec × List ℕ))
      → pos 1 ≤ℤ start.tv_sec
      → first_time start buffers ≡ start
  first_time-set start [] h = refl
  first_time-set start ((time, buf) ∷ buffers) h = rw (positive_lem start.tv_sec h) refl

  read_async-started :
      (buffers : List (Timespec × List ℕ)) (r : Reception F) (start : Timespec)
      → text_eq c.pipeline (codes "DEC") ≡ true
      → IsNormal start
      → pos 1 ≤ℤ start.tv_sec
      → first_time r.init_time buffers ≡ start
      → Clock buffers
      → r.cancelled ≡ false
      → Received (take (received_count r.duration start buffers) buffers) r (read_async c buffers r)
  unfolding read_async
  read_async-started [] r start e normal set at clock on = Received-none r
  read_async-started ((time, buf) ∷ buffers) r start e normal set at (normal', later, clock) on =
      let r' = callback c time buf r in
      let (one, same, duration) = callback-Received time buf r e in
      let (started, over) = callback_times time buf r start e at normal normal' on in
      let Stream : ℕ → Type 0 =
        λ n. Received (take n ((time, buf) ∷ buffers)) r (read_async c buffers r') in
      let all = (time, buf) ∷ buffers in
      if-both (Received (take (received_count r.duration start all) all) r) r.cancelled
        (λ off. absurd (ground arith))
        (λ _.
          if-both Stream (is_over r.duration start time)
            (λ now.
              subst (Received ((time, buf) ∷ []) r)
                (sym (read_async-cancelled buffers r' (over ∙ now))) one)
            (λ not_yet.
              Received-cons (time, buf) _ r r' _ one same
                (subst
                  (λ d.
                    Received (take (received_count d start buffers) buffers) r'
                      (read_async c buffers r'))
                  duration
                  (read_async-started buffers r' start e normal set
                    (ap (λ t. first_time t buffers) started ∙ first_time-set start buffers set)
                    clock (over ∙ not_yet)))))

  -- In the DEC pipeline, from a reception that has not started: both queues get the same segments,
  -- one for each buffer, in order and at the receiver's frequency, up to and with the first buffer
  -- that comes at least `duration` seconds after the first one, or for all buffers if there is none
  -- or no duration is set; the bytes of these buffers are counted. The times are times of the clock.
  pub read_async-Received :
      (time : Timespec) (buf : List ℕ) (buffers : List (Timespec × List ℕ)) (r : Reception F)
      → let all = (time, buf) ∷ buffers in
        text_eq c.pipeline (codes "DEC") ≡ true
        → is_zero r.init_time.tv_sec ≡ true
        → Clock all
        → r.cancelled ≡ false
        → Received (take (received_count r.duration time all) all) r (read_async c all r)
  read_async-Received time buf buffers r e fresh clock on =
      read_async-started ((time, buf) ∷ buffers) r time e clock.0 clock.1 (rw (fresh) refl) clock on
