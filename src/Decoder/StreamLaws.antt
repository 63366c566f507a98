-- ===== src/Decoder/StreamLaws.antt =====
-- MiscBlocks/IQStream.cpp: what a decoder that takes the samples as they are reads from its socket.
use mathlib.Core.List.{append_assoc, append-nil}
use es_sensor.Prelude.{
  ℕ, ◌≡◌, refl, ap, ◌∙◌, sym, Bool, Bool-cases, inl, inr, true, false, not, ◌||◌, ◌==◌, Option,
  none, some, List, [], ◌∷◌, ◌++◌, if◌then◌else◌, arith, length, take_all, All, All-append,
}
use es_sensor.Prelude.Int.{ℤ, pos, negsuc}
use es_sensor.Numeric.{Float, is_negative}
use es_sensor.Segment.{Segment}
use es_sensor.Sinks.Samples.{buffer_of}
use es_sensor.Decoder.Messages.{Header, message, read_messages}
use es_sensor.Decoder.MessageLaws.{Fits, read_message-message}
use es_sensor.Decoder.Stream.{
  Round, IqStream, Turn, goes_on, breaks, exits, accept_client, send_iq, deliver, turn, iq_loop,
}

abbrev pub has_client : Option ℤ → Bool
has_client none = false
has_client (some fd) = true

-- One message behind the other.
abbrev pub bytes_of : List (Header × List ℕ) → List ℕ
bytes_of [] = []
bytes_of ((h, iq) ∷ ds) = message h.center_frequency h.gain h.n_samples iq ++ bytes_of ds

abbrev pub Accepted : Option ℤ → Type 0
Accepted none = Unit
Accepted (some fd) = is_negative fd ≡ false

module _ {F : Type 0} where
  -- The header and the samples of the message for a segment.
  abbrev pub delivery : Round F → Segment F → Header × List ℕ
  delivery r segment = (
    record {
      center_frequency = r.min_freq;
      gain = r.gain_decoder;
      n_samples = length (buffer_of segment);
    },
    buffer_of segment,
  )

  abbrev pub pieces : Round F → Option (Segment F) → Bool → List (Header × List ℕ)
  pieces r none enabled = []
  pieces r (some segment) true = delivery r segment ∷ []
  pieces r (some segment) false = []

  abbrev pub enabled_after : Bool → List (Round F) → Bool
  enabled_after enabled [] = enabled
  enabled_after enabled (r ∷ rs) = enabled_after (enabled || has_client r.client) rs

  -- What is to be sent: a message for each segment that comes when a client is there.
  abbrev pub deliveries : Bool → List (Round F) → List (Header × List ℕ)
  deliveries enabled [] = []
  deliveries enabled (r ∷ rs) =
      let enabled' = enabled || has_client r.client in
      pieces r r.segment enabled' ++ deliveries enabled' rs

  abbrev pub Taken : Round F → Option (Segment F) → Type 0
  Taken r none = Unit
  Taken r (some segment) =
      Fits (delivery r segment).0 (buffer_of segment)
      × (r.send_result
          ≡ pos (
              length (
                message r.min_freq r.gain_decoder (length (buffer_of segment))
                  (buffer_of segment))))

  -- A turn while the block runs, with the decoder dump1090, in which no call fails, `sendmsg` takes the
  -- whole message, and the numbers fit into the header.
  pub record Ordinary (r : Round F) : Type 0 where
    pub running : r.running ≡ true
    pub before_send : r.running_before_send ≡ true
    pub dump1090 : r.decoder ≡ 3
    pub accepted : Accepted r.client
    pub taken : Taken r r.segment

  -- A turn in which `sendmsg` fails.
  pub record Broken (r : Round F) : Type 0 where
    pub running : r.running ≡ true
    pub before_send : r.running_before_send ≡ true
    pub after_send : r.running_after_send ≡ true
    pub dump1090 : r.decoder ≡ 3
    pub accepted : Accepted r.client
    pub segment : (segment : Segment F) × (r.segment ≡ some segment)
    pub fails : (e : ℕ) × (r.send_result ≡ negsuc e)

bytes_of-append :
    (ds es : List (Header × List ℕ)) → bytes_of (ds ++ es) ≡ bytes_of ds ++ bytes_of es
bytes_of-append [] es = refl
bytes_of-append ((h, iq) ∷ ds) es =
    ap (λ (t : List ℕ). message h.center_frequency h.gain h.n_samples iq ++ t)
      (bytes_of-append ds es)
    ∙ sym (
        append_assoc (message h.center_frequency h.gain h.n_samples iq) (bytes_of ds) (bytes_of es))

module _ {F : Type 0} ⦃float : Float F⦄ where
  accept_lem :
      (client : Option ℤ) (s : IqStream F)
      → Accepted client
      → accept_client client s
        ≡ some (record s { socket_enable = s.socket_enable || has_client client })
  unfolding accept_client
  accept_lem none s h = elim (Bool-cases s.socket_enable) [
    | inl on ↦ rw on refl
    | inr off ↦ rw off refl
  ]
  accept_lem (some fd) s h = elim (Bool-cases s.socket_enable) [
    | inl on ↦ rw on refl
    | inr off ↦ rw (off, h) refl
  ]

  deliver_lem :
      (r : Round F) (segment : Segment F) (s : IqStream F)
      → r.decoder ≡ 3
      → Taken r (some segment)
      → deliver r segment s
        ≡ goes_on (record s { sent = s.sent ++ bytes_of (delivery r segment ∷ []) })
  unfolding deliver send_iq
  deliver_lem r segment s dump (fits, taken) =
      let raw : (r.decoder == 3) ≡ true = ground arith in
      let bytes =
        message r.min_freq r.gain_decoder (length (buffer_of segment)) (buffer_of segment) in
      rw (raw, taken, take_all (length bytes) bytes (omega arith), append-nil bytes) refl

  unchanged_sent : (s : IqStream F) → goes_on s ≡ goes_on (record s { sent = s.sent ++ [] })
  unchanged_sent s = rw (append-nil s.sent) refl

  -- A turn behind the accepting of a client.
  abbrev body : Round F → Option (Segment F) → Bool → Bool → IqStream F → Turn F
  body r segment enabled before_send s = elim segment [
    | none ↦ goes_on s
    | some segment ↦
        if enabled then if not before_send then breaks s else deliver r segment s else goes_on s
  ]

  segment_after :
      (r : Round F) (segment : Option (Segment F)) (s : IqStream F) (enabled before_send : Bool)
      → r.decoder ≡ 3
      → before_send ≡ true
      → Taken r segment
      → body r segment enabled before_send s
        ≡ goes_on (record s { sent = s.sent ++ bytes_of (pieces r segment enabled) })
  segment_after r none s enabled before_send dump before taken = unchanged_sent s
  segment_after r (some segment) s true true dump before taken = deliver_lem r segment s dump taken
  segment_after r (some segment) s true false dump before taken = cc
  segment_after r (some segment) s false before_send dump before taken = unchanged_sent s

  -- The state behind some turns.
  abbrev pub state_after : List (Round F) → IqStream F → IqStream F
  state_after rs s = record s {
    socket_enable = enabled_after s.socket_enable rs;
    sent = s.sent ++ bytes_of (deliveries s.socket_enable rs);
  }

  abbrev one_after : Round F → IqStream F → IqStream F
  one_after r s =
      let enabled = s.socket_enable || has_client r.client in
      record s { socket_enable = enabled; sent = s.sent ++ bytes_of (pieces r r.segment enabled) }

  turn-body :
      (r : Round F) (s : IqStream F)
      → Accepted r.client
      → turn r s ≡ (
          let enabled = s.socket_enable || has_client r.client in
          body r r.segment enabled r.running_before_send (record s { socket_enable = enabled }))
  unfolding turn
  turn-body r s h =
      let rest : Option (IqStream F) → Turn F = λ a. elim a [
        | none ↦ exits
        | some s' ↦ body r r.segment s'.socket_enable r.running_before_send s'
      ] in
      ap rest (accept_lem r.client s h)

  turn_lem : (r : Round F) (s : IqStream F) → Ordinary r → turn r s ≡ goes_on (one_after r s)
  turn_lem r s o =
      let enabled = s.socket_enable || has_client r.client in
      turn-body r s o.accepted
      ∙ segment_after r r.segment (record s { socket_enable = enabled }) enabled
          r.running_before_send o.dump1090 o.before_send o.taken

  after_cons :
      (r : Round F) (rs : List (Round F)) (s : IqStream F)
      → state_after rs (one_after r s) ≡ state_after (r ∷ rs) s
  after_cons r rs s =
      let enabled = s.socket_enable || has_client r.client in
      let ps = pieces r r.segment enabled in
      let ds = deliveries enabled rs in
      ap (λ (t : List ℕ). record s { socket_enable = enabled_after enabled rs; sent = t })
        (append_assoc s.sent (bytes_of ps) (bytes_of ds)
          ∙ ap (λ (t : List ℕ). s.sent ++ t) (sym (bytes_of-append ps ds)))

  iq_loop-append :
      (rs more : List (Round F)) (s : IqStream F)
      → All Ordinary rs
      → iq_loop (rs ++ more) s ≡ iq_loop more (state_after rs s)
  unfolding iq_loop
  iq_loop-append [] more s h = ap (iq_loop more) (rw (append-nil s.sent) refl)
  iq_loop-append (r ∷ rs) more s (o, h) =
      rw (o.running, turn_lem r s o)
        (iq_loop-append rs more (one_after r s) h ∙ ap (iq_loop more) (after_cons r rs s))

abbrev FitsBoth : Header × List ℕ → Type 0
FitsBoth (h, iq) = Fits h iq

read_messages-bytes_of :
    (ds : List (Header × List ℕ))
    → All FitsBoth ds
    → read_messages (length ds) (bytes_of ds) ≡ some ds
read_messages-bytes_of [] h = refl
read_messages-bytes_of ((h, iq) ∷ ds) (fits, rest) =
    let then_rest : Option (Header × List ℕ × List ℕ) → Option (List (Header × List ℕ)) = λ o.
      elim o [
        | none ↦ none
        | some (h, iq, rest) ↦ elim (read_messages (length ds) rest) [
          | none ↦ none
          | some messages ↦ some ((h, iq) ∷ messages)
        ]
      ] in
    ap then_rest (read_message-message h iq (bytes_of ds) fits)
    ∙ ap
        (λ (o : Option (List (Header × List ℕ))).
          let r : Option (List (Header × List ℕ)) = elim o [
            | none ↦ none
            | some messages ↦ some ((h, iq) ∷ messages)
          ] in
          r)
        (read_messages-bytes_of ds rest)

module _ {F : Type 0} where
  pieces-Fits :
      (r : Round F) (segment : Option (Segment F)) (enabled : Bool)
      → Taken r segment
      → All FitsBoth (pieces r segment enabled)
  pieces-Fits r none enabled t = tt
  pieces-Fits r (some segment) true (fits, sent) = (fits, tt)
  pieces-Fits r (some segment) false t = tt

  deliveries-Fits :
      (enabled : Bool) (rs : List (Round F))
      → All Ordinary rs
      → All FitsBoth (deliveries enabled rs)
  deliveries-Fits enabled [] h = tt
  deliveries-Fits enabled (r ∷ rs) (o, h) =
      let enabled' = enabled || has_client r.client in
      All-append FitsBoth (pieces r r.segment enabled') (deliveries enabled' rs)
        (pieces-Fits r r.segment enabled' o.taken) (deliveries-Fits enabled' rs h)

module _ {F : Type 0} ⦃float : Float F⦄ where
  -- Over any turns in which no call fails, with the decoder dump1090: the block goes on, and what it
  -- has sent is read by the decoder as exactly one message for each segment that came once a client
  -- was there, in order, with the frequency and gain of its turn and its samples; segments before are
  -- dropped.
  pub iq_loop-deliveries :
      (rs : List (Round F)) (s : IqStream F)
      → All Ordinary rs
      → (iq_loop rs s ≡ some (state_after rs s))
        × (let ds = deliveries s.socket_enable rs in
            read_messages (length ds) (bytes_of ds) ≡ some ds)
  unfolding iq_loop
  iq_loop-deliveries rs s h = (
    ap (λ (l : List (Round F)). iq_loop l s) (sym (append-nil rs)) ∙ iq_loop-append rs [] s h,
    read_messages-bytes_of (deliveries s.socket_enable rs) (deliveries-Fits s.socket_enable rs h),
  )

  Broken-deliver :
      (r : Round F) (segment : Segment F) (s : IqStream F)
      → Broken r
      → deliver r segment s ≡ breaks (record s { decoder_state = false })
  unfolding deliver send_iq
  Broken-deliver r segment s b =
      let (e, fails) = b.fails in
      let raw : (r.decoder == 3) ≡ true = let d = b.dump1090 in ground arith in
      rw (raw, fails, b.after_send) refl

  Broken-turn :
      (r : Round F) (s : IqStream F)
      → Broken r
      → s.socket_enable || has_client r.client ≡ true
      → turn r s ≡ breaks (record s { socket_enable = true; decoder_state = false })
  Broken-turn r s b on =
      let (segment, found) = b.segment in
      let s' = record s { socket_enable = true } in
      turn-body r s b.accepted
      ∙ ap (λ (e : Bool). body r r.segment e r.running_before_send (record s { socket_enable = e }))
          on
      ∙ ap (λ (g : Option (Segment F)). body r g true r.running_before_send s') found
      ∙ ap (λ (e : Bool). body r (some segment) true e s') b.before_send
      ∙ Broken-deliver r segment s' b

  -- For dump1090, where `sendmsg` then fails while the block still runs, the loop ends there whatever
  -- would follow: nothing more is sent, and the decoder counts as dead.
  pub iq_loop-Broken :
      (rs rest : List (Round F)) (r : Round F) (s : IqStream F)
      → All Ordinary rs
      → Broken r
      → enabled_after s.socket_enable rs || has_client r.client ≡ true
      → iq_loop (rs ++ (r ∷ rest)) s
        ≡ some (record (state_after rs s) { socket_enable = true; decoder_state = false })
  unfolding iq_loop
  iq_loop-Broken rs rest r s h b on =
      iq_loop-append rs (r ∷ rest) s h ∙ rw (b.running, Broken-turn r (state_after rs s) b on) refl
