-- ===== src/Network/PacketLaws.antt =====
-- MiscBlocks/Transmission.cpp, lines 110 to 144: a collector that reads the stream of packets gets
-- every buffer back.
use es_sensor.Prelude.{
  ℕ, zero, suc, ◌+◌, ◌-◌, ◌*◌, ◌/◌, ◌%◌, ◌^◌, ◌<◌, ◌≡◌, refl, sym, ap, ◌∙◌, ◌⊎◌, inl, inr, Bool,
  true, false, Option, none, some, List, [], ◌∷◌, ◌++◌, arith, ltb, ◌==◌, ==_iff, if◌then◌else◌,
  if-both, ltb→lt, length, replicate, take, drop, length-append, length-replicate, take-append,
  drop-append, All,
}
use mathlib.Core.List.{append_assoc}
use es_sensor.Network.Packets.{
  htonl, payload_size, header, header_size, Framing, no_packet, resize, packet, frame,
}

-- Four bytes in network order.
abbrev word : ℕ → ℕ → ℕ → ℕ → ℕ
word a b c d = a * 2 ^ 24 + b * 2 ^ 16 + c * 2 ^ 8 + d

word-htonl :
    (n : ℕ)
    → n < 2 ^ 32
    → word (n / 2 ^ 24 % 2 ^ 8) (n / 2 ^ 16 % 2 ^ 8) (n / 2 ^ 8 % 2 ^ 8) (n % 2 ^ 8) ≡ n
word-htonl n h = omega arith

-- How a collector takes the next packet off the stream: the word with the size, the second word of
-- the PSD pipeline, the data, and the padding up to a multiple of 4.
abbrev take_data : ℕ → List ℕ → Option (List ℕ × List ℕ)
take_data size s =
    let padded = (size + 3) / 4 * 4 in
    if ltb (length s) padded then none else some (take size s, drop padded s)

abbrev read_packet : Bool → List ℕ → Option (List ℕ × List ℕ)
read_packet false (a ∷ b ∷ c ∷ d ∷ s) = take_data (word a b c d) s
read_packet true (a ∷ b ∷ c ∷ d ∷ e ∷ f ∷ g ∷ h ∷ s) = take_data (word a b c d) s
read_packet _ _ = none

-- The packets of some buffers in a row; `none` if one of them would not fit.
unfoldable pub frames : Bool → ℕ → List (List ℕ) → Framing → Option (List ℕ)
frames psd reduced [] f = some []
frames psd reduced (bytes ∷ more) f =
    let (f', o) = frame psd reduced bytes f in
    elim o [
      | none ↦ none
      | some p ↦ elim (frames psd reduced more f') [ none ↦ none | some ps ↦ some (p ++ ps) ]
    ]

unfoldable pub read_packets : Bool → ℕ → List ℕ → Option (List (List ℕ) × List ℕ)
read_packets psd zero s = some ([], s)
read_packets psd (suc n) s = elim (read_packet psd s) [
  | none ↦ none
  | some (bytes, rest) ↦ elim (read_packets psd n rest) [
    | none ↦ none
    | some (bs, r) ↦ some (bytes ∷ bs, r)
  ]
]

abbrev pub padded : ℕ → ℕ
padded n = (n + 3) / 4 * 4

-- The remembered size is right, or no packet has been made yet.
abbrev pub IsFraming : Bool → Framing → Type 0
IsFraming psd f =
    (f.prev_data_size ≡ 0) ⊎ (f.packet_size ≡ header_size psd + padded f.prev_data_size)

-- Buffers that are not empty, and whose packets' sizes fit in 32 bits.
abbrev pub Fits : List ℕ → Type 0
Fits bytes = (0 < length bytes) × (length bytes < 2 ^ 31)

abbrev pub framed : Bool → ℕ → List ℕ → List ℕ
framed psd reduced bytes =
    header psd reduced (length bytes) ++ bytes ++ replicate (padded (length bytes) - length bytes) 0

abbrev pub framing_of : Bool → ℕ → Framing
framing_of psd n = record { prev_data_size = n; packet_size = header_size psd + padded n }

abbrev pub framing_size : ℕ → ℕ → Framing
framing_size n k = record { prev_data_size = n; packet_size = k }

framing_eq :
    (f : Framing) (n k : ℕ) → f.prev_data_size ≡ n → f.packet_size ≡ k → f ≡ framing_size n k
framing_eq f n k e e' = λ i. framing_size (e i) (e' i)

remembered :
    (psd : Bool) (n : ℕ) (f : Framing)
    → IsFraming psd f
    → 0 < n
    → n ≡ f.prev_data_size
    → f.packet_size ≡ header_size psd + padded n
remembered psd n f (inl none_yet) p e = absurd (omega arith)
remembered psd n f (inr right) p e = right ∙ ap (λ k. header_size psd + padded k) (sym e)

new_size :
    (psd : Bool) (n : ℕ)
    → n < 2 ^ 31
    → (header_size psd + payload_size n) % 2 ^ 32 ≡ header_size psd + padded n
unfolding header_size payload_size
new_size true n small = omega arith
new_size false n small = omega arith

resize-Fits :
    (psd : Bool) (n : ℕ) (f : Framing)
    → IsFraming psd f
    → 0 < n
    → n < 2 ^ 31
    → resize psd n f ≡ framing_of psd n
unfolding resize payload_size header_size
resize-Fits psd n f h p small =
    if-both (λ (g : Framing). g ≡ framing_of psd n) (n == f.prev_data_size)
      (λ e.
        framing_eq f n _ (sym ((==_iff n f.prev_data_size).0 e))
          (remembered psd n f h p ((==_iff n f.prev_data_size).0 e)))
      (λ _. ap (λ k. framing_size n k) (new_size psd n small))

pub frame-Fits :
    (psd : Bool) (reduced : ℕ) (bytes : List ℕ) (f : Framing)
    → IsFraming psd f
    → Fits bytes
    → frame psd reduced bytes f ≡ (framing_of psd (length bytes), some (framed psd reduced bytes))
unfolding frame packet
frame-Fits psd reduced bytes f h (p, small) =
    ap (λ g. (g, packet psd reduced bytes g.packet_size))
      (resize-Fits psd (length bytes) f h p small)
    ∙ ap (λ o. (framing_of psd (length bytes), o))
        (if-both (λ (o : Option (List ℕ)). o ≡ some (framed psd reduced bytes))
          (ltb (header_size psd + padded (length bytes)) (header_size psd + length bytes))
          (λ bad. absurd (ground arith))
          (λ _.
            ap (λ k. some (header psd reduced (length bytes) ++ bytes ++ replicate k 0))
              (omega arith)))

take_data-padded :
    (bytes rest : List ℕ)
    → take_data (length bytes) (bytes ++ replicate (padded (length bytes) - length bytes) 0 ++ rest)
      ≡ some (bytes, rest)
take_data-padded bytes rest =
    let n = length bytes in
    let zeros : List ℕ = replicate (padded n - n) 0 in
    let whole : length (bytes ++ zeros) ≡ padded n =
      length-append bytes zeros
      ∙ ap (λ k. n + k) (length-replicate (padded n - n) 0)
      ∙ omega arith in
    let behind : drop (padded n) (bytes ++ zeros ++ rest) ≡ rest =
      ap (λ k. drop k (bytes ++ zeros ++ rest)) (sym whole) ∙ drop-append (bytes ++ zeros) rest in
    let front : take n (bytes ++ zeros ++ rest) ≡ bytes =
      ap (take n) (append_assoc bytes zeros rest) ∙ take-append bytes (zeros ++ rest) in
    if-both (λ (o : Option (List ℕ × List ℕ)). o ≡ some (bytes, rest))
      (ltb (length (bytes ++ zeros ++ rest)) (padded n))
      (λ bad. absurd (
        omega (
          arith,
          ltb→lt (length (bytes ++ zeros ++ rest)) (padded n) bad,
          length-append (bytes ++ zeros) rest,
        )))
      (λ _. λ i. some (front i, behind i))

read_packet-framed :
    (psd : Bool) (reduced : ℕ) (bytes rest : List ℕ)
    → length bytes < 2 ^ 31
    → read_packet psd (framed psd reduced bytes ++ rest) ≡ some (bytes, rest)
unfolding header htonl
read_packet-framed true reduced bytes rest small =
    ap (λ n. take_data n (bytes ++ replicate (padded (length bytes) - length bytes) 0 ++ rest))
      (word-htonl (length bytes) (omega arith))
    ∙ take_data-padded bytes rest
read_packet-framed false reduced bytes rest small =
    ap (λ n. take_data n (bytes ++ replicate (padded (length bytes) - length bytes) 0 ++ rest))
      (word-htonl (length bytes) (omega arith))
    ∙ take_data-padded bytes rest

pub frames-cons :
    (psd : Bool) (reduced : ℕ) (bytes ps : List ℕ) (more : List (List ℕ)) (f : Framing)
    → IsFraming psd f
    → Fits bytes
    → frames psd reduced more (framing_of psd (length bytes)) ≡ some ps
    → frames psd reduced (bytes ∷ more) f ≡ some (framed psd reduced bytes ++ ps)
unfolding frames
frames-cons psd reduced bytes ps more f h fits e =
    ap (λ (r : Framing × Option (List ℕ)). after_frame r.0 r.1)
      (frame-Fits psd reduced bytes f h fits)
    ∙ ap (λ o. elim o [ none ↦ none | some ps ↦ some (framed psd reduced bytes ++ ps) ]) e
  where
    after_frame : Framing → Option (List ℕ) → Option (List ℕ)
    after_frame f' o = elim o [
      | none ↦ none
      | some p ↦ elim (frames psd reduced more f') [ none ↦ none | some ps ↦ some (p ++ ps) ]
    ]

read_packets-cons :
    (psd : Bool) (n : ℕ) (s bytes rest r : List ℕ) (bs : List (List ℕ))
    → read_packet psd s ≡ some (bytes, rest)
    → read_packets psd n rest ≡ some (bs, r)
    → read_packets psd (suc n) s ≡ some (bytes ∷ bs, r)
unfolding read_packets
read_packets-cons psd n s bytes rest r bs e e' =
    ap
      (λ (o : Option (List ℕ × List ℕ)). elim o [
        | none ↦ none
        | some (bytes, rest) ↦ elim (read_packets psd n rest) [
          | none ↦ none
          | some (bs, r) ↦ some (bytes ∷ bs, r)
        ]
      ])
      e
    ∙ ap
        (λ (o : Option (List (List ℕ) × List ℕ)). elim o [
          | none ↦ none
          | some (bs, r) ↦ some (bytes ∷ bs, r)
        ])
        e'

abbrev Stream : Bool → ℕ → List (List ℕ) → List ℕ → Framing → Type 0
Stream psd reduced buffers rest f =
    (stream : List ℕ) × (frames psd reduced buffers f ≡ some stream)
    × (read_packets psd (length buffers) (stream ++ rest) ≡ some (buffers, rest))

frames-Stream :
    (psd : Bool) (reduced : ℕ) (buffers : List (List ℕ)) (rest : List ℕ) (f : Framing)
    → IsFraming psd f
    → All Fits buffers
    → Stream psd reduced buffers rest f
unfolding frames read_packets
frames-Stream psd reduced [] rest f h fits = ([], refl, refl)
frames-Stream psd reduced (bytes ∷ more) rest f h (fits, all_fit) =
    let (ps, e, e') =
      frames-Stream psd reduced more rest (framing_of psd (length bytes)) (inr refl) all_fit in
    (
      framed psd reduced bytes ++ ps,
      frames-cons psd reduced bytes ps more f h fits e,
      read_packets-cons psd (length more) (framed psd reduced bytes ++ ps ++ rest) bytes
          (ps ++ rest) rest more
          (ap (read_packet psd) (append_assoc (framed psd reduced bytes) ps rest)
            ∙ read_packet-framed psd reduced bytes (ps ++ rest) fits.1)
          e',
    )

-- The packets that `Transmission` makes of any buffers, sent one behind the other, are read back by a
-- collector that takes each packet's size from its first word: it gets exactly the buffers, in order,
-- and what follows the packets is left. The buffers are not empty and shorter than 2 ^ 31, and no
-- packet has been made before.
pub read_packets-frames :
    (psd : Bool) (reduced : ℕ) (buffers : List (List ℕ)) (rest : List ℕ)
    → All Fits buffers
    → (stream : List ℕ) × (frames psd reduced buffers no_packet ≡ some stream)
      × (read_packets psd (length buffers) (stream ++ rest) ≡ some (buffers, rest))
read_packets-frames psd reduced buffers rest fits =
    frames-Stream psd reduced buffers rest no_packet (inl refl) fits
