-- ===== src/Decoder/MessageLaws.antt =====
-- MiscBlocks/IQStream.cpp, `sendIQSamples`: a decoder reads back what was sent.
use mathlib.Core.List.{append_assoc}
use es_sensor.Prelude.{
  ℕ, ◌+◌, ◌^◌, ◌<◌, ◌≡◌, refl, ap, ◌∙◌, sym, true, some, List, ◌++◌, take, drop, length, leb, arith,
  take-append, drop-append, take_all, length-append, drop-drop,
}
use es_sensor.Decoder.Bytes.{le_bytes, of_le, length-le_bytes, of_le-le_bytes}
use es_sensor.Decoder.Messages.{Header, header_bytes, message, read_message}

pub take_first : (n : ℕ) (xs ys : List ℕ) → length xs ≡ n → take n (xs ++ ys) ≡ xs
take_first n xs ys e = rw (← e) (take-append xs ys)

pub drop_first : (n : ℕ) (xs ys : List ℕ) → length xs ≡ n → drop n (xs ++ ys) ≡ ys
drop_first n xs ys e = rw (← e) (drop-append xs ys)

-- Numbers that fit into the header.
pub record Fits (h : Header) (iq : List ℕ) : Type 0 where
  pub center : h.center_frequency < 2 ^ 64
  pub gain : h.gain < 2 ^ 32
  pub size : h.n_samples < 2 ^ 32
  pub whole : length iq ≡ h.n_samples

read_parts :
    (a b c iq rest : List ℕ)
    → length a ≡ 8
    → length b ≡ 4
    → length c ≡ 4
    → of_le c ≡ length iq
    → read_message (a ++ (b ++ (c ++ (iq ++ rest))))
      ≡ some (record { center_frequency = of_le a; gain = of_le b; n_samples = of_le c }, iq, rest)
unfolding read_message
read_parts a b c iq rest ha hb hc hn =
    let bytes = a ++ (b ++ (c ++ (iq ++ rest))) in
    let d8 : drop 8 bytes ≡ b ++ (c ++ (iq ++ rest)) = drop_first 8 a _ ha in
    let d12 : drop 12 bytes ≡ c ++ (iq ++ rest) =
      sym (drop-drop 4 8 bytes) ∙ ap (drop 4) d8 ∙ drop_first 4 b _ hb in
    let d16 : drop 16 bytes ≡ iq ++ rest =
      sym (drop-drop 4 12 bytes) ∙ ap (drop 4) d12 ∙ drop_first 4 c _ hc in
    let t8 : take 8 bytes ≡ a = take_first 8 a _ ha in
    let t12 : take 4 (drop 8 bytes) ≡ b = ap (take 4) d8 ∙ take_first 4 b _ hb in
    let t16 : take 4 (drop 12 bytes) ≡ c = ap (take 4) d12 ∙ take_first 4 c _ hc in
    let size : length bytes ≡ 16 + length (iq ++ rest) =
      length-append a (b ++ (c ++ (iq ++ rest)))
      ∙ omega (arith, length-append b (c ++ (iq ++ rest)), length-append c (iq ++ rest)) in
    let enough : leb 16 (length bytes) ≡ true = ground arith in
    let all_there : leb (of_le c) (length (iq ++ rest)) ≡ true =
      ground (arith, length-append iq rest) in
    let payload : take (of_le c) (iq ++ rest) ≡ iq = take_first (of_le c) iq rest (sym hn) in
    let remainder : drop (of_le c) (iq ++ rest) ≡ rest = drop_first (of_le c) iq rest (sym hn) in
    rw (t8, t12, t16, d16, enough, all_there, payload, remainder) refl

message-parts :
    (h : Header) (iq rest : List ℕ)
    → length iq ≡ h.n_samples
    → message h.center_frequency h.gain h.n_samples iq ++ rest
      ≡ le_bytes 8 h.center_frequency
        ++ (le_bytes 4 h.gain ++ (le_bytes 4 h.n_samples ++ (iq ++ rest)))
unfolding message header_bytes
message-parts h iq rest e =
    let a = le_bytes 8 h.center_frequency in
    let b = le_bytes 4 h.gain in
    let c = le_bytes 4 h.n_samples in
    ap (λ (t : List ℕ). ((a ++ (b ++ c)) ++ t) ++ rest) (take_all h.n_samples iq (omega arith))
    ∙ append_assoc (a ++ (b ++ c)) iq rest
    ∙ append_assoc a (b ++ c) (iq ++ rest)
    ∙ ap (λ (t : List ℕ). a ++ t) (append_assoc b c (iq ++ rest))

pub read_message-message :
    (h : Header) (iq rest : List ℕ)
    → Fits h iq
    → read_message (message h.center_frequency h.gain h.n_samples iq ++ rest) ≡ some (h, iq, rest)
read_message-message h iq rest fits =
    let a = of_le-le_bytes 8 h.center_frequency (fits.center) in
    let b = of_le-le_bytes 4 h.gain (fits.gain) in
    let c = of_le-le_bytes 4 h.n_samples (fits.size) in
    ap read_message (message-parts h iq rest fits.whole)
    ∙ read_parts (le_bytes 8 h.center_frequency) (le_bytes 4 h.gain) (le_bytes 4 h.n_samples) iq
        rest (length-le_bytes 8 h.center_frequency) (length-le_bytes 4 h.gain)
        (length-le_bytes 4 h.n_samples) (c ∙ sym fits.whole)
    ∙ rw (a, b, c) refl
