-- ===== src/Decoder/Messages.antt =====
-- MiscBlocks/IQStream.cpp, `sendIQSamples`: a header and the samples, as one message to the decoder.
use es_sensor.Prelude.{
  ℕ, zero, suc, Option, none, some, List, [], ◌∷◌, ◌++◌, take, drop, length, leb, ◌&&◌,
  if◌then◌else◌,
}
use es_sensor.Decoder.Bytes.{le_bytes, of_le}

-- `struct Header`
pub record Header : Type 0 where
  pub center_frequency : ℕ
  pub gain : ℕ
  pub n_samples : ℕ

unfoldable pub header_bytes : Header → List ℕ
unfolding le_bytes
header_bytes h = le_bytes 8 h.center_frequency ++ (le_bytes 4 h.gain ++ le_bytes 4 h.n_samples)

-- The two parts that `sendmsg` is given, one behind the other; `iq` holds `n_samples` bytes.
unfoldable pub message : ℕ → ℕ → ℕ → List ℕ → List ℕ
unfolding header_bytes
message center_frequency gain n_samples iq =
    header_bytes
      (record { center_frequency = center_frequency; gain = gain; n_samples = n_samples })
    ++ take n_samples iq

-- How a decoder reads: 16 bytes of header, then as many bytes as it says. `none` is a stream that ends
-- within a message.
unfoldable pub read_message : List ℕ → Option (Header × List ℕ × List ℕ)
read_message bytes =
    let h : Header = record {
      center_frequency = of_le (take 8 bytes);
      gain = of_le (take 4 (drop 8 bytes));
      n_samples = of_le (take 4 (drop 12 bytes));
    } in
    if leb 16 (length bytes) && leb h.n_samples (length (drop 16 bytes))
    then some (h, take h.n_samples (drop 16 bytes), drop h.n_samples (drop 16 bytes))
    else none

-- `count` messages one behind the other.
abbrev pub read_messages : ℕ → List ℕ → Option (List (Header × List ℕ))
read_messages zero [] = some []
read_messages zero (b ∷ bytes) = none
read_messages (suc count) bytes = elim (read_message bytes) [
  | none ↦ none
  | some (h, iq, rest) ↦ elim (read_messages count rest) [
    | none ↦ none
    | some messages ↦ some ((h, iq) ∷ messages)
  ]
]
