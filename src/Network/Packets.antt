-- ===== src/Network/Packets.antt =====
-- MiscBlocks/Transmission.cpp, lines 110 to 144: a segment's buffer becomes a packet.
use es_sensor.Prelude.{
  ℕ, ◌+◌, ◌-◌, ◌*◌, ◌/◌, ◌%◌, ◌^◌, Bool, Option, none, some, List, [], ◌∷◌, ◌++◌, ltb, ◌==◌,
  if◌then◌else◌, length, replicate,
}

-- The four bytes of `htonl(n)` as they stand in memory.
unfoldable pub htonl : ℕ → List ℕ
htonl n = n / 2 ^ 24 % 2 ^ 8 ∷ n / 2 ^ 16 % 2 ^ 8 ∷ n / 2 ^ 8 % 2 ^ 8 ∷ n % 2 ^ 8 ∷ []

-- `(data_size + 3) & ~0x03`, in `unsigned int`.
unfoldable pub payload_size : ℕ → ℕ
payload_size data_size = (data_size + 3) % 2 ^ 32 / 4 * 4

-- One word in front of the data, and a second one in the PSD pipeline.
unfoldable pub header : Bool → ℕ → ℕ → List ℕ
unfolding htonl
header psd reduced_fft_size data_size =
    if psd then htonl data_size ++ htonl reduced_fft_size else htonl data_size

unfoldable pub header_size : Bool → ℕ
header_size psd = if psd then 8 else 4

-- The buffer's size is computed anew only when the data's size has changed.
pub record Framing : Type 0 where
  pub prev_data_size : ℕ
  pub packet_size : ℕ

abbrev pub no_packet : Framing
no_packet = record { prev_data_size = 0; packet_size = 0 }

unfoldable pub resize : Bool → ℕ → Framing → Framing
unfolding payload_size header_size
resize psd data_size f = if data_size == f.prev_data_size then f else (record {
  prev_data_size = data_size;
  packet_size = (header_size psd + payload_size data_size) % 2 ^ 32;
})

-- The packet: zeros, with the header and the data copied over them. `none` is a write past the end of
-- the buffer.
unfoldable pub packet : Bool → ℕ → List ℕ → ℕ → Option (List ℕ)
unfolding header header_size
packet psd reduced_fft_size bytes packet_size =
    if ltb packet_size (header_size psd + length bytes)
    then none
    else some (
        header psd reduced_fft_size (length bytes)
        ++ bytes
        ++ replicate (packet_size - (header_size psd + length bytes)) 0)

-- One segment's bytes.
unfoldable pub frame : Bool → ℕ → List ℕ → Framing → Framing × Option (List ℕ)
unfolding resize packet
frame psd reduced_fft_size bytes f =
    let f = resize psd (length bytes) f in (f, packet psd reduced_fft_size bytes f.packet_size)
