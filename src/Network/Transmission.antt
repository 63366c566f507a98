-- ===== src/Network/Transmission.antt =====
-- MiscBlocks/Transmission.cpp: the block that sends the segments' buffers to the collector.
use es_sensor.Prelude.{
  ℕ, ◌+◌, ◌%◌, ◌^◌, Bool, true, false, Option, none, some, List, [], ◌∷◌, ◌++◌, codes, text_eq,
  if◌then◌else◌,
}
use es_sensor.Prelude.Int.{ℤ, pos, negsuc}
use es_sensor.Numeric.{Float, shift_one}
use es_sensor.Context.{Context, make_odd, reduced}
use es_sensor.Segment.{Segment}
use es_sensor.Network.{Outcome, success}
use es_sensor.Network.Hosts.{ConnectionType, tcp, tls}
use es_sensor.Network.Packets.{Framing, no_packet, frame}

-- `mRunning`, which connections are open, the packet buffer, and the bytes written to the socket.
-- `broken` says that the loop was left after a failed write.
pub record Transmitter : Type 0 where
  pub running : Bool
  pub tls_con : Bool
  pub tcp_con : Bool
  pub framing : Framing
  pub output : List ℕ
  pub broken : Bool

abbrev pub new_transmitter : Transmitter
new_transmitter = record {
  running = true;
  tls_con = false;
  tcp_con = false;
  framing = no_packet;
  output = [];
  broken = false;
}

-- The `while` loop over `connect`'s answers: whether one of them is not negative, at which it ends.
unfoldable pub connect : List ℤ → Bool
connect [] = false
connect (negsuc e ∷ answers) = connect answers
connect (pos r ∷ answers) = true

-- `none` means that the connection is not there yet.
unfoldable pub check_connection : ConnectionType → List ℤ → Transmitter → Option Transmitter
unfolding connect
check_connection tls answers t =
    if t.tls_con
    then some t
    else if connect answers
    then some (record t { tls_con = true })
    else none
check_connection tcp answers t =
    if t.tcp_con
    then some t
    else if connect answers
    then some (record t { tcp_con = true })
    else none

-- A write and what became of it.
unfoldable pub write_packet : (List ℕ → Outcome × List ℕ) → List ℕ → Transmitter → Transmitter
write_packet write p t =
    let (result, out) = write p in
    let t = record t { output = t.output ++ out } in
    elim result [ success ↦ t | _ ↦ record t { running = false; broken = true } ]

module _ {F : Type 0} ⦃float : Float F⦄ where
  unfoldable pub reduced_bins : Context F → ℕ
  reduced_bins c = make_odd (reduced c ((shift_one c.log2_fft_size + 1) % 2 ^ 32))

  -- The body of the loop for a segment behind `checkConnection`, which is `check_connection` above and
  -- not part of it; `none` is a write past the packet's end, or a segment without a buffer.
  unfoldable pub transmit_one :
      Context F → (List ℕ → Outcome × List ℕ) → Segment F → Transmitter → Option Transmitter
  unfolding write_packet reduced_bins
  transmit_one c write s t = elim s.avro_buffer [
    | none ↦ none
    | some bytes ↦
        let (framing, p) =
          frame (text_eq c.pipeline (codes "PSD")) (reduced_bins c) bytes t.framing in
        elim p [
          | none ↦ none
          | some p ↦ some (write_packet write p (record t { framing = framing }))
        ]
  ]

  -- The loop over the segments that arrive, until a write fails.
  unfoldable pub transmit_all :
      Context F → (List ℕ → Outcome × List ℕ) → List (Segment F) → Transmitter → Option Transmitter
  unfolding transmit_one
  transmit_all c write [] t = some t
  transmit_all c write (s ∷ ss) t = elim (transmit_one c write s t) [
    | none ↦ none
    | some t' ↦ let rest = transmit_all c write ss t' in if t'.broken then some t' else rest
  ]
