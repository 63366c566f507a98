-- ===== src/Network/Delivery.antt =====
-- MiscBlocks/Transmission.cpp, `run`: what arrives at the collector.
use es_sensor.Prelude.{
  ℕ, ◌≡◌, refl, sym, ap, ◌∙◌, true, false, inl, inr, Option, none, some, List, [], ◌∷◌, ◌++◌, codes,
  text_eq, if◌then◌else◌, length, All,
}
use es_sensor.Numeric.{Float}
use mathlib.Core.List.{append_assoc, append-nil}
use es_sensor.Context.{Context}
use es_sensor.Segment.{Segment}
use es_sensor.Network.{Outcome, success}
use es_sensor.Network.Packets.{Framing, frame}
use es_sensor.Network.PacketLaws.{
  frames, framed, framing_of, frame-Fits, frames-cons, IsFraming, Fits, read_packets,
  read_packets-frames,
}
use mathlib.Core.Option.{some-injective}
use es_sensor.Network.Transmission.{
  Transmitter, new_transmitter, write_packet, reduced_bins, transmit_one, transmit_all,
}

write_packet-whole :
    (write : List ℕ → Outcome × List ℕ) (p : List ℕ) (t : Transmitter)
    → write p ≡ (success, p)
    → write_packet write p t ≡ record t { output = t.output ++ p }
unfolding write_packet
write_packet-whole write p t e =
    ap
      (λ (r : Outcome × List ℕ).
        let t = record t { output = t.output ++ r.1 } in
        elim r.0 [ success ↦ t | _ ↦ record t { running = false; broken = true } ])
      e

module _ {F : Type 0} ⦃float : Float F⦄ where
  abbrev pub Carries : List (Segment F) → List (List ℕ) → Type 0
  Carries [] [] = Unit
  Carries [] (b ∷ bs) = ⊥
  Carries (s ∷ ss) [] = ⊥
  Carries (s ∷ ss) (b ∷ bs) = (s.avro_buffer ≡ some b) × Carries ss bs

  transmit_one-Fits :
      (c : Context F) (write : List ℕ → Outcome × List ℕ) (s : Segment F) (bytes : List ℕ)
      (t : Transmitter)
      → let psd = text_eq c.pipeline (codes "PSD") in
        let p = framed psd (reduced_bins c) bytes in
        write p ≡ (success, p)
        → s.avro_buffer ≡ some bytes
        → IsFraming psd t.framing
        → Fits bytes
        → transmit_one c write s t
          ≡ some (record t { framing = framing_of psd (length bytes); output = t.output ++ p })
  unfolding transmit_one
  transmit_one-Fits c write s bytes t whole e framing fits =
      let psd = text_eq c.pipeline (codes "PSD") in
      let after : Framing × Option (List ℕ) → Option Transmitter = λ r. elim r.1 [
        | none ↦ none
        | some p ↦ some (write_packet write p (record t { framing = r.0 }))
      ] in
      ap
        (λ (o : Option (List ℕ)). elim o [
          | none ↦ none
          | some b ↦ after (frame psd (reduced_bins c) b t.framing)
        ])
        e
      ∙ ap after (frame-Fits psd (reduced_bins c) bytes t.framing framing fits)
      ∙ ap some
          (write_packet-whole write _ (record t { framing = framing_of psd (length bytes) }) whole)

  -- What has been sent.
  record Transmitted (c : Context F) (write : List ℕ → Outcome × List ℕ) (ss : List (Segment F))
      (buffers : List (List ℕ)) (t : Transmitter) : Type 0 where
    after : Transmitter
    stream : List ℕ
    result : transmit_all c write ss t ≡ some after
    framed_all :
        frames (text_eq c.pipeline (codes "PSD")) (reduced_bins c) buffers t.framing ≡ some stream
    output : after.output ≡ t.output ++ stream
    running : after.running ≡ t.running

  transmit_all-cons :
      (c : Context F) (write : List ℕ → Outcome × List ℕ) (s : Segment F) (ss : List (Segment F))
      (t t' t'' : Transmitter)
      → transmit_one c write s t ≡ some t'
      → t'.broken ≡ false
      → transmit_all c write ss t' ≡ some t''
      → transmit_all c write (s ∷ ss) t ≡ some t''
  unfolding transmit_all
  transmit_all-cons c write s ss t t' t'' e fine e' =
      ap
        (λ (o : Option Transmitter). elim o [
          | none ↦ none
          | some t' ↦ let rest = transmit_all c write ss t' in if t'.broken then some t' else rest
        ])
        e
      ∙ ap (λ b. if b then some t' else transmit_all c write ss t') fine
      ∙ e'

  run-Transmitted :
      (c : Context F) (write : List ℕ → Outcome × List ℕ) (ss : List (Segment F))
      (buffers : List (List ℕ)) (t : Transmitter)
      → ((p : List ℕ) → write p ≡ (success, p))
      → t.broken ≡ false
      → IsFraming (text_eq c.pipeline (codes "PSD")) t.framing
      → Carries ss buffers
      → All Fits buffers
      → Transmitted c write ss buffers t
  unfolding transmit_all frames
  run-Transmitted c write [] [] t whole fine framing carries fits = record {
    after = t;
    stream = [];
    result = refl;
    framed_all = refl;
    output = sym (append-nil t.output);
    running = refl;
  }
  run-Transmitted c write [] (b ∷ bs) t whole fine framing carries fits = elim carries [ ]
  run-Transmitted c write (s ∷ ss) [] t whole fine framing carries fits = elim carries [ ]
  run-Transmitted c write (s ∷ ss) (b ∷ bs) t whole fine framing (e, carries) (fits, all_fit) =
      let psd = text_eq c.pipeline (codes "PSD") in
      let p = framed psd (reduced_bins c) b in
      let t' : Transmitter = record t {
        framing = framing_of psd (length b);
        output = t.output ++ p;
      } in
      let rest = run-Transmitted c write ss bs t' whole fine (inr refl) carries all_fit in
      record {
        after = rest.after;
        stream = p ++ rest.stream;
        result =
            transmit_all-cons c write s ss t t' rest.after
              (transmit_one-Fits c write s b t (whole p) e framing fits) fine rest.result;
        framed_all =
            frames-cons psd (reduced_bins c) b rest.stream bs t.framing framing fits
              rest.framed_all;
        output = rest.output ∙ append_assoc t.output p rest.stream;
        running = rest.running;
      }

  -- From the segments to the collector: if every write goes through whole, and every segment carries
  -- a buffer that is not empty and shorter than 2 ^ 31, the block sends all of them and goes on
  -- running, and a collector that reads the bytes on the connection packet by packet gets exactly the
  -- segments' buffers, in order, and nothing is left over.
  pub transmit_all-read_packets :
      (c : Context F) (write : List ℕ → Outcome × List ℕ) (ss : List (Segment F))
      (buffers : List (List ℕ))
      → ((p : List ℕ) → write p ≡ (success, p))
      → Carries ss buffers
      → All Fits buffers
      → (t : Transmitter) × (transmit_all c write ss new_transmitter ≡ some t)
        × (t.running ≡ true)
        × (read_packets (text_eq c.pipeline (codes "PSD")) (length buffers) t.output
            ≡ some (buffers, []))
  transmit_all-read_packets c write ss buffers whole carries fits =
      let psd = text_eq c.pipeline (codes "PSD") in
      let r =
        run-Transmitted c write ss buffers new_transmitter whole refl (inl refl) carries fits in
      let (stream, e, e') = read_packets-frames psd (reduced_bins c) buffers [] fits in
      let same : r.stream ≡ stream = some-injective _ _ (sym r.framed_all ∙ e) in
      (
        r.after,
        r.result,
        r.running,
        ap (read_packets psd (length buffers)) (r.output ∙ same ∙ sym (append-nil stream)) ∙ e',
      )
