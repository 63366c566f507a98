-- ===== src/Sinks/Samples.antt =====
-- MiscBlocks/IQSink.cpp: raw samples to a file.
use es_sensor.Prelude.{
  ℕ, ◌+◌, ◌≡◌, sym, ◌∙◌, none, some, List, [], ◌∷◌, ◌++◌, arith, ◌==◌, if◌then◌else◌, length,
  length-append, ◌%◌, ◌^◌, ◌<◌,
}
use mathlib.Core.List.{append_assoc, append-nil}
use es_sensor.Segment.{Segment}
use es_sensor.Context.{output_type_byte, output_type_float}

-- The file, which holds bytes or numbers by the output type, and `samples_c`, by the 32 bits of the `int`.
pub record SampleFile (F : Type 0) : Type 0 where
  pub bytes : List ℕ
  pub floats : List F
  pub samples : ℕ

zero_count : (n : ℕ) → n < 2 ^ 32 → (n + 0) % 2 ^ 32 ≡ n
zero_count n h = omega arith

counted :
    {A : Type 0} (n : ℕ) (xs ys : List A)
    → ((n + length xs) % 2 ^ 32 + length ys) % 2 ^ 32 ≡ (n + length (xs ++ ys)) % 2 ^ 32
counted n xs ys = omega (arith, length-append xs ys)

module _ {F : Type 0} where
  -- A segment without a buffer has length 0.
  abbrev pub buffer_of : Segment F → List ℕ
  buffer_of s = elim s.samples [ none ↦ [] | some b ↦ b ]

  unfoldable pub write_samples : ℕ → Segment F → SampleFile F → SampleFile F
  write_samples output_type s f =
      if output_type == output_type_byte
      then (record f {
        bytes = f.bytes ++ buffer_of s;
        samples = (f.samples + length (buffer_of s)) % 2 ^ 32;
      })
      else if output_type == output_type_float
      then (record f {
        floats = f.floats ++ s.iq_time_v2;
        samples = (f.samples + length s.iq_time_v2) % 2 ^ 32;
      })
      else f

  unfoldable pub write_all : ℕ → List (Segment F) → SampleFile F → SampleFile F
  unfolding write_samples
  write_all output_type [] f = f
  write_all output_type (s ∷ ss) f = write_all output_type ss (write_samples output_type s f)

  abbrev pub all_bytes : List (Segment F) → List ℕ
  all_bytes [] = []
  all_bytes (s ∷ ss) = buffer_of s ++ all_bytes ss

  abbrev pub all_floats : List (Segment F) → List F
  all_floats [] = []
  all_floats (s ∷ ss) = s.iq_time_v2 ++ all_floats ss

  abbrev file : List ℕ → List F → ℕ → SampleFile F
  file bytes floats samples = record { bytes = bytes; floats = floats; samples = samples }

  -- The segments' samples stand in the file in order, behind what was there, and their
  -- number is added to the count modulo 2 ^ 32: bytes for the output type BYTE, numbers for FLOAT.
  pub write_all_lem :
      (ss : List (Segment F)) (f : SampleFile F)
      → f.samples < 2 ^ 32
      → (write_all output_type_byte ss f ≡ record f {
        bytes = f.bytes ++ all_bytes ss;
        samples = (f.samples + length (all_bytes ss)) % 2 ^ 32;
      })
        × (write_all output_type_float ss f ≡ record f {
          floats = f.floats ++ all_floats ss;
          samples = (f.samples + length (all_floats ss)) % 2 ^ 32;
        })
  unfolding write_all write_samples
  write_all_lem [] f small = (
    λ i. file (sym (append-nil f.bytes) i) f.floats (sym (zero_count f.samples small) i),
    λ i. file f.bytes (sym (append-nil f.floats) i) (sym (zero_count f.samples small) i),
  )
  write_all_lem (s ∷ ss) f small = (
    (write_all_lem ss (write_samples output_type_byte s f) (omega arith)).0 ∙ (λ i.
        file (append_assoc f.bytes (buffer_of s) (all_bytes ss) i) f.floats
          (counted f.samples (buffer_of s) (all_bytes ss) i)),
    (write_all_lem ss (write_samples output_type_float s f) (omega arith)).1 ∙ (λ i.
        file f.bytes (append_assoc f.floats s.iq_time_v2 (all_floats ss) i)
          (counted f.samples s.iq_time_v2 (all_floats ss) i)),
  )
