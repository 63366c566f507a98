-- ===== src/Decoder/SpectrumLaws.antt =====
-- ProcessingBlocks/PSDFast.cpp: the datagram says what it holds.
use es_sensor.Prelude.{
  ℕ, suc, ◌+◌, ◌-◌, ◌%◌, ◌^◌, ◌≡◌, refl, ap, ◌∙◌, sym, Option, none, some, List, [], ◌∷◌, ◌++◌, map,
  length, take, drop, length-append, drop-drop, arith, zero, replicate,
}
use es_sensor.Numeric.{Float}
use es_sensor.Segment.{Complex}
use es_sensor.Decoder.Bytes.{le_bytes, of_le, length-le_bytes, of_le-le_bytes}
use es_sensor.Decoder.MessageLaws.{take_first, drop_first}
use es_sensor.Decoder.Spectrum.{prepare, power_of, spectrum, datagram, overwrite, write_at, copy_to}
use mathlib.Core.List.{append_assoc, append-nil}

length-map {ℓ κ} :
    {A : Type ℓ} {B : Type κ} (f : A → B) (xs : List A) → length (map f xs) ≡ length xs
length-map f [] = refl
length-map f (x ∷ xs) = ap suc (length-map f xs)

overwrite-zeros :
    (bytes : List ℕ) (m rest : ℕ)
    → m ≡ length bytes + rest
    → overwrite bytes (replicate m 0) ≡ some (bytes ++ replicate rest 0)
unfolding overwrite
overwrite-zeros [] m rest e =
    let same : m ≡ rest = omega arith in ap (λ (n : ℕ). some (replicate n 0)) same
overwrite-zeros (x ∷ xs) zero rest e = absurd (omega arith)
overwrite-zeros (x ∷ xs) (suc m) rest e = rw (overwrite-zeros xs m rest (omega arith)) refl

-- Behind what has been written stand zeros, and the next bytes go right behind it.
write_at-next :
    (bytes done : List ℕ) (m rest : ℕ)
    → m ≡ length bytes + rest
    → write_at (length done) bytes (done ++ replicate m 0)
      ≡ some ((done ++ bytes) ++ replicate rest 0)
unfolding write_at
write_at-next bytes [] m rest e = overwrite-zeros bytes m rest e
write_at-next bytes (x ∷ done) m rest e = rw (write_at-next bytes done m rest e) refl

copy_to-next :
    (n : ℕ) (bytes done : List ℕ) (m rest : ℕ)
    → length done ≡ n
    → m ≡ length bytes + rest
    → copy_to n bytes (some (done ++ replicate m 0)) ≡ some ((done ++ bytes) ++ replicate rest 0)
unfolding copy_to
copy_to-next n bytes done m rest size e =
    ap (λ k. write_at k bytes (done ++ replicate m 0)) (sym size)
    ∙ write_at-next bytes done m rest e

module _ {F : Type 0} ⦃float : Float F⦄ (hamming : ℕ → ℕ → F)
    (fft_execute : ℕ → List (Complex F) → List (Complex F))
    (fft_shift : List (Complex F) → List (Complex F)) (double_bytes : F → List ℕ)
    (char_of : F → ℕ) where
  -- The length of what the liquid library gives, and of a `double`.
  pub record Sizes : Type 0 where
    pub fft : (n : ℕ) (xs : List (Complex F)) → length (fft_execute n xs) ≡ n
    pub shift : (xs : List (Complex F)) → length (fft_shift xs) ≡ length xs
    pub double : (x : F) → length (double_bytes x) ≡ 8

  spectrum-length :
      (buf power : List ℕ)
      → Sizes
      → spectrum hamming fft_execute fft_shift double_bytes char_of buf ≡ some power
      → length power ≡ 512
  unfolding spectrum
  spectrum-length buf power sizes =
      found (prepare hamming fft_execute fft_shift double_bytes char_of 512 buf)
    where
      value : Complex F → ℕ
      value = power_of hamming fft_execute fft_shift double_bytes char_of

      found :
          (o : Option (List (Complex F)))
          → elim o [
            | none ↦ none
            | some signal ↦ some (map value (fft_shift (fft_execute 512 signal)))
          ]
            ≡ some power
          → length power ≡ 512
      found none e = cc
      found (some signal) e =
          let same : map value (fft_shift (fft_execute 512 signal)) ≡ power = cc in
          ap length (sym same)
          ∙ length-map value (fft_shift (fft_execute 512 signal))
          ∙ sizes.shift (fft_execute 512 signal)
          ∙ sizes.fft 512 signal

  datagram-body :
      (center_freq : ℕ) (power : List ℕ)
      → Sizes
      → length power ≡ 512
      → let low = double_bytes (float.of_nat ((center_freq + 2 ^ 64 - 1_200_000) % 2 ^ 64)) in
        let high = double_bytes (float.of_nat ((center_freq + 1_200_000) % 2 ^ 64)) in
        datagram hamming fft_execute fft_shift double_bytes char_of center_freq power
        ≡ some (1 ∷ (low ++ (high ++ (le_bytes 4 512 ++ power))))
  unfolding datagram
  datagram-body center_freq power sizes len =
      let low = double_bytes (float.of_nat ((center_freq + 2 ^ 64 - 1_200_000) % 2 ^ 64)) in
      let high = double_bytes (float.of_nat ((center_freq + 1_200_000) % 2 ^ 64)) in
      let count = le_bytes 4 512 in
      let l8 : length low ≡ 8 = sizes.double _ in
      let h8 : length high ≡ 8 = sizes.double _ in
      let c4 : length count ≡ 4 = length-le_bytes 4 512 in
      let d1 : List ℕ = 1 ∷ low in
      let d2 : List ℕ = d1 ++ high in
      let d3 : List ℕ = d2 ++ count in
      let s1 : length d1 ≡ 1 + 8 = omega arith in
      let s2 : length d2 ≡ 1 + 8 + 8 = length-append d1 high ∙ omega arith in
      let s3 : length d3 ≡ 1 + 8 + 8 + 4 = length-append d2 count ∙ omega arith in
      let after1 : Option (List ℕ) → Option (List ℕ) = λ o.
        copy_to (1 + 8 + 8 + 4) power
          (copy_to (1 + 8 + 8) count (copy_to (1 + 8) high (copy_to 1 low o))) in
      let after2 : Option (List ℕ) → Option (List ℕ) =
        λ o. copy_to (1 + 8 + 8 + 4) power (copy_to (1 + 8 + 8) count (copy_to (1 + 8) high o)) in
      let after3 : Option (List ℕ) → Option (List ℕ) =
        λ o. copy_to (1 + 8 + 8 + 4) power (copy_to (1 + 8 + 8) count o) in
      ap after1 (copy_to-next 0 (1 ∷ []) [] 533 532 refl (omega arith))
      ∙ ap after2 (copy_to-next 1 low (1 ∷ []) 532 524 refl (omega arith))
      ∙ ap after3 (copy_to-next (1 + 8) high d1 524 516 s1 (omega arith))
      ∙ ap (copy_to (1 + 8 + 8 + 4) power)
          (copy_to-next (1 + 8 + 8) count d2 516 512 s2 (omega arith))
      ∙ copy_to-next (1 + 8 + 8 + 4) power d3 512 0 s3 (omega arith)
      ∙ ap some (
          append-nil (d3 ++ power)
          ∙ append_assoc d2 count power
          ∙ append_assoc d1 high (count ++ power))

  -- Where the transform keeps the number of samples and a `double` has 8 bytes: no byte is copied
  -- behind the buffer's end, and a datagram has 533 bytes; behind its id stand the lower and the upper
  -- end of the band, 1.2 MHz off the centre, then the number of values that follow, and exactly these
  -- values.
  pub datagram_lem :
      (center_freq : ℕ) (buf power : List ℕ)
      → Sizes
      → spectrum hamming fft_execute fft_shift double_bytes char_of buf ≡ some power
      → (d : List ℕ) × (datagram hamming fft_execute fft_shift double_bytes char_of center_freq
            power
          ≡ some d)
        × (length d ≡ 533)
        × (take 8 (drop 1 d)
            ≡ double_bytes (float.of_nat ((center_freq + 2 ^ 64 - 1_200_000) % 2 ^ 64)))
        × (take 8 (drop 9 d) ≡ double_bytes (float.of_nat ((center_freq + 1_200_000) % 2 ^ 64)))
        × (of_le (take 4 (drop 17 d)) ≡ length power)
        × (drop 21 d ≡ power)
  datagram_lem center_freq buf power sizes e =
      let low = double_bytes (float.of_nat ((center_freq + 2 ^ 64 - 1_200_000) % 2 ^ 64)) in
      let high = double_bytes (float.of_nat ((center_freq + 1_200_000) % 2 ^ 64)) in
      let count = le_bytes 4 512 in
      let len = spectrum-length buf power sizes e in
      let l8 : length low ≡ 8 = sizes.double _ in
      let h8 : length high ≡ 8 = sizes.double _ in
      let c4 : length count ≡ 4 = length-le_bytes 4 512 in
      let body = low ++ (high ++ (count ++ power)) in
      let d8 : drop 8 body ≡ high ++ (count ++ power) = drop_first 8 low _ l8 in
      let d16 : drop 16 body ≡ count ++ power =
        sym (drop-drop 8 8 body) ∙ ap (drop 8) d8 ∙ drop_first 8 high _ h8 in
      let d20 : drop 20 body ≡ power =
        sym (drop-drop 4 16 body) ∙ ap (drop 4) d16 ∙ drop_first 4 count _ c4 in
      let total : length body ≡ 532 =
        length-append low (high ++ (count ++ power))
        ∙ omega (arith, length-append high (count ++ power), length-append count power) in
      (
        1 ∷ body,
        datagram-body center_freq power sizes len,
        omega arith,
        take_first 8 low _ l8,
        ap (take 8) d8 ∙ take_first 8 high _ h8,
        ap (λ t. of_le (take 4 t)) d16
            ∙ ap of_le (take_first 4 count power c4)
            ∙ of_le-le_bytes 4 512 (omega arith)
            ∙ sym len,
        d20,
      )
