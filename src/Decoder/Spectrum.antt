-- ===== src/Decoder/Spectrum.antt =====
-- ProcessingBlocks/PSDFast.cpp: the power spectrum of a buffer, and the datagram that shows it.
use es_sensor.Prelude.{
  ℕ, zero, suc, ◌+◌, ◌-◌, ◌%◌, ◌^◌, Option, none, some, List, [], ◌∷◌, map, if◌then◌else◌,
  replicate,
}
use es_sensor.Numeric.{Float}
use es_sensor.Segment.{Complex}
use es_sensor.Decoder.Bytes.{le_bytes}

-- `memcpy` of some bytes to the start of a buffer, and to an offset; `none` writes behind its end.
unfoldable pub overwrite : List ℕ → List ℕ → Option (List ℕ)
overwrite [] buf = some buf
overwrite (x ∷ xs) [] = none
overwrite (x ∷ xs) (b ∷ buf) = elim (overwrite xs buf) [ none ↦ none | some rest ↦ some (x ∷ rest) ]

unfoldable pub write_at : ℕ → List ℕ → List ℕ → Option (List ℕ)
unfolding overwrite
write_at zero bytes buf = overwrite bytes buf
write_at (suc n) bytes [] = none
write_at (suc n) bytes (b ∷ buf) = elim (write_at n bytes buf) [
  | none ↦ none
  | some rest ↦ some (b ∷ rest)
]

unfoldable pub copy_to : ℕ → List ℕ → Option (List ℕ) → Option (List ℕ)
unfolding write_at
copy_to n bytes none = none
copy_to n bytes (some buf) = write_at n bytes buf

-- `hamming`, `fft_execute` and `fft_shift` are the liquid library's. `double_bytes` are the bytes of a
-- `double` in memory, `char_of` is `round` and the cast to `signed char`, as a byte.
module _ {F : Type 0} ⦃float : Float F⦄ (hamming : ℕ → ℕ → F)
    (fft_execute : ℕ → List (Complex F) → List (Complex F))
    (fft_shift : List (Complex F) → List (Complex F)) (double_bytes : F → List ℕ)
    (char_of : F → ℕ) where
  -- The sum `W` of the squares of the window; the window itself is not used any more.
  unfoldable pub window_power : ℕ → ℕ → F → F
  window_power zero i w = w
  window_power (suc count) i w =
      let w_i = hamming (i + 1) 512 in window_power count (i + 1) (float.add w (float.mul w_i w_i))

  -- `(x - 127.4) / 128.0`
  unfoldable pub centered : ℕ → F
  centered x = float.div (float.sub (float.of_nat x) (float.lit 1274 10)) (float.of_nat 128)

  -- The first `count` samples of the buffer; `none` is a read behind its end.
  unfoldable pub prepare : ℕ → List ℕ → Option (List (Complex F))
  unfolding centered window_power
  prepare zero buf = some []
  prepare (suc count) [] = none
  prepare (suc count) (i ∷ []) = none
  prepare (suc count) (i ∷ q ∷ buf) =
      let scale = float.sqrt (float.div (float.of_nat 512) (window_power 512 0 (float.of_nat 0))) in
      elim (prepare count buf) [
        | none ↦ none
        | some signal ↦ some (
            (record { real = float.mul (centered i) scale; imag = float.mul (centered q) scale })
            ∷ signal)
      ]

  -- `MAX(10 * log10(p), -100)`, rounded to a byte.
  unfoldable pub power_of : Complex F → ℕ
  power_of x =
      let p = float.add (float.mul x.real x.real) (float.mul x.imag x.imag) in
      let db = float.mul (float.of_nat 10) (float.log10 p) in
      let least = float.neg (float.of_nat 100) in char_of (if float.lt least db then db else least)

  unfoldable pub spectrum : List ℕ → Option (List ℕ)
  unfolding prepare power_of
  spectrum buf = elim (prepare 512 buf) [
    | none ↦ none
    | some signal ↦ some (map power_of (fft_shift (fft_execute 512 signal)))
  ]

  -- The datagram: into 533 zeros are copied the id, the two ends of the band, the number of values, and
  -- the values, each behind the sizes of those before it.
  unfoldable pub datagram : ℕ → List ℕ → Option (List ℕ)
  unfolding le_bytes copy_to
  datagram center_freq power =
      let low = double_bytes (float.of_nat ((center_freq + 2 ^ 64 - 1_200_000) % 2 ^ 64)) in
      let high = double_bytes (float.of_nat ((center_freq + 1_200_000) % 2 ^ 64)) in
      let buffer = copy_to 0 (1 ∷ []) (some (replicate (1 + 8 + 8 + 4 + 512) 0)) in
      let buffer = copy_to 1 low buffer in
      let buffer = copy_to (1 + 8) high buffer in
      let buffer = copy_to (1 + 8 + 8) (le_bytes 4 512) buffer in
      copy_to (1 + 8 + 8 + 4) power buffer
