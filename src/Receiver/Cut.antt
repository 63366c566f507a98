-- ===== src/Receiver/Cut.antt =====
-- drivers/rtlsdr/rtlsdrDriver.cpp, lines 620 to 680: the length of one read, and the segments that
-- are cut out of it.
use es_sensor.Prelude.{ℕ, zero, suc, ◌+◌, ◌-◌, ◌%◌, List, [], ◌∷◌, ◌==◌, if◌then◌else◌, get_or}
use es_sensor.Numeric.{Float, sub32, add32, mul32}
use es_sensor.Segment.{Complex}

-- `slen` before it is rounded: two bytes for each sample, in `unsigned int`.
unfoldable pub raw_len : ℕ → ℕ → ℕ → ℕ
raw_len fft soverlap avg = mul32 (add32 (mul32 (sub32 fft soverlap) avg) soverlap) 2

-- Up to a multiple of `BULK_TRANSFER_MULTIPLE`.
unfoldable pub round_up : ℕ → ℕ
round_up n = if (n % 512) == 0 then n else n + (512 - n % 512)

unfoldable pub read_len : ℕ → ℕ → ℕ → ℕ
unfolding raw_len round_up
read_len fft soverlap avg = round_up (raw_len fft soverlap avg)

-- The position in `iq_buf` of byte `j` of segment `i`, in `unsigned int`.
unfoldable pub position : ℕ → ℕ → ℕ → ℕ → ℕ
position fft soverlap i j = add32 j (mul32 (mul32 i (sub32 fft soverlap)) 2)

-- `for (i = 0; i < n_read; i += 2) iq_buf[i] = 255 - iq_buf[i];`
unfoldable pub invert : ℕ → List ℕ → List ℕ
invert zero buf = buf
invert (suc n) [] = []
invert (suc zero) (x ∷ buf) = (255 - x) ∷ buf
invert (suc (suc n)) (x ∷ []) = (255 - x) ∷ []
invert (suc (suc n)) (x ∷ y ∷ buf) = (255 - x) ∷ y ∷ invert n buf

module _ {F : Type 0} ⦃float : Float F⦄ where
  -- The loop over `j`, with the samples that are left. A read past the buffer gives 0 here; the
  -- positions are shown to be inside it.
  unfoldable pub cut_samples : ℕ → ℕ → ℕ → ℕ → ℕ → List ℕ → List (Complex F)
  unfolding position
  cut_samples zero fft soverlap i j buf = []
  cut_samples (suc n) fft soverlap i j buf =
      record {
        real = float.of_nat (get_or buf (position fft soverlap i j) 0);
        imag = float.of_nat (get_or buf (position fft soverlap i (j + 1)) 0);
      }
      ∷ cut_samples n fft soverlap i (j + 2) buf
