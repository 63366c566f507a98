-- ===== src/Receiver/Inside.antt =====
-- drivers/rtlsdr/rtlsdrDriver.cpp, lines 627 to 680: the loops that cut the segments stay inside what
-- is read.
use es_sensor.Prelude.{
  ℕ, zero, suc, ◌+◌, ◌*◌, ◌%◌, ◌^◌, ◌≤◌, ◌<◌, ◌≡◌, refl, sym, ap, ◌∙◌, List, [], ◌∷◌, arith, take,
  get_or,
}
use es_sensor.Prelude.Int.{negsuc}
use es_sensor.Numeric.{Float}
use es_sensor.Context.{Context}
use es_sensor.Segment.{Timespec, of_iq}
use es_sensor.Receiver.Cut.{read_len, position, cut_samples}
use es_sensor.Receiver.Bounds.{used, position-in_used, read_len-rounded}
use es_sensor.Receiver.Sync.{cut_segments}

get_or-take : (n p : ℕ) (xs : List ℕ) → p < n → get_or (take n xs) p 0 ≡ get_or xs p 0
get_or-take zero p xs h = absurd (omega arith)
get_or-take (suc n) p [] h = refl
get_or-take (suc n) zero (x ∷ xs) h = refl
get_or-take (suc n) (suc p) (x ∷ xs) h = get_or-take n p xs (omega arith)

byte_same :
    (bytes : ℕ) (buf buf' : List ℕ) (p : ℕ)
    → take bytes buf ≡ take bytes buf'
    → p < bytes
    → get_or buf p 0 ≡ get_or buf' p 0
byte_same bytes buf buf' p e h =
    sym (get_or-take bytes p buf h) ∙ ap (λ xs. get_or xs p 0) e ∙ get_or-take bytes p buf' h

module _ {F : Type 0} ⦃float : Float F⦄ (fft soverlap bytes : ℕ) (buf buf' : List ℕ) where
  cut_samples-same :
      (n i j : ℕ)
      → take bytes buf ≡ take bytes buf'
      → ((p : ℕ) → p < 2 * fft → position fft soverlap i p < bytes)
      → j + 2 * n ≤ 2 * fft
      → cut_samples {F = F} n fft soverlap i j buf ≡ cut_samples n fft soverlap i j buf'
  unfolding cut_samples
  cut_samples-same zero i j e inside h = refl
  cut_samples-same (suc n) i j e inside h =
      let real = byte_same bytes buf buf' (position fft soverlap i j) e (inside j (omega arith)) in
      let imag =
        byte_same bytes buf buf' (position fft soverlap i (j + 1)) e
          (inside (j + 1) (omega arith)) in
      let rest = cut_samples-same n i (j + 2) e inside (omega arith) in
      λ k. record { real = float.of_nat (real k); imag = float.of_nat (imag k) } ∷ rest k

module _ {F : Type 0} ⦃float : Float F⦄ (c : Context F) (time : Timespec) (freq : ℕ) (fft bytes : ℕ)
    (buf buf' : List ℕ) where
  cut_segments-same :
      (n i avg : ℕ)
      → take bytes buf ≡ take bytes buf'
      → ((i p : ℕ) → i < avg → p < 2 * fft → position fft c.soverlap i p < bytes)
      → i + n ≤ avg
      → cut_segments n c fft time freq i buf ≡ cut_segments n c fft time freq i buf'
  unfolding cut_segments
  cut_segments-same zero i avg e inside h = refl
  cut_segments-same (suc n) i avg e inside h =
      let samples =
        cut_samples-same {F = F} fft c.soverlap bytes buf buf' fft i 0 e
          (λ p. inside i p (omega arith)) (omega arith) in
      let rest = cut_segments-same n (i + 1) avg e inside (omega arith) in
      λ k. of_iq (negsuc 999) time freq c.sampling_rate (samples k) ∷ rest k

module _ {F : Type 0} ⦃float : Float F⦄ where
  -- Where the overlap is at most the FFT size, and the length of a read stays below 2 ^ 31: a read is a
  -- multiple of the 512 bytes that the USB transfer needs, as long as the bytes that the segments take
  -- and less than 512 bytes longer; and the loop that cuts `avg` segments takes no other bytes: from two
  -- buffers that agree in these it cuts the same segments.
  pub cut_segments-inside :
      (c : Context F) (fft avg : ℕ) (time : Timespec) (freq : ℕ) (buf buf' : List ℕ)
      → c.soverlap ≤ fft
      → used fft c.soverlap avg < 2 ^ 31
      → fft < 2 ^ 31
      → take (used fft c.soverlap avg) buf ≡ take (used fft c.soverlap avg) buf'
      → let slen = read_len fft c.soverlap avg in
        (slen % 512 ≡ 0)
        × (used fft c.soverlap avg ≤ slen)
        × (slen < used fft c.soverlap avg + 512)
        × (cut_segments avg c fft time freq 0 buf ≡ cut_segments avg c fft time freq 0 buf')
  cut_segments-inside c fft avg time freq buf buf' le small small' e =
      let (multiple, enough, close) = read_len-rounded fft c.soverlap avg le small small' in
      (
        multiple,
        enough,
        close,
        cut_segments-same c time freq fft (used fft c.soverlap avg) buf buf' avg 0 avg e
            (λ i p hi hp. position-in_used fft c.soverlap avg i p le small small' hi hp)
            (omega arith),
      )
