-- ===== src/Receiver/Windows.antt =====
-- drivers/rtlsdr/rtlsdrDriver.cpp, lines 656 to 680: what the segments of one read hold.
use es_sensor.Prelude.{
  ℕ, zero, suc, ◌+◌, ◌-◌, ◌*◌, ◌^◌, ◌≤◌, ◌<◌, ◌≡◌, refl, sym, ap, ◌∙◌, some, List, [], ◌∷◌, arith,
  length, get_elem?, get_or, take, drop, drop-drop, drop-take, take-take,
}
use mathlib.Core.Path.{subst}
use es_sensor.Numeric.{Float}
use es_sensor.Context.{Context}
use es_sensor.Segment.{Complex, Segment, Timespec, of_iq}
use es_sensor.Receiver.Cut.{position, cut_samples}
use es_sensor.Receiver.Bounds.{position-exact}
use es_sensor.Receiver.Sync.{cut_segments}

module _ {F : Type 0} ⦃float : Float F⦄ where
  -- The bytes of a read, in pairs.
  abbrev pub pairs : List ℕ → List (Complex F)
  pairs [] = []
  pairs (x ∷ []) = []
  pairs (x ∷ y ∷ buf) = record { real = float.of_nat x; imag = float.of_nat y } ∷ pairs buf

  abbrev sample : List ℕ → ℕ → ℕ → Complex F
  sample buf p q = record {
    real = float.of_nat (get_or buf p 0);
    imag = float.of_nat (get_or buf q 0);
  }

  drop-pairs :
      (k : ℕ) (buf : List ℕ)
      → 2 * k + 1 < length buf
      → drop k (pairs buf) ≡ sample buf (2 * k) (2 * k + 1) ∷ drop (k + 1) (pairs buf)
  drop-pairs k [] h = absurd (omega arith)
  drop-pairs k (x ∷ []) h = absurd (omega arith)
  drop-pairs zero (x ∷ y ∷ buf) h = refl
  drop-pairs (suc k) (x ∷ y ∷ buf) h =
      let even : 2 * suc k ≡ suc (suc (2 * k)) = omega arith in
      let odd : suc (suc (2 * k)) + 1 ≡ suc (suc (2 * k + 1)) = omega arith in
      let next : suc k + 1 ≡ suc (k + 1) = omega arith in
      rw (even, odd, next) (drop-pairs k buf (omega arith))

  -- The loop over `j` reads the pairs in order.
  cut_samples-pairs :
      (n fft soverlap i m : ℕ) (buf : List ℕ)
      → soverlap ≤ fft
      → fft < 2 ^ 32
      → 2 * (i * (fft - soverlap) + m + n) ≤ length buf
      → length buf < 2 ^ 32
      → cut_samples n fft soverlap i (2 * m) buf
        ≡ take n (drop (i * (fft - soverlap) + m) (pairs buf))
  unfolding cut_samples
  cut_samples-pairs zero fft soverlap i m buf le small inside size = refl
  cut_samples-pairs (suc n) fft soverlap i m buf le small inside size =
      let k = i * (fft - soverlap) + m in
      let real : position fft soverlap i (2 * m) ≡ 2 * k =
        position-exact fft soverlap i (2 * m) le small (omega arith) ∙ omega arith in
      let imag : position fft soverlap i (2 * m + 1) ≡ 2 * k + 1 =
        position-exact fft soverlap i (2 * m + 1) le small (omega arith) ∙ omega arith in
      let next : 2 * m + 2 ≡ 2 * (m + 1) = omega arith in
      let rest = cut_samples-pairs n fft soverlap i (m + 1) buf le small (omega arith) size in
      let shift : i * (fft - soverlap) + (m + 1) ≡ k + 1 = omega arith in
      rw (drop-pairs k buf (omega arith)) (
        ap
          (λ p.
            sample buf p (position fft soverlap i (2 * m + 1))
            ∷ cut_samples n fft soverlap i (2 * m + 2) buf)
          real
        ∙ ap (λ p. sample buf (2 * k) p ∷ cut_samples n fft soverlap i (2 * m + 2) buf) imag
        ∙ ap (λ j. sample buf (2 * k) (2 * k + 1) ∷ cut_samples n fft soverlap i j buf) next
        ∙ ap (◌∷◌ (sample buf (2 * k) (2 * k + 1)))
            (rest ∙ ap (λ j. take n (drop j (pairs buf))) shift))

  -- Segment `i` of one read, for an overlap of at most the FFT size and a read that is long enough:
  -- it is received at the round's frequency, and its samples are FFT size samples of the read from
  -- sample `i * (FFT size - overlap)` on.
  pub cut_segments-windows :
      (n : ℕ) (c : Context F) (fft : ℕ) (time : Timespec) (freq i k : ℕ) (buf : List ℕ)
      → let step = fft - c.soverlap in
        c.soverlap ≤ fft
        → fft < 2 ^ 32
        → k < n
        → 2 * ((i + k) * step + fft) ≤ length buf
        → length buf < 2 ^ 32
        → (s : Segment F) × (get_elem? (cut_segments n c fft time freq i buf) k ≡ some s)
          × (s.center_frequency ≡ freq)
          × (s.iq_samples ≡ take fft (drop ((i + k) * step) (pairs buf)))
  unfolding cut_segments of_iq
  cut_segments-windows zero c fft time freq i k buf le small h inside size = absurd (omega arith)
  cut_segments-windows (suc n) c fft time freq i zero buf le small h inside size =
      let here : i + 0 ≡ i = omega arith in
      let start : i * (fft - c.soverlap) + 0 ≡ (i + 0) * (fft - c.soverlap) =
        rw here (omega arith) in
      let end : 2 * (i * (fft - c.soverlap) + 0 + fft) ≤ length buf = rw (start) (omega arith) in
      (
        _,
        refl,
        refl,
        cut_samples-pairs fft fft c.soverlap i 0 buf le small end size
            ∙ ap (λ j. take fft (drop j (pairs buf))) start,
      )
  cut_segments-windows (suc n) c fft time freq i (suc k) buf le small h inside size =
      let next : i + 1 + k ≡ i + suc k = omega arith in
      let rest =
        cut_segments-windows n c fft time freq (i + 1) k buf le small (omega arith)
          (subst (λ j. 2 * (j * (fft - c.soverlap) + fft) ≤ length buf) (sym next) inside) size in
      subst
        (λ j.
          (s : Segment F) × (get_elem? (cut_segments n c fft time freq (i + 1) buf) k ≡ some s)
          × (s.center_frequency ≡ freq)
          × (s.iq_samples ≡ take fft (drop (j * (fft - c.soverlap)) (pairs buf))))
        next rest

  window-overlap :
      (fft soverlap j j' : ℕ) (xs : List (Complex F))
      → soverlap ≤ fft
      → j' ≡ j + (fft - soverlap)
      → drop (fft - soverlap) (take fft (drop j xs)) ≡ take soverlap (take fft (drop j' xs))
  window-overlap fft soverlap j j' xs le e =
      let step = fft - soverlap in
      drop-take step fft (drop j xs)
      ∙ ap (λ k. take k (drop step (drop j xs))) (omega arith)
      ∙ ap (take soverlap) (drop-drop step j xs ∙ ap (λ k. drop k xs) (sym e))
      ∙ sym (take-take soverlap fft (drop j' xs) le)

  -- Two segments in a row of one read, under the same conditions: the last `soverlap` samples of the
  -- first are the first `soverlap` samples of the second.
  pub cut_segments-overlap :
      (n : ℕ) (c : Context F) (fft : ℕ) (time : Timespec) (freq k : ℕ) (buf : List ℕ)
      → let step = fft - c.soverlap in
        c.soverlap ≤ fft
        → fft < 2 ^ 32
        → suc k < n
        → 2 * (suc k * step + fft) ≤ length buf
        → length buf < 2 ^ 32
        → let segments = cut_segments n c fft time freq 0 buf in
          (s t : Segment F) × (get_elem? segments k ≡ some s)
          × (get_elem? segments (suc k) ≡ some t)
          × (drop step s.iq_samples ≡ take c.soverlap t.iq_samples)
  cut_segments-overlap n c fft time freq k buf le small h inside size =
      let step = fft - c.soverlap in
      let first : 2 * (k * step + fft) ≤ length buf = omega arith in
      let here : (0 + k) ≡ k = omega arith in
      let next : (0 + suc k) ≡ suc k = omega arith in
      let s =
        cut_segments-windows n c fft time freq 0 k buf le small (omega arith)
          (subst (λ j. 2 * (j * step + fft) ≤ length buf) (sym here) first) size in
      let t =
        cut_segments-windows n c fft time freq 0 (suc k) buf le small h
          (subst (λ j. 2 * (j * step + fft) ≤ length buf) (sym next) inside) size in
      (
        s.0,
        t.0,
        s.1,
        t.1,
        ap (drop step) s.3
            ∙ window-overlap fft c.soverlap ((0 + k) * step) ((0 + suc k) * step) (pairs buf) le
                (let e : 0 + suc k ≡ suc (0 + k) = omega arith in rw (e) (omega arith))
            ∙ ap (take c.soverlap) (sym t.3),
      )
