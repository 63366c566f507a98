-- ===== src/Blocks/PsdPipeline.antt =====
-- The blocks of the PSD pipeline one behind the other (main.cpp, lines 346 to 369).
use es_sensor.Prelude.{
  ℕ, zero, suc, ◌+◌, ◌-◌, ◌/◌, ◌≤◌, ◌<◌, ◌≡◌, refl, sym, ap, ◌∙◌, List, [], ◌∷◌, ◌++◌, map, arith,
  length, length-append, length-map, length-take, take, take-nil, take-length-add,
}
use mathlib.Core.List.{append_assoc, map-append}
use native.Mathlib.Decide.{dec_lt}
use native.Mathlib.Nat.{div-eq_of_lt, add-div_left, div-add-mod'}
use es_sensor.Numeric.{Float}
use es_sensor.Segment.{Segment, Complex}
use es_sensor.Blocks.{outputs, outputs-map}
use es_sensor.Blocks.RemoveDc.{remove_dc_step, remove_dc_one}
use es_sensor.Blocks.Windowing.{windowing_step, windowing_one}
use es_sensor.Blocks.Fft.{fft_step, compute_one}
use es_sensor.Blocks.FftBatches.{whole, fft-batches}
use es_sensor.Blocks.Averaging.{averaging_step, average}
use es_sensor.Blocks.AveragingGroups.{SameFrequency, averaging_good, averaging_few}

module _ {F : Type 0} where
  -- The receiver's stream: for each frequency in turn, `n` segments received there.
  abbrev pub Bursts : ℕ → List ℕ → List (List (Segment F)) → Type 0
  Bursts n [] [] = Unit
  Bursts n [] (g ∷ gs) = ⊥
  Bursts n (f ∷ fs) [] = ⊥
  Bursts n (f ∷ fs) (g ∷ gs) = (length g ≡ n) × SameFrequency f g × Bursts n fs gs

  abbrev pub concat : List (List (Segment F)) → List (Segment F)
  concat [] = []
  concat (g ∷ gs) = g ++ concat gs

  abbrev pub frequencies : List (Segment F) → List ℕ
  frequencies = map (λ s. s.center_frequency)

  -- The first `k` segments of a stream: whole bursts, and fewer than `n` more.
  pub record Cut (n k : ℕ) (fs : List ℕ) (gs : List (List (Segment F))) : Type 0 where
    pub bursts : List (List (Segment F))
    pub rest : List (Segment F)
    pub is_burst : Bursts n (take (k / n) fs) bursts
    pub few : length rest < n
    pub parts : take k (concat gs) ≡ concat bursts ++ rest

  Cut-burst :
      (n k f : ℕ) (fs : List ℕ) (g : List (Segment F)) (gs : List (List (Segment F)))
      → 0 < n
      → n ≤ k
      → length g ≡ n
      → SameFrequency f g
      → Cut n (k - n) fs gs
      → Cut n k (f ∷ fs) (g ∷ gs)
  Cut-burst n k f fs g gs p big e same c =
      let whole_k : k ≡ n + (k - n) = omega arith in
      let count : k / n ≡ suc ((k - n) / n) =
        ap (λ m. m / n) whole_k ∙ add-div_left (k - n) p ∙ omega arith in
      let size : k ≡ length g + (k - n) = omega arith in
      record {
        bursts = g ∷ c.bursts;
        rest = c.rest;
        is_burst = rw count (e, same, c.is_burst);
        few = c.few;
        parts =
            ap (λ m. take m (g ++ concat gs)) size
            ∙ take-length-add g (concat gs) (k - n)
            ∙ ap (◌++◌ g) c.parts
            ∙ sym (append_assoc g (concat c.bursts) c.rest);
      }

  cut :
      (n k : ℕ) (fs : List ℕ) (gs : List (List (Segment F)))
      → 0 < n
      → k ≤ length (concat gs)
      → Bursts n fs gs
      → Cut n k fs gs
  cut n k [] [] p h b = record {
    bursts = [];
    rest = [];
    is_burst = rw (take-nil {A = ℕ} (k / n)) tt;
    few = p;
    parts = take-nil k;
  }
  cut n k (f ∷ fs) [] p h b = elim b [ ]
  cut n k [] (g ∷ gs) p h b = elim b [ ]
  cut n k (f ∷ fs) (g ∷ gs) p h (e, same, b) = elim (dec_lt k n) [
    | yes small ↦ record {
      bursts = [];
      rest = take k (g ++ concat gs);
      is_burst = rw (div-eq_of_lt small) tt;
      few = omega (arith, length-take k (g ++ concat gs));
      parts = refl;
    }
    | no big ↦
        Cut-burst n k f fs g gs p (omega arith) e same
          (cut n (k - n) fs gs p (omega (arith, length-append g (concat gs))) b)
  ]

  module _ (h : Segment F → Segment F)
      (keeps : (s : Segment F) → (h s).center_frequency ≡ s.center_frequency) where
    map-SameFrequency :
        (f : ℕ) (g : List (Segment F)) → SameFrequency f g → SameFrequency f (map h g)
    map-SameFrequency f [] a = tt
    map-SameFrequency f (s ∷ g) (e, a) = (keeps s ∙ e, map-SameFrequency f g a)

    map-Bursts :
        (n : ℕ) (fs : List ℕ) (gs : List (List (Segment F)))
        → Bursts n fs gs
        → Bursts n fs (map (map h) gs)
    map-Bursts n [] [] b = tt
    map-Bursts n [] (g ∷ gs) b = elim b [ ]
    map-Bursts n (f ∷ fs) [] b = elim b [ ]
    map-Bursts n (f ∷ fs) (g ∷ gs) (e, same, b) =
        (length-map g h ∙ e, map-SameFrequency f g same, map-Bursts n fs gs b)

    map-concat : (gs : List (List (Segment F))) → map h (concat gs) ≡ concat (map (map h) gs)
    map-concat [] = refl
    map-concat (g ∷ gs) = map-append h g (concat gs) ∙ ap (◌++◌ (map h g)) (map-concat gs)

module _ {F : Type 0} ⦃float : Float F⦄ (n fft_size : ℕ) (p : 0 < n) where
  frequencies-average :
      (f : ℕ) (g : List (Segment F))
      → length g ≡ n
      → SameFrequency f g
      → frequencies (average n fft_size g) ≡ f ∷ []
  unfolding average
  frequencies-average f [] e a = absurd (omega arith)
  frequencies-average f (s ∷ g) e a = ap (λ k. k ∷ []) a.0

  -- One averaged segment for each burst, at the burst's frequency.
  frequencies-averaging :
      (fs : List ℕ) (gs : List (List (Segment F))) (rest : List (Segment F))
      → Bursts n fs gs
      → length rest < n
      → frequencies (outputs (averaging_step n fft_size) [] (concat gs ++ rest)) ≡ fs
  frequencies-averaging [] [] rest b few =
      ap frequencies (averaging_few n fft_size [] rest (omega arith))
  frequencies-averaging [] (g ∷ gs) rest b few = elim b [ ]
  frequencies-averaging (f ∷ fs) [] rest b few = elim b [ ]
  frequencies-averaging (f ∷ fs) (g ∷ gs) rest (e, same, b) few =
      rw
        (
          append_assoc g (concat gs) rest,
          averaging_good n fft_size f g (concat gs ++ rest) p e same,
          map-append,
        )
        (rw (frequencies-average f g e same, frequencies-averaging fs gs rest b few))

module _ {F : Type 0} ⦃float : Float F⦄ (hamming : ℕ → ℕ → F)
    (fft_execute : ℕ → List (Complex F) → List (Complex F))
    (fft_shift : List (Complex F) → List (Complex F)) where
  -- What comes out of the averaging block's queue, for what the receiver put into its own.
  pub psd_pipeline : ℕ → ℕ → ℕ → List (Segment F) → List (Segment F)
  psd_pipeline batch_len avg_factor fft_size stream =
      outputs (averaging_step avg_factor fft_size) [] (
        outputs (fft_step fft_execute fft_shift batch_len fft_size) []
          (outputs (windowing_step hamming fft_size) tt (outputs remove_dc_step tt stream)))

  -- What a segment has gone through in front of the averaging block.
  prepare : ℕ → Segment F → Segment F
  prepare fft_size s =
      compute_one fft_execute fft_shift fft_size (windowing_one hamming fft_size (remove_dc_one s))

  prepare-frequency :
      (fft_size : ℕ) (s : Segment F) → (prepare fft_size s).center_frequency ≡ s.center_frequency
  unfolding prepare compute_one windowing_one remove_dc_one
  prepare-frequency fft_size s = refl

  stages :
      (fft_size k : ℕ) (xs : List (Segment F))
      → map
          (compute_one fft_execute fft_shift fft_size)
          (take k (map (windowing_one hamming fft_size) (map remove_dc_one xs)))
        ≡ map (prepare fft_size) (take k xs)
  unfolding prepare
  stages fft_size zero xs = refl
  stages fft_size (suc k) [] = refl
  stages fft_size (suc k) (x ∷ xs) = ap (◌∷◌ (prepare fft_size x)) (stages fft_size k xs)

  prepared :
      (b fft_size : ℕ) (stream : List (Segment F))
      → 0 < b
      → outputs
          (fft_step fft_execute fft_shift b fft_size)
          []
          (outputs (windowing_step hamming fft_size) tt (outputs remove_dc_step tt stream))
        ≡ map (prepare fft_size) (take (whole b (length stream)) stream)
  unfolding remove_dc_step windowing_step prepare
  prepared b fft_size stream p =
      rw
        (
          outputs-map remove_dc_step remove_dc_one tt (λ x. refl) stream,
          outputs-map (windowing_step hamming fft_size) (windowing_one hamming fft_size) tt
              (λ x. refl) (map remove_dc_one stream),
          (fft-batches fft_execute fft_shift b fft_size p _).0,
          length-map (map remove_dc_one stream) (windowing_one hamming fft_size),
          length-map stream remove_dc_one,
        )
        (stages fft_size (whole b (length stream)) stream)

  -- The PSD pipeline, fed with bursts of `avg_factor` segments per frequency, sends one averaged
  -- segment for each burst, in order and at the burst's own frequency, as far as the bursts lie in
  -- the whole FFT batches. The batch length and the averaging factor are at least 1.
  pub frequencies-psd_pipeline :
      (b n fft_size : ℕ) (fs : List ℕ) (gs : List (List (Segment F)))
      → 0 < b
      → 0 < n
      → Bursts n fs gs
      → frequencies (psd_pipeline b n fft_size (concat gs))
        ≡ take (whole b (length (concat gs)) / n) fs
  unfolding psd_pipeline
  frequencies-psd_pipeline b n fft_size fs gs p q bursts =
      let h = prepare fft_size in
      let k = whole b (length (concat gs)) in
      let keeps = prepare-frequency fft_size in
      let some_batches : k ≤ length (concat gs) =
        omega (arith, div-add-mod' (length (concat gs)) b) in
      let c = cut n k fs gs q some_batches bursts in
      let cut_stream : map h (take k (concat gs)) ≡ concat (map (map h) c.bursts) ++ map h c.rest =
        ap (map h) c.parts
        ∙ map-append h (concat c.bursts) c.rest
        ∙ ap (λ l. l ++ map h c.rest) (map-concat h keeps c.bursts) in
      rw (prepared b fft_size (concat gs) p, cut_stream)
        (frequencies-averaging n fft_size q (take (k / n) fs) (map (map h) c.bursts) (map h c.rest)
          (map-Bursts h keeps n (take (k / n) fs) c.bursts c.is_burst)
          (let few = c.few in omega (arith, length-map c.rest h)))
