-- ===== src/Blocks/FftBatches.antt =====
-- The FFT block (ProcessingBlocks/FFT.cpp) over any number of segments.
use es_sensor.Prelude.{
  ℕ, suc, ◌+◌, ◌*◌, ◌/◌, ◌<◌, ◌≡◌, refl, sym, ap, ◌∙◌, List, [], ◌∷◌, ◌++◌, map, arith, length,
  length-append, take, drop, take-length-add, drop-length-add,
}
use mathlib.Core.List.{append-nil, append_assoc, map-append}
use native.Mathlib.Decide.{dec_lt}
use native.Mathlib.Nat.{div-eq_of_lt, add-div_left, add-mul}
use es_sensor.Segment.{Segment, Complex}
use es_sensor.Blocks.{final, outputs}
use es_sensor.Blocks.Fft.{fft_step, compute_one}

-- The whole batches among `n` segments.
abbrev pub whole : ℕ → ℕ → ℕ
whole b n = n / b * b

whole_small : (b n : ℕ) → n < b → whole b n ≡ 0
whole_small b n h = rw (div-eq_of_lt h) (omega arith)

whole_more : (b n : ℕ) → 0 < b → whole b (b + n) ≡ b + whole b n
whole_more b n p = rw (add-div_left n p, add-mul (n / b) 1 b) (omega arith)

whole_cut : (b n m : ℕ) → 0 < b → n + 1 ≡ b → whole b (n + suc m) ≡ n + 1 + whole b (0 + m)
whole_cut b n m p e =
    let start : 0 + m ≡ m = omega arith in
    let more : n + suc m ≡ b + m = omega arith in rw (start, more, whole_more b m p) (omega arith)

module _ {F : Type 0} (fft_execute : ℕ → List (Complex F) → List (Complex F))
    (fft_shift : List (Complex F) → List (Complex F)) (b signal_len : ℕ) (pos : 0 < b) where
  batch_step : List (Segment F) → Segment F → List (Segment F) × List (Segment F)
  batch_step = fft_step fft_execute fft_shift b signal_len

  compute : Segment F → Segment F
  compute = compute_one fft_execute fft_shift signal_len

  step_full :
      (v : List (Segment F)) (x : Segment F)
      → length v + 1 ≡ b
      → batch_step v x ≡ ([], map compute (v ++ (x ∷ [])))
  unfolding batch_step fft_step compute
  step_full v x e = ground (arith, length-append v (x ∷ []))

  step_more :
      (v : List (Segment F)) (x : Segment F)
      → length v + 1 < b
      → batch_step v x ≡ (v ++ (x ∷ []), [])
  unfolding batch_step fft_step
  step_more v x e = ground (arith, length-append v (x ∷ []))

  batches :
      (v xs : List (Segment F))
      → length v < b
      → let k = whole b (length v + length xs) in
        (outputs batch_step v xs ≡ map compute (take k (v ++ xs)))
        × (final batch_step v xs ≡ drop k (v ++ xs))
  unfolding outputs final
  batches v [] h =
      let none_full : whole b (length v + 0) ≡ 0 = whole_small b _ (omega arith) in
      rw (none_full, append-nil v) (refl, refl)
  batches v (x ∷ xs) h = elim (dec_lt (length v + 1) b) [
    | yes less ↦
        let size : length (v ++ (x ∷ [])) + length xs ≡ length v + suc (length xs) =
          omega (arith, length-append v (x ∷ [])) in
        rw (step_more v x less) (
          rw (size, append_assoc v (x ∷ []) xs) at
            (batches (v ++ (x ∷ [])) xs (omega (arith, length-append v (x ∷ [])))))
    | no full ↦
        let filled : length v + 1 ≡ b = omega arith in
        let group = v ++ (x ∷ []) in
        let k = whole b (0 + length xs) in
        let cut : whole b (length v + suc (length xs)) ≡ length group + k =
          whole_cut b (length v) (length xs) pos filled
          ∙ ap (λ n. n + k) (omega (arith, length-append v (x ∷ []))) in
        let (sent, left) = batches [] xs pos in
        rw
          (
            step_full v x filled,
            cut,
            ← append_assoc v (x ∷ []) xs,
            take-length-add group xs k,
            drop-length-add group xs k,
          )
          (ap (◌++◌ (map compute group)) sent ∙ sym (map-append compute group (take k xs)), left)
  ]

  -- The FFT block, given any segments, has transformed and passed on, in order, as many as make up
  -- whole batches, and holds back the others. The batch length is at least 1.
  pub fft-batches :
      (xs : List (Segment F))
      → let k = whole b (length xs) in
        let step = fft_step fft_execute fft_shift b signal_len in
        (outputs step [] xs ≡ map (compute_one fft_execute fft_shift signal_len) (take k xs))
        × (final step [] xs ≡ drop k xs)
  unfolding batch_step compute
  fft-batches xs =
      let start : 0 + length xs ≡ length xs = omega arith in rw start at (batches [] xs pos)

-- With a batch length of 0 the block holds back everything.
pub fft_no_batch :
    {F : Type 0} (fft_execute : ℕ → List (Complex F) → List (Complex F))
    (fft_shift : List (Complex F) → List (Complex F)) (signal_len : ℕ) (v xs : List (Segment F))
    → outputs (fft_step fft_execute fft_shift 0 signal_len) v xs ≡ []
unfolding outputs fft_step
fft_no_batch fft_execute fft_shift signal_len v [] = refl
fft_no_batch fft_execute fft_shift signal_len v (x ∷ xs) = ground (
  arith,
  length-append v (x ∷ []),
  fft_no_batch fft_execute fft_shift signal_len (v ++ (x ∷ [])) xs,
)
