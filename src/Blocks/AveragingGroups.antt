-- ===== src/Blocks/AveragingGroups.antt =====
-- The averaging block (ProcessingBlocks/Averaging.cpp) over any number of segments.
use es_sensor.Prelude.{
  ℕ, ◌+◌, ◌≤◌, ◌<◌, ◌≡◌, refl, ◌∙◌, true, false, List, [], ◌∷◌, ◌++◌, arith, if◌then◌else◌, length,
  length-append, All,
}
use mathlib.Core.List.{append_assoc}
use es_sensor.Numeric.{Float}
use es_sensor.Segment.{Segment}
use es_sensor.Blocks.{outputs}
use es_sensor.Blocks.Averaging.{averaging_step, average, wrong_cf}

-- All segments were received at the frequency `freq`.
abbrev pub SameFrequency : {F : Type 0} → ℕ → List (Segment F) → Type 0
SameFrequency freq = All (λ s. s.center_frequency ≡ freq)

pub wrong_cf-SameFrequency :
    {F : Type 0} (freq : ℕ) (g : List (Segment F)) → SameFrequency freq g → wrong_cf g ≡ false
unfolding wrong_cf
wrong_cf-SameFrequency freq [] a = refl
wrong_cf-SameFrequency freq (s ∷ []) a = refl
wrong_cf-SameFrequency freq (s ∷ t ∷ g) (e, (d, a)) =
    ground (arith, wrong_cf-SameFrequency freq (t ∷ g) (d, a))

module _ {F : Type 0} ⦃float : Float F⦄ (n fft_size : ℕ) where
  -- More segments than `avg_factor` never become a full vector.
  averaging_overfull :
      (v xs : List (Segment F)) → n ≤ length v → outputs (averaging_step n fft_size) v xs ≡ []
  unfolding outputs averaging_step
  averaging_overfull v [] h = refl
  averaging_overfull v (x ∷ xs) h = ground (
    arith,
    length-append v (x ∷ []),
    averaging_overfull (v ++ (x ∷ [])) xs (omega (arith, length-append v (x ∷ []))),
  )

  -- Fewer are held back.
  pub averaging_few :
      (v xs : List (Segment F))
      → length v + length xs < n
      → outputs (averaging_step n fft_size) v xs ≡ []
  unfolding outputs averaging_step
  averaging_few v [] h = refl
  averaging_few v (x ∷ xs) h = ground (
    arith,
    length-append v (x ∷ []),
    averaging_few (v ++ (x ∷ [])) xs (omega (arith, length-append v (x ∷ []))),
  )

  abbrev after_group : List (Segment F) → List (Segment F) → List (Segment F)
  after_group g xs =
      if wrong_cf g
      then outputs (averaging_step n fft_size) g xs
      else (average n fft_size g ++ outputs (averaging_step n fft_size) [] xs)

  -- The round in which the vector gets full.
  averaging_fills :
      (v : List (Segment F)) (x : Segment F) (g xs : List (Segment F))
      → length v + length (x ∷ g) ≡ n
      → outputs (averaging_step n fft_size) v ((x ∷ g) ++ xs) ≡ after_group (v ++ (x ∷ g)) xs
  unfolding outputs averaging_step
  averaging_fills v x [] xs h = ground (arith, length-append v (x ∷ []))
  averaging_fills v x (y ∷ g) xs h = rw (← append_assoc v (x ∷ []) (y ∷ g)) (
      ground (
        arith,
        length-append v (x ∷ []),
        averaging_fills (v ++ (x ∷ [])) y g xs (omega (arith, length-append v (x ∷ []))),
      ))

  averaging_group :
      (g xs : List (Segment F))
      → 0 < n
      → length g ≡ n
      → outputs (averaging_step n fft_size) [] (g ++ xs) ≡ after_group g xs
  averaging_group [] xs p h = absurd (omega arith)
  averaging_group (x ∷ g) xs p h = averaging_fills [] x g xs (omega arith)

  -- A full vector of one frequency is averaged and sent, and the block starts afresh.
  pub averaging_good :
      (freq : ℕ) (g xs : List (Segment F))
      → 0 < n
      → length g ≡ n
      → SameFrequency freq g
      → outputs (averaging_step n fft_size) [] (g ++ xs)
        ≡ average n fft_size g ++ outputs (averaging_step n fft_size) [] xs
  averaging_good freq g xs p h same =
      averaging_group g xs p h ∙ rw (wrong_cf-SameFrequency freq g same)

  -- If the first `avg_factor` segments are not all of one frequency, the averaging block never sends
  -- anything, whatever segments come after them: the vector is not emptied, and from then on its size
  -- is never `avg_factor` again.
  pub averaging_stuck :
      (g xs : List (Segment F))
      → 0 < n
      → length g ≡ n
      → wrong_cf g ≡ true
      → outputs (averaging_step n fft_size) [] (g ++ xs) ≡ []
  averaging_stuck g xs p h bad =
      averaging_group g xs p h ∙ rw bad (averaging_overfull g xs (omega arith))
