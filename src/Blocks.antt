-- ===== src/Blocks.antt =====
-- The threads of the program (drivers/Component.h, drivers/Communication.h, ProcessingBlocks and
-- MiscBlocks). A block takes one segment after another from its queue; what it does with one is a
-- function from its state to its state and the segments that it passes on.
pub mod Loop
pub mod RemoveDc
pub mod Windowing
pub mod Fft
pub mod Averaging
pub mod FftBatches
pub mod AveragingGroups
pub mod PsdPipeline
use es_sensor.Prelude.{◌≡◌, refl, ap, ◌∙◌, sym, List, [], ◌∷◌, ◌++◌, map}
use mathlib.Core.List.{append_assoc}

abbrev pub Block : Type 0 → Type 0 → Type 0 → Type 0
Block S A B = S → A → S × List B

module _ {S A B : Type 0} (step : Block S A B) where
  -- The state after a list of segments, and what was passed on for them.
  unfoldable pub final : S → List A → S
  final s [] = s
  final s (x ∷ xs) = final (step s x).0 xs

  unfoldable pub outputs : S → List A → List B
  outputs s [] = []
  outputs s (x ∷ xs) = (step s x).1 ++ outputs (step s x).0 xs

  pub final-append : (s : S) (xs bs : List A) → final s (xs ++ bs) ≡ final (final s xs) bs
  unfolding final
  final-append s [] bs = refl
  final-append s (x ∷ xs) bs = final-append (step s x).0 xs bs

  pub outputs-append :
      (s : S) (xs bs : List A) → outputs s (xs ++ bs) ≡ outputs s xs ++ outputs (final s xs) bs
  unfolding final outputs
  outputs-append s [] bs = refl
  outputs-append s (x ∷ xs) bs =
      ap (◌++◌ (step s x).1) (outputs-append (step s x).0 xs bs)
      ∙ sym (append_assoc (step s x).1 _ _)

-- A block that keeps no state and passes each segment on changed is a `map`.
pub outputs-map :
    {S A B : Type 0} (step : Block S A B) (h : A → B) (s : S)
    → ((x : A) → step s x ≡ (s, h x ∷ []))
    → (xs : List A) → outputs step s xs ≡ map h xs
unfolding outputs
outputs-map step h s e [] = refl
outputs-map step h s e (x ∷ xs) = rw (e x) (ap (◌∷◌ (h x)) (outputs-map step h s e xs))
