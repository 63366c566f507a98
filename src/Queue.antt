-- ===== src/Queue.antt =====
-- What the program relies on of `moodycamel::ReaderWriterQueue` (misc/readerwriterqueue.h, a copy of
-- another project): a queue of one producer and one consumer gives out what was put in, in order.
use es_sensor.Prelude.{ℕ, ◌≡◌, refl, ◌⊎◌, inl, inr, Option, none, some, List, [], ◌∷◌, ◌++◌, length}

pub record ReaderWriterQueue (A : Type 0) : Type 1 where
  pub Queue : Type 0
  pub to_list : Queue → List A
  pub enqueue : Queue → A → Queue
  pub try_dequeue : Queue → Option (A × Queue)
  pub size_approx : Queue → ℕ
  pub to_list-enqueue : (q : Queue) (a : A) → to_list (enqueue q a) ≡ to_list q ++ (a ∷ [])
  pub try_dequeue_lem :
      (q : Queue)
      → ((to_list q ≡ []) × (try_dequeue q ≡ none))
        ⊎ ((a : A) × (q' : Queue) × (to_list q ≡ a ∷ to_list q') × (try_dequeue q ≡ some (a, q')))
  pub size_approx_lem : (q : Queue) → size_approx q ≡ length (to_list q)

-- The list itself is such a queue.
abbrev dequeue_list : {A : Type 0} → List A → Option (A × List A)
dequeue_list [] = none
dequeue_list (a ∷ q) = some (a, q)

pub dequeue_list_lem :
    {A : Type 0} (q : List A)
    → ((q ≡ []) × (dequeue_list q ≡ none))
      ⊎ ((a : A) × (q' : List A) × (q ≡ a ∷ q') × (dequeue_list q ≡ some (a, q')))
dequeue_list_lem [] = inl (refl, refl)
dequeue_list_lem (a ∷ q) = inr (a, q, refl, refl)

abbrev pub list_queue : (A : Type 0) → ReaderWriterQueue A
list_queue A = record {
  Queue = List A;
  to_list = λ q. q;
  enqueue = λ q a. q ++ (a ∷ []);
  try_dequeue = dequeue_list;
  size_approx = length;
  to_list-enqueue = λ q a. refl;
  try_dequeue_lem = dequeue_list_lem;
  size_approx_lem = λ q. refl;
}
