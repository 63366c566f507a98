-- ===== src/Blocks/Loop.antt =====
-- The loops of RemoveDCRTL.cpp, IQSink.cpp and Transmission.cpp, which after `stop` go on until the
-- queue is empty.
use es_sensor.Prelude.{
  ℕ, zero, suc, ◌≤◌, ◌≡◌, refl, sym, ap, ◌∙◌, inl, inr, Option, none, some, List, [], ◌∷◌, ◌++◌,
  arith, ◌==◌, if◌then◌else◌, length,
}
use mathlib.Core.List.{append_assoc, append-nil}
use es_sensor.Queue.{ReaderWriterQueue}
use es_sensor.Blocks.{Block, final, outputs}

module _ {S A B : Type 0} (qin : ReaderWriterQueue A) (qout : ReaderWriterQueue B)
    (step : Block S A B) where
  open qin use {
    Queue as QueueIn, to_list as listed_in, try_dequeue, try_dequeue_lem, size_approx,
    size_approx_lem,
  }
  open qout use {Queue as QueueOut, to_list as listed_out, enqueue, to_list-enqueue}

  -- A thread between two rounds of its loop.
  pub record Thread : Type 0 where
    pub state : S
    pub queue_in : QueueIn
    pub queue_out : QueueOut

  enqueue_all : QueueOut → List B → QueueOut
  enqueue_all q [] = q
  enqueue_all q (b ∷ bs) = enqueue_all (enqueue q b) bs

  -- The body of the loop: `if (mQueueIn->try_dequeue(segment)) … else usleep(1);`
  pub turn : Thread → Thread
  unfolding enqueue_all
  turn t = elim (try_dequeue t.queue_in) [
    | none ↦ t
    | some (a, q) ↦ record {
      state = (step t.state a).0;
      queue_in = q;
      queue_out = enqueue_all t.queue_out (step t.state a).1;
    }
  ]

  -- `while (mRunning || mQueueIn->size_approx() != 0)` once `mRunning` is false, on fuel; `none`
  -- means that the fuel ran out.
  pub drain : ℕ → Thread → Option Thread
  drain zero t = none
  drain (suc fuel) t =
      let rest = drain fuel (turn t) in if size_approx t.queue_in == 0 then some t else rest

  listed_out-enqueue_all :
      (q : QueueOut) (bs : List B) → listed_out (enqueue_all q bs) ≡ listed_out q ++ bs
  unfolding enqueue_all
  listed_out-enqueue_all q [] = sym (append-nil _)
  listed_out-enqueue_all q (b ∷ bs) =
      listed_out-enqueue_all (enqueue q b) bs
      ∙ ap (λ l. l ++ bs) (to_list-enqueue q b)
      ∙ append_assoc (listed_out q) (b ∷ []) bs

  after_turn : Thread → A → QueueIn → Thread
  after_turn t a q = record {
    state = (step t.state a).0;
    queue_in = q;
    queue_out = enqueue_all t.queue_out (step t.state a).1;
  }

  turn_found :
      (t : Thread) (a : A) (q : QueueIn)
      → try_dequeue t.queue_in ≡ some (a, q)
      → turn t ≡ after_turn t a q
  unfolding turn after_turn
  turn_found t a q e = rw (e, turn)

  drain_more :
      (fuel n : ℕ) (t : Thread)
      → size_approx t.queue_in ≡ suc n
      → drain (suc fuel) t ≡ drain fuel (turn t)
  unfolding drain
  drain_more fuel n t e = rw e (ground arith)

  -- A loop that drains its queue passes on everything: with more fuel than there are segments, it
  -- ends with the queue empty, in the state after all of them, and what the block makes of them is
  -- behind what was already passed on.
  pub drain-total :
      (fuel : ℕ) (t : Thread) (xs : List A)
      → listed_in t.queue_in ≡ xs
      → suc (length xs) ≤ fuel
      → (u : Thread) × (drain fuel t ≡ some u)
        × (listed_in u.queue_in ≡ [])
        × (u.state ≡ final step t.state xs)
        × (listed_out u.queue_out ≡ listed_out t.queue_out ++ outputs step t.state xs)
  unfolding after_turn final outputs
  drain-total zero t xs e h = elim h [ ]
  drain-total (suc fuel) t [] e h =
      let none_left : size_approx t.queue_in ≡ 0 = size_approx_lem t.queue_in ∙ ap length e in
      (t, unfold drain in rw none_left, e, refl, sym (append-nil _))
  drain-total (suc fuel) t (x ∷ xs) e h = elim (try_dequeue_lem t.queue_in) [
    | inl (empty, _) ↦ cc
    | inr (a, q, l, d) ↦
        let same : x ∷ xs ≡ a ∷ listed_in q = sym e ∙ l in
        let head : x ≡ a = cc in
        let tail : listed_in q ≡ xs = cc in
        let (u, run, done, at_end, out) =
          drain-total fuel (after_turn t a q) xs tail (omega arith) in
        (
          u,
          drain_more fuel (length xs) t (size_approx_lem t.queue_in ∙ ap length e)
              ∙ ap (drain fuel) (turn_found t a q d)
              ∙ run,
          done,
          rw head at_end,
          rw head (
              out
              ∙ ap (λ l. l ++ outputs step (step t.state a).0 xs)
                  (listed_out-enqueue_all t.queue_out (step t.state a).1)
              ∙ append_assoc (listed_out t.queue_out) (step t.state a).1 _),
        )
  ]
