-- ===== src/Shutdown.antt =====
-- drivers/Component.h, main.cpp (`finish_ok`) and the loops and `stop` functions of the blocks: the
-- receiver and the blocks behind it as threads that run interleaved in any order, and the thread that
-- stops them one after the other.
pub mod Order
pub mod Results
pub mod Ending
pub mod Iq
use es_sensor.Prelude.{◌≡◌, Bool, true, false, not, ◌&&◌, ◌||◌, List, [], ◌∷◌, ◌++◌}
use es_sensor.Blocks.{Block}

-- A block: what its loop does with a segment, whether its loop goes on until the queue is empty, the
-- state at its start; and its state, its queue, `mRunning`, and whether its thread has ended.
pub record Stage (A : Type 0) : Type 1 where
  pub S : Type 0
  pub step : Block S A A
  pub drains : Bool
  pub start : S
  pub state : S
  pub queue : List A
  pub running : Bool
  pub ended : Bool

-- The blocks in the order of their queues, the order in which main.cpp stops them, and what the last
-- one has passed on.
pub data Chain (A : Type 0) : Type 1 where
  out : List A → Chain A
  stage : Stage A → Chain A → Chain A

abbrev pub is_empty {ℓ} : {A : Type ℓ} → List A → Bool
is_empty [] = true
is_empty (x ∷ xs) = false

-- `mRunning`, or `mRunning || mQueueIn->size_approx() != 0`
abbrev pub loop_condition : Bool → Bool → Bool → Bool
loop_condition running drains empty = running || (drains && not empty)

module _ {A : Type 0} where
  abbrev pub goes_on : Stage A → Bool
  goes_on s = loop_condition s.running s.drains (is_empty s.queue)

  -- Segments are put into the first queue.
  abbrev pub push : List A → Chain A → Chain A
  push xs (out ys) = out (ys ++ xs)
  push xs (stage s c) = stage (record s { queue = s.queue ++ xs }) c

  -- A step of a block, or of `finish_ok` on a block. The first index, `before`, says that the component in front of the
  -- first block has been stopped and its thread has been joined.
  pub data Move : Bool → Chain A → Chain A → Type 1 where
    round :
        {before : Bool} (s : Stage A) (a : A) (q : List A) (c : Chain A)
        → s.ended ≡ false
        → goes_on s ≡ true
        → s.queue ≡ a ∷ q
        → Move before (stage s c) (
            stage
              (record s { state = (s.step s.state a).0; queue = q })
              (push (s.step s.state a).1 c))
    finish :
        {before : Bool} (s : Stage A) (c : Chain A)
        → goes_on s ≡ false
        → Move before (stage s c) (stage (record s { ended = true }) c)
    stop :
        {before : Bool} (s : Stage A) (c : Chain A)
        → before ≡ true
        → Move before (stage s c) (stage (record s { running = false }) c)
    further :
        {before : Bool} (s : Stage A) {c d : Chain A}
        → Move s.ended c d
        → Move before (stage s c) (stage s d)

-- The receiver: whether it has been stopped, whether its thread has ended, what it has received; and
-- the blocks behind it.
pub record System (A : Type 0) : Type 1 where
  pub stopped : Bool
  pub ended : Bool
  pub received : List A
  pub chain : Chain A

module _ {A : Type 0} where
  -- The receiver's loop may end by itself.
  pub data Step (s : System A) : System A → Type 1 where
    receive :
        (a : A)
        → s.ended ≡ false
        → Step s (record s { received = s.received ++ (a ∷ []); chain = push (a ∷ []) s.chain })
    stop_receiver : Step s (record s { stopped = true })
    end_receiver : Step s (record s { ended = true })
    work : {c : Chain A} → Move (s.stopped && s.ended) s.chain c → Step s (record s { chain = c })

  abbrev pub init : Chain A → System A
  init c = record { stopped = false; ended = false; received = []; chain = c }

  pub data Reach (c : Chain A) : System A → Type 1 where
    begin : Reach c (init c)
    later : {s t : System A} → Reach c s → Step s t → Reach c t

  -- Every block has been started: it runs, in its first state, with an empty queue.
  abbrev pub IsFresh : Chain A → Type 0
  IsFresh (out ys) = ys ≡ []
  IsFresh (stage s c) =
      (s.state ≡ s.start) × (s.queue ≡ []) × (s.running ≡ true) × (s.ended ≡ false) × IsFresh c

  abbrev pub all_drain : Chain A → Bool
  all_drain (out ys) = true
  all_drain (stage s c) = s.drains && all_drain c

  -- `finish_ok` has returned.
  abbrev pub all_ended : Chain A → Bool
  all_ended (out ys) = true
  all_ended (stage s c) = s.ended && all_ended c
