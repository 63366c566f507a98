-- ===== src/Shutdown/Ending.antt =====
-- main.cpp, `finish_ok`: it can always come to its end.
use mathlib.Core.Path.{subst}
use es_sensor.Prelude.{
  arith, ℕ, zero, suc, ◌≡◌, refl, ap, ◌∙◌, sym, Bool, true, false, ◌&&◌, Bool-cases, inl, inr, List,
  [], ◌∷◌,
}
use es_sensor.Shutdown.{
  Stage, Chain, out, stage, is_empty, loop_condition, goes_on, push, Move, round, finish, stop,
  further, System, Step, stop_receiver, end_receiver, work, all_ended,
}

left_loop :
    (running drains empty : Bool)
    → running ≡ false
    → empty ≡ true
    → loop_condition running drains empty ≡ false
left_loop true drains empty off e = cc
left_loop false true true off e = refl
left_loop false true false off e = cc
left_loop false false empty off e = refl

module _ {A : Type 0} where
  -- Steps of the blocks one after the other.
  data Moves (b : Bool) (c : Chain A) : Chain A → Type 1 where
    still : Moves b c c
    then : {d e : Chain A} → Moves b c d → Move b d e → Moves b c e

  Moves-append : {b : Bool} {c d e : Chain A} → Moves b c d → Moves b d e → Moves b c e
  Moves-append ms still = ms
  Moves-append ms (then ns n) = then (Moves-append ms ns) n

  Moves-further :
      {b : Bool} (s : Stage A) {c d : Chain A} → Moves s.ended c d → Moves b (stage s c) (stage s d)
  Moves-further s still = still
  Moves-further s (then ms m) = then (Moves-further s ms) (further s m)

  depth : Chain A → ℕ
  depth (out ys) = 0
  depth (stage s c) = suc (depth c)

  depth-push : (ys : List A) (c : Chain A) → depth (push ys c) ≡ depth c
  unfolding depth
  depth-push ys (out zs) = refl
  depth-push ys (stage s c) = refl

  -- A block whose thread has ended, with what stands behind it.
  record Ended (b : Bool) (n : ℕ) (c : Chain A) : Type 1 where
    block : Stage A
    behind : Chain A
    gone : block.ended ≡ true
    same : depth behind ≡ n
    moves : Moves b c (stage block behind)

  Move-Ended : {b : Bool} {n : ℕ} {c d : Chain A} → Move b c d → Ended b n d → Ended b n c
  Move-Ended m e = record {
    block = e.block;
    behind = e.behind;
    gone = e.gone;
    same = e.same;
    moves = Moves-append (then still m) e.moves;
  }

  end_block :
      (q : List A) (s : Stage A) (c : Chain A) (n : ℕ)
      → depth c ≡ n
      → s.queue ≡ q
      → s.running ≡ false
      → s.ended ≡ false
      → Ended true n (stage s c)
  end_block [] s c n size e off live = record {
    block = record s { ended = true };
    behind = c;
    gone = refl;
    same = size;
    moves =
        then still
          (finish s c (left_loop s.running s.drains (is_empty s.queue) off (ap is_empty e)));
  }
  end_block (a ∷ q) s c n size e off live = elim (Bool-cases (goes_on s)) [
    | inr left ↦ record {
      block = record s { ended = true };
      behind = c;
      gone = refl;
      same = size;
      moves = then still (finish s c left);
    }
    | inl on ↦ Move-Ended (round s a q c live on e) (
        end_block q (record s { state = (s.step s.state a).0; queue = q })
          (push (s.step s.state a).1 c) n (depth-push (s.step s.state a).1 c ∙ size) refl off live)
  ]

  end_stage : (s : Stage A) (c : Chain A) → Ended true (depth c) (stage s c)
  end_stage s c = elim (Bool-cases s.ended) [
    | inl gone ↦ record { block = s; behind = c; gone = gone; same = refl; moves = still }
    | inr live ↦
        Move-Ended (stop s c refl)
          (end_block s.queue (record s { running = false }) c (depth c) refl refl refl live)
  ]

  end_chain :
      (n : ℕ) (c : Chain A) → depth c ≡ n → (d : Chain A) × Moves true c d × (all_ended d ≡ true)
  unfolding depth
  end_chain n (out ys) e = (out ys, still, refl)
  end_chain zero (stage s c) e = absurd (ground (arith, e))
  end_chain (suc n) (stage s c) e =
      let r = end_stage s c in
      let (d, moves, done) = end_chain n r.behind (r.same ∙ ground (arith, e)) in
      (
        stage r.block d,
        Moves-append r.moves
            (Moves-further r.block (subst (λ b. Moves b r.behind d) (sym r.gone) moves)),
        ap (λ b. b && all_ended d) r.gone ∙ done,
      )

  pub data Run (s : System A) : System A → Type 1 where
    here : Run s s
    on : {t u : System A} → Run s t → Step t u → Run s u

  Moves-Run :
      (s : System A) {d : Chain A}
      → s.stopped && s.ended ≡ true
      → Moves true s.chain d
      → Run s (record s { chain = d })
  Moves-Run s e still = here
  Moves-Run s e (then ms m) = on (Moves-Run s e ms) (work (rw e m))

  Run-append : {s t u : System A} → Run s t → Run t u → Run s u
  Run-append r here = r
  Run-append r (on q st) = on (Run-append r q) st

  -- From every state, whatever stands in the queues, the receiver can be stopped and then each block
  -- be stopped and joined in turn, and `finish_ok` comes to its end; nothing more is received.
  pub finish_ok-ends :
      (s : System A)
      → (t : System A) × Run s t × (t.received ≡ s.received) × (all_ended t.chain ≡ true)
  finish_ok-ends s =
      let (d, moves, done) = end_chain (depth s.chain) s.chain refl in
      let stopped : System A = record s { stopped = true; ended = true } in
      (
        record stopped { chain = d },
        Run-append (on (on here stop_receiver) end_receiver) (Moves-Run stopped refl moves),
        refl,
        done,
      )
