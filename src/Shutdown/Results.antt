-- ===== src/Shutdown/Results.antt =====
-- What the threads have done once `finish_ok` has stopped them all.
use mathlib.Core.List.{append-nil}
use mathlib.Core.Path.{subst}
use es_sensor.Prelude.{◌≡◌, refl, ap, ◌∙◌, sym, Bool, true, false, ◌&&◌, List, [], ◌∷◌, ◌++◌}
use es_sensor.Blocks.{final, outputs}
use es_sensor.Shutdown.{
  Chain, out, stage, is_empty, loop_condition, push, Move, round, finish, stop, further, System,
  Step, receive, stop_receiver, end_receiver, work, Reach, begin, later, IsFresh, all_drain,
  all_ended,
}
use es_sensor.Shutdown.Order.{
  Fed, Move-Fed, Move-Ordered, Ordered, Ordered-later, both_true, off-stopped, push-Fed, round-rest,
}

module _ {A : Type 0} where
  -- The blocks once each has worked on all that the one before passed on, and has ended.
  abbrev pub results : List A → Chain A → Chain A
  results xs (out ys) = out xs
  results xs (stage s c) =
      stage
        (record s { state = final s.step s.start xs; queue = []; running = false; ended = true })
        (results (outputs s.step s.start xs) c)

  results-push : (xs ys : List A) (c : Chain A) → results xs (push ys c) ≡ results xs c
  results-push xs ys (out zs) = refl
  results-push xs ys (stage s c) = refl

  results-Move :
      {b : Bool} {c d : Chain A} → Move b c d → (xs : List A) → results xs d ≡ results xs c
  results-Move (round s a q c live on e) xs =
      ap
        (λ (r : Chain A).
          stage
            (record s {
              state = final s.step s.start xs;
              queue = [];
              running = false;
              ended = true;
            })
            r)
        (results-push (outputs s.step s.start xs) (s.step s.state a).1 c)
  results-Move (finish s c off) xs = refl
  results-Move (stop s c before) xs = refl
  results-Move (further s m) xs =
      ap
        (λ (r : Chain A).
          stage
            (record s {
              state = final s.step s.start xs;
              queue = [];
              running = false;
              ended = true;
            })
            r)
        (results-Move m (outputs s.step s.start xs))

  all_drain-push : (ys : List A) (c : Chain A) → all_drain (push ys c) ≡ all_drain c
  all_drain-push ys (out zs) = refl
  all_drain-push ys (stage s c) = refl

  all_drain-Move : {b : Bool} {c d : Chain A} → Move b c d → all_drain d ≡ all_drain c
  all_drain-Move (round s a q c live on e) =
      ap (λ r. s.drains && r) (all_drain-push (s.step s.state a).1 c)
  all_drain-Move (finish s c off) = refl
  all_drain-Move (stop s c before) = refl
  all_drain-Move (further s m) = ap (λ r. s.drains && r) (all_drain-Move m)

  -- What holds of a system that was reached from its start.
  pub record Held (c : Chain A) (s : System A) : Type 1 where
    pub fed : Fed s.received s.chain
    pub ordered : Ordered s.ended s.chain
    pub same_results : (xs : List A) → results xs s.chain ≡ results xs c
    pub same_drain : all_drain s.chain ≡ all_drain c

  Fed-init : (c : Chain A) → IsFresh c → Fed [] c
  unfolding final outputs
  Fed-init (out ys) e = e
  Fed-init (stage s c) (state, queue, running, live, rest) = ([], sym queue, state, Fed-init c rest)

  Ordered-init : (b : Bool) (c : Chain A) → IsFresh c → Ordered b c
  Ordered-init b (out ys) e = tt
  Ordered-init b (stage s c) (state, queue, running, live, rest) =
      ((λ e. cc), (λ e. cc), Ordered-init s.ended c rest)

  Step-Held : {c : Chain A} {s t : System A} → Step s t → Held c s → Held c t
  Step-Held {c} {s} (receive a live) h = record {
    fed = push-Fed s.chain s.received (a ∷ []) h.fed;
    ordered = round-rest s.ended s.chain (a ∷ []) live h.ordered;
    same_results = λ xs. results-push xs (a ∷ []) s.chain ∙ h.same_results xs;
    same_drain = all_drain-push (a ∷ []) s.chain ∙ h.same_drain;
  }
  Step-Held {c} {s} stop_receiver h = record {
    fed = h.fed;
    ordered = h.ordered;
    same_results = h.same_results;
    same_drain = h.same_drain;
  }
  Step-Held {c} {s} end_receiver h = record {
    fed = h.fed;
    ordered = Ordered-later s.ended s.chain h.ordered;
    same_results = h.same_results;
    same_drain = h.same_drain;
  }
  Step-Held {c} {s} (work m) h = record {
    fed = Move-Fed m s.received h.fed;
    ordered = Move-Ordered m s.ended (λ e. (both_true s.stopped s.ended e).1) h.ordered;
    same_results = λ xs. results-Move m xs ∙ h.same_results xs;
    same_drain = all_drain-Move m ∙ h.same_drain;
  }

  -- In every interleaving from fresh blocks on: what the receiver has received and each block has
  -- passed on is worked on by the next block in this order, none of it is lost, and what is not worked
  -- on yet stands in the block's queue; a block is stopped only behind one that has ended.
  pub Reach-Held : {c : Chain A} {s : System A} → IsFresh c → Reach c s → Held c s
  Reach-Held {c} fresh begin = record {
    fed = Fed-init c fresh;
    ordered = Ordered-init false c fresh;
    same_results = λ xs. refl;
    same_drain = refl;
  }
  Reach-Held fresh (later r st) = Step-Held st (Reach-Held fresh r)

  drained :
      (drains : Bool) (running : Bool) (q : List A)
      → drains ≡ true
      → loop_condition running drains (is_empty q) ≡ false
      → q ≡ []
  drained drains running [] e h = refl
  drained drains true (a ∷ q) e h = cc
  drained drains false (a ∷ q) e h = cc

  all_ended-results :
      (b : Bool) (xs : List A) (c : Chain A)
      → Fed xs c
      → Ordered b c
      → all_drain c ≡ true
      → all_ended c ≡ true
      → c ≡ results xs c
  all_ended-results b xs (out ys) fed o drain done = ap out fed
  all_ended-results b xs (stage s c) (worked, parts, state, rest) (running, ended, o) drain done =
      let (drains, drain') = both_true s.drains (all_drain c) drain in
      let (gone, done') = both_true s.ended (all_ended c) done in
      let off = ended gone in
      let empty = drained s.drains s.running s.queue drains off in
      let whole : xs ≡ worked = parts ∙ ap (λ l. worked ++ l) empty ∙ append-nil worked in
      let tail =
        all_ended-results s.ended (outputs s.step s.start xs) c
          (subst (λ l. Fed (outputs s.step s.start l) c) (sym whole) rest) o drain' done' in
      λ i.
        stage
          (record s {
            state = (state ∙ ap (final s.step s.start) (sym whole)) i;
            queue = empty i;
            running = off-stopped s.running s.drains (is_empty s.queue) off i;
            ended = gone i;
          })
          (tail i)

  -- Where every block drains its queue: in whatever order the threads run from fresh blocks on, once
  -- `finish_ok` has stopped and joined them all, each block is in the state after all that the receiver
  -- has ever received and the blocks before it have made of that, in order, and no queue holds anything.
  pub finish_ok-results :
      (c : Chain A) (s : System A)
      → IsFresh c
      → all_drain c ≡ true
      → Reach c s
      → all_ended s.chain ≡ true
      → s.chain ≡ results s.received c
  finish_ok-results c s fresh drain r done =
      let h = Reach-Held fresh r in
      all_ended-results s.ended s.received s.chain h.fed h.ordered (h.same_drain ∙ drain) done
      ∙ h.same_results s.received
