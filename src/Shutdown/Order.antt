-- ===== src/Shutdown/Order.antt =====
-- What holds of the threads in every interleaving: each block works on the segments in their order,
-- and a stopped block that drains its queue leaves nothing behind.
use mathlib.Core.List.{append_assoc, append-nil}
use mathlib.Core.Path.{subst}
use es_sensor.Prelude.{◌≡◌, refl, ap, ◌∙◌, sym, Bool, true, false, ◌&&◌, List, [], ◌∷◌, ◌++◌}
use es_sensor.Blocks.{final, outputs, final-append, outputs-append}
use es_sensor.Shutdown.{
  Stage, Chain, out, stage, is_empty, loop_condition, goes_on, push, Move, round, finish, stop,
  further,
}

pub off-stopped :
    (running drains empty : Bool) → loop_condition running drains empty ≡ false → running ≡ false
off-stopped true drains empty h = cc
off-stopped false drains empty h = refl

pub off-stop :
    (running drains empty : Bool)
    → loop_condition running drains empty ≡ false
    → loop_condition false drains empty ≡ false
off-stop true drains empty h = cc
off-stop false drains empty h = h

pub both_true : (a b : Bool) → a && b ≡ true → (a ≡ true) × (b ≡ true)
both_true true b e = (refl, e)
both_true false b e = cc

module _ {A : Type 0} where
  -- Of the segments that were put into a block's queue it has worked on the first ones, in order, and
  -- the rest stands in the queue; and so on with what it has passed on.
  abbrev pub Fed : List A → Chain A → Type 0
  Fed xs (out ys) = ys ≡ xs
  Fed xs (stage s c) =
      (worked : List A) × (xs ≡ worked ++ s.queue)
      × (s.state ≡ final s.step s.start worked)
      × Fed (outputs s.step s.start worked) c

  pub push-Fed : (c : Chain A) (xs ys : List A) → Fed xs c → Fed (xs ++ ys) (push ys c)
  push-Fed (out zs) xs ys e = ap (λ l. l ++ ys) e
  push-Fed (stage s c) xs ys (worked, e, state, rest) =
      (worked, ap (λ l. l ++ ys) e ∙ append_assoc worked s.queue ys, state, rest)

  pub round-Fed :
      (s : Stage A) (a : A) (q : List A) (c : Chain A) (xs : List A)
      → s.queue ≡ a ∷ q
      → Fed xs (stage s c)
      → Fed xs (
          stage
            (record s { state = (s.step s.state a).0; queue = q })
            (push (s.step s.state a).1 c))
  unfolding final outputs
  round-Fed s a q c xs e (worked, parts, state, rest) =
      let state' : (s.step s.state a).0 ≡ final s.step s.start (worked ++ (a ∷ [])) =
        ap (λ t. (s.step t a).0) state ∙ sym (final-append s.step s.start worked (a ∷ [])) in
      let passed : outputs s.step s.start worked ++ (s.step s.state a).1
          ≡ outputs s.step s.start (worked ++ (a ∷ [])) =
        ap (λ t. outputs s.step s.start worked ++ (s.step t a).1) state
        ∙ ap (λ l. outputs s.step s.start worked ++ l) (sym (append-nil _))
        ∙ sym (outputs-append s.step s.start worked (a ∷ [])) in
      (
        worked ++ (a ∷ []),
        parts ∙ ap (λ l. worked ++ l) e ∙ sym (append_assoc worked (a ∷ []) q),
        state',
        subst (λ l. Fed l (push (s.step s.state a).1 c)) passed
            (push-Fed c (outputs s.step s.start worked) (s.step s.state a).1 rest),
      )

  pub Move-Fed : {b : Bool} {c d : Chain A} → Move b c d → (xs : List A) → Fed xs c → Fed xs d
  Move-Fed (round s a q c live on e) xs fed = round-Fed s a q c xs e fed
  Move-Fed (finish s c off) xs fed = fed
  Move-Fed (stop s c before) xs fed = fed
  Move-Fed (further s m) xs (worked, parts, state, rest) =
      (worked, parts, state, Move-Fed m (outputs s.step s.start worked) rest)

  -- A block that was stopped gets nothing more, and one that has ended has left its loop.
  abbrev pub Ordered : Bool → Chain A → Type 0
  Ordered before (out ys) = Unit
  Ordered before (stage s c) =
      (s.running ≡ false → before ≡ true) × (s.ended ≡ true → goes_on s ≡ false) × Ordered s.ended c

  pub push-Ordered : (c : Chain A) (ys : List A) → Ordered false c → Ordered false (push ys c)
  push-Ordered (out zs) ys o = tt
  push-Ordered (stage s c) ys (running, ended, rest) = (
    running,
    (λ e.
        let impossible : false ≡ true =
          running (off-stopped s.running s.drains (is_empty s.queue) (ended e)) in
        cc),
    rest,
  )

  pub round-rest :
      (b : Bool) (c : Chain A) (ys : List A) → b ≡ false → Ordered b c → Ordered b (push ys c)
  round-rest b c ys live o =
      subst (λ x. Ordered x (push ys c)) (sym live)
        (push-Ordered c ys (subst (λ x. Ordered x c) live o))

  pub Ordered-later : (b : Bool) (c : Chain A) → Ordered b c → Ordered true c
  Ordered-later b (out ys) o = tt
  Ordered-later b (stage s c) (running, ended, rest) = (λ e. refl, ended, rest)

  pub Move-Ordered :
      {b : Bool} {c d : Chain A}
      → Move b c d
      → (b' : Bool) → (b ≡ true → b' ≡ true)
      → Ordered b' c
      → Ordered b' d
  Move-Ordered (round s a q c live on e) b' h (running, ended, rest) = (
    running,
    (λ gone. let impossible : false ≡ true = sym live ∙ gone in cc),
    round-rest s.ended c (s.step s.state a).1 live rest,
  )
  Move-Ordered (finish s c off) b' h (running, ended, rest) =
      (running, (λ e. off), Ordered-later s.ended c rest)
  Move-Ordered (stop s c before) b' h (running, ended, rest) =
      ((λ e. h before), (λ e. off-stop s.running s.drains (is_empty s.queue) (ended e)), rest)
  Move-Ordered (further s m) b' h (running, ended, rest) =
      (running, ended, Move-Ordered m s.ended (λ e. e) rest)
