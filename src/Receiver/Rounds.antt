-- ===== src/Receiver/Rounds.antt =====
-- drivers/rtlsdr/rtlsdrDriver.cpp, `SyncSampling`: what the rounds send.
use es_sensor.Prelude.{
  ℕ, suc, ◌≡◌, inl, inr, refl, sym, ap, ◌∙◌, Bool, true, ◌&&◌, Option, none, some, List, [], ◌∷◌,
  ◌++◌, if-both, length,
}
use mathlib.Core.List.{append_assoc, append-nil}
use es_sensor.Numeric.{Float}
use es_sensor.Context.{Context}
use es_sensor.Hopping.Rounds.{hops, hops_step}
use es_sensor.Segment.{Segment}
use es_sensor.Blocks.PsdPipeline.{Bursts, concat}
use es_sensor.Receiver.{Answers, Sampling}
use es_sensor.Receiver.Silence.{is_reset}
use mathlib.Core.Path.{subst}
use es_sensor.Receiver.Sync.{sync_round, sync_rounds}
use es_sensor.Receiver.Course.{
  is_complete, expected_len, Course, out_of_answers, stopped, missed, got, Course-move,
}
use es_sensor.Receiver.RoundSteps.{Step, SomeStep, sync_round-Step}

module _ {F : Type 0} ⦃float : Float F⦄ where
  -- What any number of rounds did: they visited the frequencies `visited`, one in each round, in the
  -- order of `nextHop`, and for those in `received` they sent one burst of `avg_factor` segments
  -- each, where `Course` says from the answers which these are.
  pub record Sent (converter : Bool) (c : Context F) (answers : List Answers) (s s' : Sampling F)
      : Type 0 where
    pub visited : List ℕ
    pub received : List ℕ
    pub bursts : List (List (Segment F))
    pub course :
        Course converter
          (expected_len c s)
          s.running
          answers
          s.previous_freq
          s.previous_proxy_freq
          visited
          received
    pub hopped : hops (length visited) s.hopping ≡ some (visited, s'.hopping)
    pub is_bursts : Bursts c.avg_factor received bursts
    pub sent : s'.sent ≡ s.sent ++ concat bursts

  Sent-none :
      (converter : Bool) (c : Context F) (answers : List Answers) (s : Sampling F)
      → Course converter
          (expected_len c s)
          s.running
          answers
          s.previous_freq
          s.previous_proxy_freq
          []
          []
      → Sent converter c answers s s
  unfolding hops
  Sent-none converter c answers s course = record {
    visited = [];
    received = [];
    bursts = [];
    course = course;
    hopped = refl;
    is_bursts = tt;
    sent = sym (append-nil s.sent);
  }

  Sent-cons :
      (converter : Bool) (c : Context F) (a : Answers) (answers : List Answers)
      (s s' s'' : Sampling F)
      → s.running ≡ true
      → Step converter c a s s'
      → Sent converter c answers s' s''
      → Sent converter c (a ∷ answers) s s''
  unfolding hops
  Sent-cons converter c a answers s s' s'' on step rest =
      let hopped : hops (suc (length rest.visited)) s.hopping
          ≡ some (step.freq ∷ rest.visited, s''.hopping) =
        hops_step _ _ _ _ _ _ step.hop rest.hopped in
      let reset = is_reset converter a step.freq s.previous_freq s.previous_proxy_freq in
      let complete = is_complete a (expected_len c s) in
      elim step.sends [
        | inl (missed_it, quiet, run) ↦ record {
          visited = step.freq ∷ rest.visited;
          received = rest.received;
          bursts = rest.bursts;
          course = Course-move refl (sym on) refl refl (
              missed missed_it
                (Course-move step.len (run ∙ on) step.previous step.proxy rest.course));
          hopped = hopped;
          is_bursts = rest.is_bursts;
          sent = rest.sent ∙ ap (λ l. l ++ concat rest.bursts) quiet;
        }
        | inr (got_it, b, run) ↦ record {
          visited = step.freq ∷ rest.visited;
          received = step.freq ∷ rest.received;
          bursts = b.burst ∷ rest.bursts;
          course = Course-move refl (sym on) refl refl (
              got got_it (
                Course-move step.len (run ∙ ap (λ r. (r && reset) && complete) on) step.previous
                  step.proxy rest.course));
          hopped = hopped;
          is_bursts = (b.size, b.same, rest.is_bursts);
          sent =
              rest.sent
              ∙ ap (λ l. l ++ concat rest.bursts) b.sent
              ∙ append_assoc s.sent b.burst (concat rest.bursts);
        }
      ]

  abbrev SomeSent : Bool → Context F → List Answers → Sampling F → Option (Sampling F) → Type 0
  SomeSent converter c answers s none = Unit
  SomeSent converter c answers s (some s') = Sent converter c answers s s'

  rounds_after :
      (converter : Bool) (c : Context F) (a : Answers) (answers : List Answers) (s : Sampling F)
      (o : Option (Sampling F))
      → s.running ≡ true
      → ((s' : Sampling F) → SomeSent converter c answers s' (sync_rounds converter c answers s'))
      → SomeStep converter c a s o
      → SomeSent converter c
          (a ∷ answers)
          s
          (elim o [ none ↦ none | some s' ↦ sync_rounds converter c answers s' ])
  rounds_after converter c a answers s none on rest h = tt
  rounds_after converter c a answers s (some s') on rest h =
      more (sync_rounds converter c answers s') (rest s')
    where
      more :
          (o : Option (Sampling F))
          → SomeSent converter c answers s' o
          → SomeSent converter c (a ∷ answers) s o
      more none r = tt
      more (some s'') r = Sent-cons converter c a answers s s' s'' on h r

  sync_rounds-SomeSent :
      (converter : Bool) (c : Context F) (answers : List Answers) (s : Sampling F)
      → SomeSent converter c answers s (sync_rounds converter c answers s)
  unfolding sync_rounds
  sync_rounds-SomeSent converter c [] s = Sent-none converter c [] s out_of_answers
  sync_rounds-SomeSent converter c (a ∷ answers) s =
      if-both (SomeSent converter c (a ∷ answers) s) s.running
        (λ on.
          rounds_after converter c a answers s (sync_round converter c a s) on
            (λ s'. sync_rounds-SomeSent converter c answers s') (sync_round-Step converter c a s))
        (λ off. Sent-none converter c (a ∷ answers) s (
          subst
            (λ r.
              Course converter (expected_len c s) r (a ∷ answers) s.previous_freq
                s.previous_proxy_freq [] [])
            (sym off) stopped))

  -- Any number of rounds that end without an exception visit one frequency each, in the order of
  -- `nextHop`, until the answers are used up or the loop stops. A frequency is received exactly if it
  -- or the converter's intermediate frequency is the one set before, or else if setting it works;
  -- the loop stops after a reset that fails or a read that is not complete. For each frequency
  -- received one burst of exactly `avg_factor` segments of that frequency is sent, one behind the
  -- other, and nothing else.
  pub sync_rounds-Sent :
      (converter : Bool) (c : Context F) (answers : List Answers) (s s' : Sampling F)
      → sync_rounds converter c answers s ≡ some s'
      → Sent converter c answers s s'
  sync_rounds-Sent converter c answers s s' e =
      subst (SomeSent converter c answers s) e (sync_rounds-SomeSent converter c answers s)
