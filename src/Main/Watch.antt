-- ===== src/Main/Watch.antt =====
-- main.cpp, lines 461 to 492: the loop that watches the components and restarts the decoder.
use es_sensor.Prelude.{
  ℕ, suc, ◌≤◌, ◌≡◌, refl, ap, ◌∙◌, Bool, true, false, not, ◌&&◌, ◌||◌, some, List, [], ◌∷◌, ◌++◌,
  arith, ◌==◌, if◌then◌else◌, if-both, Bool-cases, inl, inr, sym, ==_iff, length, take, get_elem?,
  All,
}
use mathlib.Core.List.{append_assoc, append-nil}

-- What one round sees: `isRunning` of each component, the decoder asked for, and whether the decoder's
-- process is alive.
pub record Tick : Type 0 where
  pub running : List Bool
  pub decoder : ℕ
  pub decoder_alive : Bool

pub data Action : Type 0 where
  stop_stream : Action
  start_stream : Action

pub record Watcher : Type 0 where
  pub current_dec : ℕ
  pub actions : List Action

unfoldable pub all_running : List Bool → Bool
all_running [] = true
all_running (b ∷ bs) = b && all_running bs

-- The decoder is an `unsigned int`, so that -1 is its greatest value.
unfoldable pub restart : Tick → Watcher → Watcher
restart t w =
    if not (t.decoder == w.current_dec) || not t.decoder_alive
    then (record {
      current_dec = t.decoder;
      actions =
          w.actions
          ++ (stop_stream ∷ (if t.decoder == 4_294_967_295 then [] else start_stream ∷ []));
    })
    else w

-- The loop over the rounds, and whether it has ended.
unfoldable pub watch : Bool → List Tick → Watcher → Bool × Watcher
unfolding all_running restart
watch dec [] w = (false, w)
watch dec (t ∷ ts) w =
    let rest = watch dec ts (if dec then restart t w else w) in
    if all_running t.running then rest else (true, w)

-- The actions that some rounds call for, in the DEC pipeline.
abbrev pub restarts : List Tick → ℕ → List Action
restarts [] current = []
restarts (t ∷ ts) current =
    (if not (t.decoder == current) || not t.decoder_alive
      then stop_stream ∷ (if t.decoder == 4_294_967_295 then [] else start_stream ∷ [])
      else [])
    ++ restarts ts t.decoder

-- What the loop did: `passed` rounds in which all components ran, and the end, if it came, at the
-- next round, in which one did not.
pub record Watched (dec : Bool) (ts : List Tick) (w : Watcher) (r : Bool × Watcher) : Type 0 where
  pub passed : ℕ
  pub inside : passed ≤ length ts
  pub all_ran : All (λ t. all_running t.running ≡ true) (take passed ts)
  pub ended :
      r.0 ≡ true → (t : Tick) × (get_elem? ts passed ≡ some t) × (all_running t.running ≡ false)
  pub going_on : r.0 ≡ false → passed ≡ length ts
  pub actions :
      r.1.actions ≡ w.actions ++ (if dec then restarts (take passed ts) w.current_dec else [])

none_done : (dec : Bool) (l : List Action) → l ≡ l ++ (if dec then [] else [])
none_done true l = sym (append-nil l)
none_done false l = sym (append-nil l)

unchanged : (a b : Bool) → (not a || not b) ≡ false → a ≡ true
unchanged true b e = refl
unchanged false b e = cc

-- One round in front of others.
one_more :
    (dec : Bool) (t : Tick) (ts : List Tick) (w : Watcher)
    → let w' : Watcher = if dec then restart t w else w in
      w'.actions ++ (if dec then restarts ts w'.current_dec else [])
      ≡ w.actions ++ (if dec then restarts (t ∷ ts) w.current_dec else [])
unfolding restart
one_more false t ts w = refl
one_more true t ts w = elim (Bool-cases (not (t.decoder == w.current_dec) || not t.decoder_alive)) [
  | inl e ↦ rw (e) (append_assoc w.actions _ (restarts ts t.decoder))
  | inr e ↦
      let same : w.current_dec ≡ t.decoder =
        sym ((==_iff t.decoder w.current_dec).0 (unchanged _ _ e)) in
      rw (e) (ap (λ d. w.actions ++ restarts ts d) same)
]

-- The loop ends exactly at the first round in which some component does not run, and before that, in
-- the DEC pipeline, it stops the stream in just those rounds in which another decoder is asked for
-- than in the round before or the decoder's process has died, and starts it again unless the decoder
-- asked for is -1; in the other pipelines it does nothing.
pub watch-Watched : (dec : Bool) (ts : List Tick) (w : Watcher) → Watched dec ts w (watch dec ts w)
unfolding watch
watch-Watched dec [] w = record {
  passed = 0;
  inside = omega arith;
  all_ran = tt;
  ended = λ e. cc;
  going_on = λ e. refl;
  actions = none_done dec w.actions;
}
watch-Watched dec (t ∷ ts) w =
    let w' : Watcher = if dec then restart t w else w in
    let rest = watch-Watched dec ts w' in
    if-both (Watched dec (t ∷ ts) w) (all_running t.running)
      (λ e. record {
        passed = suc rest.passed;
        inside = let i = rest.inside in omega arith;
        all_ran = (e, rest.all_ran);
        ended = rest.ended;
        going_on = λ f. ap suc (rest.going_on f);
        actions = rest.actions ∙ one_more dec t (take rest.passed ts) w;
      })
      (λ e. record {
        passed = 0;
        inside = omega arith;
        all_ran = tt;
        ended = λ _. (t, refl, e);
        going_on = λ f. cc;
        actions = none_done dec w.actions;
      })
