-- ===== src/Network/TcpLaws.antt =====
-- misc/TCP.cpp, `tcp_write` and `tcp_read`: a message goes through whole and in order.
use es_sensor.Prelude.{
  ℕ, zero, suc, ◌+◌, ◌-◌, ◌≤◌, ◌<◌, ◌≡◌, refl, sym, ap, ◌∙◌, min, false, List, [], ◌∷◌, ◌++◌, arith,
  ◌==◌, if-both, length, take, drop, drop-drop, length-drop, take-take, ==_iff, take_all, ◌⊎◌,
}
use es_sensor.Prelude.Int.{ℤ, pos, negsuc}
use es_sensor.Network.{Outcome, success}
use es_sensor.Network.Tcp.{next_chunk, tcp_write}

-- As long as the message is not out, `write` takes something each time, and no more than the part of
-- at most 512 bytes that it is given; what it would answer afterwards does not matter.
abbrev pub Takes : List ℤ → ℕ → ℕ → Type 0
Takes [] len done = Unit
Takes (negsuc e ∷ answers) len done = ⊥
Takes (pos b ∷ answers) len done =
    (0 < b) × (b ≤ min 512 (len - done)) × (done + b < len → Takes answers len (done + b))

ne_omega : (a b : ℕ) → (a == b) ≡ false → (a < b) ⊎ (b < a)
ne_omega a b e = ground arith

split_rest : (b : ℕ) (xs : List ℕ) → take b xs ++ drop b xs ≡ xs
split_rest zero xs = refl
split_rest (suc b) [] = refl
split_rest (suc b) (x ∷ xs) = ap (◌∷◌ x) (split_rest b xs)

pair_eq : {A B : Type 0} {p : A × B} {a : A} {b : B} → p.0 ≡ a → p.1 ≡ b → p ≡ (a, b)
pair_eq e e' = λ i. (e i, e' i)

-- From any position on, the rest of the message goes out.
tcp_write_from :
    (answers : List ℤ) (msg : List ℕ) (done : ℕ)
    → Takes answers (length msg) done
    → done < length msg
    → length msg - done ≤ length answers
    → tcp_write answers msg done ≡ (success, drop done msg)
unfolding tcp_write next_chunk
tcp_write_from [] msg done takes left enough = absurd (omega arith)
tcp_write_from (negsuc e ∷ answers) msg done takes left enough = elim takes [ ]
tcp_write_from (pos b ∷ answers) msg done (some_bytes, fits, more) left enough =
    let xs = drop done msg in
    let one : take b (take (min 512 (length msg - done)) xs) ≡ take b xs = take-take b _ xs fits in
    if-both (λ (r : Outcome × List ℕ). r ≡ (success, xs)) (done + b == length msg)
      (λ e.
        let eq = (==_iff (done + b) (length msg)).0 e in
        let size = length-drop done msg in
        pair_eq refl (one ∙ take_all b xs (omega (arith, size, eq))))
      (λ e.
        let apart = ne_omega (done + b) (length msg) e in
        let rest =
          tcp_write_from answers msg (done + b) (more (omega arith)) (omega arith) (omega arith) in
        pair_eq (ap (λ (r : Outcome × List ℕ). r.0) rest) (
          ap (λ l. l ++ (tcp_write answers msg (done + b)).1) one
          ∙ ap (λ (r : Outcome × List ℕ). take b xs ++ r.1) rest
          ∙ ap (◌++◌ (take b xs)) (sym (drop-drop b done msg))
          ∙ split_rest b xs))

-- `tcp_write` of a message that is not empty, as long as `write` takes each time at least one byte and
-- at most what it is given, which is never more than 512: an answer for every byte is enough, the
-- result is 0 and exactly the message has gone out, in order.
pub tcp_write-whole :
    (answers : List ℤ) (msg : List ℕ)
    → Takes answers (length msg) 0
    → 0 < length msg
    → length msg ≤ length answers
    → tcp_write answers msg 0 ≡ (success, msg)
tcp_write-whole answers msg takes some_bytes enough =
    tcp_write_from answers msg 0 takes some_bytes (omega arith)
