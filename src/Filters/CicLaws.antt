-- ===== src/Filters/CicLaws.antt =====
-- MiscBlocks/Filter/CIC: the filter against the sums that it stands for, and its gain.
use es_sensor.Prelude.{
  true, false, inl, inr, Bool-cases, leb→le, ℕ, zero, suc, ◌+◌, ◌*◌, ◌%◌, ◌^◌, ◌≤◌, ◌<◌, ◌≡◌, refl,
  ap, none, some, List, [], ◌∷◌, arith, replicate, leb,
}
use es_sensor.Numeric.{add32, sub32}
use es_sensor.Filters.Cic.{
  Cic, run_integrators, run_combs, gain_of, construct, cic_step, cic_filter,
}
use es_sensor.Filters.Streams.{
  Stream, before, integral, last_sum, repeated, block_end, decimated, integral_step, block_sums,
}

-- `m` values of a stream from the n-th on, and `q` values of the filter's output from the k-th on.
abbrev pub segment : Stream → ℕ → ℕ → List ℕ
segment f n zero = []
segment f n (suc m) = f n ∷ segment f (suc n) m

-- The output for the k-th block: the sum of the last `rate` values is taken `order` times over.
abbrev pub sums : ℕ → ℕ → Stream → Stream
sums order rate f k = decimated rate (repeated order (last_sum rate) f) k % 2 ^ 32

-- What stands in the integrators before the n-th sample, and in the combs before the k-th block.
abbrev integrators_at : ℕ → Stream → ℕ → List ℕ
integrators_at zero f n = []
integrators_at (suc order) f n =
    before (integral f) n % 2 ^ 32 ∷ integrators_at order (integral f) n

abbrev combs_at : ℕ → ℕ → Stream → ℕ → List ℕ
combs_at zero rate f k = []
combs_at (suc order) rate f k =
    before (decimated rate (repeated (suc order) integral f)) k % 2 ^ 32
    ∷ combs_at order rate (last_sum rate f) k

integrate :
    (f : Stream) (n : ℕ)
    → add32 (f n % 2 ^ 32) (before (integral f) n % 2 ^ 32) ≡ integral f n % 2 ^ 32
integrate f n = omega (arith, integral_step f n)

run_integrators_lem :
    (order : ℕ) (f : Stream) (n : ℕ)
    → run_integrators (integrators_at order f n) (f n % 2 ^ 32)
      ≡ (integrators_at order f (suc n), repeated order integral f n % 2 ^ 32)
unfolding run_integrators
run_integrators_lem zero f n = refl
run_integrators_lem (suc order) f n =
    rw (integrate f n, run_integrators_lem order (integral f) n) refl

comb_out : (a b c : ℕ) → a ≡ b + c → sub32 (a % 2 ^ 32) (b % 2 ^ 32) ≡ c % 2 ^ 32
comb_out a b c e = omega arith

run_combs_lem :
    (order rate : ℕ) (f : Stream) (k : ℕ)
    → 0 < rate
    → run_combs (combs_at order rate f k) (decimated rate (repeated order integral f) k % 2 ^ 32)
      ≡ (combs_at order rate f (suc k), sums order rate f k)
unfolding run_combs
run_combs_lem zero rate f k h = refl
run_combs_lem (suc order) rate f k h =
    rw
      (comb_out _ _ _ (block_sums order rate k f h), run_combs_lem order rate (last_sum rate f) k h)
      refl

-- The state before the n-th sample, which is the i-th of the k-th block.
abbrev state_at : ℕ → ℕ → ℕ → Stream → ℕ → ℕ → ℕ → Cic
state_at order rate gain f n i k = record {
  rate = rate;
  gain = gain;
  out_index = i;
  integrators = integrators_at order f n;
  combs = combs_at order rate f k;
}

inside_block :
    (order rate gain : ℕ) (f : Stream) (n i k : ℕ)
    → i + 1 < rate
    → cic_step (state_at order rate gain f n i k) (f n)
      ≡ (state_at order rate gain f (suc n) (i + 1) k, none)
unfolding cic_step
inside_block order rate gain f n i k h =
    let more : leb rate (i + 1) ≡ false = ground arith in
    rw (run_integrators_lem order f n, more) refl

at_block_end :
    (order rate gain : ℕ) (f : Stream) (n i k : ℕ)
    → 0 < rate
    → rate ≤ i + 1
    → n ≡ block_end rate k
    → cic_step (state_at order rate gain f n i k) (f n)
      ≡ (state_at order rate gain f (suc n) 0 (suc k), some (sums order rate f k))
unfolding cic_step
at_block_end order rate gain f n i k pos_rate h e =
    let done : leb rate (i + 1) ≡ true = ground arith in
    rw (run_integrators_lem order f n, e, run_combs_lem order rate f k pos_rate, done) refl

next_block : (q rate r i m : ℕ) → i + suc m ≡ suc q * rate + r → rate ≡ i + 1 → 0 + m ≡ q * rate + r
next_block q rate r i m e last = grind arith

no_block : (q rate r i : ℕ) → i < rate → i + 0 ≡ suc q * rate + r → ⊥
no_block q rate r i h e = grind arith

-- From the n-th sample on, which is the i-th of the k-th block.
filter_from :
    (order rate gain : ℕ) (f : Stream) (m n i k q r : ℕ)
    → i < rate
    → r < rate
    → n + rate ≡ block_end rate k + i + 1
    → i + m ≡ q * rate + r
    → (cic_filter (state_at order rate gain f n i k) (segment f n m)).1
      ≡ segment (sums order rate f) k q
unfolding cic_filter
filter_from order rate gain f zero n i k zero r hi hr place count = refl
filter_from order rate gain f zero n i k (suc q) r hi hr place count =
    absurd (no_block q rate r i hi count)
filter_from order rate gain f (suc m) n i k zero r hi hr place count =
    let small : i + suc m ≡ r = omega arith in
    rw (inside_block order rate gain f n i k (omega arith)) (
      filter_from order rate gain f m (suc n) (i + 1) k zero r (omega arith) hr (omega arith)
        (omega arith))
filter_from order rate gain f (suc m) n i k (suc q) r hi hr place count =
    elim (Bool-cases (leb rate (i + 1))) [
      | inl done ↦
          let last : rate ≡ i + 1 = omega (arith, leb→le rate (i + 1)) in
          rw (at_block_end order rate gain f n i k (omega arith) (omega arith) (omega arith)) (
            ap (λ outs. sums order rate f k ∷ outs)
              (filter_from order rate gain f m (suc n) 0 (suc k) q r (omega arith) hr (omega arith)
                (next_block q rate r i m count last)))
      | inr more ↦
          let inside : i + 1 < rate = ground arith in
          rw (inside_block order rate gain f n i k inside) (
            filter_from order rate gain f m (suc n) (i + 1) k (suc q) r inside hr (omega arith)
              (omega arith))
    ]

integrators_at_start : (order : ℕ) (f : Stream) → integrators_at order f 0 ≡ replicate order 0
integrators_at_start zero f = refl
integrators_at_start (suc order) f = ap (λ l. 0 ∷ l) (integrators_at_start order (integral f))

combs_at_start : (order rate : ℕ) (f : Stream) → combs_at order rate f 0 ≡ replicate order 0
combs_at_start zero rate f = refl
combs_at_start (suc order) rate f = ap (λ l. 0 ∷ l) (combs_at_start order rate (last_sum rate f))

construct_at :
    (order rate : ℕ) (f : Stream)
    → state_at order rate (gain_of order rate) f 0 0 0 ≡ construct order rate
unfolding construct
construct_at order rate f = rw (integrators_at_start order f, combs_at_start order rate f) refl

-- From any stream of samples a CIC filter puts out a value for each whole block of `rate` samples:
-- the exact sum of the last `rate` values, taken `order` times over, at the end of the block, modulo
-- 2 ^ 32; so the wrap-around of the integrators never shows but in the result's range.
pub cic_filter-sums :
    (order rate : ℕ) (f : Stream) (m q r : ℕ)
    → r < rate
    → m ≡ q * rate + r
    → (cic_filter (construct order rate) (segment f 0 m)).1 ≡ segment (sums order rate f) 0 q
cic_filter-sums order rate f m q r hr count = rw (← construct_at order rate f) (
    filter_from order rate (gain_of order rate) f m 0 0 0 q r (omega arith) hr (omega arith)
      (omega arith))
