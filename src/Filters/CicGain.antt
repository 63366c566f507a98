-- ===== src/Filters/CicGain.antt =====
-- MiscBlocks/Filter/CIC: how large the filter's numbers grow, and what `getGrowth` makes of it.
use es_sensor.Prelude.{
  ℕ, zero, suc, ◌+◌, ◌*◌, ◌/◌, ◌%◌, ◌^◌, ◌≤◌, ◌<◌, ◌≡◌, refl, ap, ◌∙◌, sym, arith, ◌∷◌,
}
use native.Mathlib.Nat.{pow-zero, pow-suc, mul_assoc, add-mul, mul-add-mod_self_left, mod-eq_of_lt}
use mathlib.Core.Path.{subst}
use es_sensor.Filters.Cic.{gain_of, construct, cic_filter}
use es_sensor.Filters.Streams.{Stream, last_sum, repeated, block_end, decimated}
use es_sensor.Filters.CicLaws.{sums, segment, cic_filter-sums}

mod_mul : (a b : ℕ) → a % 2 ^ 32 * b % 2 ^ 32 ≡ a * b % 2 ^ 32
mod_mul a b =
    let whole : a ≡ 2 ^ 32 * (a / 2 ^ 32) + a % 2 ^ 32 = omega arith in
    let split : a * b ≡ 2 ^ 32 * (a / 2 ^ 32 * b) + a % 2 ^ 32 * b =
      ap (λ (t : ℕ). t * b) whole
      ∙ add-mul (2 ^ 32 * (a / 2 ^ 32)) (a % 2 ^ 32) b
      ∙ ap (λ (t : ℕ). t + a % 2 ^ 32 * b) (mul_assoc (2 ^ 32) (a / 2 ^ 32) b) in
    rw split (sym (mul-add-mod_self_left (2 ^ 32) (a / 2 ^ 32 * b) (a % 2 ^ 32 * b)))

gain_of-pow : (order rate : ℕ) → gain_of order rate ≡ rate ^ order % 2 ^ 32
unfolding gain_of
gain_of-pow zero rate = rw (pow-zero rate) refl
gain_of-pow (suc order) rate =
    rw (gain_of-pow order rate, pow-suc rate order) (mod_mul (rate ^ order) rate)

last_sum-le : (r top n : ℕ) (f : Stream) → ((j : ℕ) → f j ≤ top) → last_sum r f n ≤ r * top
last_sum-le zero top n f h = omega arith
last_sum-le (suc r) top zero f h = grind (arith, h 0)
last_sum-le (suc r) top (suc n) f h = grind (arith, h (suc n), last_sum-le r top n f h)

repeated-le :
    (order rate top n : ℕ) (f : Stream)
    → ((j : ℕ) → f j ≤ top)
    → repeated order (last_sum rate) f n ≤ rate ^ order * top
repeated-le zero rate top n f h = rw (pow-zero rate) (omega (arith, h n))
repeated-le (suc order) rate top n f h =
    rw (pow-suc rate order, mul_assoc (rate ^ order) rate top)
      (repeated-le order rate (rate * top) n (last_sum rate f) (λ j. last_sum-le rate top j f h))

-- One value that is put out, where the growth fits into 32 bits.
sums_fit :
    (order rate top k : ℕ) (f : Stream)
    → ((j : ℕ) → f j ≤ top)
    → 0 < top
    → rate ^ order * top < 2 ^ 32
    → (gain_of order rate ≡ rate ^ order)
      × (sums order rate f k ≡ decimated rate (repeated order (last_sum rate) f) k)
      × (decimated rate (repeated order (last_sum rate) f) k ≤ rate ^ order * top)
sums_fit order rate top k f h pos_top small =
    let size = repeated-le order rate top (block_end rate k) f h in
    let gain_small : rate ^ order < 2 ^ 32 = grind arith in
    let gain : gain_of order rate ≡ rate ^ order =
      gain_of-pow order rate ∙ mod-eq_of_lt gain_small in
    let exact : sums order rate f k ≡ decimated rate (repeated order (last_sum rate) f) k =
      mod-eq_of_lt (omega arith) in
    (gain, exact, size)

segment_cong : (f g : Stream) (n m : ℕ) → ((k : ℕ) → f k ≡ g k) → segment f n m ≡ segment g n m
segment_cong f g n zero h = refl
segment_cong f g n (suc m) h =
    ap (λ x. x ∷ segment f (suc n) m) (h n) ∙ ap (◌∷◌ (g n)) (segment_cong f g (suc n) m h)

-- From a stream of samples none of which is larger than `top`, where `top` times `rate ^ order` is
-- below 2 ^ 32: the filter puts out for each whole block of `rate` samples the exact sum of the last
-- `rate` values, taken `order` times over, without any wrap-around; the growth that it has kept is
-- exactly `rate ^ order`, and no value is larger than `top` times it.
pub cic_filter-exact :
    (order rate top : ℕ) (f : Stream) (m q r : ℕ)
    → ((j : ℕ) → f j ≤ top)
    → 0 < top
    → rate ^ order * top < 2 ^ 32
    → r < rate
    → m ≡ q * rate + r
    → let exact = decimated rate (repeated order (last_sum rate) f) in
      let c = construct order rate in
      ((cic_filter c (segment f 0 m)).1 ≡ segment exact 0 q)
      × (c.gain ≡ rate ^ order)
      × ((k : ℕ) → exact k ≤ c.gain * top)
unfolding construct
cic_filter-exact order rate top f m q r h pos_top small hr count =
    let exact = decimated rate (repeated order (last_sum rate) f) in
    let gain = (sums_fit order rate top 0 f h pos_top small).0 in
    (
      cic_filter-sums order rate f m q r hr count
          ∙ segment_cong (sums order rate f) exact 0 q
              (λ k. (sums_fit order rate top k f h pos_top small).1),
      gain,
      λ k.
          subst (λ g. exact k ≤ g * top) (sym gain) (sums_fit order rate top k f h pos_top small).2,
    )

pow_of_product : (a b n : ℕ) → (a * b) ^ n ≡ a ^ n * b ^ n
pow_of_product a b zero = rw (pow-zero (a * b), pow-zero a, pow-zero b) refl
pow_of_product a b (suc n) =
    rw (pow-suc (a * b) n, pow-suc a n, pow-suc b n, pow_of_product a b n) (grind arith)

-- Of order 6, the growth of a rate of 64 times anything is a multiple of 2 ^ 32, and is kept as 0, by
-- which the samples are divided; with 6 kHz, the output rate without a decoder, the rate is 128.
pub gain_of_lost : (t : ℕ) → gain_of 6 (64 * t) ≡ 0
gain_of_lost t =
    gain_of-pow 6 (64 * t) ∙ ap (λ (p : ℕ). p % 2 ^ 32) (pow_of_product 64 t 6) ∙ omega arith
