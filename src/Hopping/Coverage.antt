-- ===== src/Hopping/Coverage.antt =====
-- Which part of the spectrum the hops of drivers/common/SequentialHopping.cpp observe: at a centre
-- frequency the receiver is used for `freqStep` around it.
use es_sensor.Prelude.{ℕ, ◌+◌, ◌-◌, ◌*◌, ◌/◌, ◌%◌, ◌^◌, ◌≤◌, ◌<◌, ◌≡◌, ◌↔◌, arith, length, get_or}
use native.Mathlib.Nat.{div-add-mod', mod-lt, mul-le-mul_right}
use es_sensor.Hopping.{SequentialHopping, make_hopping, hop_count}
use es_sensor.Hopping.Freqs.{IsEven, make_hopping-IsEven}

-- `f` lies in the band of width `step` around one of the frequencies.
abbrev pub Covers : SequentialHopping → ℕ → ℕ → Type 0
Covers h step f =
    (j : ℕ) × (j < length h.freqs)
    × (get_or h.freqs j 0 ≤ f + step / 2)
    × (f + step / 2 < get_or h.freqs j 0 + step)

band_of :
    (lo step f round : ℕ) → 0 < step → lo ≤ f → f < lo + round * step → (f - lo) / step < round
band_of lo step f round p a b = grind (arith, div-add-mod' (f - lo) step, mod-lt (f - lo) p)

module _ (lo hi step : ℕ) (few : hop_count lo hi step < 2 ^ 31)
    (fits : lo + step / 2 + (hop_count lo hi step + 1) * step < 2 ^ 64) where
  even :
      IsEven (lo + step / 2) step (1 + (hop_count lo hi step - 1)) (make_hopping lo hi step).freqs
  even = make_hopping-IsEven lo hi step few fits

  -- The bands of the hops make up the range from the lower bound over `max(1, total)` steps, with no
  -- gap in it.
  pub Covers-iff :
      (f : ℕ)
      → 0 < step
      → Covers (make_hopping lo hi step) step f
        ↔ ((lo ≤ f) × (f < lo + (1 + (hop_count lo hi step - 1)) * step))
  Covers-iff f p = (
    λ (j, inside, below, above).
        let spaced = even.spaced j (rw (← even.count) inside) in
        let count = even.count in (omega arith, grind arith),
    λ (a, b).
        let k = (f - lo) / step in
        let inside : k < 1 + (hop_count lo hi step - 1) = band_of lo step f _ p a b in
        let spaced = even.spaced k inside in
        let count = even.count in
        let parts = div-add-mod' (f - lo) step in
        let small = mod-lt (f - lo) p in (k, omega arith, omega arith, omega arith),
  )

  -- It reaches the upper bound but for a rest of less than `step - 10 ^ 6`.
  pub Covers-up_to :
      (f : ℕ)
      → 0 < step
      → lo ≤ f
      → lo ≤ hi
      → hi < 2 ^ 64
      → f + step ≤ hi + 1_000_000
      → Covers (make_hopping lo hi step) step f
  Covers-up_to f p a le top b =
      let range = (hi + 2 ^ 64 - lo) % 2 ^ 64 + 1_000_000 in
      let whole : range ≡ hi - lo + 1_000_000 = omega arith in
      let parts = div-add-mod' range step in
      let small = mod-lt range p in
      let more : range / step * step ≤ (1 + (range / step - 1)) * step =
        mul-le-mul_right step (let e : range / step ≤ 1 + (range / step - 1) = omega arith in e) in
      (Covers-iff f p).1 (a, omega arith)
