-- ===== src/Context/Valid.antt =====
-- The ranges that the setters of context/ElectrosenseContext.cpp guard.
use es_sensor.Prelude.{ℕ, ◌/◌, ◌^◌, ◌≤◌, ◌<◌, arith, Text, text_eq, ltb, if◌then◌else◌}
use native.Mathlib.Nat.{pow-le-pow_right}
use es_sensor.Numeric.{Float, shift_one, shift_one-eq, pow_pos, sub32}
use es_sensor.Context.{Context}
use es_sensor.Context.Set.{
  set_avg_factor, set_compr_level, set_soverlap, set_log2_fft_size, set_windowing,
  set_hopping_strategy, construct,
}

-- An averaging factor of at least one, a compression level of one digit, known window and hopping
-- ids, and a segment overlap that is shorter than a segment.
pub record IsValid {F : Type 0} (c : Context F) : Type 0 where
  pub avg_pos : 1 ≤ c.avg_factor
  pub compr_le : c.compr_level ≤ 9
  pub hopping_le : c.hopping_strategy_id ≤ 2
  pub windowing_le : c.windowing_id ≤ 2
  pub fft_le : c.log2_fft_size ≤ 30
  pub soverlap_lt : c.soverlap < 2 ^ c.log2_fft_size

-- A half of the segment is shorter than the segment, and the test of `setSoverlap` admits no more.
half_fits : (m n : ℕ) → 0 < m → m ≤ 2 ^ 30 → (if ltb (sub32 m 1) n then m / 2 else n) < m
half_fits m n p h = ground arith

pub soverlap_fits :
    (k n : ℕ) → k ≤ 30 → (if ltb (sub32 (shift_one k) 1) n then shift_one k / 2 else n) < 2 ^ k
soverlap_fits k n h =
    let small : 2 ^ k ≤ 2 ^ 30 = pow-le-pow_right {n = 2} (omega arith) h in
    let at_most : k ≤ 31 = omega arith in
    rw (shift_one-eq k at_most) (half_fits (2 ^ k) n (pow_pos k) small)

module _ {F : Type 0} where
  pub set_avg_factor-IsValid : (n : ℕ) (c : Context F) → IsValid c → IsValid (set_avg_factor n c)
  unfolding set_avg_factor
  set_avg_factor-IsValid n c v = ground arith

  pub set_compr_level-IsValid : (n : ℕ) (c : Context F) → IsValid c → IsValid (set_compr_level n c)
  unfolding set_compr_level
  set_compr_level-IsValid n c v = ground arith

  -- `setSoverlap` keeps a valid configuration valid, whatever overlap it is given: one that is not
  -- shorter than a segment becomes half a segment.
  pub set_soverlap-IsValid : (n : ℕ) (c : Context F) → IsValid c → IsValid (set_soverlap n c)
  unfolding set_soverlap
  set_soverlap-IsValid n c v = ground (arith, soverlap_fits c.log2_fft_size n v.fft_le)

  pub set_windowing-IsValid : (s : Text) (c : Context F) → IsValid c → IsValid (set_windowing s c)
  unfolding set_windowing
  set_windowing-IsValid s c v = ground arith

  pub set_hopping_strategy-IsValid :
      (s : Text) (c : Context F) → IsValid c → IsValid (set_hopping_strategy s c)
  unfolding set_hopping_strategy
  set_hopping_strategy-IsValid s c v = ground arith

  -- `setLog2FftSize` does not look at the overlap: a size that is too small for it leaves a context
  -- that is not valid.
  pub set_log2_fft_size_unchecked :
      (k : ℕ) (c : Context F) → 2 ^ k ≤ c.soverlap → ¬ IsValid (set_log2_fft_size k c)
  unfolding set_log2_fft_size
  set_log2_fft_size_unchecked k c h v = omega arith

module _ {F : Type 0} ⦃float : Float F⦄ where
  -- The constructor's defaults are valid, whatever storage it is given.
  pub construct-IsValid : (raw : Context F) → IsValid (construct raw)
  unfolding construct shift_one text_eq
  construct-IsValid raw = ground arith
