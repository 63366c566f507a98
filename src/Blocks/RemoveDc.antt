-- ===== src/Blocks/RemoveDc.antt =====
-- ProcessingBlocks/RemoveDC.cpp and RemoveDCRTL.cpp: samples of 0 to 255 become values around 0.
use es_sensor.Prelude.{ℕ, none, some, List, [], ◌∷◌, map}
use es_sensor.Numeric.{Float}
use es_sensor.Segment.{Segment, Complex}
use es_sensor.Blocks.{Block}

-- `get_buffer` and `get_buffer_len`: the bytes, and none behind `NULL`.
abbrev pub buffer_of : {F : Type 0} → Segment F → List ℕ
buffer_of s = elim s.samples [ none ↦ [] | some bytes ↦ bytes ]

module _ {F : Type 0} ⦃float : Float F⦄ where
  -- `(a - 127.4) / 128.0`
  pub remove_dc : F → F
  remove_dc a = float.div (float.sub a (float.lit 1274 10)) (float.lit 128 1)

  pub remove_dc_complex : Complex F → Complex F
  unfolding remove_dc
  remove_dc_complex c = record { real = remove_dc c.real; imag = remove_dc c.imag }

  -- The body of `RemoveDC::run`.
  unfoldable pub remove_dc_one : Segment F → Segment F
  unfolding remove_dc_complex
  remove_dc_one seg = record seg { iq_samples = map remove_dc_complex seg.iq_samples }

  unfoldable pub remove_dc_step : Block (Unit {0}) (Segment F) (Segment F)
  remove_dc_step s seg = (s, remove_dc_one seg ∷ [])

  -- The body of `RemoveDCRTL::run`.
  unfoldable pub remove_dc_rtl_one : Segment F → Segment F
  unfolding remove_dc
  remove_dc_rtl_one seg = record seg {
    iq_time_v2 = map (λ b. remove_dc (float.of_nat b)) (buffer_of seg);
  }

  unfoldable pub remove_dc_rtl_step : Block (Unit {0}) (Segment F) (Segment F)
  remove_dc_rtl_step s seg = (s, remove_dc_rtl_one seg ∷ [])
