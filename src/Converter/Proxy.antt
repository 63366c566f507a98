-- ===== src/Converter/Proxy.antt =====
-- drivers/rtlsdr/converter/rtlsdr_proxy.c: the library that stands between a program and librtlsdr and
-- tunes the converter. What librtlsdr and the converter answer is a parameter.
use es_sensor.Prelude.{
  ℕ, zero, suc, ◌-◌, ◌*◌, ◌/◌, ◌%◌, ◌^◌, Bool, Option, none, some, List, [], ◌∷◌, ◌++◌, ◌==◌,
  if◌then◌else◌,
}
use es_sensor.Prelude.Int.{ℤ, pos, negsuc}
use es_sensor.Receiver.{Command, tune_converter, set_center_freq}

-- The variables `currentRtlFreq`, `currentTunerFreq` and `useInversion`, and the commands given.
pub record Proxy : Type 0 where
  pub current_rtl_freq : ℕ
  pub current_tuner_freq : ℕ
  pub use_inversion : Bool
  pub commands : List Command

-- `rtlsdr_set_center_freq64` for what `converterTune` and librtlsdr answer: its result.
unfoldable pub set_center_freq64 : Option (ℕ × Bool) → ℤ → ℕ → Proxy → ℤ × Proxy
set_center_freq64 converter_tune center_result freq p =
    let p = record p {
      current_tuner_freq = freq;
      commands = p.commands ++ (tune_converter (freq / 1000) ∷ []);
    } in
    elim converter_tune [
      | none ↦ (negsuc 0, p)
      | some (new_freq, must_invert) ↦
          let p = record p { use_inversion = must_invert } in
          if new_freq == p.current_rtl_freq then (pos 0, p) else (
            center_result,
            record p {
              current_rtl_freq = new_freq;
              commands = p.commands ++ (set_center_freq (new_freq * 1000 % 2 ^ 32) ∷ []);
            },
          )
    ]

-- `rtlsdr_get_center_freq64`, and the two functions for 32 bits.
unfoldable pub get_center_freq64 : Proxy → ℕ
get_center_freq64 p = p.current_tuner_freq

unfoldable pub set_center_freq_32 : Option (ℕ × Bool) → ℤ → ℕ → Proxy → ℤ × Proxy
unfolding set_center_freq64
set_center_freq_32 converter_tune center_result freq p =
    set_center_freq64 converter_tune center_result (freq % 2 ^ 32) p

unfoldable pub get_center_freq_32 : Proxy → ℕ
unfolding get_center_freq64
get_center_freq_32 p = get_center_freq64 p % 2 ^ 32

-- `invertSpectrum`
unfoldable pub invert_spectrum : ℕ → List ℕ → List ℕ
invert_spectrum zero buf = buf
invert_spectrum (suc n) [] = []
invert_spectrum (suc zero) (x ∷ buf) = (255 - x) ∷ buf
invert_spectrum (suc (suc n)) (x ∷ []) = (255 - x) ∷ []
invert_spectrum (suc (suc n)) (x ∷ y ∷ buf) = (255 - x) ∷ y ∷ invert_spectrum n buf

-- `rtlsdr_read_sync` and `proxyCallback`: the buffer that the program sees, of which `n_read` bytes
-- were read.
unfoldable pub proxy_buffer : Proxy → ℕ → List ℕ → List ℕ
unfolding invert_spectrum
proxy_buffer p n_read buf = if p.use_inversion then invert_spectrum n_read buf else buf
