-- ===== src/Tests/Context.antt =====
-- Runs on context/ElectrosenseContext.cpp.
use es_sensor.Prelude.{ℕ, ◌≡◌, ◌≢◌, refl, true, [], ◌∷◌, arith, Text, codes, leb}
use es_sensor.Numeric.{fixed_float}
use es_sensor.Context.Split.{split}
use es_sensor.Context.SplitLaws.{Lacks}
use es_sensor.Context.Valid.{IsValid}
use es_sensor.Tests.Data.{config}

config-IsValid : IsValid config
config-IsValid = record {
  avg_pos = omega arith;
  compr_le = omega arith;
  hopping_le = omega arith;
  windowing_le = omega arith;
  fft_le = omega arith;
  soverlap_lt = omega arith;
}

split_run : split b':' (codes "FLOAT:x:y") ≡ codes "FLOAT" ∷ codes "x" ∷ codes "y" ∷ []
unfolding split
split_run = refl

lacks : (x : ℕ) → leb x b'9' ≡ true → x ≢ b':'
lacks x h = ground arith

abbrev a_name : Text
a_name = 1 ∷ 2 ∷ []

Lacks-name : Lacks b':' a_name
Lacks-name = (lacks 1 refl, (lacks 2 refl, tt))
