-- ===== src/Tests/Hopping.antt =====
-- Runs on drivers/common/SequentialHopping.cpp.
use es_sensor.Prelude.{◌+◌, ◌*◌, ◌%◌, ◌≤◌, ◌<◌, ◌≡◌, ◌↔◌, refl, true, some, [], ◌∷◌, arith, map}
use es_sensor.Hopping.{SequentialHopping, make_hopping, is_round_finished, construct}
use es_sensor.Hopping.Rounds.{hops, upto, hops-make_hopping}
use es_sensor.Hopping.Coverage.{Covers, Covers-iff}
use es_sensor.Numeric.{fixed_float}
use es_sensor.Tests.Data.{config}

construct_run : (construct config).freqs ≡ 25_000_000 ∷ 27_000_000 ∷ []
unfolding construct
construct_run = refl

hops-make_hopping_example :
    let h = make_hopping 24_000_000 27_000_000 2_000_000 in
    (after : SequentialHopping) × (hops 3 h
      ≡ some (map (λ k. 25_000_000 + k % 2 * 2_000_000) (upto 3 0), after))
    × ((is_round_finished after ≡ true) ↔ (3 % 2 ≡ 0))
hops-make_hopping_example =
    hops-make_hopping 24_000_000 27_000_000 2_000_000 3 (omega arith) (omega arith)

Covers-iff_example :
    Covers (make_hopping 24_000_000 27_000_000 2_000_000) 2_000_000 25_500_000
    ↔ ((24_000_000 ≤ 25_500_000) × (25_500_000 < 28_000_000))
Covers-iff_example =
    Covers-iff 24_000_000 27_000_000 2_000_000 (omega arith) (omega arith) 25_500_000 (omega arith)
