-- ===== src/Hopping.antt =====
-- drivers/common/SequentialHopping.h and .cpp: the centre frequencies that the receiver visits.
pub mod Freqs
pub mod Rounds
pub mod Coverage
use es_sensor.Prelude.{
  ℕ, zero, suc, ◌+◌, ◌-◌, ◌*◌, ◌/◌, ◌%◌, ◌^◌, Bool, Option, none, some, List, [], ◌∷◌, ◌++◌, ltb,
  leb, ◌==◌, if◌then◌else◌, length, get_elem?, get_or,
}
use es_sensor.Prelude.Int.{pos_part}
use es_sensor.Numeric.{Float, to_int}
use es_sensor.Context.{Context, reduced}

pub record SequentialHopping : Type 0 where
  pub freq_step : ℕ
  pub total_hops : ℕ
  pub freqs : List ℕ
  pub index : ℕ

-- `mFreqs.insert(mFreqs.end(), mFreqs.at(i - 1) + mFreqStep)` for the rounds that are left.
pub insert_hops : ℕ → ℕ → ℕ → List ℕ → List ℕ
insert_hops zero i step freqs = freqs
insert_hops (suc n) i step freqs =
    insert_hops n (i + 1) step (freqs ++ ((get_or freqs (i - 1) 0 + step) % 2 ^ 64 ∷ []))

-- `maxFreq - minFreq + 1e6` divided by the step. The quotient of two `double`s, cut to an integer,
-- is that of the integers as long as both are below 2 ^ 53.
abbrev pub hop_count : ℕ → ℕ → ℕ → ℕ
hop_count lo hi step = ((hi + 2 ^ 64 - lo) % 2 ^ 64 + 1_000_000) / step

-- The constructor for given bounds and a given step. `(int)mTotalHops` ends the loop.
unfoldable pub make_hopping : ℕ → ℕ → ℕ → SequentialHopping
unfolding insert_hops
make_hopping lo hi step =
    let total = hop_count lo hi step in
    record {
      freq_step = step;
      total_hops = total;
      freqs = insert_hops (pos_part (to_int (total % 2 ^ 32)) - 1) 1 step ((lo + step / 2) ∷ []);
      index = 0;
    }

unfoldable pub construct : {F : Type 0} ⦃float : Float F⦄ → Context F → SequentialHopping
unfolding make_hopping
construct c = make_hopping c.min_freq c.max_freq (reduced c c.sampling_rate)

-- `none` is the exception of `at`.
unfoldable pub next_hop : SequentialHopping → Option (ℕ × SequentialHopping)
next_hop h = elim (get_elem? h.freqs h.index) [
  | none ↦ none
  | some freq ↦
      some
        (freq, record h { index = if leb (length h.freqs) (h.index + 1) then 0 else h.index + 1 })
]

unfoldable pub is_round_finished : SequentialHopping → Bool
is_round_finished h = h.index == 0
