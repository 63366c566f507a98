-- ===== src/Context/Split.antt =====
-- context/ElectrosenseContext.cpp, `split`: cuts a text at every delimiter.
use es_sensor.Prelude.{
  ℕ, zero, suc, ◌+◌, ◌-◌, Option, none, some, List, [], ◌∷◌, ◌++◌, ◌==◌, if◌then◌else◌, Text,
  length, take, drop,
}

-- `s.find_first_of(delimiter, pos)` for a delimiter of one character; `none` is `npos`.
unfoldable pub find_from : ℕ → Text → ℕ → Option ℕ
find_from d [] i = none
find_from d (x ∷ xs) i = if x == d then some i else find_from d xs (i + 1)

unfoldable pub find_first_of : ℕ → Text → ℕ → Option ℕ
unfolding find_from
find_first_of d s i = find_from d (drop i s) i

-- The `while` loop, with its variables `current`, `p` and `result`, on fuel.
unfoldable pub split_loop : ℕ → ℕ → Text → ℕ → Option ℕ → List Text → List Text
split_loop fuel d s current none result = result ++ (drop current s ∷ [])
split_loop zero d s current (some p) result = result
split_loop (suc fuel) d s current (some p) result =
    split_loop fuel d s (p + 1) (find_first_of d s (p + 1))
      (result ++ (take (p - current) (drop current s) ∷ []))

-- The loop makes one round for each delimiter, so the length is enough fuel.
unfoldable pub split : ℕ → Text → List Text
unfolding split_loop find_first_of
split d s = split_loop (length s) d s 0 (find_first_of d s 0) []
