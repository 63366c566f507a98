-- ===== src/Decoder/Bytes.antt =====
-- Numbers as bytes, the lowest first, as `htole32`, `htole64` and the machine's own order have them.
use native.Mathlib.Nat.{pow-suc}
use es_sensor.Prelude.{
  ℕ, zero, suc, ◌+◌, ◌*◌, ◌/◌, ◌%◌, ◌^◌, ◌<◌, ◌≡◌, refl, List, [], ◌∷◌, arith, length,
}

unfoldable pub le_bytes : ℕ → ℕ → List ℕ
le_bytes zero n = []
le_bytes (suc k) n = n % 256 ∷ le_bytes k (n / 256)

abbrev pub of_le : List ℕ → ℕ
of_le [] = 0
of_le (b ∷ bs) = b + 256 * of_le bs

pub length-le_bytes : (k n : ℕ) → length (le_bytes k n) ≡ k
unfolding le_bytes
length-le_bytes zero n = refl
length-le_bytes (suc k) n = omega (arith, length-le_bytes k (n / 256))

pub of_le-le_bytes : (k n : ℕ) → n < 256 ^ k → of_le (le_bytes k n) ≡ n
unfolding le_bytes
of_le-le_bytes zero n h = let one : 256 ^ 0 ≡ 1 = refl in omega arith
of_le-le_bytes (suc k) n h =
    let power : 256 ^ suc k ≡ 256 ^ k * 256 = pow-suc 256 k in
    omega (arith, of_le-le_bytes k (n / 256) (omega arith))
