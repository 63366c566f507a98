-- ===== src/Sinks/MacLaws.antt =====
-- MiscBlocks/AvroSerialization.cpp, `get_mac_address_eth0`: the id is the address.
use es_sensor.Prelude.{
  ℕ, ◌+◌, ◌-◌, ◌*◌, ◌/◌, ◌%◌, ◌<◌, ◌≡◌, refl, ap, ◌∙◌, sym, ◌↔◌, List, [], ◌∷◌, arith, leb,
  if◌then◌else◌, All, length,
}
use es_sensor.Prelude.Int.{ℤ, pos}
use es_sensor.Sinks.Mac.{hex_digit, mac_hex, read_hex, get_mac_address}

-- The address as a number, its first byte the highest.
abbrev pub big_endian : ℕ → List ℕ → ℕ
big_endian n [] = n
big_endian n (b ∷ bytes) = big_endian (n * 256 + b) bytes

abbrev pub IsByte : ℕ → Type 0
IsByte b = b < 256

digit_lem :
    (n : ℕ)
    → n < 16
    → (if leb (hex_digit n) b'9' then hex_digit n - b'0' else hex_digit n + 10 - b'a') ≡ n
unfolding hex_digit
digit_lem n h = ground arith

read_hex-mac_hex :
    (n : ℕ) (bytes : List ℕ) → All IsByte bytes → read_hex n (mac_hex bytes) ≡ big_endian n bytes
unfolding read_hex mac_hex
read_hex-mac_hex n [] h = refl
read_hex-mac_hex n (b ∷ bytes) (hb, h) =
    let high = digit_lem (b / 16) (omega arith) in
    let low = digit_lem (b % 16) (omega arith) in
    let byte : (n * 16 + b / 16) * 16 + b % 16 ≡ n * 256 + b = omega arith in
    let value : ℕ → ℕ = λ c. if leb c b'9' then c - b'0' else c + 10 - b'a' in
    ap (λ (x : ℕ). read_hex ((n * 16 + x) * 16 + value (hex_digit (b % 16))) (mac_hex bytes)) high
    ∙ ap (λ (x : ℕ). read_hex ((n * 16 + b / 16) * 16 + x) (mac_hex bytes)) low
    ∙ ap (λ (m : ℕ). read_hex m (mac_hex bytes)) byte
    ∙ read_hex-mac_hex (n * 256 + b) bytes h

big_endian_inj :
    (n m : ℕ) (xs ys : List ℕ)
    → All IsByte xs
    → All IsByte ys
    → length xs ≡ length ys
    → big_endian n xs ≡ big_endian m ys
    → (n ≡ m) × (xs ≡ ys)
big_endian_inj n m [] [] hx hy e same = (same, refl)
big_endian_inj n m [] (y ∷ ys) hx hy e same = absurd (omega arith)
big_endian_inj n m (x ∷ xs) [] hx hy e same = absurd (omega arith)
big_endian_inj n m (x ∷ xs) (y ∷ ys) (bx, hx) (by, hy) e same =
    let (heads, tails) =
      big_endian_inj (n * 256 + x) (m * 256 + y) xs ys hx hy (omega arith) same in
    let first : x ≡ y = omega arith in (omega arith, cc)

-- Where both calls succeed, two sensors have the same id exactly when their network cards have the same
-- address; the id is the address as a number, its first byte the highest.
pub get_mac_address_iff :
    (s i : ℕ) (xs ys : List ℕ) (junk : ℤ)
    → All IsByte xs
    → All IsByte ys
    → length xs ≡ length ys
    → (get_mac_address (pos s) (pos i) xs junk ≡ (pos 0, pos (big_endian 0 xs)))
      × ((get_mac_address (pos s) (pos i) xs junk ≡ get_mac_address (pos s) (pos i) ys junk)
          ↔ (xs ≡ ys))
unfolding get_mac_address
get_mac_address_iff s i xs ys junk hx hy e =
    let id_x = read_hex-mac_hex 0 xs hx in
    let id_y = read_hex-mac_hex 0 ys hy in
    (
      ap (λ (n : ℕ). (pos 0, pos n)) id_x,
      (
        (λ same.
            let numbers : read_hex 0 (mac_hex xs) ≡ read_hex 0 (mac_hex ys) = cc in
            (big_endian_inj 0 0 xs ys hx hy e (sym id_x ∙ numbers ∙ id_y)).1),
        (λ same. ap (λ (l : List ℕ). get_mac_address (pos s) (pos i) l junk) same),
      ),
    )
