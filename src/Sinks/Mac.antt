-- ===== src/Sinks/Mac.antt =====
-- MiscBlocks/AvroSerialization.cpp, `get_mac_address_eth0`: the sensor's id.
use es_sensor.Prelude.{ℕ, ◌+◌, ◌-◌, ◌*◌, ◌/◌, ◌%◌, List, [], ◌∷◌, ltb, leb, if◌then◌else◌, Text}
use es_sensor.Prelude.Int.{ℤ, pos, negsuc}
use es_sensor.Numeric.{is_negative}

unfoldable pub hex_digit : ℕ → ℕ
hex_digit n = if ltb n 10 then b'0' + n else b'a' + n - 10

-- `%02x` of each byte, one behind the other.
unfoldable pub mac_hex : List ℕ → Text
unfolding hex_digit
mac_hex [] = []
mac_hex (b ∷ bytes) = hex_digit (b / 16) ∷ hex_digit (b % 16) ∷ mac_hex bytes

-- The standard library's `strtoll` to the base 16, on a text of digits in lower case.
unfoldable pub read_hex : ℕ → Text → ℕ
read_hex n [] = n
read_hex n (c ∷ text) = read_hex (n * 16 + (if leb c b'9' then c - b'0' else c + 10 - b'a')) text

-- For what `socket` and `ioctl` answer: the result, and the id. What stands in the id at first stays
-- where a call fails.
unfoldable pub get_mac_address : ℤ → ℤ → List ℕ → ℤ → ℤ × ℤ
unfolding mac_hex read_hex
get_mac_address socket_result ioctl_result bytes mac_dec =
    if is_negative socket_result
    then (negsuc 0, mac_dec)
    else if is_negative ioctl_result
    then (negsuc 1, mac_dec)
    else (pos 0, pos (read_hex 0 (mac_hex bytes)))
