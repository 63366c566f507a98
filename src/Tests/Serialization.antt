-- ===== src/Tests/Serialization.antt =====
-- Runs on MiscBlocks/AvroSerialization.cpp.
use es_sensor.Prelude.{
  ℕ, ◌≡◌, ◌↔◌, refl, Option, none, some, List, [], ◌∷◌, arith, zero, suc, get_or, take, drop,
}
use es_sensor.Prelude.Int.{ℤ, pos, negsuc}
use es_sensor.Numeric.{Fixed, fixed_float}
use es_sensor.Segment.{Segment}
use es_sensor.Sinks.AvroRecords.{PsdRecord}
use es_sensor.Sinks.Mac.{get_mac_address}
use es_sensor.Sinks.MacLaws.{big_endian, get_mac_address_iff}
use es_sensor.Tests.Data.{segment_at}

-- An encoding to try the theorem on: a number for each field, two where it has a sign or may be null.
abbrev sign_of : ℤ → ℕ
sign_of (pos n) = 0
sign_of (negsuc n) = 1

abbrev size_of : ℤ → ℕ
size_of (pos n) = n
size_of (negsuc n) = n

abbrev integer : ℕ → ℕ → ℤ
integer zero n = pos n
integer (suc s) n = negsuc n

abbrev present : Option Fixed → ℕ
present none = 0
present (some x) = 1

abbrev content : Option Fixed → ℕ
content none = 0
content (some x) = x

abbrev optional : ℕ → ℕ → Option Fixed
optional zero x = none
optional (suc s) x = some x

abbrev encode : PsdRecord Fixed → List ℕ
encode r =
    sign_of r.sen_id
    ∷ size_of r.sen_id
    ∷ r.hopping_strategy
    ∷ r.windowing_function
    ∷ sign_of r.fft_size
    ∷ size_of r.fft_size
    ∷ sign_of r.averaging_factor
    ∷ size_of r.averaging_factor
    ∷ r.frequency_overlap
    ∷ r.frequency_resolution
    ∷ r.gain
    ∷ present r.sen_pos
    ∷ content r.sen_pos
    ∷ present r.sen_temp
    ∷ content r.sen_temp
    ∷ sign_of r.time_secs
    ∷ size_of r.time_secs
    ∷ sign_of r.time_microsecs
    ∷ size_of r.time_microsecs
    ∷ sign_of r.center_freq
    ∷ size_of r.center_freq
    ∷ r.squared_mag

abbrev at : List ℕ → ℕ → ℕ
at bytes i = get_or bytes i 0

abbrev decode : List ℕ → Option (PsdRecord Fixed)
decode bytes = some (record {
  sen_id = integer (at bytes 0) (at bytes 1);
  hopping_strategy = at bytes 2;
  windowing_function = at bytes 3;
  fft_size = integer (at bytes 4) (at bytes 5);
  averaging_factor = integer (at bytes 6) (at bytes 7);
  frequency_overlap = at bytes 8;
  frequency_resolution = at bytes 9;
  gain = at bytes 10;
  sen_pos = optional (at bytes 11) (at bytes 12);
  sen_temp = optional (at bytes 13) (at bytes 14);
  time_secs = integer (at bytes 15) (at bytes 16);
  time_microsecs = integer (at bytes 17) (at bytes 18);
  center_freq = integer (at bytes 19) (at bytes 20);
  squared_mag = drop 21 bytes;
})

abbrev shortened : PsdRecord Fixed → ℕ → List ℕ
shortened r size = take size (encode r)

abbrev averaged : List (Segment Fixed)
averaged =
    (record (segment_at 5) { psd_values = 0 ∷ 1 ∷ 2 ∷ 3 ∷ [] })
    ∷ (record (segment_at 6) { psd_values = 7 ∷ 6 ∷ 5 ∷ 4 ∷ [] })
    ∷ []

abbrev first_card : List ℕ
first_card = 184 ∷ 39 ∷ 235 ∷ 1 ∷ 2 ∷ 3 ∷ []

abbrev second_card : List ℕ
second_card = 184 ∷ 39 ∷ 235 ∷ 1 ∷ 2 ∷ 4 ∷ []

get_mac_address_run :
    get_mac_address (pos 3) (pos 0) first_card (pos 0) ≡ (pos 0, pos 202_481_585_947_139)
unfolding get_mac_address
get_mac_address_run = refl

get_mac_address_iff_example :
    (get_mac_address (pos 3) (pos 0) first_card (pos 7) ≡ (pos 0, pos (big_endian 0 first_card)))
    × ((get_mac_address (pos 3) (pos 0) first_card (pos 7)
          ≡ get_mac_address (pos 3) (pos 0) second_card (pos 7))
        ↔ (first_card ≡ second_card))
get_mac_address_iff_example =
    get_mac_address_iff 3 0 first_card second_card (pos 7) (omega arith) (omega arith) refl
