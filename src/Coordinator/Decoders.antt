-- ===== src/Coordinator/Decoders.antt =====
-- internal/coordinator/properties.go: `decodeTuyaDPs` and `decodeXiaomiTLV`. The map that they fill
-- is the list of its assignments, the newest first. The loops walk the bytes from `pos` on; the fuel
-- counts turns.
pub mod Tuya
pub mod Xiaomi
use zigbee_go_home.Base.{
  ℕ, zero, suc, ◌+◌, ◌*◌, ◌%◌, ◌^◌, Bool, true, false, not, List, [], ◌∷◌, ltb, ◌==◌, if◌then◌else◌,
  length, take, drop, Option, none, some, Outcome, ok, err, panic,
}
use zigbee_go_home.Base.Bytes.{Bytes}
use zigbee_go_home.Base.Int.{pos}
use zigbee_go_home.Zcl.Value.{Value, bool, int64, string, bytes}
use zigbee_go_home.Zcl.Types.{decode_value}

abbrev pub Assignments : Type 0
Assignments = List (ℕ × Value)

-- `m[key]`
unfoldable pub lookup : ℕ → Assignments → Option Value
lookup key [] = none
lookup key ((k, v) ∷ rest) = if k == key then some v else lookup key rest

-- The map, and whether there is an error beside it. `starved` is no result of the source.
pub data Decoded : Type 0 where
  complete failed : Assignments → Decoded
  starved : Decoded

-- `binary.BigEndian.Uint16`
abbrev pub be16 : ℕ → ℕ → ℕ
be16 hi lo = hi * 256 + lo

-- `for _, b := range dpData { val = val<<8 | uint32(b) }`
unfoldable pub bitmap_value : ℕ → Bytes → ℕ
bitmap_value val [] = val
bitmap_value val (b ∷ bs) = bitmap_value ((val * 256 + b) % 2 ^ 32) bs

-- The `switch dpType`: `none` leaves the map as it is.
unfoldable pub dp_bool : Bytes → Option Value
dp_bool [] = none
dp_bool (b ∷ bs) = some (bool (not (b == 0)))

unfoldable pub dp_number : Bytes → Option Value
dp_number (b3 ∷ b2 ∷ b1 ∷ b0 ∷ bs) = some (int64 (pos (be16 (be16 (be16 b3 b2) b1) b0)))
dp_number _ = none

unfoldable pub dp_enum : Bytes → Option Value
dp_enum [] = none
dp_enum (b ∷ bs) = some (int64 (pos b))

unfoldable pub dp_value : ℕ → Bytes → Option Value
dp_value dp_type dp_data =
    if dp_type == 1
    then dp_bool dp_data
    else if dp_type == 2
    then dp_number dp_data
    else if dp_type == 3
    then some (string dp_data)
    else if dp_type == 4
    then dp_enum dp_data
    else if dp_type == 5
    then some (int64 (pos (bitmap_value 0 dp_data)))
    else some (bytes dp_data)

unfoldable pub assign : ℕ → Option Value → Assignments → Assignments
assign key none result = result
assign key (some v) result = (key, v) ∷ result

unfoldable pub tuya_loop : ℕ → Bytes → Assignments → Decoded
tuya_loop zero data_bytes result = starved
tuya_loop (suc fuel) (dp_id ∷ dp_type ∷ hi ∷ lo ∷ rest) result =
    let data_len = be16 hi lo in
    let next =
      tuya_loop fuel (drop data_len rest)
        (assign dp_id (dp_value dp_type (take data_len rest)) result) in
    if ltb (length rest) data_len then failed result else next
tuya_loop (suc fuel) _ result = complete result

unfoldable pub decode_tuya_dps : Bytes → Decoded
decode_tuya_dps (s0 ∷ s1 ∷ data_bytes) = tuya_loop (suc (length data_bytes)) data_bytes []
decode_tuya_dps _ = complete []

-- A decoded value goes into the map, an error ends the loop.
unfoldable pub xiaomi_loop : ℕ → Bytes → Assignments → Decoded
xiaomi_loop zero data_bytes result = starved
xiaomi_loop (suc fuel) (tag ∷ type_id ∷ rest) result = elim (decode_value type_id rest) [
  | ok (val, consumed) ↦ xiaomi_loop fuel (drop consumed rest) ((tag, val) ∷ result)
  | err e ↦ failed result
  | panic ↦ failed result
]
xiaomi_loop (suc fuel) _ result = complete result

unfoldable pub decode_xiaomi_tlv : Bytes → Decoded
decode_xiaomi_tlv data_bytes = xiaomi_loop (suc (length data_bytes)) data_bytes []
