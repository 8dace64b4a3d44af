-- ===== src/Coordinator/Examples.antt =====
-- Runs of the ZCL values and of the property decoders on concrete input.
mod Devices
mod Definitions
mod Interview
mod Reports
mod Events
use zigbee_go_home.Base.{
  ℕ, ◌^◌, ◌≤◌, ◌≡◌, ◌≢◌, refl, true, false, [], ◌∷◌, ◌++◌, length, take, some, ok, arith,
}
use zigbee_go_home.Base.Bytes.{Bytes}
use zigbee_go_home.Base.Int.{pos, negsuc, signed}
use zigbee_go_home.Zcl.Value.{FloatOps, Value, nil, uint8, int16, int, to_uint64, to_int64}
use zigbee_go_home.Zcl.Types.{
  type_size, le_value, put_le, is_outside, decode_value, fixed_value, encode_value, encode_unsigned,
  encode_signed,
}
use zigbee_go_home.Zcl.Types.RoundTrip.{signed16, Returns, decode_value-encode_value}
use zigbee_go_home.Zcl.Types.Exact.{encode_value_exact, decode_value-Local}
use zigbee_go_home.Zcl.Types.Signed.{encode_value_exact_signed}
use zigbee_go_home.Zcl.Types.Agree.{decode_value-IsValue, invalid_string_disagrees}
use zigbee_go_home.Ncp.Zcl.{parse_attribute_reports}
use zigbee_go_home.Ncp.Zcl.Parse.{IsValue}
use zigbee_go_home.Ncp.Zcl
use zigbee_go_home.Coordinator.Decoders.{
  lookup, complete, failed, starved, Assignments, decode_tuya_dps, decode_xiaomi_tlv,
}
use zigbee_go_home.Coordinator.Decoders.Tuya.{
  Dp, number, switch, meaning, wire, dp_bytes, all_bytes, decode_tuya_dps-all_bytes,
  decode_tuya_dps_cut,
}
use zigbee_go_home.Coordinator.Decoders.Tuya
use zigbee_go_home.Coordinator.Decoders.Xiaomi.{
  Entry, IsEntry, entry_bytes, decode_xiaomi_tlv-entry_bytes, decoders-ne-starved,
}
use zigbee_go_home.Coordinator.Decoders.Xiaomi

-- Roundings that lose everything: the values below have no floats.
abbrev pub no_floats : FloatOps
no_floats = record {
  widen = λ f. f;
  narrow = λ f. f;
  of_int = λ i. 0;
  to_uint64_wild = λ f. 0;
  to_int64_wild = λ f. pos 0;
}

in_range16 : is_outside (2 ^ 15) (negsuc 99) ≡ false
unfolding is_outside
in_range16 = refl

decode_value-encode_value_example : Returns no_floats 0x29 (int16 (negsuc 99)) (1 ∷ 2 ∷ [])
decode_value-encode_value_example =
    decode_value-encode_value no_floats 0x29 (int16 (negsuc 99)) (1 ∷ 2 ∷ [])
      (signed16 (negsuc 99) in_range16)

encoded16 : encode_value no_floats 0x21 (int (pos 258)) ≡ ok (2 ∷ 1 ∷ [])
unfolding encode_value encode_unsigned to_uint64 put_le
encoded16 = refl

encode_value_exact_example :
    (length {A = ℕ} (2 ∷ 1 ∷ []) ≡ 2)
    × (to_uint64 no_floats (int (pos 258)) ≡ some (le_value (2 ∷ 1 ∷ [])))
encode_value_exact_example =
    encode_value_exact no_floats 0x21 2 (int (pos 258)) (2 ∷ 1 ∷ []) refl encoded16

encoded_negative : encode_value no_floats 0x29 (int (negsuc 1)) ≡ ok (0xfe ∷ 0xff ∷ [])
unfolding encode_value encode_signed to_int64 is_outside put_le
encoded_negative = refl

decoded8 : decode_value 0x20 (7 ∷ 9 ∷ []) ≡ ok (uint8 7, 1)
unfolding decode_value type_size fixed_value
decoded8 = refl

size_of_int16 : type_size 0x29 ≡ some 2
unfolding type_size
size_of_int16 = refl

int16_bytes : IsValue (Zcl.type_size 0x29) (1 ∷ 2 ∷ [])
unfolding Zcl.type_size
int16_bytes = refl

invalid_string_disagrees_example :
    (decode_value 0x42 (0xff ∷ (1 ∷ 0 ∷ 0x20 ∷ 7 ∷ [])) ≡ ok (nil, 1))
    × (parse_attribute_reports (5 ∷ 0 ∷ 0x42 ∷ 0xff ∷ (1 ∷ 0 ∷ 0x20 ∷ 7 ∷ [])) ≡ some [])
invalid_string_disagrees_example =
    invalid_string_disagrees 5 0 (1 ∷ 0 ∷ 0x20 ∷ 7 ∷ []) (omega arith)

-- A temperature that is sent twice, and a switch.
abbrev first : Dp
first = record { id = 1; value = number 200 }

abbrev second : Dp
second = record { id = 1; value = number 215 }

abbrev relay : Dp
relay = record { id = 2; value = switch true }

decode_tuya_dps-all_bytes_example :
    (result : Assignments) × (decode_tuya_dps
        (0 ∷ 9 ∷ all_bytes ((first ∷ []) ++ (second ∷ relay ∷ [])))
      ≡ complete result)
    × (lookup 1 result ≡ some (meaning (number 215)))
decode_tuya_dps-all_bytes_example =
    decode_tuya_dps-all_bytes 0 9 second (first ∷ []) (relay ∷ [])
      (omega arith, (omega arith, (tt, tt))) (omega arith, tt)

abbrev battery : Entry
battery = record { tag = 1; type_id = 0x29; value = int16 (negsuc 99) }

decode_xiaomi_tlv-entry_bytes_example :
    (raw : Bytes) × (entry_bytes no_floats (battery ∷ []) ≡ ok raw)
    × (decode_xiaomi_tlv raw ≡ complete (Xiaomi.assigned (battery ∷ []) []))
decode_xiaomi_tlv-entry_bytes_example =
    decode_xiaomi_tlv-entry_bytes no_floats (battery ∷ []) (signed16 (negsuc 99) in_range16, tt)
