-- ===== src/Zcl/Types/Agree.antt =====
-- The two tables of type sizes, `TypeSize` of internal/zcl and `typeSize` of internal/ncp.
use zigbee_go_home.Base.{ℕ, suc, ◌<◌, ◌≡◌, refl, [], ◌∷◌, length, take-length, some, ok, arith}
use zigbee_go_home.Base.Bytes.{Bytes}
use zigbee_go_home.Zcl.Value.{Value, nil}
use zigbee_go_home.Zcl.Types.{
  fixed_value, type_size, counted_value, decode_string, decode_variable_value, decode_value,
}
use zigbee_go_home.Ncp.Zcl.{fixed, value_length, parse_attribute_reports, parse_reports_fuel}
use zigbee_go_home.Ncp.Zcl.Parse.{IsValue}
use zigbee_go_home.Ncp.Zcl

-- A type that has a size of at least one byte in internal/zcl has the same one in internal/ncp.
fixed_agree : (t n : ℕ) → type_size t ≡ some (suc n) → Zcl.type_size t ≡ fixed (suc n)
unfolding type_size Zcl.type_size
fixed_agree t n h = ground arith

-- A value of such a type that the driver cuts out of a frame is decoded, and taken whole.
pub decode_value-IsValue :
    (t n : ℕ) (value : Bytes)
    → type_size t ≡ some (suc n)
    → IsValue (Zcl.type_size t) value
    → (v : Value) × (decode_value t value ≡ ok (v, length value))
unfolding decode_value
decode_value-IsValue t n value h w =
    let l : length value ≡ suc n = rw (fixed_agree t n h) at w in
    (fixed_value t value, rw (h, decode_value) (ground (arith, take-length value)))

-- The two disagree on a string of the invalid length 0xff, which has no content: `DecodeValue` takes
-- the length byte for the whole value, but the report parser of the driver takes it for 255 bytes to
-- come, and drops the string and every record behind it where fewer than 255 bytes are left.
pub invalid_string_disagrees :
    (lo hi : ℕ) (rest : Bytes)
    → length rest < 255
    → (decode_value 0x42 (0xff ∷ rest) ≡ ok (nil, 1))
      × (parse_attribute_reports (lo ∷ hi ∷ 0x42 ∷ 0xff ∷ rest) ≡ some [])
unfolding type_size decode_value decode_variable_value decode_string counted_value
    parse_attribute_reports parse_reports_fuel Zcl.type_size value_length
invalid_string_disagrees lo hi rest h = (refl, ground arith)
