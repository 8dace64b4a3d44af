-- ===== src/Coordinator/Properties.antt =====
-- internal/coordinator/properties.go: the transforms, `processProperties` and
-- `processClusterCommandProperties` up to the write to the store, and the map of standard properties
-- of device_manager.go. A map from names is the list of its entries, the newest first. The
-- machine's division and multiplication of float64 are a parameter.
use zigbee_go_home.Base.{
  ℕ, ◌+◌, ◌-◌, ◌%◌, ◌^◌, Bool, false, not, ◌&&◌, ◌||◌, List, [], ◌∷◌, ◌++◌, ◌==◌, if◌then◌else◌,
  Option, none, some,
}
use zigbee_go_home.Base.Bytes.{Bytes}
use zigbee_go_home.Base.Int.{ℤ, pos, negsuc, signed, pattern_of}
use zigbee_go_home.Base.Texts.{Text, same}
use zigbee_go_home.Zcl.Value.{
  FloatOps, Value, bool, uint8, uint16, uint32, uint64, int8, int16, int32, int64, int, float32,
  float64, string, bytes, float_to_int64, is_below_zero,
}
use zigbee_go_home.Coordinator.Decoders.{
  Assignments, Decoded, complete, failed, starved, decode_tuya_dps, decode_xiaomi_tlv,
}
use zigbee_go_home.Coordinator.Decoders as Decoders
use zigbee_go_home.Coordinator.DeviceDb.{PropertyDef, PropertySource}

-- `a / b`, `a * b` and `a > b` on float64.
pub record FloatMath : Type 0 where
  pub ops : FloatOps
  pub divide : ℕ → ℕ → ℕ
  pub times : ℕ → ℕ → ℕ
  pub is_above : ℕ → ℕ → Bool

-- `int64(v)` of the types that `toNumeric` lists; a uint64 wraps.
unfoldable pub to_numeric : FloatOps → Value → Option ℤ
to_numeric ops (int i) = some i
to_numeric ops (uint8 n) = some (pos n)
to_numeric ops (uint16 n) = some (pos n)
to_numeric ops (uint32 n) = some (pos n)
to_numeric ops (uint64 n) = some (signed (2 ^ 63) n)
to_numeric ops (int8 i) = some i
to_numeric ops (int16 i) = some i
to_numeric ops (int32 i) = some i
to_numeric ops (int64 i) = some i
to_numeric ops (float32 f) = some (float_to_int64 ops (ops.widen f))
to_numeric ops (float64 f) = some (float_to_int64 ops f)
to_numeric ops _ = none

-- `i - n` on int64, which wraps.
abbrev pub minus : ℤ → ℕ → ℤ
minus i n = signed (2 ^ 63) ((pattern_of (2 ^ 64) i + (2 ^ 64 - n)) % 2 ^ 64)

unfoldable pub minus_one : FloatOps → Value → Value
minus_one ops v = elim (to_numeric ops v) [ none ↦ v | some i ↦ int64 (minus i 1) ]

-- `(n & 0xFFFF) - 1`
unfoldable pub lumi_trigger : FloatOps → Value → Value
lumi_trigger ops v = elim (to_numeric ops v) [
  | none ↦ v
  | some i ↦ int64 (minus (pos (pattern_of (2 ^ 64) i % 2 ^ 16)) 1)
]

abbrev is_zero : ℤ → Bool
is_zero (pos n) = n == 0
is_zero (negsuc n) = false

unfoldable pub bool_invert : Value → Value
bool_invert (bool b) = bool (not b)
bool_invert (uint8 n) = bool (n == 0)
bool_invert (uint16 n) = bool (n == 0)
bool_invert (uint32 n) = bool (n == 0)
bool_invert (uint64 n) = bool (n == 0)
bool_invert (int64 i) = bool (is_zero i)
bool_invert v = v

unfoldable pub divide_n : FloatMath → Value → ℕ → Value
divide_n m v n = elim (to_numeric m.ops v) [
  | none ↦ v
  | some i ↦ float64 (m.divide (m.ops.of_int i) (m.ops.of_int (pos n)))
]

-- 2850 mV is 0 %, 3000 mV is 100 %; the two bounds are tested in this order.
abbrev clamp : FloatMath → ℕ → ℕ
clamp m pct =
    let at_least = if is_below_zero pct then m.ops.of_int (pos 0) else pct in
    if m.is_above at_least (m.ops.of_int (pos 100)) then m.ops.of_int (pos 100) else at_least

unfoldable pub lumi_battery : FloatMath → Value → Value
lumi_battery m v = elim (to_numeric m.ops v) [
  | none ↦ v
  | some mv ↦
      let share = m.divide (m.ops.of_int (minus mv 2850)) (m.ops.of_int (pos 150)) in
      int (float_to_int64 m.ops (clamp m (m.times share (m.ops.of_int (pos 100)))))
]

abbrev pub lumi_battery_name : Text
lumi_battery_name =
    0x6c ∷ 0x75 ∷ 0x6d ∷ 0x69 ∷ 0x5f ∷ 0x62 ∷ 0x61 ∷ 0x74 ∷ 0x74 ∷ 0x65 ∷ 0x72 ∷ 0x79 ∷ []

abbrev pub minus_one_name : Text
minus_one_name = 0x6d ∷ 0x69 ∷ 0x6e ∷ 0x75 ∷ 0x73 ∷ 0x5f ∷ 0x6f ∷ 0x6e ∷ 0x65 ∷ []

abbrev pub lumi_trigger_name : Text
lumi_trigger_name =
    0x6c ∷ 0x75 ∷ 0x6d ∷ 0x69 ∷ 0x5f ∷ 0x74 ∷ 0x72 ∷ 0x69 ∷ 0x67 ∷ 0x67 ∷ 0x65 ∷ 0x72 ∷ []

abbrev pub bool_invert_name : Text
bool_invert_name = 0x62 ∷ 0x6f ∷ 0x6f ∷ 0x6c ∷ 0x5f ∷ 0x69 ∷ 0x6e ∷ 0x76 ∷ 0x65 ∷ 0x72 ∷ 0x74 ∷ []

abbrev pub divide_10_name : Text
divide_10_name = 0x64 ∷ 0x69 ∷ 0x76 ∷ 0x69 ∷ 0x64 ∷ 0x65 ∷ 0x5f ∷ 0x31 ∷ 0x30 ∷ []

abbrev pub divide_100_name : Text
divide_100_name = 0x64 ∷ 0x69 ∷ 0x76 ∷ 0x69 ∷ 0x64 ∷ 0x65 ∷ 0x5f ∷ 0x31 ∷ 0x30 ∷ 0x30 ∷ []

abbrev pub xiaomi_tlv_name : Text
xiaomi_tlv_name = 0x78 ∷ 0x69 ∷ 0x61 ∷ 0x6f ∷ 0x6d ∷ 0x69 ∷ 0x5f ∷ 0x74 ∷ 0x6c ∷ 0x76 ∷ []

abbrev pub tuya_dp_name : Text
tuya_dp_name = 0x74 ∷ 0x75 ∷ 0x79 ∷ 0x61 ∷ 0x5f ∷ 0x64 ∷ 0x70 ∷ []

unfoldable pub apply_transform : FloatMath → Text → Value → Value
apply_transform m name v =
    if same name lumi_battery_name
    then lumi_battery m v
    else if same name minus_one_name
    then minus_one m.ops v
    else if same name lumi_trigger_name
    then lumi_trigger m.ops v
    else if same name bool_invert_name
    then bool_invert v
    else if same name divide_10_name
    then divide_n m v 10
    else if same name divide_100_name
    then divide_n m v 100
    else v

-- The standard properties: cluster, attribute, name.
abbrev pub standard_property_map : List (ℕ × ℕ × Text)
standard_property_map =
    (0x0006, 0x0000, 0x6f ∷ 0x6e ∷ 0x5f ∷ 0x6f ∷ 0x66 ∷ 0x66 ∷ [])
    ∷ (0x0008, 0x0000, 0x62 ∷ 0x72 ∷ 0x69 ∷ 0x67 ∷ 0x68 ∷ 0x74 ∷ 0x6e ∷ 0x65 ∷ 0x73 ∷ 0x73 ∷ [])
    ∷ (0x0300, 0x0000, 0x68 ∷ 0x75 ∷ 0x65 ∷ [])
    ∷ (0x0300, 0x0001, 0x73 ∷ 0x61 ∷ 0x74 ∷ 0x75 ∷ 0x72 ∷ 0x61 ∷ 0x74 ∷ 0x69 ∷ 0x6f ∷ 0x6e ∷ [])
    ∷ (
      0x0402,
      0x0000,
      0x74 ∷ 0x65 ∷ 0x6d ∷ 0x70 ∷ 0x65 ∷ 0x72 ∷ 0x61 ∷ 0x74 ∷ 0x75 ∷ 0x72 ∷ 0x65 ∷ [],
    )
    ∷ (0x0403, 0x0000, 0x70 ∷ 0x72 ∷ 0x65 ∷ 0x73 ∷ 0x73 ∷ 0x75 ∷ 0x72 ∷ 0x65 ∷ [])
    ∷ (0x0405, 0x0000, 0x68 ∷ 0x75 ∷ 0x6d ∷ 0x69 ∷ 0x64 ∷ 0x69 ∷ 0x74 ∷ 0x79 ∷ [])
    ∷ (0x0406, 0x0000, 0x6f ∷ 0x63 ∷ 0x63 ∷ 0x75 ∷ 0x70 ∷ 0x61 ∷ 0x6e ∷ 0x63 ∷ 0x79 ∷ [])
    ∷ (
      0x0400,
      0x0000,
      0x69 ∷ 0x6c ∷ 0x6c ∷ 0x75 ∷ 0x6d ∷ 0x69 ∷ 0x6e ∷ 0x61 ∷ 0x6e ∷ 0x63 ∷ 0x65 ∷ [],
    )
    ∷ (0x0001, 0x0021, 0x62 ∷ 0x61 ∷ 0x74 ∷ 0x74 ∷ 0x65 ∷ 0x72 ∷ 0x79 ∷ [])
    ∷ (
      0x0500,
      0x0002,
      0x7a ∷ 0x6f ∷ 0x6e ∷ 0x65 ∷ 0x5f ∷ 0x73 ∷ 0x74 ∷ 0x61 ∷ 0x74 ∷ 0x75 ∷ 0x73 ∷ [],
    )
    ∷ (0x0b04, 0x050b, 0x70 ∷ 0x6f ∷ 0x77 ∷ 0x65 ∷ 0x72 ∷ [])
    ∷ (0x0702, 0x0000, 0x65 ∷ 0x6e ∷ 0x65 ∷ 0x72 ∷ 0x67 ∷ 0x79 ∷ [])
    ∷ (
      0x000c,
      0x0055,
      0x61 ∷ 0x6e ∷ 0x61 ∷ 0x6c ∷ 0x6f ∷ 0x67 ∷ 0x5f ∷ 0x76 ∷ 0x61 ∷ 0x6c ∷ 0x75 ∷ 0x65 ∷ [],
    )
    ∷ (
      0x0012,
      0x0055,
      0x6d ∷ 0x75 ∷ 0x6c ∷ 0x74 ∷ 0x69 ∷ 0x73 ∷ 0x74 ∷ 0x61 ∷ 0x74 ∷ 0x65 ∷ 0x5f ∷ 0x76 ∷ 0x61
          ∷ 0x6c ∷ 0x75 ∷ 0x65 ∷ [],
    )
    ∷ []

unfoldable pub find_standard : ℕ → ℕ → List (ℕ × ℕ × Text) → Option Text
find_standard cluster attr [] = none
find_standard cluster attr ((c, a, name) ∷ rest) =
    let later = find_standard cluster attr rest in
    if (c == cluster) && (a == attr) then some name else later

abbrev pub standard_property : ℕ → ℕ → Option Text
standard_property cluster attr = find_standard cluster attr standard_property_map

abbrev pub PropertyMap : Type 0
PropertyMap = List (Text × Value)

unfoldable pub get_property : Text → PropertyMap → Option Value
get_property x [] = none
get_property x ((k, v) ∷ rest) =
    let later = get_property x rest in if same k x then some v else later

-- `for k, v := range collected { d.Properties[k] = v }`
unfoldable pub set_all : PropertyMap → PropertyMap → PropertyMap
set_all collected m = collected ++ m

-- What the value of a tag becomes; `none` if the tag is missing. A negative tag is no key.
abbrev pub tag_value : ℤ → Assignments → Option Value
tag_value (pos tag) m = Decoders.lookup tag m
tag_value (negsuc n) m = none

-- The loop over `ps.Values`: the updates, in order.
unfoldable pub property_values : FloatMath → Assignments → List PropertyDef → PropertyMap
property_values m decoded_map [] = []
property_values m decoded_map (d ∷ ds) =
    let rest = property_values m decoded_map ds in
    elim (tag_value d.tag decoded_map) [
      | none ↦ rest
      | some raw ↦ (d.name, apply_transform m d.transform raw) ∷ rest
    ]

-- The map of a decoder that gives no error.
abbrev decoded_or_skip : Decoded → Option Assignments
decoded_or_skip (complete m) = some m
decoded_or_skip (failed m) = none
decoded_or_skip starved = none

abbrev raw_bytes : Value → Option Bytes
raw_bytes (bytes b) = some b
raw_bytes (string s) = some s
raw_bytes _ = none

-- What a source of `processProperties` decodes: `none` is a `continue`.
unfoldable pub report_source : ℕ → ℕ → Value → PropertySource → Option Assignments
report_source cluster attr decoded ps =
    if not (ps.cluster == cluster) || not (ps.attribute == attr)
    then none
    else if same ps.decoder xiaomi_tlv_name
    then elim (raw_bytes decoded) [
      | none ↦ none
      | some raw ↦ decoded_or_skip (decode_xiaomi_tlv raw)
    ]
    else none

-- What a source of `processClusterCommandProperties` decodes.
unfoldable pub command_source : ℕ → Bytes → PropertySource → Option Assignments
command_source cluster payload ps =
    if not (ps.cluster == cluster)
    then none
    else if not (same ps.decoder tuya_dp_name)
    then none
    else decoded_or_skip (decode_tuya_dps payload)

-- The loop over `def.Properties`, for one of the two decoders: all updates, in order.
unfoldable pub property_updates :
    FloatMath → (PropertySource → Option Assignments) → List PropertySource → PropertyMap
property_updates m source [] = []
property_updates m source (ps ∷ rest) =
    let later = property_updates m source rest in
    elim (source ps) [
      | none ↦ later
      | some decoded_map ↦ property_values m decoded_map ps.values ++ later
    ]

-- `dev.Properties[v.Name] = value` for each update.
unfoldable pub assign_all : PropertyMap → PropertyMap → PropertyMap
assign_all [] m = m
assign_all (u ∷ us) m = assign_all us (u ∷ m)
