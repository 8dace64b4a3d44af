-- ===== src/Ncp/Zcl.antt =====
-- ZCL frames in internal/ncp: the builders of nrf52840_zboss.go and the attribute parsers of
-- zcl_parse.go and nrf52840_zboss.go. A parser walks the bytes from `pos` on, the part of the slice
-- that it has not consumed. The fuel counts records; `none` means that it ran out.
pub mod Parse
pub mod Truncated
use zigbee_go_home.Base.{
  ℕ, zero, suc, ◌+◌, ◌-◌, ◌%◌, ◌^◌, Bool, true, false, not, ◌&&◌, ◌||◌, List, [], ◌∷◌, ◌++◌, leb,
  ◌==◌, if◌then◌else◌, bit_or, length, take, drop, replicate, Option, none, some,
}
use zigbee_go_home.Base.Bytes.{Bytes, le16, put_le16}
use mathlib.Core.Option

-- The int of `typeSize`: a positive size, or typeSizeVariable (-1), typeSizeVariable16 (-3) and
-- typeSizeUnknown (-2).
pub data Size : Type 0 where
  fixed : ℕ → Size
  variable variable16 unknown : Size

abbrev within : ℕ → ℕ → ℕ → Bool
within lo hi t = leb lo t && leb t hi

unfoldable pub type_size : ℕ → Size
type_size t =
    if within 0x08 0x0f t
    then fixed (t - 0x08 + 1)
    else if t == 0x10
    then fixed 1
    else if t == 0x18
    then fixed 1
    else if t == 0x19
    then fixed 2
    else if t == 0x1a
    then fixed 3
    else if t == 0x1b
    then fixed 4
    else if within 0x20 0x27 t
    then fixed (t - 0x20 + 1)
    else if within 0x28 0x2f t
    then fixed (t - 0x28 + 1)
    else if t == 0x30
    then fixed 1
    else if t == 0x31
    then fixed 2
    else if t == 0x38
    then fixed 2
    else if t == 0x39
    then fixed 4
    else if t == 0x3a
    then fixed 8
    else if t == 0xe0 || t == 0xe1
    then fixed 4
    else if t == 0xe2
    then fixed 4
    else if t == 0xe8 || t == 0xe9
    then fixed 2
    else if t == 0xf0
    then fixed 8
    else if t == 0x41 || t == 0x42
    then variable
    else if t == 0x43 || t == 0x44
    then variable16
    else unknown

-- How many bytes the value at the front takes, its length prefix included; `none` if they are not
-- all there, or the type is unknown.
abbrev counted : ℕ → Bytes → Option ℕ
counted n bytes = if leb n (length bytes) then some n else none

unfoldable pub value_length : Size → Bytes → Option ℕ
value_length (fixed n) bytes = counted n bytes
value_length variable [] = none
value_length variable (v ∷ rest) = counted (1 + v) (v ∷ rest)
value_length variable16 [] = none
value_length variable16 (lo ∷ []) = none
value_length variable16 (lo ∷ hi ∷ rest) = counted (2 + le16 lo hi) (lo ∷ hi ∷ rest)
value_length unknown bytes = none

pub record AttributeResponse : Type 0 where
  pub attr_id : ℕ
  pub status : ℕ
  pub data_type : ℕ
  pub value : Bytes

-- `results = append(results, ar)`, before what the rest of the loop appends.
abbrev pub keep {ℓ} : {A : Type ℓ} → A → Option (List A) → Option (List A)
keep r none = none
keep r (some rs) = some (r ∷ rs)

-- A record of status 0 and its type byte; `again` is the rest of the loop. A value that is not all
-- there is left out, and the loop goes on where the value should have started.
unfoldable pub response_value :
    (Bytes → Option (List AttributeResponse))
    → AttributeResponse
    → Size
    → Bytes
    → Option (List AttributeResponse)
response_value again ar unknown bytes = some (ar ∷ [])
response_value again ar size bytes = elim (value_length size bytes) [
  | some n ↦ keep (record ar { value = take n bytes }) (again (drop n bytes))
  | none ↦ keep ar (again bytes)
]

unfoldable pub response_data :
    (Bytes → Option (List AttributeResponse)) → ℕ → Bytes → Option (List AttributeResponse)
response_data again attr_id [] = some []
response_data again attr_id (ty ∷ bytes) =
    response_value again (record { attr_id = attr_id; status = 0; data_type = ty; value = [] })
      (type_size ty) bytes

-- `parseAttributeResponses`
unfoldable pub parse_responses_fuel : ℕ → Bytes → Option (List AttributeResponse)
parse_responses_fuel zero bytes = none
parse_responses_fuel (suc fuel) (lo ∷ hi ∷ status ∷ bytes) =
    let failed =
      keep (record { attr_id = le16 lo hi; status = status; data_type = 0; value = [] })
        (parse_responses_fuel fuel bytes) in
    let read = response_data (parse_responses_fuel fuel) (le16 lo hi) bytes in
    if not (status == 0) then failed else read
parse_responses_fuel (suc fuel) _ = some []

unfoldable pub parse_attribute_responses : Bytes → Option (List AttributeResponse)
parse_attribute_responses bytes = parse_responses_fuel (suc (length bytes)) bytes

-- An `AttributeReportEvent`, as far as the parser fills it.
pub record Report : Type 0 where
  pub attr_id : ℕ
  pub data_type : ℕ
  pub value : Bytes

-- `zclParseAttributeReports`: a value that is not all there, or of an unknown type, ends the loop.
unfoldable pub parse_reports_fuel : ℕ → Bytes → Option (List Report)
parse_reports_fuel zero bytes = none
parse_reports_fuel (suc fuel) (lo ∷ hi ∷ ty ∷ bytes) = elim (value_length (type_size ty) bytes) [
  | some n ↦
      keep (record { attr_id = le16 lo hi; data_type = ty; value = take n bytes })
        (parse_reports_fuel fuel (drop n bytes))
  | none ↦ some []
]
parse_reports_fuel (suc fuel) _ = some []

unfoldable pub parse_attribute_reports : Bytes → Option (List Report)
parse_attribute_reports bytes = parse_reports_fuel (suc (length bytes)) bytes

-- The builders. `zclFrameTypeGlobal | zclDisableDefaultResp`, `zclFrameTypeCluster | …`.
abbrev pub global_control : ℕ
global_control = bit_or 0x00 0x10

abbrev pub cluster_control : ℕ
cluster_control = bit_or 0x01 0x10

unfoldable pub attr_id_bytes : List ℕ → Bytes
attr_id_bytes [] = []
attr_id_bytes (id ∷ ids) = put_le16 id ++ attr_id_bytes ids

unfoldable pub zcl_build_read_attributes : ℕ → List ℕ → Bytes
zcl_build_read_attributes seq_num attr_ids =
    global_control ∷ seq_num ∷ 0x00 ∷ attr_id_bytes attr_ids

-- A `WriteRecord` has the fields of a report.
unfoldable pub record_bytes : List Report → Bytes
record_bytes [] = []
record_bytes (r ∷ rs) = put_le16 r.attr_id ++ (r.data_type ∷ (r.value ++ record_bytes rs))

unfoldable pub zcl_build_write_attributes : ℕ → List Report → Bytes
zcl_build_write_attributes seq_num records = global_control ∷ seq_num ∷ 0x02 ∷ record_bytes records

unfoldable pub zcl_build_cluster_command : ℕ → ℕ → Bytes → Bytes
zcl_build_cluster_command seq_num cmd_id payload = cluster_control ∷ seq_num ∷ cmd_id ∷ payload

unfoldable pub zcl_build_configure_reporting : ℕ → ℕ → ℕ → ℕ → ℕ → Bytes → Bytes
zcl_build_configure_reporting seq_num attr_id data_type min_interval max_interval report_change =
    global_control
    ∷ seq_num
    ∷ 0x06
    ∷ 0x00
    ∷ (put_le16 attr_id
        ++ (data_type ∷ (put_le16 min_interval ++ (put_le16 max_interval ++ report_change))))

-- `buildAPSDEDataReq`: 24 bytes of parameters, then the data; its length is written as a uint16.
unfoldable pub build_apsde_data_req : ℕ → ℕ → ℕ → ℕ → ℕ → ℕ → Bytes → Bytes
build_apsde_data_req dst_addr dst_ep src_ep cluster_id profile_id radius aps_data =
    (24 - 3)
    ∷ (put_le16 (length aps_data % 2 ^ 16)
        ++ (put_le16 dst_addr
            ++ (replicate 6 0
                ++ (put_le16 profile_id
                    ++ (put_le16 cluster_id
                        ++ (dst_ep
                            ∷ src_ep
                            ∷ radius
                            ∷ 0x02
                            ∷ 0x04
                            ∷ 0x00
                            ∷ (replicate 3 0 ++ aps_data)))))))
