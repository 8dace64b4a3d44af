-- ===== src/Ncp/Zcl/Parse.antt =====
-- What devices write is parsed back: attribute responses, attribute reports, and the records that
-- `zclBuildWriteAttributes` writes.
use zigbee_go_home.Base.{
  ℕ, zero, suc, ◌^◌, ◌<◌, ◌≡◌, ◌≢◌, refl, List, [], ◌∷◌, ◌++◌, ◌==◌, if◌then◌else◌, length,
  length-append, drop, take-append, drop-append, All, Option, some, ◌⊎◌, inl, inr, arith,
}
use zigbee_go_home.Base.Bytes.{Bytes, le16, put_le16}
use zigbee_go_home.Ncp.Frame.RoundTrip.{le16-put_le16}
use zigbee_go_home.Ncp.Zcl.{
  Size, fixed, variable, variable16, unknown, type_size, value_length, AttributeResponse, Report,
  keep, response_value, response_data, parse_responses_fuel, parse_attribute_responses,
  parse_reports_fuel, parse_attribute_reports, record_bytes, zcl_build_write_attributes,
}

-- The bytes of a value: of the fixed size, or behind a prefix that counts them.
abbrev pub IsValue : Size → Bytes → Type 0
IsValue (fixed n) value = length value ≡ n
IsValue variable [] = ⊥
IsValue variable (v ∷ body) = length body ≡ v
IsValue variable16 [] = ⊥
IsValue variable16 (lo ∷ []) = ⊥
IsValue variable16 (lo ∷ hi ∷ body) = length body ≡ le16 lo hi
IsValue unknown value = ⊥

pub value_length_lem :
    (size : Size) (value rest : Bytes)
    → IsValue size value
    → value_length size (value ++ rest) ≡ some (length value)
unfolding value_length
value_length_lem (fixed n) value rest h = ground (arith, length-append value rest)
value_length_lem variable [] rest h = elim h [ ]
value_length_lem variable (v ∷ body) rest h = ground (arith, length-append body rest)
value_length_lem variable16 [] rest h = elim h [ ]
value_length_lem variable16 (lo ∷ []) rest h = elim h [ ]
value_length_lem variable16 (lo ∷ hi ∷ body) rest h = ground (arith, length-append body rest)
value_length_lem unknown value rest h = elim h [ ]

abbrev pub IsReport : Report → Type 0
IsReport r = (r.attr_id < 2 ^ 16) × IsValue (type_size r.data_type) r.value

reports-record_bytes :
    (fuel : ℕ) (records : List Report)
    → length (record_bytes records) < fuel
    → All IsReport records
    → parse_reports_fuel fuel (record_bytes records) ≡ some records
unfolding parse_reports_fuel record_bytes
reports-record_bytes zero records l h = absurd (omega arith)
reports-record_bytes (suc fuel) [] l h = refl
reports-record_bytes (suc fuel) (r ∷ rs) l ((hi, hv), hs) = ground (
  arith,
  le16-put_le16 r.attr_id hi,
  value_length_lem (type_size r.data_type) r.value (record_bytes rs) hv,
  take-append r.value (record_bytes rs),
  drop-append r.value (record_bytes rs),
  length-append r.value (record_bytes rs),
  reports-record_bytes fuel rs,
)

pub parse_attribute_reports-record_bytes :
    (records : List Report)
    → All IsReport records
    → parse_attribute_reports (record_bytes records) ≡ some records
unfolding parse_attribute_reports
parse_attribute_reports-record_bytes records h = reports-record_bytes _ records (omega arith) h

-- The records of a write frame are read back whole by the report parser: behind the three bytes of
-- the ZCL header stand the records that `zclBuildWriteAttributes` was given, if their ids are
-- uint16 and their values have the form of their type.
pub parse_reports-build_write :
    (seq_num : ℕ) (records : List Report)
    → All IsReport records
    → parse_attribute_reports (drop 3 (zcl_build_write_attributes seq_num records)) ≡ some records
unfolding zcl_build_write_attributes
parse_reports-build_write seq_num = parse_attribute_reports-record_bytes

-- How a device writes a Read Attributes response.
unfoldable pub response_bytes : List AttributeResponse → Bytes
response_bytes [] = []
response_bytes (r ∷ rs) =
    put_le16 r.attr_id
    ++ (r.status ∷ ((if r.status == 0 then r.data_type ∷ r.value else []) ++ response_bytes rs))

-- A failed record has no type and no value.
abbrev pub IsResponse : AttributeResponse → Type 0
IsResponse r =
    (r.attr_id < 2 ^ 16)
    × ((r.status ≡ 0) × IsValue (type_size r.data_type) r.value
        ⊎ (r.status ≢ 0) × (r.data_type ≡ 0) × (r.value ≡ []))

response_value_lem :
    (again : Bytes → Option (List AttributeResponse)) (ar : AttributeResponse) (size : Size)
    (value rest : Bytes)
    → IsValue size value
    → response_value again ar size (value ++ rest) ≡ keep (record ar { value = value }) (again rest)
unfolding response_value
response_value_lem again ar (fixed n) value rest h =
    ground (
      arith,
      value_length_lem (fixed n) value rest h,
      take-append value rest,
      drop-append value rest,
    )
response_value_lem again ar variable value rest h =
    ground (
      arith,
      value_length_lem variable value rest h,
      take-append value rest,
      drop-append value rest,
    )
response_value_lem again ar variable16 value rest h = ground (
  arith,
  value_length_lem variable16 value rest h,
  take-append value rest,
  drop-append value rest,
)
response_value_lem again ar unknown value rest h = elim h [ ]

responses-response_bytes :
    (fuel : ℕ) (rs : List AttributeResponse)
    → length (response_bytes rs) < fuel
    → All IsResponse rs
    → parse_responses_fuel fuel (response_bytes rs) ≡ some rs
unfolding parse_responses_fuel response_bytes response_data
responses-response_bytes zero rs l h = absurd (omega arith)
responses-response_bytes (suc fuel) [] l h = refl
responses-response_bytes (suc fuel) (r ∷ rs) l ((hi, inl (ok, hv)), hs) = ground (
  arith,
  le16-put_le16 r.attr_id hi,
  response_value_lem (parse_responses_fuel fuel)
      (record { attr_id = r.attr_id; status = 0; data_type = r.data_type; value = [] })
      (type_size r.data_type) r.value (response_bytes rs) hv,
  length-append r.value (response_bytes rs),
  responses-response_bytes fuel rs,
)
responses-response_bytes (suc fuel) (r ∷ rs) l ((hi, inr (bad, no_type, no_value)), hs) =
    ground (arith, le16-put_le16 r.attr_id hi, responses-response_bytes fuel rs)

-- `parseAttributeResponses` gives back every list of responses that a device writes: uint16 ids, a
-- value in the form of its type behind status 0, and no type or value behind another status.
pub parse_attribute_responses-response_bytes :
    (rs : List AttributeResponse)
    → All IsResponse rs
    → parse_attribute_responses (response_bytes rs) ≡ some rs
unfolding parse_attribute_responses
parse_attribute_responses-response_bytes rs h = responses-response_bytes _ rs (omega arith) h
