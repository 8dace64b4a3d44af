-- ===== src/Ncp/Zcl/Truncated.antt =====
-- The parsers on any bytes: they end, and what they do where a value is cut off.
use zigbee_go_home.Base.{
  ℕ, zero, suc, ◌<◌, ◌≡◌, ◌≢◌, refl, List, [], ◌∷◌, ◌++◌, length, length-append, length-drop, drop,
  All, Option, none, some, append_assoc, take-append, drop-append, inl, inr, Option-cases, arith,
}
use zigbee_go_home.Base.Bytes.{Bytes, le16}
use zigbee_go_home.Ncp.Zcl.{
  Size, fixed, variable, variable16, unknown, type_size, value_length, AttributeResponse, Report,
  keep, response_value, response_data, parse_responses_fuel, parse_attribute_responses,
  parse_reports_fuel, parse_attribute_reports, record_bytes,
}
use zigbee_go_home.Ncp.Frame.RoundTrip.{le16-put_le16}
use zigbee_go_home.Ncp.Zcl.Parse.{IsReport, IsValue, value_length_lem}

keep-ne-none {ℓ} : {A : Type ℓ} (r : A) (o : Option (List A)) → o ≢ none → keep r o ≢ none
keep-ne-none r none h = λ e. h refl
keep-ne-none r (some rs) h = λ e. cc

reports-ne-none :
    (fuel : ℕ) (bytes : Bytes) → length bytes < fuel → parse_reports_fuel fuel bytes ≢ none
unfolding parse_reports_fuel
reports-ne-none zero bytes h = absurd (omega arith)
reports-ne-none (suc fuel) (lo ∷ hi ∷ ty ∷ bytes) h =
    elim (Option-cases (value_length (type_size ty) bytes)) [
      | inl no_value ↦ rw (no_value, parse_reports_fuel) (λ e. cc)
      | inr (n, e) ↦
          rw (e, parse_reports_fuel)
            (keep-ne-none _ _
              (reports-ne-none fuel (drop n bytes) (omega (arith, length-drop n bytes))))
    ]
reports-ne-none (suc fuel) _ h = λ e. cc

response_value-ne-none :
    (again : Bytes → Option (List AttributeResponse)) (ar : AttributeResponse) (size : Size)
    (bytes : Bytes)
    → ((n : ℕ) → again (drop n bytes) ≢ none)
    → response_value again ar size bytes ≢ none
unfolding response_value
response_value-ne-none again ar unknown bytes h = λ e. cc
response_value-ne-none again ar size bytes h = elim (Option-cases (value_length size bytes)) [
  | inl no_value ↦ rw (no_value, response_value) (keep-ne-none _ _ (h 0))
  | inr (n, e) ↦ rw (e, response_value) (keep-ne-none _ _ (h n))
]

responses-ne-none :
    (fuel : ℕ) (bytes : Bytes) → length bytes < fuel → parse_responses_fuel fuel bytes ≢ none
unfolding parse_responses_fuel response_data
responses-ne-none zero bytes h = absurd (omega arith)
responses-ne-none (suc fuel) (lo ∷ hi ∷ zero ∷ []) h = λ e. cc
responses-ne-none (suc fuel) (lo ∷ hi ∷ zero ∷ ty ∷ bytes) h =
    response_value-ne-none (parse_responses_fuel fuel) _ (type_size ty) bytes
      (λ n. responses-ne-none fuel (drop n bytes) (omega (arith, length-drop n bytes)))
responses-ne-none (suc fuel) (lo ∷ hi ∷ suc s ∷ bytes) h = ground (
  arith,
  keep-ne-none {A = AttributeResponse}
      (record { attr_id = le16 lo hi; status = suc s; data_type = 0; value = [] })
      (parse_responses_fuel fuel bytes) (responses-ne-none fuel bytes (omega arith)),
)
responses-ne-none (suc fuel) _ h = λ e. cc

-- On any bytes both parsers end: the fuel they are given is enough.
pub parsers-ne-none :
    (bytes : Bytes)
    → (parse_attribute_responses bytes ≢ none) × (parse_attribute_reports bytes ≢ none)
unfolding parse_attribute_responses parse_attribute_reports
parsers-ne-none bytes =
    (responses-ne-none _ bytes (omega arith), reports-ne-none _ bytes (omega arith))

-- A value that is not all there has no length.
value_length_cut :
    (size : Size) (part more : Bytes) (x : ℕ)
    → IsValue size (part ++ (x ∷ more))
    → value_length size part ≡ none
unfolding value_length
value_length_cut (fixed n) part more x h = ground (arith, length-append part (x ∷ more))
value_length_cut variable [] more x h = refl
value_length_cut variable (v ∷ body) more x h = ground (arith, length-append body (x ∷ more))
value_length_cut variable16 [] more x h = refl
value_length_cut variable16 (lo ∷ []) more x h = refl
value_length_cut variable16 (lo ∷ hi ∷ body) more x h =
    ground (arith, length-append body (x ∷ more))
value_length_cut unknown part more x h = elim h [ ]

reports_cut :
    (fuel : ℕ) (records : List Report) (lo hi ty : ℕ) (part : Bytes)
    → length (record_bytes records) < fuel
    → All IsReport records
    → value_length (type_size ty) part ≡ none
    → parse_reports_fuel fuel (record_bytes records ++ (lo ∷ hi ∷ ty ∷ part)) ≡ some records
unfolding parse_reports_fuel record_bytes
reports_cut zero records lo hi ty part l h cut = absurd (omega arith)
reports_cut (suc fuel) [] lo hi ty part l h cut = rw (cut, parse_reports_fuel)
reports_cut (suc fuel) (r ∷ rs) lo hi ty part l ((ok_id, ok_value), hs) cut =
    let last : Bytes = lo ∷ hi ∷ ty ∷ part in
    ground (
      arith,
      le16-put_le16 r.attr_id ok_id,
      append_assoc r.value (record_bytes rs) last,
      value_length_lem (type_size r.data_type) r.value (record_bytes rs ++ last) ok_value,
      take-append r.value (record_bytes rs ++ last),
      drop-append r.value (record_bytes rs ++ last),
      length-append r.value (record_bytes rs),
      reports_cut fuel rs lo hi ty part,
    )

-- A report frame that is cut off inside a value gives the records before the cut and no other.
pub parse_attribute_reports_cut :
    (records : List Report) (lo hi ty x : ℕ) (part more : Bytes)
    → All IsReport records
    → IsValue (type_size ty) (part ++ (x ∷ more))
    → parse_attribute_reports (record_bytes records ++ (lo ∷ hi ∷ ty ∷ part)) ≡ some records
unfolding parse_attribute_reports
parse_attribute_reports_cut records lo hi ty x part more h cut =
    reports_cut _ records lo hi ty part
      (omega (arith, length-append (record_bytes records) (lo ∷ hi ∷ ty ∷ part))) h
      (value_length_cut (type_size ty) part more x cut)

-- A response of one attribute, of a type whose values have a fixed size of more than three bytes, that
-- is cut off after three bytes of the value, the third not 0: the parser goes on and reports the
-- three bytes as the failure of an attribute that the device never named.
pub parse_attribute_responses_reads_on :
    (lo hi ty n x y z : ℕ)
    → type_size ty ≡ fixed n
    → 3 < n
    → z ≢ 0
    → parse_attribute_responses (lo ∷ hi ∷ 0 ∷ ty ∷ x ∷ y ∷ z ∷ [])
      ≡ some (
          record { attr_id = le16 lo hi; status = 0; data_type = ty; value = [] }
          ∷ record { attr_id = le16 x y; status = z; data_type = 0; value = [] }
          ∷ [])
unfolding parse_attribute_responses parse_responses_fuel response_data response_value value_length
parse_attribute_responses_reads_on lo hi ty n x y z size big nz =
    rw (size, response_value) (ground arith)
