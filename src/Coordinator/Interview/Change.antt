-- ===== src/Coordinator/Interview/Change.antt =====
-- `encodeReportChange` against the encoder of internal/zcl.
use zigbee_go_home.Base.{ℕ, ◌^◌, ◌≡◌, ◌≢◌, length, ◌⊎◌, inl, inr, arith, if◌then◌else◌, some}
use zigbee_go_home.Base.Int.{ℤ, pattern_of}
use zigbee_go_home.Zcl.Types.{type_size}
use zigbee_go_home.Zcl.Types.Words.{length-put_le}
use zigbee_go_home.Coordinator.Interview.{at_most, change_bytes, encode_report_change}

-- The unsigned types for which `encodeReportChange` has a case, with their sizes: uint, enum and
-- bitmap of 8 and 16 bits, uint and bitmap of 32 bits, uint of 48 bits.
pub data IsUnsignedOfBoth : ℕ → ℕ → Type 0 where
  is_uint8 : IsUnsignedOfBoth 0x20 1
  is_enum8 : IsUnsignedOfBoth 0x30 1
  is_bitmap8 : IsUnsignedOfBoth 0x18 1
  is_uint16 : IsUnsignedOfBoth 0x21 2
  is_enum16 : IsUnsignedOfBoth 0x31 2
  is_bitmap16 : IsUnsignedOfBoth 0x19 2
  is_uint32 : IsUnsignedOfBoth 0x23 4
  is_bitmap32 : IsUnsignedOfBoth 0x1b 4
  is_uint48 : IsUnsignedOfBoth 0x25 6

-- The types of an odd size, for which `encodeReportChange` has no case.
pub data IsOdd : ℕ → Type 0 where
  is_bitmap24 : IsOdd 0x1a
  is_uint24 : IsOdd 0x22
  is_int24 : IsOdd 0x2a
  is_uint40 : IsOdd 0x24

-- The case for unknown types gives one, two or four bytes.
default_length :
    (value : ℤ) (n : ℕ)
    → (n ≡ 3) ⊎ (n ≡ 5)
    → length (
        if at_most 0xff value
        then change_bytes 1 value
        else if at_most 0xffff value
        then change_bytes 2 value
        else change_bytes 4 value)
      ≢ n
default_length value n h e = ground (
  arith,
  length-put_le 1 (pattern_of (2 ^ 64) value),
  length-put_le 2 (pattern_of (2 ^ 64) value),
  length-put_le 4 (pattern_of (2 ^ 64) value),
)

-- For a type of three or five bytes, the reportable change never has the length of the type, which
-- a Configure Reporting record needs: it has one, two or four bytes.
pub encode_report_change_misfit :
    (t n : ℕ) (value : ℤ)
    → IsOdd t
    → type_size t ≡ some n
    → length (encode_report_change t value) ≢ n
unfolding encode_report_change type_size
encode_report_change_misfit t n value is_bitmap24 h = default_length value n (inl (ground arith))
encode_report_change_misfit t n value is_uint24 h = default_length value n (inl (ground arith))
encode_report_change_misfit t n value is_int24 h = default_length value n (inl (ground arith))
encode_report_change_misfit t n value is_uint40 h = default_length value n (inr (ground arith))
