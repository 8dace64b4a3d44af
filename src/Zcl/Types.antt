-- ===== src/Zcl/Types.antt =====
-- internal/zcl/types.go: `TypeSize`, `DecodeValue` and `EncodeValue`. The little-endian reads and
-- writes, which the source spells by `binary.LittleEndian` or by shifts, are `le_value` and
-- `put_le`: the shifted bytes do not overlap, so `|` adds them.
pub mod Words
pub mod RoundTrip
pub mod Exact
pub mod Signed
pub mod Agree
use zigbee_go_home.Base.{
  ℕ, zero, suc, ◌+◌, ◌-◌, ◌*◌, ◌/◌, ◌%◌, ◌^◌, Bool, true, false, not, ◌&&◌, ◌||◌, List, [], ◌∷◌,
  ◌++◌, ltb, leb, ◌==◌, if◌then◌else◌, length, get_or, take, drop, Option, none, some, Outcome, ok,
  err,
}
use zigbee_go_home.Base.Bytes.{Bytes, le16, put_le16}
use zigbee_go_home.Base.Int.{ℤ, pos, negsuc, signed, pattern_of}
use zigbee_go_home.Zcl.Value.{
  FloatOps, Value, nil, bool, uint8, uint16, uint32, uint64, int8, int16, int32, float32, float64,
  string, bytes, array8, to_bool, to_uint64, to_int64, to_float64,
}

-- `TypeSize`: `none` is -1, a variable length.
unfoldable pub type_size : ℕ → Option ℕ
type_size t =
    if t == 0x00
    then some 0
    else if t == 0x10 || t == 0x20 || t == 0x28 || t == 0x30 || t == 0x18
    then some 1
    else if t == 0x21 || t == 0x29 || t == 0x31 || t == 0x19 || t == 0xe8 || t == 0xe9
    then some 2
    else if t == 0x22 || t == 0x2a || t == 0x1a
    then some 3
    else if t == 0x38
    then some 2
    else if t == 0x23 || t == 0x2b || t == 0x1b || t == 0x39 || t == 0xe0 || t == 0xe1 || t == 0xe2
    then some 4
    else if t == 0x24
    then some 5
    else if t == 0x25
    then some 6
    else if t == 0x3a || t == 0xf0
    then some 8
    else none

unfoldable pub le_value : Bytes → ℕ
le_value [] = 0
le_value (b ∷ bs) = b + le_value bs * 256

unfoldable pub put_le : ℕ → ℕ → Bytes
put_le zero v = []
put_le (suc k) v = v % 256 ∷ put_le k (v / 256)

pub data DecodeError : Type 0 where
  not_enough_data no_length value_truncated unsupported_type : DecodeError

-- The value of a fixed size, from the bytes that it takes.
unfoldable pub fixed_value : ℕ → Bytes → Value
fixed_value t data_bytes =
    let v = le_value data_bytes in
    if t == 0x10
    then bool (not (get_or data_bytes 0 0 == 0))
    else if t == 0x20 || t == 0x30 || t == 0x18
    then uint8 (get_or data_bytes 0 0)
    else if t == 0x21 || t == 0x31 || t == 0x19 || t == 0xe8 || t == 0xe9 || t == 0x38
    then uint16 v
    else if t == 0x22 || t == 0x1a
    then uint32 v
    else if t == 0x2a
    then int32 (signed (2 ^ 31) (if leb 0x800000 v then v + 0xff000000 else v))
    else if t == 0x23 || t == 0x1b || t == 0xe2
    then uint32 v
    else if t == 0x24
    then uint64 v
    else if t == 0x25
    then uint64 v
    else if t == 0x28
    then int8 (signed (2 ^ 7) (get_or data_bytes 0 0))
    else if t == 0x29
    then int16 (signed (2 ^ 15) v)
    else if t == 0x2b
    then int32 (signed (2 ^ 31) v)
    else if t == 0x39
    then float32 v
    else if t == 0x3a
    then float64 v
    else if t == 0xf0
    then array8 data_bytes
    else if t == 0xe0 || t == 0xe1
    then uint32 v
    else bytes data_bytes

-- `length` bytes behind a prefix of `prefix` bytes; the length `invalid` stands for no value.
unfoldable pub counted_value : (Bytes → Value) → ℕ → ℕ → ℕ → Bytes → Outcome DecodeError (Value × ℕ)
counted_value make prefix invalid count body =
    if count == invalid
    then ok (nil, prefix)
    else if ltb (length body) count
    then err value_truncated
    else ok (make (take count body), prefix + count)

unfoldable pub decode_string : (Bytes → Value) → Bytes → Outcome DecodeError (Value × ℕ)
decode_string make [] = err no_length
decode_string make (n ∷ body) = counted_value make 1 0xff n body

unfoldable pub decode_string16 : (Bytes → Value) → Bytes → Outcome DecodeError (Value × ℕ)
decode_string16 make [] = err no_length
decode_string16 make (lo ∷ []) = err no_length
decode_string16 make (lo ∷ hi ∷ body) = counted_value make 2 0xffff (le16 lo hi) body

unfoldable pub decode_variable_value : ℕ → Bytes → Outcome DecodeError (Value × ℕ)
decode_variable_value t data_bytes =
    if t == 0x42
    then decode_string string data_bytes
    else if t == 0x41
    then decode_string bytes data_bytes
    else if t == 0x44
    then decode_string16 string data_bytes
    else if t == 0x43
    then decode_string16 bytes data_bytes
    else err unsupported_type

-- `DecodeValue`: the value and the number of bytes that it takes.
unfoldable pub decode_value : ℕ → Bytes → Outcome DecodeError (Value × ℕ)
decode_value t data_bytes = elim (type_size t) [
  | none ↦ decode_variable_value t data_bytes
  | some size ↦
      if size == 0
      then ok (nil, 0)
      else if ltb (length data_bytes) size
      then err not_enough_data
      else ok (fixed_value t (take size data_bytes), size)
]

pub data EncodeError : Type 0 where
  cannot_convert overflows wrong_length too_long not_implemented : EncodeError

-- `v < -bound || v >= bound`: `math.MinInt8` and `math.MaxInt8` for 2 ^ 7, and so on.
unfoldable pub is_outside : ℕ → ℤ → Bool
is_outside bound (pos n) = leb bound n
is_outside bound (negsuc n) = leb bound n

unfoldable pub encode_bool : Value → Outcome EncodeError Bytes
encode_bool v = elim (to_bool v) [
  | none ↦ err cannot_convert
  | some b ↦ ok ((if b then 1 else 0) ∷ [])
]

module _ (ops : FloatOps) where
  -- An unsigned type of `size` bytes: larger values are refused.
  unfoldable pub encode_unsigned : ℕ → Value → Outcome EncodeError Bytes
  encode_unsigned size v = elim (to_uint64 ops v) [
    | none ↦ err cannot_convert
    | some n ↦ if leb (256 ^ size) n then err overflows else ok (put_le size n)
  ]

  -- A signed type of `size` bytes, with `bound` = 256 ^ size / 2. The conversion through
  -- int8 or int16 keeps the low bytes.
  unfoldable pub encode_signed : ℕ → ℕ → Value → Outcome EncodeError Bytes
  encode_signed size bound v = elim (to_int64 ops v) [
    | none ↦ err cannot_convert
    | some i ↦
        if is_outside bound i then err overflows else ok (put_le size (pattern_of (2 ^ 32) i))
  ]

  -- `case TypeFloat16`: the low 16 bits, with no test of the rest.
  unfoldable pub encode_float16 : Value → Outcome EncodeError Bytes
  encode_float16 v = elim (to_uint64 ops v) [
    | none ↦ err cannot_convert
    | some n ↦ ok (put_le 2 (n % 2 ^ 16))
  ]

  unfoldable pub encode_float32 : Value → Outcome EncodeError Bytes
  encode_float32 v = elim (to_float64 ops v) [
    | none ↦ err cannot_convert
    | some f ↦ ok (put_le 4 (ops.narrow f))
  ]

  unfoldable pub encode_float64 : Value → Outcome EncodeError Bytes
  encode_float64 v = elim (to_float64 ops v) [
    | none ↦ err cannot_convert
    | some f ↦ ok (put_le 8 f)
  ]

unfoldable pub encode_eui64 : Value → Outcome EncodeError Bytes
encode_eui64 (array8 a) = ok a
encode_eui64 (bytes b) = if length b == 8 then ok b else err wrong_length
encode_eui64 _ = err cannot_convert

-- A length of `prefix` bytes, then the content, at most `longest` bytes.
unfoldable pub encode_counted : ℕ → ℕ → Bytes → Outcome EncodeError Bytes
encode_counted prefix longest content =
    if ltb longest (length content)
    then err too_long
    else ok (put_le prefix (length content) ++ content)

unfoldable pub encode_string : ℕ → ℕ → Value → Outcome EncodeError Bytes
encode_string prefix longest (string s) = encode_counted prefix longest s
encode_string prefix longest _ = err cannot_convert

unfoldable pub encode_bytes : ℕ → ℕ → Value → Outcome EncodeError Bytes
encode_bytes prefix longest (bytes b) = encode_counted prefix longest b
encode_bytes prefix longest _ = err cannot_convert

unfoldable pub encode_value : FloatOps → ℕ → Value → Outcome EncodeError Bytes
encode_value ops t v =
    if t == 0x10
    then encode_bool v
    else if t == 0x20 || t == 0x30 || t == 0x18
    then encode_unsigned ops 1 v
    else if t == 0x21 || t == 0x31 || t == 0x19
    then encode_unsigned ops 2 v
    else if t == 0x23 || t == 0x1b || t == 0xe2
    then encode_unsigned ops 4 v
    else if t == 0x28
    then encode_signed ops 1 (2 ^ 7) v
    else if t == 0x29
    then encode_signed ops 2 (2 ^ 15) v
    else if t == 0x2a
    then encode_signed ops 3 (2 ^ 23) v
    else if t == 0x22 || t == 0x1a
    then encode_unsigned ops 3 v
    else if t == 0x2b
    then encode_signed ops 4 (2 ^ 31) v
    else if t == 0x24
    then encode_unsigned ops 5 v
    else if t == 0x25
    then encode_unsigned ops 6 v
    else if t == 0x38
    then encode_float16 ops v
    else if t == 0x39
    then encode_float32 ops v
    else if t == 0x3a
    then encode_float64 ops v
    else if t == 0xf0
    then encode_eui64 v
    else if t == 0x42
    then encode_string 1 254 v
    else if t == 0x41
    then encode_bytes 1 254 v
    else if t == 0x44
    then encode_string 2 65534 v
    else if t == 0x43
    then encode_bytes 2 65534 v
    else err not_implemented
