-- ===== src/Zcl/Value.antt =====
-- internal/zcl/types.go, the Go values in an `interface{}` and the conversions `toBool`, `toUint64`,
-- `toInt64`, `toFloat64`. A float is its bit pattern, so `math.Float32frombits` and the like are
-- the identity here. The roundings of the machine are a parameter.
use zigbee_go_home.Base.{
  ℕ, zero, suc, ◌+◌, ◌-◌, ◌*◌, ◌/◌, ◌%◌, ◌^◌, Bool, true, not, ◌&&◌, ltb, leb, ◌==◌, if◌then◌else◌,
  List, Option, none, some,
}
use zigbee_go_home.Base.Bytes.{Bytes}
use zigbee_go_home.Base.Int.{ℤ, pos, negsuc}

-- What the machine does: `float64` of a float32, `float32` of a float64, `float64` of an integer,
-- and the conversion of a float64 that the integer type cannot hold, which Go leaves to the
-- implementation.
pub record FloatOps : Type 0 where
  pub widen : ℕ → ℕ
  pub narrow : ℕ → ℕ
  pub of_int : ℤ → ℕ
  pub to_uint64_wild : ℕ → ℕ
  pub to_int64_wild : ℕ → ℤ

-- The dynamic types that the source switches on; `bytes` is a []byte, `array8` an [8]byte,
-- `numbers` the []interface{} of float64s that JSON reads from an array of numbers.
pub data Value : Type 0 where
  nil : Value
  bool : Bool → Value
  uint8 uint16 uint32 uint64 : ℕ → Value
  int8 int16 int32 int64 int : ℤ → Value
  float32 float64 : ℕ → Value
  string bytes array8 : Bytes → Value
  numbers : List ℕ → Value

-- Parts of a float64: the magnitude's pattern, the exponent, and the integer below the magnitude.
abbrev pub magnitude : ℕ → ℕ
magnitude f = f % 2 ^ 63

abbrev pub is_negative_pattern : ℕ → Bool
is_negative_pattern f = leb (2 ^ 63) f

abbrev pub exponent : ℕ → ℕ
exponent f = magnitude f / 2 ^ 52

abbrev pub truncated : ℕ → ℕ
truncated f =
    let significand = 2 ^ 52 + f % 2 ^ 52 in
    if exponent f == 0
    then 0
    else if leb 1075 (exponent f)
    then significand * 2 ^ (exponent f - 1075)
    else significand / 2 ^ (1075 - exponent f)

-- The patterns of infinity and of 2 ^ 63; above infinity there are the NaNs.
abbrev pub infinity : ℕ
infinity = 0x7ff0000000000000

abbrev pub two_to_63 : ℕ
two_to_63 = 0x43e0000000000000

-- `val != 0`
unfoldable pub is_nonzero : ℕ → Bool
is_nonzero f = not (magnitude f == 0)

-- `val < 0`
unfoldable pub is_below_zero : ℕ → Bool
is_below_zero f = is_negative_pattern f && (not (magnitude f == 0) && leb (magnitude f) infinity)

-- `val > math.MaxInt64 || val < math.MinInt64`: both bounds are 2 ^ 63 as floats.
unfoldable pub is_beyond_int64 : ℕ → Bool
is_beyond_int64 f = ltb two_to_63 (magnitude f) && leb (magnitude f) infinity

abbrev pub negate : ℕ → ℤ
negate zero = pos zero
negate (suc n) = negsuc n

unfoldable pub to_bool : Value → Option Bool
to_bool (bool b) = some b
to_bool (float64 f) = some (is_nonzero f)
to_bool (int (pos n)) = some (not (n == 0))
to_bool (int (negsuc n)) = some true
to_bool _ = none

-- `int64(val)`: from 2 ^ 63 on the integer does not fit, except that -(2 ^ 63) does.
abbrev pub float_to_int64 : FloatOps → ℕ → ℤ
float_to_int64 ops f =
    if leb two_to_63 (magnitude f) && not (f == 2 ^ 63 + two_to_63)
    then ops.to_int64_wild f
    else if is_negative_pattern f
    then negate (truncated f)
    else pos (truncated f)

-- `uint64(val)` of a value that is not below 0; 0x43f0000000000000 is 2 ^ 64.
abbrev pub float_to_uint64 : FloatOps → ℕ → ℕ
float_to_uint64 ops f =
    if leb 0x43f0000000000000 (magnitude f) then ops.to_uint64_wild f else truncated f

abbrev pub natural : ℤ → Option ℕ
natural (pos n) = some n
natural (negsuc n) = none

unfoldable pub to_uint64 : FloatOps → Value → Option ℕ
to_uint64 ops (uint8 n) = some n
to_uint64 ops (uint16 n) = some n
to_uint64 ops (uint32 n) = some n
to_uint64 ops (uint64 n) = some n
to_uint64 ops (int i) = natural i
to_uint64 ops (int64 i) = natural i
to_uint64 ops (float64 f) = if is_below_zero f then none else some (float_to_uint64 ops f)
to_uint64 ops _ = none

unfoldable pub to_int64 : FloatOps → Value → Option ℤ
to_int64 ops (int8 i) = some i
to_int64 ops (int16 i) = some i
to_int64 ops (int32 i) = some i
to_int64 ops (int64 i) = some i
to_int64 ops (int i) = some i
to_int64 ops (uint8 n) = some (pos n)
to_int64 ops (uint16 n) = some (pos n)
to_int64 ops (uint32 n) = some (pos n)
to_int64 ops (uint64 n) = if leb (2 ^ 63) n then none else some (pos n)
to_int64 ops (float64 f) = if is_beyond_int64 f then none else some (float_to_int64 ops f)
to_int64 ops _ = none

unfoldable pub to_float64 : FloatOps → Value → Option ℕ
to_float64 ops (float32 f) = some (ops.widen f)
to_float64 ops (float64 f) = some f
to_float64 ops (int i) = some (ops.of_int i)
to_float64 ops (int64 i) = some (ops.of_int i)
to_float64 ops (uint64 n) = some (ops.of_int (pos n))
to_float64 ops _ = none
