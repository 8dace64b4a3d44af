-- ===== src/Zcl/Types/RoundTrip.antt =====
-- `DecodeValue` undoes `EncodeValue`.
use zigbee_go_home.Base.{
  ℕ, ◌/◌, ◌%◌, ◌^◌, ◌≤◌, ◌<◌, ◌≡◌, refl, ap, ◌∙◌, Bool, true, false, [], ◌∷◌, ◌++◌, length,
  length-append, take-append, get_or, some, ok, arith,
}
use zigbee_go_home.Base.Bytes.{Bytes}
use zigbee_go_home.Base.Int.{ℤ, pattern_of}
use zigbee_go_home.Zcl.Value.{
  FloatOps, Value, bool, uint8, uint16, uint32, uint64, int8, int16, int32, float32, float64,
  string, bytes, array8, to_bool, to_uint64, to_int64, to_float64,
}
use zigbee_go_home.Zcl.Types.{
  type_size, le_value, put_le, fixed_value, counted_value, decode_string, decode_string16,
  decode_variable_value, decode_value, is_outside, encode_bool, encode_unsigned, encode_signed,
  encode_float16, encode_float32, encode_float64, encode_eui64, encode_counted, encode_string,
  encode_bytes, encode_value,
}
use zigbee_go_home.Zcl.Types.Words.{
  length-put_le, le_value-put_le, signed_byte, signed_word, signed_triple, signed_long,
}

-- The values that a type has a wire form for, in the Go type that the decoder gives them. A float32
-- is one that survives the way through float64.
pub data IsCanonical (ops : FloatOps) : ℕ → Value → Type 0 where
  boolean : (b : Bool) → IsCanonical ops 0x10 (bool b)
  number8 : (n : ℕ) → n < 256 ^ 1 → IsCanonical ops 0x20 (uint8 n)
  enum8 : (n : ℕ) → n < 256 ^ 1 → IsCanonical ops 0x30 (uint8 n)
  bitmap8 : (n : ℕ) → n < 256 ^ 1 → IsCanonical ops 0x18 (uint8 n)
  number16 : (n : ℕ) → n < 256 ^ 2 → IsCanonical ops 0x21 (uint16 n)
  enum16 : (n : ℕ) → n < 256 ^ 2 → IsCanonical ops 0x31 (uint16 n)
  bitmap16 : (n : ℕ) → n < 256 ^ 2 → IsCanonical ops 0x19 (uint16 n)
  float16 : (n : ℕ) → n < 256 ^ 2 → IsCanonical ops 0x38 (uint16 n)
  number24 : (n : ℕ) → n < 256 ^ 3 → IsCanonical ops 0x22 (uint32 n)
  bitmap24 : (n : ℕ) → n < 256 ^ 3 → IsCanonical ops 0x1a (uint32 n)
  number32 : (n : ℕ) → n < 256 ^ 4 → IsCanonical ops 0x23 (uint32 n)
  bitmap32 : (n : ℕ) → n < 256 ^ 4 → IsCanonical ops 0x1b (uint32 n)
  utc : (n : ℕ) → n < 256 ^ 4 → IsCanonical ops 0xe2 (uint32 n)
  number40 : (n : ℕ) → n < 256 ^ 5 → IsCanonical ops 0x24 (uint64 n)
  number48 : (n : ℕ) → n < 256 ^ 6 → IsCanonical ops 0x25 (uint64 n)
  signed8 : (i : ℤ) → is_outside (2 ^ 7) i ≡ false → IsCanonical ops 0x28 (int8 i)
  signed16 : (i : ℤ) → is_outside (2 ^ 15) i ≡ false → IsCanonical ops 0x29 (int16 i)
  signed24 : (i : ℤ) → is_outside (2 ^ 23) i ≡ false → IsCanonical ops 0x2a (int32 i)
  signed32 : (i : ℤ) → is_outside (2 ^ 31) i ≡ false → IsCanonical ops 0x2b (int32 i)
  single : (f : ℕ) → f < 256 ^ 4 → ops.narrow (ops.widen f) ≡ f → IsCanonical ops 0x39 (float32 f)
  double : (f : ℕ) → f < 256 ^ 8 → IsCanonical ops 0x3a (float64 f)
  eui64 : (a : Bytes) → length a ≡ 8 → IsCanonical ops 0xf0 (array8 a)
  octets : (b : Bytes) → length b ≤ 254 → IsCanonical ops 0x41 (bytes b)
  characters : (s : Bytes) → length s ≤ 254 → IsCanonical ops 0x42 (string s)
  octets16 : (b : Bytes) → length b ≤ 65534 → IsCanonical ops 0x43 (bytes b)
  characters16 : (s : Bytes) → length s ≤ 65534 → IsCanonical ops 0x44 (string s)

-- Encoded, and decoded with other bytes behind.
abbrev pub Returns : FloatOps → ℕ → Value → Bytes → Type 0
Returns ops t v rest =
    (raw : Bytes) × (encode_value ops t v ≡ ok raw)
    × (decode_value t (raw ++ rest) ≡ ok (v, length raw))

module _ (ops : FloatOps) (t : ℕ) (v : Value) (rest : Bytes) where
  fixed-Returns :
      (size : ℕ) (raw : Bytes)
      → type_size t ≡ some size
      → 0 < size
      → length raw ≡ size
      → encode_value ops t v ≡ ok raw
      → fixed_value t raw ≡ v
      → Returns ops t v rest
  unfolding decode_value
  fixed-Returns size raw s z l e d =
      (raw, e, rw (s, decode_value) (ground (arith, length-append raw rest, take-append raw rest)))

  unsigned-Returns :
      (size n : ℕ)
      → type_size t ≡ some size
      → 0 < size
      → n < 256 ^ size
      → to_uint64 ops v ≡ some n
      → encode_value ops t v ≡ encode_unsigned ops size v
      → fixed_value t (put_le size n) ≡ v
      → Returns ops t v rest
  unfolding encode_unsigned
  unsigned-Returns size n s z l u e d =
      fixed-Returns size (put_le size n) s z (length-put_le size n) (e ∙ ground (arith, u)) d

  signed-Returns :
      (size bound : ℕ) (i : ℤ)
      → type_size t ≡ some size
      → 0 < size
      → is_outside bound i ≡ false
      → to_int64 ops v ≡ some i
      → encode_value ops t v ≡ encode_signed ops size bound v
      → fixed_value t (put_le size (pattern_of (2 ^ 32) i)) ≡ v
      → Returns ops t v rest
  unfolding encode_signed
  signed-Returns size bound i s z l u e d =
      fixed-Returns size (put_le size (pattern_of (2 ^ 32) i)) s z
        (length-put_le size (pattern_of (2 ^ 32) i)) (e ∙ rw (u, encode_signed) (rw l refl)) d

counted1_returns :
    (make : Bytes → Value) (content rest : Bytes)
    → length content ≤ 254
    → (raw : Bytes) × (encode_counted 1 254 content ≡ ok raw)
      × (decode_string make (raw ++ rest) ≡ ok (make content, length raw))
unfolding encode_counted decode_string counted_value put_le
counted1_returns make content rest h = (
  length content % 256 ∷ content,
  ground arith,
  ground (arith, length-append content rest, take-append content rest),
)

counted2_returns :
    (make : Bytes → Value) (content rest : Bytes)
    → length content ≤ 65534
    → (raw : Bytes) × (encode_counted 2 65534 content ≡ ok raw)
      × (decode_string16 make (raw ++ rest) ≡ ok (make content, length raw))
unfolding encode_counted decode_string16 counted_value put_le
counted2_returns make content rest h = (
  length content % 256 ∷ length content / 256 % 256 ∷ content,
  ground arith,
  ground (arith, length-append content rest, take-append content rest),
)

-- The first byte of a number of one byte.
byte_is : (n : ℕ) → n < 256 ^ 1 → get_or (put_le 1 n) 0 0 ≡ n
unfolding put_le
byte_is n h = omega arith

-- Every value in the form of its type is encoded, and `DecodeValue` gives the same value back from
-- the bytes, whatever follows them, and says how many they are. A float32 is one that the way
-- through float64 leaves as it is.
pub decode_value-encode_value :
    (ops : FloatOps) (t : ℕ) (v : Value) (rest : Bytes) → IsCanonical ops t v → Returns ops t v rest
unfolding type_size encode_value fixed_value to_uint64 to_int64 encode_bool to_bool encode_float16
    encode_float32 encode_float64 to_float64 encode_eui64 encode_string encode_bytes decode_value
    decode_variable_value
decode_value-encode_value ops _ _ rest (boolean true) =
    fixed-Returns ops 0x10 (bool true) rest 1 (1 ∷ []) refl (omega arith) refl refl refl
decode_value-encode_value ops _ _ rest (boolean false) =
    fixed-Returns ops 0x10 (bool false) rest 1 (0 ∷ []) refl (omega arith) refl refl refl
decode_value-encode_value ops _ _ rest (number8 n h) =
    unsigned-Returns ops 0x20 (uint8 n) rest 1 n refl (omega arith) h refl refl
      (ap uint8 (byte_is n h))
decode_value-encode_value ops _ _ rest (enum8 n h) =
    unsigned-Returns ops 0x30 (uint8 n) rest 1 n refl (omega arith) h refl refl
      (ap uint8 (byte_is n h))
decode_value-encode_value ops _ _ rest (bitmap8 n h) =
    unsigned-Returns ops 0x18 (uint8 n) rest 1 n refl (omega arith) h refl refl
      (ap uint8 (byte_is n h))
decode_value-encode_value ops _ _ rest (number16 n h) =
    unsigned-Returns ops 0x21 (uint16 n) rest 2 n refl (omega arith) h refl refl
      (ap uint16 (le_value-put_le 2 n h))
decode_value-encode_value ops _ _ rest (enum16 n h) =
    unsigned-Returns ops 0x31 (uint16 n) rest 2 n refl (omega arith) h refl refl
      (ap uint16 (le_value-put_le 2 n h))
decode_value-encode_value ops _ _ rest (bitmap16 n h) =
    unsigned-Returns ops 0x19 (uint16 n) rest 2 n refl (omega arith) h refl refl
      (ap uint16 (le_value-put_le 2 n h))
decode_value-encode_value ops _ _ rest (number24 n h) =
    unsigned-Returns ops 0x22 (uint32 n) rest 3 n refl (omega arith) h refl refl
      (ap uint32 (le_value-put_le 3 n h))
decode_value-encode_value ops _ _ rest (bitmap24 n h) =
    unsigned-Returns ops 0x1a (uint32 n) rest 3 n refl (omega arith) h refl refl
      (ap uint32 (le_value-put_le 3 n h))
decode_value-encode_value ops _ _ rest (number32 n h) =
    unsigned-Returns ops 0x23 (uint32 n) rest 4 n refl (omega arith) h refl refl
      (ap uint32 (le_value-put_le 4 n h))
decode_value-encode_value ops _ _ rest (bitmap32 n h) =
    unsigned-Returns ops 0x1b (uint32 n) rest 4 n refl (omega arith) h refl refl
      (ap uint32 (le_value-put_le 4 n h))
decode_value-encode_value ops _ _ rest (utc n h) =
    unsigned-Returns ops 0xe2 (uint32 n) rest 4 n refl (omega arith) h refl refl
      (ap uint32 (le_value-put_le 4 n h))
decode_value-encode_value ops _ _ rest (number40 n h) =
    unsigned-Returns ops 0x24 (uint64 n) rest 5 n refl (omega arith) h refl refl
      (ap uint64 (le_value-put_le 5 n h))
decode_value-encode_value ops _ _ rest (number48 n h) =
    unsigned-Returns ops 0x25 (uint64 n) rest 6 n refl (omega arith) h refl refl
      (ap uint64 (le_value-put_le 6 n h))
decode_value-encode_value ops _ _ rest (signed8 i h) =
    signed-Returns ops 0x28 (int8 i) rest 1 (2 ^ 7) i refl (omega arith) h refl refl
      (ap int8 (signed_byte i h))
decode_value-encode_value ops _ _ rest (signed16 i h) =
    signed-Returns ops 0x29 (int16 i) rest 2 (2 ^ 15) i refl (omega arith) h refl refl
      (ap int16 (signed_word i h))
decode_value-encode_value ops _ _ rest (signed24 i h) =
    signed-Returns ops 0x2a (int32 i) rest 3 (2 ^ 23) i refl (omega arith) h refl refl
      (ap int32 (signed_triple i h))
decode_value-encode_value ops _ _ rest (signed32 i h) =
    signed-Returns ops 0x2b (int32 i) rest 4 (2 ^ 31) i refl (omega arith) h refl refl
      (ap int32 (signed_long i h))
decode_value-encode_value ops _ _ rest (float16 n h) =
    fixed-Returns ops 0x38 (uint16 n) rest 2 (put_le 2 (n % 2 ^ 16)) refl (omega arith)
      (length-put_le 2 (n % 2 ^ 16)) refl
      (ap uint16 (le_value-put_le 2 (n % 2 ^ 16) (omega arith) ∙ omega arith))
decode_value-encode_value ops _ _ rest (single f h same) =
    fixed-Returns ops 0x39 (float32 f) rest 4 (put_le 4 (ops.narrow (ops.widen f))) refl
      (omega arith) (length-put_le 4 _) refl
      (ap float32 (ap (λ t. le_value (put_le 4 t)) same ∙ le_value-put_le 4 f h))
decode_value-encode_value ops _ _ rest (double f h) =
    fixed-Returns ops 0x3a (float64 f) rest 8 (put_le 8 f) refl (omega arith) (length-put_le 8 f)
      refl (ap float64 (le_value-put_le 8 f h))
decode_value-encode_value ops _ _ rest (eui64 a h) =
    fixed-Returns ops 0xf0 (array8 a) rest 8 a refl (omega arith) h refl refl
decode_value-encode_value ops _ _ rest (octets b h) = counted1_returns bytes b rest h
decode_value-encode_value ops _ _ rest (characters s h) = counted1_returns string s rest h
decode_value-encode_value ops _ _ rest (octets16 b h) = counted2_returns bytes b rest h
decode_value-encode_value ops _ _ rest (characters16 s h) = counted2_returns string s rest h
