-- ===== src/Zcl/Types/Signed.antt =====
-- `EncodeValue` at the signed types.
use zigbee_go_home.Base.{
  ℕ, ◌^◌, ◌≡◌, false, inl, inr, length, ◌==◌, if◌then◌else◌, Option, none, some, Option-cases,
  Bool-cases, ok, arith,
}
use zigbee_go_home.Base.Bytes.{Bytes}
use zigbee_go_home.Base.Int.{ℤ, pos, negsuc, signed, pattern_of}
use zigbee_go_home.Zcl.Value.{FloatOps, Value, to_int64}
use zigbee_go_home.Zcl.Types.{le_value, put_le, is_outside, encode_signed, encode_value}
use zigbee_go_home.Zcl.Types.Words.{length-put_le, signed_word, signed_long}

-- The size of a signed type and half its range.
abbrev pub signed_size : ℕ → Option (ℕ × ℕ)
signed_size t =
    if t == 0x28
    then some (1, 2 ^ 7)
    else if t == 0x29
    then some (2, 2 ^ 15)
    else if t == 0x2a
    then some (3, 2 ^ 23)
    else if t == 0x2b
    then some (4, 2 ^ 31)
    else none

-- The bytes hold every number that passes the test of the range.
abbrev Holds : ℕ → ℕ → Type 0
Holds size half =
    (i : ℤ)
    → is_outside half i ≡ false
    → signed half (le_value (put_le size (pattern_of (2 ^ 32) i))) ≡ i

holds1 : Holds 1 (2 ^ 7)
unfolding is_outside le_value put_le
holds1 (pos n) h = ground arith
holds1 (negsuc n) h = ground arith

holds2 : Holds 2 (2 ^ 15)
holds2 = signed_word

holds3 : Holds 3 (2 ^ 23)
unfolding is_outside le_value put_le
holds3 (pos n) h = ground arith
holds3 (negsuc n) h = ground arith

holds4 : Holds 4 (2 ^ 31)
holds4 = signed_long

module _ (ops : FloatOps) (v : Value) (raw : Bytes) where
  encode_signed_exact :
      (size half : ℕ)
      → Holds size half
      → encode_signed ops size half v ≡ ok raw
      → (length raw ≡ size) × (to_int64 ops v ≡ some (signed half (le_value raw)))
  unfolding encode_signed
  encode_signed_exact size half holds e = elim (Option-cases (to_int64 ops v)) [
    | inl u ↦ cc (rw (u, encode_signed) at e)
    | inr (i, u) ↦ elim (Bool-cases (is_outside half i)) [
      | inl big ↦ ground (arith, u, e)
      | inr fits ↦ ground (arith, u, e, holds i, length-put_le size (pattern_of (2 ^ 32) i))
    ]
  ]

  -- What is encoded at a signed type has the bytes of the type, and read in two's complement they
  -- are exactly the number that the Go value converts to.
  pub encode_value_exact_signed :
      (t size half : ℕ)
      → signed_size t ≡ some (size, half)
      → encode_value ops t v ≡ ok raw
      → (length raw ≡ size) × (to_int64 ops v ≡ some (signed half (le_value raw)))
  unfolding encode_value
  encode_value_exact_signed t size half h e = ground (
    arith,
    encode_signed_exact 1 (2 ^ 7) holds1,
    encode_signed_exact 2 (2 ^ 15) holds2,
    encode_signed_exact 3 (2 ^ 23) holds3,
    encode_signed_exact 4 (2 ^ 31) holds4,
  )
