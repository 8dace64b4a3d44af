-- ===== src/Zcl/Types/Exact.antt =====
-- `EncodeValue` writes a number whole or refuses it; `DecodeValue` stays inside its bytes.
use zigbee_go_home.Base.{
  ℕ, zero, suc, ◌+◌, ◌-◌, ◌^◌, ◌≤◌, ◌≡◌, sym, ◌∙◌, ◌||◌, [], ◌∷◌, ◌++◌, inl, inr, length,
  length-append, length-take, take, take-append, leb, ◌==◌, if◌then◌else◌, Option, none, some,
  Option-cases, Bool-cases, ok, Outcome, arith,
}
use zigbee_go_home.Base.Bytes.{Bytes, le16}
use zigbee_go_home.Zcl.Value.{FloatOps, Value, string, bytes, to_uint64}
use zigbee_go_home.Zcl.Types.{
  DecodeError, type_size, le_value, counted_value, decode_string, decode_string16,
  decode_variable_value, decode_value, encode_unsigned, encode_value,
}
use zigbee_go_home.Zcl.Types.Words.{length-put_le, le_value-put_le}

-- The size of an unsigned type that the encoder knows.
abbrev pub unsigned_size : ℕ → Option ℕ
unsigned_size t =
    if t == 0x20 || t == 0x30 || t == 0x18
    then some 1
    else if t == 0x21 || t == 0x31 || t == 0x19
    then some 2
    else if t == 0x22 || t == 0x1a
    then some 3
    else if t == 0x23 || t == 0x1b || t == 0xe2
    then some 4
    else if t == 0x24
    then some 5
    else if t == 0x25
    then some 6
    else none

encode_value_unsigned :
    (ops : FloatOps) (t size : ℕ) (v : Value)
    → unsigned_size t ≡ some size
    → encode_value ops t v ≡ encode_unsigned ops size v
unfolding encode_value
encode_value_unsigned ops t size v h = ground arith

encode_unsigned_exact :
    (ops : FloatOps) (size : ℕ) (v : Value) (raw : Bytes)
    → encode_unsigned ops size v ≡ ok raw
    → (length raw ≡ size) × (to_uint64 ops v ≡ some (le_value raw))
unfolding encode_unsigned
encode_unsigned_exact ops size v raw e = elim (Option-cases (to_uint64 ops v)) [
  | inl u ↦ cc (rw (u, encode_unsigned) at e)
  | inr (n, u) ↦ elim (Bool-cases (leb (256 ^ size) n)) [
    | inl big ↦ ground (arith, u, e)
    | inr fits ↦ ground (arith, u, e, length-put_le size n, le_value-put_le size n)
  ]
]

-- What is encoded at an unsigned type has the bytes of the type, and they hold exactly the number
-- that the Go value converts to: nothing is cut off.
pub encode_value_exact :
    (ops : FloatOps) (t size : ℕ) (v : Value) (raw : Bytes)
    → unsigned_size t ≡ some size
    → encode_value ops t v ≡ ok raw
    → (length raw ≡ size) × (to_uint64 ops v ≡ some (le_value raw))
encode_value_exact ops t size v raw h e =
    encode_unsigned_exact ops size v raw (sym (encode_value_unsigned ops t size v h) ∙ e)

counted_value_local :
    (make : Bytes → Value) (prefix invalid count n : ℕ) (v : Value) (body rest : Bytes)
    → counted_value make prefix invalid count body ≡ ok (v, n)
    → (prefix ≤ n)
      × (n ≤ prefix + length body)
      × (counted_value make prefix invalid count (take (n - prefix) body ++ rest) ≡ ok (v, n))
unfolding counted_value
counted_value_local make prefix invalid count n v body rest h = ground (
  arith,
  length-append (take count body) rest,
  length-take count body,
  take-append (take count body) rest,
)

-- A decoder that stays inside what it says it has taken.
abbrev Local : (Bytes → Outcome DecodeError (Value × ℕ)) → Bytes → Bytes → Value → ℕ → Type 0
Local decode raw rest v n = (n ≤ length raw) × (decode (take n raw ++ rest) ≡ ok (v, n))

decode_string-Local :
    (make : Bytes → Value) (n : ℕ) (v : Value) (raw rest : Bytes)
    → decode_string make raw ≡ ok (v, n)
    → Local (decode_string make) raw rest v n
unfolding decode_string
decode_string-Local make n v [] rest h = cc
decode_string-Local make zero v (c ∷ body) rest h =
    absurd (omega (arith, (counted_value_local make 1 0xff c zero v body rest h).0))
decode_string-Local make (suc n) v (c ∷ body) rest h =
    let (l, u, e) = counted_value_local make 1 0xff c (suc n) v body rest h in
    (omega (arith, u), ground (arith, e))

decode_string16-Local :
    (make : Bytes → Value) (n : ℕ) (v : Value) (raw rest : Bytes)
    → decode_string16 make raw ≡ ok (v, n)
    → Local (decode_string16 make) raw rest v n
unfolding decode_string16
decode_string16-Local make n v [] rest h = cc
decode_string16-Local make n v (lo ∷ []) rest h = cc
decode_string16-Local make zero v (lo ∷ hi ∷ body) rest h =
    absurd (omega (arith, (counted_value_local make 2 0xffff (le16 lo hi) zero v body rest h).0))
decode_string16-Local make (suc zero) v (lo ∷ hi ∷ body) rest h =
    absurd (omega (arith, (counted_value_local make 2 0xffff (le16 lo hi) 1 v body rest h).0))
decode_string16-Local make (suc (suc n)) v (lo ∷ hi ∷ body) rest h =
    let (l, u, e) = counted_value_local make 2 0xffff (le16 lo hi) (suc (suc n)) v body rest h in
    (omega (arith, u), ground (arith, e))

decode_variable_value-Local :
    (t n : ℕ) (v : Value) (raw rest : Bytes)
    → decode_variable_value t raw ≡ ok (v, n)
    → Local (decode_variable_value t) raw rest v n
unfolding decode_variable_value
decode_variable_value-Local t n v raw rest h = ground (
  arith,
  decode_string-Local string n v raw rest,
  decode_string-Local bytes n v raw rest,
  decode_string16-Local string n v raw rest,
  decode_string16-Local bytes n v raw rest,
)

-- What `DecodeValue` says it has taken is there, and it depends on these bytes only: the same bytes
-- with anything else behind them decode to the same value.
pub decode_value-Local :
    (t n : ℕ) (v : Value) (raw rest : Bytes)
    → decode_value t raw ≡ ok (v, n)
    → (n ≤ length raw) × (decode_value t (take n raw ++ rest) ≡ ok (v, n))
unfolding decode_value
decode_value-Local t n v raw rest h = elim (Option-cases (type_size t)) [
  | inl s ↦
      let (l, e) = decode_variable_value-Local t n v raw rest (rw (s, decode_value) at h) in
      (l, rw (s, decode_value) e)
  | inr (size, s) ↦ ground (
    arith,
    s,
    h,
    length-append (take size raw) rest,
    length-take size raw,
    take-append (take size raw) rest,
  )
]
