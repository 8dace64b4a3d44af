-- ===== src/Zcl/Types/Words.antt =====
-- Little-endian numbers: what `put_le` writes, `le_value` reads.
use zigbee_go_home.Base.{
  ℕ, zero, suc, ◌+◌, ◌/◌, ◌^◌, ◌<◌, ◌≡◌, refl, ap, ap₂, ◌∙◌, false, [], ◌∷◌, length, get_or, All,
  leb, if◌then◌else◌, arith,
}
use native.Mathlib.Nat.{pow-suc}
use zigbee_go_home.Base.Bytes.{Bytes, IsByte}
use zigbee_go_home.Base.Int.{ℤ, pos, negsuc, signed, pattern_of}
use zigbee_go_home.Zcl.Types.{le_value, put_le, is_outside}

pub length-put_le : (k v : ℕ) → length (put_le k v) ≡ k
unfolding put_le
length-put_le zero v = refl
length-put_le (suc k) v = ap suc (length-put_le k (v / 256))

pub le_value-put_le : (k v : ℕ) → v < 256 ^ k → le_value (put_le k v) ≡ v
unfolding le_value put_le
le_value-put_le zero v h = omega arith
le_value-put_le (suc k) v h =
    omega (arith, pow-suc 256 k, le_value-put_le k (v / 256) (omega (arith, pow-suc 256 k)))

pub put_le-le_value : (bs : Bytes) → All IsByte bs → put_le (length bs) (le_value bs) ≡ bs
unfolding le_value put_le
put_le-le_value [] h = refl
put_le-le_value (b ∷ bs) (hb, hbs) =
    ap₂ (λ x xs. x ∷ xs) (omega arith)
      (ap (put_le (length bs)) (omega arith) ∙ put_le-le_value bs hbs)

pub le_value-lt : (bs : Bytes) → All IsByte bs → le_value bs < 256 ^ length bs
unfolding le_value
le_value-lt [] h = omega arith
le_value-lt (b ∷ bs) (hb, hbs) = omega (arith, pow-suc 256 (length bs), le_value-lt bs hbs)

-- A signed number in range, at the width of its type.
pub signed_byte :
    (i : ℤ)
    → is_outside (2 ^ 7) i ≡ false
    → signed (2 ^ 7) (get_or (put_le 1 (pattern_of (2 ^ 32) i)) 0 0) ≡ i
unfolding is_outside put_le
signed_byte (pos n) h = ground arith
signed_byte (negsuc n) h = ground arith

pub signed_word :
    (i : ℤ)
    → is_outside (2 ^ 15) i ≡ false
    → signed (2 ^ 15) (le_value (put_le 2 (pattern_of (2 ^ 32) i))) ≡ i
unfolding is_outside le_value put_le
signed_word (pos n) h = ground arith
signed_word (negsuc n) h = ground arith

pub signed_triple :
    (i : ℤ)
    → is_outside (2 ^ 23) i ≡ false
    → signed (2 ^ 31) (
        let v = le_value (put_le 3 (pattern_of (2 ^ 32) i)) in
        if leb 0x800000 v then v + 0xff000000 else v)
      ≡ i
unfolding is_outside le_value put_le
signed_triple (pos n) h = ground arith
signed_triple (negsuc n) h = ground arith

pub signed_long :
    (i : ℤ)
    → is_outside (2 ^ 31) i ≡ false
    → signed (2 ^ 31) (le_value (put_le 4 (pattern_of (2 ^ 32) i))) ≡ i
unfolding is_outside le_value put_le
signed_long (pos n) h = ground arith
signed_long (negsuc n) h = ground arith
