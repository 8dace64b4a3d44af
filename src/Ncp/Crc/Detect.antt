-- ===== src/Ncp/Crc/Detect.antt =====
-- What the checksums detect: the register forgets nothing, so a change that fits its width shows.
use zigbee_go_home.Base.{
  ℕ, ◌+◌, ◌*◌, ◌^◌, ◌<◌, ◌≡◌, refl, sym, ap, ◌∙◌, [], ◌∷◌, ◌++◌, bit_xor, All, arith,
}
use zigbee_go_home.Base.Bits.{
  bit_xor_comm, bit_xor_assoc, bit_xor_injective, bit_xor-lt, bit_xor_fields,
}
use zigbee_go_home.Base.Bytes.{Bytes, IsByte}
use zigbee_go_home.Ncp.Crc.{shifts, crc16_from, zboss_crc16, hdlc_fcs16}
use zigbee_go_home.Ncp.Crc.Lfsr.{shifts-bit_xor, shifts_clear, shifts-lt, shifts_injective}
use zigbee_go_home.Ncp.Crc.Table.{crc16_byte}

-- One byte into the 16-bit register.
abbrev byte16 : ℕ → ℕ → ℕ
byte16 crc b = shifts 0x8408 8 (bit_xor crc b)

crc16_from-cons :
    (crc b : ℕ) (bs : Bytes) → IsByte b → crc16_from crc (b ∷ bs) ≡ crc16_from (byte16 crc b) bs
unfolding crc16_from
crc16_from-cons crc b bs h = rw (crc16_byte crc b h)

byte16-lt : (crc b : ℕ) → crc < 2 ^ 16 → IsByte b → byte16 crc b < 2 ^ 16
byte16-lt crc b hc hb =
    shifts-lt 0x8408 15 (omega arith) (omega arith) 8 _ (bit_xor-lt 16 crc b hc (omega arith))

byte16_injective :
    (c d : ℕ) → c < 2 ^ 16 → d < 2 ^ 16 → shifts 0x8408 8 c ≡ shifts 0x8408 8 d → c ≡ d
byte16_injective = shifts_injective 0x8408 15 (omega arith) (omega arith) 8

pub crc16_from-lt :
    (crc : ℕ) (bytes : Bytes) → crc < 2 ^ 16 → All IsByte bytes → crc16_from crc bytes < 2 ^ 16
crc16_from-lt crc [] hc h = unfold crc16_from in hc
crc16_from-lt crc (b ∷ bs) hc (hb, hbs) =
    rw (crc16_from-cons crc b bs hb) (crc16_from-lt (byte16 crc b) bs (byte16-lt crc b hc hb) hbs)

pub zboss_crc16-lt : (bytes : Bytes) → All IsByte bytes → zboss_crc16 bytes < 2 ^ 16
unfolding zboss_crc16
zboss_crc16-lt bytes h = crc16_from-lt 0 bytes (omega arith) h

pub hdlc_fcs16-lt : (bytes : Bytes) → All IsByte bytes → hdlc_fcs16 bytes < 2 ^ 16
unfolding hdlc_fcs16
hdlc_fcs16-lt bytes h =
    bit_xor-lt 16 _ 0xffff (crc16_from-lt 0xffff bytes (omega arith) h) (omega arith)

crc16_from_injective :
    (c d : ℕ) (bytes : Bytes)
    → c < 2 ^ 16
    → d < 2 ^ 16
    → All IsByte bytes
    → crc16_from c bytes ≡ crc16_from d bytes
    → c ≡ d
crc16_from_injective c d [] hc hd h e = unfold crc16_from in e
crc16_from_injective c d (b ∷ bs) hc hd (hb, hbs) e = bit_xor_injective c d b (
    byte16_injective _ _ (bit_xor-lt 16 c b hc (omega arith)) (bit_xor-lt 16 d b hd (omega arith)) (
      crc16_from_injective (byte16 c b) (byte16 d b) bs (byte16-lt c b hc hb) (byte16-lt d b hd hb)
        hbs (sym (crc16_from-cons c b bs hb) ∙ e ∙ crc16_from-cons d b bs hb)))

crc16_from-append :
    (xs ys : Bytes) (crc : ℕ) → crc16_from crc (xs ++ ys) ≡ crc16_from (crc16_from crc xs) ys
unfolding crc16_from
crc16_from-append [] ys crc = refl
crc16_from-append (x ∷ xs) ys crc = crc16_from-append xs ys _

-- Two bytes go in as one 16-bit word, the first one low.
byte16_pair :
    (crc x y : ℕ)
    → IsByte x
    → byte16 (byte16 crc x) y ≡ shifts 0x8408 8 (shifts 0x8408 8 (bit_xor crc (y * 256 + x)))
byte16_pair crc x y hx = ap (shifts 0x8408 8) inner
  where
    inner : bit_xor (byte16 crc x) y ≡ shifts 0x8408 8 (bit_xor crc (y * 256 + x))
    inner =
        ap (bit_xor (byte16 crc x)) (sym (shifts_clear 0x8408 8 y))
        ∙ sym (shifts-bit_xor 0x8408 8 (bit_xor crc x) (y * 2 ^ 8))
        ∙ ap (shifts 0x8408 8) (
            bit_xor_assoc crc x (y * 2 ^ 8)
            ∙ ap (bit_xor crc) (bit_xor_comm x (y * 2 ^ 8) ∙ bit_xor_fields 8 y x hx))

crc16_pair_injective :
    (crc x y x' y' : ℕ)
    → crc < 2 ^ 16
    → All IsByte (x ∷ y ∷ x' ∷ y' ∷ [])
    → byte16 (byte16 crc x) y ≡ byte16 (byte16 crc x') y'
    → (x ≡ x') × (y ≡ y')
crc16_pair_injective crc x y x' y' hc (hx, (hy, (hx', (hy', _)))) e =
    (omega (arith, words), omega (arith, words))
  where
    word-lt : (v w : ℕ) → IsByte v → IsByte w → bit_xor crc (w * 256 + v) < 2 ^ 16
    word-lt v w hv hw = bit_xor-lt 16 crc (w * 256 + v) hc (omega arith)

    shifted-lt : (a : ℕ) → a < 2 ^ 16 → shifts 0x8408 8 a < 2 ^ 16
    shifted-lt a h = shifts-lt 0x8408 15 (omega arith) (omega arith) 8 a h

    words : y * 256 + x ≡ y' * 256 + x'
    words = bit_xor_injective _ _ crc (
        bit_xor_comm _ crc
        ∙ byte16_injective _ _ (word-lt x y hx hy) (word-lt x' y' hx' hy') (
            byte16_injective _ _ (shifted-lt _ (word-lt x y hx hy))
              (shifted-lt _ (word-lt x' y' hx' hy'))
              (sym (byte16_pair crc x y hx) ∙ e ∙ byte16_pair crc x' y' hx'))
        ∙ bit_xor_comm crc _)

-- From any state, messages that differ in one pair of neighbouring bytes at most have different
-- registers unless the pair is the same.
pub crc16_from_pair :
    (crc x y x' y' : ℕ) (front back : Bytes)
    → crc < 2 ^ 16
    → All IsByte front
    → All IsByte back
    → All IsByte (x ∷ y ∷ x' ∷ y' ∷ [])
    → crc16_from crc (front ++ (x ∷ y ∷ back)) ≡ crc16_from crc (front ++ (x' ∷ y' ∷ back))
    → (x ≡ x') × (y ≡ y')
crc16_from_pair crc x y x' y' front back hc hf hb (hx, (hy, (hx', (hy', _)))) e =
    crc16_pair_injective s x y x' y' hs (hx, (hy, (hx', (hy', tt))))
      (crc16_from_injective _ _ back (byte16-lt _ y (byte16-lt s x hs hx) hy)
        (byte16-lt _ y' (byte16-lt s x' hs hx') hy') hb
        (sym (run x y hx hy) ∙ e ∙ run x' y' hx' hy'))
  where
    s : ℕ
    s = crc16_from crc front

    hs : s < 2 ^ 16
    hs = crc16_from-lt crc front hc hf

    run :
        (v w : ℕ)
        → IsByte v
        → IsByte w
        → crc16_from crc (front ++ (v ∷ w ∷ back)) ≡ crc16_from (byte16 (byte16 s v) w) back
    run v w hv hw =
        crc16_from-append front (v ∷ w ∷ back) crc
        ∙ crc16_from-cons s v (w ∷ back) hv
        ∙ crc16_from-cons (byte16 s v) w back hw

-- The two bytes of the little-endian checksum in a frame name the checksum of what follows, so two
-- bodies under one checksum that differ in a pair of neighbouring bytes at most are equal there.
pub zboss_crc16_pair :
    (x y x' y' : ℕ) (front back : Bytes)
    → All IsByte front
    → All IsByte back
    → All IsByte (x ∷ y ∷ x' ∷ y' ∷ [])
    → zboss_crc16 (front ++ (x ∷ y ∷ back)) ≡ zboss_crc16 (front ++ (x' ∷ y' ∷ back))
    → (x ≡ x') × (y ≡ y')
unfolding zboss_crc16
zboss_crc16_pair x y x' y' front back hf hb h =
    crc16_from_pair 0 x y x' y' front back (omega arith) hf hb h
