-- ===== src/Ncp/Crc/Table.antt =====
-- The tables against the bit-serial register: one bit of the message at a time, lowest first.
use zigbee_go_home.Base.{
  ℕ, zero, suc, ◌*◌, ◌/◌, ◌%◌, ◌^◌, ◌<◌, ◌≡◌, refl, sym, ap, ◌∙◌, Bool, true, ◌&&◌, [], ◌∷◌, ◌==◌,
  bit_and, bit_xor, get_or, All, arith,
}
use zigbee_go_home.Base.Bits.{
  bit_and_byte, bit_xor_comm, bit_xor_assoc, bit_xor-zero, bit_xor_fields, bit_xor-lt, bit_xor-half,
}
use zigbee_go_home.Base.Bytes.{Bytes, IsByte}
use zigbee_go_home.Ncp.Crc.{
  shift_once, shifts, crc8_table, crc8_from, fcs_table, crc16_from, zboss_crc8, zboss_crc16,
  hdlc_fcs16,
}
use zigbee_go_home.Ncp.Crc.Lfsr.{shift_once-bit_xor, shifts_clear, shifts_split, shifts-lt}
use native.Mathlib.Nat.{pow-suc}

-- The next `k` bits of `b` go into the register.
unfoldable pub serial : ℕ → ℕ → ℕ → ℕ → ℕ
serial poly zero crc b = crc
serial poly (suc k) crc b = serial poly k (shift_once poly (bit_xor crc (b % 2))) (b / 2)

-- The register after a whole message.
unfoldable pub serial_from : ℕ → ℕ → Bytes → ℕ
serial_from poly crc [] = crc
serial_from poly crc (b ∷ bs) = serial_from poly (serial poly 8 crc b) bs

module _ (poly : ℕ) where
  feed_bit :
      (crc b : ℕ)
      → shift_once poly (bit_xor crc b) ≡ bit_xor (shift_once poly (bit_xor crc (b % 2))) (b / 2)
  feed_bit crc b =
      ap (shift_once poly) (regroup)
      ∙ shift_once-bit_xor poly (bit_xor crc (b % 2)) (b / 2 * 2 ^ 1)
      ∙ ap (bit_xor (shift_once poly (bit_xor crc (b % 2))))
          (unfold shifts in shifts_clear poly 1 (b / 2))
    where
      fields : b ≡ bit_xor (b / 2 * 2 ^ 1) (b % 2)
      fields = omega (arith, bit_xor_fields 1 (b / 2) (b % 2) (omega arith))

      regroup : bit_xor crc b ≡ bit_xor (bit_xor crc (b % 2)) (b / 2 * 2 ^ 1)
      regroup =
          ap (bit_xor crc) (fields ∙ bit_xor_comm (b / 2 * 2 ^ 1) (b % 2))
          ∙ sym (bit_xor_assoc crc (b % 2) (b / 2 * 2 ^ 1))

  pub shifts-serial :
      (k crc b : ℕ) → b < 2 ^ k → shifts poly k (bit_xor crc b) ≡ serial poly k crc b
  unfolding shifts serial
  shifts-serial zero crc zero h = bit_xor-zero crc
  shifts-serial zero crc (suc b) h = absurd (omega arith)
  shifts-serial (suc k) crc b h =
      ap (shifts poly k) (feed_bit crc b)
      ∙ shifts-serial k (shift_once poly (bit_xor crc (b % 2))) (b / 2) (omega (arith, pow-suc 2 k))

agrees_below : ℕ → (ℕ → ℕ) → (ℕ → ℕ) → Bool
agrees_below zero f g = true
agrees_below (suc n) f g = f n == g n && agrees_below n f g

agrees_below→eq : (n : ℕ) (f g : ℕ → ℕ) (i : ℕ) → agrees_below n f g ≡ true → i < n → f i ≡ g i
unfolding agrees_below
agrees_below→eq zero f g i e h = absurd (omega arith)
agrees_below→eq (suc n) f g i e h = ground (arith, agrees_below→eq n f g i)

pub crc8_table_lem : (i : ℕ) → i < 256 → get_or crc8_table i 0 ≡ shifts 0xb2 8 i
crc8_table_lem i h =
    agrees_below→eq 256 (λ j. get_or crc8_table j 0) (shifts 0xb2 8) i
      (unfold agrees_below crc8_table shifts shift_once in refl) h

pub fcs_table_lem : (i : ℕ) → i < 256 → get_or fcs_table i 0 ≡ shifts 0x8408 8 i
fcs_table_lem i h =
    agrees_below→eq 256 (λ j. get_or fcs_table j 0) (shifts 0x8408 8) i
      (unfold agrees_below fcs_table shifts shift_once in refl) h

-- One byte through each table is eight shifts.
pub crc8_byte :
    (crc b : ℕ)
    → crc < 2 ^ 8
    → IsByte b
    → get_or crc8_table (bit_xor crc b) 0 ≡ shifts 0xb2 8 (bit_xor crc b)
crc8_byte crc b hc hb = crc8_table_lem (bit_xor crc b) (bit_xor-lt 8 crc b hc hb)

-- Both sides lose their low byte, bit by bit.
four_bits : (a b : ℕ) → bit_xor a b / 16 ≡ bit_xor (a / 2 / 2 / 2 / 2) (b / 2 / 2 / 2 / 2)
four_bits a b = omega (
  arith,
  bit_xor-half a b,
  bit_xor-half (a / 2) (b / 2),
  bit_xor-half (a / 2 / 2) (b / 2 / 2),
  bit_xor-half (a / 2 / 2 / 2) (b / 2 / 2 / 2),
)

high_byte : (crc b : ℕ) → IsByte b → bit_xor crc b / 256 ≡ crc / 256
high_byte crc b h =
    let a : ℕ = crc / 2 / 2 / 2 / 2 in
    let c : ℕ = b / 2 / 2 / 2 / 2 in
    let gone : c / 2 / 2 / 2 / 2 ≡ 0 = omega arith in
    omega (
      arith,
      four_bits crc b,
      four_bits a c,
      ap (bit_xor (a / 2 / 2 / 2 / 2)) gone,
      bit_xor-zero (a / 2 / 2 / 2 / 2),
    )

pub crc16_byte :
    (crc b : ℕ)
    → IsByte b
    → bit_xor (crc / 256) (get_or fcs_table (bit_and (bit_xor crc b) 0xff) 0)
      ≡ shifts 0x8408 8 (bit_xor crc b)
crc16_byte crc b h =
    rw (bit_and_byte (bit_xor crc b), fcs_table_lem (bit_xor crc b % 256) (omega arith))
      (ap (λ t. bit_xor t (shifts 0x8408 8 (bit_xor crc b % 256))) (sym (high_byte crc b h))
        ∙ sym (shifts_split 0x8408 (bit_xor crc b)))

-- The table loops compute the bit-serial register, from every state.
crc8_from-serial :
    (crc : ℕ) (bytes : Bytes)
    → crc < 2 ^ 8
    → All IsByte bytes
    → crc8_from crc bytes ≡ serial_from 0xb2 crc bytes
unfolding crc8_from serial_from
crc8_from-serial crc [] hc h = refl
crc8_from-serial crc (b ∷ bs) hc (hb, hbs) =
    let next = crc8_byte crc b hc hb ∙ shifts-serial 0xb2 8 crc b hb in
    let bound = shifts-lt 0xb2 7 (omega arith) (omega arith) 8 _ (bit_xor-lt 8 crc b hc hb) in
    rw next
      (crc8_from-serial (serial 0xb2 8 crc b) bs (rw (shifts-serial 0xb2 8 crc b hb) at bound) hbs)

crc16_from-serial :
    (crc : ℕ) (bytes : Bytes)
    → All IsByte bytes
    → crc16_from crc bytes ≡ serial_from 0x8408 crc bytes
unfolding crc16_from serial_from
crc16_from-serial crc [] h = refl
crc16_from-serial crc (b ∷ bs) (hb, hbs) =
    rw (crc16_byte crc b hb ∙ shifts-serial 0x8408 8 crc b hb)
      (crc16_from-serial (serial 0x8408 8 crc b) bs hbs)

-- On any bytes the three table-driven checksums are those of the bit-serial register: CRC-8 with
-- the reflected polynomial 0xb2 from 0xff, complemented; CRC-16 with 0x8408 from 0; FCS-16 with
-- 0x8408 from 0xffff, complemented.
pub checksums-serial :
    (bytes : Bytes)
    → All IsByte bytes
    → (zboss_crc8 bytes ≡ bit_xor (serial_from 0xb2 0xff bytes) 0xff)
      × (zboss_crc16 bytes ≡ serial_from 0x8408 0 bytes)
      × (hdlc_fcs16 bytes ≡ bit_xor (serial_from 0x8408 0xffff bytes) 0xffff)
unfolding zboss_crc8 zboss_crc16 hdlc_fcs16
checksums-serial bytes h = (
  ap (λ t. bit_xor t 0xff) (crc8_from-serial 0xff bytes (omega arith) h),
  crc16_from-serial 0 bytes h,
  ap (λ t. bit_xor t 0xffff) (crc16_from-serial 0xffff bytes h),
)
