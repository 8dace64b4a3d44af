-- ===== src/Ncp/Crc/Lfsr.antt =====
-- The shift register behind the tables: it is linear, keeps its width and loses nothing.
use zigbee_go_home.Base.{
  ℕ, zero, suc, ◌*◌, ◌/◌, ◌%◌, ◌^◌, ◌≤◌, ◌<◌, ◌≡◌, refl, sym, ap, ◌∙◌, ◌⊎◌, inl, inr, bit_xor,
  arith,
}
use zigbee_go_home.Base.Bits.{
  bit_and-one, bit_xor-half, bit_xor-mod_two, bit_xor_comm, bit_xor_assoc, bit_xor_cancel,
  bit_xor_injective, bit_xor-lt, bit_xor_fields,
}
use zigbee_go_home.Ncp.Crc.{shift_once, shifts}
use native.Mathlib.Nat.{pow-suc}

parity : (a : ℕ) → (a % 2 ≡ 0) ⊎ (a % 2 ≡ 1)
parity a = omega arith

module _ (p : ℕ) where
  shift_once_even : (a : ℕ) → a % 2 ≡ 0 → shift_once p a ≡ a / 2
  unfolding shift_once
  shift_once_even a h = ground (arith, bit_and-one a)

  shift_once_odd : (a : ℕ) → a % 2 ≡ 1 → shift_once p a ≡ bit_xor (a / 2) p
  unfolding shift_once
  shift_once_odd a h = ground (arith, bit_and-one a)

  xor_swap_last : (a b c : ℕ) → bit_xor (bit_xor a b) c ≡ bit_xor (bit_xor a c) b
  xor_swap_last a b c = bit_xor_assoc a b c ∙ rw (bit_xor_comm b c) (sym (bit_xor_assoc a c b))

  xor_both : (a b c : ℕ) → bit_xor (bit_xor a c) (bit_xor b c) ≡ bit_xor a b
  xor_both a b c =
      sym (bit_xor_assoc (bit_xor a c) b c)
      ∙ ap (λ t. bit_xor t c) (xor_swap_last a c b)
      ∙ bit_xor_cancel (bit_xor a b) c

  pub shift_once-bit_xor :
      (a b : ℕ) → shift_once p (bit_xor a b) ≡ bit_xor (shift_once p a) (shift_once p b)
  shift_once-bit_xor a b = elim (parity a) [
    | inl ea ↦ elim (parity b) [
      | inl eb ↦
          rw (shift_once_even a ea, shift_once_even b eb)
            (shift_once_even _ (omega (arith, bit_xor-mod_two a b)) ∙ bit_xor-half a b)
      | inr eb ↦
          rw (shift_once_even a ea, shift_once_odd b eb)
            (shift_once_odd _ (omega (arith, bit_xor-mod_two a b))
              ∙ rw (bit_xor-half a b) (bit_xor_assoc _ _ p))
    ]
    | inr ea ↦ elim (parity b) [
      | inl eb ↦
          rw (shift_once_odd a ea, shift_once_even b eb)
            (shift_once_odd _ (omega (arith, bit_xor-mod_two a b))
              ∙ rw (bit_xor-half a b) (xor_swap_last _ _ p))
      | inr eb ↦
          rw (shift_once_odd a ea, shift_once_odd b eb)
            (shift_once_even _ (omega (arith, bit_xor-mod_two a b))
              ∙ bit_xor-half a b
              ∙ sym (xor_both _ _ p))
    ]
  ]

  pub shifts-bit_xor :
      (k a b : ℕ) → shifts p k (bit_xor a b) ≡ bit_xor (shifts p k a) (shifts p k b)
  unfolding shifts
  shifts-bit_xor zero a b = refl
  shifts-bit_xor (suc k) a b =
      ap (shifts p k) (shift_once-bit_xor a b) ∙ shifts-bit_xor k (shift_once p a) (shift_once p b)

  -- Zeros are shifted out.
  pub shifts_clear : (k q : ℕ) → shifts p k (q * 2 ^ k) ≡ q
  unfolding shifts
  shifts_clear zero q = omega arith
  shifts_clear (suc k) q =
      ap (shifts p k)
        (shift_once_even (q * 2 ^ suc k) (omega (arith, doubled)) ∙ omega (arith, doubled))
      ∙ shifts_clear k q
    where
      doubled : q * 2 ^ suc k ≡ 2 * (q * 2 ^ k)
      doubled = omega (arith, ap (λ (t : ℕ). q * t) (pow-suc 2 k))

  -- The low byte decides what is mixed into the rest.
  pub shifts_split : (x : ℕ) → shifts p 8 x ≡ bit_xor (x / 256) (shifts p 8 (x % 256))
  shifts_split x =
      ap (shifts p 8) (fields)
      ∙ shifts-bit_xor 8 (x / 256 * 2 ^ 8) (x % 256)
      ∙ ap (λ t. bit_xor t (shifts p 8 (x % 256))) (shifts_clear 8 (x / 256))
    where
      fields : x ≡ bit_xor (x / 256 * 2 ^ 8) (x % 256)
      fields = omega (arith, bit_xor_fields 8 (x / 256) (x % 256) (omega arith))

  -- A polynomial of width `k + 1` with its top bit set.
  module _ (k : ℕ) (wide : 2 ^ k ≤ p) (fits : p < 2 ^ suc k) where
    pub shift_once-lt : (a : ℕ) → a < 2 ^ suc k → shift_once p a < 2 ^ suc k
    shift_once-lt a h = elim (parity a) [
      | inl e ↦ rw (shift_once_even a e) (omega arith)
      | inr e ↦ rw (shift_once_odd a e) (bit_xor-lt (suc k) (a / 2) p (omega arith) fits)
    ]

    -- The top bit tells whether the polynomial was mixed in.
    top_bit_set : (a : ℕ) → a < 2 ^ k → 2 ^ k ≤ bit_xor a p
    top_bit_set a h = elim above_or_below [
      | inl e ↦ e
      | inr e ↦
          let low : bit_xor (bit_xor p a) a < 2 ^ k =
            bit_xor-lt k _ a (omega (arith, bit_xor_comm a p)) h in
          absurd (omega (arith, bit_xor_cancel p a, low))
    ]
      where
        above_or_below : (2 ^ k ≤ bit_xor a p) ⊎ (bit_xor a p < 2 ^ k)
        above_or_below = omega arith

    shift_once_injective :
        (a b : ℕ) → a < 2 ^ suc k → b < 2 ^ suc k → shift_once p a ≡ shift_once p b → a ≡ b
    shift_once_injective a b ha hb e = elim (parity a) [
      | inl ea ↦ elim (parity b) [
        | inl eb ↦ omega (arith, shift_once_even a ea, shift_once_even b eb)
        | inr eb ↦ absurd (
            omega (
              arith,
              pow-suc 2 k,
              shift_once_even a ea,
              shift_once_odd b eb,
              top_bit_set (b / 2) (omega (arith, pow-suc 2 k)),
            ))
      ]
      | inr ea ↦ elim (parity b) [
        | inl eb ↦ absurd (
            omega (
              arith,
              pow-suc 2 k,
              shift_once_odd a ea,
              shift_once_even b eb,
              top_bit_set (a / 2) (omega (arith, pow-suc 2 k)),
            ))
        | inr eb ↦
            let halves : a / 2 ≡ b / 2 =
              bit_xor_injective (a / 2) (b / 2) p
                (sym (shift_once_odd a ea) ∙ e ∙ shift_once_odd b eb) in
            omega arith
      ]
    ]

    pub shifts-lt : (n a : ℕ) → a < 2 ^ suc k → shifts p n a < 2 ^ suc k
    unfolding shifts
    shifts-lt zero a h = h
    shifts-lt (suc n) a h = shifts-lt n (shift_once p a) (shift_once-lt a h)

    pub shifts_injective :
        (n a b : ℕ) → a < 2 ^ suc k → b < 2 ^ suc k → shifts p n a ≡ shifts p n b → a ≡ b
    unfolding shifts
    shifts_injective zero a b ha hb e = e
    shifts_injective (suc n) a b ha hb e = shift_once_injective a b ha hb (
        shifts_injective n (shift_once p a) (shift_once p b) (shift_once-lt a ha)
          (shift_once-lt b hb) e)
