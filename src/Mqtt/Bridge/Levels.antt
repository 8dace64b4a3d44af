-- ===== src/Mqtt/Bridge/Levels.antt =====
-- The levels that a brightness command can send.
use zigbee_go_home.Base.{
  ℕ, ◌+◌, ◌*◌, ◌-◌, ◌/◌, ◌%◌, ◌^◌, ◌≤◌, ◌<◌, ◌≡◌, ◌∙◌, sym, not, ◌&&◌, ◌==◌, refl, Bool, true,
  false, ==_iff, leb, ltb, Bool-cases, inl, inr, if◌then◌else◌, arith,
}
use native.Mathlib.Nat.{
  one-le-pow, lt_of_lt_of_le, mul-le-mul_left, pow-le-pow_right, div-lt_iff_lt-mul,
}
use zigbee_go_home.Zcl.Value.{truncated, magnitude, infinity, is_below_zero, is_negative_pattern}
use zigbee_go_home.Mqtt.Bridge.Commands.{CommandOps, level_of}

-- A quotient by a power of two that is large enough.
quotient_below : (a b k j : ℕ) → a < b * 2 ^ j → j ≤ k → a / 2 ^ k < b
quotient_below a b k j l m =
    (div-lt_iff_lt-mul (one-le-pow k 2 (omega arith))).1
      (lt_of_lt_of_le l (mul-le-mul_left b (pow-le-pow_right {n = 2} (omega arith) m)))

exponent_small : (f e : ℕ) → magnitude f ≤ 0x406fc00000000000 → e ≡ magnitude f / 2 ^ 52 → e ≤ 1030
exponent_small f e h q = omega arith

significand_small :
    (f : ℕ)
    → magnitude f ≤ 0x406fc00000000000
    → magnitude f / 2 ^ 52 ≡ 1030
    → 2 ^ 52 + f % 2 ^ 52 < 255 * 2 ^ 45
significand_small f h q = omega arith

quotient_at_most :
    (f e : ℕ)
    → magnitude f ≤ 0x406fc00000000000
    → magnitude f / 2 ^ 52 ≡ e
    → (2 ^ 52 + f % 2 ^ 52) / 2 ^ (1075 - e) < 255
quotient_at_most f e h q = elim (Bool-cases (e == 1030)) [
  | inl y ↦
      quotient_below _ 255 (1075 - e) 45 (significand_small f h (q ∙ (==_iff e 1030).0 y))
        (omega arith)
  | inr n ↦
      quotient_below _ 255 (1075 - e) 46 (omega arith)
        (ground (arith, exponent_small f e h (sym q)))
]

truncated_at_most : (f : ℕ) → magnitude f ≤ 0x406fc00000000000 → truncated f ≤ 254
truncated_at_most f h =
    at_most (magnitude f / 2 ^ 52) _ (exponent_small f _ h refl) (quotient_at_most f _ h refl)
  where
    at_most :
        (e big : ℕ)
        → e ≤ 1030
        → (2 ^ 52 + f % 2 ^ 52) / 2 ^ (1075 - e) < 255
        → (if e == 0 then 0 else if leb 1075 e then big else (2 ^ 52 + f % 2 ^ 52) / 2 ^ (1075 - e))
          ≤ 254
    at_most e big l q = elim (Bool-cases (e == 0)) [
      | inl y ↦ rw y (omega arith)
      | inr n ↦ elim (Bool-cases (leb 1075 e)) [
        | inl y ↦ ground arith
        | inr m ↦ rw (n, m) (omega arith)
      ]
    ]

clamped :
    (m t w : ℕ) (negative : Bool)
    → m ≤ infinity
    → (m ≤ 0x406fc00000000000 → t ≤ 254)
    → (if negative && (not (m == 0) && leb m infinity)
        then 0
        else if not negative && (ltb 0x406fc00000000000 m && leb m infinity)
        then 254
        else if ltb infinity m
        then w % 2 ^ 8
        else t)
      ≤ 254
clamped m t w true h k = ground arith
clamped m t w false h k = ground arith

-- A brightness that is a number is sent as a level of at most 254, whatever number it is: negative,
-- fractional, huge or infinite.
pub level_of_at_most : (ops : CommandOps) (f : ℕ) → magnitude f ≤ infinity → level_of ops f ≤ 254
unfolding level_of is_below_zero
level_of_at_most ops f h =
    clamped (magnitude f) (truncated f) (ops.to_uint8_wild f) (is_negative_pattern f) h
      (truncated_at_most f)
