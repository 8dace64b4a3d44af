-- ===== src/Ncp/RawReader/Framing.antt =====
-- The reader ends, and what it hands on is a whole frame of the stream that the decoder can take.
use zigbee_go_home.Base.{
  ℕ, zero, suc, ◌+◌, ◌-◌, ◌≤◌, ◌<◌, ◌≡◌, ◌≢◌, refl, sym, ap, [], ◌∷◌, ◌++◌, ◌==◌, ==_iff,
  Bool-cases, inl, inr, ltb, ◌||◌, length, length-take, take-append-drop, get_or, panic, arith,
}
use zigbee_go_home.Base.Bytes.{Bytes, le16}
use zigbee_go_home.Ncp.Frame.{sig0, sig1, decode_frame}
use zigbee_go_home.Ncp.Frame.Sound.{decode_frame-ne-panic}
use zigbee_go_home.Ncp.RawReader.{
  max_frame_size, Read, got, read_failed, stuck, read_body, after_sig0, scan, read_raw_fuel,
  read_raw_frame,
}

read_raw_fuel-ne-stuck :
    (fuel : ℕ) (stream : Bytes) → length stream < fuel → read_raw_fuel fuel stream ≢ stuck
unfolding read_raw_fuel scan after_sig0 read_body
read_raw_fuel-ne-stuck zero stream h = absurd (omega arith)
read_raw_fuel-ne-stuck (suc fuel) [] h = ground arith
read_raw_fuel-ne-stuck (suc fuel) (b ∷ []) h = ground (arith, read_raw_fuel-ne-stuck fuel [])
read_raw_fuel-ne-stuck (suc fuel) (b ∷ b2 ∷ []) h =
    ground (arith, read_raw_fuel-ne-stuck fuel [], read_raw_fuel-ne-stuck fuel (b2 ∷ []))
read_raw_fuel-ne-stuck (suc fuel) (b ∷ b2 ∷ lo ∷ []) h =
    ground
      (arith, read_raw_fuel-ne-stuck fuel (lo ∷ []), read_raw_fuel-ne-stuck fuel (b2 ∷ lo ∷ []))
read_raw_fuel-ne-stuck (suc fuel) (b ∷ b2 ∷ lo ∷ hi ∷ rest) h = ground (
  arith,
  read_raw_fuel-ne-stuck fuel (b2 ∷ lo ∷ hi ∷ rest),
  read_raw_fuel-ne-stuck fuel (lo ∷ hi ∷ rest),
  read_raw_fuel-ne-stuck fuel rest,
)

-- A frame that the reader hands on: the signature, the size, as many bytes as it counts.
pub record IsFramed (raw : Bytes) : Type 0 where
  pub signature : (get_or raw 0 0 ≡ sig0) × (get_or raw 1 0 ≡ sig1)
  pub counted : length raw ≡ le16 (get_or raw 2 0) (get_or raw 3 0) + 2
  pub lower : 5 ≤ le16 (get_or raw 2 0) (get_or raw 3 0)
  pub upper : le16 (get_or raw 2 0) (get_or raw 3 0) ≤ 4098

-- It is cut out of the stream: what stands before it is skipped, what stands behind it is left.
abbrev pub CutOut : Bytes → Bytes → Bytes → Type 0
CutOut stream raw rest = (skipped : Bytes) × (stream ≡ skipped ++ (raw ++ rest))

CutOut-cons :
    (b : ℕ) (stream raw rest : Bytes) → CutOut stream raw rest → CutOut (b ∷ stream) raw rest
CutOut-cons b stream raw rest (skipped, e) = (b ∷ skipped, ap (◌∷◌ b) e)

abbrev Good : Bytes → Read → Type 0
Good stream (got raw rest) = IsFramed raw × CutOut stream raw rest
Good stream read_failed = Unit
Good stream stuck = Unit

Good-cons : (b : ℕ) (stream : Bytes) (r : Read) → Good stream r → Good (b ∷ stream) r
Good-cons b stream (got raw rest) (f, c) = (f, CutOut-cons b stream raw rest c)
Good-cons b stream read_failed g = tt
Good-cons b stream stuck g = tt

read_body-Good :
    (again : Bytes → Read) (rest : Bytes)
    → ((s : Bytes) → Good s (again s))
    → Good (sig0 ∷ sig1 ∷ rest) (read_body again rest)
unfolding read_body
read_body-Good again [] h = tt
read_body-Good again (lo ∷ []) h = tt
read_body-Good again (lo ∷ hi ∷ rest) h =
    let n : ℕ = le16 lo hi - 2 in
    elim (Bool-cases (ltb n 3 || ltb max_frame_size n)) [
      | inl bad ↦ rw bad (
          Good-cons sig0 _ _ (Good-cons sig1 _ _ (Good-cons lo _ _ (Good-cons hi rest _ (h rest)))))
      | inr fine ↦ elim (Bool-cases (ltb (length rest) n)) [
        | inl short ↦ rw (fine, short) tt
        | inr enough ↦
            rw (fine, enough)
              (
                record {
                  signature = (refl, refl);
                  counted = ground (arith, length-take n rest);
                  lower = ground arith;
                  upper = ground arith;
                },
                ([], ap (λ t. sig0 ∷ sig1 ∷ lo ∷ hi ∷ t) (sym (take-append-drop n rest))),
              )
      ]
    ]

after_sig0-Good :
    (again : Bytes → Read) (rest : Bytes)
    → ((s : Bytes) → Good s (again s))
    → Good (sig0 ∷ rest) (after_sig0 again rest)
unfolding after_sig0
after_sig0-Good again [] h = tt
after_sig0-Good again (b2 ∷ rest) h = elim (Bool-cases (b2 == sig1)) [
  | inl yes1 ↦ rw (yes1, (==_iff b2 sig1).0 yes1) (read_body-Good again rest h)
  | inr other ↦ elim (Bool-cases (b2 == sig0)) [
    | inl back ↦ rw (other, back) (Good-cons sig0 _ _ (h (b2 ∷ rest)))
    | inr skip ↦ rw (other, skip) (Good-cons sig0 _ _ (Good-cons b2 rest _ (h rest)))
  ]
]

scan-Good :
    (again : Bytes → Read) (stream : Bytes)
    → ((s : Bytes) → Good s (again s))
    → Good stream (scan again stream)
unfolding scan
scan-Good again [] h = tt
scan-Good again (b ∷ rest) h = elim (Bool-cases (b == sig0)) [
  | inl first ↦ rw (first, (==_iff b sig0).0 first) (after_sig0-Good again rest h)
  | inr other ↦ rw other (Good-cons b rest _ (h rest))
]

read_raw_fuel-Good : (fuel : ℕ) (stream : Bytes) → Good stream (read_raw_fuel fuel stream)
unfolding read_raw_fuel
read_raw_fuel-Good zero stream = tt
read_raw_fuel-Good (suc fuel) stream =
    scan-Good (read_raw_fuel fuel) stream (read_raw_fuel-Good fuel)

abbrev pub Sound : Bytes → Read → Type 0
Sound stream (got raw rest) = IsFramed raw × CutOut stream raw rest × (decode_frame raw ≢ panic)
Sound stream read_failed = Unit
Sound stream stuck = ⊥

-- On every stream the reader ends, by a read error or by a frame. A frame starts with the
-- signature, has two bytes more than its size field counts, a size of 5 to 4098, and is cut out of
-- the stream with the rest left to be read; the decoder does not panic on it.
pub read_raw_frame-Sound : (stream : Bytes) → Sound stream (read_raw_frame stream)
unfolding read_raw_frame
read_raw_frame-Sound stream =
    finish (read_raw_fuel (suc (length stream)) stream) (read_raw_fuel-Good _ stream)
      (read_raw_fuel-ne-stuck _ stream (omega arith))
  where
    finish : (r : Read) → Good stream r → r ≢ stuck → Sound stream r
    finish (got raw rest) (f, c) ne =
        (f, c, decode_frame-ne-panic raw f.lower (omega (arith, f.upper)))
    finish read_failed g ne = tt
    finish stuck g ne = absurd (ne refl)
