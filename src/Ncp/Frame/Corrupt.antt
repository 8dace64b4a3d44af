-- ===== src/Ncp/Frame/Corrupt.antt =====
-- What the body checksum rejects.
use zigbee_go_home.Base.{
  ℕ, ◌+◌, ◌^◌, ◌<◌, ◌≡◌, refl, sym, ap, ◌∙◌, false, [], ◌∷◌, ◌++◌, ◌==◌, ==_iff, Bool-cases, inl,
  inr, length, length-append, take, All, All-append, ok, err, arith,
}
use zigbee_go_home.Base.Bytes.{Bytes, IsByte, put_le16}
use zigbee_go_home.Ncp.Crc.{zboss_crc16}
use zigbee_go_home.Ncp.Crc.Detect.{zboss_crc16-lt, zboss_crc16_pair}
use zigbee_go_home.Ncp.Frame.{
  FrameError, body_crc, data_flags, ll_header, encode_data_frame, decode_frame,
}
use zigbee_go_home.Ncp.Frame.RoundTrip.{encode_data_frame_lem, decode_frame-data}

length_pair :
    (front back : Bytes) (x y : ℕ)
    → length (front ++ (x ∷ y ∷ back)) ≡ length front + length back + 2
length_pair front back x y = omega (arith, length-append front (x ∷ y ∷ back))

-- A data frame whose HL data is changed in transit, at two neighbouring bytes at most, is refused
-- for its checksum, whatever the data, the place and the two bytes.
pub decode_frame_corrupt :
    (seq x y x' y' : ℕ) (front back raw : Bytes)
    → seq < 4
    → All IsByte front
    → All IsByte back
    → All IsByte (x ∷ y ∷ x' ∷ y' ∷ [])
    → ¬ ((x ≡ x') × (y ≡ y'))
    → length front + length back + 11 < 2 ^ 16
    → encode_data_frame {E = FrameError} seq (front ++ (x ∷ y ∷ back)) ≡ ok raw
    → decode_frame (take 9 raw ++ (front ++ (x' ∷ y' ∷ back))) ≡ err body_crc
decode_frame_corrupt seq x y x' y' front back raw hs hf hb h ne hl e =
    ap (λ t. decode_frame (take 9 t ++ changed)) (sym written)
    ∙ ap decode_frame headed
    ∙ decode_frame-data seq crc changed hs
        (zboss_crc16-lt sent (All-append IsByte front _ hf (h.0, (h.1.0, hb))))
        (omega (arith, length_pair front back x' y'))
    ∙ rw differs
  where
    sent : Bytes
    sent = front ++ (x ∷ y ∷ back)

    changed : Bytes
    changed = front ++ (x' ∷ y' ∷ back)

    crc : ℕ
    crc = zboss_crc16 sent

    written : ll_header (length sent + 7) (data_flags seq) ++ (put_le16 crc ++ sent) ≡ raw
    written = cc (encode_data_frame_lem seq sent (omega (arith, length_pair front back x y)), e)

    headed :
        take 9 (ll_header (length sent + 7) (data_flags seq) ++ (put_le16 crc ++ sent)) ++ changed
        ≡ ll_header (length changed + 7) (data_flags seq) ++ (put_le16 crc ++ changed)
    headed = rw same_length (unfold ll_header in refl)
      where
        same_length : length sent ≡ length changed
        same_length = omega (arith, length_pair front back x y, length_pair front back x' y')

    differs : (crc == zboss_crc16 changed) ≡ false
    differs = elim (Bool-cases (crc == zboss_crc16 changed)) [
      | inl same ↦ absurd (ne (zboss_crc16_pair x y x' y' front back hf hb h ((==_iff _ _).0 same)))
      | inr other ↦ other
    ]
