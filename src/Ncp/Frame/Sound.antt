-- ===== src/Ncp/Frame/Sound.antt =====
-- What a frame that the decoder accepts must look like, and when it panics.
use zigbee_go_home.Base.{
  ℕ, ◌+◌, ◌-◌, ◌%◌, ◌^◌, ◌≤◌, ◌<◌, ◌≡◌, ◌≢◌, sym, ap, ◌∙◌, false, [], ◌∷◌, ◌++◌, length,
  length-take, take, drop, slice, take-append-drop, get_or, All, All-take, length-drop, ok, panic,
  arith,
}
use zigbee_go_home.Base.Bytes.{Bytes, IsByte, le16, put_le16}
use zigbee_go_home.Ncp.Crc.{zboss_crc8, zboss_crc16}
use zigbee_go_home.Ncp.Frame.{
  sig0, sig1, ll_type, Frame, LlHeader, ll_is_ack, ll_header, decode_hl, decode_body, decode_frame,
}

put_le16-le16 : (lo hi : ℕ) → IsByte lo → IsByte hi → put_le16 (le16 lo hi) ≡ lo ∷ hi ∷ []
put_le16-le16 lo hi h k = ground arith

decode_hl-ne-panic : (ll : LlHeader) (hl_data : Bytes) → decode_hl ll hl_data ≢ panic
unfolding decode_hl
decode_hl-ne-panic ll hl_data = ground arith

decode_body-ne-panic : (ll : LlHeader) (body : Bytes) → decode_body ll body ≢ panic
unfolding decode_body
decode_body-ne-panic ll body = ground (arith, decode_hl-ne-panic ll (drop 2 body))

-- The decoder does not panic on a frame whose size field is at least 5 and at most 65533.
pub decode_frame-ne-panic :
    (raw : Bytes)
    → 5 ≤ le16 (get_or raw 2 0) (get_or raw 3 0)
    → le16 (get_or raw 2 0) (get_or raw 3 0) + 2 < 2 ^ 16
    → decode_frame raw ≢ panic
unfolding decode_frame
decode_frame-ne-panic raw lo hi =
    let size : ℕ = le16 (get_or raw 2 0) (get_or raw 3 0) in
    let ll : LlHeader = record {
      size = size;
      packet_type = get_or raw 4 0;
      flags = get_or raw 5 0;
    } in
    ground (arith, decode_body-ne-panic ll (slice 7 ((2 + size) % 2 ^ 16) raw))

-- The HL data of an accepted data frame stands behind its own checksum.
decode_body_sound :
    (ll : LlHeader) (body : Bytes) (f : Frame)
    → All IsByte body
    → decode_body ll body ≡ ok f
    → (body ≡ put_le16 (zboss_crc16 (drop 2 body)) ++ drop 2 body)
      × (2 ≤ length body)
      × (decode_hl ll (drop 2 body) ≡ ok f)
unfolding decode_body
decode_body_sound ll [] f h e = ground arith
decode_body_sound ll (a ∷ []) f h e = ground arith
decode_body_sound ll (a ∷ b ∷ rest) f h e = ground (arith, put_le16-le16 a b)

decode_hl-ll :
    (ll : LlHeader) (hl_data : Bytes) (f : Frame) → decode_hl ll hl_data ≡ ok f → f.ll ≡ ll
unfolding decode_hl
decode_hl-ll ll hl_data f e = ground arith

decode_body-ll : (ll : LlHeader) (body : Bytes) (f : Frame) → decode_body ll body ≡ ok f → f.ll ≡ ll
unfolding decode_body
decode_body-ll ll body f e = ground (arith, decode_hl-ll ll (drop 2 body) f)

-- What the tests of the header leave, for a frame that is no ACK.
record HeaderFits (a b c d t g k : ℕ) (body : Bytes) (f : Frame) : Type 0 where
  signature : (a ≡ sig0) × (b ≡ sig1)
  type_is : t ≡ ll_type
  header_crc_is : k ≡ zboss_crc8 (c ∷ d ∷ t ∷ g ∷ [])
  lower : 5 ≤ le16 c d
  upper : le16 c d ≤ length body + 5
  flags_is : f.ll.flags ≡ g
  body_is : decode_body f.ll (take (le16 c d - 5) body) ≡ ok f

HeaderFits_lem :
    (a b c d t g k : ℕ) (body : Bytes) (f : Frame)
    → IsByte c
    → IsByte d
    → decode_frame (a ∷ b ∷ c ∷ d ∷ t ∷ g ∷ k ∷ body) ≡ ok f
    → ll_is_ack f.ll.flags ≡ false
    → HeaderFits a b c d t g k body f
unfolding decode_frame
HeaderFits_lem a b c d t g k body f hc hd e n = ground (
  arith,
  decode_body-ll (record { size = le16 c d; packet_type = t; flags = g }) (take (le16 c d - 5) body)
      f,
)

-- An accepted data frame is what the encoder's layout makes of some HL data, perhaps with bytes
-- behind it that the size does not count: the signature, the size, type 6, the flags and the CRC-8
-- over them, then the CRC-16 of the HL data and the data, which decode to the result.
pub decode_frame_sound :
    (raw : Bytes) (f : Frame)
    → All IsByte raw
    → decode_frame raw ≡ ok f
    → ll_is_ack f.ll.flags ≡ false
    → (hl_data : Bytes) × (rest : Bytes) × (raw
        ≡ ll_header (length hl_data + 7) f.ll.flags
          ++ ((put_le16 (zboss_crc16 hl_data) ++ hl_data) ++ rest))
      × (decode_hl f.ll hl_data ≡ ok f)
unfolding decode_frame ll_header
decode_frame_sound (a ∷ b ∷ c ∷ d ∷ t ∷ g ∷ k ∷ body) f h e n =
    (hl_data, drop (le16 c d - 5) body, whole, parts.2)
  where
    fits : HeaderFits a b c d t g k body f
    fits = HeaderFits_lem a b c d t g k body f h.1.1.0 h.1.1.1.0 e n

    counted : Bytes
    counted = take (le16 c d - 5) body

    hl_data : Bytes
    hl_data = drop 2 counted

    parts :
        (counted ≡ put_le16 (zboss_crc16 hl_data) ++ hl_data)
        × (2 ≤ length counted)
        × (decode_hl f.ll hl_data ≡ ok f)
    parts = decode_body_sound f.ll counted f (All-take IsByte _ body h.1.1.1.1.1.1.1) fits.body_is

    size_is : length hl_data + 7 ≡ le16 c d
    size_is = omega (
      arith,
      fits.lower,
      fits.upper,
      parts.1,
      length-take (le16 c d - 5) body,
      length-drop 2 counted,
    )

    sized : put_le16 (length hl_data + 7) ≡ c ∷ d ∷ []
    sized = ap put_le16 size_is ∙ put_le16-le16 c d h.1.1.0 h.1.1.1.0

    covered : k ≡ zboss_crc8 (put_le16 (length hl_data + 7) ++ (ll_type ∷ f.ll.flags ∷ []))
    covered = cc (fits.header_crc_is, fits.type_is, fits.flags_is, sized)

    split : body ≡ (put_le16 (zboss_crc16 hl_data) ++ hl_data) ++ drop (le16 c d - 5) body
    split =
        sym (take-append-drop (le16 c d - 5) body) ∙ ap (λ l. l ++ drop (le16 c d - 5) body) parts.0

    whole :
        a ∷ b ∷ c ∷ d ∷ t ∷ g ∷ k ∷ body
        ≡ ll_header (length hl_data + 7) f.ll.flags
          ++ ((put_le16 (zboss_crc16 hl_data) ++ hl_data) ++ drop (le16 c d - 5) body)
    whole =
        cc (fits.signature.0, fits.signature.1, fits.type_is, fits.flags_is, covered, sized, split)
decode_frame_sound _ f h e n = ground arith
