-- ===== src/Ncp/Frame/Ack.antt =====
-- The sequence numbers of a data frame and of its ACK agree.
use zigbee_go_home.Base.{
  ℕ, ◌+◌, ◌^◌, ◌<◌, ◌≡◌, refl, ap, ◌∙◌, true, false, [], ◌++◌, length, All, ok, arith,
}
use zigbee_go_home.Base.Bytes.{Bytes, IsByte, put_le16}
use zigbee_go_home.Ncp.Crc.{zboss_crc16}
use zigbee_go_home.Ncp.Crc.Detect.{zboss_crc16-lt}
use zigbee_go_home.Ncp.Frame.{
  FrameError, Frame, LlHeader, no_hl, ll_pkt_seq, ll_ack_seq, ll_is_ack, data_flags, ack_flags,
  ll_header, encode_data_frame, encode_ack, decode_hl, decode_frame,
}
use zigbee_go_home.Ncp.Frame.RoundTrip.{
  ll_of, decode_frame-ll_header, data_flags_lem, ack_flags_lem, encode_data_frame_lem,
  decode_frame-data,
}

decode_hl-ll :
    (ll : LlHeader) (hl_data : Bytes) (f : Frame) → decode_hl ll hl_data ≡ ok f → f.ll ≡ ll
unfolding decode_hl
decode_hl-ll ll hl_data f e = ground arith

encode_ack_lem :
    (seq : ℕ)
    → seq < 4
    → ll_is_ack (ack_flags seq) ≡ true
    → decode_frame (encode_ack seq)
      ≡ ok (record { ll = ll_of 5 (ack_flags seq); hl = no_hl; payload = [] })
unfolding encode_ack ll_header
encode_ack_lem seq h is_ack =
    decode_frame-ll_header 5 (ack_flags seq) [] (omega arith) (omega arith) (omega arith)
    ∙ rw is_ack refl

-- An accepted data frame has the flags that it was written with.
flags_back :
    (seq : ℕ) (hl_data raw : Bytes) (f : Frame)
    → seq < 4
    → length hl_data + 9 < 2 ^ 16
    → All IsByte hl_data
    → encode_data_frame {E = FrameError} seq hl_data ≡ ok raw
    → decode_frame raw ≡ ok f
    → f.ll.flags ≡ data_flags seq
flags_back seq hl_data raw f hs hl hb e d =
    ap (λ (t : LlHeader). t.flags)
      (decode_hl-ll (ll_of (length hl_data + 7) (data_flags seq)) hl_data f parsed)
  where
    written :
        ll_header (length hl_data + 7) (data_flags seq)
          ++ (put_le16 (zboss_crc16 hl_data) ++ hl_data)
        ≡ raw
    written = cc (encode_data_frame_lem seq hl_data hl, e)

    parsed : decode_hl (ll_of (length hl_data + 7) (data_flags seq)) hl_data ≡ ok f
    parsed = ground (
      arith,
      decode_frame-data seq (zboss_crc16 hl_data) hl_data hs (zboss_crc16-lt hl_data hb) hl,
      ap decode_frame written,
    )

-- The two ends agree on sequence numbers, for the four that fit: a data frame that is accepted is no
-- ACK and has the number that it was written with, and the ACK that the receiver writes for that
-- number decodes to an ACK of exactly that frame.
pub ack_matches :
    (seq : ℕ) (hl_data raw : Bytes) (f : Frame)
    → seq < 4
    → length hl_data + 9 < 2 ^ 16
    → All IsByte hl_data
    → encode_data_frame {E = FrameError} seq hl_data ≡ ok raw
    → decode_frame raw ≡ ok f
    → (ll_is_ack f.ll.flags ≡ false)
      × (ll_pkt_seq f.ll.flags ≡ seq)
      × (decode_frame (encode_ack (ll_pkt_seq f.ll.flags))
          ≡ ok (record { ll = ll_of 5 (ack_flags seq); hl = no_hl; payload = [] }))
      × (ll_is_ack (ack_flags seq) ≡ true)
      × (ll_ack_seq (ack_flags seq) ≡ seq)
ack_matches seq hl_data raw f hs hl hb e d =
    let (plain, number) = data_flags_lem seq hs in
    let (is_ack, acked) = ack_flags_lem seq hs in
    let flags = flags_back seq hl_data raw f hs hl hb e d in
    (
      rw flags plain,
      rw flags number,
      rw (flags, number) (encode_ack_lem seq hs is_ack),
      is_ack,
      acked,
    )
