-- ===== src/Ncp/Frame/RoundTrip.antt =====
-- What is encoded is decoded again, and the sequence numbers of a frame and of its ACK agree.
use zigbee_go_home.Base.{
  leb, ◌==◌, ◌>>=◌, ℕ, zero, suc, ◌+◌, ◌-◌, ◌/◌, ◌%◌, ◌^◌, ◌≤◌, ◌<◌, ◌≡◌, refl, ap, ◌∙◌, true,
  false, [], ◌∷◌, ◌++◌, length, take, take-length, All, ok, err, if◌then◌else◌, arith,
}
use zigbee_go_home.Base.Bytes.{Bytes, IsByte, le16, put_le16}
use zigbee_go_home.Ncp.Crc.{zboss_crc16}
use zigbee_go_home.Ncp.Crc.Detect.{zboss_crc16-lt}
use zigbee_go_home.Ncp.Frame.{
  body_crc, FrameError, Frame, LlHeader, ll_type, no_hl, ll_pkt_seq, ll_ack_seq, ll_is_ack,
  data_flags, ack_flags, ll_header, encode_data_frame, encode_request, decode_hl, decode_body,
  decode_frame,
}

abbrev pub ll_of : ℕ → ℕ → LlHeader
ll_of size flags = record { size = size; packet_type = ll_type; flags = flags }

pub le16-put_le16 : (v : ℕ) → v < 2 ^ 16 → le16 (v % 256) (v / 256 % 256) ≡ v
le16-put_le16 v h = omega arith

-- A header that `ll_header` wrote, with as many bytes behind it as its size says, or more.
pub decode_frame-ll_header :
    (size flags : ℕ) (body : Bytes)
    → 5 ≤ size
    → size + 2 < 2 ^ 16
    → size ≤ length body + 5
    → decode_frame (ll_header size flags ++ body) ≡ (
        if ll_is_ack flags
        then ok (record { ll = ll_of size flags; hl = no_hl; payload = [] })
        else decode_body (ll_of size flags) (take (size - 5) body))
unfolding decode_frame ll_header
decode_frame-ll_header size flags body h1 h2 h3 = ground arith

-- The flags of a data frame and of an ACK, for the 2-bit sequence numbers.
pub data_flags_lem :
    (seq : ℕ) → seq < 4 → (ll_is_ack (data_flags seq) ≡ false) × (ll_pkt_seq (data_flags seq) ≡ seq)
unfolding ll_is_ack ll_pkt_seq data_flags
data_flags_lem zero h = (refl, refl)
data_flags_lem (suc zero) h = (refl, refl)
data_flags_lem (suc (suc zero)) h = (refl, refl)
data_flags_lem (suc (suc (suc zero))) h = (refl, refl)
data_flags_lem (suc (suc (suc (suc n)))) h = absurd (omega arith)

pub ack_flags_lem :
    (seq : ℕ) → seq < 4 → (ll_is_ack (ack_flags seq) ≡ true) × (ll_ack_seq (ack_flags seq) ≡ seq)
unfolding ll_is_ack ll_ack_seq ack_flags
ack_flags_lem zero h = (refl, refl)
ack_flags_lem (suc zero) h = (refl, refl)
ack_flags_lem (suc (suc zero)) h = (refl, refl)
ack_flags_lem (suc (suc (suc zero))) h = (refl, refl)
ack_flags_lem (suc (suc (suc (suc n)))) h = absurd (omega arith)

pub decode_body_lem :
    (ll : LlHeader) (crc : ℕ) (hl_data : Bytes)
    → crc < 2 ^ 16
    → decode_body ll (put_le16 crc ++ hl_data)
      ≡ (if crc == zboss_crc16 hl_data then decode_hl ll hl_data else err body_crc)
unfolding decode_body
decode_body_lem ll crc hl_data h = ground (arith, le16-put_le16 crc h)

-- Up to 65526 bytes of HL data the size field does not wrap; the bound of the decoder is one lower.
pub encode_data_frame_lem :
    (seq : ℕ) (hl_data : Bytes)
    → length hl_data + 9 < 2 ^ 16
    → encode_data_frame {E = FrameError} seq hl_data
      ≡ ok (
          ll_header (length hl_data + 7) (data_flags seq)
          ++ (put_le16 (zboss_crc16 hl_data) ++ hl_data))
unfolding encode_data_frame
encode_data_frame_lem seq hl_data h = rw (size, fits, whole)
  where
    size : (5 + (2 + length hl_data)) % 2 ^ 16 ≡ length hl_data + 7
    size = omega arith

    fits : leb 9 (2 + (length hl_data + 7)) ≡ true
    fits = ground arith

    whole : take (2 + (length hl_data + 7) - 9) hl_data ≡ hl_data
    whole = rw same (take-length hl_data)
      where
        same : 2 + (length hl_data + 7) - 9 ≡ length hl_data
        same = omega arith

-- Any bytes behind a checksum, under a data header of their size: what the decoder makes of them.
pub decode_frame-data :
    (seq crc : ℕ) (hl_data : Bytes)
    → seq < 4
    → crc < 2 ^ 16
    → length hl_data + 9 < 2 ^ 16
    → decode_frame (ll_header (length hl_data + 7) (data_flags seq) ++ (put_le16 crc ++ hl_data))
      ≡ (if crc == zboss_crc16 hl_data
          then decode_hl (ll_of (length hl_data + 7) (data_flags seq)) hl_data
          else err body_crc)
decode_frame-data seq crc hl_data hs hc hl =
    decode_frame-ll_header (length hl_data + 7) (data_flags seq) (put_le16 crc ++ hl_data)
      (omega arith) (omega arith) (omega arith)
    ∙ rw ((data_flags_lem seq hs).0, whole)
        (decode_body_lem (ll_of (length hl_data + 7) (data_flags seq)) crc hl_data hc)
  where
    whole : take (length hl_data + 7 - 5) (put_le16 crc ++ hl_data) ≡ put_le16 crc ++ hl_data
    whole = rw same (ap (λ t. crc % 256 ∷ crc / 256 % 256 ∷ t) (take-length hl_data))
      where
        same : length hl_data + 7 - 5 ≡ suc (suc (length hl_data))
        same = omega arith

abbrev pub request_frame : ℕ → ℕ → ℕ → Bytes → Frame
request_frame call_id tsn seq payload = record {
  ll = ll_of (length payload + 12) (data_flags seq);
  hl = record {
    version = 0;
    packet_type = 0;
    call_id = call_id;
    tsn = tsn;
    status_cat = 0;
    status_code = 0;
  };
  payload = payload;
}

-- `zbossDecodeFrame` reads back a request that `zbossEncodeRequest` writes, where the call id and the
-- sequence number are in the range of their Go types, the packet sequence number is below 4 and the
-- payload is of fewer than 65,522 bytes: a longer one does not fit the frame's length field.
pub decode_frame-encode_request :
    (call_id tsn seq : ℕ) (payload : Bytes)
    → call_id < 2 ^ 16
    → IsByte tsn
    → seq < 4
    → All IsByte payload
    → length payload + 14 < 2 ^ 16
    → encode_request call_id tsn seq payload >>= decode_frame
      ≡ ok (request_frame call_id tsn seq payload)
unfolding encode_request decode_hl
decode_frame-encode_request call_id tsn seq payload hc ht hs hp hl =
    let hl_data : Bytes = 0 ∷ 0 ∷ (put_le16 call_id ++ (tsn ∷ payload)) in
    ground (
      arith,
      encode_data_frame_lem seq hl_data,
      decode_frame-data seq (zboss_crc16 hl_data) hl_data hs (
          zboss_crc16-lt hl_data
            (omega arith, (omega arith, (omega arith, (omega arith, (ht, hp)))))),
      le16-put_le16 call_id hc,
    )
