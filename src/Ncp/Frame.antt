-- ===== src/Ncp/Frame.antt =====
-- nrf52840_zboss.go, the LL/HL frame codec: `zbossEncodeRequest`, `zbossEncodeDataFrame`,
-- `zbossEncodeACK`, `zbossDecodeFrame` and the flag helpers. A slice is the list of its bytes; a
-- `copy` of a whole slice is the list itself.
pub mod RoundTrip
pub mod Ack
pub mod Corrupt
pub mod Sound
use zigbee_go_home.Base.{
  ℕ, ◌+◌, ◌-◌, ◌*◌, ◌/◌, ◌%◌, ◌^◌, Bool, true, false, not, ◌&&◌, ◌||◌, List, [], ◌∷◌, ◌++◌, ltb,
  leb, ◌==◌, if◌then◌else◌, bit_and, bit_or, length, get_or, take, drop, slice, Outcome, ok, err,
  panic, ◌>>=◌, ◌>>◌, guard, in_range,
}
use zigbee_go_home.Base.Bytes.{Bytes, le16, put_le16}
use zigbee_go_home.Ncp.Crc.{zboss_crc8, zboss_crc16}

abbrev pub sig0 : ℕ
sig0 = 0xde

abbrev pub sig1 : ℕ
sig1 = 0xad

abbrev pub ll_header_size : ℕ
ll_header_size = 7

abbrev pub body_crc_size : ℕ
body_crc_size = 2

abbrev pub ll_type : ℕ
ll_type = 0x06

abbrev pub hl_version : ℕ
hl_version = 0x00

abbrev pub hl_request : ℕ
hl_request = 0x00

abbrev pub hl_response : ℕ
hl_response = 0x01

abbrev pub hl_indication : ℕ
hl_indication = 0x02

pub record LlHeader : Type 0 where
  pub size : ℕ
  pub packet_type : ℕ
  pub flags : ℕ

pub record HlHeader : Type 0 where
  pub version : ℕ
  pub packet_type : ℕ
  pub call_id : ℕ
  pub tsn : ℕ
  pub status_cat : ℕ
  pub status_code : ℕ

pub record Frame : Type 0 where
  pub ll : LlHeader
  pub hl : HlHeader
  pub payload : Bytes

pub data FrameError : Type 0 where
  too_short bad_signature header_crc unexpected_type truncated body_too_short body_crc : FrameError
  hl_too_short request_too_short response_too_short unknown_packet_type : FrameError

-- `zbossLLPktSeq`, `zbossLLAckSeq`, `zbossLLIsACK`
unfoldable pub ll_pkt_seq : ℕ → ℕ
ll_pkt_seq flags = bit_and (flags / 4) 0x03

unfoldable pub ll_ack_seq : ℕ → ℕ
ll_ack_seq flags = bit_and (flags / 16) 0x03

unfoldable pub ll_is_ack : ℕ → Bool
ll_is_ack flags = not (bit_and flags 0x01 == 0)

-- `zbossFlagFirstFrag | zbossFlagLastFrag`, and the 2-bit sequence number of a data frame.
unfoldable pub data_flags : ℕ → ℕ
data_flags pkt_seq = bit_or (bit_or 0x40 0x80) (bit_and (pkt_seq * 4 % 256) 0x0c)

unfoldable pub ack_flags : ℕ → ℕ
ack_flags ack_seq = bit_or 0x01 (bit_and (ack_seq * 16 % 256) 0x30)

-- The seven bytes of the LL header; the CRC-8 covers size, type and flags.
unfoldable pub ll_header : ℕ → ℕ → Bytes
ll_header size flags =
    let covered = put_le16 size ++ (ll_type ∷ flags ∷ []) in
    sig0 ∷ sig1 ∷ (covered ++ (zboss_crc8 covered ∷ []))

-- `llSize` is a uint16. Where it wraps, the frame is made too small: below nine bytes the writes of
-- the header run out of range, above that `copy` drops the end of the data.
unfoldable pub encode_data_frame {ℓ} : {E : Type ℓ} → ℕ → Bytes → Outcome E Bytes
encode_data_frame pkt_seq hl_data =
    let body_len = body_crc_size + length hl_data in
    let ll_size = (5 + body_len) % 2 ^ 16 in
    do
      in_range (leb 9 (2 + ll_size))
      ok (
          ll_header ll_size (data_flags pkt_seq)
          ++ (put_le16 (zboss_crc16 hl_data) ++ take (2 + ll_size - 9) hl_data))

unfoldable pub encode_request {ℓ} : {E : Type ℓ} → ℕ → ℕ → ℕ → Bytes → Outcome E Bytes
encode_request call_id tsn pkt_seq payload =
    encode_data_frame pkt_seq (hl_version ∷ hl_request ∷ (put_le16 call_id ++ (tsn ∷ payload)))

unfoldable pub encode_ack : ℕ → Bytes
encode_ack ack_seq = ll_header 5 (ack_flags ack_seq)

-- The header fields that stand whatever the packet type.
abbrev hl_common : Bytes → HlHeader
hl_common hl_data = record {
  version = get_or hl_data 0 0;
  packet_type = get_or hl_data 1 0;
  call_id = le16 (get_or hl_data 2 0) (get_or hl_data 3 0);
  tsn = 0;
  status_cat = 0;
  status_code = 0;
}

-- The part of `zbossDecodeFrame` that reads the HL data, from `len(hlData) < 4` on.
unfoldable pub decode_hl : LlHeader → Bytes → Outcome FrameError Frame
decode_hl ll hl_data =
    if ltb (length hl_data) 4
    then err hl_too_short
    else let hl = hl_common hl_data in
      if hl.packet_type == hl_request
      then if ltb (length hl_data) 5
        then err request_too_short
        else ok (record {
          ll = ll;
          hl = record hl { tsn = get_or hl_data 4 0 };
          payload = drop 5 hl_data;
        })
      else if hl.packet_type == hl_response
      then if ltb (length hl_data) 7
        then err response_too_short
        else ok (record {
          ll = ll;
          hl = record hl {
            tsn = get_or hl_data 4 0;
            status_cat = get_or hl_data 5 0;
            status_code = get_or hl_data 6 0;
          };
          payload = drop 7 hl_data;
        })
      else if hl.packet_type == hl_indication
      then ok (record { ll = ll; hl = hl; payload = drop 4 hl_data })
      else err unknown_packet_type

-- The body behind the LL header: CRC-16, then the HL data.
unfoldable pub decode_body : LlHeader → Bytes → Outcome FrameError Frame
decode_body ll body =
    if ltb (length body) body_crc_size
    then err body_too_short
    else if le16 (get_or body 0 0) (get_or body 1 0) == zboss_crc16 (drop 2 body)
    then decode_hl ll (drop 2 body)
    else err body_crc

abbrev pub no_hl : HlHeader
no_hl = record {
  version = 0;
  packet_type = 0;
  call_id = 0;
  tsn = 0;
  status_cat = 0;
  status_code = 0;
}

-- The upper bound of `data[zbossLLHeaderSize : 2+llSize]` is a uint16 sum. A bound below the lower
-- one panics.
unfoldable pub decode_frame : Bytes → Outcome FrameError Frame
decode_frame raw =
    if ltb (length raw) ll_header_size
    then err too_short
    else if not (get_or raw 0 0 == sig0) || not (get_or raw 1 0 == sig1)
    then err bad_signature
    else let ll : LlHeader = record {
      size = le16 (get_or raw 2 0) (get_or raw 3 0);
      packet_type = get_or raw 4 0;
      flags = get_or raw 5 0;
    } in
      let upper = (2 + ll.size) % 2 ^ 16 in
      if not (get_or raw 6 0 == zboss_crc8 (slice 2 6 raw))
      then err header_crc
      else if not (ll.packet_type == ll_type)
      then err unexpected_type
      else if ltb (length raw) (ll.size + 2)
      then err truncated
      else if ll_is_ack ll.flags
      then ok (record { ll = ll; hl = no_hl; payload = [] })
      else if ltb upper ll_header_size
      then panic
      else decode_body ll (slice ll_header_size upper raw)
