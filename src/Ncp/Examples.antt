-- ===== src/Ncp/Examples.antt =====
-- Runs of internal/ncp on concrete input.
mod Requests
mod Commands
mod Stream
use zigbee_go_home.Base.{
  ◌>>=◌, ◌+◌, ◌∙◌, ◌==◌, ◌^◌, ◌≤◌, ◌<◌, ◌≡◌, ◌≢◌, refl, true, false, [], List, ◌∷◌, ◌++◌, map, none,
  some, map_option, inl, inr, length, take, drop, replicate, ok, err, Outcome, All, bit_xor, arith,
}
use zigbee_go_home.Base.Bytes.{Bytes, IsByte, put_le16}
use zigbee_go_home.Base.Int.{ℤ}
use zigbee_go_home.Ncp.Crc.{
  zboss_crc8, crc8_from, crc8_table, zboss_crc16, crc16_from, fcs_table, hdlc_fcs16,
}
use zigbee_go_home.Ncp.Crc.Table.{serial_from, checksums-serial}
use zigbee_go_home.Ncp.Frame.{
  Frame, FrameError, no_hl, body_crc, ll_is_ack, ll_pkt_seq, ll_ack_seq, data_flags, ack_flags,
  ll_header, encode_data_frame, encode_request, encode_ack, decode_hl, decode_body, decode_frame,
}
use zigbee_go_home.Ncp.Frame.RoundTrip.{ll_of, request_frame, decode_frame-encode_request}
use zigbee_go_home.Ncp.Frame.Ack.{ack_matches}
use zigbee_go_home.Ncp.Frame.Corrupt.{decode_frame_corrupt}
use zigbee_go_home.Ncp.Frame.Sound.{decode_frame_sound}
use zigbee_go_home.Ncp.RawReader.{got, read_raw_frame}
use zigbee_go_home.Ncp.RawReader.Framing.{Sound, read_raw_frame-Sound}
use zigbee_go_home.Ncp.RawReader.Resync.{read_raw_frame-encode_data_frame}
use zigbee_go_home.Ncp.Hdlc.{escape, with_fcs, hdlc_encode, decoded, hdlc_frame, read_hdlc_frame}
use zigbee_go_home.Ncp.Hdlc.RoundTrip.{
  length-escape, length-with_fcs, decode_read, read_hdlc_frame-hdlc_encode,
}
use zigbee_go_home.Ncp.Link.{
  next_pkt_seq, ack, deadline, Attempt, delivered, ack_timeout, wait_ack, after_wait, attempts,
  write_with_ack,
}
use zigbee_go_home.Ncp.Link.Delivery.{
  next_pkt_seq_fresh, Stale, TimesOut, Acked, Delivered, write_with_ack_delivered,
  write_with_ack_acked, write_with_ack_exhausted,
}

-- A ping with sequence number 7.
abbrev hl_bytes : Bytes
hl_bytes = 0x00 ∷ 0x01 ∷ 0x02 ∷ 0x00 ∷ 0x07 ∷ 0x00 ∷ 0x00 ∷ []

abbrev ping : Bytes
ping = 222 ∷ 173 ∷ 14 ∷ 0 ∷ 6 ∷ 200 ∷ 200 ∷ 166 ∷ 158 ∷ hl_bytes

checksums-serial_example :
    (zboss_crc8 hl_bytes ≡ bit_xor (serial_from 0xb2 0xff hl_bytes) 0xff)
    × (zboss_crc16 hl_bytes ≡ serial_from 0x8408 0 hl_bytes)
    × (hdlc_fcs16 hl_bytes ≡ bit_xor (serial_from 0x8408 0xffff hl_bytes) 0xffff)
checksums-serial_example = checksums-serial hl_bytes (ground arith)

decode_frame-encode_request_example :
    encode_request 0x0002 7 3 (4 ∷ []) >>= decode_frame ≡ ok (request_frame 0x0002 7 3 (4 ∷ []))
decode_frame-encode_request_example =
    decode_frame-encode_request 0x0002 7 3 (4 ∷ []) (omega arith) (omega arith) (omega arith)
      (ground arith) (omega arith)

ping_written : encode_data_frame {E = FrameError} 2 hl_bytes ≡ ok ping
unfolding encode_data_frame ll_header data_flags zboss_crc8 crc8_from crc8_table zboss_crc16
    crc16_from fcs_table
ping_written = refl

abbrev ping_frame : Frame
ping_frame = record {
  ll = ll_of 14 (data_flags 2);
  hl = record {
    version = 0;
    packet_type = 1;
    call_id = 2;
    tsn = 7;
    status_cat = 0;
    status_code = 0;
  };
  payload = [];
}

ping_decoded : decode_frame ping ≡ ok ping_frame
unfolding decode_frame decode_body decode_hl ll_is_ack data_flags zboss_crc8 crc8_from crc8_table
    zboss_crc16 crc16_from fcs_table
ping_decoded = refl

decode_frame_corrupt_example :
    decode_frame (take 9 ping ++ ((0 ∷ 1 ∷ []) ++ (3 ∷ 0 ∷ 7 ∷ 0 ∷ 0 ∷ []))) ≡ err body_crc
decode_frame_corrupt_example =
    decode_frame_corrupt 2 2 0 3 0 (0 ∷ 1 ∷ []) (7 ∷ 0 ∷ 0 ∷ []) ping (omega arith) (ground arith)
      (ground arith) (ground arith) (ground arith) (omega arith) ping_written

plain : ll_is_ack ping_frame.ll.flags ≡ false
unfolding ll_is_ack data_flags
plain = refl

ping-IsByte : All IsByte ping
ping-IsByte = ground arith

decode_frame_sound_example :
    (hl_data : Bytes) × (rest : Bytes) × (ping
      ≡ ll_header (length hl_data + 7) ping_frame.ll.flags
        ++ ((put_le16 (zboss_crc16 hl_data) ++ hl_data) ++ rest))
    × (decode_hl ping_frame.ll hl_data ≡ ok ping_frame)
decode_frame_sound_example = decode_frame_sound ping ping_frame ping-IsByte ping_decoded plain

read_raw_frame-Sound_example : Sound (0xde ∷ ping) (read_raw_frame (0xde ∷ ping))
read_raw_frame-Sound_example = read_raw_frame-Sound (0xde ∷ ping)

read_raw_frame-encode_data_frame_example :
    read_raw_frame ((0xad ∷ 0xde ∷ []) ++ (ping ++ (0xde ∷ []))) ≡ got ping (0xde ∷ [])
read_raw_frame-encode_data_frame_example =
    read_raw_frame-encode_data_frame 2 hl_bytes (0xad ∷ 0xde ∷ []) (0xde ∷ []) ping (omega arith)
      (ground arith) ping_written

-- Flags and escape bytes in the data and behind them.
abbrev inside : Bytes
inside = escape (with_fcs (0x7e ∷ 0x7d ∷ []))

-- One attempt waits in vain and sees an old ACK, the next one gets its own.
abbrev late : Attempt
late = record { write_fails = false; signals = ack 1 ∷ deadline ∷ [] }

abbrev acked : Attempt
acked = record { write_fails = false; signals = ack 1 ∷ ack 2 ∷ [] }

late-TimesOut : TimesOut 2 late
late-TimesOut =
    (refl, record { drained = 1 ∷ []; left = []; signals_are = refl; others = ground arith })

acked-Acked : Acked 2 acked
acked-Acked =
    (refl, record { drained = 1 ∷ []; left = []; signals_are = refl; others = ground arith })

acked_result : (write_with_ack ping 2 (late ∷ acked ∷ [])).result ≡ delivered
unfolding write_with_ack attempts after_wait wait_ack
acked_result = refl

write_with_ack_delivered_example :
    Delivered 4 2 ping (late ∷ acked ∷ []) (write_with_ack ping 2 (late ∷ acked ∷ [])).written
write_with_ack_delivered_example = write_with_ack_delivered ping 2 (late ∷ acked ∷ []) acked_result

write_with_ack_acked_example :
    write_with_ack ping 2 ((late ∷ []) ++ (acked ∷ []))
    ≡ record { result = delivered; written = ping ∷ ping ∷ [] }
write_with_ack_acked_example =
    write_with_ack_acked ping 2 (late ∷ []) [] acked (omega arith) (late-TimesOut, tt) acked-Acked
