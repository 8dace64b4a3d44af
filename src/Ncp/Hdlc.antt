-- ===== src/Ncp/Hdlc.antt =====
-- nrf52840_hdlc.go, HDLC-Lite framing: `hdlcEncode`, `hdlcDecode`, `readHDLCFrame`. (Only the
-- tests of the repository call these three; the read loop takes raw frames.)
pub mod RoundTrip
use zigbee_go_home.Base.{
  ℕ, zero, suc, ◌+◌, ◌-◌, ◌*◌, ◌/◌, ◌%◌, Bool, true, false, not, ◌&&◌, ◌||◌, List, [], ◌∷◌, ◌++◌,
  ltb, leb, ◌==◌, if◌then◌else◌, bit_xor, length, get_or, take,
}
use zigbee_go_home.Base.Bytes.{Bytes, le16}
use zigbee_go_home.Ncp.Crc.{hdlc_fcs16}

abbrev pub hdlc_flag : ℕ
hdlc_flag = 0x7e

abbrev pub hdlc_escape : ℕ
hdlc_escape = 0x7d

abbrev pub hdlc_xor : ℕ
hdlc_xor = 0x20

abbrev pub max_hdlc_frame_size : ℕ
max_hdlc_frame_size = 4096

-- What the loop of `hdlcEncode` writes for each byte.
unfoldable pub escape : Bytes → Bytes
escape [] = []
escape (b ∷ bs) =
    (if b == hdlc_flag || b == hdlc_escape then hdlc_escape ∷ bit_xor b hdlc_xor ∷ [] else b ∷ [])
    ++ escape bs

-- `withFCS`: the data and the two bytes of the checksum, `byte(fcs)` and `byte(fcs >> 8)`.
unfoldable pub with_fcs : Bytes → Bytes
with_fcs raw = raw ++ (hdlc_fcs16 raw % 256 ∷ hdlc_fcs16 raw / 256 % 256 ∷ [])

unfoldable pub hdlc_encode : Bytes → Bytes
hdlc_encode raw = hdlc_flag ∷ (escape (with_fcs raw) ++ (hdlc_flag ∷ []))

pub data HdlcResult : Type 0 where
  decoded : Bytes → HdlcResult
  empty_frame frame_too_short bad_fcs : HdlcResult

-- The loop of `hdlcDecode`; the flag is `escaped`. A last escape byte is dropped.
unfoldable pub unescape : Bool → Bytes → Bytes
unescape escaped [] = []
unescape true (b ∷ bs) = bit_xor b hdlc_xor ∷ unescape false bs
unescape false (b ∷ bs) =
    let next = unescape true bs in
    let kept = b ∷ unescape false bs in if b == hdlc_escape then next else kept

-- From `raw := buf.Bytes()` on.
unfoldable pub check_fcs : Bytes → HdlcResult
check_fcs raw =
    let n = length raw in
    let payload = take (n - 2) raw in
    if ltb n 2
    then frame_too_short
    else if le16 (get_or raw (n - 2) 0) (get_or raw (n - 1) 0) == hdlc_fcs16 payload
    then decoded payload
    else bad_fcs

unfoldable pub hdlc_decode : Bytes → HdlcResult
hdlc_decode [] = empty_frame
hdlc_decode (b ∷ bs) = check_fcs (unescape false (b ∷ bs))

pub data HdlcRead : Type 0 where
  hdlc_frame : Bytes → Bytes → HdlcRead
  hdlc_failed : HdlcRead

-- The loop of `readHDLCFrame` over the bytes that the reader will deliver, with `inFrame` and the
-- bytes of `frame` so far. The result leaves the rest of the stream.
unfoldable pub read_hdlc_loop : Bool → Bytes → Bytes → HdlcRead
read_hdlc_loop in_frame frame [] = hdlc_failed
read_hdlc_loop in_frame frame (b ∷ stream) =
    let restart = read_hdlc_loop true [] stream in
    let discard = read_hdlc_loop false [] stream in
    let extend = read_hdlc_loop true (frame ++ (b ∷ [])) stream in
    let skip = read_hdlc_loop in_frame frame stream in
    if b == hdlc_flag
    then (if in_frame && ltb 0 (length frame) then hdlc_frame frame stream else restart)
    else if in_frame
    then (if leb max_hdlc_frame_size (length frame) then discard else extend)
    else skip

unfoldable pub read_hdlc_frame : Bytes → HdlcRead
read_hdlc_frame stream = read_hdlc_loop false [] stream
