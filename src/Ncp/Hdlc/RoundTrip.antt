-- ===== src/Ncp/Hdlc/RoundTrip.antt =====
-- HDLC-Lite framing: what is encoded is read and decoded again, and corruption shows.
use zigbee_go_home.Base.{
  ℕ, suc, ◌+◌, ◌-◌, ◌/◌, ◌%◌, ◌≤◌, ◌<◌, ◌≡◌, ◌≢◌, refl, ap, ◌∙◌, true, false, [], ◌∷◌, ◌++◌, ◌==◌,
  ltb, if◌then◌else◌, length, length-append, take, take-append, get_or, All, append-nil,
  append_assoc, arith,
}
use zigbee_go_home.Base.Bits.{bit_xor_cancel}
use zigbee_go_home.Base.Bytes.{Bytes, IsByte, le16}
use zigbee_go_home.Ncp.Crc.{hdlc_fcs16}
use zigbee_go_home.Ncp.Crc.Detect.{hdlc_fcs16-lt}
use zigbee_go_home.Ncp.Hdlc.{
  hdlc_flag, hdlc_xor, escape, with_fcs, hdlc_encode, HdlcResult, decoded, empty_frame, bad_fcs,
  hdlc_failed, unescape, check_fcs, hdlc_decode, HdlcRead, hdlc_frame, read_hdlc_loop,
  read_hdlc_frame,
}

-- `hdlcDecode` undoes the escapes of `hdlcEncode`, whatever the bytes.
pub unescape-escape : (raw : Bytes) → unescape false (escape raw) ≡ raw
unfolding escape unescape
unescape-escape [] = refl
unescape-escape (b ∷ bs) = ground (arith, bit_xor_cancel b hdlc_xor, unescape-escape bs)

-- No flag is left between the flags.
pub escape-ne-flag : (raw : Bytes) → All (λ b. b ≢ hdlc_flag) (escape raw)
unfolding escape
escape-ne-flag [] = tt
escape-ne-flag (b ∷ bs) = ground (arith, escape-ne-flag bs)

pub length-escape :
    (raw : Bytes)
    → (length raw ≤ length (escape raw)) × (length (escape raw) ≤ length raw + length raw)
unfolding escape
length-escape [] = omega arith
length-escape (b ∷ bs) = ground (arith, length-escape bs)

get_or-append : (xs ys : Bytes) (i d : ℕ) → get_or (xs ++ ys) (length xs + i) d ≡ get_or ys i d
get_or-append [] ys i d = ap (λ (t : ℕ). get_or ys t d) (omega arith)
get_or-append (x ∷ xs) ys i d =
    ap (λ (t : ℕ). get_or (x ∷ (xs ++ ys)) t d) same ∙ get_or-append xs ys i d
  where
    same : suc (length xs) + i ≡ suc (length xs + i)
    same = omega arith

check_fcs_lem :
    (payload : Bytes) (lo hi : ℕ)
    → check_fcs (payload ++ (lo ∷ hi ∷ []))
      ≡ (if le16 lo hi == hdlc_fcs16 payload then decoded payload else bad_fcs)
unfolding check_fcs
check_fcs_lem payload lo hi =
    let raw : Bytes = payload ++ (lo ∷ hi ∷ []) in
    let low : length raw - 2 ≡ length payload + 0 =
      omega (arith, length-append payload (lo ∷ hi ∷ [])) in
    let high : length raw - 1 ≡ length payload + 1 =
      omega (arith, length-append payload (lo ∷ hi ∷ [])) in
    let cut : length raw - 2 ≡ length payload =
      omega (arith, length-append payload (lo ∷ hi ∷ [])) in
    let enough : ltb (length raw) 2 ≡ false =
      ground (arith, length-append payload (lo ∷ hi ∷ [])) in
    rw (
      enough,
      ap (λ (t : ℕ). take t raw) cut ∙ take-append payload (lo ∷ hi ∷ []),
      ap (λ (t : ℕ). get_or raw t 0) low ∙ get_or-append payload (lo ∷ hi ∷ []) 0 0,
      ap (λ (t : ℕ). get_or raw t 0) high ∙ get_or-append payload (lo ∷ hi ∷ []) 1 0,
    )

unescape-with_fcs : (raw : Bytes) → unescape false (escape (with_fcs raw)) ≡ with_fcs raw
unescape-with_fcs raw = unescape-escape (with_fcs raw)

pub length-with_fcs : (raw : Bytes) → length (with_fcs raw) ≡ length raw + 2
unfolding with_fcs
length-with_fcs raw =
    omega (arith, length-append raw (hdlc_fcs16 raw % 256 ∷ hdlc_fcs16 raw / 256 % 256 ∷ []))

-- `hdlcDecode` gives back what stands between the flags of `hdlcEncode`.
pub hdlc_decode-escape :
    (raw : Bytes) → All IsByte raw → hdlc_decode (escape (with_fcs raw)) ≡ decoded raw
hdlc_decode-escape raw h =
    not_empty (escape (with_fcs raw))
      (omega (arith, length-escape (with_fcs raw), length-with_fcs raw))
    ∙ ap check_fcs (unescape-with_fcs raw)
    ∙ unfold with_fcs in
      check_fcs_lem raw (hdlc_fcs16 raw % 256) (hdlc_fcs16 raw / 256 % 256)
      ∙ ground (arith, hdlc_fcs16-lt raw h)
  where
    not_empty :
        (bytes : Bytes) → 0 < length bytes → hdlc_decode bytes ≡ check_fcs (unescape false bytes)
    not_empty [] l = absurd (omega arith)
    not_empty (b ∷ bs) l = unfold hdlc_decode in refl

read_hdlc_loop-frame :
    (bytes frame rest : Bytes)
    → All (λ b. b ≢ hdlc_flag) bytes
    → 0 < length frame + length bytes
    → length frame + length bytes ≤ 4096
    → read_hdlc_loop true frame (bytes ++ (hdlc_flag ∷ rest)) ≡ hdlc_frame (frame ++ bytes) rest
unfolding read_hdlc_loop
read_hdlc_loop-frame [] frame rest h lo hi = ground (arith, append-nil frame)
read_hdlc_loop-frame (b ∷ bs) frame rest h lo hi = ground (
  arith,
  length-append frame (b ∷ []),
  append_assoc frame (b ∷ []) bs,
  read_hdlc_loop-frame bs (frame ++ (b ∷ [])) rest h.1,
)

read_hdlc_loop_junk :
    (junk stream : Bytes)
    → All (λ b. b ≢ hdlc_flag) junk
    → read_hdlc_loop false [] (junk ++ stream) ≡ read_hdlc_loop false [] stream
unfolding read_hdlc_loop
read_hdlc_loop_junk [] stream h = refl
read_hdlc_loop_junk (b ∷ bs) stream h = ground (arith, read_hdlc_loop_junk bs stream)

abbrev pub decode_read : HdlcRead → HdlcResult
decode_read (hdlc_frame frame rest) = hdlc_decode frame
decode_read hdlc_failed = empty_frame

-- Behind bytes with no flag, `readHDLCFrame` takes exactly the encoded frame, `hdlcDecode` gives the
-- data back and the rest of the stream is left, if the escaped data and checksum have at most 4096
-- bytes.
pub read_hdlc_frame-hdlc_encode :
    (raw junk rest : Bytes)
    → All IsByte raw
    → All (λ b. b ≢ hdlc_flag) junk
    → length (escape (with_fcs raw)) ≤ 4096
    → (read_hdlc_frame (junk ++ (hdlc_encode raw ++ rest))
        ≡ hdlc_frame (escape (with_fcs raw)) rest)
      × (decode_read (read_hdlc_frame (junk ++ (hdlc_encode raw ++ rest))) ≡ decoded raw)
unfolding read_hdlc_frame hdlc_encode
read_hdlc_frame-hdlc_encode raw junk rest h hj hl =
    (found, ap decode_read found ∙ hdlc_decode-escape raw h)
  where
    inner : Bytes
    inner = escape (with_fcs raw)

    found :
        read_hdlc_loop false [] (junk ++ (hdlc_flag ∷ ((inner ++ (hdlc_flag ∷ [])) ++ rest)))
        ≡ hdlc_frame inner rest
    found =
        read_hdlc_loop_junk junk _ hj
        ∙ unfold read_hdlc_loop in
          rw (append_assoc inner (hdlc_flag ∷ []) rest) (
            read_hdlc_loop-frame inner [] rest (escape-ne-flag (with_fcs raw))
              (omega (arith, length-escape (with_fcs raw), length-with_fcs raw)) (omega arith))
