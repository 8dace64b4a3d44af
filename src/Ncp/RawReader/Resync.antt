-- ===== src/Ncp/RawReader/Resync.antt =====
-- The reader finds the next frame behind bytes that hold no signature.
use zigbee_go_home.Base.{
  ℕ, zero, suc, ◌+◌, ◌-◌, ◌≤◌, ◌<◌, ◌≡◌, [], ◌∷◌, ◌++◌, length, length-append, drop, take-append,
  drop-append, ok, ◌/◌, ◌%◌, arith,
}
use zigbee_go_home.Base.Bytes.{Bytes, le16, put_le16}
use zigbee_go_home.Ncp.Crc.{zboss_crc16}
use zigbee_go_home.Ncp.Frame.{sig0, sig1, FrameError, data_flags, ll_header, encode_data_frame}
use zigbee_go_home.Ncp.Frame.RoundTrip.{encode_data_frame_lem}
use mathlib.Core.Path.{subst}
use zigbee_go_home.Ncp.RawReader.{got, read_body, after_sig0, scan, read_raw_fuel, read_raw_frame}

-- No two neighbours are the signature.
abbrev pub NoSignature : Bytes → Type 0
NoSignature [] = Unit {0}
NoSignature (b ∷ []) = Unit {0}
NoSignature (b ∷ c ∷ s) = ¬ ((b ≡ sig0) × (c ≡ sig1)) × NoSignature (c ∷ s)

NoSignature-tail : (b : ℕ) (s : Bytes) → NoSignature (b ∷ s) → NoSignature s
NoSignature-tail b [] h = tt
NoSignature-tail b (c ∷ s) h = h.1

module _ (lo hi : ℕ) (body rest : Bytes) where
  abbrev pub raw_frame : Bytes
  raw_frame = sig0 ∷ sig1 ∷ lo ∷ hi ∷ body

  module _ (counted : le16 lo hi ≡ length body + 2) (lower : 3 ≤ length body)
      (upper : length body ≤ 4096) where
    found_here : (fuel : ℕ) → read_raw_fuel (suc fuel) (raw_frame ++ rest) ≡ got raw_frame rest
    unfolding read_raw_fuel scan after_sig0 read_body
    found_here fuel =
        let n : le16 lo hi - 2 ≡ length body = omega arith in
        ground (arith, n, length-append body rest, take-append body rest, drop-append body rest)

    found_after :
        (fuel : ℕ) (junk : Bytes)
        → length junk < fuel
        → NoSignature junk
        → read_raw_fuel fuel (junk ++ (raw_frame ++ rest)) ≡ got raw_frame rest
    unfolding read_raw_fuel scan after_sig0
    found_after zero junk h clean = absurd (omega arith)
    found_after (suc fuel) [] h clean = found_here fuel
    found_after (suc fuel) (b ∷ []) h clean = ground (arith, found_after fuel [])
    found_after (suc fuel) (b ∷ c ∷ s) h clean =
        ground (arith, NoSignature-tail c s clean.1, found_after fuel (c ∷ s), found_after fuel s)

-- A data frame of at most 4091 bytes of HL data is read whole from behind any bytes that hold no
-- signature, a last byte 0xDE among them, and what follows it is left in the stream.
pub read_raw_frame-encode_data_frame :
    (seq : ℕ) (hl_data junk rest frame : Bytes)
    → length hl_data ≤ 4091
    → NoSignature junk
    → encode_data_frame {E = FrameError} seq hl_data ≡ ok frame
    → read_raw_frame (junk ++ (frame ++ rest)) ≡ got frame rest
unfolding read_raw_frame ll_header
read_raw_frame-encode_data_frame seq hl_data junk rest frame hl clean e =
    subst
      (λ f. read_raw_fuel (suc (length (junk ++ (f ++ rest)))) (junk ++ (f ++ rest)) ≡ got f rest)
      written
      (found_after (size % 256) (size / 256 % 256) (drop 4 whole) rest (omega arith) (omega arith)
        (omega arith) _ junk (omega (arith, length-append junk (whole ++ rest))) clean)
  where
    size : ℕ
    size = length hl_data + 7

    whole : Bytes
    whole = ll_header size (data_flags seq) ++ (put_le16 (zboss_crc16 hl_data) ++ hl_data)

    written : whole ≡ frame
    written = cc (encode_data_frame_lem seq hl_data (omega arith), e)
