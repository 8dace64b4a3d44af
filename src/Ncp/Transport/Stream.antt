-- ===== src/Ncp/Transport/Stream.antt =====
-- `readLoop` over the bytes that the port delivers before its next error: `readRawZBOSSFrame`,
-- `zbossDecodeFrame`, and the handling of each frame. The fuel counts frames; `err` is no result of
-- the source, the fuel ran out.
use zigbee_go_home.Base.{
  ℕ, zero, suc, ◌+◌, ◌≤◌, ◌<◌, ◌≡◌, refl, ap, ◌∙◌, true, List, [], ◌∷◌, ◌++◌, map, length, All,
  some, ok, err, panic, ◌>>=◌, arith,
}
use zigbee_go_home.Base.Bytes.{Bytes, IsByte, put_le16}
use zigbee_go_home.Ncp.Crc.{zboss_crc16}
use zigbee_go_home.Ncp.Crc.Detect.{zboss_crc16-lt}
use zigbee_go_home.Ncp.Frame.{Frame, ll_header, data_flags, decode_hl, decode_frame}
use zigbee_go_home.Ncp.Frame.RoundTrip.{ll_of, encode_data_frame_lem, decode_frame-data}
use zigbee_go_home.Ncp.RawReader.{got, read_failed, stuck, read_raw_frame, read_raw_fuel, scan}
use zigbee_go_home.Ncp.RawReader.Resync.{NoSignature, read_raw_frame-encode_data_frame}
use zigbee_go_home.Ncp.Transport.{Ncp, FailFree, begin_request, handle_frame, receive}
use zigbee_go_home.Ncp.Transport.Routing.{IsSafe}
use zigbee_go_home.Ncp.Transport.Loop.{run_frames, is_response, IsOther, run_frames_routed}

unfoldable pub read_loop : ℕ → Bytes → Ncp → FailFree Ncp
read_loop zero stream n = err tt
read_loop (suc fuel) stream n = elim (read_raw_frame stream) [
  | got raw rest ↦ elim (decode_frame raw) [
    | ok f ↦ handle_frame f n >>= read_loop fuel rest
    | err e ↦ read_loop fuel rest n
    | panic ↦ panic
  ]
  | read_failed ↦ ok n
  | stuck ↦ err tt
]

-- A data frame on the line: noise before it, its sequence number, its HL data, and what they say.
pub record Message : Type 0 where
  pub noise : Bytes
  pub seq : ℕ
  pub hl_data : Bytes
  pub says : Frame

pub record IsMessage (m : Message) : Type 0 where
  pub clean : NoSignature m.noise
  pub seq_fits : m.seq < 4
  pub fits : length m.hl_data ≤ 4091
  pub in_bytes : All IsByte m.hl_data
  pub meant : decode_hl (ll_of (length m.hl_data + 7) (data_flags m.seq)) m.hl_data ≡ ok m.says

-- The frame as `encode_data_frame` writes it.
abbrev pub frame_bytes : Message → Bytes
frame_bytes m =
    ll_header (length m.hl_data + 7) (data_flags m.seq)
    ++ (put_le16 (zboss_crc16 m.hl_data) ++ m.hl_data)

unfoldable pub stream_of : List Message → Bytes
stream_of [] = []
stream_of (m ∷ ms) = m.noise ++ (frame_bytes m ++ stream_of ms)

read_raw_frame-message :
    (m : Message) (rest : Bytes)
    → IsMessage m
    → read_raw_frame (m.noise ++ (frame_bytes m ++ rest)) ≡ got (frame_bytes m) rest
read_raw_frame-message m rest h =
    read_raw_frame-encode_data_frame m.seq m.hl_data m.noise rest (frame_bytes m) h.fits h.clean
      (encode_data_frame_lem m.seq m.hl_data (omega (arith, h.fits)))

decode_frame-message : (m : Message) → IsMessage m → decode_frame (frame_bytes m) ≡ ok m.says
decode_frame-message m h = ground (
  arith,
  decode_frame-data m.seq (zboss_crc16 m.hl_data) m.hl_data h.seq_fits
      (zboss_crc16-lt m.hl_data h.in_bytes) (omega (arith, h.fits)),
  h.meant,
)

bind_agree {ℓ} :
    {A B : Type ℓ} (o : FailFree A) (f g : A → FailFree B)
    → ((a : A) → f a ≡ g a)
    → o >>= f ≡ o >>= g
bind_agree (ok a) f g h = h a
bind_agree (err e) f g h = refl
bind_agree panic f g h = refl

read_raw_frame-nil : read_raw_frame [] ≡ read_failed
unfolding read_raw_frame read_raw_fuel scan
read_raw_frame-nil = refl

-- The read loop over a line of data frames, with noise that holds no signature before each, does
-- what it does over the frames that they say, one after the other; the fuel is enough when it
-- exceeds their number.
pub read_loop-stream_of :
    (fuel : ℕ) (ms : List Message) (n : Ncp)
    → length ms < fuel
    → All IsMessage ms
    → read_loop fuel (stream_of ms) n ≡ run_frames (map (λ m. m.says) ms) n
unfolding read_loop stream_of run_frames
read_loop-stream_of zero ms n l h = absurd (omega arith)
read_loop-stream_of (suc fuel) [] n l h = rw (read_raw_frame-nil, read_loop) refl
read_loop-stream_of (suc fuel) (m ∷ ms) n l (hm, hms) =
    rw (read_raw_frame-message m (stream_of ms) hm, read_loop)
      (rw (decode_frame-message m hm) (
        bind_agree (handle_frame m.says n) (read_loop fuel (stream_of ms))
          (run_frames (map (λ k. k.says) ms))
          (λ k. read_loop-stream_of fuel ms k (omega arith) hms)))

map-append :
    (before after : List Message)
    → map (λ m. m.says) (before ++ after) ≡ map (λ m. m.says) before ++ map (λ m. m.says) after
map-append [] after = refl
map-append (m ∷ before) after = ap (◌∷◌ m.says) (map-append before after)

All-says :
    (tsn : ℕ) (ms : List Message)
    → All (λ m. IsOther tsn m.says) ms
    → All (IsOther tsn) (map (λ m. m.says) ms)
All-says tsn [] h = tt
All-says tsn (m ∷ ms) (hm, hms) = (hm, All-says tsn ms hms)

-- From the line to the caller: a request that has begun gets the first response of its sequence
-- number that arrives on the line, whatever other data frames and whatever noise without a signature
-- arrive before and after it. The loop does not panic, and its tables stay live.
pub read_loop_routed :
    (n : Ncp) (msg : Message) (before after : List Message)
    → IsSafe n
    → All IsMessage (before ++ (msg ∷ after))
    → All (λ m. IsOther (begin_request n).1 m.says) before
    → is_response msg.says ≡ true
    → msg.says.hl.tsn ≡ (begin_request n).1
    → (m : Ncp) × (read_loop
          (suc (length (before ++ (msg ∷ after))))
          (stream_of (before ++ (msg ∷ after)))
          (begin_request n).0
        ≡ ok m)
      × IsSafe m
      × (receive (m.hl_pending.chan n.hl_pending.next) ≡ some (some msg.says))
read_loop_routed n msg before after safe good others response tsn =
    let (m, e, safe', held) =
      run_frames_routed n msg.says (map (λ k. k.says) before) (map (λ k. k.says) after) safe
        (All-says (begin_request n).1 before others) response tsn in
    (
      m,
      read_loop-stream_of _ (before ++ (msg ∷ after)) (begin_request n).0 (omega arith) good
          ∙ ap (λ fs. run_frames fs (begin_request n).0) (map-append before (msg ∷ after))
          ∙ e,
      safe',
      held,
    )
