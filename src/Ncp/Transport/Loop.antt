-- ===== src/Ncp/Transport/Loop.antt =====
-- The read loop over a run of decoded frames.
use zigbee_go_home.Base.{
  ℕ, ◌≡◌, ◌≢◌, refl, sym, ap, Bool, true, false, not, ◌&&◌, List, [], ◌∷◌, ◌++◌, Bool-cases, inl,
  inr, ltb, ◌==◌, if◌then◌else◌, length, All, none, some, Option-cases, ok, ◌>>=◌, arith,
}
use zigbee_go_home.Ncp.Frame.{Frame, ll_is_ack, ll_ack_seq, ll_pkt_seq, encode_ack}
use zigbee_go_home.Ncp.Indication.{handle_indication}
use zigbee_go_home.Ncp.Transport.{
  Pending, register, deliver, receive, Ncp, FailFree, begin_request, push_ack, handle_frame,
}
use zigbee_go_home.Ncp.Transport.Routing.{
  IsLive, deliver_lem, deliver-none, deliver-IsLive, register-IsLive, IsSafe, apply_effects-IsSafe,
}

-- `readLoop` over the frames that it decodes.
unfoldable pub run_frames : List Frame → Ncp → FailFree Ncp
run_frames [] n = ok n
run_frames (f ∷ fs) n = handle_frame f n >>= run_frames fs

-- A data frame with an HL response.
abbrev pub is_response : Frame → Bool
is_response f = not (ll_is_ack f.ll.flags) && f.hl.packet_type == 0x01

-- What one frame does to the table of HL requests, when both tables are live.
record Handled (f : Frame) (n m : Ncp) : Type 0 where
  safe : IsSafe m
  hl_is :
      (if is_response f then deliver f.hl.tsn f n.hl_pending else ok n.hl_pending) ≡ ok m.hl_pending

push_ack-IsSafe :
    (seq : ℕ) (n : Ncp)
    → IsSafe n
    → IsSafe (push_ack seq n) × ((push_ack seq n).hl_pending ≡ n.hl_pending)
unfolding push_ack
push_ack-IsSafe seq n s = elim (Bool-cases (ltb (length n.acks) 4)) [
  | inl room ↦ rw (room) (s, refl)
  | inr full ↦ rw (full) (s, refl)
]

handle_frame_lem :
    (f : Frame) (n : Ncp) → IsSafe n → (m : Ncp) × (handle_frame f n ≡ ok m) × Handled f n m
unfolding handle_frame
handle_frame_lem f n s = elim (Bool-cases (ll_is_ack f.ll.flags)) [
  | inl is_ack ↦
      let (t, same) = push_ack-IsSafe (ll_ack_seq f.ll.flags) n s in
      (
        push_ack (ll_ack_seq f.ll.flags) n,
        rw (is_ack, handle_frame),
        record { safe = t; hl_is = rw is_ack (ap ok (sym same)) },
      )
  | inr is_data ↦
      let acked : Ncp = record n {
        written = n.written ++ (encode_ack (ll_pkt_seq f.ll.flags) ∷ []);
      } in
      elim (Bool-cases (f.hl.packet_type == 0x01)) [
        | inl response ↦
            let (q, d, l) = deliver-IsLive f.hl.tsn f n.hl_pending s.0 in
            (
              record acked { hl_pending = q },
              ground arith,
              record { safe = (l, s.1); hl_is = ground arith },
            )
        | inr other ↦ elim (Bool-cases (f.hl.packet_type == 0x02)) [
          | inl indication ↦
              let (m, d, t, same) = apply_effects-IsSafe (handle_indication n.handlers f) acked s in
              (m, ground arith, record { safe = t; hl_is = ground arith })
          | inr request ↦ (acked, ground arith, record { safe = s; hl_is = ground arith })
        ]
      ]
]

-- A request waits on its channel, under its sequence number.
abbrev Waits : ℕ → ℕ → Pending Frame → Type 0
Waits tsn c p = (p.entry tsn ≡ some c) × ((p.chan c).buffer ≡ none)

-- It has got its response.
abbrev Holds : ℕ → Frame → Pending Frame → Type 0
Holds c f p = (p.chan c).buffer ≡ some f

-- Another frame than a response of that number.
abbrev pub IsOther : ℕ → Frame → Type 0
IsOther tsn f = (is_response f && f.hl.tsn == tsn) ≡ false

deliver_other :
    (seq tsn c : ℕ) (f : Frame) (p q : Pending Frame)
    → IsLive p
    → seq ≢ tsn
    → Waits tsn c p
    → deliver seq f p ≡ ok q
    → Waits tsn c q
deliver_other seq tsn c f p q l ne (e, b) d = elim (Option-cases (p.entry seq)) [
  | inl e' ↦ ground (arith, deliver-none seq f p e')
  | inr (k, e') ↦ ground (arith, deliver_lem seq k f p e' (l.is_open seq k e'), l.own seq tsn c)
]

deliver_self :
    (tsn c : ℕ) (f : Frame) (p q : Pending Frame)
    → IsLive p
    → Waits tsn c p
    → deliver tsn f p ≡ ok q
    → Holds c f q
deliver_self tsn c f p q l (e, b) d = ground (arith, deliver_lem tsn c f p e (l.is_open tsn c e))

deliver_keeps :
    (seq c : ℕ) (f g : Frame) (p q : Pending Frame)
    → IsLive p
    → Holds c f p
    → deliver seq g p ≡ ok q
    → Holds c f q
deliver_keeps seq c f g p q l b d = elim (Option-cases (p.entry seq)) [
  | inl e' ↦ ground (arith, deliver-none seq g p e')
  | inr (k, e') ↦ ground (arith, deliver_lem seq k g p e' (l.is_open seq k e'))
]

Handled-other :
    (tsn c : ℕ) (f : Frame) (n m : Ncp)
    → IsSafe n
    → Handled f n m
    → IsOther tsn f
    → Waits tsn c n.hl_pending
    → Waits tsn c m.hl_pending
Handled-other tsn c f n m s h o w = elim (Bool-cases (is_response f)) [
  | inl response ↦
      deliver_other f.hl.tsn tsn c f n.hl_pending m.hl_pending s.0 (ground arith) w
        (rw response at h.hl_is)
  | inr quiet ↦ ground (arith, h.hl_is)
]

Handled-keeps :
    (c : ℕ) (f g : Frame) (n m : Ncp)
    → IsSafe n
    → Handled g n m
    → Holds c f n.hl_pending
    → Holds c f m.hl_pending
Handled-keeps c f g n m s h w = elim (Bool-cases (is_response g)) [
  | inl response ↦
      deliver_keeps g.hl.tsn c f g n.hl_pending m.hl_pending s.0 w (rw response at h.hl_is)
  | inr quiet ↦ ground (arith, h.hl_is)
]

run_keeps :
    (c : ℕ) (f : Frame) (fs : List Frame) (n : Ncp)
    → IsSafe n
    → Holds c f n.hl_pending
    → (m : Ncp) × (run_frames fs n ≡ ok m) × IsSafe m × Holds c f m.hl_pending
unfolding run_frames
run_keeps c f [] n s w = (n, refl, s, w)
run_keeps c f (g ∷ fs) n s w =
    let (m, e, h) = handle_frame_lem g n s in
    let (k, e', t, w') = run_keeps c f fs m h.safe (Handled-keeps c f g n m s h w) in
    (k, rw e e', t, w')

run-Waits :
    (tsn c : ℕ) (f : Frame) (before after : List Frame) (n : Ncp)
    → IsSafe n
    → Waits tsn c n.hl_pending
    → All (IsOther tsn) before
    → is_response f ≡ true
    → f.hl.tsn ≡ tsn
    → (m : Ncp) × (run_frames (before ++ (f ∷ after)) n ≡ ok m) × IsSafe m × Holds c f m.hl_pending
unfolding run_frames
run-Waits tsn c f [] after n s w o r t =
    let (m, e, h) = handle_frame_lem f n s in
    let held : Holds c f m.hl_pending =
      deliver_self tsn c f n.hl_pending m.hl_pending s.0 w (ground (arith, h.hl_is)) in
    let (k, e', s', w') = run_keeps c f after m h.safe held in (k, rw e e', s', w')
run-Waits tsn c f (g ∷ before) after n s w o r t =
    let (m, e, h) = handle_frame_lem g n s in
    let (k, e', s', w') =
      run-Waits tsn c f before after m h.safe (Handled-other tsn c g n m s h o.0 w) o.1 r t in
    (k, rw e e', s', w')

begin_request-Waits :
    (n : Ncp)
    → IsSafe n
    → IsSafe (begin_request n).0
      × Waits (begin_request n).1 n.hl_pending.next (begin_request n).0.hl_pending
unfolding begin_request register
begin_request-Waits n s = ((register-IsLive _ n.hl_pending s.0, s.1), (ground arith, ground arith))

-- A request that has begun gets the first response of its sequence number, whatever other frames the
-- read loop handles before and after it: its channel holds that frame, and no other, for the caller
-- to receive. The loop does not panic, and its tables stay live.
pub run_frames_routed :
    (n : Ncp) (f : Frame) (before after : List Frame)
    → IsSafe n
    → All (IsOther (begin_request n).1) before
    → is_response f ≡ true
    → f.hl.tsn ≡ (begin_request n).1
    → (m : Ncp) × (run_frames (before ++ (f ∷ after)) (begin_request n).0 ≡ ok m)
      × IsSafe m
      × (receive (m.hl_pending.chan n.hl_pending.next) ≡ some (some f))
unfolding receive
run_frames_routed n f before after s o r t =
    let (s', w) = begin_request-Waits n s in
    let (m, e, u, held) = run-Waits _ n.hl_pending.next f before after _ s' w o r t in
    (m, e, u, rw (held, receive) refl)
