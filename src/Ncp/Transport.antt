-- ===== src/Ncp/Transport.antt =====
-- nrf52840.go, the state that requests share with the read loop: pending requests by sequence
-- number, and the channels that their callers wait on. A channel has room for one value; the maps
-- hold references to channels, which the callers keep when an entry is gone.
pub mod Routing
pub mod Loop
pub mod Stream
pub mod Reset
use zigbee_go_home.Base.{
  ℕ, zero, suc, ◌+◌, ◌%◌, ◌^◌, Bool, true, false, not, ◌||◌, ◌≡◌, List, [], ◌∷◌, ◌++◌, ltb, ◌==◌,
  if◌then◌else◌, length, Option, none, some, Outcome, ok, err, panic, ◌>>=◌,
}
use zigbee_go_home.Base.Bytes.{Bytes}
use zigbee_go_home.Ncp.Frame.{
  Frame, FrameError, ll_is_ack, ll_ack_seq, ll_pkt_seq, encode_ack, decode_frame,
}
use zigbee_go_home.Ncp.Indication.{
  Handlers, Event, Effect, emit, reset_signal, zcl_response, ota_no_image, handle_indication,
}
use zigbee_go_home.Ncp.Zcl.{AttributeResponse, parse_attribute_responses}

-- A channel of capacity one.
pub record Chan {ℓ} (A : Type ℓ) : Type ℓ where
  pub buffer : Option A
  pub is_closed : Bool

abbrev pub fresh {ℓ} : {A : Type ℓ} → Chan A
fresh = record { buffer = none; is_closed = false }

-- A table of pending requests: the map from a sequence number to a channel, and all channels ever
-- made, numbered in order.
pub record Pending {ℓ} (A : Type ℓ) : Type ℓ where
  pub entry : ℕ → Option ℕ
  pub chan : ℕ → Chan A
  pub next : ℕ

abbrev pub update {ℓ} : {A : Type ℓ} → (ℕ → A) → ℕ → A → ℕ → A
update f k v j = if k == j then v else f j

module _ {ℓ} {A : Type ℓ} where
  -- `ch := make(chan …, 1); pending[seq] = ch`
  unfoldable pub register : ℕ → Pending A → Pending A
  register seq p = record {
    entry = update p.entry seq (some p.next);
    chan = update p.chan p.next fresh;
    next = suc p.next;
  }

  -- The deferred `delete(pending, seq)`.
  unfoldable pub unregister : ℕ → Pending A → Pending A
  unregister seq p = record p { entry = update p.entry seq none }

  -- `select { case ch <- v: default: }`: a full channel keeps what it has, a closed one panics.
  unfoldable pub offer : A → Chan A → Outcome (Unit {0}) (Chan A)
  offer v c =
      if c.is_closed
      then panic
      else elim c.buffer [ none ↦ ok (record c { buffer = some v }) | some old ↦ ok c ]

  -- Look up the channel of a sequence number and offer it a value.
  unfoldable pub deliver : ℕ → A → Pending A → Outcome (Unit {0}) (Pending A)
  unfolding offer
  deliver seq v p = elim (p.entry seq) [
    | none ↦ ok p
    | some c ↦ offer v (p.chan c) >>= λ d. ok (record p { chan = update p.chan c d })
  ]

  -- `for seq, ch := range pending { close(ch); delete(pending, seq) }` over the uint8 keys below
  -- `count`. To close a closed channel panics.
  unfoldable pub close_all : ℕ → Pending A → Outcome (Unit {0}) (Pending A)
  close_all zero p = ok p
  close_all (suc k) p =
      let rest = close_all k p in
      let close_one = λ (c : ℕ).
        if (p.chan c).is_closed
        then panic
        else close_all k (record {
          entry = update p.entry k none;
          chan = update p.chan c (record { buffer = (p.chan c).buffer; is_closed = true });
          next = p.next;
        }) in
      elim (p.entry k) [ none ↦ rest | some c ↦ close_one c ]

  -- A receive that does not block: the buffered value, or the zero value of a closed channel.
  unfoldable pub receive : Chan A → Option (Option A)
  receive c = elim c.buffer [
    | some v ↦ some (some v)
    | none ↦ if c.is_closed then some none else none
  ]

pub record Ncp : Type 0 where
  pub hl_tsn : ℕ
  pub zcl_seq : ℕ
  pub ll_pkt_seq_now : ℕ
  pub hl_pending : Pending Frame
  pub zcl_pending : Pending Bytes
  pub acks : List ℕ
  pub reset_ind : Bool
  pub written : List Bytes
  pub events : List Event
  pub handlers : Handlers

abbrev pub FailFree {ℓ} : Type ℓ → Type ℓ
FailFree = Outcome (Unit {0})

-- `nextTSN` and the registration at the head of `request`.
unfoldable pub begin_request : Ncp → Ncp × ℕ
begin_request n =
    let tsn = (n.hl_tsn + 1) % 2 ^ 32 in
    (record n { hl_tsn = tsn; hl_pending = register (tsn % 256) n.hl_pending }, tsn % 256)

-- `n.llAckCh <- ackSeq` in a `select` with a default: the channel has room for four.
unfoldable pub push_ack : ℕ → Ncp → Ncp
push_ack seq n = if ltb (length n.acks) 4 then record n { acks = n.acks ++ (seq ∷ []) } else n

unfoldable pub apply_effect : Effect → Ncp → FailFree Ncp
apply_effect (emit e) n = ok (record n { events = n.events ++ (e ∷ []) })
apply_effect reset_signal n = ok (record n { reset_ind = true })
apply_effect (zcl_response seq records) n =
    deliver seq records n.zcl_pending >>= λ p. ok (record n { zcl_pending = p })
apply_effect (ota_no_image addr ep seq) n = ok n

unfoldable pub apply_effects : List Effect → Ncp → FailFree Ncp
apply_effects [] n = ok n
apply_effects (e ∷ es) n = apply_effect e n >>= apply_effects es

-- The body of `readLoop` behind a frame that was decoded. The goroutine that
-- `sendOTANoImageAvailable` runs in is a later request of its own.
unfoldable pub handle_frame : Frame → Ncp → FailFree Ncp
handle_frame f n =
    let acked = record n { written = n.written ++ (encode_ack (ll_pkt_seq f.ll.flags) ∷ []) } in
    if ll_is_ack f.ll.flags
    then ok (push_ack (ll_ack_seq f.ll.flags) n)
    else if f.hl.packet_type == 0x01
    then deliver f.hl.tsn f n.hl_pending >>= (λ p. ok (record acked { hl_pending = p }))
    else if f.hl.packet_type == 0x02
    then apply_effects (handle_indication n.handlers f) acked
    else ok acked

-- From `n.hlMu.Lock()` in `resetState` on, before the read loop starts again; the channels that the
-- first part makes anew are empty.
unfoldable pub reset_state : Ncp → FailFree Ncp
reset_state n = close_all 256 n.hl_pending >>= λ hl. close_all 256 n.zcl_pending >>= λ zcl.
    ok (record n {
      hl_tsn = 0;
      zcl_seq = 0;
      ll_pkt_seq_now = 0;
      hl_pending = hl;
      zcl_pending = zcl;
      acks = [];
      reset_ind = false;
    })

-- What wakes a caller that waits at the end of `request` or `ReadAttributes`: its channel, its
-- context, or `n.done`. Of the cases that are ready, `select` takes any.
pub data Woken {ℓ} (A : Type ℓ) : Type ℓ where
  received : Option A → Woken A
  context_done : Woken A
  driver_done : Woken A

pub data Ready {ℓ} {A : Type ℓ} (is_cancelled is_done : Bool) (c : Chan A) : Woken A → Type ℓ where
  on_channel : (r : Option A) → receive c ≡ some r → Ready is_cancelled is_done c (received r)
  on_context : is_cancelled ≡ true → Ready is_cancelled is_done c context_done
  on_done : is_done ≡ true → Ready is_cancelled is_done c driver_done

-- What the `select` at the end of `request` makes of it.
pub data RequestResult : Type 0 where
  responded : Frame → RequestResult
  status_error : Frame → RequestResult
  request_cancelled : RequestResult
  context_error : RequestResult
  ncp_closed : RequestResult

unfoldable pub request_result : Woken Frame → RequestResult
request_result (received none) = request_cancelled
request_result (received (some f)) =
    if not (f.hl.status_cat == 0) || not (f.hl.status_code == 0)
    then status_error f
    else responded f
request_result context_done = context_error
request_result driver_done = ncp_closed

-- The `select` at the end of `ReadAttributes`: a closed channel gives a nil slice.
pub data ReadResult : Type 0 where
  parsed : Option (List AttributeResponse) → ReadResult
  read_context_error : ReadResult
  read_ncp_closed : ReadResult

unfoldable pub read_result : Woken Bytes → ReadResult
read_result (received none) = parsed (parse_attribute_responses [])
read_result (received (some records)) = parsed (parse_attribute_responses records)
read_result context_done = read_context_error
read_result driver_done = read_ncp_closed
