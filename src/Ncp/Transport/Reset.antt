-- ===== src/Ncp/Transport/Reset.antt =====
-- `resetState` closes the channel of every request in flight.
use zigbee_go_home.Base.{
  Bool, ◌⊎◌, false, ℕ, zero, suc, ◌≤◌, ◌<◌, ◌≡◌, refl, true, [], inl, inr, none, some, Option-cases,
  ok, arith,
}
use zigbee_go_home.Base.Bytes.{Bytes}
use zigbee_go_home.Ncp.Frame.{Frame}
use zigbee_go_home.Ncp.Zcl.{parse_attribute_responses, parse_responses_fuel}
use zigbee_go_home.Ncp.Transport.{
  Chan, Pending, update, close_all, receive, Ncp, reset_state, Woken, Ready, on_channel, on_context,
  on_done, ReadResult, parsed, read_context_error, read_ncp_closed, read_result, RequestResult,
  request_result, request_cancelled, context_error, ncp_closed,
}
use zigbee_go_home.Ncp.Transport.Routing.{IsLive, IsSafe}

module _ {ℓ} {A : Type ℓ} where
  -- The entry `k` is closed and taken out.
  abbrev closed_at : ℕ → ℕ → Pending A → Pending A
  closed_at k c p = record {
    entry = update p.entry k none;
    chan = update p.chan c (record { buffer = (p.chan c).buffer; is_closed = true });
    next = p.next;
  }

  closed_at-IsLive :
      (k c : ℕ) (p : Pending A) → p.entry k ≡ some c → IsLive p → IsLive (closed_at k c p)
  closed_at-IsLive k c p e l = record {
    made = λ s d e'. ground (arith, l.made s d);
    is_open = λ s d e'. ground (arith, l.is_open s d, l.own s k d);
    own = λ s t d e' e''. ground (arith, l.own s t d);
  }

  -- What closing the keys below `k` leaves.
  record ClosedBelow (k : ℕ) (p q : Pending A) : Type ℓ where
    live : IsLive q
    gone : (s : ℕ) → s < k → q.entry s ≡ none
    kept : (s : ℕ) → k ≤ s → q.entry s ≡ p.entry s
    shut : (s c : ℕ) → s < k → p.entry s ≡ some c → (q.chan c).is_closed ≡ true
    stays : (c : ℕ) → (p.chan c).is_closed ≡ true → (q.chan c).is_closed ≡ true
    buffers : (c : ℕ) → (q.chan c).buffer ≡ (p.chan c).buffer

  close_all_lem :
      (k : ℕ) (p : Pending A)
      → IsLive p
      → (q : Pending A) × (close_all k p ≡ ok q) × ClosedBelow k p q
  unfolding close_all
  close_all_lem zero p l = (
    p,
    refl,
    record {
      live = l;
      gone = λ s h. absurd (omega arith);
      kept = λ s h. refl;
      shut = λ s c h e. absurd (omega arith);
      stays = λ c h. h;
      buffers = λ c. refl;
    },
  )
  close_all_lem (suc k) p l = elim (Option-cases (p.entry k)) [
    | inl e ↦
        let (q, d, b) = close_all_lem k p l in
        (
          q,
          rw (e, close_all) d,
          record {
            live = b.live;
            gone = λ s h. ground (arith, e, b.gone s, b.kept s);
            kept = λ s h. b.kept s (omega arith);
            shut = λ s c h f. ground (arith, e, b.shut s c);
            stays = b.stays;
            buffers = b.buffers;
          },
        )
    | inr (c, e) ↦
        let (q, d, b) = close_all_lem k (closed_at k c p) (closed_at-IsLive k c p e l) in
        (
          q,
          rw (e, close_all) (rw (l.is_open k c e) d),
          record {
            live = b.live;
            gone = λ s h. ground (arith, b.gone s, b.kept s);
            kept = λ s h. ground (arith, b.kept s);
            shut = λ s c' h f. ground (arith, e, f, b.shut s c', b.stays c');
            stays = λ c' h. ground (arith, b.stays c');
            buffers = λ c'. ground (arith, b.buffers c');
          },
        )
  ]

  -- A key below 256 with an empty channel: a caller that receives from it finds it closed.
  receive-closed :
      (p q : Pending A) (s c : ℕ)
      → ClosedBelow 256 p q
      → s < 256
      → p.entry s ≡ some c
      → (p.chan c).buffer ≡ none
      → receive (q.chan c) ≡ some none
  unfolding receive
  receive-closed p q s c b h e f = ground (arith, b.buffers c, f, b.shut s c h e)

-- A request whose channel is closed and empty ends with an error, whichever ready case is taken.
abbrev pub IsRequestError : Bool → Bool → RequestResult → Type 0
IsRequestError is_cancelled is_done r =
    (r ≡ request_cancelled)
    ⊎ ((is_cancelled ≡ true) × (r ≡ context_error))
    ⊎ ((is_done ≡ true) × (r ≡ ncp_closed))

request_result-closed :
    (is_cancelled is_done : Bool) (c : Chan Frame) (w : Woken Frame)
    → receive c ≡ some none
    → Ready is_cancelled is_done c w
    → IsRequestError is_cancelled is_done (request_result w)
unfolding request_result
request_result-closed is_cancelled is_done c _ e (on_channel none q) = inl refl
request_result-closed is_cancelled is_done c _ e (on_channel (some f) q) = cc
request_result-closed is_cancelled is_done c _ e (on_context h) = inr (inl (h, refl))
request_result-closed is_cancelled is_done c _ e (on_done h) = inr (inr (h, refl))

-- A read of attributes whose channel is closed and empty has no responses, and an error only of its
-- context or of the driver.
abbrev pub IsReadEmpty : Bool → Bool → ReadResult → Type 0
IsReadEmpty is_cancelled is_done r =
    (r ≡ parsed (some []))
    ⊎ ((is_cancelled ≡ true) × (r ≡ read_context_error))
    ⊎ ((is_done ≡ true) × (r ≡ read_ncp_closed))

read_result-closed :
    (is_cancelled is_done : Bool) (c : Chan Bytes) (w : Woken Bytes)
    → receive c ≡ some none
    → Ready is_cancelled is_done c w
    → IsReadEmpty is_cancelled is_done (read_result w)
unfolding read_result parse_attribute_responses parse_responses_fuel
read_result-closed is_cancelled is_done c _ e (on_channel none q) = inl refl
read_result-closed is_cancelled is_done c _ e (on_channel (some f) q) = cc
read_result-closed is_cancelled is_done c _ e (on_context h) = inr (inl (h, refl))
read_result-closed is_cancelled is_done c _ e (on_done h) = inr (inr (h, refl))

-- What `reset_state` leaves, by its two tables.
abbrev after_reset : Pending Frame → Pending Bytes → Ncp → Ncp
after_reset hl zcl n = record n {
  hl_tsn = 0;
  zcl_seq = 0;
  ll_pkt_seq_now = 0;
  hl_pending = hl;
  zcl_pending = zcl;
  acks = [];
  reset_ind = false;
}

reset_state_after :
    (n : Ncp) (hl : Pending Frame) (zcl : Pending Bytes)
    → close_all 256 n.hl_pending ≡ ok hl
    → close_all 256 n.zcl_pending ≡ ok zcl
    → reset_state n ≡ ok (after_reset hl zcl n)
unfolding reset_state
reset_state_after n hl zcl d d' = rw d (rw d' refl)

reset_state_lem :
    (n : Ncp)
    → IsSafe n
    → (m : Ncp) × (reset_state n ≡ ok m)
      × ClosedBelow 256 n.hl_pending m.hl_pending
      × ClosedBelow 256 n.zcl_pending m.zcl_pending
reset_state_lem n l =
    let (hl, d, b) = close_all_lem 256 n.hl_pending l.0 in
    let (zcl, d', b') = close_all_lem 256 n.zcl_pending l.1 in
    (after_reset hl zcl n, reset_state_after n hl zcl d d', b, b')

-- A reset of a driver whose tables are live does not panic, leaves live tables, and takes out the
-- request with sequence number `seq` < 256. If its channel was empty, the channel is ready from then
-- on, and the request ends with an error: the one for a cancelled request, unless its context or
-- `n.done` is ready too and `select` takes that. Before a reset `n.done` is closed, which ends the
-- requests that wait at their `select`; `resetState` makes a new one, and a request that gets to its
-- `select` after that has only its channel and its context.
pub reset_state_cancels :
    (n : Ncp) (seq c : ℕ) (is_cancelled is_done : Bool)
    → IsSafe n
    → seq < 256
    → n.hl_pending.entry seq ≡ some c
    → (n.hl_pending.chan c).buffer ≡ none
    → (m : Ncp) × (reset_state n ≡ ok m)
      × IsSafe m
      × (m.hl_pending.entry seq ≡ none)
      × (receive (m.hl_pending.chan c) ≡ some none)
      × ((w : Woken Frame)
          → Ready is_cancelled is_done (m.hl_pending.chan c) w
          → IsRequestError is_cancelled is_done (request_result w))
reset_state_cancels n seq c is_cancelled is_done l h e f =
    let (m, d, b, b') = reset_state_lem n l in
    let shut = receive-closed n.hl_pending m.hl_pending seq c b h e f in
    (
      m,
      d,
      (b.live, b'.live),
      b.gone seq h,
      shut,
      λ w. request_result-closed is_cancelled is_done (m.hl_pending.chan c) w shut,
    )

-- The same reset with a read of attributes whose ZCL sequence number `seq` is below 256 and whose
-- channel is empty: the channel is ready from then on, and `ReadAttributes` returns an empty list of
-- responses and no error, unless its context or `n.done` is ready too and `select` takes that. So a
-- read that gets to its `select` after the reset, with a context that lives, has no error.
pub reset_state_empties_reads :
    (n : Ncp) (seq c : ℕ) (is_cancelled is_done : Bool)
    → IsSafe n
    → seq < 256
    → n.zcl_pending.entry seq ≡ some c
    → (n.zcl_pending.chan c).buffer ≡ none
    → (m : Ncp) × (reset_state n ≡ ok m)
      × (m.zcl_pending.entry seq ≡ none)
      × (receive (m.zcl_pending.chan c) ≡ some none)
      × ((w : Woken Bytes)
          → Ready is_cancelled is_done (m.zcl_pending.chan c) w
          → IsReadEmpty is_cancelled is_done (read_result w))
reset_state_empties_reads n seq c is_cancelled is_done l h e f =
    let (m, d, b, b') = reset_state_lem n l in
    let shut = receive-closed n.zcl_pending m.zcl_pending seq c b' h e f in
    (
      m,
      d,
      b'.gone seq h,
      shut,
      λ w. read_result-closed is_cancelled is_done (m.zcl_pending.chan c) w shut,
    )
