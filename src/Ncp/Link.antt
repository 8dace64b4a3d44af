-- ===== src/Ncp/Link.antt =====
-- nrf52840.go, the link layer: `nextPktSeq` and `writeWithACK`. The serial port, the timer, the
-- context and `llAckCh` are the environment: a schedule says for each attempt whether the write
-- fails and what the `select` receives, in order.
pub mod Delivery
use zigbee_go_home.Base.{
  ℕ, zero, suc, ◌+◌, ◌%◌, Bool, true, false, List, [], ◌∷◌, ◌++◌, ◌==◌, if◌then◌else◌,
}
use zigbee_go_home.Base.Bytes.{Bytes}

-- `n.llPktSeq%3 + 1`: 1, 2, 3, 1, …
unfoldable pub next_pkt_seq : ℕ → ℕ
next_pkt_seq pkt_seq = pkt_seq % 3 + 1

abbrev pub ll_max_retries : ℕ
ll_max_retries = 3

pub data Signal : Type 0 where
  ack : ℕ → Signal
  deadline ctx_done ncp_done : Signal

pub record Attempt : Type 0 where
  pub write_fails : Bool
  pub signals : List Signal

-- `blocked`: the schedule ends while the loop still waits.
pub data Wait : Type 0 where
  matched timed_out wait_cancelled wait_closed wait_blocked : Wait

-- The loop `waitACK`.
unfoldable pub wait_ack : ℕ → List Signal → Wait
wait_ack pkt_seq [] = wait_blocked
wait_ack pkt_seq (ack seq ∷ rest) = if seq == pkt_seq then matched else wait_ack pkt_seq rest
wait_ack pkt_seq (deadline ∷ rest) = timed_out
wait_ack pkt_seq (ctx_done ∷ rest) = wait_cancelled
wait_ack pkt_seq (ncp_done ∷ rest) = wait_closed

pub data WriteResult : Type 0 where
  delivered write_error ctx_error ncp_closed ack_timeout blocked : WriteResult

-- The result, and what went over the port.
pub record Sent : Type 0 where
  pub result : WriteResult
  pub written : List Bytes

abbrev stop : WriteResult → Bytes → Sent
stop r frame = record { result = r; written = frame ∷ [] }

-- What follows one wait; `again` is the rest of the `for` loop.
unfoldable pub after_wait : Bytes → Wait → Sent → Sent
after_wait frame matched again = stop delivered frame
after_wait frame timed_out again = record again { written = frame ∷ again.written }
after_wait frame wait_cancelled again = stop ctx_error frame
after_wait frame wait_closed again = stop ncp_closed frame
after_wait frame wait_blocked again = stop blocked frame

-- The `for` loop with `rounds` attempts left. A failed write leaves nothing on the port.
unfoldable pub attempts : ℕ → Bytes → ℕ → List Attempt → Sent
attempts zero frame pkt_seq schedule = record { result = ack_timeout; written = [] }
attempts (suc rounds) frame pkt_seq [] = record { result = blocked; written = [] }
attempts (suc rounds) frame pkt_seq (a ∷ schedule) =
    let again = attempts rounds frame pkt_seq schedule in
    if a.write_fails
    then record { result = write_error; written = [] }
    else after_wait frame (wait_ack pkt_seq a.signals) again

unfoldable pub write_with_ack : Bytes → ℕ → List Attempt → Sent
write_with_ack = attempts (ll_max_retries + 1)
