-- ===== src/Ncp/Link/Delivery.antt =====
-- When a frame counts as delivered, and how often it is written.
use zigbee_go_home.Base.{
  ℕ, zero, suc, ◌≤◌, ◌<◌, ◌≡◌, ◌≢◌, refl, ap, ◌∙◌, false, Bool-cases, inl, inr, ◌==◌, ==_iff, List,
  [], ◌∷◌, ◌++◌, map, length, replicate, All, arith,
}
use zigbee_go_home.Base.Bytes.{Bytes}
use zigbee_go_home.Ncp.Link.{
  next_pkt_seq, Signal, ack, deadline, ctx_done, ncp_done, Attempt, Wait, matched, timed_out,
  wait_ack, delivered, ack_timeout, Sent, after_wait, attempts, write_with_ack,
}

-- The sequence number stays in 1, 2, 3, and two frames in a row never share it, so an ACK that comes
-- late for the frame before is told apart.
pub next_pkt_seq_fresh :
    (seq : ℕ) → (1 ≤ next_pkt_seq seq) × (next_pkt_seq seq ≤ 3) × (next_pkt_seq seq ≢ seq)
unfolding next_pkt_seq
next_pkt_seq_fresh seq = omega arith

-- The signals start with ACKs of other frames, then `last`.
pub record Stale (pkt_seq : ℕ) (signals : List Signal) (last : Signal) : Type 0 where
  pub drained : List ℕ
  pub left : List Signal
  pub signals_are : signals ≡ map ack drained ++ (last ∷ left)
  pub others : All (λ s. s ≢ pkt_seq) drained

wait_ack_drained :
    (pkt_seq : ℕ) (drained : List ℕ) (rest : List Signal)
    → All (λ s. s ≢ pkt_seq) drained
    → wait_ack pkt_seq (map ack drained ++ rest) ≡ wait_ack pkt_seq rest
unfolding wait_ack
wait_ack_drained pkt_seq [] rest h = refl
wait_ack_drained pkt_seq (s ∷ drained) rest h =
    ground (arith, wait_ack_drained pkt_seq drained rest)

Stale-cons :
    (pkt_seq s : ℕ) (signals : List Signal) (last : Signal)
    → s ≢ pkt_seq
    → Stale pkt_seq signals last
    → Stale pkt_seq (ack s ∷ signals) last
Stale-cons pkt_seq s signals last ne t = record {
  drained = s ∷ t.drained;
  left = t.left;
  signals_are = ap (◌∷◌ (ack s)) t.signals_are;
  others = (ne, t.others);
}

abbrev EndSignal : ℕ → Wait → List Signal → Type 0
EndSignal pkt_seq matched signals = Stale pkt_seq signals (ack pkt_seq)
EndSignal pkt_seq timed_out signals = Stale pkt_seq signals deadline
EndSignal pkt_seq _ signals = Unit

EndSignal_lem :
    (pkt_seq : ℕ) (signals : List Signal) → EndSignal pkt_seq (wait_ack pkt_seq signals) signals
unfolding wait_ack
EndSignal_lem pkt_seq [] = tt
EndSignal_lem pkt_seq (ack s ∷ signals) = elim (Bool-cases (s == pkt_seq)) [
  | inl same ↦ rw same (record {
    drained = [];
    left = signals;
    signals_are = ap (λ t. ack t ∷ signals) ((==_iff s pkt_seq).0 same);
    others = tt;
  })
  | inr other ↦
      rw other (longer (ground arith) (wait_ack pkt_seq signals) (EndSignal_lem pkt_seq signals))
]
  where
    longer :
        s ≢ pkt_seq
        → (w : Wait) → EndSignal pkt_seq w signals
        → EndSignal pkt_seq w (ack s ∷ signals)
    longer ne matched t = Stale-cons pkt_seq s signals (ack pkt_seq) ne t
    longer ne timed_out t = Stale-cons pkt_seq s signals deadline ne t
    longer ne _ t = tt
EndSignal_lem pkt_seq (deadline ∷ signals) = record {
  drained = [];
  left = signals;
  signals_are = refl;
  others = tt;
}
EndSignal_lem pkt_seq (ctx_done ∷ signals) = tt
EndSignal_lem pkt_seq (ncp_done ∷ signals) = tt

wait_ack-Stale :
    (pkt_seq : ℕ) (signals : List Signal) (last : Signal)
    → (t : Stale pkt_seq signals last) → wait_ack pkt_seq signals ≡ wait_ack pkt_seq (last ∷ t.left)
wait_ack-Stale pkt_seq signals last t =
    ap (wait_ack pkt_seq) t.signals_are
    ∙ wait_ack_drained pkt_seq t.drained (last ∷ t.left) t.others

-- The attempt is written, and waits until its time is over; or until its own ACK comes.
abbrev pub TimesOut : ℕ → Attempt → Type 0
TimesOut pkt_seq a = (a.write_fails ≡ false) × Stale pkt_seq a.signals deadline

abbrev pub Acked : ℕ → Attempt → Type 0
Acked pkt_seq a = (a.write_fails ≡ false) × Stale pkt_seq a.signals (ack pkt_seq)

-- Some attempt, with fewer than `rounds` before it that all time out, gets its ACK; the frame has
-- been written once for each attempt up to that one.
pub record Delivered (rounds pkt_seq : ℕ) (frame : Bytes) (schedule : List Attempt)
    (written : List Bytes) : Type 0 where
  pub before : List Attempt
  pub last : Attempt
  pub after : List Attempt
  pub schedule_is : schedule ≡ before ++ (last ∷ after)
  pub within : length before < rounds
  pub earlier : All (TimesOut pkt_seq) before
  pub acked : Acked pkt_seq last
  pub written_is : written ≡ replicate (suc (length before)) frame

module _ (frame : Bytes) (pkt_seq : ℕ) where
  attempts_acked :
      (rounds : ℕ) (a : Attempt) (schedule : List Attempt)
      → Acked pkt_seq a
      → attempts (suc rounds) frame pkt_seq (a ∷ schedule)
        ≡ record { result = delivered; written = frame ∷ [] }
  unfolding attempts after_wait wait_ack
  attempts_acked rounds a schedule (ok_write, t) =
      ground (arith, wait_ack-Stale pkt_seq a.signals (ack pkt_seq) t)

  attempts-TimesOut :
      (rounds : ℕ) (a : Attempt) (schedule : List Attempt)
      → TimesOut pkt_seq a
      → attempts (suc rounds) frame pkt_seq (a ∷ schedule) ≡ record {
        result = (attempts rounds frame pkt_seq schedule).result;
        written = frame ∷ (attempts rounds frame pkt_seq schedule).written;
      }
  unfolding attempts after_wait wait_ack
  attempts-TimesOut rounds a schedule (ok_write, t) =
      ground (arith, wait_ack-Stale pkt_seq a.signals deadline t)

  Delivered→attempts :
      (rounds : ℕ) (before after : List Attempt) (last : Attempt)
      → length before < rounds
      → All (TimesOut pkt_seq) before
      → Acked pkt_seq last
      → attempts rounds frame pkt_seq (before ++ (last ∷ after))
        ≡ record { result = delivered; written = replicate (suc (length before)) frame }
  Delivered→attempts zero before after last w e a = absurd (omega arith)
  Delivered→attempts (suc rounds) [] after last w e a = attempts_acked rounds last after a
  Delivered→attempts (suc rounds) (b ∷ before) after last w e a =
      attempts-TimesOut rounds b (before ++ (last ∷ after)) e.0
      ∙ rw (Delivered→attempts rounds before after last (omega arith) e.1 a)

  after_wait-Delivered :
      (rounds : ℕ) (a : Attempt) (schedule : List Attempt) (again : Sent) (w : Wait)
      → a.write_fails ≡ false
      → EndSignal pkt_seq w a.signals
      → (again.result ≡ delivered → Delivered rounds pkt_seq frame schedule again.written)
      → (after_wait frame w again).result ≡ delivered
      → Delivered (suc rounds) pkt_seq frame (a ∷ schedule) (after_wait frame w again).written
  unfolding after_wait
  after_wait-Delivered rounds a schedule again matched ok_write t rec e = record {
    before = [];
    last = a;
    after = schedule;
    schedule_is = refl;
    within = omega arith;
    earlier = tt;
    acked = (ok_write, t);
    written_is = refl;
  }
  after_wait-Delivered rounds a schedule again timed_out ok_write t rec e =
      let d = rec e in
      record {
        before = a ∷ d.before;
        last = d.last;
        after = d.after;
        schedule_is = ap (◌∷◌ a) d.schedule_is;
        within = omega (arith, d.within);
        earlier = ((ok_write, t), d.earlier);
        acked = d.acked;
        written_is = ap (◌∷◌ frame) d.written_is;
      }
  after_wait-Delivered rounds a schedule again _ ok_write t rec e = cc

  attempts→Delivered :
      (rounds : ℕ) (schedule : List Attempt)
      → (attempts rounds frame pkt_seq schedule).result ≡ delivered
      → Delivered rounds pkt_seq frame schedule (attempts rounds frame pkt_seq schedule).written
  unfolding attempts
  attempts→Delivered zero schedule e = cc
  attempts→Delivered (suc rounds) [] e = cc
  attempts→Delivered (suc rounds) (a ∷ schedule) e = elim (Bool-cases a.write_fails) [
    | inl bad ↦ cc (rw bad at e)
    | inr fine ↦ simp fine (
        after_wait-Delivered rounds a schedule _ (wait_ack pkt_seq a.signals) fine
          (EndSignal_lem pkt_seq a.signals) (attempts→Delivered rounds schedule) (simp fine at e))
  ]

  -- If `writeWithACK` reports success, one of the first four attempts was written and got the ACK of
  -- its own sequence number, ACKs of others drained, after attempts that timed out; and the port has
  -- got the frame once for each of these attempts, and nothing else.
  pub write_with_ack_delivered :
      (schedule : List Attempt)
      → (write_with_ack frame pkt_seq schedule).result ≡ delivered
      → Delivered 4 pkt_seq frame schedule (write_with_ack frame pkt_seq schedule).written
  unfolding write_with_ack
  write_with_ack_delivered = attempts→Delivered 4

  -- If fewer than four attempts time out and the next one is written and gets its ACK, ACKs of others
  -- drained, then `writeWithACK` reports success and looks at no later attempt.
  pub write_with_ack_acked :
      (before after : List Attempt) (last : Attempt)
      → length before < 4
      → All (TimesOut pkt_seq) before
      → Acked pkt_seq last
      → write_with_ack frame pkt_seq (before ++ (last ∷ after))
        ≡ record { result = delivered; written = replicate (suc (length before)) frame }
  unfolding write_with_ack
  write_with_ack_acked = Delivered→attempts 4

  attempts_exhausted :
      (rounds : ℕ) (schedule after : List Attempt)
      → length schedule ≡ rounds
      → All (TimesOut pkt_seq) schedule
      → attempts rounds frame pkt_seq (schedule ++ after)
        ≡ record { result = ack_timeout; written = replicate rounds frame }
  attempts_exhausted zero [] after l h = unfold attempts in refl
  attempts_exhausted zero (a ∷ schedule) after l h = absurd (omega arith)
  attempts_exhausted (suc rounds) [] after l h = absurd (omega arith)
  attempts_exhausted (suc rounds) (a ∷ schedule) after l h =
      attempts-TimesOut rounds a (schedule ++ after) h.0
      ∙ rw (attempts_exhausted rounds schedule after (omega arith) h.1)

  -- Four attempts that all time out end in the timeout error, with the frame written four times; a
  -- fifth attempt is not made.
  pub write_with_ack_exhausted :
      (schedule after : List Attempt)
      → length schedule ≡ 4
      → All (TimesOut pkt_seq) schedule
      → write_with_ack frame pkt_seq (schedule ++ after)
        ≡ record { result = ack_timeout; written = replicate 4 frame }
  unfolding write_with_ack
  write_with_ack_exhausted schedule after = attempts_exhausted 4 schedule after
