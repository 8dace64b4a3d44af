-- ===== src/Coordinator/Events/Delivery.antt =====
-- Who is called: a subscriber from its subscription to its end, whatever else happens on the bus.
use zigbee_go_home.Base.{
  ℕ, ◌+◌, ◌^◌, ◌≤◌, ◌<◌, ◌≡◌, refl, ap, ◌∙◌, Bool, true, false, List, [], ◌∷◌, ◌++◌, append-nil,
  length, All, ◌==◌, ==_iff, if◌then◌else◌, arith, Bool-cases, inl, inr,
}
use zigbee_go_home.Base.Texts.{Text, same, same_refl}
use zigbee_go_home.Coordinator.Devices.{set_key, remove_key}
use zigbee_go_home.Coordinator.Events.{
  EventBus, Handler, new_event_bus, on, off, recipients, call_each, emit,
}
use zigbee_go_home.Coordinator.Events.Changes.{
  Change, run, Spares, calls, IsOrder, Shows, IsAbsent, calls-append, calls-remove_key,
  calls-set_key, next_id-run, run-IsFresh, run-Shows, run-IsAbsent,
}

module _ {H : Type 0} where
  abbrev only : Text → H → Text → List H
  only t h u = if same t u then h ∷ [] else []

  on-Shows :
      (t : Text) (h : H) (b : EventBus H)
      → IsAbsent b.next_id b
      → Shows b.next_id (only t h) [] (on t h b)
  unfolding on
  on-Shows t h b k = record { by_type = λ u. shown u (same t u); for_all = k.for_all }
    where
      shown :
          (u : Text) (x : Bool)
          → calls b.next_id (if x then set_key b.next_id h (b.handlers u) else b.handlers u)
            ≡ (if x then h ∷ [] else [])
      shown u true = calls-set_key b.next_id h (b.handlers u)
      shown u false = k.by_type u

  off-IsAbsent :
      (id : ℕ) (t : Text) (h : H) (b : EventBus H)
      → Shows id (only t h) [] b
      → IsAbsent id (off t id b)
  unfolding off
  off-IsAbsent id t h b k = record {
    by_type = λ u. shown u (same t u) (k.by_type u);
    for_all = k.for_all;
  }
    where
      shown :
          (u : Text) (x : Bool)
          → calls id (b.handlers u) ≡ (if x then h ∷ [] else [])
          → calls id (if x then remove_key id (b.handlers u) else b.handlers u) ≡ []
      shown u true e = calls-remove_key id (b.handlers u)
      shown u false e = e

  recipients-Shows :
      (order : List (ℕ × H) → List (ℕ × H)) (id : ℕ) (f : Text → List H) (b : EventBus H) (u : Text)
      → IsOrder order
      → length (f u) ≤ 1
      → Shows id f [] b
      → calls id (recipients order u b) ≡ f u
  unfolding recipients
  recipients-Shows order id f b u o l k =
      calls-append id (order (b.handlers u)) (order b.all_handlers)
      ∙ ap (λ hs. hs ++ calls id (order b.all_handlers)) (o id _ (rw (k.by_type u) l) ∙ k.by_type u)
      ∙ ap (λ hs. f u ++ hs) (o id _ (rw k.for_all (omega arith)) ∙ k.for_all)
      ∙ append-nil (f u)

  only_at_most_one : (t : Text) (h : H) (u : Text) → length (only t h u) ≤ 1
  only_at_most_one t h u = elim (Bool-cases (same t u)) [
    | inl y ↦ rw y (omega arith)
    | inr n ↦ rw n (omega arith)
  ]

  -- Who stands in the snapshot, under the id of a subscription.
  subscriber_recipients :
      (order : List (ℕ × H) → List (ℕ × H)) (before during after : List (Change H)) (t u : Text)
      (h : H)
      → IsOrder order
      → length before + length during + length after + 1 < 2 ^ 64
      → All (Spares (run before (new_event_bus {H = H})).next_id) during
      → let bus = run before new_event_bus in
        let subscribed = run during (on t h bus) in
        let ended = run after (off t bus.next_id subscribed) in
        (calls bus.next_id (recipients order u subscribed) ≡ (if same t u then h ∷ [] else []))
        × (calls bus.next_id (recipients order u ended) ≡ [])
  unfolding new_event_bus on off calls
  subscriber_recipients order before during after t u h o r s =
      let history = next_id-run before new_event_bus (omega arith) in
      let fresh =
        run-IsFresh before new_event_bus (omega arith)
          (λ id l. record { by_type = λ v. refl; for_all = refl }) in
      let later = next_id-run during (on t h bus) (omega arith) in
      let shown =
        run-Shows bus.next_id (only t h) [] during (on t h bus) (omega arith) (omega arith) s
          (on-Shows t h bus (fresh bus.next_id (omega arith))) in
      let gone =
        run-IsAbsent bus.next_id after (off t bus.next_id (run during (on t h bus))) (omega arith)
          (omega arith) (off-IsAbsent bus.next_id t h (run during (on t h bus)) shown) in
      (
        recipients-Shows order bus.next_id (only t h) _ u o (only_at_most_one t h u) shown,
        recipients-Shows order bus.next_id (λ v. []) _ u o (omega arith) gone,
      )
    where
      bus : EventBus H
      bus = run before new_event_bus

  -- The one place of a handler that is called once under its id: between `hs` and `ks`.
  abbrev pub IsPlace : ℕ → H → List (ℕ × H) → List (ℕ × H) → List (ℕ × H) → Type 0
  IsPlace id h m hs ks = (m ≡ hs ++ ((id, h) ∷ ks)) × (calls id hs ≡ []) × (calls id ks ≡ [])

  position_of :
      (id : ℕ) (h : H) (m : List (ℕ × H))
      → calls id m ≡ h ∷ []
      → (hs : List (ℕ × H)) × (ks : List (ℕ × H)) × IsPlace id h m hs ks
  unfolding calls
  position_of id h [] e = cc
  position_of id h ((i, k) ∷ m) e = elim (Bool-cases (i == id)) [
    | inl y ↦
        let (key, first, rest) : (i ≡ id) × (k ≡ h) × (calls id m ≡ []) =
          ((==_iff i id).0 y, cc (rw y at e), cc (rw y at e)) in
        ([], m, (rw (key, first) refl, refl, rest))
    | inr n ↦
        let (hs, ks, p) = position_of id h m (rw n at e) in
        ((i, k) ∷ hs, ks, (ap (λ l. (i, k) ∷ l) p.0, rw n p.1, p.2))
  ]

module _ {D W : Type 0} where
  call_each-append :
      (hs ks : List (ℕ × Handler D W)) (d : D) (w : W)
      → call_each (hs ++ ks) d w ≡ call_each ks d (call_each hs d w)
  unfolding call_each
  call_each-append [] ks d w = refl
  call_each-append ((id, h) ∷ hs) ks d w = call_each-append hs ks d (h d w).0

  call_each-IsPlace :
      (id : ℕ) (h : Handler D W) (m hs ks : List (ℕ × Handler D W)) (d : D) (w : W)
      → IsPlace id h m hs ks
      → call_each m d w ≡ call_each ks d (h d (call_each hs d w)).0
  unfolding call_each
  call_each-IsPlace id h m hs ks d w p = rw p.0 (call_each-append hs ((id, h) ∷ ks) d w)

  -- On a bus with any history, whoever subscribes to a type of events is called exactly once by each
  -- event of that type that is emitted while the subscription lasts, whatever else subscribes and
  -- unsubscribes, and whichever handlers panic: the handlers that stand before it and behind it in
  -- the walk are called too, and are none of its own. An event of another type does not call it, and
  -- neither does one that is emitted after the subscription has ended; one that was emitted before
  -- may still be on its way then. The ids of the whole history must fit 64 bits, and a walk of a map
  -- visits a single entry once.
  pub subscriber_called :
      (order : List (ℕ × Handler D W) → List (ℕ × Handler D W))
      (before during after : List (Change (Handler D W))) (t u : Text) (h : Handler D W) (d : D)
      (w : W)
      → IsOrder order
      → length before + length during + length after + 1 < 2 ^ 64
      → All (Spares (run before (new_event_bus {H = Handler D W})).next_id) during
      → let bus = run before new_event_bus in
        let subscribed = run during (on t h bus) in
        let ended = run after (off t bus.next_id subscribed) in
        ((hs : List (ℕ × Handler D W)) × (ks : List (ℕ × Handler D W)) × IsPlace bus.next_id h
            (recipients order t subscribed)
            hs
            ks
          × (emit order t d subscribed w ≡ call_each ks d (h d (call_each hs d w)).0))
        × (calls bus.next_id (recipients order u subscribed) ≡ (if same t u then h ∷ [] else []))
        × (calls bus.next_id (recipients order u ended) ≡ [])
  unfolding emit
  subscriber_called order before during after t u h d w o r s =
      let bus : EventBus (Handler D W) = run before new_event_bus in
      let own = subscriber_recipients order before during after t t h o r s in
      let (hs, ks, p) =
        position_of bus.next_id h (recipients order t (run during (on t h bus)))
          (own.0 ∙ rw (same_refl t) refl) in
      let others = subscriber_recipients order before during after t u h o r s in
      ((hs, ks, p, call_each-IsPlace bus.next_id h _ hs ks d w p), others.0, others.1)
