-- ===== src/Coordinator/Examples/Events.antt =====
-- A bus with an earlier subscriber, and one that comes and goes.
use zigbee_go_home.Base.{ℕ, ◌≡◌, refl, List, [], ◌∷◌, Bool, true, false, if◌then◌else◌, arith}
use zigbee_go_home.Base.Texts.{ascii, same}
use zigbee_go_home.Coordinator.Devices.{set_key, remove_key}
use zigbee_go_home.Coordinator.Events.{
  Handler, new_event_bus, on, off, on_all, recipients, call_each, emit,
}
use zigbee_go_home.Coordinator.Events.Changes.{
  Change, subscribe, subscribe_all, unsubscribe, unsubscribe_all, apply, run, calls,
}
use zigbee_go_home.Coordinator.Events.Delivery.{IsPlace, subscriber_called}

-- A handler that notes its number.
abbrev noted : ℕ → Bool → Handler ℕ (List ℕ)
noted n fails d w = ((n ∷ w), fails)

abbrev earlier : List (Change (Handler ℕ (List ℕ)))
earlier = subscribe (ascii "device_left") (noted 10 true) ∷ subscribe_all (noted 11 true) ∷ []

abbrev meanwhile : List (Change (Handler ℕ (List ℕ)))
meanwhile =
    subscribe (ascii "device_left") (noted 12 false) ∷ unsubscribe (ascii "device_left") 0 ∷ []

abbrev later : List (Change (Handler ℕ (List ℕ)))
later = unsubscribe_all 1 ∷ subscribe (ascii "device_left") (noted 13 false) ∷ []

subscriber_called_example :
    let bus = run earlier new_event_bus in
    let subscribed = run meanwhile (on (ascii "device_left") (noted 99 false) bus) in
    let ended = run later (off (ascii "device_left") bus.next_id subscribed) in
    ((hs : List (ℕ × Handler ℕ (List ℕ))) × (ks : List (ℕ × Handler ℕ (List ℕ))) × IsPlace
        bus.next_id
        (noted 99 false)
        (recipients (λ m. m) (ascii "device_left") subscribed)
        hs
        ks
      × (emit (λ m. m) (ascii "device_left") 5 subscribed []
          ≡ call_each ks 5 (noted 99 false 5 (call_each hs 5 [])).0))
    × (calls bus.next_id (recipients (λ m. m) (ascii "device_joined") subscribed)
        ≡ (if same (ascii "device_left") (ascii "device_joined") then noted 99 false ∷ [] else []))
    × (calls bus.next_id (recipients (λ m. m) (ascii "device_joined") ended) ≡ [])
unfolding run apply new_event_bus on on_all
subscriber_called_example =
    subscriber_called (λ m. m) earlier meanwhile later (ascii "device_left") (ascii "device_joined")
      (noted 99 false) 5 [] (λ id m l. refl) (omega arith) (tt, ((λ e. omega arith), tt))

-- The second handler is called although the first one panics.
panic_recovered :
    emit
      (λ m. m)
      (ascii "a")
      0
      (on_all (noted 2 false) (on (ascii "a") (noted 1 true) new_event_bus))
      []
    ≡ 2 ∷ 1 ∷ []
unfolding emit call_each recipients on on_all new_event_bus set_key remove_key same
panic_recovered = refl
