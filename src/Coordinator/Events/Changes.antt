-- ===== src/Coordinator/Events/Changes.antt =====
-- The changes of the event bus, and what each leaves of the calls under an id.
use zigbee_go_home.Base.{
  ℕ, ◌+◌, ◌^◌, ◌≤◌, ◌<◌, ◌≡◌, ◌≢◌, refl, ◌∙◌, Bool, true, false, List, [], ◌∷◌, ◌++◌, ◌==◌, length,
  All, if◌then◌else◌, arith, Bool-cases, inl, inr,
}
use zigbee_go_home.Base.Texts.{Text, same}
use zigbee_go_home.Coordinator.Devices.{set_key, remove_key}
use zigbee_go_home.Coordinator.Events.{EventBus, on, on_all, off, off_all}

-- One change of the bus.
pub data Change (H : Type 0) : Type 0 where
  subscribe : Text → H → Change H
  subscribe_all : H → Change H
  unsubscribe : Text → ℕ → Change H
  unsubscribe_all : ℕ → Change H

module _ {H : Type 0} where
  unfoldable pub apply : Change H → EventBus H → EventBus H
  apply (subscribe t h) b = on t h b
  apply (subscribe_all h) b = on_all h b
  apply (unsubscribe t id) b = off t id b
  apply (unsubscribe_all id) b = off_all id b

  unfoldable pub run : List (Change H) → EventBus H → EventBus H
  run [] b = b
  run (c ∷ cs) b = run cs (apply c b)

  -- The change does not end the subscription.
  abbrev pub Spares : ℕ → Change H → Type 0
  Spares id (subscribe t h) = Unit {0}
  Spares id (subscribe_all h) = Unit {0}
  Spares id (unsubscribe t i) = i ≢ id
  Spares id (unsubscribe_all i) = i ≢ id

  -- The handlers that are called under an id, in order.
  unfoldable pub calls : ℕ → List (ℕ × H) → List H
  calls id [] = []
  calls id ((i, h) ∷ m) = let later = calls id m in if i == id then h ∷ later else later

  -- A walk of a map that has the key once at most calls it as often.
  abbrev pub IsOrder : (List (ℕ × H) → List (ℕ × H)) → Type 0
  IsOrder order =
      (id : ℕ) (m : List (ℕ × H)) → length (calls id m) ≤ 1 → calls id (order m) ≡ calls id m

  pub calls-append : (id : ℕ) (m n : List (ℕ × H)) → calls id (m ++ n) ≡ calls id m ++ calls id n
  unfolding calls
  calls-append id [] n = refl
  calls-append id ((i, h) ∷ m) n = elim (Bool-cases (i == id)) [
    | inl y ↦ rw (y, calls-append id m n) refl
    | inr z ↦ rw (z, calls-append id m n) refl
  ]

  pub calls-remove_key : (id : ℕ) (m : List (ℕ × H)) → calls id (remove_key id m) ≡ []
  unfolding calls remove_key
  calls-remove_key id [] = refl
  calls-remove_key id ((i, h) ∷ m) = ground (arith, calls-remove_key id m)

  calls-remove_key_other :
      (k id : ℕ) (m : List (ℕ × H)) → k ≢ id → calls id (remove_key k m) ≡ calls id m
  unfolding calls remove_key
  calls-remove_key_other k id [] ne = refl
  calls-remove_key_other k id ((i, h) ∷ m) ne = ground (arith, calls-remove_key_other k id m)

  calls-remove_key_none :
      (k id : ℕ) (m : List (ℕ × H)) → calls id m ≡ [] → calls id (remove_key k m) ≡ []
  unfolding calls remove_key
  calls-remove_key_none k id [] e = refl
  calls-remove_key_none k id ((i, h) ∷ m) e = ground (arith, calls-remove_key_none k id m)

  pub calls-set_key : (id : ℕ) (h : H) (m : List (ℕ × H)) → calls id (set_key id h m) ≡ h ∷ []
  unfolding calls set_key
  calls-set_key id h m = ground (arith, calls-remove_key id m)

  calls-set_key_other :
      (k id : ℕ) (h : H) (m : List (ℕ × H)) → k ≢ id → calls id (set_key k h m) ≡ calls id m
  unfolding calls set_key
  calls-set_key_other k id h m ne = ground (arith, calls-remove_key_other k id m)

  -- Under an id the tables of the types call what `f` says, and the table for all types calls `g`.
  pub record Shows (id : ℕ) (f : Text → List H) (g : List H) (b : EventBus H) : Type 0 where
    pub by_type : (u : Text) → calls id (b.handlers u) ≡ f u
    pub for_all : calls id b.all_handlers ≡ g

  abbrev pub IsAbsent : ℕ → EventBus H → Type 0
  IsAbsent id b = Shows id (λ u. []) [] b

  -- The change does not give out the id.
  abbrev Avoids : ℕ → Change H → EventBus H → Type 0
  Avoids id (subscribe t h) b = b.next_id ≢ id
  Avoids id (subscribe_all h) b = b.next_id ≢ id
  Avoids id (unsubscribe t i) b = Unit {0}
  Avoids id (unsubscribe_all i) b = Unit {0}

  -- A table that one type's change leaves as it shows.
  changed_for :
      (id : ℕ) (x : Bool) (m n : List (ℕ × H)) (hs : List H)
      → calls id m ≡ hs
      → calls id n ≡ hs
      → calls id (if x then m else n) ≡ hs
  changed_for id true m n hs p q = p
  changed_for id false m n hs p q = q

  apply-Shows :
      (id : ℕ) (f : Text → List H) (g : List H) (c : Change H) (b : EventBus H)
      → Avoids id c b
      → Spares id c
      → Shows id f g b
      → Shows id f g (apply c b)
  unfolding apply on on_all off off_all
  apply-Shows id f g (subscribe t h) b a s k = record {
    by_type = λ u.
        changed_for id (same t u) _ _ (f u)
          (calls-set_key_other b.next_id id h (b.handlers u) a ∙ k.by_type u) (k.by_type u);
    for_all = k.for_all;
  }
  apply-Shows id f g (subscribe_all h) b a s k = record {
    by_type = k.by_type;
    for_all = calls-set_key_other b.next_id id h b.all_handlers a ∙ k.for_all;
  }
  apply-Shows id f g (unsubscribe t i) b a s k = record {
    by_type = λ u.
        changed_for id (same t u) _ _ (f u)
          (calls-remove_key_other i id (b.handlers u) s ∙ k.by_type u) (k.by_type u);
    for_all = k.for_all;
  }
  apply-Shows id f g (unsubscribe_all i) b a s k = record {
    by_type = k.by_type;
    for_all = calls-remove_key_other i id b.all_handlers s ∙ k.for_all;
  }

  apply-IsAbsent :
      (id : ℕ) (c : Change H) (b : EventBus H)
      → Avoids id c b
      → IsAbsent id b
      → IsAbsent id (apply c b)
  unfolding apply off off_all
  apply-IsAbsent id (subscribe t h) b a k = apply-Shows id _ [] (subscribe t h) b a tt k
  apply-IsAbsent id (subscribe_all h) b a k = apply-Shows id _ [] (subscribe_all h) b a tt k
  apply-IsAbsent id (unsubscribe t i) b a k = record {
    by_type = λ u.
        changed_for id (same t u) _ _ [] (calls-remove_key_none i id (b.handlers u) (k.by_type u))
          (k.by_type u);
    for_all = k.for_all;
  }
  apply-IsAbsent id (unsubscribe_all i) b a k = record {
    by_type = k.by_type;
    for_all = calls-remove_key_none i id b.all_handlers k.for_all;
  }

  -- The ids only grow, by one at most.
  next_id-apply :
      (c : Change H) (b : EventBus H)
      → b.next_id + 1 < 2 ^ 64
      → (b.next_id ≤ (apply c b).next_id) × ((apply c b).next_id ≤ b.next_id + 1)
  unfolding apply on on_all off off_all
  next_id-apply (subscribe t h) b r = (omega arith, omega arith)
  next_id-apply (subscribe_all h) b r = (omega arith, omega arith)
  next_id-apply (unsubscribe t i) b r = (omega arith, omega arith)
  next_id-apply (unsubscribe_all i) b r = (omega arith, omega arith)

  below-Avoids : (id : ℕ) (c : Change H) (b : EventBus H) → id < b.next_id → Avoids id c b
  below-Avoids id (subscribe t h) b l = λ e. omega arith
  below-Avoids id (subscribe_all h) b l = λ e. omega arith
  below-Avoids id (unsubscribe t i) b l = tt
  below-Avoids id (unsubscribe_all i) b l = tt

  fresh-Avoids :
      (id : ℕ) (c : Change H) (b : EventBus H)
      → b.next_id + 1 < 2 ^ 64
      → (apply c b).next_id ≤ id
      → Avoids id c b
  unfolding apply on on_all
  fresh-Avoids id (subscribe t h) b r l = λ e. omega arith
  fresh-Avoids id (subscribe_all h) b r l = λ e. omega arith
  fresh-Avoids id (unsubscribe t i) b r l = tt
  fresh-Avoids id (unsubscribe_all i) b r l = tt

  pub run-Shows :
      (id : ℕ) (f : Text → List H) (g : List H) (cs : List (Change H)) (b : EventBus H)
      → id < b.next_id
      → b.next_id + length cs < 2 ^ 64
      → All (Spares id) cs
      → Shows id f g b
      → Shows id f g (run cs b)
  unfolding run
  run-Shows id f g [] b l r s k = k
  run-Shows id f g (c ∷ cs) b l r s k =
      let grows = next_id-apply c b (omega arith) in
      run-Shows id f g cs (apply c b) (omega arith) (omega arith) s.1
        (apply-Shows id f g c b (below-Avoids id c b l) s.0 k)

  pub run-IsAbsent :
      (id : ℕ) (cs : List (Change H)) (b : EventBus H)
      → id < b.next_id
      → b.next_id + length cs < 2 ^ 64
      → IsAbsent id b
      → IsAbsent id (run cs b)
  unfolding run
  run-IsAbsent id [] b l r k = k
  run-IsAbsent id (c ∷ cs) b l r k =
      let grows = next_id-apply c b (omega arith) in
      run-IsAbsent id cs (apply c b) (omega arith) (omega arith)
        (apply-IsAbsent id c b (below-Avoids id c b l) k)

  -- Ids that have not been given out are absent.
  abbrev pub IsFresh : EventBus H → Type 0
  IsFresh b = (id : ℕ) → b.next_id ≤ id → IsAbsent id b

  pub next_id-run :
      (cs : List (Change H)) (b : EventBus H)
      → b.next_id + length cs < 2 ^ 64
      → (b.next_id ≤ (run cs b).next_id) × ((run cs b).next_id ≤ b.next_id + length cs)
  unfolding run
  next_id-run [] b r = (omega arith, omega arith)
  next_id-run (c ∷ cs) b r =
      let grows = next_id-apply c b (omega arith) in
      let later = next_id-run cs (apply c b) (omega arith) in (omega arith, omega arith)

  pub run-IsFresh :
      (cs : List (Change H)) (b : EventBus H)
      → b.next_id + length cs < 2 ^ 64
      → IsFresh b
      → IsFresh (run cs b)
  unfolding run
  run-IsFresh [] b r k = k
  run-IsFresh (c ∷ cs) b r k =
      let grows = next_id-apply c b (omega arith) in
      run-IsFresh cs (apply c b) (omega arith)
        (λ id l. apply-IsAbsent id c b (fresh-Avoids id c b (omega arith) l) (k id (omega arith)))
