-- ===== src/Coordinator/Devices/Announce.antt =====
-- What announcements do to the interviews: the debounce and the cache of join times.
use zigbee_go_home.Base.{
  ℕ, ◌+◌, ◌*◌, ◌≤◌, ◌<◌, ◌≡◌, ◌≢◌, false, List, [], ◌∷◌, ◌++◌, length, All, some,
}
use zigbee_go_home.Coordinator.Devices.{
  Store, get_key, set_key, Manager, second, evict, is_debounced, handle_announce, handle_join,
  handle_leave,
}

-- What an announcement does to the interviews: nothing, or it starts one.
data Announced (now ieee : ℕ) {S : Type 0} (m n : Manager S) : Type 0 where
  quiet : n.started ≡ m.started → n.last_join ≡ m.last_join → Announced now ieee m n
  starts :
      is_debounced now (get_key ieee m.last_join) ≡ false
      → n.started ≡ m.started ++ (ieee ∷ [])
      → n.last_join ≡ evict now ieee (set_key ieee now m.last_join)
      → Announced now ieee m n

-- What happens next: a join, an announcement or a leave, with its time.
pub data Step : Type 0 where
  join announce : ℕ → ℕ → ℕ → Step
  leave : ℕ → Step

-- Until three seconds after `now`, and not a leave of the device.
abbrev pub IsWithin : ℕ → ℕ → Step → Type 0
IsWithin now ieee (join t i short) = Unit {0}
IsWithin now ieee (announce t i short) = (now ≤ t) × (t < now + 3 * second)
IsWithin now ieee (leave i) = i ≢ ieee

module _ {S : Type 0} (ops : Store S) where
  unfoldable pub take_step : Step → Manager S → Manager S
  take_step (join t i short) m = handle_join ops t i short m
  take_step (announce t i short) m = handle_announce ops t i short m
  take_step (leave i) m = handle_leave ops i m

  unfoldable pub take_steps : List Step → Manager S → Manager S
  take_steps [] m = m
  take_steps (st ∷ sts) m = take_steps sts (take_step st m)

  -- The interviews that were started since are of other devices.
  abbrev pub StartsOthers : ℕ → Manager S → Manager S → Type 0
  StartsOthers ieee m n =
      (others : List ℕ) × (n.started ≡ m.started ++ others) × All (λ i. i ≢ ieee) others

  -- The cache holds the time of the device, and at most `k` entries.
  abbrev Holds : ℕ → ℕ → ℕ → Manager S → Type 0
  Holds now ieee k m = (get_key ieee m.last_join ≡ some now) × (length m.last_join ≤ k)

  After : ℕ → ℕ → ℕ → Manager S → Manager S → Type 0
  After now ieee k m n = Holds now ieee k n × StartsOthers ieee m n
