-- ===== src/Coordinator/Events.antt =====
-- internal/coordinator/events.go: the event bus. A subscription's handler is called under its id; the
-- function that ends it removes that id. The mutex orders the changes of the bus one after the other.
pub mod Changes
pub mod Delivery
use zigbee_go_home.Base.{ℕ, ◌+◌, ◌%◌, ◌^◌, Bool, List, [], ◌∷◌, ◌++◌, if◌then◌else◌}
use zigbee_go_home.Base.Texts.{Text, same}
use zigbee_go_home.Coordinator.Devices.{set_key, remove_key}

-- A missing table of a type is the empty one: the source reads and deletes from either alike.
pub record EventBus (H : Type 0) : Type 0 where
  pub handlers : Text → List (ℕ × H)
  pub all_handlers : List (ℕ × H)
  pub next_id : ℕ

unfoldable pub new_event_bus : {H : Type 0} → EventBus H
new_event_bus = record { handlers = λ t. []; all_handlers = []; next_id = 0 }

-- A handler changes the world and tells whether it panicked.
abbrev pub Handler : Type 0 → Type 0 → Type 0
Handler D W = D → W → W × Bool

module _ {H : Type 0} where
  -- `On` and `OnAll`; the id of the new subscription is the bus's `next_id`.
  unfoldable pub on : Text → H → EventBus H → EventBus H
  on t h b = record b {
    handlers = λ u. if same t u then set_key b.next_id h (b.handlers u) else b.handlers u;
    next_id = (b.next_id + 1) % 2 ^ 64;
  }

  unfoldable pub on_all : H → EventBus H → EventBus H
  on_all h b = record b {
    all_handlers = set_key b.next_id h b.all_handlers;
    next_id = (b.next_id + 1) % 2 ^ 64;
  }

  -- What the functions that they return do.
  unfoldable pub off : Text → ℕ → EventBus H → EventBus H
  off t id b = record b {
    handlers = λ u. if same t u then remove_key id (b.handlers u) else b.handlers u;
  }

  unfoldable pub off_all : ℕ → EventBus H → EventBus H
  off_all id b = record b { all_handlers = remove_key id b.all_handlers }

  -- The snapshot that `Emit` takes of both tables; `order` is the order in which Go walks a map.
  unfoldable pub recipients : (List (ℕ × H) → List (ℕ × H)) → Text → EventBus H → List (ℕ × H)
  recipients order t b = order (b.handlers t) ++ order b.all_handlers

module _ {D W : Type 0} where
  -- A panic is recovered and logged, and the next handler is called.
  unfoldable pub call_each : List (ℕ × Handler D W) → D → W → W
  call_each [] d w = w
  call_each ((id, h) ∷ hs) d w = call_each hs d (h d w).0

  unfoldable pub emit :
      (List (ℕ × Handler D W) → List (ℕ × Handler D W)) → Text → D → EventBus (Handler D W) → W → W
  emit order t d b w = call_each (recipients order t b) d w
