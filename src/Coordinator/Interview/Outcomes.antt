-- ===== src/Coordinator/Interview/Outcomes.antt =====
-- What an interview does to the store, whatever other goroutines do between its calls.
use zigbee_go_home.Base.{
  ℕ, ◌≡◌, ◌≢◌, true, false, [], ◌==◌, if◌then◌else◌, Option, none, some, map_option, ◌⊎◌,
}
use zigbee_go_home.Coordinator.Devices.{Device}
use zigbee_go_home.Coordinator.Devices.Lifecycle.{Rereading}
use zigbee_go_home.Coordinator.Interview.Untouched.{Untouched}
use zigbee_go_home.Coordinator.DeviceDb.{DeviceDb}
use zigbee_go_home.Coordinator.Interview.{World}

-- What the store promises of `UpdateDevice`: it puts what reads back of the change in the place of the
-- one device, creates none, and if it fails it changes nothing.
pub record UpdateLaws {W : Type 0} (world : World W) : Type 0 where
  pub rereading : Rereading
  pub content : W → ℕ → Option Device
  pub updated :
      (i : ℕ) (f : Device → Device) (w : W)
      → ((j : ℕ) → content (world.update_device i f w) j ≡ content w j)
        ⊎ ((j : ℕ)
            → content (world.update_device i f w) j ≡ (
                if i == j
                then map_option (λ d. rereading.reread (f d)) (content w j)
                else content w j))

-- What stays of a device.
pub record IsKept (d e : Device) : Type 0 where
  pub ieee_address : e.ieee_address ≡ d.ieee_address
  pub short_address : e.short_address ≡ d.short_address
  pub joined_at : e.joined_at ≡ d.joined_at
  pub last_seen : e.last_seen ≡ d.last_seen
  pub lqi : e.lqi ≡ d.lqi
  pub rssi : e.rssi ≡ d.rssi
  pub properties : e.properties ≡ d.properties
  pub interviewed : d.interviewed ≡ true → e.interviewed ≡ true
  pub manufacturer : d.manufacturer ≢ [] → e.manufacturer ≢ []
  pub model : d.model ≢ [] → e.model ≢ []

-- No device comes or goes; one that is there is as it was, or what reads back of it after a change
-- that keeps it.
abbrev pub AllKept : (Device → Device) → Option Device → Option Device → Type 0
AllKept reread none o = o ≡ none
AllKept reread (some d) o = (o ≡ some d) ⊎ ((e : Device) × (o ≡ some (reread e)) × IsKept d e)

module _ {W : Type 0} (world : World W) where
  -- An interview that goes on to save was not cancelled by then.
  abbrev IsLiveSave : Option Device × W → Type 0
  IsLiveSave r = (dev : Device) → r.0 ≡ some dev → world.is_done r.1 ≡ false
