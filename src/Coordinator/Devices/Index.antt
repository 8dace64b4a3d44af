-- ===== src/Coordinator/Devices/Index.antt =====
-- The address index and the times of the last joins.
use zigbee_go_home.Base.{ℕ, ◌+◌, ◌≤◌, ◌≡◌, ◌≢◌, refl, List, [], ◌∷◌, length, All, none, some, arith}
use zigbee_go_home.Coordinator.Devices.{
  get_key, remove_key, set_key, remove_first_of, last_join_cache_cap, recent, evict,
}

module _ {ℓ} {V : Type ℓ} where
  pub get_key-remove_key_other :
      (k j : ℕ) (m : List (ℕ × V)) → k ≢ j → get_key j (remove_key k m) ≡ get_key j m
  unfolding get_key remove_key
  get_key-remove_key_other k j [] ne = refl
  get_key-remove_key_other k j ((i, v) ∷ m) ne = ground (arith, get_key-remove_key_other k j m)

  pub get_key-remove_key : (k : ℕ) (m : List (ℕ × V)) → get_key k (remove_key k m) ≡ none
  unfolding get_key remove_key
  get_key-remove_key k [] = refl
  get_key-remove_key k ((i, v) ∷ m) = ground (arith, get_key-remove_key k m)

  pub get_key-set_key : (k : ℕ) (v : V) (m : List (ℕ × V)) → get_key k (set_key k v m) ≡ some v
  unfolding get_key set_key
  get_key-set_key k v m = ground arith

  pub get_key-set_key_other :
      (k j : ℕ) (v : V) (m : List (ℕ × V)) → k ≢ j → get_key j (set_key k v m) ≡ get_key j m
  unfolding get_key set_key
  get_key-set_key_other k j v m ne = ground (arith, get_key-remove_key_other k j m)

  pub length-remove_key : (k : ℕ) (m : List (ℕ × V)) → length (remove_key k m) ≤ length m
  unfolding remove_key
  length-remove_key k [] = omega arith
  length-remove_key k ((i, v) ∷ m) = ground (arith, length-remove_key k m)

module _ {ℓ} {V : Type ℓ} where
  pub length-set_key : (k : ℕ) (v : V) (m : List (ℕ × V)) → length (set_key k v m) ≤ length m + 1
  unfolding set_key
  length-set_key k v m = omega (arith, length-remove_key k m)

-- No entry of the device is left.
abbrev pub IsGone : ℕ → List (ℕ × ℕ) → Type 0
IsGone ieee = All (λ e. e.1 ≢ ieee)

-- The device has one entry at most.
abbrev pub IsOnce : ℕ → List (ℕ × ℕ) → Type 0
IsOnce ieee [] = Unit {0}
IsOnce ieee ((a, i) ∷ m) = (i ≡ ieee → IsGone ieee m) × IsOnce ieee m

pub remove_first_of-IsGone :
    (ieee : ℕ) (m : List (ℕ × ℕ)) → IsOnce ieee m → IsGone ieee (remove_first_of ieee m)
unfolding remove_first_of
remove_first_of-IsGone ieee [] h = tt
remove_first_of-IsGone ieee ((a, i) ∷ m) (once, h) =
    ground (arith, remove_first_of-IsGone ieee m h, once)

pub get_key-IsGone : (ieee a : ℕ) (m : List (ℕ × ℕ)) → IsGone ieee m → get_key a m ≢ some ieee
unfolding get_key
get_key-IsGone ieee a [] h = λ e. cc
get_key-IsGone ieee a ((b, i) ∷ m) (ne, h) = ground (arith, get_key-IsGone ieee a m h)

length-recent : (now : ℕ) (m : List (ℕ × ℕ)) → length (recent now m) ≤ length m
unfolding recent
length-recent now [] = omega arith
length-recent now ((i, t) ∷ m) = ground (arith, length-recent now m)

-- The cache of join times does not outgrow its cap.
pub evict-length :
    (now ieee : ℕ) (m : List (ℕ × ℕ)) → length (evict now ieee m) ≤ last_join_cache_cap
unfolding evict
evict-length now ieee m = ground arith

pub evict_small :
    (now ieee : ℕ) (m : List (ℕ × ℕ)) → length m ≤ last_join_cache_cap → evict now ieee m ≡ m
unfolding evict
evict_small now ieee m h = ground arith

-- The device that has just been entered stays.
pub get_key-evict :
    (now ieee : ℕ) (m : List (ℕ × ℕ))
    → get_key ieee (evict now ieee (set_key ieee now m)) ≡ some now
unfolding get_key set_key evict recent
get_key-evict now ieee m = ground arith
