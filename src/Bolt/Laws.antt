-- ===== src/Bolt/Laws.antt =====
-- The store on disk keeps the laws of the device manager's store, from what encoding/json and bbolt
-- document.
use zigbee_go_home.Base.{
  ℕ, ◌≡◌, refl, ap, sym, ◌∙◌, ◌==◌, ==_iff, if◌then◌else◌, Option, none, some, map_option,
  Option-cases, Bool-cases, inl, inr, arith,
}
use zigbee_go_home.Coordinator.Devices.{Device, Found, found, not_found, get_failed}
use zigbee_go_home.Coordinator.Devices.Lifecycle.{Rereading, StoreLaws}
use zigbee_go_home.Coordinator.Reports.Stored.{UpdateLaws}
use zigbee_go_home.Bolt.{
  Json, Bucket, put_device, save_device, read_device, get_device, update_device, delete_device,
  bolt_store,
}

-- encoding/json reads back what it has written: `reread` of the device.
pub record JsonLaws {J : Type 0} (json : Json J) : Type 0 where
  pub rereading : Rereading
  pub read_back :
      (d : Device) (text : J)
      → json.marshal d ≡ some text
      → json.unmarshal text ≡ some (rereading.reread d)

-- bbolt: a write that is committed changes one key.
pub record BucketLaws {J B : Type 0} (bucket : Bucket J B) : Type 0 where
  pub get_put :
      (i j : ℕ) (text : J) (b c : B)
      → bucket.put i text b ≡ some c
      → bucket.get_entry j c ≡ (if i == j then some text else bucket.get_entry j b)
  pub get_delete :
      (i j : ℕ) (b c : B)
      → bucket.delete i b ≡ some c
      → bucket.get_entry j c ≡ (if i == j then none else bucket.get_entry j b)

module _ {J B : Type 0} (json : Json J) (bucket : Bucket J B) (json_laws : JsonLaws json)
    (bucket_laws : BucketLaws bucket) where
  abbrev unmarshalled : Option J → Option Device
  unmarshalled none = none
  unmarshalled (some text) = json.unmarshal text

  -- The device that reads from a key.
  abbrev pub content_of : B → ℕ → Option Device
  content_of b i = unmarshalled (bucket.get_entry i b)

  read_device-found :
      (o : Option J) (d : Device) → read_device json bucket o ≡ found d → unmarshalled o ≡ some d
  unfolding read_device
  read_device-found none d e = cc
  read_device-found (some text) d e = elim (Option-cases (json.unmarshal text)) [
    | inl q ↦ cc (rw (q, read_device) at e)
    | inr (x, q) ↦ ground (arith, q, rw (q, read_device) at e)
  ]

  read_device-missing :
      (o : Option J) → read_device json bucket o ≡ not_found → unmarshalled o ≡ none
  unfolding read_device
  read_device-missing none e = refl
  read_device-missing (some text) e = elim (Option-cases (json.unmarshal text)) [
    | inl q ↦ q
    | inr (x, q) ↦ cc (rw (q, read_device) at e)
  ]

  pub get_device-found :
      (i : ℕ) (b : B) (d : Device) → get_device json bucket i b ≡ found d → content_of b i ≡ some d
  unfolding get_device
  get_device-found i b d e = elim (Bool-cases (bucket.is_open b)) [
    | inl y ↦ read_device-found (bucket.get_entry i b) d (rw y at e)
    | inr n ↦ cc (rw n at e)
  ]

  pub get_device-missing :
      (i : ℕ) (b : B) → get_device json bucket i b ≡ not_found → content_of b i ≡ none
  unfolding get_device
  get_device-missing i b e = elim (Bool-cases (bucket.is_open b)) [
    | inl y ↦ read_device-missing (bucket.get_entry i b) (rw y at e)
    | inr n ↦ cc (rw n at e)
  ]

  content-put_device :
      (i j : ℕ) (d : Device) (b c : B)
      → put_device json bucket i d b ≡ some c
      → content_of c j ≡ (if i == j then some (json_laws.rereading.reread d) else content_of b j)
  unfolding put_device
  content-put_device i j d b c e = elim (Option-cases (json.marshal d)) [
    | inl q ↦ cc (rw (q, put_device) at e)
    | inr (text, q) ↦
        let put = bucket_laws.get_put i j text b c (rw (q, put_device) at e) in
        elim (Bool-cases (i == j)) [
          | inl y ↦ rw (put, y) (json_laws.read_back d text q)
          | inr n ↦ rw (put, n) refl
        ]
  ]

  pub content-save_device :
      (d : Device) (b c : B) (j : ℕ)
      → save_device json bucket d b ≡ some c
      → content_of c j
        ≡ (if d.ieee_address == j then some (json_laws.rereading.reread d) else content_of b j)
  unfolding save_device
  content-save_device d b c j e = elim (Bool-cases (bucket.is_open b)) [
    | inl y ↦ content-put_device d.ieee_address j d b c (rw y at e)
    | inr n ↦ cc (rw n at e)
  ]

  pub content-delete_device :
      (i : ℕ) (b c : B) (j : ℕ)
      → delete_device json bucket i b ≡ some c
      → content_of c j ≡ (if i == j then none else content_of b j)
  unfolding delete_device
  content-delete_device i b c j e = elim (Bool-cases (bucket.is_open b)) [
    | inr n ↦ cc (rw n at e)
    | inl y ↦
        let gone = bucket_laws.get_delete i j b c (rw y at e) in
        elim (Bool-cases (i == j)) [ inl z ↦ rw (gone, z) refl | inr n ↦ rw (gone, n) refl ]
  ]

  pub content-update_device :
      (i : ℕ) (f : Device → Device) (b c : B) (j : ℕ)
      → update_device json bucket i f b ≡ some c
      → content_of c j ≡ (
          if i == j
          then map_option (λ d. json_laws.rereading.reread (f d)) (content_of b j)
          else content_of b j)
  unfolding update_device
  content-update_device i f b c j e = after (get_device json bucket i b) refl e
    where
      after :
          (o : Found)
          → get_device json bucket i b ≡ o
          → (elim o [
            | found d ↦ put_device json bucket i (f d) b
            | not_found ↦ none
            | get_failed ↦ none
          ])
            ≡ some c
          → content_of c j ≡ (
              if i == j
              then map_option (λ d. json_laws.rereading.reread (f d)) (content_of b j)
              else content_of b j)
      after (found d) q h = elim (Bool-cases (i == j)) [
        | inl y ↦
            let read = get_device-found i b d q in
            let there : content_of b j ≡ some d =
              ap (content_of b) (sym ((==_iff i j).0 y)) ∙ read in
            content-put_device i j (f d) b c h ∙ rw (y, there) refl
        | inr n ↦ content-put_device i j (f d) b c h ∙ rw n refl
      ]
      after not_found q h = cc
      after get_failed q h = cc

  unfoldable pub bolt_laws : StoreLaws (bolt_store json bucket)
  bolt_laws = record {
    rereading = json_laws.rereading;
    content = content_of;
    get_found = get_device-found;
    get_missing = get_device-missing;
    saved = content-save_device;
    deleted = content-delete_device;
  }

  unfoldable pub bolt_update_laws : UpdateLaws (bolt_store json bucket) (update_device json bucket)
  unfolding bolt_laws
  bolt_update_laws = record { laws = bolt_laws; updated = content-update_device }
