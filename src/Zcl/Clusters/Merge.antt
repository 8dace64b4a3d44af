-- ===== src/Zcl/Clusters/Merge.antt =====
-- A merge keeps what is defined and adds what is missing, and the registry answers with the first
-- definition that was registered.
use zigbee_go_home.Base.{
  ℕ, ◌≡◌, ◌≢◌, refl, ap₂, ◌∙◌, Bool, true, false, List, [], ◌∷◌, ◌++◌, ◌==◌, if◌then◌else◌, Option,
  none, some, Option-cases, Bool-cases, inl, inr, All, All-map, arith,
}
use zigbee_go_home.Base.Texts.{Text, same_refl, same-true}
use zigbee_go_home.Zcl.Clusters.{
  AttributeDef, ClusterDef, find, has_id, has_key, find_attribute, find_command, add_missing, merge,
  Registry, new_registry, registered, register, get,
}

-- The first answer, or else the second.
abbrev pub or_else {ℓ} : {A : Type ℓ} → Option A → Option A → Option A
or_else none b = b
or_else (some a) b = some a

module _ {ℓ} {A : Type ℓ} where
  pub or_else_assoc : (a b c : Option A) → or_else (or_else a b) c ≡ or_else a (or_else b c)
  or_else_assoc none b c = refl
  or_else_assoc (some a) b c = refl

  find-append :
      (p : A → Bool) (xs ys : List A) → find p (xs ++ ys) ≡ or_else (find p xs) (find p ys)
  unfolding find
  find-append p [] ys = refl
  find-append p (x ∷ xs) ys = ground (arith, find-append p xs ys)

  -- An entry that passes the test, of an entry that is found.
  find_implied :
      (p q : A → Bool) (xs : List A) (y : A)
      → ((x : A) → p x ≡ true → q x ≡ true)
      → find p xs ≡ some y
      → (z : A) × (find q xs ≡ some z)
  unfolding find
  find_implied p q [] y h e = ground arith
  find_implied p q (x ∷ xs) y h e = elim (Bool-cases (q x)) [
    | inl t ↦ (x, ground arith)
    | inr f ↦
        let not_p : p x ≡ false = ground (arith, h x) in
        let (z, eq) = find_implied p q xs y h (ground arith) in (z, ground arith)
  ]

  -- `query` looks for a key, and agrees on entries of the same key.
  abbrev pub Agrees : (A → A → Bool) → (A → Bool) → Type ℓ
  Agrees test query = (x y : A) → test x y ≡ true → query x ≡ true → query y ≡ true

  find-add_missing :
      (test : A → A → Bool) (query : A → Bool) (new current : List A)
      → Agrees test query
      → find query (add_missing test new current) ≡ or_else (find query current) (find query new)
  unfolding find add_missing
  find-add_missing test query [] current h = ground arith
  find-add_missing test query (x ∷ xs) current h = elim (Option-cases (find (test x) current)) [
    | inl e ↦
        rw (e, add_missing)
          (find-add_missing test query xs (current ++ (x ∷ [])) h
            ∙ ground (arith, find-append query current (x ∷ [])))
    | inr (y, e) ↦
        rw (e, add_missing)
          (find-add_missing test query xs current h ∙ elim (Bool-cases (query x)) [
            | inl t ↦
                let (z, found) = find_implied (test x) query current y (λ w m. h x w m t) e in
                ground arith
            | inr f ↦ ground arith
          ])
  ]

  -- Nothing is missing from a list that has every entry already.
  add_missing_settled :
      (test : A → A → Bool) (new current : List A)
      → All (λ x. find (test x) current ≢ none) new
      → add_missing test new current ≡ current
  unfolding add_missing
  add_missing_settled test [] current h = refl
  add_missing_settled test (x ∷ xs) current h = elim (Option-cases (find (test x) current)) [
    | inl e ↦ absurd (h.0 e)
    | inr (y, e) ↦ rw (e, add_missing) (add_missing_settled test xs current h.1)
  ]

  -- Every entry of a list is found in it.
  entries_there :
      (test : A → A → Bool) (xs : List A)
      → ((x : A) → test x x ≡ true)
      → All (λ x. find (test x) xs ≢ none) xs
  unfolding find
  entries_there test [] self = tt
  entries_there test (x ∷ xs) self = (
    λ e. ground (arith, self x),
    All-map xs (λ y found e. ground (arith, found)) (entries_there test xs self),
  )

  -- To add the same entries again changes nothing.
  add_missing_again :
      (test : A → A → Bool) (new current : List A)
      → ((x : A) → Agrees test (test x))
      → ((x : A) → test x x ≡ true)
      → add_missing test new (add_missing test new current) ≡ add_missing test new current
  add_missing_again test new current agrees self =
      add_missing_settled test new (add_missing test new current) (
        All-map new
          (λ x found e.
            found (ground (arith, find-add_missing test (test x) new current (agrees x))))
          (entries_there test new self))

has_id-Agrees : (id : ℕ) → Agrees (λ a. has_id a.id) (has_id id)
has_id-Agrees id a b t q = ground arith

has_key-Agrees :
    (id : ℕ) (direction : Text) → Agrees (λ c. has_key c.id c.direction) (has_key id direction)
has_key-Agrees id direction c d t q = ground (
  arith,
  same-true d.direction c.direction,
  same-true c.direction direction,
  same_refl d.direction,
)

-- After a merge, an attribute or a command is the one that the cluster had before, or else the
-- first that the other definition has; and to merge the same definition again changes nothing.
pub merge_keeps_and_adds :
    (c other : ClusterDef) (id : ℕ) (direction : Text)
    → (find_attribute id (merge c other) ≡ or_else (find_attribute id c) (find_attribute id other))
      × (find_command id direction (merge c other)
          ≡ or_else (find_command id direction c) (find_command id direction other))
      × (merge (merge c other) other ≡ merge c other)
unfolding merge find_attribute find_command
merge_keeps_and_adds c other id direction = (
  find-add_missing _ (has_id id) other.attributes c.attributes (has_id-Agrees id),
  find-add_missing _ (has_key id direction) other.commands c.commands (has_key-Agrees id direction),
  ap₂ (λ attributes commands. record c { attributes = attributes; commands = commands })
      (add_missing_again _ other.attributes c.attributes (λ a. has_id-Agrees a.id)
        (λ a. ground arith))
      (add_missing_again _ other.commands c.commands (λ d. has_key-Agrees d.id d.direction)
        (λ d. ground (arith, same_refl d.direction))),
)

-- Definitions that are registered in order.
unfoldable pub register_all : List ClusterDef → Registry → Registry
register_all [] r = r
register_all (c ∷ cs) r = register_all cs (register c r)

-- The attribute that the first definition of a cluster gives, of those that have it.
unfoldable pub first_defined : ℕ → ℕ → List ClusterDef → Option AttributeDef
first_defined cluster id [] = none
first_defined cluster id (c ∷ cs) =
    let rest = first_defined cluster id cs in
    if c.id == cluster then or_else (find_attribute id c) rest else rest

abbrev attribute_in : ℕ → Option ClusterDef → Option AttributeDef
attribute_in id none = none
attribute_in id (some c) = find_attribute id c

abbrev pub registered_attribute : ℕ → ℕ → Registry → Option AttributeDef
registered_attribute cluster id r = attribute_in id (get cluster r)

attribute_in-registered :
    (id : ℕ) (c : ClusterDef) (b : Bool) (o : Option ClusterDef)
    → attribute_in id (if b then registered c o else o)
      ≡ or_else (attribute_in id o) (if b then find_attribute id c else none)
unfolding registered
attribute_in-registered id c true none = refl
attribute_in-registered id c true (some d) = (merge_keeps_and_adds d c id []).0
attribute_in-registered id c false none = refl
attribute_in-registered id c false (some d) = ground arith

register_adds :
    (cluster id : ℕ) (c : ClusterDef) (r : Registry)
    → registered_attribute cluster id (register c r)
      ≡ or_else
          (registered_attribute cluster id r)
          (if c.id == cluster then find_attribute id c else none)
unfolding register get
register_adds cluster id c r = attribute_in-registered id c (c.id == cluster) (r cluster)

register_all_adds :
    (cluster id : ℕ) (cs : List ClusterDef) (r : Registry)
    → registered_attribute cluster id (register_all cs r)
      ≡ or_else (registered_attribute cluster id r) (first_defined cluster id cs)
unfolding register_all first_defined
register_all_adds cluster id [] r = ground arith
register_all_adds cluster id (c ∷ cs) r =
    register_all_adds cluster id cs (register c r) ∙ ground (arith, register_adds cluster id c r)

-- An attribute of the registry is the one of the first registered definition of its cluster that
-- has it: a later definition of the cluster adds attributes, and overrides none.
pub register_all_first :
    (cluster id : ℕ) (cs : List ClusterDef)
    → registered_attribute cluster id (register_all cs new_registry) ≡ first_defined cluster id cs
unfolding get
register_all_first cluster id cs = register_all_adds cluster id cs new_registry
