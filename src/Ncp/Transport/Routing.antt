-- ===== src/Ncp/Transport/Routing.antt =====
-- A response reaches the request that waits for it, and the read loop never sends on a closed
-- channel.
use zigbee_go_home.Base.{
  ℕ, ◌<◌, ◌≡◌, ◌≢◌, refl, ◌∙◌, false, List, [], ◌∷◌, inl, inr, none, some, Option-cases, ok, arith,
}
use zigbee_go_home.Ncp.Indication.{Effect, emit, reset_signal, zcl_response, ota_no_image}
use zigbee_go_home.Ncp.Transport.{
  Chan, Pending, update, register, unregister, offer, deliver, Ncp, apply_effect, apply_effects,
}

pub update_self {κ} : {B : Type κ} (f : ℕ → B) (k : ℕ) (v : B) → update f k v k ≡ v
update_self f k v = ground arith

pub update_ne {κ} : {B : Type κ} (f : ℕ → B) (k j : ℕ) (v : B) → k ≢ j → update f k v j ≡ f j
update_ne f k j v ne = ground arith

module _ {ℓ} {A : Type ℓ} where
  -- Every entry names a channel that was made, is open, and is no other entry's.
  pub record IsLive (p : Pending A) : Type ℓ where
    pub made : (seq c : ℕ) → p.entry seq ≡ some c → c < p.next
    pub is_open : (seq c : ℕ) → p.entry seq ≡ some c → (p.chan c).is_closed ≡ false
    pub own : (s t c : ℕ) → p.entry s ≡ some c → p.entry t ≡ some c → s ≡ t

  -- A value is taken if there is room.
  abbrev pub accept : A → Chan A → Chan A
  accept v c = record c { buffer = elim c.buffer [ none ↦ some v | some old ↦ some old ] }

  offer_lem : (v : A) (c : Chan A) → c.is_closed ≡ false → offer v c ≡ ok (accept v c)
  unfolding offer
  offer_lem v c o = ground arith

  pub deliver_lem :
      (seq c : ℕ) (v : A) (p : Pending A)
      → p.entry seq ≡ some c
      → (p.chan c).is_closed ≡ false
      → deliver seq v p ≡ ok (record p { chan = update p.chan c (accept v (p.chan c)) })
  unfolding deliver
  deliver_lem seq c v p e o = rw (e, deliver) (rw (offer_lem v (p.chan c) o) refl)

  pub deliver-none : (seq : ℕ) (v : A) (p : Pending A) → p.entry seq ≡ none → deliver seq v p ≡ ok p
  unfolding deliver
  deliver-none seq v p e = rw (e, deliver) refl

  pub register-IsLive : (seq : ℕ) (p : Pending A) → IsLive p → IsLive (register seq p)
  unfolding register
  register-IsLive seq p l = record {
    made = λ s c e. ground (arith, l.made s c);
    is_open = λ s c e. ground (arith, l.is_open s c, l.made s c);
    own = λ s t c e e'. ground (arith, l.own s t c, l.made s c, l.made t c);
  }

  pub unregister-IsLive : (seq : ℕ) (p : Pending A) → IsLive p → IsLive (unregister seq p)
  unfolding unregister
  unregister-IsLive seq p l = record {
    made = λ s c e. ground (arith, l.made s c);
    is_open = λ s c e. ground (arith, l.is_open s c);
    own = λ s t c e e'. ground (arith, l.own s t c);
  }

  pub store-IsLive :
      (p : Pending A) (c : ℕ) (v : A)
      → IsLive p
      → IsLive (record p { chan = update p.chan c (accept v (p.chan c)) })
  store-IsLive p c v l = record {
    made = l.made;
    is_open = λ s d e. ground (arith, l.is_open s d e);
    own = l.own;
  }

  -- A delivery does not panic, and keeps every entry live.
  pub deliver-IsLive :
      (seq : ℕ) (v : A) (p : Pending A)
      → IsLive p
      → (q : Pending A) × (deliver seq v p ≡ ok q) × IsLive q
  deliver-IsLive seq v p l = elim (Option-cases (p.entry seq)) [
    | inl e ↦ (p, deliver-none seq v p e, l)
    | inr (c, e) ↦ (
      record p { chan = update p.chan c (accept v (p.chan c)) },
      deliver_lem seq c v p e (l.is_open seq c e),
      store-IsLive p c v l,
    )
  ]

-- Both tables of the driver are live.
abbrev pub IsSafe : Ncp → Type 0
IsSafe n = IsLive n.hl_pending × IsLive n.zcl_pending

-- Effects do not panic, keep the tables live and leave the HL requests alone.
apply_effect-IsSafe :
    (e : Effect) (n : Ncp)
    → IsSafe n
    → (m : Ncp) × (apply_effect e n ≡ ok m) × IsSafe m × (m.hl_pending ≡ n.hl_pending)
unfolding apply_effect
apply_effect-IsSafe (emit e) n s = (_, refl, s, refl)
apply_effect-IsSafe reset_signal n s = (_, refl, s, refl)
apply_effect-IsSafe (zcl_response seq records) n s =
    let (q, e, l) = deliver-IsLive seq records n.zcl_pending s.1 in
    (record n { zcl_pending = q }, rw e, (s.0, l), refl)
apply_effect-IsSafe (ota_no_image addr ep seq) n s = (_, refl, s, refl)

pub apply_effects-IsSafe :
    (es : List Effect) (n : Ncp)
    → IsSafe n
    → (m : Ncp) × (apply_effects es n ≡ ok m) × IsSafe m × (m.hl_pending ≡ n.hl_pending)
unfolding apply_effects
apply_effects-IsSafe [] n s = (n, refl, s, refl)
apply_effects-IsSafe (e ∷ es) n s =
    let (m, d, t, h) = apply_effect-IsSafe e n s in
    let (k, d', u, h') = apply_effects-IsSafe es m t in (k, rw d d', u, h' ∙ h)
