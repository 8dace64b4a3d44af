-- ===== src/Ncp/Commands/Formation.antt =====
-- `FormNetwork`: which requests it has sent when it ends, and how its retries end.
use zigbee_go_home.Base.{
  ℕ, zero, suc, ◌<◌, ◌≡◌, refl, sym, ap, ◌∙◌, Bool, true, false, List, [], ◌∷◌, ◌++◌, replicate,
  Option, none, some, arith,
}
use zigbee_go_home.Base.Bytes.{Bytes, put_le16}
use zigbee_go_home.Ncp.Commands.{
  Call, Dongle, Session, Exchange, Result, done, failed, CommandError, no_answer, go_on, ◌>>◌,
  request, send, ignore, result_of, put_le32, channel_mask, formation_payload, form_attempts,
  keep_key, set_nwk_key, NetworkConfig, form_network,
}

-- The requests of a formation with `tries` attempts to form, newest first, before those that
-- went ahead of it.
abbrev pub formation : NetworkConfig → Bytes → ℕ → List Call → List Call
formation cfg key tries before =
    (0x0034, 100 ∷ [])
    ∷ (0x0017, 0x08 ∷ [])
    ∷ (0x0013, 0x01 ∷ [])
    ∷ (0x000a, put_le16 cfg.pan_id)
    ∷ (replicate tries (0x0401, formation_payload cfg)
        ++ ((0x001b, key ++ (0x00 ∷ []))
            ∷ (0x0007, 0x00 ∷ put_le32 (channel_mask cfg.channel))
            ∷ (0x0033, cfg.ext_pan_id)
            ∷ (0x0005, 0x00 ∷ [])
            ∷ before))

-- A chain that ends well went through its first request.
send-done {ℓ} :
    {A : Type ℓ} (cmd : ℕ) (payload : Bytes) (rest : Exchange A) (d : Dongle) (s : Session) (a : A)
    (s' : Session)
    → (send cmd payload >> rest) d s ≡ (done a, s')
    → rest d (record s { sent = (cmd, payload) ∷ s.sent }) ≡ (done a, s')
unfolding request go_on
send-done cmd payload rest d s a s' h = after (result_of (d.answer s.sent (cmd, payload))) refl
  where
    after :
        (r : Result Bytes)
        → result_of (d.answer s.sent (cmd, payload)) ≡ r
        → rest d (record s { sent = (cmd, payload) ∷ s.sent }) ≡ (done a, s')
    after (done p) e = ground arith
    after (failed e') e = ground arith

replicate_shift {ℓ} :
    {A : Type ℓ} (n : ℕ) (a : A) (xs : List A)
    → replicate n a ++ (a ∷ xs) ≡ a ∷ (replicate n a ++ xs)
replicate_shift zero a xs = refl
replicate_shift (suc n) a xs = ap (◌∷◌ a) (replicate_shift n a xs)

-- The attempts that end well: fewer than were left, all with the same request.
abbrev Tried : ℕ → Bytes → Session → Session → Type 0
Tried left buf s s' =
    (k : ℕ) × (k < left) × (s' ≡ record s { sent = replicate (suc k) (0x0401, buf) ++ s.sent })

form_attempts-done :
    (left : ℕ) (e : CommandError) (buf : Bytes) (d : Dongle) (s s' : Session)
    → form_attempts left e buf d s ≡ (done tt, s')
    → Tried left buf s s'
unfolding form_attempts
form_attempts-done zero e buf d s s' h = ground arith
form_attempts-done (suc n) e buf d s s' h =
    after (result_of (d.answer s.sent (0x0401, buf))) (d.is_cancelled ((0x0401, buf) ∷ s.sent)) refl
      refl (λ e'. form_attempts-done n e' buf d _ s')
  where
    after :
        (r : Result Bytes) (c : Bool)
        → result_of (d.answer s.sent (0x0401, buf)) ≡ r
        → d.is_cancelled ((0x0401, buf) ∷ s.sent) ≡ c
        → ((e' : CommandError)
            → form_attempts n e' buf d (record s { sent = (0x0401, buf) ∷ s.sent }) ≡ (done tt, s')
            → Tried n buf (record s { sent = (0x0401, buf) ∷ s.sent }) s')
        → Tried (suc n) buf s s'
    after (done p) c er ec again = (0, omega arith, ground arith)
    after (failed e') true er ec again = ground arith
    after (failed e') false er ec again =
        let (k, l, eq) = again e' (ground arith) in
        (
          suc k,
          omega arith,
          eq
              ∙ ap (λ xs. record s { sent = (0x0401, buf) ∷ xs })
                  (replicate_shift k (0x0401, buf) s.sent),
        )

-- A chain that ends well went through the attempts.
attempts_then :
    (e : CommandError) (buf : Bytes) (rest : Exchange (Unit {0})) (d : Dongle) (s s' : Session)
    → (form_attempts 3 e buf >> rest) d s ≡ (done tt, s')
    → (m : Session) × Tried 3 buf s m × (rest d m ≡ (done tt, s'))
unfolding go_on
attempts_then e buf rest d s s' h = after (form_attempts 3 e buf d s) refl
  where
    after :
        (r : Result (Unit {0}) × Session)
        → form_attempts 3 e buf d s ≡ r
        → (m : Session) × Tried 3 buf s m × (rest d m ≡ (done tt, s'))
    after (done u, m) eq = (m, form_attempts-done 3 e buf d s m eq, ground arith)
    after (failed e', m) eq = ground arith

-- A chain that ends well has set a key, which the driver keeps.
set_nwk_key_then :
    (random_key : Option Bytes) (rest : Exchange (Unit {0})) (d : Dongle) (s s' : Session)
    → (set_nwk_key random_key >> rest) d s ≡ (done tt, s')
    → (key : Bytes) × (random_key ≡ some key)
      × (rest d (record {
        sent = (0x001b, key ++ (0x00 ∷ [])) ∷ s.sent;
        info = record s.info { network_key = key };
      })
          ≡ (done tt, s'))
unfolding set_nwk_key keep_key go_on request
set_nwk_key_then none rest d s s' h = ground arith
set_nwk_key_then (some key) rest d s s' h =
    after (result_of (d.answer s.sent (0x001b, key ++ (0x00 ∷ [])))) refl
  where
    after :
        (r : Result Bytes)
        → result_of (d.answer s.sent (0x001b, key ++ (0x00 ∷ []))) ≡ r
        → (key' : Bytes) × (some key ≡ some key')
          × (rest d (record {
            sent = (0x001b, key' ++ (0x00 ∷ [])) ∷ s.sent;
            info = record s.info { network_key = key' };
          })
              ≡ (done tt, s'))
    after (done p) e = (key, refl, ground arith)
    after (failed e') e = ground arith

-- The last two requests, whose errors are only logged.
abbrev last_requests : Exchange (Unit {0})
last_requests = ignore (request 0x0017 (0x08 ∷ [])) >> ignore (request 0x0034 (100 ∷ []))

last_requests-done :
    (d : Dongle) (s s' : Session)
    → last_requests d s ≡ (done tt, s')
    → s' ≡ record s { sent = (0x0034, 100 ∷ []) ∷ (0x0017, 0x08 ∷ []) ∷ s.sent }
unfolding request go_on
last_requests-done d s s' h = sym (ap (λ r. r.1) h)

-- When `FormNetwork` returns without an error, it has sent, in this order and with nothing between:
-- the role, the extended PAN id, the channel mask, the network key, the formation once, twice or
-- three times, the PAN id, the receiver setting, and the two requests whose errors it only logs.
-- The key is the random one, and the driver keeps it.
pub form_network_sequence :
    (cfg : NetworkConfig) (random_key : Option Bytes) (d : Dongle) (s s' : Session)
    → form_network cfg random_key d s ≡ (done tt, s')
    → (key : Bytes) × (tries : ℕ) × (random_key ≡ some key)
      × (tries < 3)
      × (s'.sent ≡ formation cfg key (suc tries) s.sent)
      × (s'.info ≡ record s.info { network_key = key })
unfolding form_network
form_network_sequence cfg random_key d s s' h =
    let h1 = send-done _ _ _ d s tt s' h in
    let h2 = send-done _ _ _ d _ tt s' h1 in
    let h3 = send-done _ _ _ d _ tt s' h2 in
    let (key, k, h4) = set_nwk_key_then random_key _ d _ s' h3 in
    let (m, (tries, l, tried), h5) = attempts_then no_answer _ _ d _ s' h4 in
    let h6 = send-done _ _ _ d m tt s' h5 in
    let h7 = send-done _ _ _ d _ tt s' h6 in
    let end = last_requests-done d _ s' h7 in
    (key, tries, k, l, rw (end, tried) refl, rw (end, tried) refl)
