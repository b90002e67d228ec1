-- ===== src/Pkcs11/Broker/Login.antt =====
-- The broker over whole histories: no key operation starts without a login.
use libre_agent.Common.{
  ℕ, ◌+◌, ◌<◌, ◌≡◌, refl, ap, ◌∙◌, sym, subst, Bool, true, false, Option, none, some, List, [], ◌∷◌,
  ◌++◌, arith, ◌==◌, Bool-cases, inl, inr, ◌⊎◌,
}
use libre_agent.Identity.{CallerToken, ObjectId}
use libre_agent.Pkcs11.Lease
use libre_agent.Pkcs11.Lease.{
  LeaseKey, LeaseConfig, Leases, Call, grants, asks, touches, marks, clears, revokes, revokes_card,
  revokes_caller, key_eq, key_eq_iff, lease_key, is_active, touch, revoke,
}
use libre_agent.Common.Trace.{Since}
use libre_agent.Pkcs11.Lease.History.{revokes_key, is_active_granted, Began-Since}
use libre_agent.Pkcs11.Broker.{
  CryptoOutcome, LoginOutcome, runs, lease_key_of, finish_login, logout, login_active,
  finish_crypto, Operation, crypto, Event, login_finished, crypto_asked, crypto_finished,
  pin_marked, pin_cleared, active_asked, logged_out, card_removed, client_disconnected, step, after,
}
use text.Mathlib.Text.{◌==◌ as text_eq}
use libre_agent.Pkcs11.Broker.Gate.{admits, gate, crypto-gate, gate_runs}

-- The calls of the lease manager that an event makes.
abbrev gate_calls : Bool → CallerToken → Option ObjectId → ℕ → List Call
gate_calls true caller (some id) now = touches (lease_key_of caller id) now ∷ []
gate_calls _ caller _ now = []

abbrev calls : Event → List Call
calls (login_finished key now LoginOutcome.ok) = grants key now ∷ []
calls (login_finished key now _) = []
calls (crypto_asked op wired caller card now) = gate_calls (admits op wired) caller card now
calls (crypto_finished key false CryptoOutcome.auth_failed bytes) = revokes key ∷ []
calls (crypto_finished key _ _ bytes) = []
calls (pin_marked key) = marks key ∷ []
calls (pin_cleared key) = clears key ∷ []
calls (active_asked caller none now) = []
calls (active_asked caller (some id) now) = asks (lease_key_of caller id) now ∷ []
calls (logged_out caller none) = []
calls (logged_out caller (some id)) = revokes (lease_key_of caller id) ∷ []
calls (card_removed card) = revokes_card card ∷ []
calls (client_disconnected caller) = revokes_caller caller ∷ []

abbrev all_calls : List Event → List Call
all_calls [] = []
all_calls (event ∷ past) = calls event ++ all_calls past

abbrev make : LeaseConfig → Leases → List Call → Leases
make c m [] = m
make c m (call ∷ rest) = Lease.step c m call

gate-calls :
    (b : Bool) (c : LeaseConfig) (m : Leases) (caller : CallerToken) (card : Option ObjectId)
    (now : ℕ)
    → (gate b c m caller card now).0 ≡ make c m (gate_calls b caller card now)
unfolding Lease.step
gate-calls false c m caller card now = refl
gate-calls true c m caller none now = refl
gate-calls true c m caller (some id) now = ground arith

step-calls :
    (c : LeaseConfig) (m : Leases) (event : Event) → step c m event ≡ make c m (calls event)
unfolding step Lease.step finish_login finish_crypto logout login_active
step-calls c m (login_finished key now o) = ground arith
step-calls c m (crypto_asked op wired caller card now) =
    ap (λ r. r.0) (crypto-gate op wired c m caller card now)
    ∙ gate-calls (admits op wired) c m caller card now
step-calls c m (crypto_finished key s o bytes) = ground arith
step-calls c m (pin_marked key) = refl
step-calls c m (pin_cleared key) = refl
step-calls c m (active_asked caller card now) = ground arith
step-calls c m (logged_out caller card) = ground arith
step-calls c m (card_removed card) = refl
step-calls c m (client_disconnected caller) = refl

-- An event makes one call at most.
calls_short : (event : Event) → (calls event ≡ []) ⊎ ((call : Call) × (calls event ≡ call ∷ []))
calls_short (login_finished key now LoginOutcome.ok) = inr (grants key now, refl)
calls_short (login_finished key now _) = inl refl
calls_short (crypto_asked op wired caller none now) = inl (ground arith)
calls_short (crypto_asked op wired caller (some id) now) = elim (Bool-cases (admits op wired)) [
  | inl e ↦ inr (touches (lease_key_of caller id) now, ground arith)
  | inr e ↦ inl (ground arith)
]
calls_short (crypto_finished key false CryptoOutcome.auth_failed bytes) = inr (revokes key, refl)
calls_short (crypto_finished key _ _ bytes) = inl refl
calls_short (pin_marked key) = inr (marks key, refl)
calls_short (pin_cleared key) = inr (clears key, refl)
calls_short (active_asked caller none now) = inl refl
calls_short (active_asked caller (some id) now) = inr (asks (lease_key_of caller id) now, refl)
calls_short (logged_out caller none) = inl refl
calls_short (logged_out caller (some id)) = inr (revokes (lease_key_of caller id), refl)
calls_short (card_removed card) = inr (revokes_card card, refl)
calls_short (client_disconnected caller) = inr (revokes_caller caller, refl)

make-after :
    (c : LeaseConfig) (cs rest : List Call)
    → (cs ≡ []) ⊎ ((call : Call) × (cs ≡ call ∷ []))
    → make c (Lease.after c rest) cs ≡ Lease.after c (cs ++ rest)
unfolding Lease.after
make-after c cs rest (inl e) = rw e
make-after c cs rest (inr (call, e)) = rw e

-- The broker drives the lease manager by single calls, so its leases are those of a call history.
pub after-calls :
    (c : LeaseConfig) (past : List Event) → after c past ≡ Lease.after c (all_calls past)
unfolding after Lease.after
after-calls c [] = refl
after-calls c (event ∷ past) =
    step-calls c (after c past) event
    ∙ ap (λ m. make c m (calls event)) (after-calls c past)
    ∙ make-after c (calls event) (all_calls past) (calls_short event)

-- The event ends the login of `key`: a logout, a refused PIN, a removed card or a gone client.
abbrev pub ends_login : LeaseKey → Event → Bool
ends_login key (crypto_finished k false CryptoOutcome.auth_failed bytes) = key_eq k key
ends_login key (logged_out caller (some id)) = key_eq (lease_key_of caller id) key
ends_login key (card_removed card) = key.card == card
ends_login key (client_disconnected caller) = text_eq key.caller caller
ends_login key _ = false

module _ (key : LeaseKey) (t : ℕ) where
  abbrev Granted : List Call → Type 0
  Granted = Since (λ call. call ≡ grants key t) (revokes_key key)

  abbrev LoggedIn : List Event → Type 0
  LoggedIn = Since (λ event. event ≡ login_finished key t LoginOutcome.ok) (ends_login key)

  -- A call other than a grant only carries the history before it on.
  pass :
      (call : Call) (rest : List Call)
      → (call ≡ grants key t → ⊥)
      → Granted (call ∷ rest)
      → (revokes_key key call ≡ false) × Granted rest
  pass call rest other (inl e) = absurd (other e)
  pass call rest other (inr r) = r

  carry :
      (event : Event) (past : List Event)
      → (Granted (all_calls past) → LoggedIn past)
      → Granted (calls event ++ all_calls past)
      → LoggedIn (event ∷ past)
  carry (login_finished k now LoginOutcome.ok) past ih (inl e) = inl (ground arith)
  carry (login_finished k now LoginOutcome.ok) past ih (inr r) = inr (refl, ih r.1)
  carry (login_finished k now o) past ih h = inr (refl, ih h)
  carry (crypto_asked op wired caller none now) past ih h =
      inr (refl, ih (subst Granted (ap (λ cs. cs ++ all_calls past) (no_card (admits op wired))) h))
    where
      no_card : (b : Bool) → gate_calls b caller none now ≡ []
      no_card true = refl
      no_card false = refl
  carry (crypto_asked op wired caller (some id) now) past ih h =
      inr (refl, ih (skip (admits op wired) h))
    where
      skip :
          (b : Bool)
          → Granted (gate_calls b caller (some id) now ++ all_calls past)
          → Granted (all_calls past)
      skip true g = (pass _ (all_calls past) (λ e. cc) g).1
      skip false g = g
  carry (crypto_finished k false CryptoOutcome.auth_failed bytes) past ih h =
      let r = pass (revokes k) (all_calls past) (λ e. cc) h in inr (r.0, ih r.1)
  carry (crypto_finished k s o bytes) past ih h = inr (refl, ih h)
  carry (pin_marked k) past ih h = inr (refl, ih (pass (marks k) (all_calls past) (λ e. cc) h).1)
  carry (pin_cleared k) past ih h = inr (refl, ih (pass (clears k) (all_calls past) (λ e. cc) h).1)
  carry (active_asked caller none now) past ih h = inr (refl, ih h)
  carry (active_asked caller (some id) now) past ih h =
      inr (refl, ih (pass (asks (lease_key_of caller id) now) (all_calls past) (λ e. cc) h).1)
  carry (logged_out caller none) past ih h = inr (refl, ih h)
  carry (logged_out caller (some id)) past ih h =
      let r = pass (revokes (lease_key_of caller id)) (all_calls past) (λ e. cc) h in
      inr (r.0, ih r.1)
  carry (card_removed card) past ih h =
      let r = pass (revokes_card card) (all_calls past) (λ e. cc) h in inr (r.0, ih r.1)
  carry (client_disconnected caller) past ih h =
      let r = pass (revokes_caller caller) (all_calls past) (λ e. cc) h in inr (r.0, ih r.1)

  Granted-LoggedIn : (past : List Event) → Granted (all_calls past) → LoggedIn past
  Granted-LoggedIn [] h = h
  Granted-LoggedIn (event ∷ past) h = carry event past (Granted-LoggedIn past) h

-- With a maximum lifetime set, an operation is handed to the card only under the key of the caller that
-- asked and of the card that it named, and only if a login of that caller on that card succeeded less
-- than the lifetime before, with no logout, refused PIN, card removal or disconnect of that caller and
-- card in between, whatever else the broker did.
pub crypto_logged_in :
    (c : LeaseConfig) (past : List Event) (op : Operation) (wired : Bool) (caller : CallerToken)
    (card : Option ObjectId) (now : ℕ) (key : LeaseKey)
    → 0 < c.max_lifetime
    → (crypto op wired c (after c past) caller card now).1 ≡ runs key
    → (card ≡ some key.card)
      × (key.caller ≡ caller)
      × ((t : ℕ) × (now < t + c.max_lifetime)
          × Since (λ event. event ≡ login_finished key t LoginOutcome.ok) (ends_login key) past)
crypto_logged_in c past op wired caller card now key limited e =
    let (on_card, of_caller, active) =
      gate_runs (admits op wired) c (after c past) caller card now key
        (ap (λ r. r.1) (sym (crypto-gate op wired c (after c past) caller card now)) ∙ e) in
    let (t, young, since) =
      is_active_granted c key (all_calls past) now limited
        (subst (λ m. (is_active c m key now).1 ≡ true) (after-calls c past) active) in
    (
      on_card,
      of_caller,
      (t, young, Granted-LoggedIn key t past (Began-Since c key t (all_calls past) since)),
    )
