-- ===== src/Pkcs11/Lease/History.antt =====
-- What a live lease and a verified PIN say of the calls that led there.
use libre_agent.Common.{
  subst, ℕ, ◌+◌, ◌<◌, ◌≡◌, ◌≢◌, refl, ap, ◌∙◌, sym, Bool, true, false, Option, none, some, List, [],
  ◌∷◌, arith, ◌==◌, Bool-cases, Option-cases, inl, inr, ◌⊎◌,
}
use libre_agent.Common.Map
use libre_agent.Common.Trace.{Since}
use libre_agent.Pkcs11.Lease.{
  LeaseKey, LeaseConfig, Entry, Leases, Call, grants, asks, touches, marks, clears, revokes,
  revokes_card, revokes_caller, key_eq, key_eq_iff, lease_key, is_active, is_pin_verified, touch,
  revoke, after,
}
use libre_agent.Pkcs11.Lease.Isolation.{own_step, own_after, lookup-after}
use text.Mathlib.Text.{◌==◌ as text_eq}

-- The call takes the lease of `key` away whatever the time.
abbrev pub revokes_key : LeaseKey → Call → Bool
revokes_key key (revokes k) = key_eq k key
revokes_key key (revokes_card card) = key.card == card
revokes_key key (revokes_caller caller) = text_eq key.caller caller
revokes_key key _ = false

-- The call ends the PIN consent of `key`.
abbrev pub ends_pin : LeaseKey → Call → Bool
ends_pin key (grants k now) = key_eq k key
ends_pin key (clears k) = key_eq k key
ends_pin key call = revokes_key key call

-- A lease after a call was granted by it, or was there before with the same origin.
own_step_origin :
    (c : LeaseConfig) (key : LeaseKey) (o : Option Entry) (call : Call) (e : Entry)
    → own_step c key o call ≡ some e
    → ((call ≡ grants key e.origin) × (o ≡ none))
      ⊎ ((old : Entry) × (o ≡ some old) × (old.origin ≡ e.origin) × (revokes_key key call ≡ false))
unfolding own_step
own_step_origin c key none (grants k now) e h = inl (ground (arith, key_eq_iff k key), refl)
own_step_origin c key none (asks k now) e h = absurd (ground arith)
own_step_origin c key none (touches k now) e h = absurd (ground arith)
own_step_origin c key none (marks k) e h = absurd (ground arith)
own_step_origin c key none (clears k) e h = absurd (ground arith)
own_step_origin c key none (revokes k) e h = absurd (ground arith)
own_step_origin c key none (revokes_card card) e h = absurd (ground arith)
own_step_origin c key none (revokes_caller caller) e h = absurd (ground arith)
own_step_origin c key (some old) (revokes k) e h = inr (old, refl, ground arith, ground arith)
own_step_origin c key (some old) call e h = inr (old, refl, ground arith, ground arith)

-- A verified PIN after a call was marked by it, or was verified before.
own_step_pin :
    (c : LeaseConfig) (key : LeaseKey) (o : Option Entry) (call : Call) (e : Entry)
    → own_step c key o call ≡ some e
    → e.pin_verified ≡ true
    → (call ≡ marks key)
      ⊎ ((old : Entry) × (o ≡ some old) × (old.pin_verified ≡ true) × (ends_pin key call ≡ false))
unfolding own_step
own_step_pin c key none call e h v = absurd (ground arith)
own_step_pin c key (some old) (marks k) e h v = elim (Bool-cases (key_eq k key)) [
  | inl same ↦ inl (ap marks ((key_eq_iff k key).0 same))
  | inr other ↦ inr (old, refl, ground arith, refl)
]
own_step_pin c key (some old) call e h v = inr (old, refl, ground arith, ground arith)

-- The lease of `key` began with a login at `t`, made when there was none, and has been held ever since,
-- with no call that takes it away.
abbrev pub Began : LeaseConfig → LeaseKey → ℕ → List Call → Type 0
Began c key t [] = ⊥
Began c key t (call ∷ past) =
    ((call ≡ grants key t) × (Map.lookup key (after c past) ≡ none))
    ⊎ ((revokes_key key call ≡ false) × (Map.lookup key (after c past) ≢ none) × Began c key t past)

-- The login that began the lease, with no end of it since.
pub Began-Since :
    (c : LeaseConfig) (key : LeaseKey) (t : ℕ) (calls : List Call)
    → Began c key t calls
    → Since (λ call. call ≡ grants key t) (revokes_key key) calls
Began-Since c key t [] h = h
Began-Since c key t (call ∷ past) (inl (granted, fresh)) = inl granted
Began-Since c key t (call ∷ past) (inr (kept, held, h)) = inr (kept, Began-Since c key t past h)

own_origin :
    (c : LeaseConfig) (key : LeaseKey) (calls : List Call) (e : Entry)
    → own_after c key calls ≡ some e
    → Began c key e.origin calls
unfolding own_after
own_origin c key [] e h = cc
own_origin c key (call ∷ past) e h = elim (own_step_origin c key (own_after c key past) call e h) [
  | inl (new, fresh) ↦ inl (new, lookup-after c key past ∙ fresh)
  | inr (old, was, same, kept) ↦ inr (
    kept,
    (λ gone. absurd (ground (arith, lookup-after c key past, was, gone))),
    subst (λ t. Began c key t past) same (own_origin c key past old was),
  )
]

own_pin :
    (c : LeaseConfig) (key : LeaseKey) (calls : List Call) (e : Entry)
    → own_after c key calls ≡ some e
    → e.pin_verified ≡ true
    → Since (λ call. call ≡ marks key) (ends_pin key) calls
unfolding own_after
own_pin c key [] e h v = cc
own_pin c key (call ∷ past) e h v = elim (own_step_pin c key (own_after c key past) call e h v) [
  | inl new ↦ inl new
  | inr (old, was, held, kept) ↦ inr (kept, own_pin c key past old was held)
]

is_active_entry :
    (c : LeaseConfig) (m : Leases) (key : LeaseKey) (now : ℕ)
    → (is_active c m key now).1 ≡ true
    → (e : Entry) × (Map.lookup key m ≡ some e)
      × (now < e.last_use + c.idle_timeout)
      × ((c.max_lifetime ≡ 0) ⊎ (now < e.origin + c.max_lifetime))
unfolding is_active
is_active_entry c m key now h = elim (Option-cases (Map.lookup key m)) [
  | inl e ↦ absurd (ground arith)
  | inr (e, found) ↦ (e, found, ground arith, ground arith)
]

-- With a maximum lifetime set, `isActive` answers yes only where less than the lifetime ago a login of that
-- caller on that card began a lease, there being none of theirs then, which has been held ever since,
-- with no logout, card removal or disconnect of theirs. A login while there is a lease begins none, so
-- touches and further logins do not lengthen the lifetime.
pub is_active_granted :
    (c : LeaseConfig) (key : LeaseKey) (calls : List Call) (now : ℕ)
    → 0 < c.max_lifetime
    → (is_active c (after c calls) key now).1 ≡ true
    → (t : ℕ) × (now < t + c.max_lifetime) × Began c key t calls
is_active_granted c key calls now limited h =
    let (e, found, _, fits) = is_active_entry c (after c calls) key now h in
    (e.origin, omega arith, own_origin c key calls e (sym (lookup-after c key calls) ∙ found))

-- The PIN counts as verified only where the history holds a mark of that lease, with no login, clearing,
-- logout, card removal or disconnect of that caller and card after it.
pub is_pin_verified_marked :
    (c : LeaseConfig) (key : LeaseKey) (calls : List Call)
    → is_pin_verified (after c calls) key ≡ true
    → Since (λ call. call ≡ marks key) (ends_pin key) calls
unfolding is_pin_verified
is_pin_verified_marked c key calls h = elim (Option-cases (Map.lookup key (after c calls))) [
  | inl e ↦ absurd (ground arith)
  | inr (e, found) ↦ own_pin c key calls e (sym (lookup-after c key calls) ∙ found) (ground arith)
]

-- A use is allowed exactly where `isActive` would have said yes.
pub touch_iff_active :
    (c : LeaseConfig) (m : Leases) (key : LeaseKey) (now : ℕ)
    → (touch c m key now).1 ≡ (is_active c m key now).1
unfolding touch is_active
touch_iff_active c m key now = ground arith

-- A revoked lease is gone.
pub touch-revoke :
    (c : LeaseConfig) (m : Leases) (key : LeaseKey) (now : ℕ)
    → touch c (revoke m key) key now ≡ (revoke m key, false)
unfolding touch revoke
touch-revoke c m key now = ground (arith, key_eq_iff key key, Map.lookup-erase key key m)
