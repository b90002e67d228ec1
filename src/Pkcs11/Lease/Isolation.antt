-- ===== src/Pkcs11/Lease/Isolation.antt =====
-- Seen from one (caller, card) pair the lease manager is a machine of its own.
use libre_agent.Common.{
  ℕ, ◌≡◌, refl, ap, ◌∙◌, true, false, Option, none, some, List, [], ◌∷◌, arith, ◌==◌, if◌then◌else◌,
}
use libre_agent.Common.Map
use libre_agent.Pkcs11.Lease.{
  LeaseKey, LeaseConfig, Entry, Leases, Call, grants, asks, touches, marks, clears, revokes,
  revokes_card, revokes_caller, used_at, with_pin, granted_at, regranted_at, key_eq, key_eq_iff,
  lease_key, is_active_locked, grant, is_active, touch, mark_pin_verified, clear_pin_verified,
  revoke, revoke_card, revoke_caller, step, after,
}
use mathlib.Core.Option
use text.Mathlib.Text.{◌==◌ as text_eq}

abbrev pub fresh : Option Entry → ℕ → Entry
fresh none now = granted_at now
fresh (some e) now = regranted_at now e

abbrev pub expire : LeaseConfig → Option Entry → ℕ → (Entry → Entry) → Option Entry
expire c none now f = none
expire c (some e) now f = if is_active_locked c e now then some (f e) else none

-- What one call does to the lease of `key`, from that lease alone.
unfoldable pub own_step : LeaseConfig → LeaseKey → Option Entry → Call → Option Entry
own_step c key o (grants k now) = if key_eq k key then some (fresh o now) else o
own_step c key o (asks k now) = if key_eq k key then expire c o now (λ e. e) else o
own_step c key o (touches k now) = if key_eq k key then expire c o now (used_at now) else o
own_step c key o (marks k) = if key_eq k key then Option.map (with_pin true) o else o
own_step c key o (clears k) = if key_eq k key then Option.map (with_pin false) o else o
own_step c key o (revokes k) = if key_eq k key then none else o
own_step c key o (revokes_card card) = if key.card == card then none else o
own_step c key o (revokes_caller caller) = if text_eq key.caller caller then none else o

-- The history of one lease.
unfoldable pub own_after : LeaseConfig → LeaseKey → List Call → Option Entry
own_after c key [] = none
own_after c key (call ∷ past) = own_step c key (own_after c key past) call

module _ (c : LeaseConfig) (key : LeaseKey) (m : Leases) where
  lookup-grant :
      (k : LeaseKey) (now : ℕ)
      → Map.lookup key (grant m k now) ≡ own_step c key (Map.lookup key m) (grants k now)
  unfolding grant own_step
  lookup-grant k now = ground (
    arith,
    key_eq_iff k key,
    Map.lookup-insert k key (granted_at now) m,
    Map.lookup-modify k key (regranted_at now) m,
  )

  lookup-is_active :
      (k : LeaseKey) (now : ℕ)
      → Map.lookup key (is_active c m k now).0 ≡ own_step c key (Map.lookup key m) (asks k now)
  unfolding is_active own_step
  lookup-is_active k now = ground (arith, key_eq_iff k key, Map.lookup-erase k key m)

  lookup-touch :
      (k : LeaseKey) (now : ℕ)
      → Map.lookup key (touch c m k now).0 ≡ own_step c key (Map.lookup key m) (touches k now)
  unfolding touch own_step
  lookup-touch k now =
      ground
        (arith, key_eq_iff k key, Map.lookup-erase k key m, Map.lookup-modify k key (used_at now) m)

  lookup-step :
      (call : Call) → Map.lookup key (step c m call) ≡ own_step c key (Map.lookup key m) call
  unfolding step own_step mark_pin_verified clear_pin_verified revoke revoke_card revoke_caller
  lookup-step (grants k now) = lookup-grant k now
  lookup-step (asks k now) = lookup-is_active k now
  lookup-step (touches k now) = lookup-touch k now
  lookup-step (marks k) = Map.lookup-modify k key (with_pin true) m
  lookup-step (clears k) = Map.lookup-modify k key (with_pin false) m
  lookup-step (revokes k) = Map.lookup-erase k key m
  lookup-step (revokes_card card) = Map.lookup-erase_if (λ k. k.card == card) key m
  lookup-step (revokes_caller caller) = Map.lookup-erase_if (λ k. text_eq k.caller caller) key m

-- After any history of calls, by any callers on any cards, the lease of a pair is what the pair's own
-- machine makes of that history: no call on another pair changes it.
pub lookup-after :
    (c : LeaseConfig) (key : LeaseKey) (calls : List Call)
    → Map.lookup key (after c calls) ≡ own_after c key calls
unfolding after own_after
lookup-after c key [] = unfold Map.lookup in refl
lookup-after c key (call ∷ past) =
    lookup-step c key (after c past) call
    ∙ ap (λ o. own_step c key o call) (lookup-after c key past)
