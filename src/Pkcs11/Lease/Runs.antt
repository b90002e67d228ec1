-- ===== src/Pkcs11/Lease/Runs.antt =====
-- The lease manager at concrete histories.
use libre_agent.Common.{ℕ, ◌+◌, ◌<◌, ◌≡◌, refl, true, false, List, [], ◌∷◌, arith}
use libre_agent.Common.Map
use libre_agent.Pkcs11.Lease.{
  LeaseKey, LeaseConfig, Call, grants, touches, marks, revokes, lease_key, grant, is_active, touch,
  is_pin_verified, mark_pin_verified, revoke, step, after,
}
use libre_agent.Pkcs11.Lease.Isolation.{own_after, lookup-after}
use libre_agent.Common.Trace.{Since}
use libre_agent.Pkcs11.Lease.History.{Began, ends_pin, is_active_granted, is_pin_verified_marked}

abbrev short_leases : LeaseConfig
short_leases = record { idle_timeout = 10; max_lifetime = 25 }

abbrev browser : LeaseKey
browser = record { caller = ":1.7"; card = 3 }

abbrev mailer : LeaseKey
mailer = record { caller = ":1.9"; card = 3 }

-- Newest first: a login at 1, a mark, uses at 8 and 15, and another caller's login and logout.
abbrev busy : List Call
busy =
    revokes mailer
    ∷ touches browser 15
    ∷ grants mailer 12
    ∷ touches browser 8
    ∷ marks browser
    ∷ grants browser 1
    ∷ []

busy_active : (is_active short_leases (after short_leases busy) browser 24).1 ≡ true
unfolding is_active after step grant touch mark_pin_verified revoke Map.running
busy_active = refl

-- The lifetime of 25 ends the lease, though the last use is only three ticks old.
busy_lifetime :
    (is_active short_leases (after short_leases (touches browser 23 ∷ busy)) browser 26).1 ≡ false
unfolding is_active after step grant touch mark_pin_verified revoke Map.running
busy_lifetime = refl

busy_verified : is_pin_verified (after short_leases busy) browser ≡ true
unfolding is_pin_verified after step grant touch mark_pin_verified revoke Map.running
busy_verified = refl

lookup-after_example :
    Map.lookup browser (after short_leases busy) ≡ own_after short_leases browser busy
lookup-after_example = lookup-after short_leases browser busy

is_active_granted_example : (t : ℕ) × (24 < t + 25) × Began short_leases browser t busy
is_active_granted_example = is_active_granted short_leases browser busy 24 (omega arith) busy_active

is_pin_verified_marked_example : Since (λ call. call ≡ marks browser) (ends_pin browser) busy
is_pin_verified_marked_example = is_pin_verified_marked short_leases browser busy busy_verified
