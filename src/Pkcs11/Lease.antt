-- ===== src/Pkcs11/Lease.antt =====
-- src/pkcs11/LeaseManager.cpp: the leases that a PKCS#11 login grants. Times are ticks since the
-- clock's epoch, and durations are counted in the same ticks. `now - e.lastUse >= d` is written `e.last_use + d ≤ now`, which is the same for
-- the source's signed durations. Each operation holds the mutex throughout, so it is one step.
pub mod History
pub mod Isolation
mod Runs
use libre_agent.Common.{
  ℕ, ◌+◌, ◌≡◌, ◌↔◌, Bool, true, false, not, ◌&&◌, ◌||◌, Option, none, some, List, [], ◌∷◌, arith,
  ltb, leb, ◌==◌, if◌then◌else◌, Key,
}
use libre_agent.Common.Map
use libre_agent.Common.Map.{Map}
use libre_agent.Identity.{CallerToken, ObjectId}
use text.Mathlib.Text.{◌==◌ as text_eq, is_lt}
use text.Mathlib.TextEquality.{eq_iff}
use Prim.Native.String.{compare}

pub record LeaseKey : Type 0 where
  pub caller : CallerToken
  pub card : ObjectId

abbrev pub key_eq : LeaseKey → LeaseKey → Bool
key_eq a b = text_eq a.caller b.caller && a.card == b.card

-- `operator<`: by caller, then by card.
abbrev pub key_before : LeaseKey → LeaseKey → Bool
key_before a b =
    is_lt (compare a.caller b.caller) || (text_eq a.caller b.caller && ltb a.card b.card)

pub key_eq_iff : (a b : LeaseKey) → (key_eq a b ≡ true) ↔ (a ≡ b)
key_eq_iff a b = ground (arith, eq_iff a.caller b.caller)

instance abbrev pub lease_key : Key LeaseKey
lease_key = record { beq = key_eq; before = key_before; beq_iff = key_eq_iff }

pub record LeaseConfig : Type 0 where
  pub idle_timeout : ℕ
  pub max_lifetime : ℕ

pub record Entry : Type 0 where
  pub last_use : ℕ
  pub origin : ℕ
  pub pin_verified : Bool

abbrev pub used_at : ℕ → Entry → Entry
used_at now e = record e { last_use = now }

abbrev pub with_pin : Bool → Entry → Entry
with_pin b e = record e { pin_verified = b }

abbrev pub granted_at : ℕ → Entry
granted_at now = record { last_use = now; origin = now; pin_verified = false }

-- A login refreshes the idle clock, keeps the origin, and asks for the PIN again.
abbrev pub regranted_at : ℕ → Entry → Entry
regranted_at now e = record e { last_use = now; pin_verified = false }

abbrev pub Leases : Type 0
Leases = Map LeaseKey Entry

unfoldable pub is_active_locked : LeaseConfig → Entry → ℕ → Bool
is_active_locked c e now =
    if leb (e.last_use + c.idle_timeout) now
    then false
    else if ltb 0 c.max_lifetime && leb (e.origin + c.max_lifetime) now
    then false
    else true

pub grant : Leases → LeaseKey → ℕ → Leases
grant m key now = elim (Map.lookup key m) [
  | none ↦ Map.insert key (granted_at now) m
  | some e ↦ Map.modify key (regranted_at now) m
]

pub is_active : LeaseConfig → Leases → LeaseKey → ℕ → Leases × Bool
unfolding is_active_locked
is_active c m key now = elim (Map.lookup key m) [
  | none ↦ (m, false)
  | some e ↦ if not (is_active_locked c e now) then (Map.erase key m, false) else (m, true)
]

pub touch : LeaseConfig → Leases → LeaseKey → ℕ → Leases × Bool
unfolding is_active_locked
touch c m key now = elim (Map.lookup key m) [
  | none ↦ (m, false)
  | some e ↦
      if not (is_active_locked c e now)
      then (Map.erase key m, false)
      else (Map.modify key (used_at now) m, true)
]

pub is_pin_verified : Leases → LeaseKey → Bool
is_pin_verified m key = elim (Map.lookup key m) [ none ↦ false | some e ↦ e.pin_verified ]

pub mark_pin_verified : Leases → LeaseKey → Leases
mark_pin_verified m key = Map.modify key (with_pin true) m

pub clear_pin_verified : Leases → LeaseKey → Leases
clear_pin_verified m key = Map.modify key (with_pin false) m

pub revoke : Leases → LeaseKey → Leases
revoke m key = Map.erase key m

pub revoke_card : Leases → ObjectId → Leases
revoke_card m card = Map.erase_if (λ key e. key.card == card) m

pub revoke_caller : Leases → CallerToken → Leases
revoke_caller m caller = Map.erase_if (λ key e. text_eq key.caller caller) m

-- The calls that change the leases, in the order in which they take the mutex.
pub data Call : Type 0 where
  grants asks touches : LeaseKey → ℕ → Call
  marks clears revokes : LeaseKey → Call
  revokes_card : ObjectId → Call
  revokes_caller : CallerToken → Call

unfoldable pub step : LeaseConfig → Leases → Call → Leases
step c m (grants key now) = grant m key now
step c m (asks key now) = (is_active c m key now).0
step c m (touches key now) = (touch c m key now).0
step c m (marks key) = mark_pin_verified m key
step c m (clears key) = clear_pin_verified m key
step c m (revokes key) = revoke m key
step c m (revokes_card card) = revoke_card m card
step c m (revokes_caller caller) = revoke_caller m caller

-- The leases after a history, newest call first.
unfoldable pub after : LeaseConfig → List Call → Leases
after c [] = []
after c (call ∷ past) = step c (after c past) call

-- All of the operations at once, for runs at concrete leases.
unfoldable pub running : Unit {0}
unfolding is_active_locked grant is_active touch is_pin_verified mark_pin_verified
    clear_pin_verified revoke revoke_card revoke_caller step after
running = tt
