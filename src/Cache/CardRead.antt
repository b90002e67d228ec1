-- ===== src/Cache/CardRead.antt =====
-- src/cache/CardReadCache.cpp: what was read of a card, its identity and its certificates, for as long as
-- somebody uses it. The clock's value is an argument, one for each call of a method, and the types of the
-- two halves are parameters. The zeroing of the memory of what goes is left out.
pub mod Expiry
pub mod History
pub mod Latest
mod Runs
use libre_agent.Common.{
  ℕ, ◌+◌, Bool, true, false, not, Option, none, some, String, [], ltb, if◌then◌else◌, text_key,
}
use libre_agent.Common.Map
use libre_agent.Common.Map.{Map}

pub record Entry (A B : Type 0) : Type 0 where
  pub identity : Option A
  pub certs : Option B
  pub touched_at : ℕ

module _ {A B : Type 0} where
  abbrev pub new_entry : Entry A B
  new_entry = record { identity = none; certs = none; touched_at = 0 }

  unfoldable pub entry_of : String → Map String (Entry A B) → Entry A B
  entry_of key m = elim (Map.lookup key m) [ none ↦ new_entry | some e ↦ e ]

  -- The idle window, where `none` is `kNoIdleExpiry`.
  unfoldable pub is_expired : Option ℕ → ℕ → Entry A B → Bool
  is_expired none now e = false
  is_expired (some window) now e = ltb (e.touched_at + window) now

  unfoldable pub live_entry :
      Option ℕ → String → ℕ → Map String (Entry A B) → Map String (Entry A B) × Option (Entry A B)
  live_entry window key now m = elim (Map.lookup key m) [
    | none ↦ (m, none)
    | some e ↦ if is_expired window now e then (Map.erase key m, none) else (m, some e)
  ]

  unfoldable pub put : String → A → ℕ → Map String (Entry A B) → Map String (Entry A B)
  put key snapshot now m =
      Map.insert key (record (entry_of key m) { identity = some snapshot; touched_at = now }) m

  unfoldable pub put_certificates : String → B → ℕ → Map String (Entry A B) → Map String (Entry A B)
  put_certificates key certs now m =
      Map.insert key (record (entry_of key m) { certs = some certs; touched_at = now }) m

  abbrev pub touch : ℕ → Entry A B → Entry A B
  touch now e = record e { touched_at = now }

  unfoldable pub get :
      Option ℕ → String → ℕ → Map String (Entry A B) → Map String (Entry A B) × Option A
  get window key now m =
      let (m', found) = live_entry window key now m in
      elim found [
        | none ↦ (m', none)
        | some e ↦ elim e.identity [
          | none ↦ (m', none)
          | some snapshot ↦ (Map.insert key (touch now e) m', some snapshot)
        ]
      ]

  unfoldable pub get_certificates :
      Option ℕ → String → ℕ → Map String (Entry A B) → Map String (Entry A B) × Option B
  get_certificates window key now m =
      let (m', found) = live_entry window key now m in
      elim found [
        | none ↦ (m', none)
        | some e ↦ elim e.certs [
          | none ↦ (m', none)
          | some certs ↦ (Map.insert key (touch now e) m', some certs)
        ]
      ]

  unfoldable pub invalidate : String → Map String (Entry A B) → Map String (Entry A B)
  invalidate key m = Map.erase key m

-- What reaches the cache.
pub data Event (A B : Type 0) : Type 0 where
  puts : String → A → ℕ → Event A B
  puts_certificates : String → B → ℕ → Event A B
  gets gets_certificates : String → ℕ → Event A B
  invalidates : String → Event A B
  clears : Event A B
