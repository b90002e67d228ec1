-- ===== src/Cache/Snapshot.antt =====
-- src/cache/CredentialSnapshotCache.cpp: the list of a card's credentials with a version, by which a client
-- says which list it means. The records are a parameter, the clock's value is an argument, one for each
-- call of a method, and the zeroing of memory is left out.
pub mod Versions
mod Runs
use libre_agent.Common.{
  ℕ, ◌+◌, ◌%◌, ◌^◌, Bool, true, false, Option, none, some, List, [], ◌∷◌, String, ltb,
  if◌then◌else◌, text_key,
}
use libre_agent.Common.Map
use libre_agent.Common.Map.{Map}

pub record CredentialSnapshot (R : Type 0) : Type 0 where
  pub records : R
  pub version : ℕ

pub record Entry (R : Type 0) : Type 0 where
  pub snapshot : CredentialSnapshot R
  pub touched_at : ℕ

pub record SnapshotCache (R : Type 0) : Type 0 where
  pub entries : Map String (Entry R)
  pub next_version : ℕ

module _ {R : Type 0} where
  abbrev pub empty : SnapshotCache R
  empty = record { entries = []; next_version = 1 }

  unfoldable pub live_entry :
      ℕ → String → ℕ → Map String (Entry R) → Map String (Entry R) × Option (Entry R)
  live_entry window key now m = elim (Map.lookup key m) [
    | none ↦ (m, none)
    | some e ↦ if ltb (e.touched_at + window) now then (Map.erase key m, none) else (m, some e)
  ]

  abbrev pub entry_for : R → ℕ → ℕ → Entry R
  entry_for records version now = record {
    snapshot = record { records = records; version = version };
    touched_at = now;
  }

  -- `put` gives the list the next version and returns it.
  unfoldable pub put : String → R → ℕ → SnapshotCache R → SnapshotCache R × ℕ
  put key records now c = (
    record {
      entries = Map.insert key (entry_for records c.next_version now) c.entries;
      next_version = (c.next_version + 1) % 2 ^ 64;
    },
    c.next_version,
  )

  unfoldable pub get :
      ℕ → String → ℕ → SnapshotCache R → SnapshotCache R × Option (CredentialSnapshot R)
  get window key now c =
      let (m, found) = live_entry window key now c.entries in
      elim found [
        | none ↦ (record c { entries = m }, none)
        | some e ↦ (
          record c { entries = Map.insert key (record e { touched_at = now }) m },
          some e.snapshot,
        )
      ]

  unfoldable pub invalidate : String → SnapshotCache R → SnapshotCache R
  invalidate key c = record c { entries = Map.erase key c.entries }

  unfoldable pub clear : SnapshotCache R → SnapshotCache R
  clear c = record c { entries = [] }

pub data Event (R : Type 0) : Type 0 where
  puts : String → R → ℕ → Event R
  gets : String → ℕ → Event R
  invalidates : String → Event R
  clears : Event R

module _ {R : Type 0} where
  unfoldable pub step : ℕ → SnapshotCache R → Event R → SnapshotCache R
  step window c (puts key records now) = (put key records now c).0
  step window c (gets key now) = (get window key now c).0
  step window c (invalidates key) = invalidate key c
  step window c clears = clear c

  -- The cache after a history, newest event first.
  unfoldable pub after : ℕ → List (Event R) → SnapshotCache R
  after window [] = empty
  after window (event ∷ past) = step window (after window past) event
