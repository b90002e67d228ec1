-- ===== src/Cache/Snapshot/Versions.antt =====
-- The versions of the lists of credentials, over whole histories.
use libre_agent.Common.{
  ℕ, suc, sym, subst, ◌+◌, ◌%◌, ◌^◌, ◌≤◌, ◌<◌, ◌≡◌, All, Option, refl, none, some, List, [], ◌∷◌,
  String, arith, length, Bool-cases, Option-cases, inl, inr, text_key, ltb,
}
use libre_agent.Common.Map
use libre_agent.Common.Map.{Map}
use libre_agent.Common.Values.{
  AllValues, insert-AllValues, erase_if-AllValues, map-AllValues, lookup-AllValues,
}
use libre_agent.Cache.Snapshot.{
  CredentialSnapshot, entry_for, Entry, SnapshotCache, live_entry, put, get, invalidate, clear,
  Event, puts, gets, invalidates, clears, step, after,
}
use text.Mathlib.Text.{◌==◌ as text_eq}

below_more :
    (n m : ℕ) (versions : List ℕ) → n ≤ m → All (λ v. v < n) versions → All (λ v. v < m) versions
below_more n m [] le h = tt
below_more n m (v ∷ versions) le h = (omega (arith, h.0, le), below_more n m versions le h.1)

module _ {R : Type 0} where
  abbrev Below : ℕ → Entry R → Type 0
  Below n e = e.snapshot.version < n

  record Issued (n : ℕ) (c : SnapshotCache R) : Type 0 where
    pub few : c.next_version ≤ n + 1
    pub below : AllValues (Below c.next_version) c.entries

  get-Below :
      (window : ℕ) (key : String) (now n : ℕ) (c : SnapshotCache R)
      → AllValues (Below n) c.entries
      → AllValues (Below n) (get window key now c).0.entries
  unfolding get live_entry Map.erase
  get-Below window key now n c h = elim (Option-cases (Map.lookup key c.entries)) [
    | inl e ↦ ground (arith, h)
    | inr (e, found) ↦ elim (Bool-cases (ltb (e.touched_at + window) now)) [
      | inl old ↦ ground (arith, erase_if-AllValues (Below n) (λ k _. text_eq k key) c.entries h)
      | inr young ↦ ground (
        arith,
        insert-AllValues (Below n) key (record e { touched_at = now }) c.entries
            (lookup-AllValues (Below n) key e c.entries h found) h,
      )
    ]
  ]

  get_next :
      (window : ℕ) (key : String) (now : ℕ) (c : SnapshotCache R)
      → (get window key now c).0.next_version ≡ c.next_version
  unfolding get live_entry
  get_next window key now c = ground arith

  put-Issued :
      (n : ℕ) (key : String) (records : R) (now : ℕ) (c : SnapshotCache R)
      → n + 2 < 2 ^ 64
      → Issued n c
      → Issued (suc n) (put key records now c).0
  unfolding put
  put-Issued n key records now c h v = record {
    few = omega (arith, v.few, h);
    below =
        insert-AllValues (Below ((c.next_version + 1) % 2 ^ 64)) key
          (entry_for records c.next_version now) c.entries (omega (arith, v.few, h))
          (map-AllValues (Below c.next_version) (Below ((c.next_version + 1) % 2 ^ 64)) c.entries
            (λ e old. omega (arith, v.few, h)) v.below);
  }

  after-Issued :
      (window : ℕ) (past : List (Event R))
      → length past + 1 < 2 ^ 64
      → Issued (length past) (after window past)
  unfolding after step invalidate Map.erase clear
  after-Issued window [] h = record { few = omega arith; below = tt }
  after-Issued window (puts key records now ∷ past) h =
      put-Issued (length past) key records now (after window past) (omega arith)
        (after-Issued window past (omega arith))
  after-Issued window (gets key now ∷ past) h =
      let v = after-Issued window past (omega arith) in
      record {
        few = omega (arith, v.few, get_next window key now (after window past));
        below =
            subst (λ n. AllValues (Below n) (get window key now (after window past)).0.entries)
              (sym (get_next window key now (after window past)))
              (get-Below window key now (after window past).next_version (after window past)
                v.below);
      }
  after-Issued window (invalidates key ∷ past) h =
      let v = after-Issued window past (omega arith) in
      record {
        few = omega (arith, v.few);
        below =
            erase_if-AllValues (Below (after window past).next_version) (λ k _. text_eq k key)
              (after window past).entries v.below;
      }
  after-Issued window (clears ∷ past) h =
      let v = after-Issued window past (omega arith) in
      record { few = omega (arith, v.few); below = tt }

  get_found :
      (window : ℕ) (key : String) (now : ℕ) (c : SnapshotCache R) (s : CredentialSnapshot R)
      → (get window key now c).1 ≡ some s
      → (e : Entry R) × (Map.lookup key c.entries ≡ some e) × (e.snapshot ≡ s)
  unfolding get live_entry
  get_found window key now c s h = elim (Option-cases (Map.lookup key c.entries)) [
    | inl e ↦ absurd (ground arith)
    | inr (e, found) ↦ (e, found, ground arith)
  ]

  got_older :
      (window : ℕ) (past : List (Event R)) (key : String) (now : ℕ) (s : CredentialSnapshot R)
      → length past + 1 < 2 ^ 64
      → (get window key now (after window past)).1 ≡ some s
      → s.version < (after window past).next_version
  got_older window past key now s h got =
      let (e, found, same) = get_found window key now (after window past) s got in
      let v = after-Issued window past h in
      subst (λ r. r.version < (after window past).next_version) same
        (lookup-AllValues (Below (after window past).next_version) key e (after window past).entries
          v.below found)

  abbrev handed : Option (CredentialSnapshot R) → List ℕ → List ℕ
  handed none versions = versions
  handed (some s) versions = s.version ∷ versions

  handed_below :
      (n : ℕ) (found : Option (CredentialSnapshot R)) (versions : List ℕ)
      → ((s : CredentialSnapshot R) → found ≡ some s → s.version < n)
      → All (λ v. v < n) versions
      → All (λ v. v < n) (handed found versions)
  handed_below n none versions old h = h
  handed_below n (some s) versions old h = (old s refl, h)

  -- The versions that the puts of a history have returned and its gets have handed out.
  unfoldable pub seen : ℕ → List (Event R) → List ℕ
  seen window [] = []
  seen window (puts key records now ∷ past) =
      (put key records now (after window past)).1 ∷ seen window past
  seen window (gets key now ∷ past) =
      handed (get window key now (after window past)).1 (seen window past)
  seen window (event ∷ past) = seen window past

  seen_below :
      (window : ℕ) (past : List (Event R))
      → length past + 1 < 2 ^ 64
      → All (λ v. v < (after window past).next_version) (seen window past)
  unfolding seen after step invalidate clear put
  seen_below window [] h = tt
  seen_below window (puts key records now ∷ past) h =
      let v = after-Issued window past (omega arith) in
      (
        omega (arith, v.few),
        below_more _ _ (seen window past) (omega (arith, v.few))
            (seen_below window past (omega arith)),
      )
  seen_below window (gets key now ∷ past) h =
      let c = after window past in
      subst (λ n. All (λ v. v < n) (handed (get window key now c).1 (seen window past)))
        (sym (get_next window key now c))
        (handed_below c.next_version (get window key now c).1 (seen window past)
          (λ s e. got_older window past key now s (omega arith) e)
          (seen_below window past (omega arith)))
  seen_below window (invalidates key ∷ past) h = seen_below window past (omega arith)
  seen_below window (clears ∷ past) h = seen_below window past (omega arith)

  -- In a run of fewer than 2^64 - 1 events, a list that is put gets a version above every version that a put
  -- has returned or a get has handed out before, of whatever card and whatever was invalidated or cleared
  -- since, so no client takes a new list for one it has.
  pub put_newer :
      (window : ℕ) (past : List (Event R)) (key : String) (records : R) (now : ℕ)
      → length past + 1 < 2 ^ 64
      → All (λ v. v < (put key records now (after window past)).1) (seen window past)
  unfolding put
  put_newer window past key records now h = seen_below window past h
