-- ===== src/Cache/CardRead/Expiry.antt =====
-- How long the read cache keeps what it has.
use libre_agent.Common.{
  ℕ, ◌+◌, ◌≤◌, ◌≡◌, refl, ap, sym, subst, true, false, Option, none, leb, some, List, [], ◌∷◌,
  String, ◌⊎◌, inl, inr, arith, Bool-cases, text_key, beq_refl,
}
use libre_agent.Common.Map
use libre_agent.Common.Map.{Map}
use libre_agent.Common.Trace.{Since}
use libre_agent.Cache.CardRead.{
  Entry, entry_of, is_expired, live_entry, put, get, get_certificates, invalidate, Event, puts,
  puts_certificates, gets, gets_certificates, invalidates, clears,
}
use libre_agent.Cache.CardRead.History.{
  step, after, lookup-put, lookup-put_certificates, lookup-get, lookup-get_certificates,
  get_identity,
}
use text.Mathlib.Text.{◌==◌ as text_eq}

module _ {A B : Type 0} where
  -- The event puts or reads something of the card at that time.
  abbrev pub Touches : String → ℕ → Event A B → Type 0
  Touches key t (puts k snapshot now) = (text_eq k key ≡ true) × (now ≡ t)
  Touches key t (puts_certificates k certs now) = (text_eq k key ≡ true) × (now ≡ t)
  Touches key t (gets k now) = (text_eq k key ≡ true) × (now ≡ t)
  Touches key t (gets_certificates k now) = (text_eq k key ≡ true) × (now ≡ t)
  Touches key t event = ⊥

  step_touched :
      (window : Option ℕ) (key : String) (m : Map String (Entry A B)) (event : Event A B)
      (e : Entry A B)
      → Map.lookup key (step window m event) ≡ some e
      → Touches key e.touched_at event
        ⊎ ((old : Entry A B) × (Map.lookup key m ≡ some old) × (old.touched_at ≡ e.touched_at))
  unfolding step
  step_touched window key m (puts k snapshot now) e h = elim (Bool-cases (text_eq k key)) [
    | inl same ↦ inl (same, ground (arith, lookup-put k key snapshot now m))
    | inr other ↦ inr (e, ground (arith, lookup-put k key snapshot now m), refl)
  ]
  step_touched window key m (puts_certificates k certs now) e h =
      elim (Bool-cases (text_eq k key)) [
        | inl same ↦ inl (same, ground (arith, lookup-put_certificates k key certs now m))
        | inr other ↦ inr (e, ground (arith, lookup-put_certificates k key certs now m), refl)
      ]
  step_touched window key m (gets k now) e h = elim (lookup-get window k key now m e h) [
    | inl same ↦ inr (e, same, refl)
    | inr (here, (old, was, touched)) ↦ inl (here, ap (λ x. x.touched_at) (sym touched))
  ]
  step_touched window key m (gets_certificates k now) e h =
      elim (lookup-get_certificates window k key now m e h) [
        | inl same ↦ inr (e, same, refl)
        | inr (here, (old, was, touched)) ↦ inl (here, ap (λ x. x.touched_at) (sym touched))
      ]
  step_touched window key m (invalidates k) e h =
      inr (e, unfold invalidate in ground (arith, Map.lookup-erase k key m), refl)
  step_touched window key m clears e h = absurd (unfold Map.lookup in ground arith)

  after_touched :
      (window : Option ℕ) (key : String) (past : List (Event A B)) (e : Entry A B) (t : ℕ)
      → Map.lookup key (after window past) ≡ some e
      → e.touched_at ≡ t
      → Since (Touches key t) (λ _. false) past
  unfolding after
  after_touched window key [] e t h at = absurd (unfold Map.lookup in ground arith)
  after_touched window key (event ∷ past) e t h at =
      elim (step_touched window key (after window past) event e h) [
        | inl touch ↦ inl (subst (λ u. Touches key u event) at touch)
        | inr (old, was, same) ↦ inr (refl, after_touched window key past old t was (ground arith))
      ]

  live_within :
      (window now : ℕ) (e : Entry A B)
      → is_expired (some window) now e ≡ false
      → now ≤ e.touched_at + window
  unfolding is_expired
  live_within window now e h = ground arith

  -- With an idle window, a read is answered only where something of that card was put or read within the window
  -- before it.
  pub get_within :
      (window : ℕ) (key : String) (now : ℕ) (v : A) (past : List (Event A B))
      → (get (some window) key now (after (some window) past)).1 ≡ some v
      → (t : ℕ) × (now ≤ t + window) × Since (Touches key t) (λ _. false) past
  get_within window key now v past h =
      let (e, found, live, _) = get_identity (some window) key now (after (some window) past) v h in
      (
        e.touched_at,
        live_within window now e live,
        after_touched (some window) key past e e.touched_at found refl,
      )

  -- A put of the identity keeps the certificates of the card, however long they have been idle, and they
  -- are read again for a whole window after it.
  pub get_certificates-put :
      (window : Option ℕ) (key : String) (snapshot : A) (certs : B) (e : Entry A B) (put_at now : ℕ)
      (m : Map String (Entry A B))
      → Map.lookup key m ≡ some e
      → e.certs ≡ some certs
      → elim window [ none ↦ true | some w ↦ leb now (put_at + w) ] ≡ true
      → (get_certificates window key now (put key snapshot put_at m)).1 ≡ some certs
  unfolding get_certificates live_entry is_expired
  get_certificates-put window key snapshot certs e put_at now m found has live =
      unfold entry_of in
      ground (arith, lookup-put key key snapshot put_at m, beq_refl ⦃k = text_key⦄ key)
