-- ===== src/Cache/CardRead/History.antt =====
-- What the read cache hands out, over whole histories.
use libre_agent.Common.{
  ℕ, ◌≡◌, refl, sym, ap, Bool, true, false, Option, none, some, List, [], ◌∷◌, String, ◌⊎◌, inl,
  inr, arith, if◌then◌else◌, Bool-cases, Option-cases, text_key,
}
use libre_agent.Common.Map
use libre_agent.Common.Map.{Map}
use libre_agent.Common.Trace.{Since}
use libre_agent.Cache.CardRead.{
  Entry, entry_of, is_expired, live_entry, put, put_certificates, touch, get, get_certificates,
  invalidate, Event, puts, puts_certificates, gets, gets_certificates, invalidates, clears,
}
use text.Mathlib.Text.{◌==◌ as text_eq}
use text.Mathlib.TextEquality.{eq_iff}

module _ {A B : Type 0} where
  unfoldable pub step : Option ℕ → Map String (Entry A B) → Event A B → Map String (Entry A B)
  step window m (puts key snapshot now) = put key snapshot now m
  step window m (puts_certificates key certs now) = put_certificates key certs now m
  step window m (gets key now) = (get window key now m).0
  step window m (gets_certificates key now) = (get_certificates window key now m).0
  step window m (invalidates key) = invalidate key m
  step window m clears = []

  unfoldable pub after : Option ℕ → List (Event A B) → Map String (Entry A B)
  after window [] = []
  after window (event ∷ past) = step window (after window past) event

  pub lookup-put :
      (key c : String) (snapshot : A) (now : ℕ) (m : Map String (Entry A B))
      → Map.lookup c (put key snapshot now m) ≡ (
          if text_eq key c
          then some (record (entry_of c m) { identity = some snapshot; touched_at = now })
          else Map.lookup c m)
  unfolding put entry_of
  lookup-put key c snapshot now m = ground (
    arith,
    eq_iff key c,
    Map.lookup-insert key c (record (entry_of key m) { identity = some snapshot; touched_at = now })
        m,
  )

  pub lookup-put_certificates :
      (key c : String) (certs : B) (now : ℕ) (m : Map String (Entry A B))
      → Map.lookup c (put_certificates key certs now m) ≡ (
          if text_eq key c
          then some (record (entry_of c m) { certs = some certs; touched_at = now })
          else Map.lookup c m)
  unfolding put_certificates entry_of
  lookup-put_certificates key c certs now m = ground (
    arith,
    eq_iff key c,
    Map.lookup-insert key c (record (entry_of key m) { certs = some certs; touched_at = now }) m,
  )

  -- A read leaves a card's entry alone, takes it away, or touches it.
  pub lookup-get :
      (window : Option ℕ) (key c : String) (now : ℕ) (m : Map String (Entry A B)) (e : Entry A B)
      → Map.lookup c (get window key now m).0 ≡ some e
      → (Map.lookup c m ≡ some e)
        ⊎ ((text_eq key c ≡ true)
            × ((old : Entry A B) × (Map.lookup c m ≡ some old) × (e ≡ touch now old)))
  unfolding get live_entry
  lookup-get window key c now m e h = elim (Option-cases (Map.lookup key m)) [
    | inl f ↦ inl (ground arith)
    | inr (old, f) ↦ elim (Bool-cases (is_expired window now old)) [
      | inl gone ↦ inl (ground (arith, Map.lookup-erase key c m))
      | inr live ↦ elim (Option-cases old.identity) [
        | inl g ↦ inl (ground arith)
        | inr (v, g) ↦ elim (Bool-cases (text_eq key c)) [
          | inl same ↦ inr (
            same,
            (
              old,
              ground (arith, eq_iff key c),
              ground (arith, Map.lookup-insert key c (touch now old) m),
            ),
          )
          | inr other ↦ inl (ground (arith, Map.lookup-insert key c (touch now old) m))
        ]
      ]
    ]
  ]

  pub lookup-get_certificates :
      (window : Option ℕ) (key c : String) (now : ℕ) (m : Map String (Entry A B)) (e : Entry A B)
      → Map.lookup c (get_certificates window key now m).0 ≡ some e
      → (Map.lookup c m ≡ some e)
        ⊎ ((text_eq key c ≡ true)
            × ((old : Entry A B) × (Map.lookup c m ≡ some old) × (e ≡ touch now old)))
  unfolding get_certificates live_entry
  lookup-get_certificates window key c now m e h = elim (Option-cases (Map.lookup key m)) [
    | inl f ↦ inl (ground arith)
    | inr (old, f) ↦ elim (Bool-cases (is_expired window now old)) [
      | inl gone ↦ inl (ground (arith, Map.lookup-erase key c m))
      | inr live ↦ elim (Option-cases old.certs) [
        | inl g ↦ inl (ground arith)
        | inr (v, g) ↦ elim (Bool-cases (text_eq key c)) [
          | inl same ↦ inr (
            same,
            (
              old,
              ground (arith, eq_iff key c),
              ground (arith, Map.lookup-insert key c (touch now old) m),
            ),
          )
          | inr other ↦ inl (ground (arith, Map.lookup-insert key c (touch now old) m))
        ]
      ]
    ]
  ]

  unfoldable pub identity_of : String → Map String (Entry A B) → Option A
  identity_of key m = elim (Map.lookup key m) [ none ↦ none | some e ↦ e.identity ]

  -- The event gives this identity to the card.
  abbrev pub Supplies : String → A → Event A B → Type 0
  Supplies key v (puts k snapshot now) = (k ≡ key) × (snapshot ≡ v)
  Supplies key v event = ⊥

  -- The event takes the card's identity away, or puts another in its place.
  abbrev pub ends : String → Event A B → Bool
  ends key (puts k snapshot now) = text_eq k key
  ends key (invalidates k) = text_eq k key
  ends key clears = true
  ends key event = false

  identity_kept :
      (key : String) (m m' : Map String (Entry A B)) (v : A)
      → ((e : Entry A B)
          → Map.lookup key m' ≡ some e
          → (old : Entry A B) × (Map.lookup key m ≡ some old) × (old.identity ≡ e.identity))
      → identity_of key m' ≡ some v
      → identity_of key m ≡ some v
  unfolding identity_of
  identity_kept key m m' v from h = elim (Option-cases (Map.lookup key m')) [
    | inl none_there ↦ absurd (ground arith)
    | inr (e, found) ↦ let (old, was, same) = from e found in ground arith
  ]

  step_kept :
      (window : Option ℕ) (key : String) (m : Map String (Entry A B)) (event : Event A B) (v : A)
      → identity_of key (step window m event) ≡ some v
      → Supplies key v event ⊎ ((ends key event ≡ false) × (identity_of key m ≡ some v))
  unfolding step
  step_kept window key m (puts k snapshot now) v h = elim (Bool-cases (text_eq k key)) [
    | inl same ↦ inl (
      (eq_iff k key).0 same,
      unfold identity_of in ground (arith, lookup-put k key snapshot now m),
    )
    | inr other ↦ inr (other, unfold identity_of in ground (arith, lookup-put k key snapshot now m))
  ]
  step_kept window key m (puts_certificates k certs now) v h = inr (
    refl,
    unfold identity_of entry_of in ground (arith, lookup-put_certificates k key certs now m),
  )
  step_kept window key m (gets k now) v h = inr (
    refl,
    identity_kept key m _ v
        (λ e found. elim (lookup-get window k key now m e found) [
          | inl same ↦ (e, same, refl)
          | inr (_, (old, was, touched)) ↦ (old, was, ap (λ x. x.identity) (sym touched))
        ])
        h,
  )
  step_kept window key m (gets_certificates k now) v h = inr (
    refl,
    identity_kept key m _ v
        (λ e found. elim (lookup-get_certificates window k key now m e found) [
          | inl same ↦ (e, same, refl)
          | inr (_, (old, was, touched)) ↦ (old, was, ap (λ x. x.identity) (sym touched))
        ])
        h,
  )
  step_kept window key m (invalidates k) v h =
      inr (unfold identity_of invalidate in ground (arith, Map.lookup-erase k key m))
  step_kept window key m clears v h = absurd (unfold identity_of Map.lookup in ground arith)

  pub identity_supplied :
      (window : Option ℕ) (key : String) (v : A) (past : List (Event A B))
      → identity_of key (after window past) ≡ some v
      → Since (Supplies key v) (ends key) past
  unfolding after
  identity_supplied window key v [] h = absurd (unfold identity_of Map.lookup in ground arith)
  identity_supplied window key v (event ∷ past) h =
      elim (step_kept window key (after window past) event v h) [
        | inl supply ↦ inl supply
        | inr (kept, old) ↦ inr (kept, identity_supplied window key v past old)
      ]

  pub get_identity :
      (window : Option ℕ) (key : String) (now : ℕ) (m : Map String (Entry A B)) (v : A)
      → (get window key now m).1 ≡ some v
      → (e : Entry A B) × (Map.lookup key m ≡ some e)
        × (is_expired window now e ≡ false)
        × (e.identity ≡ some v)
  unfolding get live_entry
  get_identity window key now m v h = elim (Option-cases (Map.lookup key m)) [
    | inl f ↦ absurd (ground arith)
    | inr (e, f) ↦
        (e, f, ground (arith, Option-cases e.identity), ground (arith, Option-cases e.identity))
  ]
