-- ===== src/Cache/CardRead/Latest.antt =====
-- What a read of the read cache answers against the last put of the history.
use libre_agent.Common.{
  leb, ◌+◌, beq_refl, ℕ, ◌≡◌, ◌∙◌, refl, sym, true, Option, none, some, List, [], ◌∷◌, String, ◌⊎◌,
  inl, inr, arith, if◌then◌else◌, Option-cases, text_key,
}
use libre_agent.Common.Map
use libre_agent.Common.Map.{Map}
use libre_agent.Common.Trace.{Since}
use libre_agent.Cache.CardRead.{
  Entry, entry_of, is_expired, live_entry, put, touch, get, get_certificates, invalidate, Event,
  puts, puts_certificates, gets, gets_certificates, invalidates, clears,
}
use libre_agent.Cache.CardRead.History.{
  step, after, lookup-put, lookup-put_certificates, identity_of, Supplies, ends, identity_supplied,
  get_identity,
}
use text.Mathlib.Text.{◌==◌ as text_eq}
use text.Mathlib.TextEquality.{eq_iff}

module _ {A B : Type 0} where
  -- The identity that the history put last for the card, unless it was invalidated or all was cleared since.
  unfoldable pub latest_identity : String → List (Event A B) → Option A
  latest_identity key [] = none
  latest_identity key (puts k snapshot now ∷ past) =
      if text_eq k key then some snapshot else latest_identity key past
  latest_identity key (invalidates k ∷ past) =
      if text_eq k key then none else latest_identity key past
  latest_identity key (clears ∷ past) = none
  latest_identity key (event ∷ past) = latest_identity key past

  Since-latest_identity :
      (key : String) (v : A) (past : List (Event A B))
      → Since (Supplies key v) (ends key) past
      → latest_identity key past ≡ some v
  unfolding latest_identity
  Since-latest_identity key v [] h = absurd h
  Since-latest_identity key v (puts k snapshot now ∷ past) (inl (same, given)) =
      ground (arith, same, given, eq_iff k key)
  Since-latest_identity key v (puts k snapshot now ∷ past) (inr (other, h)) =
      ground (arith, other, Since-latest_identity key v past h)
  Since-latest_identity key v (puts_certificates k certs now ∷ past) (inl h) = absurd h
  Since-latest_identity key v (puts_certificates k certs now ∷ past) (inr (other, h)) =
      Since-latest_identity key v past h
  Since-latest_identity key v (gets k now ∷ past) (inl h) = absurd h
  Since-latest_identity key v (gets k now ∷ past) (inr (other, h)) =
      Since-latest_identity key v past h
  Since-latest_identity key v (gets_certificates k now ∷ past) (inl h) = absurd h
  Since-latest_identity key v (gets_certificates k now ∷ past) (inr (other, h)) =
      Since-latest_identity key v past h
  Since-latest_identity key v (invalidates k ∷ past) (inl h) = absurd h
  Since-latest_identity key v (invalidates k ∷ past) (inr (other, h)) =
      ground (arith, other, Since-latest_identity key v past h)
  Since-latest_identity key v (clears ∷ past) (inl h) = absurd h
  Since-latest_identity key v (clears ∷ past) (inr (other, h)) = absurd (ground (arith, other))

  -- Reads change no identity while nothing expires.
  identity_of-get :
      (key k : String) (now : ℕ) (m : Map String (Entry A B))
      → identity_of key (get none k now m).0 ≡ identity_of key m
  unfolding identity_of get live_entry is_expired
  identity_of-get key k now m = elim (Option-cases (Map.lookup k m)) [
    | inl e ↦ ground (arith, e)
    | inr (e, f) ↦ ground (arith, f, eq_iff k key, Map.lookup-insert k key (touch now e) m)
  ]

  identity_of-get_certificates :
      (key k : String) (now : ℕ) (m : Map String (Entry A B))
      → identity_of key (get_certificates none k now m).0 ≡ identity_of key m
  unfolding identity_of get_certificates live_entry is_expired
  identity_of-get_certificates key k now m = elim (Option-cases (Map.lookup k m)) [
    | inl e ↦ ground (arith, e)
    | inr (e, f) ↦ ground (arith, f, eq_iff k key, Map.lookup-insert k key (touch now e) m)
  ]

  identity_of-after :
      (key : String) (past : List (Event A B))
      → identity_of key (after none past) ≡ latest_identity key past
  unfolding after step latest_identity identity_of entry_of invalidate Map.lookup
  identity_of-after key [] = refl
  identity_of-after key (puts k snapshot now ∷ past) =
      let ih = identity_of-after key past in
      ground (arith, ih, lookup-put k key snapshot now (after none past))
  identity_of-after key (puts_certificates k certs now ∷ past) =
      let ih = identity_of-after key past in
      ground (arith, ih, lookup-put_certificates k key certs now (after none past))
  identity_of-after key (gets k now ∷ past) =
      identity_of-get key k now (after none past) ∙ identity_of-after key past
  identity_of-after key (gets_certificates k now ∷ past) =
      identity_of-get_certificates key k now (after none past) ∙ identity_of-after key past
  identity_of-after key (invalidates k ∷ past) =
      let ih = identity_of-after key past in
      ground (arith, ih, Map.lookup-erase k key (after none past))
  identity_of-after key (clears ∷ past) = refl

  get-identity_of :
      (key : String) (now : ℕ) (m : Map String (Entry A B))
      → (get none key now m).1 ≡ identity_of key m
  unfolding identity_of get live_entry is_expired
  get-identity_of key now m = elim (Option-cases (Map.lookup key m)) [
    | inl e ↦ ground (arith, e)
    | inr (e, f) ↦ ground (arith, f, Option-cases e.identity)
  ]

  get-put :
      (window : Option ℕ) (key : String) (v : A) (put_at now : ℕ) (m : Map String (Entry A B))
      → (get window key now (put key v put_at m)).1
        ≡ (if elim window [ none ↦ true | some w ↦ leb now (put_at + w) ] then some v else none)
  unfolding get live_entry is_expired
  get-put window key v put_at now m =
      unfold entry_of in ground (arith, lookup-put key key v put_at m, beq_refl ⦃k = text_key⦄ key)

  given_last :
      (window : Option ℕ) (key : String) (now : ℕ) (v : A) (past : List (Event A B))
      → (get window key now (after window past)).1 ≡ some v
      → latest_identity key past ≡ some v
  given_last window key now v past h =
      let (e, found, live, has) = get_identity window key now (after window past) v h in
      Since-latest_identity key v past
        (identity_supplied window key v past (unfold identity_of in ground (arith, found, has)))

  -- Without an idle window a read of a card answers exactly the identity that was last put for that card, and
  -- nothing after an invalidation or a clearing, whatever happened to other cards and to the certificates.
  -- With a window it answers that identity or nothing, and right after a put of an identity it answers that
  -- identity exactly as long as the window has not passed.
  pub get_last_put :
      (window : Option ℕ) (key : String) (v : A) (put_at now : ℕ) (past : List (Event A B))
      → ((get none key now (after none past)).1 ≡ latest_identity key past)
        × (((get window key now (after window past)).1 ≡ none)
            ⊎ ((get window key now (after window past)).1 ≡ latest_identity key past))
        × ((get window key now (after window (puts key v put_at ∷ past))).1 ≡ (
            if elim window [ none ↦ true | some w ↦ leb now (put_at + w) ] then some v else none))
  unfolding after step
  get_last_put window key v put_at now past = (
    get-identity_of key now (after none past) ∙ identity_of-after key past,
    elim (Option-cases (get window key now (after window past)).1) [
      | inl nothing ↦ inl nothing
      | inr (old, h) ↦ inr (h ∙ sym (given_last window key now old past h))
    ],
    get-put window key v put_at now (after window past),
  )
