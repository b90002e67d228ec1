-- ===== src/Pkcs11/Session/Model/Survivors.antt =====
-- Which derived keys a refresh leaves.
use libre_agent.Common.{
  ℕ, ◌≡◌, refl, sym, ap, subst, ◌∙◌, Bool, true, false, some, List, [], ◌∷◌, ◌==◌, inl, inr, on_if,
  arith, Bool-cases, Option-cases, nat_key, ==_iff,
}
use libre_agent.Common.Map
use libre_agent.Common.Map.{Map}
use libre_agent.Common.Unique.{Unique, erase_if-Unique, lookup-erase_if_entry}
use libre_agent.Pkcs11.Objects.{Slot}
use libre_agent.Pkcs11.Session.{DerivedKey, SessionState, end_login, destroy_derived_keys_of_slot}
use libre_agent.Pkcs11.Session.Model.{
  slot_by_id, place_slot, place_slots, shown_serial, same_token, end_stale, set_model,
}
use libre_agent.Pkcs11.Session.Model.Refresh.{
  still_there, same_token_shown, slots-end_login, slots-end_stale,
}

abbrev pub of_slot : ℕ → ℕ → DerivedKey → Bool
of_slot slot i key = key.slot == slot

pub kept_entry :
    (p : ℕ → DerivedKey → Bool) (h : ℕ) (m : Map ℕ DerivedKey) (key : DerivedKey)
    → Unique m
    → Map.lookup h (Map.erase_if p m) ≡ some key
    → (p h key ≡ false) × (Map.lookup h m ≡ some key)
kept_entry p h m key u e = elim (Option-cases (Map.lookup h m)) [
  | inl f ↦ absurd (ground (arith, lookup-erase_if_entry p h m u))
  | inr (old, f) ↦ ground (arith, lookup-erase_if_entry p h m u, Bool-cases (p h old))
]

pub end_login-Unique :
    (slot : ℕ) (s : SessionState) → Unique s.derived → Unique (end_login slot s).derived
unfolding end_login destroy_derived_keys_of_slot
end_login-Unique slot s u = erase_if-Unique (of_slot slot) s.derived u

end_stale-Unique :
    (before : Map ℕ Slot) (s : SessionState)
    → Unique s.derived
    → Unique (end_stale before s).derived
unfolding end_stale
end_stale-Unique [] s u = u
end_stale-Unique ((i, old) ∷ before) s u = end_stale-Unique before _ (
    on_if (λ x. Unique x.derived) (same_token (shown_serial old) (slot_by_id i s)) s (end_login i s)
      (λ _. u) (λ _. end_login-Unique i s u))

end_login_kept :
    (i h : ℕ) (s : SessionState) (key : DerivedKey)
    → Unique s.derived
    → Map.lookup h (end_login i s).derived ≡ some key
    → ((key.slot == i) ≡ false) × (Map.lookup h s.derived ≡ some key)
unfolding end_login destroy_derived_keys_of_slot
end_login_kept i h s key u e = kept_entry (of_slot i) h s.derived key u e

end_stale_kept :
    (before : Map ℕ Slot) (h : ℕ) (s : SessionState) (key : DerivedKey)
    → Unique s.derived
    → Map.lookup h (end_stale before s).derived ≡ some key
    → (Map.lookup h s.derived ≡ some key)
      × (still_there key.slot before (Map.lookup key.slot s.slots) ≡ true)
unfolding end_stale still_there slot_by_id
end_stale_kept [] h s key u e = (e, refl)
end_stale_kept ((i, old) ∷ before) h s key u e =
    elim (Bool-cases (same_token (shown_serial old) (Map.lookup i s.slots))) [
      | inl same ↦ ground (
        arith,
        same,
        e,
        same_token_shown old.token_present old.token_serial (Map.lookup i s.slots),
        end_stale_kept before h s key u,
        ==_iff i key.slot,
      )
      | inr gone ↦ ground (
        arith,
        gone,
        e,
        end_login_kept i h s key u,
        end_stale_kept before h (end_login i s) key (end_login-Unique i s u),
        ap (λ (m : Map ℕ Slot). Map.lookup key.slot m) (slots-end_login i s),
        ==_iff i key.slot,
        ==_iff key.slot i,
      )
    ]

derived-place_slot : (slot : Slot) (s : SessionState) → (place_slot slot s).derived ≡ s.derived
unfolding place_slot
derived-place_slot slot s = ground arith

derived-place_slots :
    (model : List Slot) (s : SessionState) → (place_slots model s).derived ≡ s.derived
unfolding place_slots
derived-place_slots [] s = refl
derived-place_slots (slot ∷ model) s =
    derived-place_slots model (place_slot slot s) ∙ derived-place_slot slot s

module _ (model : List Slot) (s : SessionState) where
  abbrev placed : SessionState
  placed = place_slots model (record s { slots = [] })

  placed-Unique : Unique s.derived → Unique placed.derived
  placed-Unique u = subst Unique (sym (derived-place_slots model (record s { slots = [] }))) u

  pub set_model-Unique : Unique s.derived → Unique (set_model model s).derived
  unfolding set_model
  set_model-Unique u = end_stale-Unique s.slots placed (placed-Unique u)

  -- A key that a refresh leaves was there before, and every token that its slot showed before is there still.
  pub set_model_kept :
      (h : ℕ) (key : DerivedKey)
      → Unique s.derived
      → Map.lookup h (set_model model s).derived ≡ some key
      → (Map.lookup h s.derived ≡ some key)
        × (still_there key.slot s.slots (slot_by_id key.slot (set_model model s)) ≡ true)
  unfolding set_model slot_by_id
  set_model_kept h key u e =
      let (old, there) = end_stale_kept s.slots h placed key (placed-Unique u) e in
      (
        ap (Map.lookup h) (sym (derived-place_slots model (record s { slots = [] }))) ∙ old,
        ap (λ (m : Map ℕ Slot). still_there key.slot s.slots (Map.lookup key.slot m))
              (slots-end_stale s.slots placed)
            ∙ there,
      )
