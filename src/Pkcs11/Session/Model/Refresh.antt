-- ===== src/Pkcs11/Session/Model/Refresh.antt =====
-- What a refresh leaves of logins and of the ids of slots.
use libre_agent.Common.{
  on_if, ℕ, ◌≡◌, refl, Bool, true, not, if◌then◌else◌, ◌&&◌, ◌||◌, Option, none, some, false, List,
  [], ◌∷◌, String, ◌==◌, inl, inr, arith, Bool-cases, Option-cases, ==_iff, nat_key, text_key, ◌∙◌,
  ap,
}
use text.Mathlib.Text.{◌==◌ as text_eq}
use text.Mathlib.TextEquality.{eq_iff}
use libre_agent.Common.Map
use libre_agent.Common.Map.{Map}
use libre_agent.Pkcs11.Objects.{Slot}
use libre_agent.Pkcs11.Session.{SessionState, end_login, destroy_derived_keys_of_slot}
use libre_agent.Pkcs11.Session.Model.{
  slot_by_id, place_slot, place_slots, shown_serial, same_token, end_stale, set_model,
}

-- Every token that the slot showed before had a serial and is there still, under the same one.
unfoldable pub still_there : ℕ → Map ℕ Slot → Option Slot → Bool
still_there id [] now = true
still_there id ((i, old) ∷ before) now =
    (not (i == id)
      || (old.token_present && not (text_eq old.token_serial "") && elim now [
        | none ↦ false
        | some slot ↦ slot.token_present && text_eq slot.token_serial old.token_serial
      ]))
    && still_there id before now

pub same_token_shown :
    (present : Bool) (serial : String) (now : Option Slot)
    → same_token (if present then serial else "") now ≡ (
        present && not (text_eq serial "") && elim now [
          | none ↦ false
          | some slot ↦ slot.token_present && text_eq slot.token_serial serial
        ])
unfolding same_token
same_token_shown true serial now = refl
same_token_shown false serial now = refl

pub slots-end_login : (id : ℕ) (s : SessionState) → (end_login id s).slots ≡ s.slots
unfolding end_login destroy_derived_keys_of_slot
slots-end_login id s = refl

pub slots-end_stale :
    (before : Map ℕ Slot) (s : SessionState) → (end_stale before s).slots ≡ s.slots
unfolding end_stale
slots-end_stale [] s = refl
slots-end_stale ((i, old) ∷ before) s =
    slots-end_stale before _
    ∙ on_if (λ x. x.slots ≡ s.slots) (same_token (shown_serial old) (slot_by_id i s)) s
        (end_login i s) (λ _. refl) (λ _. slots-end_login i s)

-- Each slot stands under the id of its reader.
abbrev Placed : SessionState → Type 0
Placed s =
    (id : ℕ) (slot : Slot)
    → Map.lookup id s.slots ≡ some slot
    → Map.lookup slot.reader_path s.reader_to_slot ≡ some id

place_slot-Placed : (slot : Slot) (s : SessionState) → Placed s → Placed (place_slot slot s)
unfolding place_slot
place_slot-Placed slot s inv id x e =
    elim (Option-cases (Map.lookup slot.reader_path s.reader_to_slot)) [
      | inl fresh ↦ elim (Bool-cases (s.next_slot_id == id)) [
        | inl same ↦ ground (
          arith,
          e,
          fresh,
          inv id x,
          Map.lookup-insert s.next_slot_id id slot s.slots,
          eq_iff slot.reader_path x.reader_path,
          Map.lookup-insert slot.reader_path x.reader_path s.next_slot_id s.reader_to_slot,
          ==_iff s.next_slot_id id,
        )
        | inr other ↦ ground (
          arith,
          e,
          fresh,
          inv id x,
          Map.lookup-insert s.next_slot_id id slot s.slots,
          eq_iff slot.reader_path x.reader_path,
          Map.lookup-insert slot.reader_path x.reader_path s.next_slot_id s.reader_to_slot,
          ==_iff s.next_slot_id id,
        )
      ]
      | inr (known, k) ↦ elim (Bool-cases (known == id)) [
        | inl same ↦ ground (
          arith,
          e,
          k,
          inv id x,
          Map.lookup-insert known id slot s.slots,
          eq_iff slot.reader_path x.reader_path,
          Map.lookup-insert slot.reader_path x.reader_path s.next_slot_id s.reader_to_slot,
          ==_iff known id,
        )
        | inr other ↦ ground (
          arith,
          e,
          k,
          inv id x,
          Map.lookup-insert known id slot s.slots,
          eq_iff slot.reader_path x.reader_path,
          Map.lookup-insert slot.reader_path x.reader_path s.next_slot_id s.reader_to_slot,
          ==_iff known id,
        )
      ]
    ]

place_slot_keeps :
    (slot : Slot) (s : SessionState) (r : String) (id : ℕ)
    → Map.lookup r s.reader_to_slot ≡ some id
    → Map.lookup r (place_slot slot s).reader_to_slot ≡ some id
unfolding place_slot
place_slot_keeps slot s r id e = ground (
  arith,
  e,
  eq_iff slot.reader_path r,
  Map.lookup-insert slot.reader_path r s.next_slot_id s.reader_to_slot,
)

place_slots-Placed :
    (model : List Slot) (s : SessionState) → Placed s → Placed (place_slots model s)
unfolding place_slots
place_slots-Placed [] s inv = inv
place_slots-Placed (slot ∷ model) s inv =
    place_slots-Placed model (place_slot slot s) (place_slot-Placed slot s inv)

place_slots_keeps :
    (model : List Slot) (s : SessionState) (r : String) (id : ℕ)
    → Map.lookup r s.reader_to_slot ≡ some id
    → Map.lookup r (place_slots model s).reader_to_slot ≡ some id
unfolding place_slots
place_slots_keeps [] s r id e = e
place_slots_keeps (slot ∷ model) s r id e =
    place_slots_keeps model (place_slot slot s) r id (place_slot_keeps slot s r id e)

nothing-Placed : (s : SessionState) → Placed (record s { slots = [] })
unfolding Map.lookup
nothing-Placed s id slot h = absurd (ground (arith, h))

module _ (model : List Slot) (s : SessionState) where
  abbrev placed : SessionState
  placed = place_slots model (record s { slots = [] })

  -- A reader that had a slot before a refresh, in it or in an earlier one, has it under the same id afterwards.
  pub set_model_keeps :
      (id before : ℕ) (slot : Slot)
      → Map.lookup slot.reader_path s.reader_to_slot ≡ some before
      → slot_by_id id (set_model model s) ≡ some slot
      → id ≡ before
  unfolding set_model slot_by_id
  set_model_keeps id before slot known e = ground (
    arith,
    e,
    ap (λ (m : Map ℕ Slot). Map.lookup id m) (slots-end_stale s.slots placed),
    place_slots-Placed model (record s { slots = [] }) (nothing-Placed s) id slot,
    place_slots_keeps model (record s { slots = [] }) slot.reader_path before known,
  )
