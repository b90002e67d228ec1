-- ===== src/Pkcs11/Session/Model.antt =====
-- The refresh of the slots by a new snapshot, and the search for objects.
pub mod Refresh
pub mod Survivors
use libre_agent.Common.{
  ℕ, suc, ◌+◌, ◌%◌, ◌^◌, Bool, true, false, not, ◌&&◌, ◌||◌, Option, none, some, List, [], ◌∷◌,
  ◌++◌, String, ◌==◌, if◌then◌else◌, nat_key, text_key, take,
}
use libre_agent.Common.Map
use libre_agent.Common.Map.{Map}
use libre_agent.Pkcs11.Attribute.{
  Attribute, scalar_of, cka_class, cka_id, cka_token, cka_key_type, cka_private, cko_public_key,
  cko_private_key, ckk_ec, ckk_rsa,
}
use libre_agent.Pkcs11.DerivedKeys.{DerivedKey, passes, same_bytes, derived_key_matches}
use libre_agent.Pkcs11.Objects.{Object, Slot, is_ec}
use libre_agent.Pkcs11.Session.{SessionState, end_login, derived_key, encode_handle}
use text.Mathlib.Text.{◌==◌ as text_eq}

unfoldable pub slot_by_id : ℕ → SessionState → Option Slot
slot_by_id id s = Map.lookup id s.slots

unfoldable pub ids_among : Bool → Map ℕ Slot → List ℕ
ids_among token_present_only [] = []
ids_among token_present_only ((id, slot) ∷ slots) =
    if token_present_only && not slot.token_present
    then ids_among token_present_only slots
    else id ∷ ids_among token_present_only slots

unfoldable pub slot_ids : Bool → SessionState → List ℕ
unfolding ids_among
slot_ids token_present_only s = ids_among token_present_only s.slots

-- The id of a reader, minted when it is new.
unfoldable pub place_slot : Slot → SessionState → SessionState
place_slot slot s = elim (Map.lookup slot.reader_path s.reader_to_slot) [
  | some id ↦ record s { slots = Map.insert id slot s.slots }
  | none ↦ record s {
    slots = Map.insert s.next_slot_id slot s.slots;
    reader_to_slot = Map.insert slot.reader_path s.next_slot_id s.reader_to_slot;
    next_slot_id = (s.next_slot_id + 1) % 2 ^ 64;
  }
]

unfoldable pub place_slots : List Slot → SessionState → SessionState
unfolding place_slot
place_slots [] s = s
place_slots (slot ∷ model) s = place_slots model (place_slot slot s)

abbrev pub shown_serial : Slot → String
shown_serial slot = if slot.token_present then slot.token_serial else ""

-- Whether the token that a slot showed with this serial is the one that it shows now.
unfoldable pub same_token : String → Option Slot → Bool
same_token serial now = not (text_eq serial "") && elim now [
  | none ↦ false
  | some slot ↦ slot.token_present && text_eq slot.token_serial serial
]

unfoldable pub end_stale : Map ℕ Slot → SessionState → SessionState
unfolding slot_by_id same_token end_login
end_stale [] s = s
end_stale ((id, old) ∷ before) s =
    end_stale before (if same_token (shown_serial old) (slot_by_id id s) then s else end_login id s)

unfoldable pub set_model : List Slot → SessionState → SessionState
unfolding place_slots end_stale
set_model model s = end_stale s.slots (place_slots model (record s { slots = [] }))

unfoldable pub is_key : ℕ → Bool
is_key cls = cls == cko_public_key || cls == cko_private_key

-- One selector of a template against an object of the card.
unfoldable pub object_matches_one : Object → Attribute → Bool
unfolding is_key same_bytes
object_matches_one obj a =
    if a.kind == cka_class
    then passes (scalar_of 8 a) (λ c. c == obj.cls)
    else if a.kind == cka_id
    then same_bytes a obj.cka_id
    else if a.kind == cka_token
    then passes (scalar_of 1 a) (λ b. b == 1)
    else if a.kind == cka_key_type
    then passes (scalar_of 8 a)
        (λ k. is_key obj.cls && k == (if is_ec obj.key_type then ckk_ec else ckk_rsa))
    else if a.kind == cka_private
    then passes (scalar_of 1 a) (λ b. b == (if obj.cls == cko_private_key then 1 else 0))
    else true

unfoldable pub object_matches : Object → List Attribute → Bool
unfolding object_matches_one
object_matches obj [] = true
object_matches obj (a ∷ tmpl) = object_matches_one obj a && object_matches obj tmpl

-- The handles of the objects that match, the first of which has this index.
unfoldable pub matching_objects : ℕ → ℕ → List Attribute → List Object → List ℕ
unfolding object_matches
matching_objects slot i tmpl [] = []
matching_objects slot i tmpl (obj ∷ objects) =
    if object_matches obj tmpl
    then encode_handle slot i ∷ matching_objects slot (suc i) tmpl objects
    else matching_objects slot (suc i) tmpl objects

-- The derived keys that match and that the session sees.
unfoldable pub matching_derived : ℕ → List Attribute → SessionState → Map ℕ DerivedKey → List ℕ
matching_derived session tmpl s [] = []
matching_derived session tmpl s ((h, key) ∷ derived) =
    if elim (derived_key session h s) [ none ↦ false | some _ ↦ derived_key_matches key tmpl ]
    then h ∷ matching_derived session tmpl s derived
    else matching_derived session tmpl s derived

unfoldable pub find_matches : ℕ → ℕ → List Attribute → SessionState → List ℕ
unfolding slot_by_id matching_objects matching_derived
find_matches session slot tmpl s = elim (slot_by_id slot s) [
  | none ↦ []
  | some x ↦ matching_objects slot 0 tmpl x.objects ++ matching_derived session tmpl s s.derived
]
