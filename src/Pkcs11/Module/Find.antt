-- ===== src/Pkcs11/Module/Find.antt =====
-- src/pkcs11/Module.cpp, C_FindObjectsInit, C_FindObjects and C_FindObjectsFinal. What the names of a certificate are
-- compared with comes from the agent, and is an argument here.
pub mod Batches
use libre_agent.Common.{
  ℕ, zero, suc, Bool, true, false, not, ◌&&◌, ◌||◌, Option, none, some, List, [], ◌∷◌, ◌==◌,
  keep_if, if◌then◌else◌, nat_key, take, drop,
}
use libre_agent.Common.Map
use libre_agent.Pkcs11.Attribute.{Rv, Attribute, cka_issuer, cka_serial_number, cka_subject}
use libre_agent.Pkcs11.DerivedKeys.{equal_bytes}
use libre_agent.Pkcs11.Objects.{Object}
use libre_agent.Pkcs11.Session.{SessionState, FindCursor, no_find}
use libre_agent.Pkcs11.Session.Model.{slot_by_id, find_matches}
use libre_agent.Pkcs11.Module.{update_session}
use libre_agent.Pkcs11.Module.Derive.{is_derived_handle}
use libre_agent.Pkcs11.Module.Serve.{Sources, serve_attribute}
use libre_agent.Pkcs11.Module.Sign.{object_at}

unfoldable pub set_find : FindCursor → ℕ → SessionState → SessionState
unfolding update_session
set_find c = update_session (λ x. record x { find = c })

unfoldable pub is_name : ℕ → Bool
is_name kind = kind == cka_subject || kind == cka_issuer || kind == cka_serial_number

unfoldable pub is_served : Rv × Attribute → Bool
is_served r = elim r.0 [ Rv.ok ↦ true | _ ↦ false ]

-- `std::vector<std::uint8_t> have(n)`.
unfoldable pub zeros : ℕ → List ℕ
zeros zero = []
zeros (suc n) = 0 ∷ zeros n

-- One wanted name against the object: the size first, then the bytes.
unfoldable pub name_matches : Sources → Object → ℕ → List ℕ → ℕ → Bool
unfolding serve_attribute is_served equal_bytes zeros
name_matches src obj kind wanted wanted_len =
    let probe = serve_attribute src obj (record { kind = kind; value = none; value_len = 0 }) in
    if not (is_served probe) || not (probe.1.value_len == wanted_len)
    then false
    else let have = serve_attribute src obj (record {
      kind = kind;
      value = some (zeros probe.1.value_len);
      value_len = probe.1.value_len;
    }) in
      is_served have && elim have.1.value [
        | none ↦ false
        | some bytes ↦ equal_bytes bytes (take probe.1.value_len wanted)
      ]

-- Whether the handle stays, by the names of the template; no name stands for an object that there is not.
unfoldable pub names_match : (Object → Sources) → Option Object → List Attribute → Bool
unfolding is_name name_matches
names_match sources obj [] = true
names_match sources obj (a ∷ tmpl) =
    (not (is_name a.kind) || elim a.value [
      | none ↦ true
      | some wanted ↦ elim obj [
        | none ↦ false
        | some o ↦ name_matches (sources o) o a.kind wanted a.value_len
      ]
    ])
    && names_match sources obj tmpl

unfoldable pub named_object : ℕ → ℕ → SessionState → Option Object
unfolding is_derived_handle object_at
named_object slot h s = if is_derived_handle h then none else object_at s slot h

unfoldable pub found : (Object → Sources) → ℕ → ℕ → List Attribute → SessionState → List ℕ
unfolding slot_by_id find_matches names_match named_object
found sources session slot tmpl s = elim (slot_by_id slot s) [
  | none ↦ find_matches session slot tmpl s
  | some _ ↦
      keep_if (λ h. names_match sources (named_object slot h s) tmpl)
        (find_matches session slot tmpl s)
]

unfoldable pub find_init :
    (Object → Sources) → ℕ → List Attribute → SessionState → Rv × SessionState
unfolding found set_find
find_init sources h tmpl s = elim (Map.lookup h s.sessions) [
  | none ↦ (Rv.session_handle_invalid, s)
  | some x ↦
      if x.find.active
      then (Rv.operation_active, s)
      else (Rv.ok, set_find (record { active = true; left = found sources h x.slot tmpl s }) h s)
]

unfoldable pub find_next : ℕ → ℕ → SessionState → (Rv × List ℕ) × SessionState
unfolding set_find
find_next h max s = elim (Map.lookup h s.sessions) [
  | none ↦ ((Rv.session_handle_invalid, []), s)
  | some x ↦ if not x.find.active then ((Rv.operation_not_initialized, []), s) else (
    (Rv.ok, take max x.find.left),
    set_find (record x.find { left = drop max x.find.left }) h s,
  )
]

unfoldable pub find_final : ℕ → SessionState → Rv × SessionState
unfolding set_find
find_final h s = elim (Map.lookup h s.sessions) [
  | none ↦ (Rv.session_handle_invalid, s)
  | some x ↦
      if not x.find.active then (Rv.operation_not_initialized, s) else (Rv.ok, set_find no_find h s)
]
