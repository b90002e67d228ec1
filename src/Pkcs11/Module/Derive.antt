-- ===== src/Pkcs11/Module/Derive.antt =====
-- src/pkcs11/Module.cpp, C_DeriveKey and C_DestroyObject.
pub mod Kept
use libre_agent.Common.{
  ℕ, ◌+◌, ◌/◌, Bool, true, false, not, ◌&&◌, ◌||◌, Option, none, some, List, String, ◌==◌, ltb, leb,
  if◌then◌else◌, nat_key, ◌^◌,
}
use libre_agent.Common.Map
use libre_agent.Pkcs11.Attribute.{Rv, Checked, good, refused, ◌>>=◌, Attribute, ckm_ecdh1_derive}
use libre_agent.Pkcs11.DerivedKeys.{
  DerivedKeyTemplate, DerivedKey, parse_derived_key_template, derived_key_value,
}
use libre_agent.Pkcs11.Ec.{peer_point_from_public_data}
use libre_agent.Pkcs11.Objects.{Object, Slot, is_ec}
use libre_agent.Pkcs11.Session.{
  Session, SessionState, is_logged_in, add_derived_key, derived_key, destroy_derived_key,
}
use libre_agent.Pkcs11.Session.Model.{slot_by_id}
use libre_agent.Pkcs11.Module.{
  Status, Answer, answer, Turn, answers, asks, ckr_from_status, is_ok, drop_login_on_lapsed_lease,
  slot_has_mechanism, mark_in_flight, unmark_in_flight,
}
use libre_agent.Pkcs11.Module.Sign.{private_key_at, object_at}
use text.Mathlib.Text.{◌==◌ as text_eq}

abbrev pub ckd_null : ℕ
ckd_null = 1

-- CK_ECDH1_DERIVE_PARAMS; `public_data` is none for a null pointer.
pub record DeriveParams : Type 0 where
  pub kdf : ℕ
  pub shared_data_len : ℕ
  pub public_data : Option (List ℕ)

-- `params` is none where there are none, or where they have another size.
pub record DeriveRequest : Type 0 where
  pub session : ℕ
  pub mechanism : ℕ
  pub params : Option DeriveParams
  pub base_key : ℕ
  pub template : Option (List Attribute)
  pub count : ℕ

pub record DeriveCall : Type 0 where
  pub session : ℕ
  pub slot : ℕ
  pub reader : String
  pub cert_id : String
  pub token_serial : String
  pub peer_point : List ℕ
  pub wanted : DerivedKeyTemplate

-- The raw secret only.
unfoldable pub raw_params : Option DeriveParams → Checked DeriveParams
raw_params none = refused Rv.mechanism_param_invalid
raw_params (some p) =
    if not (p.kdf == ckd_null) || not (p.shared_data_len == 0)
    then refused Rv.mechanism_param_invalid
    else good p

unfoldable pub base_of : SessionState → ℕ → ℕ → Checked Object
unfolding private_key_at is_ec
base_of s slot h = elim (private_key_at s slot h) [
  | none ↦ refused Rv.key_handle_invalid
  | some obj ↦
      if not (is_ec obj.key_type)
      then refused Rv.key_type_inconsistent
      else if not obj.derive
      then refused Rv.key_function_not_permitted
      else good obj
]

unfoldable pub point_of : DeriveParams → ℕ → Checked (List ℕ)
unfolding peer_point_from_public_data
point_of p key_bits = elim p.public_data [
  | none ↦ refused Rv.mechanism_param_invalid
  | some bytes ↦ elim (peer_point_from_public_data bytes key_bits) [
    | none ↦ refused Rv.mechanism_param_invalid
    | some point ↦ good point
  ]
]

-- A key longer than the secret is refused before the card is asked.
unfoldable pub fits : ℕ → DerivedKeyTemplate → Checked DerivedKeyTemplate
fits key_bits t = elim t.value_len [
  | none ↦ good t
  | some n ↦ if ltb ((key_bits + 7) / 8) n then refused Rv.template_inconsistent else good t
]

unfoldable pub check_derive : DeriveRequest → Session → Slot → SessionState → Checked DeriveCall
unfolding slot_has_mechanism is_logged_in raw_params base_of point_of parse_derived_key_template
    fits
check_derive r x slot s =
    if not (r.mechanism == ckm_ecdh1_derive)
      || not (slot_has_mechanism slot.mechanisms ckm_ecdh1_derive)
    then refused Rv.mechanism_invalid
    else if not (is_logged_in x.slot s)
    then refused Rv.user_not_logged_in
    else do
      p ← raw_params r.params
      base ← base_of s x.slot r.base_key
      point ← point_of p base.key_bits
      parsed ← parse_derived_key_template r.template r.count
      wanted ← fits base.key_bits parsed
      good (record {
        session = r.session;
        slot = x.slot;
        reader = slot.reader_path;
        cert_id = base.cert_id;
        token_serial = slot.token_serial;
        peer_point = point;
        wanted = wanted;
      })

unfoldable pub begin_derive : DeriveRequest → SessionState → Turn Answer DeriveCall
unfolding slot_by_id check_derive mark_in_flight
begin_derive r s = elim (Map.lookup r.session s.sessions) [
  | none ↦ answers (answer Rv.session_handle_invalid) s
  | some x ↦
      if x.rpc_in_flight
      then answers (answer Rv.operation_active) s
      else elim (slot_by_id x.slot s) [
        | none ↦ answers (answer Rv.session_handle_invalid) s
        | some slot ↦ elim (check_derive r x slot s) [
          | refused rv ↦ answers (answer rv) s
          | good q ↦ asks q (mark_in_flight r.session s)
        ]
      ]
]

-- Whether the slot still shows the card that the secret was derived with.
unfoldable pub same_card : DeriveCall → SessionState → Bool
unfolding slot_by_id
same_card q s = elim (slot_by_id q.slot s) [
  | none ↦ false
  | some now ↦ now.token_present && text_eq now.token_serial q.token_serial
]

unfoldable pub keep_key : DeriveCall → List ℕ → SessionState → Answer × SessionState
unfolding same_card is_logged_in add_derived_key
keep_key q value s = elim (Map.lookup q.session s.sessions) [
  | none ↦ (answer Rv.session_handle_invalid, s)
  | some x ↦
      if not (same_card q s)
      then (answer Rv.device_removed, s)
      else if not (is_logged_in x.slot s)
      then (answer Rv.user_not_logged_in, s)
      else let (s', h) =
          add_derived_key
            (record { slot = q.slot; creator = q.session; attributes = q.wanted; value = value })
            s in
        (record (answer Rv.ok) { handle = some h }, s')
]

unfoldable pub conclude_derive : DeriveCall → Status → List ℕ → SessionState → Answer × SessionState
unfolding is_ok drop_login_on_lapsed_lease ckr_from_status derived_key_value keep_key
conclude_derive q status z s =
    if not (is_ok status)
    then (
      answer (ckr_from_status status Rv.mechanism_param_invalid),
      drop_login_on_lapsed_lease status q.session s,
    )
    else elim (derived_key_value z q.wanted) [
      | refused rv ↦ (answer rv, s)
      | good value ↦ keep_key q value s
    ]

unfoldable pub finish_derive : DeriveCall → Status → List ℕ → SessionState → Answer × SessionState
unfolding conclude_derive unmark_in_flight
finish_derive q status z s =
    let (reply, s') = conclude_derive q status z s in (reply, unmark_in_flight q.session s')

unfoldable pub is_derived_handle : ℕ → Bool
is_derived_handle h = leb (2 ^ 63) h

unfoldable pub destroy_object : ℕ → ℕ → SessionState → Answer × SessionState
unfolding is_derived_handle derived_key destroy_derived_key object_at
destroy_object session h s = elim (Map.lookup session s.sessions) [
  | none ↦ (answer Rv.session_handle_invalid, s)
  | some x ↦
      if is_derived_handle h
      then elim (derived_key session h s) [
        | none ↦ (answer Rv.object_handle_invalid, s)
        | some _ ↦ (answer Rv.ok, (destroy_derived_key h s).0)
      ]
      else elim (object_at s x.slot h) [
        | none ↦ (answer Rv.object_handle_invalid, s)
        | some _ ↦ (answer Rv.action_prohibited, s)
      ]
]
