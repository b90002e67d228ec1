-- ===== src/Pkcs11/Module/Sign.antt =====
-- src/pkcs11/Module.cpp, C_SignInit, C_SignUpdate, C_Sign and C_SignFinal.
pub mod Ends
use libre_agent.Common.{
  ℕ, Bool, true, false, not, ◌&&◌, ◌||◌, Option, none, some, List, ◌++◌, ◌==◌, ltb, if◌then◌else◌,
  nat_key, length,
}
use libre_agent.Common.Map
use libre_agent.Pkcs11.Attribute.{Rv, cko_private_key, ckm_rsa_pkcs, ckm_sha256_rsa_pkcs, ckm_ecdsa}
use libre_agent.Pkcs11.Objects.{Object, Slot, is_ec}
use libre_agent.Pkcs11.Session.{Session, SignCursor, no_sign, SessionState, resolve_object}
use libre_agent.Pkcs11.Session.Model.{slot_by_id}
use libre_agent.Pkcs11.Module.{
  Status, Answer, answer, answer_length, answer_bytes, Turn, answers, asks, ckr_from_status, is_ok,
  drop_login_on_lapsed_lease, signature_length, slot_has_mechanism, update_session, mark_in_flight,
  unmark_in_flight, resume,
}

unfoldable pub object_at : SessionState → ℕ → ℕ → Option Object
unfolding slot_by_id
object_at s =
    resolve_object (λ id. elim (slot_by_id id s) [ none ↦ none | some x ↦ some x.objects ])

-- The private key of a handle.
unfoldable pub private_key_at : SessionState → ℕ → ℕ → Option Object
unfolding object_at
private_key_at s slot h = elim (object_at s slot h) [
  | none ↦ none
  | some obj ↦ if obj.cls == cko_private_key then some obj else none
]

unfoldable pub set_sign : SignCursor → ℕ → SessionState → SessionState
unfolding update_session
set_sign c = update_session (λ x. record x { sign = c })

unfoldable pub is_sign_mechanism : ℕ → Bool
is_sign_mechanism mech = mech == ckm_rsa_pkcs || mech == ckm_sha256_rsa_pkcs || mech == ckm_ecdsa

unfoldable pub key_may_sign : ℕ → Object → Rv
unfolding is_ec
key_may_sign mech obj =
    if (if mech == ckm_ecdsa then not (is_ec obj.key_type) else is_ec obj.key_type)
    then Rv.key_type_inconsistent
    else if not obj.sign
    then Rv.key_function_not_permitted
    else Rv.ok

abbrev pub sign_cursor : Slot → ℕ → Object → SignCursor
sign_cursor slot mech obj = record {
  active = true;
  reader = slot.reader_path;
  cert_id = obj.cert_id;
  key_bits = obj.key_bits;
  mechanism = mech;
  key_type = obj.key_type;
  accumulated = List.[];
}

-- The answer, and the cursor of an operation that begins.
unfoldable pub admit_sign : SessionState → Session → ℕ → ℕ → Rv × Option SignCursor
unfolding slot_by_id is_sign_mechanism slot_has_mechanism private_key_at key_may_sign
admit_sign s x mech key =
    if x.sign.active then (Rv.operation_active, none) else elim (slot_by_id x.slot s) [
      | none ↦ (Rv.session_handle_invalid, none)
      | some slot ↦
          if not (is_sign_mechanism mech) || not (slot_has_mechanism slot.mechanisms mech)
          then (Rv.mechanism_invalid, none)
          else elim (private_key_at s x.slot key) [
            | none ↦ (Rv.key_handle_invalid, none)
            | some obj ↦ elim (key_may_sign mech obj) [
              | Rv.ok ↦ (Rv.ok, some (sign_cursor slot mech obj))
              | rv ↦ (rv, none)
            ]
          ]
    ]

unfoldable pub sign_init : ℕ → ℕ → ℕ → SessionState → Answer × SessionState
unfolding admit_sign set_sign
sign_init h mech key s = elim (Map.lookup h s.sessions) [
  | none ↦ (answer Rv.session_handle_invalid, s)
  | some x ↦
      let (rv, cursor) = admit_sign s x mech key in
      (answer rv, elim cursor [ none ↦ s | some c ↦ set_sign c h s ])
]

unfoldable pub sign_update : ℕ → List ℕ → SessionState → Answer × SessionState
unfolding set_sign
sign_update h part s = elim (Map.lookup h s.sessions) [
  | none ↦ (answer Rv.session_handle_invalid, s)
  | some x ↦
      if not x.sign.active
      then (answer Rv.operation_not_initialized, s)
      else (answer Rv.ok, set_sign (record x.sign { accumulated = x.sign.accumulated ++ part }) h s)
]

-- What `doSign` takes into the question to the agent. `null_buffer` is a null `pSignature`.
pub record SignCall : Type 0 where
  pub session : ℕ
  pub cursor : SignCursor
  pub input : List ℕ
  pub null_buffer : Bool
  pub capacity : ℕ

unfoldable pub is_digest_length : ℕ → Bool
is_digest_length n = n == 32 || n == 48 || n == 64

-- Whether the model answers the length, without the card.
unfoldable pub is_length_question : SignCall → Bool
unfolding signature_length
is_length_question q =
    let n = signature_length q.cursor.key_type q.cursor.key_bits in
    not (n == 0) && (q.null_buffer || ltb q.capacity n)

-- `none` for the data of C_SignFinal, which are those of the updates.
unfoldable pub sign_call : ℕ → Option (List ℕ) → Bool → ℕ → SignCursor → SignCall
sign_call h data_in null_buffer capacity c = record {
  session = h;
  cursor = c;
  input = elim data_in [ none ↦ c.accumulated | some bytes ↦ bytes ];
  null_buffer = null_buffer;
  capacity = capacity;
}

unfoldable pub ask_sign : SignCall → SessionState → Turn Answer SignCall
unfolding is_digest_length is_length_question set_sign mark_in_flight signature_length
ask_sign q s =
    if q.cursor.mechanism == ckm_ecdsa && not (is_digest_length (length q.input))
    then answers (answer Rv.data_len_range) (set_sign no_sign q.session s)
    else if is_length_question q
    then answers
        (answer_length (if q.null_buffer then Rv.ok else Rv.buffer_too_small)
          (signature_length q.cursor.key_type q.cursor.key_bits))
        s
    else asks q (mark_in_flight q.session s)

unfoldable pub begin_sign : ℕ → Option (List ℕ) → Bool → ℕ → SessionState → Turn Answer SignCall
unfolding sign_call ask_sign
begin_sign h data_in null_buffer capacity s = elim (Map.lookup h s.sessions) [
  | none ↦ answers (answer Rv.session_handle_invalid) s
  | some x ↦
      if not x.sign.active
      then answers (answer Rv.operation_not_initialized) s
      else if x.rpc_in_flight
      then answers (answer Rv.operation_active) s
      else ask_sign (sign_call h data_in null_buffer capacity x.sign) s
]

-- The answer to what the agent replied, and whether the operation ends.
unfoldable pub conclude_sign : SignCall → Status → List ℕ → Answer × Bool
unfolding is_ok ckr_from_status signature_length
conclude_sign q status bytes =
    if not (is_ok status)
    then (answer (ckr_from_status status Rv.data_len_range), true)
    else if q.cursor.mechanism == ckm_ecdsa
        && not (length bytes == signature_length q.cursor.key_type q.cursor.key_bits)
    then (answer Rv.device_error, true)
    else if q.null_buffer
    then (answer_length Rv.ok (length bytes), false)
    else if ltb q.capacity (length bytes)
    then (answer_length Rv.buffer_too_small (length bytes), false)
    else (answer_bytes (length bytes) bytes, true)

unfoldable pub finish_sign : SignCall → Status → List ℕ → SessionState → Answer × SessionState
unfolding conclude_sign set_sign drop_login_on_lapsed_lease unmark_in_flight
finish_sign q status bytes s =
    let (reply, ends) = conclude_sign q status bytes in
    let cleared = if ends then set_sign no_sign q.session s else s in
    (reply, unmark_in_flight q.session (drop_login_on_lapsed_lease status q.session cleared))

-- The whole call, with the agent's answer and no other call meanwhile.
unfoldable pub sign :
    ℕ
    → Option (List ℕ)
    → Bool
    → ℕ
    → (SignCall → Status × List ℕ)
    → SessionState
    → Answer × SessionState
unfolding begin_sign finish_sign resume
sign h data_in null_buffer capacity agent s =
    resume (begin_sign h data_in null_buffer capacity s)
      (λ q. finish_sign q (agent q).0 (agent q).1)
