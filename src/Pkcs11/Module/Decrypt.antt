-- ===== src/Pkcs11/Module/Decrypt.antt =====
-- src/pkcs11/Module.cpp, C_DecryptInit, C_DecryptUpdate, C_Decrypt and C_DecryptFinal.
pub mod Ends
use libre_agent.Common.{
  ℕ, ◌+◌, ◌/◌, ◌%◌, ◌^◌, Bool, true, false, not, ◌&&◌, ◌||◌, Option, none, some, List, ◌++◌, ◌==◌,
  ltb, if◌then◌else◌, nat_key, length,
}
use libre_agent.Common.Map
use libre_agent.Pkcs11.Attribute.{Rv, ckm_rsa_pkcs}
use libre_agent.Pkcs11.Objects.{Object, Slot, is_rsa}
use libre_agent.Pkcs11.Session.{Session, DecryptCursor, no_decrypt, SessionState}
use libre_agent.Pkcs11.Session.Model.{slot_by_id}
use libre_agent.Pkcs11.Module.{
  Status, Answer, answer, answer_length, answer_bytes, Turn, answers, asks, ckr_from_status, is_ok,
  drop_login_on_lapsed_lease, slot_has_mechanism, update_session, mark_in_flight, unmark_in_flight,
  resume,
}
use libre_agent.Pkcs11.Module.Sign.{private_key_at}

unfoldable pub set_decrypt : DecryptCursor → ℕ → SessionState → SessionState
unfolding update_session
set_decrypt c = update_session (λ x. record x { decrypt = c })

abbrev pub decrypt_cursor : Slot → Object → DecryptCursor
decrypt_cursor slot obj = record {
  active = true;
  reader = slot.reader_path;
  cert_id = obj.cert_id;
  key_bits = obj.key_bits;
  accumulated = List.[];
}

unfoldable pub admit_decrypt : SessionState → Session → ℕ → ℕ → Rv × Option DecryptCursor
unfolding slot_by_id slot_has_mechanism private_key_at is_rsa
admit_decrypt s x mech key =
    if x.decrypt.active then (Rv.operation_active, none) else elim (slot_by_id x.slot s) [
      | none ↦ (Rv.session_handle_invalid, none)
      | some slot ↦
          if not (mech == ckm_rsa_pkcs) || not (slot_has_mechanism slot.mechanisms ckm_rsa_pkcs)
          then (Rv.mechanism_invalid, none)
          else elim (private_key_at s x.slot key) [
            | none ↦ (Rv.key_handle_invalid, none)
            | some obj ↦
                if not (is_rsa obj.key_type)
                then (Rv.key_type_inconsistent, none)
                else if not obj.decrypt
                then (Rv.key_function_not_permitted, none)
                else (Rv.ok, some (decrypt_cursor slot obj))
          ]
    ]

unfoldable pub decrypt_init : ℕ → ℕ → ℕ → SessionState → Answer × SessionState
unfolding admit_decrypt set_decrypt
decrypt_init h mech key s = elim (Map.lookup h s.sessions) [
  | none ↦ (answer Rv.session_handle_invalid, s)
  | some x ↦
      let (rv, cursor) = admit_decrypt s x mech key in
      (answer rv, elim cursor [ none ↦ s | some c ↦ set_decrypt c h s ])
]

-- No plaintext comes before the end.
unfoldable pub decrypt_update : ℕ → List ℕ → SessionState → Answer × SessionState
unfolding set_decrypt
decrypt_update h part s = elim (Map.lookup h s.sessions) [
  | none ↦ (answer Rv.session_handle_invalid, s)
  | some x ↦
      if not x.decrypt.active
      then (answer Rv.operation_not_initialized, s)
      else if x.rpc_in_flight
      then (answer Rv.operation_active, s)
      else (
        answer_length Rv.ok 0,
        set_decrypt (record x.decrypt { accumulated = x.decrypt.accumulated ++ part }) h s,
      )
]

pub record DecryptCall : Type 0 where
  pub session : ℕ
  pub cursor : DecryptCursor
  pub input : List ℕ
  pub null_buffer : Bool
  pub capacity : ℕ

unfoldable pub decrypt_call : ℕ → Option (List ℕ) → Bool → ℕ → DecryptCursor → DecryptCall
decrypt_call h data_in null_buffer capacity c = record {
  session = h;
  cursor = c;
  input = elim data_in [ none ↦ c.accumulated | some bytes ↦ bytes ];
  null_buffer = null_buffer;
  capacity = capacity;
}

-- `(keyBits + 7) / 8` on 32 bits.
unfoldable pub plaintext_bound : ℕ → ℕ
plaintext_bound key_bits = (key_bits + 7) % 2 ^ 32 / 8

unfoldable pub ask_decrypt : DecryptCall → SessionState → Turn Answer DecryptCall
unfolding plaintext_bound mark_in_flight
ask_decrypt q s =
    if q.null_buffer && not (q.cursor.key_bits == 0)
    then answers (answer_length Rv.ok (plaintext_bound q.cursor.key_bits)) s
    else asks q (mark_in_flight q.session s)

unfoldable pub begin_decrypt :
    ℕ → Option (List ℕ) → Bool → ℕ → SessionState → Turn Answer DecryptCall
unfolding decrypt_call ask_decrypt
begin_decrypt h data_in null_buffer capacity s = elim (Map.lookup h s.sessions) [
  | none ↦ answers (answer Rv.session_handle_invalid) s
  | some x ↦
      if not x.decrypt.active
      then answers (answer Rv.operation_not_initialized) s
      else if x.rpc_in_flight
      then answers (answer Rv.operation_active) s
      else ask_decrypt (decrypt_call h data_in null_buffer capacity x.decrypt) s
]

unfoldable pub conclude_decrypt : DecryptCall → Status → List ℕ → Answer × Bool
unfolding is_ok ckr_from_status
conclude_decrypt q status bytes =
    if not (is_ok status)
    then (answer (ckr_from_status status Rv.encrypted_data_len_range), true)
    else if q.null_buffer
    then (answer_length Rv.ok (length bytes), false)
    else if ltb q.capacity (length bytes)
    then (answer_length Rv.buffer_too_small (length bytes), false)
    else (answer_bytes (length bytes) bytes, true)

unfoldable pub finish_decrypt : DecryptCall → Status → List ℕ → SessionState → Answer × SessionState
unfolding conclude_decrypt set_decrypt drop_login_on_lapsed_lease unmark_in_flight
finish_decrypt q status bytes s =
    let (reply, ends) = conclude_decrypt q status bytes in
    let cleared = if ends then set_decrypt no_decrypt q.session s else s in
    (reply, unmark_in_flight q.session (drop_login_on_lapsed_lease status q.session cleared))

-- The whole call, with the agent's answer and no other call meanwhile.
unfoldable pub decrypt :
    ℕ
    → Option (List ℕ)
    → Bool
    → ℕ
    → (DecryptCall → Status × List ℕ)
    → SessionState
    → Answer × SessionState
unfolding begin_decrypt finish_decrypt resume
decrypt h data_in null_buffer capacity agent s =
    resume (begin_decrypt h data_in null_buffer capacity s)
      (λ q. finish_decrypt q (agent q).0 (agent q).1)
