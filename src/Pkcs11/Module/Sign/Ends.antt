-- ===== src/Pkcs11/Module/Sign/Ends.antt =====
-- When a signing operation ends.
use libre_agent.Common.{
  ℕ, ◌≡◌, refl, Bool, true, false, not, ◌&&◌, Option, none, some, List, ◌+◌, ◌*◌, ◌/◌, ◌==◌, ◌≤◌,
  if◌then◌else◌, arith, nat_key, length, Bool-cases, inl, inr, ◌⊎◌,
}
use libre_agent.Common.Map
use libre_agent.Pkcs11.Attribute.{Rv, ckm_ecdsa}
use libre_agent.Pkcs11.Objects.{KeyType}
use libre_agent.Pkcs11.Session.{Session, SessionState, no_sign}
use libre_agent.Pkcs11.Module.{
  Status, Answer, answers, asks, mark_in_flight, signature_length, is_ok, resume, answer,
  answer_length,
}
use libre_agent.Pkcs11.Module.Sessions.{length_only}
use libre_agent.Pkcs11.Module.Sign.{
  SignCall, sign_call, ask_sign, begin_sign, conclude_sign, finish_sign, sign, set_sign,
  is_length_question, is_digest_length,
}

after_sign : Bool → Session → Session
after_sign ends x = record (if ends then record x { sign = no_sign } else x) {
  rpc_in_flight = false;
}

conclude_sign_out :
    (q : SignCall) (status : Status) (got bytes : List ℕ)
    → (conclude_sign q status got).0.out ≡ some bytes
    → (status ≡ Status.ok)
      × (got ≡ bytes)
      × (q.null_buffer ≡ false)
      × (length bytes ≤ q.capacity)
      × ((q.cursor.mechanism == ckm_ecdsa
            && not (length bytes == signature_length q.cursor.key_type q.cursor.key_bits))
          ≡ false)
unfolding conclude_sign is_ok
conclude_sign_out q status got bytes = ground arith

signature_length_as :
    (t : KeyType) (bits : ℕ)
    → signature_length t bits ≡ elim t [
      | KeyType.rsa ↦ (bits + 7) / 8
      | KeyType.ec ↦ 2 * ((bits + 7) / 8)
      | KeyType.other ↦ 0
    ]
unfolding signature_length
signature_length_as KeyType.rsa bits = refl
signature_length_as KeyType.ec bits = refl
signature_length_as KeyType.other bits = refl

-- The session after a call with this answer.
abbrev Left : ℕ → Session → Answer × SessionState → Type 0
Left h x r =
    Map.lookup h r.1.sessions ≡ some (if length_only r.0 then x else record x { sign = no_sign })

-- A refusal that ends the operation, the length, or the question.
ask_sign-cases :
    (q : SignCall) (s : SessionState)
    → (ask_sign q s ≡ answers (answer Rv.data_len_range) (set_sign no_sign q.session s))
      ⊎ ((rv : Rv) × (n : ℕ) × (ask_sign q s ≡ answers (answer_length rv n) s))
      ⊎ (ask_sign q s ≡ asks q (mark_in_flight q.session s))
unfolding ask_sign
ask_sign-cases q s =
    elim (Bool-cases (q.cursor.mechanism == ckm_ecdsa && not (is_digest_length (length q.input)))) [
      | inl bad ↦ inl (ground (arith, bad))
      | inr fine ↦ elim (Bool-cases (is_length_question q)) [
        | inl question ↦ inr (
            inl (
              if q.null_buffer then Rv.ok else Rv.buffer_too_small,
              signature_length q.cursor.key_type q.cursor.key_bits,
              ground (arith, fine, question),
            ))
        | inr whole ↦ inr (inr (ground (arith, fine, whole)))
      ]
    ]

finish_sign_reply :
    (q : SignCall) (status : Status) (bytes : List ℕ) (s : SessionState)
    → (finish_sign q status bytes s).0 ≡ (conclude_sign q status bytes).0
unfolding finish_sign
finish_sign_reply q status bytes s = refl

-- The bytes that C_Sign or C_SignFinal hands out are the agent's answer to one question of this session, about
-- its active cursor and with the data given or, at the end of an operation in parts, all the parts; the
-- buffer is not null and holds them, and an ECDSA signature is twice as wide as its curve's field.
pub sign_delivers :
    (h : ℕ) (data_in : Option (List ℕ)) (null_buffer : Bool) (capacity : ℕ)
    (agent : SignCall → Status × List ℕ) (s : SessionState) (x : Session) (bytes : List ℕ)
    → Map.lookup h s.sessions ≡ some x
    → (sign h data_in null_buffer capacity agent s).0.out ≡ some bytes
    → ((q : SignCall) × (agent q ≡ (Status.ok, bytes))
        × (q.session ≡ h)
        × (q.cursor ≡ x.sign)
        × (q.input ≡ elim data_in [ none ↦ x.sign.accumulated | some given ↦ given ]))
      × (x.sign.active ≡ true)
      × (null_buffer ≡ false)
      × (length bytes ≤ capacity)
      × ((x.sign.mechanism == ckm_ecdsa
            && not (
                length bytes == elim x.sign.key_type [
                  | KeyType.rsa ↦ (x.sign.key_bits + 7) / 8
                  | KeyType.ec ↦ 2 * ((x.sign.key_bits + 7) / 8)
                  | KeyType.other ↦ 0
                ]))
          ≡ false)
unfolding sign begin_sign sign_call resume
sign_delivers h data_in null_buffer capacity agent s x bytes e out =
    let q = sign_call h data_in null_buffer capacity x.sign in
    elim (ask_sign-cases q s) [
      | inl short ↦ absurd (ground (arith, e, out, short))
      | inr (inl (rv, n, question)) ↦ absurd (ground (arith, e, out, question))
      | inr (inr asked) ↦
          let (well, got, buffer, room, width) = conclude_sign_out q (agent q).0 (agent q).1 bytes (
            ground (
              arith,
              e,
              out,
              asked,
              finish_sign_reply q (agent q).0 (agent q).1 (mark_in_flight q.session s),
            )) in
          (
            (q, ground (arith, well, got), refl, refl, refl),
            ground (arith, e, out, Bool-cases x.sign.active),
            buffer,
            room,
            rw (signature_length_as x.sign.key_type x.sign.key_bits) at width,
          )
    ]
