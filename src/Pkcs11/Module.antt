-- ===== src/Pkcs11/Module.antt =====
-- src/pkcs11/Module.cpp: the C_* functions over the module's state. A function that asks the agent releases the
-- module's lock meanwhile, so it is two steps, one up to the question and one from the answer on; the locked parts
-- of such a step, and what it decides between them without the agent, are taken as one. Null pointers are checked
-- by the caller here, but for those that a function gives a meaning. The functions that only answer
-- CKR_FUNCTION_NOT_SUPPORTED, and the fields of information records, are left out.
pub mod Sign
pub mod Decrypt
pub mod Login
pub mod Derive
pub mod Find
pub mod Certificate
pub mod Process
pub mod Serve
mod Sessions
mod Runs
use libre_agent.Common.{
  ℕ, ◌+◌, ◌*◌, ◌/◌, Bool, true, false, ◌||◌, Option, none, some, List, [], ◌∷◌, String, ◌==◌,
  if◌then◌else◌, nat_key, any_of,
}
use libre_agent.Common.Map
use libre_agent.Pkcs11.Attribute.{Rv}
use libre_agent.Pkcs11.Objects.{KeyType}
use libre_agent.Pkcs11.Session.{Session, SessionState, end_login}

-- AgentClient::Status.
pub data Status : Type 0 where
  ok user_not_logged_in not_authorized auth_failed cancelled key_not_found unknown_card : Status
  not_supported rate_limited communication device_removed general_error invalid_input : Status

-- What a call gives its caller: the length and the bytes it writes, and a handle.
pub record Answer : Type 0 where
  pub rv : Rv
  pub out_len : Option ℕ
  pub out : Option (List ℕ)
  pub handle : Option ℕ

abbrev pub answer : Rv → Answer
answer rv = record { rv = rv; out_len = none; out = none; handle = none }

abbrev pub answer_length : Rv → ℕ → Answer
answer_length rv n = record (answer rv) { out_len = some n }

abbrev pub answer_bytes : ℕ → List ℕ → Answer
answer_bytes n bytes = record (answer Rv.ok) { out_len = some n; out = some bytes }

-- Where a step ends: with the answer, or with a question to the agent.
pub data Turn (A Q : Type 0) : Type 0 where
  answers : A → SessionState → Turn A Q
  asks : Q → SessionState → Turn A Q

-- What a question leads to, once it is answered and the state is this one.
unfoldable pub resume :
    {Q : Type 0}
    → Turn Answer Q
    → (Q → SessionState → Answer × SessionState)
    → Answer × SessionState
resume (answers reply s) next = (reply, s)
resume (asks q s) next = next q s

unfoldable pub ckr_from_status : Status → Rv → Rv
ckr_from_status Status.ok invalid = Rv.ok
ckr_from_status Status.user_not_logged_in invalid = Rv.user_not_logged_in
ckr_from_status Status.not_authorized invalid = Rv.function_failed
ckr_from_status Status.auth_failed invalid = Rv.pin_incorrect
ckr_from_status Status.cancelled invalid = Rv.function_canceled
ckr_from_status Status.key_not_found invalid = Rv.key_handle_invalid
ckr_from_status Status.unknown_card invalid = Rv.token_not_present
ckr_from_status Status.not_supported invalid = Rv.function_not_supported
ckr_from_status Status.rate_limited invalid = Rv.function_rejected
ckr_from_status Status.communication invalid = Rv.device_error
ckr_from_status Status.device_removed invalid = Rv.device_removed
ckr_from_status Status.invalid_input invalid = invalid
ckr_from_status Status.general_error invalid = Rv.general_error

unfoldable pub is_ok : Status → Bool
is_ok Status.ok = true
is_ok _ = false

unfoldable pub is_lapsed : Status → Bool
is_lapsed Status.user_not_logged_in = true
is_lapsed _ = false

unfoldable pub drop_login_on_lapsed_lease : Status → ℕ → SessionState → SessionState
unfolding is_lapsed
drop_login_on_lapsed_lease status h s =
    if is_lapsed status
    then elim (Map.lookup h s.sessions) [ none ↦ s | some x ↦ end_login x.slot s ]
    else s

unfoldable pub signature_length : KeyType → ℕ → ℕ
signature_length KeyType.rsa bits = (bits + 7) / 8
signature_length KeyType.ec bits = 2 * ((bits + 7) / 8)
signature_length KeyType.other bits = 0

unfoldable pub slot_has_mechanism : List ℕ → ℕ → Bool
slot_has_mechanism mechanisms mech = any_of (λ m. m == mech) mechanisms

unfoldable pub update_session : (Session → Session) → ℕ → SessionState → SessionState
update_session f h s = record s { sessions = Map.modify h f s.sessions }

-- The guard of a call in flight, at its start and at its end.
unfoldable pub mark_in_flight : ℕ → SessionState → SessionState
unfolding update_session
mark_in_flight = update_session (λ x. record x { rpc_in_flight = true })

unfoldable pub unmark_in_flight : ℕ → SessionState → SessionState
unfolding update_session
unmark_in_flight = update_session (λ x. record x { rpc_in_flight = false })
