-- ===== src/Pkcs11/Module/Login.antt =====
-- src/pkcs11/Module.cpp: sessions and logins, C_OpenSession, C_CloseSession, C_CloseAllSessions, C_GetSessionInfo,
-- C_Login and C_Logout. A call `logout` of the agent is answered beside the new state, as the reader it is for.
use libre_agent.Common.{
  ℕ, ◌+◌, ◌/◌, ◌%◌, Bool, not, ◌&&◌, Option, none, some, [], ◌∷◌, String, ◌==◌, if◌then◌else◌,
  nat_key,
}
use libre_agent.Common.Map
use libre_agent.Pkcs11.Attribute.{Rv}
use libre_agent.Pkcs11.Session.{
  Session, SessionState, open_session, close_session, close_all_sessions, slot_has_sessions,
  is_logged_in, set_logged_in, end_login, login_generation, login_check_due, mark_login_checked,
}
use libre_agent.Pkcs11.Session.Model.{slot_by_id}
use libre_agent.Pkcs11.Module.{
  Status, Answer, answer, Turn, answers, asks, ckr_from_status, is_ok, mark_in_flight,
  unmark_in_flight,
}
use text.Mathlib.Text.{◌==◌ as text_eq}

abbrev pub cku_user : ℕ
cku_user = 1

abbrev pub cku_context_specific : ℕ
cku_context_specific = 2

unfoldable pub has_serial_flag : ℕ → Bool
has_serial_flag flags = not (flags / 4 % 2 == 0)

unfoldable pub has_write_flag : ℕ → Bool
has_write_flag flags = not (flags / 2 % 2 == 0)

-- C_OpenSession after its refresh of the slots; before it, a session that is not serial is refused.
unfoldable pub open_on : ℕ → ℕ → SessionState → Answer × SessionState
unfolding slot_by_id open_session
open_on slot flags s = elim (slot_by_id slot s) [
  | none ↦ (answer Rv.slot_id_invalid, s)
  | some x ↦
      if not x.token_present
      then (answer Rv.token_not_present, s)
      else let (s', h) = open_session slot flags s in
        (record (answer Rv.ok) { handle = some h }, s')
]

unfoldable pub reader_of : ℕ → SessionState → Option String
unfolding slot_by_id
reader_of slot s = elim (slot_by_id slot s) [ none ↦ none | some x ↦ some x.reader_path ]

unfoldable pub close : ℕ → SessionState → Rv × Option String × SessionState
unfolding close_session slot_has_sessions reader_of
close h s = elim (Map.lookup h s.sessions) [
  | none ↦ (Rv.session_handle_invalid, none, s)
  | some x ↦
      let left = (close_session h s).0 in
      (Rv.ok, if slot_has_sessions x.slot left then none else reader_of x.slot left, left)
]

unfoldable pub close_all : ℕ → SessionState → Rv × Option String × SessionState
unfolding close_all_sessions reader_of
close_all slot s = let left = close_all_sessions slot s in (Rv.ok, reader_of slot left, left)

unfoldable pub log_out : ℕ → SessionState → Rv × Option String × SessionState
unfolding reader_of end_login
log_out h s = elim (Map.lookup h s.sessions) [
  | none ↦ (Rv.session_handle_invalid, none, s)
  | some x ↦ (Rv.ok, reader_of x.slot s, end_login x.slot s)
]

pub record SessionInfo : Type 0 where
  pub slot : ℕ
  pub state : ℕ
  pub flags : ℕ

-- What C_GetSessionInfo asks the agent about.
pub record InfoCall : Type 0 where
  pub session : ℕ
  pub slot : ℕ
  pub reader : String
  pub generation : ℕ

unfoldable pub info_of : Session → Bool → SessionInfo
unfolding has_write_flag
info_of x logged_in = record {
  slot = x.slot;
  state = (if has_write_flag x.flags then 2 else 0) + (if logged_in then 1 else 0);
  flags = x.flags;
}

unfoldable pub read_info : ℕ → SessionState → Rv × Option SessionInfo
unfolding info_of is_logged_in
read_info h s = elim (Map.lookup h s.sessions) [
  | none ↦ (Rv.session_handle_invalid, none)
  | some x ↦ (Rv.ok, some (info_of x (is_logged_in x.slot s)))
]

-- The question, where the login of the slot is due for one; the check is noted before it is asked.
unfoldable pub info_call : ℕ → Session → ℕ → SessionState → Option InfoCall
unfolding reader_of login_check_due login_generation
info_call h x now s = elim (reader_of x.slot s) [
  | none ↦ none
  | some reader ↦
      if login_check_due x.slot now s
      then some (record {
        session = h;
        slot = x.slot;
        reader = reader;
        generation = login_generation x.slot s;
      })
      else none
]

unfoldable pub begin_info : ℕ → ℕ → SessionState → Turn (Rv × Option SessionInfo) InfoCall
unfolding info_call mark_login_checked read_info
begin_info h now s = elim (Map.lookup h s.sessions) [
  | none ↦ answers (Rv.session_handle_invalid, none) s
  | some x ↦ elim (info_call h x now s) [
    | none ↦ answers (read_info h s) s
    | some q ↦
        let noted = mark_login_checked x.slot now s in
        if text_eq q.reader "" then answers (read_info h noted) noted else asks q noted
  ]
]

-- `active` is none when the agent did not say. An answer about an earlier login does not end the one held now.
unfoldable pub settle_login : InfoCall → Option Bool → SessionState → SessionState
unfolding is_logged_in login_generation end_login
settle_login q active s = elim active [
  | none ↦ s
  | some held ↦
      if not held && is_logged_in q.slot s && login_generation q.slot s == q.generation
      then end_login q.slot s
      else s
]

unfoldable pub finish_info :
    InfoCall → Option Bool → SessionState → (Rv × Option SessionInfo) × SessionState
unfolding settle_login read_info
finish_info q active s =
    let settled = settle_login q active s in (read_info q.session settled, settled)

pub record LoginCall : Type 0 where
  pub session : ℕ
  pub reader : String

unfoldable pub login_call : ℕ → ℕ → SessionState → Turn Answer LoginCall
unfolding slot_by_id mark_in_flight
login_call h slot s = elim (slot_by_id slot s) [
  | none ↦ answers (answer Rv.token_not_present) s
  | some x ↦
      if not x.token_present then answers (answer Rv.token_not_present) s else elim x.objects [
        | [] ↦ answers (answer Rv.key_handle_invalid) s
        | _ ∷ _ ↦ asks (record { session = h; reader = x.reader_path }) (mark_in_flight h s)
      ]
]

unfoldable pub begin_login : ℕ → ℕ → SessionState → Turn Answer LoginCall
unfolding is_logged_in login_call
begin_login h user s =
    if not (user == cku_user) && not (user == cku_context_specific)
    then answers (answer Rv.user_type_invalid) s
    else elim (Map.lookup h s.sessions) [
      | none ↦ answers (answer Rv.session_handle_invalid) s
      | some x ↦
          if x.rpc_in_flight
          then answers (answer Rv.operation_active) s
          else if user == cku_user && is_logged_in x.slot s
          then answers (answer Rv.user_already_logged_in) s
          else login_call h x.slot s
    ]

unfoldable pub record_login : LoginCall → Status → ℕ → SessionState → SessionState
unfolding is_ok set_logged_in
record_login q status now s =
    if not (is_ok status)
    then s
    else elim (Map.lookup q.session s.sessions) [ none ↦ s | some x ↦ set_logged_in x.slot now s ]

unfoldable pub finish_login : LoginCall → Status → ℕ → SessionState → Answer × SessionState
unfolding record_login ckr_from_status unmark_in_flight
finish_login q status now s = (
  answer (ckr_from_status status Rv.general_error),
  unmark_in_flight q.session (record_login q status now s),
)
