-- ===== src/Pkcs11/Session/Login.antt =====
-- Logins end with the last session.
use libre_agent.Common.{
  ℕ, ◌≡◌, refl, true, false, ◌&&◌, some, ◌==◌, inl, inr, arith, if◌then◌else◌, Bool-cases, nat_key,
}
use libre_agent.Common.Map
use libre_agent.Common.Map.{Map}
use libre_agent.Pkcs11.Session.{
  Session, SessionState, slot_has_sessions, is_logged_in, destroy_derived_keys_of_slot,
  destroy_derived_keys_of_session, logged_out, end_login, close_session,
}

pub is_logged_in-end_login :
    (slot at : ℕ) (s : SessionState)
    → is_logged_in slot (end_login at s) ≡ (if at == slot then false else is_logged_in slot s)
unfolding is_logged_in end_login destroy_derived_keys_of_slot
is_logged_in-end_login slot at s = ground (arith, Map.lookup-modify at slot logged_out s.logins)

-- The state without the session and the keys it made.
abbrev pub without : ℕ → SessionState → SessionState
without h s = record s {
  derived = Map.erase_if (λ i key. key.creator == h) s.derived;
  sessions = Map.erase h s.sessions;
}

close_others :
    (h : ℕ) (x : Session) (s : SessionState)
    → Map.lookup h s.sessions ≡ some x
    → slot_has_sessions x.slot (without h s) ≡ true
    → (close_session h s).0 ≡ without h s
unfolding close_session destroy_derived_keys_of_session
close_others h x s found others = ground (arith, found, others)

close_last :
    (h : ℕ) (x : Session) (s : SessionState)
    → Map.lookup h s.sessions ≡ some x
    → slot_has_sessions x.slot (without h s) ≡ false
    → (close_session h s).0 ≡ end_login x.slot (without h s)
unfolding close_session destroy_derived_keys_of_session
close_last h x s found last = ground (arith, found, last)

slot_has_sessions-end_login :
    (slot at : ℕ) (s : SessionState)
    → slot_has_sessions slot (end_login at s) ≡ slot_has_sessions slot s
unfolding slot_has_sessions end_login destroy_derived_keys_of_slot
slot_has_sessions-end_login slot at s = refl

is_logged_in-without :
    (slot h : ℕ) (s : SessionState) → is_logged_in slot (without h s) ≡ is_logged_in slot s
unfolding is_logged_in
is_logged_in-without slot h s = refl

-- Closing a session leaves its slot logged in exactly where it was and another session of the slot stays: the
-- login ends with the application's last session on the token.
pub close_session_login :
    (h : ℕ) (x : Session) (s : SessionState)
    → Map.lookup h s.sessions ≡ some x
    → is_logged_in x.slot (close_session h s).0
      ≡ (is_logged_in x.slot s && slot_has_sessions x.slot (close_session h s).0)
close_session_login h x s found = elim (Bool-cases (slot_has_sessions x.slot (without h s))) [
  | inl others ↦
      ground (arith, close_others h x s found others, is_logged_in-without x.slot h s, others)
  | inr last ↦ ground (
    arith,
    close_last h x s found last,
    is_logged_in-end_login x.slot x.slot (without h s),
    slot_has_sessions-end_login x.slot x.slot (without h s),
    last,
  )
]
