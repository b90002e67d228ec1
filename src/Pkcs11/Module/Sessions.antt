-- ===== src/Pkcs11/Module/Sessions.antt =====
-- What the steps of a call leave of its session.
use libre_agent.Common.{
  if◌then◌else◌, ℕ, ◌≡◌, Bool, true, false, none, some, arith, ==_iff, nat_key, ap, ◌∙◌,
}
use libre_agent.Common.Map
use libre_agent.Common.Map.{Map}
use libre_agent.Pkcs11.Session.{Session, SessionState, end_login, destroy_derived_keys_of_slot}
use libre_agent.Pkcs11.Module.{
  Status, Answer, is_lapsed, drop_login_on_lapsed_lease, update_session, unmark_in_flight,
}

pub lookup-update_session :
    (f : Session → Session) (h : ℕ) (s : SessionState) (x : Session)
    → Map.lookup h s.sessions ≡ some x
    → Map.lookup h (update_session f h s).sessions ≡ some (f x)
unfolding update_session
lookup-update_session f h s x e = ground (arith, e, ==_iff h h, Map.lookup-modify h h f s.sessions)

pub lookup-drop_login :
    (status : Status) (h : ℕ) (s : SessionState)
    → (drop_login_on_lapsed_lease status h s).sessions ≡ s.sessions
unfolding drop_login_on_lapsed_lease is_lapsed end_login destroy_derived_keys_of_slot
lookup-drop_login status h s = ground arith

pub lookup_settled :
    (status : Status) (h : ℕ) (s : SessionState) (x : Session)
    → Map.lookup h s.sessions ≡ some x
    → Map.lookup h (unmark_in_flight h (drop_login_on_lapsed_lease status h s)).sessions
      ≡ some (record x { rpc_in_flight = false })
unfolding unmark_in_flight
lookup_settled status h s x e =
    lookup-update_session (λ y. record y { rpc_in_flight = false }) h
      (drop_login_on_lapsed_lease status h s) x
      (ap (λ (m : Map ℕ Session). Map.lookup h m) (lookup-drop_login status h s) ∙ e)

-- Whether an answer tells a length only, as to a null pointer or for a short buffer.
unfoldable pub length_only : Answer → Bool
length_only a = elim a.out_len [
  | none ↦ false
  | some _ ↦ elim a.out [ none ↦ true | some _ ↦ false ]
]

pub lookup-update_session_if :
    (b : Bool) (f : Session → Session) (h : ℕ) (s : SessionState) (x : Session)
    → Map.lookup h s.sessions ≡ some x
    → Map.lookup h (if b then update_session f h s else s).sessions ≡ some (if b then f x else x)
lookup-update_session_if true f h s x e = lookup-update_session f h s x e
lookup-update_session_if false f h s x e = e
