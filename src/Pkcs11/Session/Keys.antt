-- ===== src/Pkcs11/Session/Keys.antt =====
-- Derived keys end with the login and the session that made them, over whole histories of calls.
use libre_agent.Common.{
  not, ℕ, ◌≡◌, refl, sym, ap, subst, ◌∙◌, Bool, true, false, some, List, [], ◌∷◌, ◌==◌, ◌⊎◌, inl,
  inr, arith, Bool-cases, Option-cases, nat_key,
}
use libre_agent.Common.Map
use libre_agent.Common.Map.{Map}
use libre_agent.Common.Unique.{Unique, erase_if-Unique, insert-Unique}
use libre_agent.Pkcs11.Session.{
  Session, DerivedKey, SessionState, empty, emplace, open_session, slot_has_sessions, is_logged_in,
  set_logged_in, destroy_derived_keys_of_slot, destroy_derived_keys_of_session, end_login,
  close_session, close_all_sessions, mark_login_checked, add_derived_key, derived_key,
  destroy_derived_key,
}
use libre_agent.Pkcs11.Session.Login.{without}
use libre_agent.Pkcs11.Objects.{Slot}
use libre_agent.Pkcs11.Session.Model.{set_model, slot_by_id}
use libre_agent.Pkcs11.Session.Model.Refresh.{still_there}
use libre_agent.Pkcs11.Session.Model.Survivors.{
  of_slot, kept_entry, end_login-Unique, set_model-Unique, set_model_kept,
}

pub data Call : Type 0 where
  opens : ℕ → ℕ → Call
  closes closes_all logs_out destroys : ℕ → Call
  logs_in checks : ℕ → ℕ → Call
  adds : DerivedKey → Call
  refreshes : List Slot → Call

unfoldable pub step : SessionState → Call → SessionState
step s (opens slot flags) = (open_session slot flags s).0
step s (closes h) = (close_session h s).0
step s (closes_all slot) = close_all_sessions slot s
step s (logs_out slot) = end_login slot s
step s (destroys h) = (destroy_derived_key h s).0
step s (logs_in slot now) = set_logged_in slot now s
step s (checks slot now) = mark_login_checked slot now s
step s (adds key) = (add_derived_key key s).0
step s (refreshes model) = set_model model s

-- The state after a history, newest call first.
unfoldable pub after : List Call → SessionState
after [] = empty
after (call ∷ past) = step (after past) call

emplace_other :
    {V : Type 0} (key c : ℕ) (v w : V) (m : Map ℕ V)
    → Map.lookup c (emplace key v m) ≡ some w
    → (v ≡ w) ⊎ (Map.lookup c m ≡ some w)
unfolding emplace
emplace_other key c v w m h = elim (Option-cases (Map.lookup key m)) [
  | inr (old, e) ↦ inr (ground arith)
  | inl e ↦ elim (Bool-cases (key == c)) [
    | inl same ↦ inl (ground (arith, Map.lookup-insert key c v m))
    | inr other ↦ inr (ground (arith, Map.lookup-insert key c v m))
  ]
]

emplace-Unique : {V : Type 0} (key : ℕ) (v : V) (m : Map ℕ V) → Unique m → Unique (emplace key v m)
unfolding emplace
emplace-Unique key v m u = ground (arith, insert-Unique key v m u, u)

abbrev of_creator : ℕ → ℕ → DerivedKey → Bool
of_creator h i key = key.creator == h

close_session_derived :
    (h : ℕ) (s : SessionState)
    → ((close_session h s).0.derived ≡ Map.erase_if (of_creator h) s.derived)
      ⊎ ((slot : ℕ) × ((close_session h s).0.derived
            ≡ Map.erase_if (of_slot slot) (Map.erase_if (of_creator h) s.derived)))
unfolding close_session destroy_derived_keys_of_session end_login destroy_derived_keys_of_slot
close_session_derived h s = elim (Option-cases (Map.lookup h s.sessions)) [
  | inl e ↦ inl (ground arith)
  | inr (x, e) ↦ elim (Bool-cases (slot_has_sessions x.slot (without h s))) [
    | inl others ↦ inl (ground arith)
    | inr last ↦ inr (x.slot, ground arith)
  ]
]

close_session-Unique :
    (h : ℕ) (s : SessionState) → Unique s.derived → Unique (close_session h s).0.derived
close_session-Unique h s u =
    let wiped = erase_if-Unique (of_creator h) s.derived u in
    elim (close_session_derived h s) [
      | inl e ↦ subst Unique (sym e) wiped
      | inr (slot, e) ↦
          subst Unique (sym e)
            (erase_if-Unique (of_slot slot) (Map.erase_if (of_creator h) s.derived) wiped)
    ]

step-Unique : (s : SessionState) (call : Call) → Unique s.derived → Unique (step s call).derived
unfolding step open_session close_all_sessions destroy_derived_key set_logged_in mark_login_checked
    add_derived_key Map.erase
step-Unique s (opens slot flags) u = u
step-Unique s (closes h) u = close_session-Unique h s u
step-Unique s (closes_all slot) u = end_login-Unique slot s u
step-Unique s (logs_out slot) u = end_login-Unique slot s u
step-Unique s (destroys h) u = erase_if-Unique (λ i key. i == h) s.derived u
step-Unique s (logs_in slot now) u = u
step-Unique s (checks slot now) u = u
step-Unique s (adds key) u = emplace-Unique _ key s.derived u
step-Unique s (refreshes model) u = set_model-Unique model s u

after-Unique : (past : List Call) → Unique (after past).derived
unfolding after
after-Unique [] = tt
after-Unique (call ∷ past) = step-Unique (after past) call (after-Unique past)

-- The call ends what made the key: its slot's login, the session that derived it, the key itself, or, in a
-- refresh, the presence of the token that the slot showed.
abbrev pub ends : ℕ → DerivedKey → SessionState → Call → Bool
ends h key s (closes session) = key.creator == session
ends h key s (closes_all slot) = key.slot == slot
ends h key s (logs_out slot) = key.slot == slot
ends h key s (destroys i) = i == h
ends h key s (refreshes model) =
    not (still_there key.slot s.slots (slot_by_id key.slot (set_model model s)))
ends h key s call = false

-- The history derives the key, and no later call ends it.
abbrev pub Derived : ℕ → DerivedKey → List Call → Type 0
Derived h key [] = ⊥
Derived h key (call ∷ past) =
    (call ≡ adds key) ⊎ ((ends h key (after past) call ≡ false) × Derived h key past)

close_session_kept :
    (h session : ℕ) (s : SessionState) (key : DerivedKey)
    → Unique s.derived
    → Map.lookup h (close_session session s).0.derived ≡ some key
    → ((key.creator == session) ≡ false) × (Map.lookup h s.derived ≡ some key)
close_session_kept h session s key u e = elim (close_session_derived session s) [
  | inl f ↦ kept_entry (of_creator session) h s.derived key u (ap (Map.lookup h) (sym f) ∙ e)
  | inr (slot, f) ↦
      let wiped = erase_if-Unique (of_creator session) s.derived u in
      let (_, here) =
        kept_entry (of_slot slot) h (Map.erase_if (of_creator session) s.derived) key wiped
          (ap (Map.lookup h) (sym f) ∙ e) in
      kept_entry (of_creator session) h s.derived key u here
]

step_kept :
    (h : ℕ) (key : DerivedKey) (s : SessionState) (call : Call)
    → Unique s.derived
    → Map.lookup h (step s call).derived ≡ some key
    → (call ≡ adds key) ⊎ ((ends h key s call ≡ false) × (Map.lookup h s.derived ≡ some key))
unfolding step open_session close_all_sessions end_login destroy_derived_keys_of_slot
    destroy_derived_key set_logged_in mark_login_checked add_derived_key Map.erase
step_kept h key s (opens slot flags) u e = inr (refl, e)
step_kept h key s (closes session) u e = inr (close_session_kept h session s key u e)
step_kept h key s (closes_all slot) u e = inr (kept_entry (of_slot slot) h s.derived key u e)
step_kept h key s (logs_out slot) u e = inr (kept_entry (of_slot slot) h s.derived key u e)
step_kept h key s (destroys i) u e = inr (ground (arith, Map.lookup-erase i h s.derived))
step_kept h key s (logs_in slot now) u e = inr (refl, e)
step_kept h key s (checks slot now) u e = inr (refl, e)
step_kept h key s (adds k) u e = elim (emplace_other _ h k key s.derived e) [
  | inl same ↦ inl (ap adds same)
  | inr old ↦ inr (refl, old)
]
step_kept h key s (refreshes model) u e =
    let (old, there) = set_model_kept model s h key u e in inr (ap not there, old)

lookup_added :
    (h : ℕ) (key : DerivedKey) (past : List Call)
    → Map.lookup h (after past).derived ≡ some key
    → Derived h key past
unfolding after
lookup_added h key [] e = absurd (unfold Map.lookup in ground arith)
lookup_added h key (call ∷ past) e =
    elim (step_kept h key (after past) call (after-Unique past) e) [
      | inl added ↦ inl added
      | inr (kept, old) ↦ inr (kept, lookup_added h key past old)
    ]

derived_key_cases :
    (session h : ℕ) (key : DerivedKey) (s : SessionState)
    → derived_key session h s ≡ some key
    → (Map.lookup h s.derived ≡ some key)
      × (is_logged_in key.slot s ≡ true)
      × ((x : Session) × (Map.lookup session s.sessions ≡ some x) × (x.slot ≡ key.slot))
unfolding derived_key
derived_key_cases session h key s e = elim (Option-cases (Map.lookup session s.sessions)) [
  | inl f ↦ absurd (ground arith)
  | inr (x, f) ↦ elim (Option-cases (Map.lookup h s.derived)) [
    | inl g ↦ absurd (ground arith)
    | inr (k, g) ↦ (ground arith, ground arith, (x, f, ground arith))
  ]
]

-- A session sees a derived key only on its own slot, while that slot is logged in, and where the history holds
-- the derivation of the key with no end of the slot's login by a logout or a closing of all its sessions, no
-- closing of the session that derived it, and no destruction of the key after it, and where every refresh
-- after it found in the slot the token, under the same serial, that the slot showed before.
pub derived_key_added :
    (session h : ℕ) (key : DerivedKey) (past : List Call)
    → derived_key session h (after past) ≡ some key
    → (is_logged_in key.slot (after past) ≡ true)
      × ((x : Session) × (Map.lookup session (after past).sessions ≡ some x) × (x.slot ≡ key.slot))
      × Derived h key past
derived_key_added session h key past e =
    let (found, logged, own) = derived_key_cases session h key (after past) e in
    (logged, own, lookup_added h key past found)
