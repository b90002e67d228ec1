-- ===== src/Operations/CardSession/Clean.antt =====
-- What a connection carries, and that a parked one carries nothing.
use libre_agent.Common.{
  ℕ, ◌+◌, ◌≡◌, refl, Bool, true, false, ◌&&◌, ◌||◌, not, Option, none, some, List, [], ◌∷◌, ◌==◌,
  any_of, on_if, on_option, leb, if◌then◌else◌, arith, ==_iff,
}
use libre_agent.Pkcs11.Objects.{PreReadAuth}
use libre_agent.Operations.CardSession.{
  Effect, opened, handed_out, cleared_credentials, cleared_pace, cleared_channel, closed, Holder,
  Opening, Acquired, card, open_error, exception, note, commit, acquire, clear_all,
  erase_credentials, close_connection, invalidate_session, ask_pre_read_auth, acquire_hold,
  release_hold, demote, sweep, strongest, idle_close, remember, resolve,
}

-- Whether the plugin may have left a credential on the connection: one that is handed out may be given them by all its
-- candidates.
unfoldable pub may_hold : ℕ → ℕ → List Effect → Bool
may_hold c p [] = false
may_hold c p (opened d ∷ log) = if d == c then false else may_hold c p log
may_hold c p (handed_out d plugins ∷ log) =
    if d == c then any_of (λ q. q == p) plugins else may_hold c p log
may_hold c p (cleared_credentials q d ∷ log) = if d == c && q == p then false else may_hold c p log
may_hold c p (cleared_pace d ∷ log) = may_hold c p log
may_hold c p (cleared_channel d ∷ log) = may_hold c p log
may_hold c p (closed d ∷ log) = may_hold c p log

-- Whether it may have PACE secrets.
unfoldable pub may_have_pace : ℕ → List Effect → Bool
may_have_pace c [] = false
may_have_pace c (opened d ∷ log) = if d == c then false else may_have_pace c log
may_have_pace c (handed_out d plugins ∷ log) = d == c || may_have_pace c log
may_have_pace c (cleared_credentials q d ∷ log) = may_have_pace c log
may_have_pace c (cleared_pace d ∷ log) = if d == c then false else may_have_pace c log
may_have_pace c (cleared_channel d ∷ log) = may_have_pace c log
may_have_pace c (closed d ∷ log) = may_have_pace c log

-- Whether it may have a secure channel.
unfoldable pub may_have_channel : ℕ → List Effect → Bool
may_have_channel c [] = false
may_have_channel c (opened d ∷ log) = if d == c then false else may_have_channel c log
may_have_channel c (handed_out d plugins ∷ log) = d == c || may_have_channel c log
may_have_channel c (cleared_credentials q d ∷ log) = may_have_channel c log
may_have_channel c (cleared_pace d ∷ log) = may_have_channel c log
may_have_channel c (cleared_channel d ∷ log) = if d == c then false else may_have_channel c log
may_have_channel c (closed d ∷ log) = may_have_channel c log

unfoldable pub is_set : Option ℕ → Bool
is_set none = false
is_set (some c) = true

-- Nothing is left on the connection by the plugin, and no secret of its own.
abbrev pub IsBare : ℕ → ℕ → List Effect → Type 0
IsBare c p log =
    (may_hold c p log ≡ false) × (may_have_pace c log ≡ false) × (may_have_channel c log ≡ false)

-- The holder has one connection at most; a parked one is bare, and on one in use nobody but its candidates may have left
-- anything.
pub record IsKept (h : Holder) : Type 0 where
  pub one : (is_set h.session && is_set h.hold) ≡ false
  pub parked : (c p : ℕ) → h.hold ≡ some c → IsBare c p h.log
  pub in_use :
      (c p : ℕ) → h.session ≡ some c → may_hold c p h.log ≡ any_of (λ q. q == p) h.candidates

pub acquire-IsKept :
    (opening : Opening) (resolved : Option (List ℕ)) (now : ℕ) (h : Holder)
    → IsKept h
    → IsKept (acquire opening resolved now h).1
unfolding acquire commit note may_hold may_have_pace may_have_channel is_set
acquire-IsKept opening resolved now h v = record {
  one = ground (arith, v.one);
  parked = λ c p e. ground (arith, e, v.one, v.parked c p);
  in_use = λ c p e. ground (arith, e, v.in_use c p, ==_iff c c);
}

may_hold-clear_all :
    (c p : ℕ) (plugins : List ℕ) (log : List Effect)
    → may_hold c p (clear_all c plugins log)
      ≡ (may_hold c p log && not (any_of (λ q. q == p) plugins))
unfolding clear_all may_hold
may_hold-clear_all c p [] log = ground arith
may_hold-clear_all c p (q ∷ plugins) log =
    ground (arith, ==_iff c c, may_hold-clear_all c p plugins (cleared_credentials q c ∷ log))

pub invalidate_session-IsKept : (h : Holder) → IsKept (invalidate_session h)
unfolding invalidate_session is_set
invalidate_session-IsKept h = record {
  one = refl;
  parked = λ c p e. absurd (ground (arith, e));
  in_use = λ c p e. absurd (ground (arith, e));
}

pub demote-IsKept :
    (live : Bool) (c : ℕ) (h : Holder) → IsKept h → h.session ≡ some c → IsKept (demote live c h)
unfolding demote erase_credentials is_set may_hold may_have_pace may_have_channel
demote-IsKept true c h v e = invalidate_session-IsKept h
demote-IsKept false c h v e = record {
  one = refl;
  parked = λ d p held.
      ground
        (arith, e, held, ==_iff c c, v.in_use c p e, may_hold-clear_all c p h.candidates h.log);
  in_use = λ d p f. absurd (ground (arith, f));
}

pub acquire_hold-IsKept :
    (opening : Opening) (h : Holder) → IsKept h → IsKept (acquire_hold opening h)
unfolding acquire_hold note is_set may_hold may_have_pace may_have_channel
acquire_hold-IsKept opening h v = record {
  one = ground (arith, v.one);
  parked = λ c p e. ground (arith, e, v.parked c p, ==_iff c c);
  in_use = λ c p e. ground (arith, e, v.in_use c p);
}

pub release_hold-IsKept : (h : Holder) → IsKept h → IsKept (release_hold h)
unfolding release_hold close_connection is_set may_hold
release_hold-IsKept h v = record {
  one = ground (arith, v.one);
  parked = λ c p e. absurd (ground (arith, e));
  in_use = λ c p e. ground (arith, e, v.in_use c p);
}

-- The memo of the method is no part of the property.
pub memo-IsKept :
    (h : Holder) (memo : Option PreReadAuth) → IsKept h → IsKept (record h { pre_read_auth = memo })
memo-IsKept h memo v = record { one = v.one; parked = v.parked; in_use = v.in_use }

pub remember-IsKept :
    (answers : Option (List PreReadAuth)) (got : Acquired) (h : Holder)
    → IsKept h
    → IsKept (remember answers got h).1
unfolding remember
remember-IsKept answers open_error h v = v
remember-IsKept answers exception h v = v
remember-IsKept none (card c plugins) h v = v
remember-IsKept (some ms) (card c plugins) h v = memo-IsKept h (some (strongest ms)) v

pub ask_pre_read_auth-IsKept :
    (opening : Opening) (resolved : Option (List ℕ)) (now : ℕ) (answers : Option (List PreReadAuth))
    (h : Holder)
    → IsKept h
    → IsKept (ask_pre_read_auth opening resolved now answers h).1
unfolding ask_pre_read_auth
ask_pre_read_auth-IsKept opening resolved now answers h v =
    on_option (λ (r : PreReadAuth × Holder). IsKept r.1) h.pre_read_auth _ _
      (λ _.
        remember-IsKept answers (acquire opening resolved now h).0 _
          (acquire-IsKept opening resolved now h v))
      (λ m _. v)

pub resolve-IsKept :
    (ask : Holder → PreReadAuth × Holder) (got : Acquired) (h : Holder)
    → ((k : Holder) → IsKept k → IsKept (ask k).1)
    → IsKept h
    → IsKept (resolve ask got h).1
unfolding resolve
resolve-IsKept ask open_error h keeps v = v
resolve-IsKept ask exception h keeps v = v
resolve-IsKept ask (card c []) h keeps v = invalidate_session-IsKept h
resolve-IsKept ask (card c (p ∷ ps)) h keeps v = keeps h v

pub sweep-IsKept :
    (opening : Opening) (hold_wanted live : Bool) (clock : Option ℕ) (h : Holder)
    → IsKept h
    → IsKept (sweep opening hold_wanted live clock h)
unfolding sweep
sweep-IsKept opening hold_wanted live none h v = v
sweep-IsKept opening hold_wanted live (some now) h v =
    on_option IsKept h.session _ _
      (λ _. on_if IsKept hold_wanted _ _ (λ _. acquire_hold-IsKept opening h v) (λ _. v))
      (λ c e.
        on_if IsKept (leb (h.last_used + idle_close) now) _ _
          (λ _.
            on_if IsKept hold_wanted _ _ (λ _. demote-IsKept live c h v e)
              (λ _. invalidate_session-IsKept h))
          (λ _. v))
