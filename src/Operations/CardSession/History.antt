-- ===== src/Operations/CardSession/History.antt =====
-- The holder after any calls of its worker.
use libre_agent.Common.{ℕ, ◌≡◌, refl, Bool, Option, none, some, List, [], ◌∷◌, arith}
use libre_agent.Pkcs11.Objects.{PreReadAuth}
use libre_agent.Operations.CardSession.{
  Holder, new_holder, Opening, acquire, invalidate_session, ask_pre_read_auth, full_resolution,
  acquire_hold, release_hold, sweep,
}
use libre_agent.Operations.CardSession.Clean.{
  IsKept, IsBare, is_set, acquire-IsKept, invalidate_session-IsKept, acquire_hold-IsKept,
  release_hold-IsKept, ask_pre_read_auth-IsKept, resolve-IsKept, sweep-IsKept,
}

-- The worker's calls.
pub data Call : Type 0 where
  acquires : Opening → Option (List ℕ) → ℕ → Call
  resolves : Opening → Option (List ℕ) → ℕ → Option (List PreReadAuth) → Call
  invalidates : Call
  holds : Opening → Call
  releases : Call
  sweeps : Opening → Bool → Bool → Option ℕ → Call

unfoldable pub step : Holder → Call → Holder
unfolding acquire full_resolution invalidate_session acquire_hold release_hold sweep
step h (acquires opening resolved now) = (acquire opening resolved now h).1
step h (resolves opening resolved now answers) = (full_resolution opening resolved now answers h).1
step h invalidates = invalidate_session h
step h (holds opening) = acquire_hold opening h
step h releases = release_hold h
step h (sweeps opening hold_wanted live clock) = sweep opening hold_wanted live clock h

-- The holder after a history, newest call first.
unfoldable pub after : List Call → Holder
unfolding step
after [] = new_holder
after (call ∷ past) = step (after past) call

step-IsKept : (h : Holder) (call : Call) → IsKept h → IsKept (step h call)
unfolding step full_resolution
step-IsKept h (acquires opening resolved now) v = acquire-IsKept opening resolved now h v
step-IsKept h (resolves opening resolved now answers) v =
    resolve-IsKept (ask_pre_read_auth opening resolved now answers) _ _
      (ask_pre_read_auth-IsKept opening resolved now answers)
      (acquire-IsKept opening resolved now h v)
step-IsKept h invalidates v = invalidate_session-IsKept h
step-IsKept h (holds opening) v = acquire_hold-IsKept opening h v
step-IsKept h releases v = release_hold-IsKept h v
step-IsKept h (sweeps opening hold_wanted live clock) v =
    sweep-IsKept opening hold_wanted live clock h v

after-IsKept : (past : List Call) → IsKept (after past)
unfolding after is_set
after-IsKept [] = record {
  one = refl;
  parked = λ c p e. absurd (ground (arith, e));
  in_use = λ c p e. absurd (ground (arith, e));
}
after-IsKept (call ∷ past) = step-IsKept (after past) call (after-IsKept past)

-- After any calls of the worker, whatever the factory, the resolver, the plugins and the clock answer: where a
-- connection is parked, there is none in use, and since it was last handed out each of the candidates it was
-- handed out with was made to forget it, and its PACE secrets and its channel were cleared.
pub hold-IsBare :
    (past : List Call) (c p : ℕ)
    → (after past).hold ≡ some c
    → ((after past).session ≡ none) × IsBare c p (after past).log
unfolding is_set
hold-IsBare past c p e = let v = after-IsKept past in (ground (arith, e, v.one), v.parked c p e)
