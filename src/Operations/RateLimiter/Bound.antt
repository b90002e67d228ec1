-- ===== src/Operations/RateLimiter/Bound.antt =====
-- The throttle over a whole history of attempts, with the sweep of idle callers.
use libre_agent.Common.{
  ℕ, ◌+◌, ◌≤◌, ◌<◌, ◌≡◌, ◌⊎◌, refl, sym, subst, true, false, not, ◌&&◌, none, some, List, [], ◌∷◌,
  arith, if◌then◌else◌, Bool-cases, Option-cases, inl, inr,
}
use libre_agent.Common.Map
use libre_agent.Common.Unique.{Unique, erase_if-Unique, insert-Unique, lookup-erase_if_entry}
use libre_agent.Common.{text_key}
use libre_agent.Identity.{CallerToken}
use libre_agent.Operations.RateLimiter.{
  max_per_window, window, max_backoff, CallerState, new_caller, Callers, Attempt, after, admitted,
  is_idle, sweep, state_of, judge, drop_aged, allow,
}
use libre_agent.Operations.RateLimiter.Window.{
  in_window, in_window-le, Tracks, Tracks-later, idle-Tracks, judge-Tracks, Rising, Rising-le,
}
use text.Mathlib.Text.{◌==◌ as text_eq}
use text.Mathlib.TextEquality.{eq_iff}

-- The clock never went back, and reads `last` or less at the newest attempt.
abbrev pub ClockOrder : ℕ → List Attempt → Type 0
ClockOrder last [] = Unit {0}
ClockOrder last ((caller, now) ∷ past) = (now ≤ last) × ClockOrder now past

pub allow-Unique :
    (m : Callers) (caller : CallerToken) (now : ℕ) → Unique m → Unique (allow m caller now).1
unfolding allow sweep
allow-Unique m caller now u =
    insert-Unique caller _ (sweep caller now m)
      (ground (arith, erase_if-Unique (λ k s. not (text_eq k caller) && is_idle now s) m))

pub after-Unique : (past : List Attempt) → Unique (after past)
unfolding after
after-Unique [] = tt
after-Unique ((caller, now) ∷ past) = allow-Unique (after past) caller now (after-Unique past)

-- The sweep keeps a caller's state, or forgets one that is idle.
sweep_cases :
    (m : Callers) (caller key : CallerToken) (now : ℕ)
    → Unique m
    → (state_of key (sweep caller now m) ≡ state_of key m)
      ⊎ ((state_of key (sweep caller now m) ≡ new_caller)
          × (is_idle now (state_of key m) ≡ true)
          × (text_eq key caller ≡ false))
unfolding sweep state_of
sweep_cases m caller key now u = elim (Option-cases (Map.lookup key m)) [
  | inl e ↦ inl (ground (arith, gone))
  | inr (s, e) ↦ elim (Bool-cases (not (text_eq key caller) && is_idle now s)) [
    | inl out ↦ ground (arith, gone)
    | inr stays ↦ inl (ground (arith, gone))
  ]
]
  where
    gone :
        Map.lookup key (Map.erase_if (λ k s. not (text_eq k caller) && is_idle now s) m)
        ≡ elim (Map.lookup key m) [
          | none ↦ none
          | some s ↦ if not (text_eq key caller) && is_idle now s then none else some s
        ]
    gone = lookup-erase_if_entry (λ k s. not (text_eq k caller) && is_idle now s) key m u

sweep-Tracks :
    (m : Callers) (caller key : CallerToken) (now : ℕ) (times : List ℕ)
    → Unique m
    → Tracks now times (state_of key m)
    → Tracks now times (state_of key (sweep caller now m))
sweep-Tracks m caller key now times u v = elim (sweep_cases m caller key now u) [
  | inl same ↦ rw same v
  | inr (new, idle, _) ↦ rw new (idle-Tracks now times (state_of key m) v idle)
]

state_of-insert :
    (m : Callers) (caller key : CallerToken) (s : CallerState)
    → state_of key (Map.insert caller s m) ≡ (if text_eq caller key then s else state_of key m)
unfolding state_of
state_of-insert m caller key s = ground (arith, Map.lookup-insert caller key s m)

allow-Tracks :
    (m : Callers) (caller key : CallerToken) (now : ℕ) (times : List ℕ)
    → Unique m
    → Tracks now times (state_of key m)
    → Tracks now
        (if text_eq caller key && (allow m caller now).0 then now ∷ times else times)
        (state_of key (allow m caller now).1)
unfolding allow
allow-Tracks m caller key now times u v =
    rw state_of-insert (elim (Bool-cases (text_eq caller key)) [
      | inl same ↦
          let e = (eq_iff caller key).0 same in
          let own = subst (λ c. Tracks now times (state_of c (sweep caller now m))) (sym e) swept in
          rw same (judge-Tracks now times _ own)
      | inr other ↦ rw other swept
    ])
  where
    swept : Tracks now times (state_of key (sweep caller now m))
    swept = sweep-Tracks m caller key now times u v

after-Tracks :
    (key : CallerToken) (last : ℕ) (past : List Attempt)
    → ClockOrder last past
    → Tracks last (admitted key past) (state_of key (after past))
unfolding after admitted
after-Tracks key last [] h =
    unfold state_of Map.lookup in
    record {
      rising = omega arith;
      few = omega arith;
      counted = λ later p. refl;
      until = omega arith;
    }
after-Tracks key last ((caller, now) ∷ past) h = Tracks-later now last _ _ h.0 (
    allow-Tracks (after past) caller key now (admitted key past) (after-Unique past)
      (after-Tracks key now past h.1))

-- However callers mix, and whatever the sweep forgets: as long as the clock does not go back, no window
-- of 60 seconds that ends at the newest attempt or later holds more than five attempts of one caller
-- that the throttle let through.
pub admitted_bound :
    (key : CallerToken) (last now : ℕ) (past : List Attempt)
    → ClockOrder last past
    → last ≤ now
    → in_window now (admitted key past) ≤ max_per_window
admitted_bound key last now past h p =
    let v = after-Tracks key last past h in
    omega (arith, v.few, v.counted now p, in_window-le now (state_of key (after past)).recent)

drop_all :
    (lo hi now : ℕ) (ts : List ℕ) → Rising lo hi ts → hi + window < now → drop_aged now ts ≡ []
unfolding drop_aged
drop_all lo hi now [] r h = refl
drop_all lo hi now (t ∷ ts) r h =
    ground (arith, drop_all t hi now ts r.1 h, Rising-le lo hi (t ∷ ts) r, Rising-le t hi ts r.1)

judge_recovered :
    (last now : ℕ) (times : List ℕ) (s : CallerState)
    → Tracks last times s
    → last + max_backoff < now
    → (judge s now).0 ≡ true
unfolding judge
judge_recovered last now times s v h =
    ground (arith, v.until, drop_all 0 last now s.recent v.rising (omega arith))

-- A caller is let through again, whatever it did before, once nobody has sent anything for more than 60
-- seconds.
pub allow_recovers :
    (key : CallerToken) (last now : ℕ) (past : List Attempt)
    → ClockOrder last past
    → last + max_backoff < now
    → (allow (after past) key now).0 ≡ true
unfolding allow
allow_recovers key last now past h p =
    elim (sweep_cases (after past) key key now (after-Unique past)) [
      | inl same ↦ rw same (judge_recovered last now _ _ (after-Tracks key last past h) p)
      | inr (new, _, _) ↦ rw new (unfold judge drop_aged in ground arith)
    ]
