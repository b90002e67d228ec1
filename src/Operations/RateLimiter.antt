-- ===== src/Operations/RateLimiter.antt =====
-- src/operations/RateLimiter.cpp: the throttle of signing requests and PIN prompts. Times and
-- durations are nanoseconds of the steady clock, and time 0 is its epoch. `now - t > d` is written
-- `t + d < now`. The mutex makes a call of `allow` one step.
pub mod Window
pub mod Bound
mod Runs
use libre_agent.Common.{
  ℕ, zero, suc, ◌+◌, ◌-◌, ◌*◌, Bool, true, false, not, ◌&&◌, ◌||◌, Option, none, some, List, [],
  ◌∷◌, ◌++◌, ltb, leb, ◌==◌, if◌then◌else◌, length, min,
}
use libre_agent.Common.Map
use libre_agent.Common.Map.{Map}
use libre_agent.Common.{text_key}
use libre_agent.Identity.{CallerToken}
use text.Mathlib.Text.{◌==◌ as text_eq}

abbrev pub max_per_window : ℕ
max_per_window = 5

abbrev pub second : ℕ
second = 1_000_000_000

abbrev pub window : ℕ
window = 60 * second

abbrev pub base_backoff : ℕ
base_backoff = 2 * second

abbrev pub max_backoff : ℕ
max_backoff = 60 * second

abbrev pub sweep_threshold : ℕ
sweep_threshold = 1024

pub record CallerState : Type 0 where
  pub recent : List ℕ
  pub backoff_level : ℕ
  pub backoff_until : ℕ

abbrev pub new_caller : CallerState
new_caller = record { recent = []; backoff_level = 0; backoff_until = 0 }

abbrev pub Callers : Type 0
Callers = Map CallerToken CallerState

-- `recent.back()`, where there is one.
unfoldable pub last_of : List ℕ → Option ℕ
last_of [] = none
last_of (t ∷ ts) = elim (last_of ts) [ none ↦ some t | some u ↦ some u ]

unfoldable pub window_empty : ℕ → List ℕ → Bool
unfolding last_of
window_empty now recent = elim (last_of recent) [ none ↦ true | some t ↦ ltb (t + window) now ]

unfoldable pub is_idle : ℕ → CallerState → Bool
is_idle now s = window_empty now s.recent && leb s.backoff_until now

unfoldable pub sweep : CallerToken → ℕ → Callers → Callers
unfolding is_idle
sweep caller now m =
    if ltb sweep_threshold (length m)
    then Map.erase_if (λ k s. not (text_eq k caller) && is_idle now s) m
    else m

-- The attempts that the window has left behind go, oldest first.
unfoldable pub drop_aged : ℕ → List ℕ → List ℕ
drop_aged now [] = []
drop_aged now (t ∷ ts) = if ltb (t + window) now then drop_aged now ts else t ∷ ts

-- `for (i = 1; i < level; ++i) backoff = min(backoff * 2, kMaxBackoff)`; the count is the rounds left.
unfoldable pub double_backoff : ℕ → ℕ → ℕ
double_backoff zero backoff = backoff
double_backoff (suc rounds) backoff = double_backoff rounds (min (backoff * 2) max_backoff)

unfoldable pub backoff_for : ℕ → ℕ
unfolding double_backoff
backoff_for level = double_backoff (level - 1) base_backoff

unfoldable pub state_of : CallerToken → Callers → CallerState
state_of caller m = elim (Map.lookup caller m) [ none ↦ new_caller | some s ↦ s ]

-- The verdict on one attempt of a caller, and the caller's state after it.
unfoldable pub judge : CallerState → ℕ → Bool × CallerState
unfolding drop_aged
judge s now =
    if ltb now s.backoff_until
    then (false, s)
    else (let live = drop_aged now s.recent in
        let level = min (s.backoff_level + 1) 5 in
        if leb max_per_window (length live)
        then (
          false,
          record { recent = live; backoff_level = level; backoff_until = now + backoff_for level },
        )
        else (true, record { recent = live ++ (now ∷ []); backoff_level = 0; backoff_until = 0 }))

unfoldable pub allow : Callers → CallerToken → ℕ → Bool × Callers
allow m caller now =
    let swept = sweep caller now m in
    let (verdict, s) = judge (state_of caller swept) now in (verdict, Map.insert caller s swept)

-- An attempt and its time, newest first.
abbrev pub Attempt : Type 0
Attempt = CallerToken × ℕ

pub after : List Attempt → Callers
after [] = []
after ((caller, now) ∷ past) = (allow (after past) caller now).1

-- The times at which the throttle let a caller through, newest first.
pub admitted : CallerToken → List Attempt → List ℕ
admitted key [] = []
admitted key ((caller, now) ∷ past) =
    if text_eq caller key && (allow (after past) caller now).0
    then now ∷ admitted key past
    else admitted key past
