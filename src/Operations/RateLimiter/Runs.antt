-- ===== src/Operations/RateLimiter/Runs.antt =====
-- The throttle at concrete histories.
use libre_agent.Common.{◌*◌, ◌≤◌, ◌≡◌, refl, true, List, [], ◌∷◌, arith}
use libre_agent.Common.Map
use libre_agent.Operations.RateLimiter.{
  max_per_window, second, Attempt, after, admitted, allow, sweep, judge, state_of, backoff_for,
}
use libre_agent.Operations.RateLimiter.Window.{in_window}
use libre_agent.Operations.RateLimiter.Bound.{admitted_bound, allow_recovers}

-- Six attempts in three seconds, newest first.
abbrev flood : List Attempt
flood =
    (":1.4", 3 * second)
    ∷ (":1.4", 2 * second)
    ∷ (":1.4", 2 * second)
    ∷ (":1.8", 2 * second)
    ∷ (":1.4", second)
    ∷ (":1.4", second)
    ∷ (":1.4", second)
    ∷ []

-- The sixth attempt of the flooding caller is refused.
admitted-flood : admitted ":1.4" flood ≡ 2 * second ∷ 2 * second ∷ second ∷ second ∷ second ∷ []
unfolding admitted after allow sweep judge state_of backoff_for Map.running
admitted-flood = refl

admitted_bound_example : in_window (4 * second) (admitted ":1.4" flood) ≤ max_per_window
admitted_bound_example =
    admitted_bound ":1.4" (3 * second) (4 * second) flood (omega arith) (omega arith)

allow_recovers_example : (allow (after flood) ":1.4" (64 * second)).0 ≡ true
allow_recovers_example =
    allow_recovers ":1.4" (3 * second) (64 * second) flood (omega arith) (omega arith)
