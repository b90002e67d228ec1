-- ===== src/Operations/CardSession/Runs.antt =====
-- The holder at concrete calls.
use libre_agent.Common.{◌≡◌, refl, true, false, none, some, List, [], ◌∷◌}
use libre_agent.Operations.CardSession.{
  opens, acquire, commit, note, sweep, demote, erase_credentials, clear_all,
}
use libre_agent.Operations.CardSession.Clean.{IsBare}
use libre_agent.Operations.CardSession.History.{Call, acquires, sweeps, step, after, hold-IsBare}

-- An operation with two plugins, and a sweep when the reader has been idle for 45 seconds.
abbrev past : List Call
past = sweeps (opens 2) true false (some 145) ∷ acquires (opens 1) (some (7 ∷ 8 ∷ [])) 100 ∷ []

past_parked : (after past).hold ≡ some 1
unfolding after step acquire commit note sweep demote erase_credentials clear_all
past_parked = refl

hold-IsBare_example : ((after past).session ≡ none) × IsBare 1 8 (after past).log
hold-IsBare_example = hold-IsBare past 1 8 past_parked
