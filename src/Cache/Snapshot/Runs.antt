-- ===== src/Cache/Snapshot/Runs.antt =====
-- The versions at a concrete history.
use libre_agent.Common.{ℕ, All, ◌≡◌, ◌<◌, refl, some, List, [], ◌∷◌, arith}
use libre_agent.Common.Map
use libre_agent.Cache.Snapshot.{
  CredentialSnapshot, Event, puts, gets, clears, after, step, put, get, live_entry,
}
use libre_agent.Cache.Snapshot.Versions.{seen, put_newer}

abbrev past : List (Event (List ℕ))
past = gets "card-1" 5 ∷ puts "card-2" [] 4 ∷ puts "card-1" (7 ∷ []) 3 ∷ []

abbrev held : CredentialSnapshot (List ℕ)
held = record { records = 7 ∷ []; version = 1 }

past_held : (get 300 "card-1" 6 (after 300 past)).1 ≡ some held
unfolding get live_entry after step put Map.running
past_held = refl

-- What everybody has seen stays old after a clearing as well.
abbrev cleared : List (Event (List ℕ))
cleared = clears ∷ past

put_newer_example : All (λ v. v < (put "card-1" [] 6 (after 300 cleared)).1) (seen 300 cleared)
put_newer_example = put_newer 300 cleared "card-1" [] 6 (omega arith)

versions_kept : seen 300 cleared ≡ 1 ∷ 2 ∷ 1 ∷ []
unfolding seen get live_entry after step put Map.running
versions_kept = refl
