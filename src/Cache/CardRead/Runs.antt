-- ===== src/Cache/CardRead/Runs.antt =====
-- The read cache at concrete histories; an identity and a list of certificates are numbers here.
use libre_agent.Common.{
  ℕ, ◌+◌, ◌≤◌, ◌≡◌, ◌⊎◌, refl, false, none, some, List, [], ◌∷◌, String, text_key,
}
use libre_agent.Common.Map
use libre_agent.Common.Map.{Map}
use libre_agent.Common.Trace.{Since}
use libre_agent.Cache.CardRead.{
  Entry, entry_of, is_expired, live_entry, put, put_certificates, get, get_certificates, Event,
  puts, puts_certificates, gets,
}
use libre_agent.Cache.CardRead.History.{after, step}
use libre_agent.Cache.CardRead.Latest.{latest_identity, get_last_put}
use libre_agent.Cache.CardRead.Expiry.{Touches, get_within, get_certificates-put}

abbrev past : List (Event ℕ ℕ)
past =
    gets "card-1" 200
    ∷ puts_certificates "card-2" 9 150
    ∷ puts "card-1" 7 10
    ∷ puts "card-1" 6 5
    ∷ []

past_read : (get (some 300) "card-1" 450 (after (some 300) past)).1 ≡ some 7
unfolding get live_entry is_expired after step put put_certificates entry_of Map.running
past_read = refl

get_last_put_example :
    ((get none "card-1" 450 (after none past)).1 ≡ latest_identity "card-1" past)
    × (((get (some 300) "card-1" 450 (after (some 300) past)).1 ≡ none)
        ⊎ ((get (some 300) "card-1" 450 (after (some 300) past)).1 ≡ latest_identity "card-1" past))
    × ((get (some 300) "card-1" 450 (after (some 300) (puts "card-1" 8 300 ∷ past))).1 ≡ some 8)
get_last_put_example = get_last_put (some 300) "card-1" 8 300 450 past

latest_seven : latest_identity "card-1" past ≡ some 7
unfolding latest_identity
latest_seven = refl

get_within_example : (t : ℕ) × (450 ≤ t + 300) × Since (Touches "card-1" t) (λ _. false) past
get_within_example = get_within 300 "card-1" 450 7 past past_read

-- Certificates that nobody has used since 100, ten minutes and more before.
abbrev idle : Entry ℕ ℕ
idle = record { identity = none; certs = some 9; touched_at = 100 }

abbrev abandoned : Map String (Entry ℕ ℕ)
abandoned = ("card-1", idle) ∷ []

abandoned_found : Map.lookup "card-1" abandoned ≡ some idle
unfolding Map.running
abandoned_found = refl

get_certificates-put_example :
    (get_certificates (some 300) "card-1" 1001 (put "card-1" 7 1000 abandoned)).1 ≡ some 9
get_certificates-put_example =
    get_certificates-put (some 300) "card-1" 7 9 idle 1000 1001 abandoned abandoned_found refl refl
