-- ===== src/Pkcs11/Broker/Runs.antt =====
-- The broker at a concrete history.
use libre_agent.Common.{ℕ, ◌+◌, ◌<◌, ◌≡◌, refl, true, false, some, List, [], ◌∷◌, arith}
use libre_agent.Common.Map
use libre_agent.Pkcs11.Lease
use libre_agent.Pkcs11.Lease.{LeaseKey, LeaseConfig}
use libre_agent.Common.Trace.{Since}
use libre_agent.Pkcs11.Broker.{
  rsa_pkcs1_sign, ecdsa_sign, CryptoOutcome, LoginOutcome, runs, lease_key_of, finish_login,
  finish_crypto, run_crypto, sign_raw, crypto, Event, login_finished, crypto_asked, crypto_finished,
  pin_marked, step, after,
}
use libre_agent.Pkcs11.Broker.Login.{ends_login, crypto_logged_in}

abbrev usual : LeaseConfig
usual = record { idle_timeout = 600; max_lifetime = 28_800 }

abbrev browser : LeaseKey
browser = record { caller = ":1.7"; card = 3 }

-- A login, a signature with its PIN, and another caller's failed one, newest first.
abbrev session : List Event
session =
    crypto_finished (record { caller = ":1.9"; card = 3 }) false CryptoOutcome.auth_failed []
    ∷ crypto_finished browser false CryptoOutcome.ok (1 ∷ [])
    ∷ pin_marked browser
    ∷ crypto_asked (sign_raw rsa_pkcs1_sign) true ":1.7" (some 3) 110
    ∷ login_finished browser 100 LoginOutcome.ok
    ∷ []

session_runs :
    (crypto (sign_raw ecdsa_sign) true usual (after usual session) ":1.7" (some 3) 130).1
    ≡ runs browser
unfolding crypto run_crypto after step finish_login finish_crypto Lease.running lease_key_of
    Map.running
session_runs = refl

crypto_logged_in_example :
    (some 3 ≡ some browser.card)
    × (browser.caller ≡ ":1.7")
    × ((t : ℕ) × (130 < t + 28_800)
        × Since
            (λ event. event ≡ login_finished browser t LoginOutcome.ok)
            (ends_login browser)
            session)
crypto_logged_in_example =
    crypto_logged_in usual session (sign_raw ecdsa_sign) true ":1.7" (some 3) 130 browser
      (omega arith) session_runs
