-- ===== src/Pkcs11/Broker/Gate.antt =====
-- The order of the broker's gates, and what a refused PIN does.
use libre_agent.Common.{
  ℕ, ◌≡◌, refl, ◌∙◌, Bool, true, false, ◌&&◌, Option, none, some, List, [], ◌∷◌, arith, ◌==◌,
  if◌then◌else◌, Bool-cases, inl, inr, any_of,
}
use libre_agent.Identity.{CallerToken, ObjectId}
use libre_agent.Pkcs11.Lease.{LeaseKey, LeaseConfig, Leases, lease_key, is_active, touch}
use libre_agent.Pkcs11.Lease.History.{touch_iff_active, touch-revoke}
use libre_agent.Pkcs11.Broker.{
  Mechanism, value_of, ecdh_derive, rsa_pkcs1_decrypt, sign_mechanisms, no_params, ecdh_params,
  ecdh_kdf_null, CryptoOutcome, failed, Begun, over, runs, lease_key_of, run_crypto, finish_crypto,
  Operation, sign_raw, decrypt, derive, crypto,
}

-- The checks that come before the card is looked up.
abbrev pub admits : Operation → Bool → Bool
admits (sign_raw mechanism) wired =
    any_of (λ a. value_of a == value_of mechanism) sign_mechanisms && wired
admits (decrypt mechanism) wired =
    any_of (λ a. value_of a == value_of mechanism) (rsa_pkcs1_decrypt ∷ []) && wired
admits (derive no_params) wired = false
admits (derive (ecdh_params point kdf [])) wired = (kdf == ecdh_kdf_null) && wired
admits (derive (ecdh_params point kdf (s ∷ shared))) wired = false

-- What the broker does with a request, once those checks are settled.
abbrev pub gate :
    Bool
    → LeaseConfig
    → Leases
    → CallerToken
    → Option ObjectId
    → ℕ
    → Leases × Begun CryptoOutcome (List ℕ)
gate false c m caller card now = (m, over (failed CryptoOutcome.not_supported))
gate true c m caller none now = (m, over (failed CryptoOutcome.unknown_card))
gate true c m caller (some id) now =
    let (m', live) = touch c m (lease_key_of caller id) now in
    if live
    then (m', runs (lease_key_of caller id))
    else (m', over (failed CryptoOutcome.user_not_logged_in))

run_crypto-gate :
    (allowed : List Mechanism) (wired : Bool) (mechanism : Mechanism) (c : LeaseConfig) (m : Leases)
    (caller : CallerToken) (card : Option ObjectId) (now : ℕ)
    → run_crypto allowed wired mechanism c m caller card now
      ≡ gate (any_of (λ a. value_of a == value_of mechanism) allowed && wired) c m caller card now
unfolding run_crypto
run_crypto-gate allowed wired mechanism c m caller card now = ground arith

-- Each operation is refused as unsupported by its mechanism, its parameters or a missing seam first, then
-- for an unknown card, then for the lack of a live lease, and otherwise runs under the caller's key.
pub crypto-gate :
    (op : Operation) (wired : Bool) (c : LeaseConfig) (m : Leases) (caller : CallerToken)
    (card : Option ObjectId) (now : ℕ)
    → crypto op wired c m caller card now ≡ gate (admits op wired) c m caller card now
unfolding crypto
crypto-gate (sign_raw mechanism) wired c m caller card now =
    run_crypto-gate sign_mechanisms wired mechanism c m caller card now
crypto-gate (decrypt mechanism) wired c m caller card now =
    run_crypto-gate (rsa_pkcs1_decrypt ∷ []) wired mechanism c m caller card now
crypto-gate (derive no_params) wired c m caller card now = refl
crypto-gate (derive (ecdh_params point kdf [])) wired c m caller card now =
    ground (arith, run_crypto-gate (ecdh_derive ∷ []) wired ecdh_derive c m caller card now)
crypto-gate (derive (ecdh_params point kdf (s ∷ shared))) wired c m caller card now = refl

pub gate_runs :
    (b : Bool) (c : LeaseConfig) (m : Leases) (caller : CallerToken) (card : Option ObjectId)
    (now : ℕ) (key : LeaseKey)
    → (gate b c m caller card now).1 ≡ runs key
    → (card ≡ some key.card) × (key.caller ≡ caller) × ((is_active c m key now).1 ≡ true)
unfolding lease_key_of
gate_runs false c m caller card now key e = absurd (cc)
gate_runs true c m caller none now key e = absurd (cc)
gate_runs true c m caller (some id) now key e =
    elim (Bool-cases (touch c m (lease_key_of caller id) now).1) [
      | inl live ↦
          (ground arith, ground arith, rw (← (touch_iff_active c m key now)) (ground arith))
      | inr dead ↦ absurd (ground arith)
    ]

-- A refused PIN ends the lease: the next operation of that caller on that card, if the broker admits it,
-- is refused for the lack of a login and leaves the leases as they are.
pub crypto_after_auth_failed :
    (op : Operation) (c : LeaseConfig) (m : Leases) (caller : CallerToken) (id : ObjectId) (now : ℕ)
    (bytes : List ℕ)
    → admits op true ≡ true
    → let m' = (finish_crypto m (lease_key_of caller id) false CryptoOutcome.auth_failed bytes).0 in
      crypto op true c m' caller (some id) now
      ≡ (m', over (failed CryptoOutcome.user_not_logged_in))
unfolding finish_crypto
crypto_after_auth_failed op c m caller id now bytes h =
    crypto-gate op true c _ caller (some id) now
    ∙ rw h (rw (touch-revoke c m (lease_key_of caller id) now))
