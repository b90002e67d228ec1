-- ===== src/Pkcs11/Broker.antt =====
-- src/pkcs11/Pkcs11Broker.cpp: who may run which key operation. A request and the completion of the
-- asynchronous seam that it starts are two steps, since other calls run in between. What the host
-- answers is an argument of the step: the authority's verdict, the card that `resolveCardKey` names,
-- whether the seam is wired, the seam's outcome, and the state of the shutdown token. The audit
-- lines of the log are left out.
pub mod Gate
pub mod Login
mod Runs
use libre_agent.Common.{
  ℕ, Bool, true, false, not, ◌&&◌, Option, none, some, List, [], ◌∷◌, ◌++◌, String, ◌==◌,
  if◌then◌else◌, any_of, ◌⊎◌, inl, inr,
}
use libre_agent.Identity.{CallerToken, ObjectId}
use libre_agent.Pkcs11.Lease.{
  LeaseKey, LeaseConfig, Leases, grant, is_active, touch, mark_pin_verified, clear_pin_verified,
  revoke, revoke_card, revoke_caller,
}

pub data Mechanism : Type 0 where
  rsa_pkcs1_sign ecdsa_sign rsa_pkcs1_decrypt ecdh_derive sha256_rsa_pkcs1_sign : Mechanism

-- The enumerator's value.
abbrev pub value_of : Mechanism → ℕ
value_of rsa_pkcs1_sign = 0
value_of ecdsa_sign = 1
value_of rsa_pkcs1_decrypt = 2
value_of ecdh_derive = 3
value_of sha256_rsa_pkcs1_sign = 4

pub data MechanismParams : Type 0 where
  no_params : MechanismParams
  ecdh_params : List ℕ → ℕ → List ℕ → MechanismParams

abbrev pub ecdh_kdf_null : ℕ
ecdh_kdf_null = 1

pub data CryptoOutcome : Type 0 where
  ok cancelled key_not_found auth_failed not_supported card_error : CryptoOutcome
  unknown_card user_not_logged_in rate_limited invalid_input : CryptoOutcome

pub data LoginOutcome : Type 0 where
  ok cancelled not_authorized_by_card card_error unknown_card not_authorized : LoginOutcome

pub data AuthorizationOutcome : Type 0 where
  granted denied undecided : AuthorizationOutcome

-- What a caller hears: an answer, a failure, or nothing yet. `dropped` is a reply that is never made.
pub data Reply (E A : Type 0) : Type 0 where
  answered : A → Reply E A
  failed : E → Reply E A
  dropped : Reply E A

-- The first step of a request: it is over, or the seam runs for this lease key.
pub data Begun (E A : Type 0) : Type 0 where
  over : Reply E A → Begun E A
  runs : LeaseKey → Begun E A

unfoldable pub lease_key_of : CallerToken → ObjectId → LeaseKey
lease_key_of caller card = record { caller = caller; card = card }

-- `certDer`: public data, so the card alone is resolved.
unfoldable pub cert_der : Option ObjectId → Option (List ℕ) → Reply CryptoOutcome (List ℕ)
cert_der none der = failed CryptoOutcome.unknown_card
cert_der (some card) none = failed CryptoOutcome.key_not_found
cert_der (some card) (some der) = answered der

-- `publicKey`, public data too; the seam says why it has none.
unfoldable pub public_key :
    {A : Type 0} → Option ObjectId → CryptoOutcome ⊎ A → Reply CryptoOutcome A
public_key none key = failed CryptoOutcome.unknown_card
public_key (some card) (inl e) = failed e
public_key (some card) (inr key) = answered key

-- `login` with its authorization, and `continueLogin` up to the login seam.
unfoldable pub login :
    CallerToken → AuthorizationOutcome → Bool → Option ObjectId → Begun LoginOutcome ℕ
login caller granted true card = over dropped
login caller granted false none = over (failed LoginOutcome.unknown_card)
login caller granted false (some card) = runs (lease_key_of caller card)
login caller denied shutdown card = over (failed LoginOutcome.not_authorized)
login caller undecided shutdown card = over (failed LoginOutcome.not_authorized)

-- The completion of the login seam.
unfoldable pub finish_login :
    LeaseConfig → Leases → LeaseKey → ℕ → LoginOutcome → Leases × Reply LoginOutcome ℕ
finish_login c m key now LoginOutcome.ok = (grant m key now, answered c.idle_timeout)
finish_login c m key now LoginOutcome.cancelled = (m, failed LoginOutcome.cancelled)
finish_login c m key now LoginOutcome.not_authorized_by_card =
    (m, failed LoginOutcome.not_authorized_by_card)
finish_login c m key now LoginOutcome.card_error = (m, failed LoginOutcome.card_error)
finish_login c m key now LoginOutcome.unknown_card = (m, failed LoginOutcome.card_error)
finish_login c m key now LoginOutcome.not_authorized = (m, failed LoginOutcome.card_error)

unfoldable pub logout : Leases → CallerToken → Option ObjectId → Leases
logout m caller none = m
logout m caller (some card) = revoke m (lease_key_of caller card)

unfoldable pub login_active :
    LeaseConfig → Leases → CallerToken → Option ObjectId → ℕ → Leases × Bool
login_active c m caller none now = (m, false)
login_active c m caller (some card) now = is_active c m (lease_key_of caller card) now

-- `runCrypto` up to the seam.
unfoldable pub run_crypto :
    List Mechanism
    → Bool
    → Mechanism
    → LeaseConfig
    → Leases
    → CallerToken
    → Option ObjectId
    → ℕ
    → Leases × Begun CryptoOutcome (List ℕ)
run_crypto allowed wired mechanism c m caller card now =
    if not (any_of (λ a. value_of a == value_of mechanism) allowed)
    then (m, over (failed CryptoOutcome.not_supported))
    else if not wired
    then (m, over (failed CryptoOutcome.not_supported))
    else elim card [
      | none ↦ (m, over (failed CryptoOutcome.unknown_card))
      | some id ↦
          let key = lease_key_of caller id in
          let (m', live) = touch c m key now in
          if live then (m', runs key) else (m', over (failed CryptoOutcome.user_not_logged_in))
    ]

-- The completion of a crypto seam.
unfoldable pub finish_crypto :
    Leases → LeaseKey → Bool → CryptoOutcome → List ℕ → Leases × Reply CryptoOutcome (List ℕ)
finish_crypto m key shutdown CryptoOutcome.ok bytes = (m, answered bytes)
finish_crypto m key true CryptoOutcome.auth_failed bytes = (m, dropped)
finish_crypto m key false CryptoOutcome.auth_failed bytes =
    (revoke m key, failed CryptoOutcome.auth_failed)
finish_crypto m key shutdown outcome bytes = (m, failed outcome)

abbrev pub sign_mechanisms : List Mechanism
sign_mechanisms = rsa_pkcs1_sign ∷ sha256_rsa_pkcs1_sign ∷ ecdsa_sign ∷ []

-- The three operations.
pub data Operation : Type 0 where
  sign_raw decrypt : Mechanism → Operation
  derive : MechanismParams → Operation

unfoldable pub crypto :
    Operation
    → Bool
    → LeaseConfig
    → Leases
    → CallerToken
    → Option ObjectId
    → ℕ
    → Leases × Begun CryptoOutcome (List ℕ)
crypto (sign_raw mechanism) wired c m caller card now =
    run_crypto sign_mechanisms wired mechanism c m caller card now
crypto (decrypt mechanism) wired c m caller card now =
    run_crypto (rsa_pkcs1_decrypt ∷ []) wired mechanism c m caller card now
crypto (derive no_params) wired c m caller card now = (m, over (failed CryptoOutcome.not_supported))
crypto (derive (ecdh_params point kdf [])) wired c m caller card now =
    if kdf == ecdh_kdf_null
    then run_crypto (ecdh_derive ∷ []) wired ecdh_derive c m caller card now
    else (m, over (failed CryptoOutcome.not_supported))
crypto (derive (ecdh_params point kdf (s ∷ shared))) wired c m caller card now =
    (m, over (failed CryptoOutcome.not_supported))

-- What reaches the broker and its leases, one step each. The two PIN events are the callbacks
-- that a running operation was given.
pub data Event : Type 0 where
  login_finished : LeaseKey → ℕ → LoginOutcome → Event
  crypto_asked : Operation → Bool → CallerToken → Option ObjectId → ℕ → Event
  crypto_finished : LeaseKey → Bool → CryptoOutcome → List ℕ → Event
  pin_marked pin_cleared : LeaseKey → Event
  active_asked : CallerToken → Option ObjectId → ℕ → Event
  logged_out : CallerToken → Option ObjectId → Event
  card_removed : ObjectId → Event
  client_disconnected : CallerToken → Event

unfoldable pub step : LeaseConfig → Leases → Event → Leases
step c m (login_finished key now outcome) = (finish_login c m key now outcome).0
step c m (crypto_asked op wired caller card now) = (crypto op wired c m caller card now).0
step c m (crypto_finished key shutdown outcome bytes) =
    (finish_crypto m key shutdown outcome bytes).0
step c m (pin_marked key) = mark_pin_verified m key
step c m (pin_cleared key) = clear_pin_verified m key
step c m (active_asked caller card now) = (login_active c m caller card now).0
step c m (logged_out caller card) = logout m caller card
step c m (card_removed card) = revoke_card m card
step c m (client_disconnected caller) = revoke_caller m caller

-- The leases after a history, newest event first.
unfoldable pub after : LeaseConfig → List Event → Leases
after c [] = []
after c (event ∷ past) = step c (after c past) event
