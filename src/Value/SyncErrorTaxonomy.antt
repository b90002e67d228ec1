-- ===== src/Value/SyncErrorTaxonomy.antt =====
-- src/value/SyncErrorTaxonomy.cpp: the error under which a refused key operation or login goes out.
use libre_agent.Common.{◌≡◌, ◌≢◌, ap, ◌∙◌, arith}
use libre_agent.Pkcs11.Broker.{CryptoOutcome, LoginOutcome}
use libre_agent.Wire.SyncError.{
  SyncError, sync_error_name, decode_sync_error, decode_sync_error-sync_error_name,
}

unfoldable pub crypto_error : CryptoOutcome → SyncError
crypto_error CryptoOutcome.cancelled = SyncError.cancelled
crypto_error CryptoOutcome.key_not_found = SyncError.key_not_found
crypto_error CryptoOutcome.auth_failed = SyncError.auth_failed
crypto_error CryptoOutcome.not_supported = SyncError.not_supported
crypto_error CryptoOutcome.unknown_card = SyncError.unknown_card
crypto_error CryptoOutcome.user_not_logged_in = SyncError.user_not_logged_in
crypto_error CryptoOutcome.rate_limited = SyncError.rate_limited
crypto_error CryptoOutcome.invalid_input = SyncError.invalid_request
crypto_error CryptoOutcome.ok = SyncError.communication_error
crypto_error CryptoOutcome.card_error = SyncError.communication_error

unfoldable pub login_error : LoginOutcome → SyncError
login_error LoginOutcome.cancelled = SyncError.cancelled
login_error LoginOutcome.not_authorized_by_card = SyncError.auth_failed
login_error LoginOutcome.unknown_card = SyncError.unknown_card
login_error LoginOutcome.not_authorized = SyncError.not_authorized
login_error LoginOutcome.ok = SyncError.communication_error
login_error LoginOutcome.card_error = SyncError.communication_error

pub data EntryError : Type 0 where
  unknown_verb unknown_option unknown_credential invalid_combination ambiguous_credential :
      EntryError

unfoldable pub entry_error : EntryError → SyncError
entry_error EntryError.unknown_credential = SyncError.unknown_credential
entry_error _ = SyncError.invalid_request

-- What a client concludes from an error about a key operation that failed.
abbrev pub crypto_reading : SyncError → CryptoOutcome
crypto_reading SyncError.cancelled = CryptoOutcome.cancelled
crypto_reading SyncError.key_not_found = CryptoOutcome.key_not_found
crypto_reading SyncError.auth_failed = CryptoOutcome.auth_failed
crypto_reading SyncError.not_supported = CryptoOutcome.not_supported
crypto_reading SyncError.unknown_card = CryptoOutcome.unknown_card
crypto_reading SyncError.user_not_logged_in = CryptoOutcome.user_not_logged_in
crypto_reading SyncError.rate_limited = CryptoOutcome.rate_limited
crypto_reading SyncError.invalid_request = CryptoOutcome.invalid_input
crypto_reading _ = CryptoOutcome.card_error

crypto_reading-crypto_error :
    (o : CryptoOutcome) → o ≢ CryptoOutcome.ok → crypto_reading (crypto_error o) ≡ o
unfolding crypto_error
crypto_reading-crypto_error o h = ground arith

-- The name under which a failed key operation goes out tells the client which failure it was, for each of
-- the nine failures.
pub crypto_error_read :
    (o : CryptoOutcome)
    → o ≢ CryptoOutcome.ok
    → crypto_reading (decode_sync_error (sync_error_name (crypto_error o))) ≡ o
crypto_error_read o h =
    ap crypto_reading (decode_sync_error-sync_error_name (crypto_error o))
    ∙ crypto_reading-crypto_error o h
