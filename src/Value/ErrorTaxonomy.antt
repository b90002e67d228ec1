-- ===== src/Value/ErrorTaxonomy.antt =====
-- src/value/ErrorTaxonomy.cpp: how a change of a credential finishes. The table of the channel errors is
-- left out, since those are of the middleware.
use libre_agent.Common.{◌≡◌, ◌↔◌, arith, ◌⊎◌}

pub data CredentialOutcome : Type 0 where
  unspecified ok user_cancelled missing_fields invalid_pin blocked : CredentialOutcome
  plugin_error unsupported key_activation_failed card_removed entry_expired : CredentialOutcome

pub data OperationStatus : Type 0 where
  ok cancelled error : OperationStatus

-- The codes that a credential outcome can have, with `none` for no error.
pub data ErrorCode : Type 0 where
  none card_removed credential_wrong credential_blocked communication_error parse_error : ErrorCode
  unsupported_card auth_failed prompter_error capability_missing watchdog_timeout : ErrorCode
  key_not_found key_ambiguous cert_expired_blocked chain_incomplete tsa_unreachable : ErrorCode
  signing_engine_error rate_limited engine_unavailable invalid_document entry_expired : ErrorCode

pub record CredentialFinish : Type 0 where
  pub status : OperationStatus
  pub code : ErrorCode

abbrev finish : OperationStatus → ErrorCode → CredentialFinish
finish status code = record { status = status; code = code }

unfoldable pub error_code_for : CredentialOutcome → CredentialFinish
error_code_for CredentialOutcome.ok = finish OperationStatus.ok ErrorCode.none
error_code_for user_cancelled = finish cancelled ErrorCode.none
error_code_for unspecified = finish error communication_error
error_code_for missing_fields = finish error prompter_error
error_code_for invalid_pin = finish error credential_wrong
error_code_for blocked = finish error credential_blocked
error_code_for plugin_error = finish error communication_error
error_code_for unsupported = finish error capability_missing
error_code_for key_activation_failed = finish error communication_error
error_code_for CredentialOutcome.card_removed = finish error ErrorCode.card_removed
error_code_for CredentialOutcome.entry_expired = finish error ErrorCode.entry_expired

-- What a finish promises: success and cancellation come of that outcome alone and carry no code, every
-- other outcome is an error with a code, and the codes on which a client asks for the PIN again, or
-- gives it up, come of a wrong or a blocked PIN alone.
pub record Sound (outcome : CredentialOutcome) (f : CredentialFinish) : Type 0 where
  pub succeeds : (f.status ≡ OperationStatus.ok) ↔ (outcome ≡ CredentialOutcome.ok)
  pub cancels : (f.status ≡ cancelled) ↔ (outcome ≡ user_cancelled)
  pub coded : (f.code ≡ ErrorCode.none) ↔ ((f.status ≡ OperationStatus.ok) ⊎ (f.status ≡ cancelled))
  pub wrong : (f.code ≡ credential_wrong) ↔ (outcome ≡ invalid_pin)
  pub blocks : (f.code ≡ credential_blocked) ↔ (outcome ≡ blocked)
  pub expires : (f.code ≡ ErrorCode.entry_expired) ↔ (outcome ≡ CredentialOutcome.entry_expired)

-- Every credential outcome finishes soundly: success and cancellation come of that outcome alone and
-- carry no code, every other outcome is an error with a code, and a wrong, a blocked and an expired
-- entry each have a code that no other outcome has.
pub error_code_for-Sound : (outcome : CredentialOutcome) → Sound outcome (error_code_for outcome)
unfolding error_code_for
error_code_for-Sound outcome = record {
  succeeds = ground arith;
  cancels = ground arith;
  coded = ground arith;
  wrong = ground arith;
  blocks = ground arith;
  expires = ground arith;
}
