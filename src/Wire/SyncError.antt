-- ===== src/Wire/SyncError.antt =====
-- src/wire/SyncError.cpp: the names under which a refused request goes out, and their reading.
use libre_agent.Common.{◌≡◌, ◌≢◌, refl, ◌⊎◌, inl, inr, List, [], ◌∷◌, String, if◌then◌else◌, arith}
use text.Mathlib.Text.{◌==◌ as text_eq}
use text.Mathlib.TextEquality.{eq_iff}

pub data SyncError : Type 0 where
  unknown_card key_not_found not_authorized user_not_logged_in unknown_config_key read_only_config
        invalid_config_value :
      SyncError
  unsupported_protocol auth_failed communication_error not_supported unsupported_on_this_card :
      SyncError
  unsupported_signature_parameter input_too_large rate_limited unknown_credential invalid_request :
      SyncError
  no_result master_list_replayed cancelled : SyncError

unfoldable pub sync_error_name : SyncError → String
sync_error_name unknown_card = "UnknownCard"
sync_error_name key_not_found = "KeyNotFound"
sync_error_name not_authorized = "NotAuthorized"
sync_error_name user_not_logged_in = "UserNotLoggedIn"
sync_error_name unknown_config_key = "UnknownConfigKey"
sync_error_name read_only_config = "ReadOnlyConfig"
sync_error_name invalid_config_value = "InvalidConfigValue"
sync_error_name unsupported_protocol = "UnsupportedProtocol"
sync_error_name auth_failed = "AuthFailed"
sync_error_name communication_error = "CommunicationError"
sync_error_name not_supported = "NotSupported"
sync_error_name unsupported_on_this_card = "UnsupportedOnThisCard"
sync_error_name unsupported_signature_parameter = "UnsupportedSignatureParameter"
sync_error_name input_too_large = "InputTooLarge"
sync_error_name rate_limited = "RateLimited"
sync_error_name unknown_credential = "UnknownCredential"
sync_error_name invalid_request = "InvalidRequest"
sync_error_name no_result = "NoResult"
sync_error_name master_list_replayed = "MasterListReplayed"
sync_error_name cancelled = "Cancelled"

abbrev pub all_errors : List SyncError
all_errors =
    unknown_card ∷ key_not_found ∷ not_authorized ∷ user_not_logged_in ∷ unknown_config_key
    ∷ read_only_config ∷ invalid_config_value ∷ unsupported_protocol ∷ auth_failed
    ∷ communication_error ∷ not_supported ∷ unsupported_on_this_card
    ∷ unsupported_signature_parameter ∷ input_too_large ∷ rate_limited ∷ unknown_credential
    ∷ invalid_request ∷ no_result ∷ master_list_replayed ∷ cancelled ∷ []

-- The first error in the list of that name, and otherwise the generic one.
unfoldable pub find_error : List SyncError → String → SyncError
unfolding sync_error_name
find_error [] name = communication_error
find_error (e ∷ es) name = if text_eq (sync_error_name e) name then e else find_error es name

unfoldable pub decode_sync_error : String → SyncError
unfolding find_error
decode_sync_error name = find_error all_errors name

-- The name of every error is read as that error, so no two errors have one name.
pub decode_sync_error-sync_error_name : (e : SyncError) → decode_sync_error (sync_error_name e) ≡ e
unfolding decode_sync_error
decode_sync_error-sync_error_name unknown_card = refl
decode_sync_error-sync_error_name key_not_found = refl
decode_sync_error-sync_error_name not_authorized = refl
decode_sync_error-sync_error_name user_not_logged_in = refl
decode_sync_error-sync_error_name unknown_config_key = refl
decode_sync_error-sync_error_name read_only_config = refl
decode_sync_error-sync_error_name invalid_config_value = refl
decode_sync_error-sync_error_name unsupported_protocol = refl
decode_sync_error-sync_error_name auth_failed = refl
decode_sync_error-sync_error_name communication_error = refl
decode_sync_error-sync_error_name not_supported = refl
decode_sync_error-sync_error_name unsupported_on_this_card = refl
decode_sync_error-sync_error_name unsupported_signature_parameter = refl
decode_sync_error-sync_error_name input_too_large = refl
decode_sync_error-sync_error_name rate_limited = refl
decode_sync_error-sync_error_name unknown_credential = refl
decode_sync_error-sync_error_name invalid_request = refl
decode_sync_error-sync_error_name no_result = refl
decode_sync_error-sync_error_name master_list_replayed = refl
decode_sync_error-sync_error_name cancelled = refl

find_error_named :
    (es : List SyncError) (name : String)
    → (find_error es name ≡ communication_error) ⊎ (sync_error_name (find_error es name) ≡ name)
unfolding find_error
find_error_named [] name = inl refl
find_error_named (e ∷ es) name =
    ground (arith, eq_iff (sync_error_name e) name, find_error_named es name)

-- A text that is read as another error than the generic one is the name of that error.
pub sync_error_name-decode_sync_error :
    (name : String)
    → decode_sync_error name ≢ communication_error
    → sync_error_name (decode_sync_error name) ≡ name
unfolding decode_sync_error
sync_error_name-decode_sync_error name h = elim (find_error_named all_errors name) [
  | inl e ↦ absurd (h e)
  | inr e ↦ e
]
