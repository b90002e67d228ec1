-- ===== src/Cache/Credential.antt =====
-- src/cache/CredentialCache.cpp: the CAN and the MRZ that a card's owner typed, kept until the card refuses
-- them, and what is remembered of the prompts that gave nothing. A secret is its bytes; of a dialog's
-- options only those are kept that a retry changes. Request follows the template `requestCredential` of
-- the header: a request is two steps, up to the prompt and from its answer on, since other operations run
-- while the dialog is up. The pointers to the caller's flags are one record of signals, which a caller that
-- passes none does not look at. The reading of an MRZ payload is a parameter of the requests
-- (include/LibreSCRS/Agent/cache/MrzPayload.h).
pub mod Request
pub mod Contents
pub mod History
pub mod Prompting
mod Runs
use libre_agent.Common.{
  ℕ, ◌+◌, ◌%◌, ◌^◌, Bool, true, false, not, ◌&&◌, Option, none, some, List, [], ◌∷◌, String, ◌==◌,
  ltb, leb, if◌then◌else◌, any_of, text_key,
}
use libre_agent.Common.Map
use libre_agent.Common.Map.{Map}

-- The bytes of a secret.
abbrev pub Secret : Type 0
Secret = List ℕ

pub data PaceSecretKind : Type 0 where
  can mrz pin puk : PaceSecretKind

pub data RefusalKind : Type 0 where
  timeout cancelled : RefusalKind

pub data PromptStatus : Type 0 where
  ok cancelled error timeout helper_too_old : PromptStatus

pub record PromptResult : Type 0 where
  pub status : PromptStatus
  pub secret : Option Secret
  pub chosen_kind : Option PaceSecretKind

-- What a retry changes in the dialog.
pub record PromptOptions : Type 0 where
  pub attempt : ℕ
  pub last_error : String

pub record AttemptContext : Type 0 where
  pub attempts : ℕ
  pub last_error_key : String
  pub generation_at_dispatch : ℕ

pub record Entry : Type 0 where
  pub can : Option Secret
  pub mrz : Option Secret
  pub last_prompt_yielded_nothing : Bool
  pub refusal_generation : ℕ
  pub refusal_kind : RefusalKind

abbrev pub new_entry : Entry
new_entry = record {
  can = none;
  mrz = none;
  last_prompt_yielded_nothing = false;
  refusal_generation = 0;
  refusal_kind = RefusalKind.timeout;
}

abbrev pub Entries : Type 0
Entries = Map String Entry

-- The two secrets of an entry, which the source tells apart by member pointers.
pub data Slot : Type 0 where
  can_slot mrz_slot : Slot

abbrev pub kind_of : Slot → PaceSecretKind
kind_of can_slot = PaceSecretKind.can
kind_of mrz_slot = PaceSecretKind.mrz

abbrev pub secret_in : Slot → Entry → Option Secret
secret_in can_slot e = e.can
secret_in mrz_slot e = e.mrz

abbrev pub with_secret : Slot → Secret → Entry → Entry
with_secret can_slot v e = record e { can = some v }
with_secret mrz_slot v e = record e { mrz = some v }

-- `m_entries[cardKey]`, which makes an entry where there is none.
unfoldable pub entry_of : String → Entries → Entry
entry_of key m = elim (Map.lookup key m) [ none ↦ new_entry | some e ↦ e ]

-- `putCan`, `putMrz`.
unfoldable pub put : Slot → String → Secret → Entries → Entries
put slot key v m = Map.insert key (with_secret slot v (entry_of key m)) m

-- `getCan`, `getMrz`.
unfoldable pub get : Slot → String → Entries → Option Secret
get slot key m = elim (Map.lookup key m) [ none ↦ none | some e ↦ secret_in slot e ]

unfoldable pub invalidate : String → Entries → Entries
invalidate key m = Map.erase key m

abbrev pub without_secrets : Entry → Entry
without_secrets e = record e { can = none; mrz = none }

unfoldable pub mark_credential_wrong : String → Entries → Entries
mark_credential_wrong key m = Map.insert key (without_secrets (entry_of key m)) m

abbrev pub with_nothing : Bool → Entry → Entry
with_nothing b e = record e { last_prompt_yielded_nothing = b }

-- `noteLastPromptYieldedNothing`: an entry is made to remember an empty prompt alone.
unfoldable pub note_nothing : String → Bool → Entries → Entries
note_nothing key false m = Map.modify key (with_nothing false) m
note_nothing key true m = Map.insert key (with_nothing true (entry_of key m)) m

abbrev pub refused_once_more : RefusalKind → Entry → Entry
refused_once_more kind e = record e {
  refusal_generation = (e.refusal_generation + 1) % 2 ^ 64;
  refusal_kind = kind;
}

unfoldable pub note_refusal : String → RefusalKind → Entries → Entries
note_refusal key kind m = Map.insert key (refused_once_more kind (entry_of key m)) m

unfoldable pub refusal_generation_for : String → Entries → ℕ
refusal_generation_for key m = elim (Map.lookup key m) [ none ↦ 0 | some e ↦ e.refusal_generation ]

unfoldable pub last_refusal_kind_for : String → Entries → RefusalKind
last_refusal_kind_for key m = elim (Map.lookup key m) [
  | none ↦ RefusalKind.timeout
  | some e ↦ e.refusal_kind
]

unfoldable pub still_wanted_for : String → Option AttemptContext → Entries → Bool
still_wanted_for key none m = true
still_wanted_for key (some a) m = leb (refusal_generation_for key m) a.generation_at_dispatch

unfoldable pub record_rejection : String → AttemptContext → AttemptContext
record_rejection msg_key a = record a {
  attempts = (a.attempts + 1) % 2 ^ 32;
  last_error_key = msg_key;
}

unfoldable pub apply_retry_context : Option AttemptContext → PromptOptions → PromptOptions
apply_retry_context none o = o
apply_retry_context (some a) o =
    if a.attempts == 0
    then o
    else record { attempt = (a.attempts + 1) % 2 ^ 32; last_error = a.last_error_key }

abbrev pub max_pace_attempts : ℕ
max_pace_attempts = 3
