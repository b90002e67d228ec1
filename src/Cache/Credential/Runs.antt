-- ===== src/Cache/Credential/Runs.antt =====
-- The credential cache at concrete requests.
use libre_agent.Common.{◌≡◌, refl, false, Option, none, some, List, [], ◌∷◌, text_key}
use libre_agent.Common.Map
use libre_agent.Common.Trace.{Since}
use libre_agent.Cache.Credential.{
  Secret, PromptStatus, PromptResult, PromptOptions, AttemptContext, can_slot, get, put,
  still_wanted_for, apply_retry_context, refusal_generation_for, note_nothing, note_refusal,
  entry_of,
}
use libre_agent.Cache.Credential.Request.{
  ok, Signals, ask, prompts, answer, heed, accept, store, MrzParts, build, capped,
}
use libre_agent.Cache.Credential.History.{
  Event, answered, after, step, Supplies, evicts, get_supplied,
}

-- A reader of payloads that takes the whole for the document number.
abbrev whole : Secret → Option MrzParts
whole v =
    some (record { mrz_info = v; document_number = v; date_of_birth = []; date_of_expiry = [] })

abbrev quiet : Signals
quiet = record {
  prompter_failed = false;
  user_cancelled = false;
  entry_expired = false;
  helper_too_old = false;
  mrz_choice = none;
}

abbrev typed_can : Secret
typed_can = 49 ∷ 50 ∷ 51 ∷ []

abbrev typed : PromptResult
typed = record { status = PromptStatus.ok; secret = some typed_can; chosen_kind = none }

abbrev dismissed : PromptResult
dismissed = record { status = PromptStatus.cancelled; secret = none; chosen_kind = none }

abbrev first_try : AttemptContext
first_try = record { attempts = 1; last_error_key = "wrong"; generation_at_dispatch = 0 }

abbrev cold : PromptOptions
cold = record { attempt = 0; last_error = "" }

abbrev retry : PromptOptions
retry = record { attempt = 2; last_error = "wrong" }

-- A card whose CAN was typed, after another card's window was dismissed.
abbrev past : List Event
past =
    answered can_slot "card-1" none false typed quiet
    ∷ answered can_slot "card-2" (some first_try) false dismissed quiet
    ∷ []

past_cached : get can_slot "card-1" (after whole past) ≡ some typed_can
unfolding get after step answer heed accept store put note_nothing note_refusal entry_of
    still_wanted_for build Map.running refusal_generation_for
past_cached = refl

get_supplied_example :
    Since (Supplies whole can_slot "card-1" typed_can) (evicts whole "card-1") past
get_supplied_example = get_supplied whole can_slot "card-1" typed_can past past_cached

asked_again : (ask whole can_slot "card-1" (some first_try) cold quiet []).1 ≡ prompts retry
unfolding ask get still_wanted_for refusal_generation_for capped apply_retry_context Map.running
asked_again = refl

typed_accepted :
    (answer whole can_slot "card-1" none false typed quiet []).1 ≡ ok (("can", typed_can) ∷ [])
unfolding answer heed accept store build
typed_accepted = refl
