-- ===== src/Cache/Credential/Request.antt =====
-- `requestCredential` of include/LibreSCRS/Agent/cache/CredentialCache.h: one request for a card's CAN or
-- MRZ, up to the prompt and from its answer on.
use libre_agent.Common.{
  Bool, true, false, not, ◌&&◌, Option, none, some, List, [], ◌∷◌, String, ◌==◌, leb, if◌then◌else◌,
  any_of, text_key,
}
use libre_agent.Cache.Credential.{
  AttemptContext, Entries, PaceSecretKind, PromptOptions, PromptResult, PromptStatus, RefusalKind,
  Secret, Slot, apply_retry_context, can_slot, get, invalidate, last_refusal_kind_for,
  max_pace_attempts, mrz_slot, note_nothing, note_refusal, put, still_wanted_for,
}

pub data ErrorKey : Type 0 where
  generic_comm pre_read_auth_failed : ErrorKey

pub data CredentialResult : Type 0 where
  ok : List (String × Secret) → CredentialResult
  cancelled : CredentialResult
  error : ErrorKey → CredentialResult

-- The flags and the sink that a caller passes.
pub record Signals : Type 0 where
  pub prompter_failed : Bool
  pub user_cancelled : Bool
  pub entry_expired : Bool
  pub helper_too_old : Bool
  pub mrz_choice : Option Secret

-- `silenced`: nobody is asked again, and the caller hears what the earlier window closed with.
unfoldable pub silenced : String → Entries → Signals → CredentialResult × Signals
silenced key m s = elim (last_refusal_kind_for key m) [
  | RefusalKind.cancelled ↦ (CredentialResult.cancelled, record s { user_cancelled = true })
  | RefusalKind.timeout ↦ (CredentialResult.error generic_comm, record s { entry_expired = true })
]

unfoldable pub capped : Option AttemptContext → Bool
capped none = false
capped (some a) = leb max_pace_attempts a.attempts

-- A request up to its prompt.
pub data Asked : Type 0 where
  over : CredentialResult × Signals → Asked
  prompts : PromptOptions → Asked

pub record MrzParts : Type 0 where
  pub mrz_info : Secret
  pub document_number : Secret
  pub date_of_birth : Secret
  pub date_of_expiry : Secret

abbrev pub mrz_entries : MrzParts → List (String × Secret)
mrz_entries p =
    ("mrz", p.mrz_info)
    ∷ ("documentNumber", p.document_number)
    ∷ ("dateOfBirth", p.date_of_birth)
    ∷ ("dateOfExpiry", p.date_of_expiry)
    ∷ []

-- A secret of another kind: an MRZ on a CAN request goes to the sink, if there is one.
unfoldable pub switched :
    Slot → PaceSecretKind → Bool → Secret → Signals → Entries → Entries × CredentialResult × Signals
switched can_slot PaceSecretKind.mrz true v s m =
    (m, CredentialResult.cancelled, record s { mrz_choice = some v })
switched slot chosen wanted v s m = (m, error generic_comm, record s { prompter_failed = true })

abbrev pub same_kind : Slot → PaceSecretKind → Bool
same_kind can_slot PaceSecretKind.can = true
same_kind mrz_slot PaceSecretKind.mrz = true
same_kind _ _ = false

abbrev pub yields_nothing : PromptResult → Bool
yields_nothing p = elim p.status [
  | PromptStatus.ok ↦ elim p.secret [ none ↦ true | some _ ↦ false ]
  | _ ↦ true
]

module _ (parse_mrz : Secret → Option MrzParts) where
  -- `buildCanResult`, which refuses a line break, and `buildMrzResult`.
  unfoldable pub build : Slot → Secret → Option (List (String × Secret))
  build can_slot v = if any_of (λ b. b == 10) v then none else some (("can", v) ∷ [])
  build mrz_slot v = elim (parse_mrz v) [ none ↦ none | some parts ↦ some (mrz_entries parts) ]

  unfoldable pub ask :
      Slot → String → Option AttemptContext → PromptOptions → Signals → Entries → Entries × Asked
  ask slot key attempts o s m = elim (get slot key m) [
    | some v ↦ elim (build slot v) [
      | some es ↦ (m, over (ok es, s))
      | none ↦ (invalidate key m, over (error generic_comm, s))
    ]
    | none ↦
        if not (still_wanted_for key attempts m)
        then (m, over (silenced key m s))
        else if capped attempts
        then (m, over (error pre_read_auth_failed, s))
        else (m, prompts (apply_retry_context attempts o))
  ]

  -- `cacheOrPrompt` where the secret is of the kind that was asked for.
  unfoldable pub store :
      Slot → String → Secret → Signals → Entries → Entries × CredentialResult × Signals
  store slot key v s m = elim (build slot v) [
    | none ↦ (m, error generic_comm, s)
    | some es ↦ (put slot key v m, ok es, s)
  ]

  unfoldable pub accept :
      Slot
      → String
      → Option PaceSecretKind
      → Bool
      → Secret
      → Signals
      → Entries
      → Entries × CredentialResult × Signals
  accept slot key chosen wanted v s m =
      let told = record s { entry_expired = false } in
      let noted = note_nothing key false m in
      elim chosen [
        | none ↦ store slot key v told noted
        | some k ↦
            if same_kind slot k
            then store slot key v told noted
            else switched slot k wanted v told noted
      ]

  -- The prompt's answer, where it is still wanted.
  unfoldable pub heed :
      Slot → String → Bool → PromptResult → Signals → Entries → Entries × CredentialResult × Signals
  heed slot key wanted p s m = elim p.status [
    | PromptStatus.cancelled ↦ (
      note_refusal key RefusalKind.cancelled (note_nothing key true m),
      CredentialResult.cancelled,
      record s { user_cancelled = true },
    )
    | PromptStatus.error ↦
        (m, CredentialResult.error generic_comm, record s { prompter_failed = true })
    | PromptStatus.timeout ↦ (
      note_refusal key RefusalKind.timeout (note_nothing key true m),
      CredentialResult.error generic_comm,
      record s { entry_expired = true },
    )
    | PromptStatus.helper_too_old ↦
        (m, CredentialResult.error generic_comm, record s { helper_too_old = true })
    | PromptStatus.ok ↦ elim p.secret [
      | none ↦ (m, CredentialResult.error generic_comm, s)
      | some v ↦ accept slot key p.chosen_kind wanted v s m
    ]
  ]

  -- A request from its prompt on; `wanted` tells whether the caller gave a sink for an MRZ.
  unfoldable pub answer :
      Slot
      → String
      → Option AttemptContext
      → Bool
      → PromptResult
      → Signals
      → Entries
      → Entries × CredentialResult × Signals
  answer slot key attempts wanted p s m =
      if yields_nothing p && not (still_wanted_for key attempts m)
      then (m, (silenced key m s).0, (silenced key m s).1)
      else heed slot key wanted p s m

  -- What `requestCredential` does with the kind that the card asks for.
  unfoldable pub request :
      Option PaceSecretKind
      → String
      → Option AttemptContext
      → PromptOptions
      → Signals
      → Entries
      → Entries × Asked
  request (some PaceSecretKind.can) key attempts o s m = ask can_slot key attempts o s m
  request (some PaceSecretKind.mrz) key attempts o s m = ask mrz_slot key attempts o s m
  request _ key attempts o s m = (m, over (error generic_comm, s))
