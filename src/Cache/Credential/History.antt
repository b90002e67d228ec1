-- ===== src/Cache/Credential/History.antt =====
-- What the cache holds, over whole histories of requests, answers, deposits and evictions.
use libre_agent.Common.{
  ◌≡◌, not, ◌&&◌, refl, sym, ap, ◌∙◌, Bool, true, false, Option, none, some, List, [], ◌∷◌, String,
  ◌⊎◌, inl, inr, arith, Bool-cases, Option-cases, text_key,
}
use libre_agent.Common.Map
use libre_agent.Common.Trace.{Since}
use libre_agent.Cache.Credential.{
  Secret, PaceSecretKind, RefusalKind, PromptStatus, PromptResult, PromptOptions, AttemptContext,
  Entries, Slot, can_slot, mrz_slot, put, get, invalidate, mark_credential_wrong, note_nothing,
  note_refusal, still_wanted_for,
}
use libre_agent.Cache.Credential.Request.{
  Signals, ask, store, switched, accept, heed, answer, MrzParts, build, same_kind, yields_nothing,
}
use text.Mathlib.Text.{◌==◌ as text_eq}
use text.Mathlib.TextEquality.{eq_iff}
use libre_agent.Cache.Credential.Contents.{
  same_slot, status_cases, same_slot_eq, get-put, get-note_refusal, get-note_nothing,
  get-mark_credential_wrong, get-invalidate,
}

-- What reaches the cache, one step each.
pub data Event : Type 0 where
  asked : Slot → String → Option AttemptContext → PromptOptions → Signals → Event
  answered : Slot → String → Option AttemptContext → Bool → PromptResult → Signals → Event
  deposited : Slot → String → Secret → Event
  rejected invalidated : String → Event
  cleared : Event
  noted : String → RefusalKind → Event

module _ (parse_mrz : Secret → Option MrzParts) where
  unfoldable pub step : Entries → Event → Entries
  step m (asked slot key attempts o s) = (ask parse_mrz slot key attempts o s m).0
  step m (answered slot key attempts wanted p s) =
      (answer parse_mrz slot key attempts wanted p s m).0
  step m (deposited slot key v) = put slot key v m
  step m (rejected key) = mark_credential_wrong key m
  step m (invalidated key) = invalidate key m
  step m cleared = []
  step m (noted key kind) = note_refusal key kind m

  -- The cache after a history, newest event first.
  unfoldable pub after : List Event → Entries
  after [] = []
  after (event ∷ past) = step (after past) event

  -- The event gives this secret to the slot: it was typed into a dialog for that slot and reads well, or
  -- an operation deposited it.
  abbrev pub Supplies : Slot → String → Secret → Event → Type 0
  Supplies slot key v (answered at k attempts wanted p s) =
      (at ≡ slot)
      × (k ≡ key)
      × (p.status ≡ PromptStatus.ok)
      × (p.secret ≡ some v)
      × ((es : List (String × Secret)) × (build parse_mrz slot v ≡ some es))
  Supplies slot key v event = event ≡ deposited slot key v

  abbrev pub evicts : String → Event → Bool
  evicts key (rejected k) = text_eq k key
  evicts key (invalidated k) = text_eq k key
  evicts key cleared = true
  evicts key _ = false

  -- A refused value may be evicted by a request too, so a request is no supply either way.
  ask_kept :
      (slot at : Slot) (key k : String) (attempts : Option AttemptContext) (o : PromptOptions)
      (s : Signals) (m : Entries) (v : Secret)
      → get slot key (ask parse_mrz at k attempts o s m).0 ≡ some v
      → get slot key m ≡ some v
  unfolding ask
  ask_kept slot at key k attempts o s m v h = elim (Option-cases (get at k m)) [
    | inl e ↦ ground arith
    | inr (c, e) ↦ elim (Option-cases (build parse_mrz at c)) [
      | inl f ↦ ground (arith, get-invalidate slot key k m)
      | inr (es, f) ↦ ground arith
    ]
  ]

  abbrev Typed : Slot → Slot → String → String → Secret → Secret → Type 0
  Typed slot at key k x v =
      (at ≡ slot)
      × (k ≡ key)
      × (x ≡ v)
      × ((es : List (String × Secret)) × (build parse_mrz slot v ≡ some es))

  put_kept :
      (slot at : Slot) (key k : String) (x : Secret) (m : Entries) (v : Secret)
      → get slot key (put at k x m) ≡ some v
      → ((at ≡ slot) × (k ≡ key) × (x ≡ v)) ⊎ (get slot key m ≡ some v)
  put_kept slot at key k x m v h = elim (Bool-cases (text_eq k key)) [
    | inl e ↦ elim (Bool-cases (same_slot at slot)) [
      | inl f ↦
          inl
            (same_slot_eq at slot f, (eq_iff k key).0 e, ground (arith, get-put slot at key k x m))
      | inr f ↦ inr (ground (arith, get-put slot at key k x m))
    ]
    | inr e ↦ inr (ground (arith, get-put slot at key k x m))
  ]

  builds :
      {slot at : Slot} {x v : Secret} {es : List (String × Secret)}
      → at ≡ slot
      → x ≡ v
      → build parse_mrz at x ≡ some es
      → build parse_mrz slot v ≡ some es
  builds a c e = cc

  store_kept :
      (slot at : Slot) (key k : String) (x : Secret) (s : Signals) (m : Entries) (v : Secret)
      → get slot key (store parse_mrz at k x s m).0 ≡ some v
      → Typed slot at key k x v ⊎ (get slot key m ≡ some v)
  unfolding store
  store_kept slot at key k x s m v h = elim (Option-cases (build parse_mrz at x)) [
    | inl e ↦ inr (ground arith)
    | inr (es, e) ↦ elim (put_kept slot at key k x m v (ground arith)) [
      | inl (a, b, c) ↦ inl (a, b, c, (es, builds a c e))
      | inr old ↦ inr old
    ]
  ]

  switched_kept :
      (slot at : Slot) (key : String) (k : PaceSecretKind) (wanted : Bool) (x : Secret)
      (s : Signals) (m : Entries)
      → get slot key (switched at k wanted x s m).0 ≡ get slot key m
  unfolding switched
  switched_kept slot can_slot key PaceSecretKind.mrz true x s m = refl
  switched_kept slot can_slot key PaceSecretKind.mrz false x s m = refl
  switched_kept slot can_slot key k wanted x s m = refl
  switched_kept slot mrz_slot key k wanted x s m = refl

  noted_kept :
      (slot at : Slot) (key k : String) (x : Secret) (s : Signals) (m : Entries) (v : Secret)
      → get slot key (store parse_mrz at k x s (note_nothing k false m)).0 ≡ some v
      → Typed slot at key k x v ⊎ (get slot key m ≡ some v)
  noted_kept slot at key k x s m v h =
      elim (store_kept slot at key k x s (note_nothing k false m) v h) [
        | inl typed ↦ inl typed
        | inr old ↦ inr (sym (get-note_nothing slot key k false m) ∙ old)
      ]

  accept_kept :
      (slot at : Slot) (key k : String) (chosen : Option PaceSecretKind) (wanted : Bool)
      (x : Secret) (s : Signals) (m : Entries) (v : Secret)
      → get slot key (accept parse_mrz at k chosen wanted x s m).0 ≡ some v
      → Typed slot at key k x v ⊎ (get slot key m ≡ some v)
  unfolding accept
  accept_kept slot at key k none wanted x s m v h =
      noted_kept slot at key k x (record s { entry_expired = false }) m v h
  accept_kept slot at key k (some chosen) wanted x s m v h =
      elim (Bool-cases (same_kind at chosen)) [
        | inl same ↦
            noted_kept slot at key k x (record s { entry_expired = false }) m v (ground arith)
        | inr other ↦ inr (
            sym (get-note_nothing slot key k false m)
            ∙ sym (
                switched_kept slot at key chosen wanted x (record s { entry_expired = false })
                  (note_nothing k false m))
            ∙ ground arith)
      ]

  heed_kept :
      (slot at : Slot) (key k : String) (wanted : Bool) (p : PromptResult) (s : Signals)
      (m : Entries) (v : Secret)
      → get slot key (heed parse_mrz at k wanted p s m).0 ≡ some v
      → ((p.status ≡ PromptStatus.ok)
          × ((x : Secret) × (p.secret ≡ some x) × Typed slot at key k x v))
        ⊎ (get slot key m ≡ some v)
  unfolding heed
  heed_kept slot at key k wanted p s m v h = elim (status_cases p.status) [
    | inr other ↦ inr (
        ground (
          arith,
          get-note_refusal slot key k RefusalKind.cancelled (note_nothing k true m),
          get-note_refusal slot key k RefusalKind.timeout (note_nothing k true m),
          get-note_nothing slot key k true m,
        ))
    | inl good ↦ elim (Option-cases p.secret) [
      | inl e ↦ inr (ground arith)
      | inr (x, e) ↦ elim (accept_kept slot at key k p.chosen_kind wanted x s m v (ground arith)) [
        | inl typed ↦ inl (good, (x, e, typed))
        | inr old ↦ inr old
      ]
    ]
  ]

  answer_kept :
      (slot at : Slot) (key k : String) (attempts : Option AttemptContext) (wanted : Bool)
      (p : PromptResult) (s : Signals) (m : Entries) (v : Secret)
      → get slot key (answer parse_mrz at k attempts wanted p s m).0 ≡ some v
      → Supplies slot key v (answered at k attempts wanted p s) ⊎ (get slot key m ≡ some v)
  unfolding answer
  answer_kept slot at key k attempts wanted p s m v h =
      elim (Bool-cases (yields_nothing p && not (still_wanted_for k attempts m))) [
        | inl quiet ↦ inr (ground arith)
        | inr loud ↦ elim (heed_kept slot at key k wanted p s m v (ground arith)) [
          | inl (good, (x, e, (a, b, c, d))) ↦ inl (a, b, good, e ∙ ap some c, d)
          | inr old ↦ inr old
        ]
      ]

  step_kept :
      (slot : Slot) (key : String) (m : Entries) (event : Event) (v : Secret)
      → get slot key (step m event) ≡ some v
      → Supplies slot key v event ⊎ ((evicts key event ≡ false) × (get slot key m ≡ some v))
  unfolding step
  step_kept slot key m (asked at k attempts o s) v h =
      inr (refl, ask_kept slot at key k attempts o s m v h)
  step_kept slot key m (answered at k attempts wanted p s) v h =
      elim (answer_kept slot at key k attempts wanted p s m v h) [
        | inl typed ↦ inl typed
        | inr old ↦ inr (refl, old)
      ]
  step_kept slot key m (deposited at k x) v h = elim (put_kept slot at key k x m v h) [
    | inl (a, b, c) ↦ inl cc
    | inr old ↦ inr (refl, old)
  ]
  step_kept slot key m (rejected k) v h =
      inr (ground (arith, get-mark_credential_wrong slot key k m))
  step_kept slot key m (invalidated k) v h = inr (ground (arith, get-invalidate slot key k m))
  step_kept slot key m cleared v h = absurd (unfold get Map.lookup in ground arith)
  step_kept slot key m (noted k kind) v h = inr (refl, sym (get-note_refusal slot key k kind m) ∙ h)

  -- A secret stands in the cache only where the history holds the answer or the deposit that gave it to that
  -- card and kind, with no rejection by the card, invalidation or clearing of that card after it. A secret
  -- that was typed reads well in its kind, so a refused, an expired or a malformed entry is never kept.
  pub get_supplied :
      (slot : Slot) (key : String) (v : Secret) (past : List Event)
      → get slot key (after past) ≡ some v
      → Since (Supplies slot key v) (evicts key) past
  unfolding after
  get_supplied slot key v [] h = absurd (unfold get Map.lookup in ground arith)
  get_supplied slot key v (event ∷ past) h = elim (step_kept slot key (after past) event v h) [
    | inl supply ↦ inl supply
    | inr (kept, old) ↦ inr (kept, get_supplied slot key v past old)
  ]
