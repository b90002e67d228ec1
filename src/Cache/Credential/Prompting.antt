-- ===== src/Cache/Credential/Prompting.antt =====
-- When a person is asked for a secret, and what a request answers.
use libre_agent.Common.{
  ◌≡◌, ◌≢◌, refl, Bool, true, false, Option, none, some, List, String, inl, inr, arith, Bool-cases,
  Option-cases, text_key, beq_refl,
}
use libre_agent.Common.Map
use libre_agent.Cache.Credential.{
  Secret, PaceSecretKind, RefusalKind, PromptStatus, PromptResult, AttemptContext, Entries, Slot,
  can_slot, mrz_slot, get, note_nothing, note_refusal,
}
use libre_agent.Cache.Credential.Request.{
  ok, Signals, store, switched, accept, heed, answer, MrzParts, build, same_kind, silenced,
}
use libre_agent.Cache.Credential.Contents.{get-put, status_cases, same_slot}
use text.Mathlib.Text.{◌==◌ as text_eq}

same_slot_refl : (slot : Slot) → same_slot slot slot ≡ true
same_slot_refl can_slot = refl
same_slot_refl mrz_slot = refl

key_refl : (key : String) → text_eq key key ≡ true
key_refl key = beq_refl ⦃k = text_key⦄ key

module _ (parse_mrz : Secret → Option MrzParts) where
  store_ok :
      (slot : Slot) (key : String) (x : Secret) (s : Signals) (m : Entries)
      (es : List (String × Secret))
      → (store parse_mrz slot key x s m).1 ≡ ok es
      → (build parse_mrz slot x ≡ some es)
        × (get slot key (store parse_mrz slot key x s m).0 ≡ some x)
  unfolding store
  store_ok slot key x s m es h = elim (Option-cases (build parse_mrz slot x)) [
    | inl e ↦ absurd (ground arith)
    | inr (fs, e) ↦ (
      ground arith,
      ground (arith, get-put slot slot key key x m, same_slot_refl slot, key_refl key),
    )
  ]

  switched_fails :
      (slot : Slot) (k : PaceSecretKind) (wanted : Bool) (x : Secret) (s : Signals) (m : Entries)
      (es : List (String × Secret))
      → (switched slot k wanted x s m).1 ≢ ok es
  unfolding switched
  switched_fails can_slot PaceSecretKind.mrz true x s m es h = ground arith
  switched_fails can_slot k wanted x s m es h = ground arith
  switched_fails mrz_slot k wanted x s m es h = ground arith

  accept_ok :
      (slot : Slot) (key : String) (chosen : Option PaceSecretKind) (wanted : Bool) (x : Secret)
      (s : Signals) (m : Entries) (es : List (String × Secret))
      → (accept parse_mrz slot key chosen wanted x s m).1 ≡ ok es
      → (build parse_mrz slot x ≡ some es)
        × (get slot key (accept parse_mrz slot key chosen wanted x s m).0 ≡ some x)
  unfolding accept
  accept_ok slot key none wanted x s m es h = store_ok slot key x _ _ es h
  accept_ok slot key (some k) wanted x s m es h = elim (Bool-cases (same_kind slot k)) [
    | inl same ↦ ground (
      arith,
      store_ok slot key x (record s { entry_expired = false }) (note_nothing key false m) es,
    )
    | inr other ↦ absurd (
        ground (
          arith,
          switched_fails slot k wanted x (record s { entry_expired = false })
              (note_nothing key false m) es,
        ))
  ]

  -- A request answers with entries only where the dialog gave a secret that reads well in its kind; the
  -- entries are those of the secret, and the secret is in the cache from then on.
  pub answer_ok :
      (slot : Slot) (key : String) (attempts : Option AttemptContext) (wanted : Bool)
      (p : PromptResult) (s : Signals) (m : Entries) (es : List (String × Secret))
      → (answer parse_mrz slot key attempts wanted p s m).1 ≡ ok es
      → (x : Secret) × (p.status ≡ PromptStatus.ok)
        × (p.secret ≡ some x)
        × (build parse_mrz slot x ≡ some es)
        × (get slot key (answer parse_mrz slot key attempts wanted p s m).0 ≡ some x)
  unfolding answer heed silenced
  answer_ok slot key attempts wanted p s m es h = elim (status_cases p.status) [
    | inr other ↦ absurd (ground arith)
    | inl good ↦ elim (Option-cases p.secret) [
      | inl e ↦ absurd (ground arith)
      | inr (x, e) ↦ (
        x,
        good,
        e,
        (accept_ok slot key p.chosen_kind wanted x s m es (ground arith)).0,
        ground (arith, accept_ok slot key p.chosen_kind wanted x s m es),
      )
    ]
  ]

  abbrev closed : String → RefusalKind → Entries → Entries
  closed key kind m = note_refusal key kind (note_nothing key true m)
