-- ===== src/Cache/Credential/Contents.antt =====
-- What each operation of the credential cache does to a secret in it.
use libre_agent.Common.{
  ◌≡◌, ◌≢◌, refl, Bool, true, false, none, some, String, ◌⊎◌, inl, inr, arith, if◌then◌else◌,
  text_key,
}
use libre_agent.Common.Map
use libre_agent.Cache.Credential.{
  Secret, RefusalKind, PromptStatus, Entries, Slot, can_slot, mrz_slot, with_secret, entry_of, put,
  get, invalidate, mark_credential_wrong, note_nothing, note_refusal, refused_once_more,
  with_nothing, without_secrets,
}
use text.Mathlib.Text.{◌==◌ as text_eq}
use text.Mathlib.TextEquality.{eq_iff}

abbrev pub same_slot : Slot → Slot → Bool
same_slot can_slot can_slot = true
same_slot mrz_slot mrz_slot = true
same_slot _ _ = false

pub status_cases : (s : PromptStatus) → (s ≡ PromptStatus.ok) ⊎ (s ≢ PromptStatus.ok)
status_cases PromptStatus.ok = inl refl
status_cases s = inr (ground arith)

pub same_slot_eq : (a b : Slot) → same_slot a b ≡ true → a ≡ b
same_slot_eq a b h = ground arith

pub get-put :
    (slot at : Slot) (key k : String) (v : Secret) (m : Entries)
    → get slot key (put at k v m) ≡ (
        if text_eq k key
        then (if same_slot at slot then some v else get slot key m)
        else get slot key m)
unfolding get put entry_of
get-put can_slot can_slot key k v m =
    ground (arith, eq_iff k key, Map.lookup-insert k key (with_secret can_slot v (entry_of k m)) m)
get-put can_slot mrz_slot key k v m =
    ground (arith, eq_iff k key, Map.lookup-insert k key (with_secret mrz_slot v (entry_of k m)) m)
get-put mrz_slot can_slot key k v m =
    ground (arith, eq_iff k key, Map.lookup-insert k key (with_secret can_slot v (entry_of k m)) m)
get-put mrz_slot mrz_slot key k v m =
    ground (arith, eq_iff k key, Map.lookup-insert k key (with_secret mrz_slot v (entry_of k m)) m)

pub get-note_refusal :
    (slot : Slot) (key k : String) (kind : RefusalKind) (m : Entries)
    → get slot key (note_refusal k kind m) ≡ get slot key m
unfolding get note_refusal entry_of
get-note_refusal can_slot key k kind m =
    ground (arith, eq_iff k key, Map.lookup-insert k key (refused_once_more kind (entry_of k m)) m)
get-note_refusal mrz_slot key k kind m =
    ground (arith, eq_iff k key, Map.lookup-insert k key (refused_once_more kind (entry_of k m)) m)

pub get-note_nothing :
    (slot : Slot) (key k : String) (b : Bool) (m : Entries)
    → get slot key (note_nothing k b m) ≡ get slot key m
unfolding get note_nothing entry_of
get-note_nothing can_slot key k false m =
    ground (arith, Map.lookup-modify k key (with_nothing false) m)
get-note_nothing mrz_slot key k false m =
    ground (arith, Map.lookup-modify k key (with_nothing false) m)
get-note_nothing can_slot key k true m =
    ground (arith, eq_iff k key, Map.lookup-insert k key (with_nothing true (entry_of k m)) m)
get-note_nothing mrz_slot key k true m =
    ground (arith, eq_iff k key, Map.lookup-insert k key (with_nothing true (entry_of k m)) m)

pub get-mark_credential_wrong :
    (slot : Slot) (key k : String) (m : Entries)
    → get slot key (mark_credential_wrong k m) ≡ (if text_eq k key then none else get slot key m)
unfolding get mark_credential_wrong entry_of
get-mark_credential_wrong can_slot key k m =
    ground (arith, Map.lookup-insert k key (without_secrets (entry_of k m)) m)
get-mark_credential_wrong mrz_slot key k m =
    ground (arith, Map.lookup-insert k key (without_secrets (entry_of k m)) m)

pub get-invalidate :
    (slot : Slot) (key k : String) (m : Entries)
    → get slot key (invalidate k m) ≡ (if text_eq k key then none else get slot key m)
unfolding get invalidate
get-invalidate slot key k m = ground (arith, Map.lookup-erase k key m)
