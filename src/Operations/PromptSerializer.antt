-- ===== src/Operations/PromptSerializer.antt =====
-- src/operations/PromptSerializer.cpp: the queue for the dialogs of each card. A waiting thread is its ticket, so
-- `acquire` is three steps that each hold the mutex: it takes a ticket and queues, it then either finds
-- itself granted, or it finds itself cancelled. A step that its thread's predicate does not allow is not
-- taken, and the condition variable only decides when a thread looks at its predicate. The minting of
-- dialog names and the reader identity are left out.
pub mod Gates
pub mod Order
pub mod Pending
mod Runs
use libre_agent.Common.{
  ℕ, ◌+◌, ◌%◌, ◌^◌, Bool, true, false, not, ◌&&◌, ◌||◌, Option, none, some, List, [], ◌∷◌, ◌++◌,
  String, ◌==◌, if◌then◌else◌, text_key, nat_key,
}
use libre_agent.Common.Map
use libre_agent.Common.Map.{Map}
use text.Mathlib.Text.{◌==◌ as text_eq}

pub record Gate : Type 0 where
  pub waiters : List ℕ
  pub held : Bool

abbrev pub new_gate : Gate
new_gate = record { waiters = []; held = false }

pub record Serializer : Type 0 where
  pub next_ticket : ℕ
  pub gates : Map String Gate
  pub live_prompts : Map String String

abbrev pub empty : Serializer
empty = record { next_ticket = 0; gates = []; live_prompts = [] }

-- `m_gates[key]`.
unfoldable pub gate_of : String → Serializer → Gate
gate_of key p = elim (Map.lookup key p.gates) [ none ↦ new_gate | some g ↦ g ]

-- The first part of `acquire`: a ticket, at the end of the queue of its card.
unfoldable pub enqueue : String → Serializer → Serializer
enqueue key p =
    let g = gate_of key p in
    record p {
      next_ticket = (p.next_ticket + 1) % 2 ^ 64;
      gates = Map.insert key (record g { waiters = g.waiters ++ (p.next_ticket ∷ []) }) p.gates;
    }

unfoldable pub is_first : ℕ → List ℕ → Bool
is_first ticket [] = false
is_first ticket (t ∷ ts) = t == ticket

unfoldable pub at_head : String → ℕ → Serializer → Bool
at_head key ticket p = elim (Map.lookup key p.gates) [
  | none ↦ false
  | some g ↦ is_first ticket g.waiters
]

unfoldable pub slot_free : String → Serializer → Bool
slot_free key p = elim (Map.lookup key p.gates) [ none ↦ true | some g ↦ not g.held ]

-- The predicate of the wait.
unfoldable pub may_wake : Bool → String → ℕ → Serializer → Bool
may_wake cancelled key ticket p = cancelled || (slot_free key p && at_head key ticket p)

abbrev pub tail : List ℕ → List ℕ
tail [] = []
tail (t ∷ ts) = ts

-- The first of the ticket, which `std::find` names, goes.
unfoldable pub remove_ticket : ℕ → List ℕ → List ℕ
remove_ticket ticket [] = []
remove_ticket ticket (t ∷ ts) = if t == ticket then ts else t ∷ remove_ticket ticket ts

abbrev pub is_idle_gate : Gate → Bool
is_idle_gate g = elim g.waiters [ [] ↦ not g.held | _ ∷ _ ↦ false ]

-- A cancelled thread gives its ticket back, wherever that stands.
unfoldable pub surrender : String → ℕ → Serializer → Serializer
surrender key ticket p = elim (Map.lookup key p.gates) [
  | none ↦ p
  | some g ↦
      let left = record g { waiters = remove_ticket ticket g.waiters } in
      if is_idle_gate left
      then record p { gates = Map.erase key p.gates }
      else record p { gates = Map.insert key left p.gates }
]

-- The head of the queue takes the slot.
unfoldable pub take_slot : String → Serializer → Serializer
take_slot key p =
    let g = gate_of key p in
    record p { gates = Map.insert key (record { waiters = tail g.waiters; held = true }) p.gates }

-- The rest of `acquire` once its predicate holds, and what it returns; nothing while the thread waits.
unfoldable pub wake : Bool → String → ℕ → Serializer → Option (Serializer × Bool)
wake cancelled key ticket p =
    if not (may_wake cancelled key ticket p)
    then none
    else if cancelled
    then some (surrender key ticket p, false)
    else some (take_slot key p, true)

unfoldable pub release : String → Serializer → Serializer
release key p = elim (Map.lookup key p.gates) [
  | none ↦ p
  | some g ↦
      let free = record g { held = false } in
      if is_idle_gate free
      then record p { gates = Map.erase key p.gates }
      else record p { gates = Map.insert key free p.gates }
]

abbrev pub is_pending : Gate → Bool
is_pending g = not (is_idle_gate g)

unfoldable pub has_pending : Map String Gate → Bool
has_pending [] = false
has_pending ((k, g) ∷ gates) = is_pending g || has_pending gates

unfoldable pub has_pending_prompt : Serializer → Bool
has_pending_prompt p = has_pending p.gates

-- `registerLivePrompt`, which takes no empty name, and `forgetLivePrompt`, its guard's end.
unfoldable pub register_live_prompt : String → String → Serializer → Serializer
register_live_prompt card_key id p =
    if text_eq id "" then p else record p { live_prompts = Map.insert id card_key p.live_prompts }

unfoldable pub forget_live_prompt : String → Serializer → Serializer
forget_live_prompt id p = record p { live_prompts = Map.erase id p.live_prompts }

unfoldable pub ids_of : String → Map String String → List String
ids_of card_key [] = []
ids_of card_key ((id, key) ∷ m) =
    if text_eq key card_key then id ∷ ids_of card_key m else ids_of card_key m

unfoldable pub live_ids_for : String → Serializer → List String
live_ids_for card_key p = ids_of card_key p.live_prompts

unfoldable pub all_ids : Map String String → List String
all_ids [] = []
all_ids ((id, key) ∷ m) = id ∷ all_ids m

unfoldable pub live_ids : Serializer → List String
live_ids p = all_ids p.live_prompts
