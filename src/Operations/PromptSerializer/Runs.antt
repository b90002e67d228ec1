-- ===== src/Operations/PromptSerializer/Runs.antt =====
-- The serializer at concrete threads.
use libre_agent.Common.{ℕ, ◌≡◌, ◌≤◌, ◌↔◌, refl, true, false, List, [], ◌∷◌, length}
use libre_agent.Common.Map
use libre_agent.Operations.PromptSerializer.{
  may_wake, enqueue, gate_of, wake, surrender, take_slot, slot_free, at_head, is_first,
  remove_ticket,
}
use libre_agent.Operations.PromptSerializer.Order.{
  Event, arrives, looks, ends, step, after, tickets, prompting_alone, may_wake_first,
}

-- Three threads at one card and one at another; the first prompts, the second is cancelled.
abbrev crowd : List Event
crowd =
    looks true "card-1" 1
    ∷ looks false "card-2" 3
    ∷ looks false "card-1" 2
    ∷ looks false "card-1" 0
    ∷ arrives "card-2"
    ∷ arrives "card-1"
    ∷ arrives "card-1"
    ∷ arrives "card-1"
    ∷ []

crowd_prompting : (after crowd).prompting ≡ ("card-2", 3) ∷ ("card-1", 0) ∷ []
unfolding after step enqueue gate_of wake may_wake surrender take_slot slot_free at_head is_first
    remove_ticket Map.running
crowd_prompting = refl

crowd_waiting : (after crowd).waiting ≡ ("card-1", 2) ∷ []
unfolding after step enqueue gate_of wake may_wake surrender take_slot slot_free at_head is_first
    remove_ticket Map.running
crowd_waiting = refl

prompting_alone_example : length (tickets "card-1" (after crowd).prompting) ≤ 1
prompting_alone_example = prompting_alone "card-1" crowd

may_wake_first_example :
    (may_wake false "card-1" 2 (after (ends "card-1" 0 ∷ crowd)).serializer ≡ true) ↔ (
      (tickets "card-1" (after (ends "card-1" 0 ∷ crowd)).prompting ≡ [])
      × ((rest : List ℕ) × (tickets "card-1" (after (ends "card-1" 0 ∷ crowd)).waiting ≡ 2 ∷ rest)))
may_wake_first_example = may_wake_first "card-1" 2 (ends "card-1" 0 ∷ crowd)
