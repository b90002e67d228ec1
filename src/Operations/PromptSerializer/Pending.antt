-- ===== src/Operations/PromptSerializer/Pending.antt =====
-- What the shutdown sees: a gate is kept exactly while some thread waits or prompts at it.
use libre_agent.Common.{
  ℕ, ◌≡◌, refl, sym, ap, ◌∙◌, ◌↔◌, Bool, true, false, none, some, List, [], ◌∷◌, ◌++◌, String,
  arith, Bool-cases, Option-cases, inl, inr, text_key, beq_refl,
}
use libre_agent.Common.Map
use libre_agent.Common.Map.{Map}
use libre_agent.Common.Values.{AllValues, insert-AllValues, erase_if-AllValues}
use libre_agent.Operations.PromptSerializer.{
  Gate, new_gate, Serializer, gate_of, enqueue, remove_ticket, is_idle_gate, surrender, take_slot,
  wake, release, has_pending, has_pending_prompt, tail,
}
use libre_agent.Operations.PromptSerializer.Order.{
  System, Event, arrives, looks, ends, step, after, tickets, after-Agree,
}
use libre_agent.Operations.PromptSerializer.Gates.{no_tickets}
use text.Mathlib.Text.{◌==◌ as text_eq}

abbrev Busy : Gate → Type 0
Busy g = is_idle_gate g ≡ false

abbrev AllBusy : Serializer → Type 0
AllBusy p = AllValues Busy p.gates

queued_busy :
    (ts : List ℕ) (t : ℕ) (b : Bool)
    → is_idle_gate (record { waiters = ts ++ (t ∷ []); held = b }) ≡ false
queued_busy [] t b = refl
queued_busy (u ∷ ts) t b = refl

held_busy : (ts : List ℕ) → is_idle_gate (record { waiters = ts; held = true }) ≡ false
held_busy [] = refl
held_busy (t ∷ ts) = refl

enqueue-AllBusy : (key : String) (p : Serializer) → AllBusy p → AllBusy (enqueue key p)
unfolding enqueue
enqueue-AllBusy key p h =
    insert-AllValues Busy key _ p.gates
      (queued_busy (gate_of key p).waiters p.next_ticket (gate_of key p).held) h

take_slot-AllBusy : (key : String) (p : Serializer) → AllBusy p → AllBusy (take_slot key p)
unfolding take_slot
take_slot-AllBusy key p h =
    insert-AllValues Busy key _ p.gates (held_busy (tail (gate_of key p).waiters)) h

surrender-AllBusy :
    (key : String) (t : ℕ) (p : Serializer) → AllBusy p → AllBusy (surrender key t p)
unfolding surrender Map.erase
surrender-AllBusy key t p h = elim (Option-cases (Map.lookup key p.gates)) [
  | inl e ↦ ground (arith, h)
  | inr (g, e) ↦
      elim (Bool-cases (is_idle_gate (record g { waiters = remove_ticket t g.waiters }))) [
        | inl idle ↦ ground (arith, erase_if-AllValues Busy (λ k _. text_eq k key) p.gates h)
        | inr busy ↦ ground (
          arith,
          insert-AllValues Busy key (record g { waiters = remove_ticket t g.waiters }) p.gates busy
              h,
        )
      ]
]

release-AllBusy : (key : String) (p : Serializer) → AllBusy p → AllBusy (release key p)
unfolding release Map.erase
release-AllBusy key p h = elim (Option-cases (Map.lookup key p.gates)) [
  | inl e ↦ ground (arith, h)
  | inr (g, e) ↦ elim (Bool-cases (is_idle_gate (record g { held = false }))) [
    | inl idle ↦ ground (arith, erase_if-AllValues Busy (λ k _. text_eq k key) p.gates h)
    | inr busy ↦
        ground (arith, insert-AllValues Busy key (record g { held = false }) p.gates busy h)
  ]
]

step-AllBusy :
    (s : System) (event : Event) → AllBusy s.serializer → AllBusy (step s event).serializer
unfolding step wake
step-AllBusy s (arrives key) h = enqueue-AllBusy key s.serializer h
step-AllBusy s (looks b key t) h =
    ground (arith, surrender-AllBusy key t s.serializer h, take_slot-AllBusy key s.serializer h)
step-AllBusy s (ends key t) h = ground (arith, release-AllBusy key s.serializer h)

after-AllBusy : (past : List Event) → AllBusy (after past).serializer
unfolding after
after-AllBusy [] = tt
after-AllBusy (event ∷ past) = step-AllBusy (after past) event (after-AllBusy past)

has_pending-Busy : (m : Map String Gate) → AllValues Busy m → has_pending m ≡ false → m ≡ []
unfolding has_pending
has_pending-Busy [] h e = refl
has_pending-Busy ((k, g) ∷ m) h e = absurd (ground arith)

no_threads :
    (threads : List (String × ℕ)) → ((key : String) → tickets key threads ≡ []) → threads ≡ []
no_threads [] h = refl
no_threads ((k, t) ∷ threads) h = absurd (ground (arith, h k, beq_refl ⦃k = text_key⦄ k))

idle_gate : (g : Gate) → g.waiters ≡ [] → g.held ≡ false → is_idle_gate g ≡ true
idle_gate g w b = ground arith

-- A gate map without threads is empty.
empty_gates :
    (m : Map String Gate)
    → AllValues Busy m
    → ((key : String)
        → is_idle_gate (elim (Map.lookup key m) [ none ↦ new_gate | some g ↦ g ]) ≡ true)
    → m ≡ []
unfolding Map.lookup
empty_gates [] h idle = refl
empty_gates ((k, g) ∷ m) h idle = absurd (ground (arith, idle k, beq_refl ⦃k = text_key⦄ k))

no_pending : (m : Map String Gate) → m ≡ [] → has_pending m ≡ false
unfolding has_pending
no_pending m e = ground arith

no_waiting :
    (key : String) (past : List Event)
    → (after past).serializer.gates ≡ []
    → tickets key (after past).waiting ≡ []
no_waiting key past e = (after-Agree key past).queue ∙ unfold gate_of Map.lookup in ground arith

no_prompting :
    (key : String) (past : List Event)
    → (after past).serializer.gates ≡ []
    → tickets key (after past).prompting ≡ []
no_prompting key past e =
    no_tickets _ ((after-Agree key past).slot ∙ unfold gate_of Map.lookup in ground arith)

idle_at :
    (key : String) (past : List Event)
    → (after past).waiting ≡ []
    → (after past).prompting ≡ []
    → is_idle_gate
        (elim (Map.lookup key (after past).serializer.gates) [ none ↦ new_gate | some g ↦ g ])
      ≡ true
unfolding gate_of
idle_at key past w p =
    idle_gate (gate_of key (after past).serializer)
      (sym (after-Agree key past).queue ∙ ap (tickets key) w)
      (ground (arith, (after-Agree key past).slot))

threads_gone :
    (past : List Event)
    → (after past).serializer.gates ≡ []
    → ((after past).waiting ≡ []) × ((after past).prompting ≡ [])
threads_gone past e =
    (no_threads _ (λ key. no_waiting key past e), no_threads _ (λ key. no_prompting key past e))

gates_gone :
    (past : List Event)
    → (after past).waiting ≡ []
    → (after past).prompting ≡ []
    → (after past).serializer.gates ≡ []
gates_gone past w p = empty_gates _ (after-AllBusy past) (λ key. idle_at key past w p)

-- After every history, the shutdown is told that no prompt is pending exactly where no thread waits for a
-- prompt and none shows one, and exactly then no gate is left in the table.
pub has_pending_prompt_iff :
    (past : List Event)
    → ((has_pending_prompt (after past).serializer ≡ false)
        ↔ (((after past).waiting ≡ []) × ((after past).prompting ≡ [])))
      × (((after past).serializer.gates ≡ [])
          ↔ (((after past).waiting ≡ []) × ((after past).prompting ≡ [])))
unfolding has_pending_prompt
has_pending_prompt_iff past = (
  (
    (λ h. threads_gone past (has_pending-Busy _ (after-AllBusy past) h)),
    (λ (w, p). no_pending _ (gates_gone past w p)),
  ),
  ((λ e. threads_gone past e), (λ (w, p). gates_gone past w p)),
)
