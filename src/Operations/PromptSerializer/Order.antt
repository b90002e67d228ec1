-- ===== src/Operations/PromptSerializer/Order.antt =====
-- The threads of the agent at the serializer: who waits, who prompts, and in which order.
use libre_agent.Common.{
  ℕ, ◌+◌, ◌≤◌, ◌≡◌, refl, ◌∙◌, ◌↔◌, Bool, true, false, ◌&&◌, ◌||◌, none, some, List, [], ◌∷◌, ◌++◌,
  String, ◌==◌, inl, inr, arith, if◌then◌else◌, Bool-cases, text_key, length, append-nil,
}
use libre_agent.Common.Map
use libre_agent.Operations.PromptSerializer.{
  Serializer, empty, gate_of, enqueue, is_first, may_wake, remove_ticket, surrender, take_slot,
  wake, release,
}
use text.Mathlib.Text.{◌==◌ as text_eq}
use text.Mathlib.TextEquality.{eq_iff}
use libre_agent.Operations.PromptSerializer.Gates.{
  gate_of-enqueue, gate_of-take_slot, gate_of-surrender, gate_of-release, may_wake-gate,
  first_removed, no_tickets, first_inv,
}

-- The serializer with the threads that wait in `acquire`, in the order of their arrival, and those that hold
-- the slot of their card; each is its card and its ticket.
pub record System : Type 0 where
  pub serializer : Serializer
  pub waiting : List (String × ℕ)
  pub prompting : List (String × ℕ)

abbrev pub tickets : String → List (String × ℕ) → List ℕ
tickets key [] = []
tickets key ((k, t) ∷ threads) =
    if text_eq k key then t ∷ tickets key threads else tickets key threads

abbrev pub is_among : String → ℕ → List (String × ℕ) → Bool
is_among key t [] = false
is_among key t ((k, u) ∷ threads) = text_eq k key && u == t || is_among key t threads

abbrev pub leave : String → ℕ → List (String × ℕ) → List (String × ℕ)
leave key t [] = []
leave key t ((k, u) ∷ threads) =
    if text_eq k key && u == t then threads else (k, u) ∷ leave key t threads

-- A thread arrives, looks at its predicate, or ends its prompt, whether that returned or threw.
pub data Event : Type 0 where
  arrives : String → Event
  looks : Bool → String → ℕ → Event
  ends : String → ℕ → Event

abbrev woken : String → ℕ → System → Serializer × Bool → System
woken key t s (p, granted) = record {
  serializer = p;
  waiting = leave key t s.waiting;
  prompting = if granted then (key, t) ∷ s.prompting else s.prompting;
}

unfoldable pub step : System → Event → System
step s (arrives key) = record s {
  serializer = enqueue key s.serializer;
  waiting = s.waiting ++ ((key, s.serializer.next_ticket) ∷ []);
}
step s (looks cancelled key t) =
    if is_among key t s.waiting
    then elim (wake cancelled key t s.serializer) [ none ↦ s | some r ↦ woken key t s r ]
    else s
step s (ends key t) =
    if is_among key t s.prompting
    then record s { serializer = release key s.serializer; prompting = leave key t s.prompting }
    else s

-- The system after a history, newest event first.
unfoldable pub after : List Event → System
after [] = record { serializer = empty; waiting = []; prompting = [] }
after (event ∷ past) = step (after past) event

tickets-append :
    (key : String) (xs ys : List (String × ℕ))
    → tickets key (xs ++ ys) ≡ tickets key xs ++ tickets key ys
tickets-append key [] ys = refl
tickets-append key ((k, t) ∷ xs) ys = ground (arith, tickets-append key xs ys)

tickets-leave :
    (key c : String) (t : ℕ) (xs : List (String × ℕ))
    → tickets c (leave key t xs)
      ≡ (if text_eq key c then remove_ticket t (tickets c xs) else tickets c xs)
unfolding remove_ticket
tickets-leave key c t [] = ground arith
tickets-leave key c t ((k, u) ∷ xs) =
    ground (arith, eq_iff k key, eq_iff k c, eq_iff key c, tickets-leave key c t xs)

remove_among :
    (key : String) (t : ℕ) (xs : List (String × ℕ))
    → is_among key t xs ≡ true
    → length (tickets key xs) ≡ length (remove_ticket t (tickets key xs)) + 1
unfolding remove_ticket
remove_among key t [] h = absurd (ground arith)
remove_among key t ((k, u) ∷ xs) h = ground (arith, remove_among key t xs)

-- The serializer knows of a card's threads what there is to know: its queue is those that wait, in their
-- order, and the slot is held while one of them prompts.
pub record Agree (key : String) (s : System) : Type 0 where
  pub queue : tickets key s.waiting ≡ (gate_of key s.serializer).waiters
  pub slot : length (tickets key s.prompting) ≡ (if (gate_of key s.serializer).held then 1 else 0)

arrives-Agree : (c key : String) (s : System) → Agree c s → Agree c (step s (arrives key))
unfolding step
arrives-Agree c key s v = record {
  queue = ground (
    arith,
    v.queue,
    gate_of-enqueue key c s.serializer,
    eq_iff key c,
    tickets-append c s.waiting ((key, s.serializer.next_ticket) ∷ []),
    append-nil (tickets c s.waiting),
  );
  slot = ground (arith, v.slot, gate_of-enqueue key c s.serializer);
}

ends-Agree : (c key : String) (t : ℕ) (s : System) → Agree c s → Agree c (step s (ends key t))
unfolding step
ends-Agree c key t s v = elim (Bool-cases (is_among key t s.prompting)) [
  | inl e ↦ record {
    queue = ground (arith, v.queue, gate_of-release key c s.serializer);
    slot = ground (
      arith,
      v.slot,
      gate_of-release key c s.serializer,
      eq_iff key c,
      tickets-leave key c t s.prompting,
      remove_among key t s.prompting e,
    );
  }
  | inr e ↦ record { queue = ground (arith, v.queue); slot = ground (arith, v.slot) }
]

granted-Agree :
    (c key : String) (t : ℕ) (s : System)
    → may_wake false key t s.serializer ≡ true
    → Agree c s
    → Agree c (woken key t s (take_slot key s.serializer, true))
granted-Agree c key t s h v = record {
  queue = ground (
    arith,
    v.queue,
    eq_iff key c,
    may_wake-gate key t s.serializer,
    gate_of-take_slot key c s.serializer,
    tickets-leave key c t s.waiting,
    first_removed t (gate_of key s.serializer).waiters,
  );
  slot = ground (
    arith,
    v.slot,
    eq_iff key c,
    may_wake-gate key t s.serializer,
    gate_of-take_slot key c s.serializer,
  );
}

cancelled-Agree :
    (c key : String) (t : ℕ) (s : System)
    → Agree c s
    → Agree c (woken key t s (surrender key t s.serializer, false))
cancelled-Agree c key t s v = record {
  queue =
      ground
        (arith, v.queue, gate_of-surrender key c t s.serializer, tickets-leave key c t s.waiting);
  slot = ground (arith, v.slot, gate_of-surrender key c t s.serializer);
}

looks-Agree :
    (c key : String) (b : Bool) (t : ℕ) (s : System) → Agree c s → Agree c (step s (looks b key t))
unfolding step wake
looks-Agree c key true t s v = elim (Bool-cases (is_among key t s.waiting)) [
  | inl e ↦ rw e (unfold may_wake in cancelled-Agree c key t s v)
  | inr e ↦ rw e v
]
looks-Agree c key false t s v = elim (Bool-cases (is_among key t s.waiting)) [
  | inr e ↦ rw e v
  | inl e ↦ elim (Bool-cases (may_wake false key t s.serializer)) [
    | inl h ↦ rw e (rw h (granted-Agree c key t s h v))
    | inr h ↦ rw e (rw h v)
  ]
]

pub after-Agree : (c : String) (past : List Event) → Agree c (after past)
unfolding after
after-Agree c [] = unfold gate_of Map.lookup in record { queue = refl; slot = refl }
after-Agree c (arrives key ∷ past) = arrives-Agree c key (after past) (after-Agree c past)
after-Agree c (looks b key t ∷ past) = looks-Agree c key b t (after past) (after-Agree c past)
after-Agree c (ends key t ∷ past) = ends-Agree c key t (after past) (after-Agree c past)

-- Whatever threads arrive, look, are cancelled and end their prompts, and in whatever order: no card has
-- two prompts at a time.
pub prompting_alone :
    (key : String) (past : List Event) → length (tickets key (after past).prompting) ≤ 1
prompting_alone key past = ground (arith, (after-Agree key past).slot)

-- After every history, a thread that is not cancelled may go on exactly where its card has no prompt and
-- it is the first of those that wait for the card, in the order of their arrival; so nobody is overtaken,
-- and where some wait and none prompts, one may go on.
pub may_wake_first :
    (key : String) (t : ℕ) (past : List Event)
    → (may_wake false key t (after past).serializer ≡ true) ↔ (
        (tickets key (after past).prompting ≡ [])
        × ((rest : List ℕ) × (tickets key (after past).waiting ≡ t ∷ rest)))
may_wake_first key t past = (
  (λ h.
      let (rest, e) =
        first_inv t (gate_of key (after past).serializer).waiters
          (ground (arith, may_wake-gate key t (after past).serializer)) in
      (
        no_tickets _ (
            ground
              (arith, may_wake-gate key t (after past).serializer, (after-Agree key past).slot)),
        (rest, (after-Agree key past).queue ∙ e),
      )),
  (λ (none_prompts, (rest, e)).
      unfold is_first in
      ground (
        arith,
        may_wake-gate key t (after past).serializer,
        (after-Agree key past).slot,
        (after-Agree key past).queue,
        none_prompts,
        e,
      )),
)
