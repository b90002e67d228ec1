-- ===== src/Operations/Operation/Terminal.antt =====
-- What `finish` publishes: once, the same in its signal and in its properties, and for good.
use libre_agent.Common.{
  ◌≡◌, refl, true, false, not, Bool, ◌&&◌, ◌⊎◌, inl, inr, arith, Option, none, some, [], ◌∷◌,
  Bool-cases,
}
use libre_agent.Operations.Operation.{
  Operation, Verdict, Publication, stored, gated, emitted, closed, shutdown_requested,
}
use libre_agent.Operations.Operation.Threads.{
  ◌⟶*◌, stay, more, Reachable, fresh, later, Reachable-run,
}
use libre_agent.Operations.Operation.Outcome.{
  told, Outcome, outcome, ◌↝◌, same, fires, shuts, tells, skips, ends, premise, outcome-refines,
}

-- The points of the publication: the properties stored, the gate open, the signal past, the end.
abbrev stored_verdict : Publication → Option Verdict
stored_verdict (stored v) = some v
stored_verdict (gated v) = some v
stored_verdict _ = none

abbrev pub gate_is_open : Publication → Bool
gate_is_open (gated _) = true
gate_is_open emitted = true
gate_is_open closed = true
gate_is_open _ = false

abbrev signal_is_past : Publication → Bool
signal_is_past emitted = true
signal_is_past closed = true
signal_is_past _ = false

abbrev is_closed : Publication → Bool
is_closed closed = true
is_closed _ = false

-- The channel was told one verdict, the one of the properties.
abbrev Tells : Outcome → Verdict → Type 0
Tells c v = (c.told_so_far ≡ v ∷ []) × (c.status ≡ v.status) × (c.code ≡ v.code)

pub record IsSound (c : Outcome) : Type 0 where
  pub gate : c.completed ≡ gate_is_open c.publication
  pub over : c.finished ≡ is_closed c.publication
  kept :
      (v : Verdict)
      → stored_verdict c.publication ≡ some v
      → (c.status ≡ v.status) × (c.code ≡ v.code)
  unsaid : signal_is_past c.publication ≡ false → c.told_so_far ≡ []
  said :
      signal_is_past c.publication ≡ true
      → ((v : Verdict) × Tells c v)
        ⊎ ((c.told_so_far ≡ []) × ((c.has_channel && not c.shutting) ≡ false))

module _ {c : Outcome} (inv : IsSound c) where
  open inv use {gate, over, kept, unsaid, said}

  step-gate : {d : Outcome} → c ↝ d → d.completed ≡ gate_is_open d.publication
  step-gate same = gate
  step-gate s = ground (arith, gate, premise s)

  step-over : {d : Outcome} → c ↝ d → d.finished ≡ is_closed d.publication
  step-over same = over
  step-over s = ground (arith, over, premise s)

  step-kept :
      {d : Outcome}
      → c ↝ d
      → (v : Verdict) → stored_verdict d.publication ≡ some v
      → (d.status ≡ v.status) × (d.code ≡ v.code)
  step-kept same v e = kept v e
  step-kept s v e = ground (arith, kept v, premise s)

  step-unsaid : {d : Outcome} → c ↝ d → signal_is_past d.publication ≡ false → d.told_so_far ≡ []
  step-unsaid same e = unsaid e
  step-unsaid s e = ground (arith, unsaid, premise s)

  step-said :
      {d : Outcome}
      → c ↝ d
      → signal_is_past d.publication ≡ true
      → ((v : Verdict) × Tells d v)
        ⊎ ((d.told_so_far ≡ []) × ((d.has_channel && not d.shutting) ≡ false))
  step-said same e = said e
  step-said fires e = said e
  step-said shuts e = elim (said e) [ inl t ↦ inl t | inr (t, _) ↦ inr (t, ground arith) ]
  step-said (tells {v} h _) e = inl (v, ground (arith, unsaid, kept v))
  step-said (skips h k) e = inr (ground (arith, unsaid))
  step-said (ends h) e = said (ground arith)
  step-said s e = absurd (ground arith)

  Step-IsSound : {d : Outcome} → c ↝ d → IsSound d
  Step-IsSound s = record {
    gate = step-gate s;
    over = step-over s;
    kept = step-kept s;
    unsaid = step-unsaid s;
    said = step-said s;
  }

pub Reachable-IsSound : {o : Operation} → Reachable o → IsSound (outcome o)
unfolding outcome
Reachable-IsSound (fresh _ _ _ _) = record {
  gate = refl;
  over = refl;
  kept = λ v e. ground arith;
  unsaid = λ e. refl;
  said = λ e. ground arith;
}
Reachable-IsSound (later r s) = Step-IsSound (Reachable-IsSound r) (outcome-refines s)

-- In every interleaving of the worker, the watchdog and the threads that cancel: the channel is told of
-- the end at most once, and then the properties are complete and say the same; and it is told by the time that the
-- operation counts as finished, where there is a channel and no shutdown.
pub told_once :
    {o : Operation}
    → Reachable o
    → ((told o.signals ≡ [])
        × ((o.finished && (o.has_channel && not (shutdown_requested o))) ≡ false))
      ⊎ ((v : Verdict) × (told o.signals ≡ v ∷ [])
          × (o.state.completed ≡ true)
          × (o.state.terminal_status ≡ v.status)
          × (o.state.terminal_error_code ≡ v.code))
unfolding outcome
told_once {o} r = elim (Bool-cases (signal_is_past o.publication)) [
  | inl past ↦ elim (said past) [
    | inl (v, (t, st, cd)) ↦ inr (v, t, ground (arith, gate), st, cd)
    | inr e ↦ inl (ground arith)
  ]
  | inr e ↦ inl (ground (arith, unsaid, over))
]
  where
    open (Reachable-IsSound r) use {gate, over, unsaid, said}

-- The terminal properties of two outcomes are the same, and complete.
abbrev Settled : Outcome → Outcome → Type 0
Settled c d = (d.completed ≡ true) × (d.status ≡ c.status) × (d.code ≡ c.code)

Step-Settled : {c d : Outcome} → IsSound c → c ↝ d → c.completed ≡ true → Settled c d
Step-Settled inv same h = ground arith
Step-Settled inv s h = ground (arith, premise s, inv.gate)

run-Settled :
    {o p : Operation}
    → Reachable o
    → o.state.completed ≡ true
    → o ⟶* p
    → Settled (outcome o) (outcome p)
unfolding outcome
run-Settled r h stay = ground arith
run-Settled {o} r h (more {p} {q} run s) = ground (
  arith,
  run-Settled r h run,
  Step-Settled {c = outcome p} {d = outcome q} (Reachable-IsSound (Reachable-run r run))
      (outcome-refines s),
)

-- Once an operation is complete it stays so, with the status and the error code that it has, whatever
-- any thread does afterwards.
pub completed_for_good :
    {o p : Operation}
    → Reachable o
    → o.state.completed ≡ true
    → o ⟶* p
    → (p.state.completed ≡ true)
      × (p.state.terminal_status ≡ o.state.terminal_status)
      × (p.state.terminal_error_code ≡ o.state.terminal_error_code)
unfolding outcome
completed_for_good r h run = run-Settled r h run
