-- ===== src/Operations/Operation/Outcome.antt =====
-- The outcome of an operation, in its signal and its properties, and the simple machine that it is.
use libre_agent.Common.{
  ◌≡◌, true, false, not, Bool, ◌&&◌, inl, inr, arith, Bool-cases, if◌then◌else◌, List, [], ◌∷◌, sym,
  subst, ap, ◌∙◌,
}
use libre_agent.Value.ErrorTaxonomy.{OperationStatus, ErrorCode}
use libre_agent.Operations.Operation.{
  Operation, OperationPhase, created, connecting, awaiting_consent, authenticating, reading,
  signing, timestamping, done, code_of, Verdict, timeout_verdict, removed_verdict, Signal,
  properties_changed, reported, dismissed, Publication, unclaimed, claimed, judged, phased, stored,
  gated, emitted, closed, set_phase, exchange_phase, arm_watchdog_if_needed, disarm_watchdog,
  quiesce, claim, finish_card_removed, request_cancel, judge, enter_done, store_mirrors, open_gate,
  emit_finished, mark_finished, request_shutdown_cancel, shutdown_requested,
}
use libre_agent.Operations.Operation.Threads.{
  Publish, judges, enters, stores, opens, emits, marks, Watch, wakes, expires, latches, trips,
  reports, returns, Serve, phase_set, finishes, quiesces, joins, cancels, removes, shuts_down, ◌⟶◌,
  publish, watch, serve,
}

-- The verdicts that the channel was given, newest first.
abbrev pub told : List Signal → List Verdict
told [] = []
told (reported v ∷ past) = v ∷ told past
told (properties_changed p ∷ past) = told past
told (dismissed ∷ past) = told past

pub record Outcome : Type 0 where
  pub told_so_far : List Verdict
  pub publication : Publication
  pub completed : Bool
  pub status : OperationStatus
  pub code : ErrorCode
  pub finished : Bool
  pub has_channel : Bool
  pub fired : Bool
  pub shutting : Bool

unfoldable pub outcome : Operation → Outcome
outcome o = record {
  told_so_far = told o.signals;
  publication = o.publication;
  completed = o.state.completed;
  status = o.state.terminal_status;
  code = o.state.terminal_error_code;
  finished = o.finished;
  has_channel = o.has_channel;
  fired = o.watchdog_fired;
  shutting = shutdown_requested o;
}

pub outcome-set_phase : (p : OperationPhase) (o : Operation) → outcome (set_phase p o) ≡ outcome o
unfolding outcome shutdown_requested set_phase exchange_phase arm_watchdog_if_needed disarm_watchdog
    code_of
outcome-set_phase created o = ground arith
outcome-set_phase connecting o = ground arith
outcome-set_phase awaiting_consent o = ground arith
outcome-set_phase authenticating o = ground arith
outcome-set_phase reading o = ground arith
outcome-set_phase signing o = ground arith
outcome-set_phase timestamping o = ground arith
outcome-set_phase done o = ground arith

outcome-quiesce : (o : Operation) → outcome (quiesce o) ≡ outcome o
unfolding outcome shutdown_requested quiesce
outcome-quiesce o = ground arith

outcome-emitted :
    (v : Verdict) (o : Operation)
    → (o.has_channel && not (shutdown_requested o)) ≡ true
    → record (outcome o) { publication = emitted; told_so_far = v ∷ told o.signals }
      ≡ outcome (emit_finished v o)
unfolding outcome shutdown_requested emit_finished
outcome-emitted v o h = ground arith

outcome-elided :
    (v : Verdict) (o : Operation)
    → (o.has_channel && not (shutdown_requested o)) ≡ false
    → record (outcome o) { publication = emitted } ≡ outcome (emit_finished v o)
unfolding outcome shutdown_requested emit_finished
outcome-elided v o h = ground arith

abbrev is_unclaimed : Publication → Bool
is_unclaimed unclaimed = true
is_unclaimed _ = false

outcome-request_cancel : (o : Operation) → outcome (request_cancel o) ≡ outcome o
unfolding outcome shutdown_requested request_cancel
outcome-request_cancel o = ground arith

-- The outcome as a machine of its own: the publishing call goes through its parts in order, and the
-- rest of the program only claims it, fires the watchdog or shuts the agent down.
infix 4 ◌↝◌
pub data ◌↝◌ (c : Outcome) : Outcome → Type 0 where
  same : c ↝ c
  claims : (v : Verdict) → c.publication ≡ unclaimed → c ↝ record c { publication = claimed v }
  fires : c ↝ record c { fired = true }
  shuts : c ↝ record c { shutting = true }
  rules :
      {v : Verdict}
      → c.publication ≡ claimed v
      → c ↝ record c { publication = judged (if c.fired then timeout_verdict else v) }
  enters_done : {v : Verdict} → c.publication ≡ judged v → c ↝ record c { publication = phased v }
  mirrors :
      {v : Verdict}
      → c.publication ≡ phased v
      → c ↝ record c { publication = stored v; status = v.status; code = v.code }
  completes :
      {v : Verdict}
      → c.publication ≡ stored v
      → c ↝ record c { publication = gated v; completed = true }
  tells :
      {v : Verdict}
      → c.publication ≡ gated v
      → (c.has_channel && not c.shutting) ≡ true
      → c ↝ record c { publication = emitted; told_so_far = v ∷ c.told_so_far }
  skips :
      {v : Verdict}
      → c.publication ≡ gated v
      → (c.has_channel && not c.shutting) ≡ false
      → c ↝ record c { publication = emitted }
  ends : c.publication ≡ emitted → c ↝ record c { publication = closed; finished = true }

-- The premise of a step, for the proofs that take many steps in one clause.
abbrev pub Premise : {c d : Outcome} → c ↝ d → Type 0
Premise {c} (claims _ _) = c.publication ≡ unclaimed
Premise {c} (rules {v} _) = c.publication ≡ claimed v
Premise {c} (enters_done {v} _) = c.publication ≡ judged v
Premise {c} (mirrors {v} _) = c.publication ≡ phased v
Premise {c} (completes {v} _) = c.publication ≡ stored v
Premise {c} (tells {v} _ _) = c.publication ≡ gated v
Premise {c} (skips {v} _ _) =
    (c.publication ≡ gated v) × ((c.has_channel && not c.shutting) ≡ false)
Premise {c} (ends _) = c.publication ≡ emitted
Premise _ = Unit

pub premise : {c d : Outcome} (s : c ↝ d) → Premise s
premise (claims _ h) = h
premise (rules h) = h
premise (enters_done h) = h
premise (mirrors h) = h
premise (completes h) = h
premise (tells h _) = h
premise (skips h k) = (h, k)
premise (ends h) = h
premise _ = tt

stays : (c d : Outcome) → d ≡ c → c ↝ d
stays c d e = subst (λ x. c ↝ x) (sym e) same

outcome-claim_first :
    (v : Verdict) (o : Operation)
    → o.publication ≡ unclaimed
    → outcome (claim v o) ≡ record (outcome o) { publication = claimed v }
unfolding outcome shutdown_requested claim
outcome-claim_first v o h = ground arith

outcome-claim_late :
    (v : Verdict) (o : Operation)
    → (is_unclaimed o.publication ≡ false)
    → outcome (claim v o) ≡ outcome o
unfolding outcome shutdown_requested claim
outcome-claim_late v o h = ground arith

claim-Step : (v : Verdict) (o : Operation) → outcome o ↝ outcome (claim v o)
unfolding outcome
claim-Step v o = elim (Bool-cases (is_unclaimed o.publication)) [
  | inl e ↦
      subst (λ c. outcome o ↝ c) (sym (outcome-claim_first v o (ground arith)))
        (claims v (ground arith))
  | inr e ↦ stays _ _ (outcome-claim_late v o e)
]

finish_card_removed-Step : (o : Operation) → outcome o ↝ outcome (finish_card_removed o)
unfolding finish_card_removed
finish_card_removed-Step o =
    subst (λ c. c ↝ outcome (finish_card_removed o)) (outcome-request_cancel o)
      (claim-Step removed_verdict (request_cancel o))

module _ {o : Operation} where
  Watch-Step : {p : Operation} → Watch o p → outcome o ↝ outcome p
  unfolding outcome shutdown_requested
  Watch-Step (latches _) = fires
  Watch-Step (trips _) = stays _ _ (outcome-request_cancel o)
  Watch-Step (reports _) = claim-Step timeout_verdict o
  Watch-Step (wakes _ _) = same
  Watch-Step (expires _ _) = same
  Watch-Step (returns _ _) = same

  Serve-Step : {p : Operation} → Serve o p → outcome o ↝ outcome p
  unfolding outcome shutdown_requested request_shutdown_cancel
  Serve-Step (phase_set p _) = stays _ _ (outcome-set_phase p o)
  Serve-Step (finishes v _) = claim-Step v o
  Serve-Step (quiesces _) = stays _ _ (outcome-quiesce o)
  Serve-Step (joins _ _) = same
  Serve-Step cancels = stays _ _ (outcome-request_cancel o)
  Serve-Step removes = finish_card_removed-Step o
  Serve-Step (shuts_down _) = shuts

  Publish-Step : {p : Operation} → Publish o p → outcome o ↝ outcome p
  unfolding outcome shutdown_requested judge store_mirrors open_gate mark_finished enter_done
      set_phase
  Publish-Step (judges h) = rules h
  Publish-Step (enters {v} h) =
      subst (λ c. c ↝ record (outcome (set_phase done o)) { publication = phased v })
        (outcome-set_phase done o)
        (enters_done (ap (λ c. c.publication) (outcome-set_phase done o) ∙ h))
  Publish-Step (stores h) = mirrors h
  Publish-Step (opens h) = completes h
  Publish-Step (emits {v} h) = elim (Bool-cases (o.has_channel && not (shutdown_requested o))) [
    | inl e ↦ subst (λ c. outcome o ↝ c) (outcome-emitted v o e) (tells h e)
    | inr e ↦ subst (λ c. outcome o ↝ c) (outcome-elided v o e) (skips h e)
  ]
  Publish-Step (marks h) = ends h

-- Every step of every thread is a step of the machine of outcomes.
pub outcome-refines : {o p : Operation} → o ⟶ p → outcome o ↝ outcome p
outcome-refines (publish s) = Publish-Step s
outcome-refines (watch s) = Watch-Step s
outcome-refines (serve s) = Serve-Step s
