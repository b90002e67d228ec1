-- ===== src/Operations/Operation/Watchdog.antt =====
-- The watchdog times the machine and not the holder: the invariant on its flag and its thread.
use libre_agent.Common.{◌≡◌, false, ◌⊎◌, inl, inr, arith}
use libre_agent.Operations.Operation.{
  Operation, OperationPhase, created, connecting, awaiting_consent, authenticating, reading,
  signing, timestamping, code_of, absent, free, set_phase, exchange_phase, arm_watchdog_if_needed,
  disarm_watchdog, quiesce, claim, finish_card_removed, request_cancel, judge, enter_done,
  store_mirrors, open_gate, emit_finished, mark_finished, request_shutdown_cancel, done,
}
use libre_agent.Operations.Operation.Threads.{
  Publish, judges, Watch, wakes, Serve, phase_set, ◌⟶◌, publish, watch, serve, Reachable, fresh,
  later, guard,
}

-- Unless the worker is joining, an unarmed watchdog has no thread, and one that awaits consent is not armed.
abbrev IsTimed : Operation → Type 0
IsTimed o =
    (o.worker ≡ free → o.watchdog_armed ≡ false → o.timer ≡ absent)
    × (o.state.phase ≡ awaiting_consent → o.watchdog_armed ≡ false)

module _ (o : Operation) (inv : IsTimed o) where
  set_phase-IsTimed : (p : OperationPhase) → o.worker ≡ free → IsTimed (set_phase p o)
  unfolding set_phase exchange_phase arm_watchdog_if_needed disarm_watchdog code_of
  set_phase-IsTimed created h = ground (arith, inv.0, inv.1)
  set_phase-IsTimed connecting h = ground (arith, inv.0, inv.1)
  set_phase-IsTimed awaiting_consent h = ground (arith, inv.0, inv.1)
  set_phase-IsTimed authenticating h = ground (arith, inv.0, inv.1)
  set_phase-IsTimed reading h = ground (arith, inv.0, inv.1)
  set_phase-IsTimed signing h = ground (arith, inv.0, inv.1)
  set_phase-IsTimed timestamping h = ground (arith, inv.0, inv.1)
  set_phase-IsTimed done h = ground (arith, inv.0, inv.1)

module _ {o : Operation} (inv : IsTimed o) where
  Serve-IsTimed : {p : Operation} → Serve o p → IsTimed p
  unfolding quiesce claim finish_card_removed request_cancel request_shutdown_cancel code_of
  Serve-IsTimed (phase_set ph h) = set_phase-IsTimed o inv ph h
  Serve-IsTimed s = ground (arith, inv.0, inv.1)

  Watch-IsTimed : {p : Operation} → Watch o p → IsTimed p
  unfolding claim request_cancel code_of
  Watch-IsTimed (wakes h _) = ground (arith, inv.0, inv.1)
  Watch-IsTimed s = ground (arith, guard s, inv.0, inv.1)

  Publish-IsTimed : {p : Operation} → Publish o p → IsTimed p
  unfolding set_phase exchange_phase arm_watchdog_if_needed disarm_watchdog judge enter_done
      store_mirrors open_gate emit_finished mark_finished code_of
  Publish-IsTimed (judges h) = ground (arith, inv.0, inv.1)
  Publish-IsTimed s = ground (arith, inv.0, inv.1)

  step-IsTimed : {p : Operation} → o ⟶ p → IsTimed p
  step-IsTimed (publish s) = Publish-IsTimed s
  step-IsTimed (watch s) = Watch-IsTimed s
  step-IsTimed (serve s) = Serve-IsTimed s

Reachable-IsTimed : {o : Operation} → Reachable o → IsTimed o
Reachable-IsTimed (fresh _ _ _ _) = ground arith
Reachable-IsTimed (later r s) = step-IsTimed (Reachable-IsTimed r) s

-- In every interleaving, while an operation awaits the consent of the holder and its worker is not in
-- the middle of stopping the timer, there is no timer; and when the worker is about to start one, there
-- is none that it would replace.
pub never_timed_at_consent :
    {o : Operation}
    → Reachable o
    → o.worker ≡ free
    → (o.state.phase ≡ awaiting_consent) ⊎ (o.watchdog_armed ≡ false)
    → o.timer ≡ absent
never_timed_at_consent r free_worker (inl consent) =
    (Reachable-IsTimed r).0 free_worker ((Reachable-IsTimed r).1 consent)
never_timed_at_consent r free_worker (inr unarmed) = (Reachable-IsTimed r).0 free_worker unarmed
