-- ===== src/Operations/Operation/Runs.antt =====
-- Operations at concrete interleavings.
use libre_agent.Common.{◌≡◌, ◌⊎◌, inl, refl, true, false, not, ◌&&◌, none, [], ◌∷◌}
use libre_agent.Value.ErrorTaxonomy.{OperationStatus, watchdog_timeout, error}
use libre_agent.Value.ErrorTaxonomy
use libre_agent.Operations.Operation.{
  Operation, Verdict, reading, awaiting_consent, absent, set_phase, code_of, exchange_phase,
  arm_watchdog_if_needed, disarm_watchdog, request_cancel, claim, judge, enter_done, store_mirrors,
  open_gate, emit_finished, mark_finished, shutdown_requested, timeout_verdict, reported,
  properties_changed, expired, latched, tripped, done,
}
use libre_agent.Operations.Operation.Threads.{
  new_operation, judges, enters, stores, opens, emits, expires, latches, trips, phase_set, finishes,
  publish, watch, serve, ◌⟶*◌, stay, more, Reachable, fresh, later,
}
use libre_agent.Operations.Operation.Outcome.{told}
use libre_agent.Operations.Operation.Watchdog.{never_timed_at_consent}
use libre_agent.Operations.Operation.Terminal.{told_once}
use libre_agent.Operations.Operation.Timeout.{timeout_outranks}
use libre_agent.Operations.Operation.Progress.{◌⇢*◌, expired_finishes}

unfoldable running : Unit {0}
unfolding set_phase code_of exchange_phase arm_watchdog_if_needed disarm_watchdog request_cancel
    claim judge enter_done store_mirrors open_gate emit_finished mark_finished shutdown_requested
running = tt

abbrev start : Operation
start = new_operation true true none 60

-- A card that is read, and a worker whose read outlasts the budget of the watchdog.
abbrev read_begun : Operation
read_begun = set_phase reading start

abbrev late : Operation
late = record (set_phase reading start) { timer = expired }

late_reached : Reachable late
unfolding running
late_reached =
    later (later (fresh true true none 60) (serve (phase_set reading refl)))
      (watch (expires refl refl))

abbrev fired : Operation
fired = record late { watchdog_fired = true; timer = latched }

fired_reached : Reachable fired
fired_reached = later late_reached (watch (latches refl))

-- The worker wakes from the cancel and claims the end for itself.
abbrev user_cancel : Verdict
user_cancel = record {
  status = OperationStatus.cancelled;
  code = ErrorTaxonomy.ErrorCode.none;
  msg_key = "op.cancelled";
}

abbrev woken : Operation
woken = claim user_cancel (record (request_cancel fired) { timer = tripped })

abbrev told_of : Operation
told_of = emit_finished timeout_verdict (
    open_gate timeout_verdict
      (store_mirrors timeout_verdict (enter_done timeout_verdict (judge user_cancel woken))))

fired_to_end : fired ⟶* told_of
unfolding running
fired_to_end =
    more
      (more
        (more
          (more
            (more (more (more stay (watch (trips refl))) (serve (finishes user_cancel refl)))
              (publish (judges refl)))
            (publish (enters refl)))
          (publish (stores refl)))
        (publish (opens refl)))
      (publish (emits refl))

told_of_signals :
    told_of.signals
    ≡ reported timeout_verdict ∷ properties_changed done ∷ properties_changed reading ∷ []
unfolding running
told_of_signals = refl

timeout_outranks_example :
    (told_of.state.terminal_status ≡ error) × (told_of.state.terminal_error_code ≡ watchdog_timeout)
unfolding running
timeout_outranks_example = timeout_outranks fired_reached refl refl fired_to_end refl

told_once_example :
    ((told late.signals ≡ [])
      × ((late.finished && (late.has_channel && not (shutdown_requested late))) ≡ false))
    ⊎ ((v : Verdict) × (told late.signals ≡ v ∷ [])
        × (late.state.completed ≡ true)
        × (late.state.terminal_status ≡ v.status)
        × (late.state.terminal_error_code ≡ v.code))
told_once_example = told_once late_reached

expired_finishes_example :
    (p : Operation) × (late ⇢* p) × (p.finished ≡ true) × (p.state.completed ≡ true)
unfolding running
expired_finishes_example = expired_finishes late_reached refl

never_timed_at_consent_example : absent ≡ absent
unfolding running
never_timed_at_consent_example =
    never_timed_at_consent
      (later (fresh true true none 60) (serve (phase_set awaiting_consent refl))) refl (inl refl)
