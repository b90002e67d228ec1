-- ===== src/Operations/Operation/Threads.antt =====
-- The threads around one operation, interleaved in any order. `Publish` is the call that passed
-- `m_finishOnce`, in whichever thread it runs; `Watch` the timer; `Serve` the worker and the threads
-- that cancel. The worker waits while it joins the timer. A thread that runs `finish` also has the steps of `Serve` here,
-- which only adds interleavings.
use libre_agent.Common.{ℕ, ◌≡◌, Bool, true, false, ◌||◌, Option, some, []}
use libre_agent.Value.ErrorTaxonomy.{OperationStatus, ErrorCode}
use libre_agent.Operations.Operation.{
  Operation, OperationPhase, created, Verdict, timeout_verdict, unclaimed, claimed, judged, phased,
  stored, gated, emitted, closed, absent, waiting, expired, latched, tripped, reporting, ended,
  free, joining, request_shutdown_cancel, request_cancel, set_phase, quiesce, claim,
  finish_card_removed, judge, enter_done, store_mirrors, open_gate, emit_finished, mark_finished,
}

-- An operation as its constructor leaves it, by the choices of the launcher.
abbrev pub new_operation : Bool → Bool → Option Bool → ℕ → Operation
new_operation has_channel has_prompter_cancel shutdown_token timeout = record {
  state = record {
    phase = created;
    watchdog_timeout_sec = timeout;
    is_cancelled = false;
    completed = false;
    terminal_status = OperationStatus.ok;
    terminal_error_code = ErrorCode.none;
  };
  has_channel = has_channel;
  has_prompter_cancel = has_prompter_cancel;
  token_cancelled = false;
  shutdown_token = shutdown_token;
  finished = false;
  watchdog_fired = false;
  watchdog_armed = false;
  arm_attempts = 0;
  stop_requested = false;
  timer = absent;
  worker = free;
  publication = unclaimed;
  signals = [];
}

pub data Publish (o : Operation) : Operation → Type 0 where
  judges : {v : Verdict} → o.publication ≡ claimed v → Publish o (judge v o)
  enters : {v : Verdict} → o.publication ≡ judged v → Publish o (enter_done v o)
  stores : {v : Verdict} → o.publication ≡ phased v → Publish o (store_mirrors v o)
  opens : {v : Verdict} → o.publication ≡ stored v → Publish o (open_gate v o)
  emits : {v : Verdict} → o.publication ≡ gated v → Publish o (emit_finished v o)
  marks : o.publication ≡ emitted → Publish o (mark_finished o)

-- The body of the timer's thread and `finishWatchdogTimeout`.
pub data Watch (o : Operation) : Operation → Type 0 where
  wakes :
      o.timer ≡ waiting
      → (o.stop_requested || o.finished) ≡ true
      → Watch o (record o { timer = ended })
  expires :
      o.timer ≡ waiting
      → (o.stop_requested || o.finished) ≡ false
      → Watch o (record o { timer = expired })
  latches : o.timer ≡ expired → Watch o (record o { watchdog_fired = true; timer = latched })
  trips : o.timer ≡ latched → Watch o (record (request_cancel o) { timer = tripped })
  reports : o.timer ≡ tripped → Watch o (record (claim timeout_verdict o) { timer = reporting })
  returns : o.timer ≡ reporting → o.publication ≡ closed → Watch o (record o { timer = ended })

pub data Serve (o : Operation) : Operation → Type 0 where
  phase_set : (p : OperationPhase) → o.worker ≡ free → Serve o (set_phase p o)
  finishes : (v : Verdict) → o.worker ≡ free → Serve o (claim v o)
  quiesces : o.worker ≡ free → Serve o (quiesce o)
  joins :
      o.worker ≡ joining → o.timer ≡ ended → Serve o (record o { timer = absent; worker = free })
  cancels : Serve o (request_cancel o)
  removes : Serve o (finish_card_removed o)
  shuts_down :
      {b : Bool}
      → o.shutdown_token ≡ some b
      → Serve o (request_shutdown_cancel (record o { shutdown_token = some true }))

infix 4 ◌⟶◌
pub data ◌⟶◌ (o : Operation) : Operation → Type 0 where
  publish : {p : Operation} → Publish o p → o ⟶ p
  watch : {p : Operation} → Watch o p → o ⟶ p
  serve : {p : Operation} → Serve o p → o ⟶ p

infix 4 ◌⟶*◌
pub data ◌⟶*◌ (o : Operation) : Operation → Type 0 where
  stay : o ⟶* o
  more : {p q : Operation} → o ⟶* p → p ⟶ q → o ⟶* q

-- The states that a new operation comes to.
pub data Reachable : Operation → Type 0 where
  fresh :
      (has_channel has_prompter_cancel : Bool) (shutdown_token : Option Bool) (timeout : ℕ)
      → Reachable (new_operation has_channel has_prompter_cancel shutdown_token timeout)
  later : {o p : Operation} → Reachable o → o ⟶ p → Reachable p

pub Reachable-run : {o p : Operation} → Reachable o → o ⟶* p → Reachable p
Reachable-run r stay = r
Reachable-run r (more run step) = later (Reachable-run r run) step

-- The premise of a step, for the proofs that take many steps in one clause.
abbrev pub Due : {o p : Operation} → Publish o p → Type 0
Due {o} (judges {v} _) = o.publication ≡ claimed v
Due {o} (enters {v} _) = o.publication ≡ judged v
Due {o} (stores {v} _) = o.publication ≡ phased v
Due {o} (opens {v} _) = o.publication ≡ stored v
Due {o} (emits {v} _) = o.publication ≡ gated v
Due {o} (marks _) = o.publication ≡ emitted

pub due : {o p : Operation} (s : Publish o p) → Due s
due (judges h) = h
due (enters h) = h
due (stores h) = h
due (opens h) = h
due (emits h) = h
due (marks h) = h

abbrev pub Guard : {o p : Operation} → Watch o p → Type 0
Guard {o} (wakes _ _) = o.timer ≡ waiting
Guard {o} (expires _ _) = o.timer ≡ waiting
Guard {o} (latches _) = o.timer ≡ expired
Guard {o} (trips _) = o.timer ≡ latched
Guard {o} (reports _) = o.timer ≡ tripped
Guard {o} (returns _ _) = o.timer ≡ reporting

pub guard : {o p : Operation} (s : Watch o p) → Guard s
guard (wakes h _) = h
guard (expires h _) = h
guard (latches h) = h
guard (trips h) = h
guard (reports h) = h
guard (returns h _) = h
