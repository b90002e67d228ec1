-- ===== src/Operations/Operation.antt =====
-- src/operations/OperationBase.cpp: one card operation, shared by its worker thread, the watchdog timer
-- and the threads that cancel it or finish it for a removed card. Each function is one step of one
-- thread: `finish` is cut where another thread can see the difference, and `disarmWatchdog` before its
-- join. The signals of the channel and the dismissals of a prompt stand in `signals`, newest first. The
-- text of a failure is its key alone. `groupReady`, `keepAlive` and the callbacks' exceptions are left out.
pub mod Threads
pub mod Watchdog
pub mod Outcome
pub mod Terminal
pub mod Timeout
pub mod Progress
mod Runs
use libre_agent.Common.{
  ℕ, ◌+◌, Bool, true, false, not, ◌&&◌, Option, none, some, List, [], ◌∷◌, String, ◌==◌,
  if◌then◌else◌,
}
use libre_agent.Value.ErrorTaxonomy.{
  ErrorCode, watchdog_timeout, card_removed, OperationStatus, error,
}

pub data OperationPhase : Type 0 where
  created connecting awaiting_consent authenticating : OperationPhase
  reading signing timestamping done : OperationPhase

-- The wire value, on which the code compares phases.
unfoldable pub code_of : OperationPhase → ℕ
code_of created = 0
code_of connecting = 1
code_of awaiting_consent = 2
code_of authenticating = 3
code_of reading = 4
code_of signing = 5
code_of timestamping = 6
code_of done = 7

pub record OperationState : Type 0 where
  pub phase : OperationPhase
  pub watchdog_timeout_sec : ℕ
  pub is_cancelled : Bool
  pub completed : Bool
  pub terminal_status : OperationStatus
  pub terminal_error_code : ErrorCode

-- The arguments of `finish`.
pub record Verdict : Type 0 where
  pub status : OperationStatus
  pub code : ErrorCode
  pub msg_key : String

abbrev pub timeout_verdict : Verdict
timeout_verdict = record {
  status = error;
  code = watchdog_timeout;
  msg_key = "op.watchdog_timeout";
}

abbrev pub removed_verdict : Verdict
removed_verdict = record { status = error; code = card_removed; msg_key = "op.card_removed" }

pub data Signal : Type 0 where
  properties_changed : (phase : OperationPhase) → Signal
  reported : (v : Verdict) → Signal
  dismissed : Signal

-- How far the one call that passed `m_finishOnce` has come.
pub data Publication : Type 0 where
  unclaimed : Publication
  claimed judged phased stored gated : (v : Verdict) → Publication
  emitted closed : Publication

-- Where the thread of `m_watchdog` stands; `absent` when the thread is not joinable.
pub data Timer : Type 0 where
  absent waiting expired latched tripped reporting ended : Timer

pub data Worker : Type 0 where
  free joining : Worker

pub record Operation : Type 0 where
  pub state : OperationState
  pub has_channel : Bool
  pub has_prompter_cancel : Bool
  pub token_cancelled : Bool  -- m_cancelSource
  pub shutdown_token : Option Bool  -- none when it can never be cancelled
  pub finished : Bool
  pub watchdog_fired : Bool
  pub watchdog_armed : Bool
  pub arm_attempts : ℕ
  pub stop_requested : Bool  -- the stop token of m_watchdog
  pub timer : Timer
  pub worker : Worker
  pub publication : Publication
  pub signals : List Signal

unfoldable pub shutdown_requested : Operation → Bool
shutdown_requested o = elim o.shutdown_token [ none ↦ false | some is_cancelled ↦ is_cancelled ]

unfoldable pub request_shutdown_cancel : Operation → Operation
request_shutdown_cancel o = record o {
  state = record o.state { is_cancelled = true };
  token_cancelled = true;
}

unfoldable pub request_cancel : Operation → Operation
unfolding code_of
request_cancel o = record o {
  state = record o.state { is_cancelled = true };
  token_cancelled = true;
  signals =
      if code_of o.state.phase == 2 && o.has_prompter_cancel
      then dismissed ∷ o.signals
      else o.signals;
}

-- The part of `disarmWatchdog` before the join, for which the worker then waits.
unfoldable pub disarm_watchdog : Operation → Operation
disarm_watchdog o = if not o.watchdog_armed then o else elim o.timer [
  | absent ↦ record o { watchdog_armed = false }
  | _ ↦ record o { watchdog_armed = false; stop_requested = true; worker = joining }
]

unfoldable pub arm_watchdog_if_needed : OperationPhase → Operation → Operation
unfolding code_of
arm_watchdog_if_needed p o =
    if not (code_of p == 3) && not (code_of p == 4)
    then o
    else if o.watchdog_armed
    then record o { arm_attempts = o.arm_attempts + 1 }
    else if o.state.watchdog_timeout_sec == 0
    then record o { arm_attempts = o.arm_attempts + 1; watchdog_armed = true }
    else record o {
      arm_attempts = o.arm_attempts + 1;
      watchdog_armed = true;
      stop_requested = false;
      timer = waiting;
    }

unfoldable pub exchange_phase : OperationPhase → Operation → Operation
unfolding code_of
exchange_phase p o = record o {
  state = record o.state { phase = p };
  signals =
      if not (code_of o.state.phase == code_of p) && o.has_channel
      then properties_changed p ∷ o.signals
      else o.signals;
}

unfoldable pub set_phase : OperationPhase → Operation → Operation
unfolding exchange_phase arm_watchdog_if_needed disarm_watchdog
set_phase p o =
    if code_of o.state.phase == code_of p
    then exchange_phase p o
    else if code_of p == 2
    then disarm_watchdog (exchange_phase p o)
    else arm_watchdog_if_needed p (exchange_phase p o)

-- The part of `quiesce` before the join.
unfoldable pub quiesce : Operation → Operation
quiesce o = elim o.timer [ absent ↦ o | _ ↦ record o { stop_requested = true; worker = joining } ]

-- `std::call_once(m_finishOnce, …)`: the first caller goes on with its arguments, a later one waits.
unfoldable pub claim : Verdict → Operation → Operation
claim v o = elim o.publication [ unclaimed ↦ record o { publication = claimed v } | _ ↦ o ]

unfoldable pub finish_card_removed : Operation → Operation
unfolding claim request_cancel
finish_card_removed o = claim removed_verdict (request_cancel o)

-- The six parts of the lambda in `finish`.
unfoldable pub judge : Verdict → Operation → Operation
judge v o = record o { publication = judged (if o.watchdog_fired then timeout_verdict else v) }

unfoldable pub enter_done : Verdict → Operation → Operation
unfolding set_phase
enter_done v o = record (set_phase done o) { publication = phased v }

unfoldable pub store_mirrors : Verdict → Operation → Operation
store_mirrors v o = record o {
  state = record o.state { terminal_status = v.status; terminal_error_code = v.code };
  publication = stored v;
}

unfoldable pub open_gate : Verdict → Operation → Operation
open_gate v o = record o { state = record o.state { completed = true }; publication = gated v }

unfoldable pub emit_finished : Verdict → Operation → Operation
unfolding shutdown_requested
emit_finished v o = record o {
  signals =
      if o.has_channel && not (shutdown_requested o) then reported v ∷ o.signals else o.signals;
  publication = emitted;
}

unfoldable pub mark_finished : Operation → Operation
mark_finished o = record o { finished = true; publication = closed }
