-- ===== src/Operations/Manager.antt =====
-- src/operations/OperationManager.cpp: the manager of card operations. Its heap holds the operations that
-- are not destroyed, and pointers are its addresses. A step is what a thread does between two points at which the
-- others can act: the event loop publishes in two steps, since a reader can go between them, while a removal, with the wait for
-- the worker, is one. The calls on the card session holder are listed, newest first. The destructor,
-- the construction of a holder and the tests' entry points are left out.
pub mod Teardown
pub mod Memory
pub mod Invariant
pub mod Steps
pub mod Removal
pub mod Allocate
pub mod Publish
pub mod History
pub mod Disconnect
mod Runs
use libre_agent.Common.{
  ℕ, ◌+◌, ◌%◌, ◌^◌, Bool, true, false, not, ◌&&◌, ◌||◌, Option, none, some, List, [], ◌∷◌, ◌++◌,
  String, ◌==◌, leb, if◌then◌else◌, nat_key, text_key, length,
}
use libre_agent.Common.Map
use libre_agent.Common.Map.{Map}
use libre_agent.Identity.{CallerToken, ObjectId}
use libre_agent.Operations.Operation.{Operation, request_cancel, finish_card_removed, quiesce}
use libre_agent.Operations.Tracking.{
  OperationId, Tracking, no_tracking, record_sender, emplace, forget_op_by_id, take_ops_of,
}
use text.Mathlib.Text.{◌==◌ as text_eq}

abbrev pub max_queued_ops_per_reader : ℕ
max_queued_ops_per_reader = 32

-- The grace of `cleanupLoop`, in nanoseconds of the steady clock.
abbrev pub cleanup_grace : ℕ
cleanup_grace = 5_000_000_000

-- An operation on the heap, with the id that `setId` stamped on it, 0 for a probe.
pub record Stamped : Type 0 where
  pub id : OperationId
  pub operation : Operation

pub data HolderCall : Type 0 where
  invalidated hold_acquired hold_released : HolderCall
  swept : (hold : Bool) → HolderCall

pub record ReaderWorker : Type 0 where
  pub queue : List ℕ
  pub in_flight : Option ℕ
  pub pending_invalidate : Bool
  pub hold : Bool
  pub hold_dirty : Bool
  pub holder_calls : List HolderCall

abbrev pub new_worker : ReaderWorker
new_worker = record {
  queue = [];
  in_flight = none;
  pending_invalidate = false;
  hold = false;
  hold_dirty = false;
  holder_calls = [];
}

pub record FinishedRecord : Type 0 where
  pub op : ℕ
  pub finished_at : ℕ

-- What became of the worker that `publish` has a pointer to, since it got it.
pub data WorkerFate : Type 0 where
  kept joined parked : WorkerFate

-- A call of `publish` between its test of the backlog and its entry in the tables.
pub record Publishing : Type 0 where
  pub id : OperationId
  pub reader : ObjectId
  pub caller : CallerToken
  pub fate : WorkerFate

pub record Manager : Type 0 where
  pub heap : Map ℕ Stamped
  pub next_address : ℕ
  pub counter : ℕ
  pub tracking : Tracking
  pub workers : Map ObjectId ReaderWorker
  pub finished : List FinishedRecord
  pub zombies : List ℕ
  pub publishing : Option Publishing

abbrev pub new_manager : Manager
new_manager = record {
  heap = [];
  next_address = 0;
  counter = 0;
  tracking = no_tracking;
  workers = [];
  finished = [];
  zombies = [];
  publishing = none;
}

unfoldable pub next_operation_id : ℕ → OperationId
next_operation_id counter = (counter + 1) % 2 ^ 64

unfoldable pub worker_for : ObjectId → Manager → ReaderWorker
worker_for reader m = elim (Map.lookup reader m.workers) [ none ↦ new_worker | some w ↦ w ]

unfoldable pub set_worker : ObjectId → ReaderWorker → Manager → Manager
set_worker reader w m = record m { workers = Map.insert reader w m.workers }

unfoldable pub id_at : ℕ → Map ℕ Stamped → OperationId
id_at address heap = elim (Map.lookup address heap) [ none ↦ 0 | some s ↦ s.id ]

unfoldable pub apply_at : (Operation → Operation) → ℕ → Map ℕ Stamped → Map ℕ Stamped
apply_at f address heap = Map.modify address (λ s. record s { operation = f s.operation }) heap

-- `publish` up to the test of the backlog; a full queue throws `QueueFull`, and the id is gone.
unfoldable pub begin_publish : ObjectId → CallerToken → Manager → Manager
unfolding next_operation_id worker_for set_worker
begin_publish reader caller m =
    let id = next_operation_id m.counter in
    let w = worker_for reader m in
    let known = set_worker reader w (record m { counter = id }) in
    if leb max_queued_ops_per_reader (length w.queue) then known else record known {
      publishing =
          some (record { id = id; reader = reader; caller = caller; fate = WorkerFate.kept });
    }

unfoldable pub track : OperationId → CallerToken → ℕ → Tracking → Tracking
track id caller address t =
    emplace id address (if text_eq caller "" then t else record_sender id caller t)

-- The rest of `publish`, with the operation that `makeOp` built. When the last pointer to a worker whose thread has ended
-- goes, its queue goes too, and the operation with it.
unfoldable pub end_publish : Operation → Publishing → Manager → Manager
unfolding track worker_for set_worker
end_publish op p m =
    let a = m.next_address in
    let tracked = record m {
      heap = Map.insert a (record { id = p.id; operation = op }) m.heap;
      next_address = a + 1;
      tracking = track p.id p.caller a m.tracking;
      publishing = none;
    } in
    elim p.fate [
      | kept ↦
          let w = worker_for p.reader m in
          set_worker p.reader (record w { queue = w.queue ++ (a ∷ []) }) tracked
      | joined ↦ record tracked { heap = Map.erase a tracked.heap }
      | parked ↦ tracked
    ]

-- The deferred work of the PKCS#11 side; false for a full queue.
unfoldable pub enqueue_on_reader_worker : ObjectId → Operation → Manager → Bool × Manager
unfolding worker_for set_worker
enqueue_on_reader_worker reader op m =
    let w = worker_for reader m in
    if leb max_queued_ops_per_reader (length w.queue) then (false, set_worker reader w m) else (
      true,
      set_worker reader (record w { queue = w.queue ++ (m.next_address ∷ []) })
          (record m {
            heap = Map.insert m.next_address (record { id = 0; operation = op }) m.heap;
            next_address = m.next_address + 1;
          }),
    )

-- One round of `workerLoop` up to the call of `runOnWorker`, for a worker between operations; `ready` is false when the wait timed out.
unfoldable pub turn : Bool → ReaderWorker → ReaderWorker
turn ready w =
    if w.pending_invalidate
    then record w {
      pending_invalidate = false;
      holder_calls = HolderCall.invalidated ∷ w.holder_calls;
    }
    else if w.hold_dirty
    then record w {
      hold_dirty = false;
      holder_calls =
          (if w.hold then HolderCall.hold_acquired else HolderCall.hold_released) ∷ w.holder_calls;
    }
    else if not ready
    then record w { holder_calls = HolderCall.swept w.hold ∷ w.holder_calls }
    else elim w.queue [ [] ↦ w | a ∷ rest ↦ record w { queue = rest; in_flight = some a } ]

unfoldable pub worker_turn : ObjectId → Bool → Manager → Manager
unfolding turn set_worker
worker_turn reader ready m = elim (Map.lookup reader m.workers) [
  | none ↦ m
  | some w ↦ elim w.in_flight [ none ↦ set_worker reader (turn ready w) m | some _ ↦ m ]
]

-- The rest of a round, once `runOnWorker` has returned.
unfoldable pub worker_done : ObjectId → ℕ → Manager → Manager
unfolding set_worker apply_at
worker_done reader now m = elim (Map.lookup reader m.workers) [
  | none ↦ m
  | some w ↦ elim w.in_flight [
    | none ↦ m
    | some a ↦
        set_worker reader (record w { in_flight = none })
          (record m {
            heap = apply_at quiesce a m.heap;
            finished = m.finished ++ (record { op = a; finished_at = now } ∷ []);
          })
  ]
]

unfoldable pub invalidate_reader_session : ObjectId → Manager → Manager
invalidate_reader_session reader m = record m {
  workers = Map.modify reader (λ w. record w { pending_invalidate = true }) m.workers;
}

unfoldable pub set_reader_hold : ObjectId → Bool → Manager → Manager
set_reader_hold reader hold m = record m {
  workers = Map.modify reader (λ w. record w { hold = hold; hold_dirty = true }) m.workers;
}

unfoldable pub cancel : OperationId → Manager → Manager
unfolding apply_at
cancel id m = elim (Map.lookup id m.tracking.by_id) [
  | none ↦ m
  | some a ↦ record m { heap = apply_at request_cancel a m.heap }
]
