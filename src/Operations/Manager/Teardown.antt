-- ===== src/Operations/Manager/Teardown.antt =====
-- src/operations/OperationManager.cpp: the ways in which operations leave the manager: the removal of a
-- reader, the exit of a parked worker, the cleanup of finished operations, and the disconnect of a client.
use libre_agent.Common.{
  ℕ, ◌+◌, Bool, true, false, ◌&&◌, Option, none, some, List, [], ◌∷◌, ◌++◌, ◌==◌, leb,
  if◌then◌else◌, nat_key, text_key,
}
use libre_agent.Common.Map
use libre_agent.Common.Map.{Map}
use libre_agent.Identity.{CallerToken, ObjectId}
use libre_agent.Operations.Operation.{request_cancel, finish_card_removed, quiesce}
use libre_agent.Operations.Tracking.{OperationId, Tracking, forget_op_by_id, take_ops_of}
use libre_agent.Operations.Manager.{
  Stamped, ReaderWorker, FinishedRecord, WorkerFate, Publishing, Manager, id_at, apply_at, cancel,
}

unfoldable pub forget_ops : List ℕ → Map ℕ Stamped → Tracking → Tracking
unfolding id_at
forget_ops [] heap t = t
forget_ops (a ∷ ops) heap t = forget_ops ops heap (forget_op_by_id (id_at a heap) t)

unfoldable pub remove_cards : List ℕ → Map ℕ Stamped → Map ℕ Stamped
unfolding apply_at
remove_cards [] heap = heap
remove_cards (a ∷ ops) heap = remove_cards ops (apply_at finish_card_removed a heap)

unfoldable pub destroy : List ℕ → Map ℕ Stamped → Map ℕ Stamped
destroy [] heap = heap
destroy (a ∷ ops) heap = destroy ops (Map.erase a heap)

-- The drain of the queue of a worker that goes: scrub, finish, free.
unfoldable pub drain : List ℕ → Manager → Manager
unfolding forget_ops remove_cards destroy
drain doomed m = record m {
  tracking = forget_ops doomed m.heap m.tracking;
  heap = destroy doomed (remove_cards doomed m.heap);
}

-- The end of `abandonOrJoin` for an operation in flight: with the worker still in `doWork` after the grace it is forgotten and
-- parked, and otherwise its worker hands it to the cleanup.
unfoldable pub settle_in_flight : Bool → ℕ → ℕ → Manager → Manager
unfolding forget_ops apply_at
settle_in_flight wedged now a m =
    if wedged
    then record m { tracking = forget_ops (a ∷ []) m.heap m.tracking; zombies = a ∷ m.zombies }
    else record m {
      heap = apply_at quiesce a m.heap;
      finished = m.finished ++ (record { op = a; finished_at = now } ∷ []);
    }

unfoldable pub abandon_or_join : Bool → ℕ → ReaderWorker → Manager → Manager
unfolding drain settle_in_flight apply_at
abandon_or_join wedged now w m = elim w.in_flight [
  | none ↦ drain w.queue m
  | some a ↦
      settle_in_flight wedged now a
        (drain w.queue (record m { heap = apply_at request_cancel a m.heap }))
]

-- What a publication that has a pointer to the worker of this reader is left with.
unfoldable pub orphan : ObjectId → Bool → Option Publishing → Option Publishing
orphan reader wedged none = none
orphan reader wedged (some p) =
    if p.reader == reader
    then some (record p { fate = if wedged then WorkerFate.parked else WorkerFate.joined })
    else some p

unfoldable pub is_busy : ReaderWorker → Bool
is_busy w = elim w.in_flight [ none ↦ false | some _ ↦ true ]

unfoldable pub remove_reader : ObjectId → Bool → ℕ → Manager → Manager
unfolding abandon_or_join orphan is_busy
remove_reader reader wedged now m = elim (Map.lookup reader m.workers) [
  | none ↦ m
  | some w ↦ abandon_or_join wedged now w (record m {
    workers = Map.erase reader m.workers;
    publishing = orphan reader (wedged && is_busy w) m.publishing;
  })
]

-- The exit of a worker that was parked: the operation goes, and no table is touched.
unfoldable pub without : ℕ → List ℕ → List ℕ
without a [] = []
without a (b ∷ bs) = if b == a then without a bs else b ∷ without a bs

unfoldable pub zombie_returns : ℕ → Manager → Manager
unfolding without
zombie_returns a m = record m { zombies = without a m.zombies; heap = Map.erase a m.heap }

-- The records at the front whose grace is over; the addresses of theirs, and what is left.
unfoldable pub aged_out : ℕ → ℕ → List FinishedRecord → List ℕ × List FinishedRecord
aged_out grace now [] = ([], [])
aged_out grace now (r ∷ rs) =
    let (aged, left) = aged_out grace now rs in
    if leb (r.finished_at + grace) now then (r.op ∷ aged, left) else ([], r ∷ rs)

unfoldable pub sweep_finished : ℕ → ℕ → Manager → Manager
unfolding aged_out forget_ops destroy
sweep_finished grace now m =
    let (aged, left) = aged_out grace now m.finished in
    record m {
      finished = left;
      tracking = forget_ops aged m.heap m.tracking;
      heap = destroy aged m.heap;
    }

unfoldable pub cancel_all : List OperationId → Manager → Manager
unfolding cancel
cancel_all [] m = m
cancel_all (id ∷ ids) m = cancel_all ids (cancel id m)

unfoldable pub dispatch_client_disconnect : CallerToken → Manager → Manager
unfolding take_ops_of cancel_all
dispatch_client_disconnect client m =
    let (doomed, t) = take_ops_of client m.tracking in cancel_all doomed (record m { tracking = t })
