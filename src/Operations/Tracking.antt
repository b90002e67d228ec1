-- ===== src/Operations/Tracking.antt =====
-- src/operations/OperationManager.cpp: the tables by which the manager finds an operation, from its id and
-- from the caller that asked for it. A pointer to an operation is an address of the manager's heap, and
-- a `std::set` is a map to `Unit`.
pub mod Senders
use libre_agent.Common.{
  ℕ, zero, ◌+◌, ◌%◌, ◌^◌, Bool, true, false, Option, none, some, List, [], ◌∷◌, String, ◌==◌,
  if◌then◌else◌, nat_key, text_key,
}
use libre_agent.Common.Map
use libre_agent.Common.Map.{Map}
use libre_agent.Identity.{CallerToken}

-- 0 is reserved for "none".
abbrev pub OperationId : Type 0
OperationId = ℕ

abbrev pub IdSet : Type 0
IdSet = Map OperationId (Unit {0})

pub record Tracking : Type 0 where
  pub by_id : Map OperationId ℕ
  pub sender_to_ops : Map CallerToken IdSet
  pub op_to_sender : Map OperationId CallerToken

abbrev pub no_tracking : Tracking
no_tracking = record { by_id = []; sender_to_ops = []; op_to_sender = [] }

unfoldable pub ops_of : CallerToken → Tracking → IdSet
ops_of sender t = elim (Map.lookup sender t.sender_to_ops) [ none ↦ [] | some ids ↦ ids ]

unfoldable pub record_sender : OperationId → CallerToken → Tracking → Tracking
unfolding ops_of
record_sender id sender t = record t {
  sender_to_ops = Map.insert sender (Map.insert id tt (ops_of sender t)) t.sender_to_ops;
  op_to_sender = Map.insert id sender t.op_to_sender;
}

-- `m_byId.emplace(id, op)`: an id that is there keeps its operation.
unfoldable pub emplace : OperationId → ℕ → Tracking → Tracking
emplace id address t = elim (Map.lookup id t.by_id) [
  | none ↦ record t { by_id = Map.insert id address t.by_id }
  | some _ ↦ t
]

-- `setIt->second.erase(id)`, and a set that this empties goes.
unfoldable pub drop_from : OperationId → CallerToken → Map CallerToken IdSet → Map CallerToken IdSet
drop_from id sender m = elim (Map.lookup sender m) [
  | none ↦ m
  | some ids ↦ elim (Map.erase id ids) [
    | [] ↦ Map.erase sender m
    | left ∷ more ↦ Map.insert sender (left ∷ more) m
  ]
]

unfoldable pub forget_sender : OperationId → Tracking → Tracking
unfolding drop_from
forget_sender id t = elim (Map.lookup id t.op_to_sender) [
  | none ↦ t
  | some sender ↦ record t {
    sender_to_ops = drop_from id sender t.sender_to_ops;
    op_to_sender = Map.erase id t.op_to_sender;
  }
]

unfoldable pub forget_op_by_id : OperationId → Tracking → Tracking
unfolding forget_sender
forget_op_by_id id t =
    if id == 0 then t else forget_sender id (record t { by_id = Map.erase id t.by_id })

unfoldable pub ids_in : IdSet → List OperationId
ids_in [] = []
ids_in ((id, _) ∷ ids) = id ∷ ids_in ids

unfoldable pub erase_all :
    List OperationId → Map OperationId CallerToken → Map OperationId CallerToken
erase_all [] m = m
erase_all (id ∷ ids) m = erase_all ids (Map.erase id m)

-- The part of `dispatchClientDisconnect` under its mutex: the ids to cancel, and the tables without
-- the client.
unfoldable pub take_ops_of : CallerToken → Tracking → List OperationId × Tracking
unfolding ids_in erase_all
take_ops_of client t = elim (Map.lookup client t.sender_to_ops) [
  | none ↦ ([], t)
  | some ids ↦ (
    ids_in ids,
    record t {
      sender_to_ops = Map.erase client t.sender_to_ops;
      op_to_sender = erase_all (ids_in ids) t.op_to_sender;
    },
  )
]
