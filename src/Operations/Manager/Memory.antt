-- ===== src/Operations/Manager/Memory.antt =====
-- The heap of the manager under each of its operations, by the ids that stand at its addresses.
use libre_agent.Common.{
  ℕ, ◌≡◌, ◌<◌, refl, Bool, true, false, not, ◌&&◌, ◌||◌, none, some, List, [], ◌∷◌, ◌==◌, inl, inr,
  arith, ap, if◌then◌else◌, Bool-cases, Option-cases, nat_key, text_key, ==_iff,
}
use libre_agent.Common.Map
use libre_agent.Common.Map.{Map}
use libre_agent.Identity.{CallerToken}
use libre_agent.Operations.Operation.{Operation, finish_card_removed}
use libre_agent.Operations.Tracking.{
  OperationId, Tracking, forget_op_by_id, forget_sender, take_ops_of, ids_in,
}
use libre_agent.Operations.Tracking.Senders.{mem, Agree, forget_op_by_id-Agree, lookup-erase_all}
use libre_agent.Operations.Manager.{Stamped, id_at, apply_at}
use libre_agent.Operations.Manager.Teardown.{forget_ops, remove_cards, destroy}

abbrev pub ByAddress : Type 0
ByAddress = Map ℕ Stamped

pub id_at-insert :
    (b a : ℕ) (s : Stamped) (heap : ByAddress)
    → id_at a (Map.insert b s heap) ≡ (if b == a then s.id else id_at a heap)
unfolding id_at
id_at-insert b a s heap = ground (arith, ==_iff b a, Map.lookup-insert b a s heap)

pub id_at-erase :
    (b a : ℕ) (heap : ByAddress) → id_at a (Map.erase b heap) ≡ (if b == a then 0 else id_at a heap)
unfolding id_at
id_at-erase b a heap = ground (arith, ==_iff b a, Map.lookup-erase b a heap)

pub id_at-apply_at :
    (f : Operation → Operation) (b a : ℕ) (heap : ByAddress)
    → id_at a (apply_at f b heap) ≡ id_at a heap
unfolding id_at apply_at
id_at-apply_at f b a heap =
    ground
      (arith, ==_iff b a, Map.lookup-modify b a (λ s. record s { operation = f s.operation }) heap)

pub id_at-remove_cards :
    (ops : List ℕ) (a : ℕ) (heap : ByAddress) → id_at a (remove_cards ops heap) ≡ id_at a heap
unfolding remove_cards
id_at-remove_cards [] a heap = refl
id_at-remove_cards (b ∷ ops) a heap = ground (
  arith,
  id_at-remove_cards ops a (apply_at finish_card_removed b heap),
  id_at-apply_at finish_card_removed b a heap,
)

pub id_at-destroy :
    (ops : List ℕ) (a : ℕ) (heap : ByAddress)
    → id_at a (destroy ops heap) ≡ (if mem a ops then 0 else id_at a heap)
unfolding destroy mem
id_at-destroy [] a heap = refl
id_at-destroy (b ∷ ops) a heap =
    ground (arith, id_at-destroy ops a (Map.erase b heap), id_at-erase b a heap, ==_iff b a)

lookup-forget_op_by_id :
    (id i : OperationId) (t : Tracking)
    → Map.lookup i (forget_op_by_id id t).by_id
      ≡ (if not (id == 0) && (id == i) then none else Map.lookup i t.by_id)
unfolding forget_op_by_id forget_sender
lookup-forget_op_by_id id i t = elim (Option-cases (Map.lookup id t.op_to_sender)) [
  | inl e ↦ ground (arith, ==_iff id i, ==_iff id 0, Map.lookup-erase id i t.by_id)
  | inr (s, e) ↦ ground (arith, ==_iff id i, ==_iff id 0, Map.lookup-erase id i t.by_id)
]

-- Whether one of the operations has the id.
unfoldable pub names : OperationId → List ℕ → ByAddress → Bool
names i [] heap = false
names i (a ∷ ops) heap = (id_at a heap == i) || names i ops heap

-- What a scrub of the operations leaves of the entry of an id.
pub lookup-forget_ops :
    (ops : List ℕ) (heap : ByAddress) (i : OperationId) (t : Tracking)
    → Map.lookup i (forget_ops ops heap t).by_id
      ≡ (if not (i == 0) && names i ops heap then none else Map.lookup i t.by_id)
unfolding forget_ops names
lookup-forget_ops [] heap i t = ground arith
lookup-forget_ops (a ∷ ops) heap i t = ground (
  arith,
  lookup-forget_ops ops heap i (forget_op_by_id (id_at a heap) t),
  lookup-forget_op_by_id (id_at a heap) i t,
  ==_iff i 0,
  ==_iff (id_at a heap) 0,
  ==_iff (id_at a heap) i,
)

pub mem-names :
    (a : ℕ) (ops : List ℕ) (heap : ByAddress)
    → (not (mem a ops) || names (id_at a heap) ops heap) ≡ true
unfolding mem names
mem-names a [] heap = refl
mem-names a (b ∷ ops) heap = elim (Bool-cases (b == a)) [
  | inl e ↦
      ground
        (arith, ==_iff (id_at b heap) (id_at a heap), ap (λ x. id_at x heap) ((==_iff b a).0 e))
  | inr e ↦ ground (arith, mem-names a ops heap)
]

pub forget_ops-Agree :
    (ops : List ℕ) (heap : ByAddress) (t : Tracking) → Agree t → Agree (forget_ops ops heap t)
unfolding forget_ops
forget_ops-Agree [] heap t agree = agree
forget_ops-Agree (a ∷ ops) heap t agree =
    forget_ops-Agree ops heap (forget_op_by_id (id_at a heap) t)
      (forget_op_by_id-Agree (id_at a heap) t agree)

-- The tables of ids and of senders name only ids below a bound.
abbrev pub Asked : ℕ → Tracking → Type 0
Asked n t = (i : OperationId) (s : CallerToken) → Map.lookup i t.op_to_sender ≡ some s → i < n

sender-forget_sender :
    (id i : OperationId) (t : Tracking)
    → Map.lookup i (forget_sender id t).op_to_sender
      ≡ (if id == i then none else Map.lookup i t.op_to_sender)
unfolding forget_sender
sender-forget_sender id i t = elim (Option-cases (Map.lookup id t.op_to_sender)) [
  | inl e ↦ ground (arith, ==_iff id i)
  | inr (c, e) ↦ ground (arith, ==_iff id i, Map.lookup-erase id i t.op_to_sender)
]

sender-forget_op_by_id :
    (id i : OperationId) (t : Tracking)
    → Map.lookup i (forget_op_by_id id t).op_to_sender
      ≡ (if not (id == 0) && (id == i) then none else Map.lookup i t.op_to_sender)
unfolding forget_op_by_id
sender-forget_op_by_id id i t = elim (Bool-cases (id == 0)) [
  | inl e ↦ ground arith
  | inr e ↦ ground (arith, sender-forget_sender id i (record t { by_id = Map.erase id t.by_id }))
]

pub forget_op_by_id-Asked :
    (n : ℕ) (id : OperationId) (t : Tracking) → Asked n t → Asked n (forget_op_by_id id t)
forget_op_by_id-Asked n id t h i s e = ground (arith, h i s, sender-forget_op_by_id id i t)

pub forget_ops-Asked :
    (n : ℕ) (ops : List ℕ) (heap : ByAddress) (t : Tracking)
    → Asked n t
    → Asked n (forget_ops ops heap t)
unfolding forget_ops
forget_ops-Asked n [] heap t h = h
forget_ops-Asked n (a ∷ ops) heap t h =
    forget_ops-Asked n ops heap (forget_op_by_id (id_at a heap) t)
      (forget_op_by_id-Asked n (id_at a heap) t h)

pub sender-take_ops_of :
    (client : CallerToken) (i : OperationId) (t : Tracking)
    → Map.lookup i (take_ops_of client t).1.op_to_sender
      ≡ (if mem i (take_ops_of client t).0 then none else Map.lookup i t.op_to_sender)
unfolding take_ops_of mem
sender-take_ops_of client i t = elim (Option-cases (Map.lookup client t.sender_to_ops)) [
  | inl e ↦ ground arith
  | inr (ids, e) ↦ ground (arith, lookup-erase_all i (ids_in ids) t.op_to_sender)
]

pub take_ops_of-Asked :
    (n : ℕ) (client : CallerToken) (t : Tracking) → Asked n t → Asked n (take_ops_of client t).1
take_ops_of-Asked n client t h i s e = ground (arith, h i s, sender-take_ops_of client i t)

pub take_ops_of-by_id :
    (client : CallerToken) (t : Tracking) → (take_ops_of client t).1.by_id ≡ t.by_id
unfolding take_ops_of
take_ops_of-by_id client t = ground arith

-- Every entry of the table of ids points to an operation with that id.
abbrev pub Tracked : ByAddress → Map OperationId ℕ → Type 0
Tracked heap by_id =
    (i : OperationId) (a : ℕ) → Map.lookup i by_id ≡ some a → (id_at a heap ≡ i) × (0 < i)

-- Scrub first, free afterwards.
pub forget-Tracked :
    (ops : List ℕ) (heap : ByAddress) (t : Tracking)
    → Tracked heap t.by_id
    → Tracked (destroy ops heap) (forget_ops ops heap t).by_id
forget-Tracked ops heap t h i a e = ground (
  arith,
  h i a,
  lookup-forget_ops ops heap i t,
  mem-names a ops heap,
  id_at-destroy ops a heap,
  ==_iff i 0,
)
