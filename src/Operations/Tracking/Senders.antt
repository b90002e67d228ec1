-- ===== src/Operations/Tracking/Senders.antt =====
-- The two tables of senders agree, and no sender stays without an operation.
use libre_agent.Common.{
  ◌≡◌, refl, Bool, true, false, not, ◌&&◌, ◌||◌, none, some, List, [], ◌∷◌, ◌==◌, inl, inr, arith,
  ◌⊎◌, ap, if◌then◌else◌, Bool-cases, Option-cases, nat_key, text_key, ==_iff,
}
use libre_agent.Common.Map
use libre_agent.Common.Map.{Map}
use libre_agent.Identity.{CallerToken}
use libre_agent.Operations.Tracking.{
  OperationId, IdSet, Tracking, ops_of, record_sender, drop_from, forget_sender, forget_op_by_id,
  ids_in, erase_all, take_ops_of,
}
use text.Mathlib.Text.{◌==◌ as text_eq}
use text.Mathlib.TextEquality.{eq_iff}

abbrev pub has : OperationId → IdSet → Bool
has id ids = elim (Map.lookup id ids) [ none ↦ false | some _ ↦ true ]

abbrev pub sent_by : CallerToken → OperationId → Tracking → Bool
sent_by client id t = elim (Map.lookup id t.op_to_sender) [
  | none ↦ false
  | some sender ↦ text_eq sender client
]

abbrev ids_of : CallerToken → Map CallerToken IdSet → IdSet
ids_of c m = elim (Map.lookup c m) [ none ↦ [] | some ids ↦ ids ]

lookup_nil : (ids : IdSet) (i : OperationId) → ids ≡ [] → Map.lookup i ids ≡ none
unfolding Map.lookup
lookup_nil ids i e = ap (λ x. Map.lookup i x) e

-- The set of a client holds exactly the operations of which it is the sender.
abbrev pub Agree : Tracking → Type 0
Agree t = (client : CallerToken) (id : OperationId) → has id (ops_of client t) ≡ sent_by client id t

ops_of-record_sender :
    (id : OperationId) (sender c : CallerToken) (t : Tracking)
    → ops_of c (record_sender id sender t)
      ≡ (if text_eq sender c then Map.insert id tt (ops_of c t) else ops_of c t)
unfolding ops_of record_sender
ops_of-record_sender id sender c t = ground (
  arith,
  eq_iff sender c,
  Map.lookup-insert sender c (Map.insert id tt (ops_of sender t)) t.sender_to_ops,
)

pub record_sender-Agree :
    (id : OperationId) (sender : CallerToken) (t : Tracking)
    → Map.lookup id t.op_to_sender ≡ none
    → Agree t
    → Agree (record_sender id sender t)
unfolding record_sender
record_sender-Agree id sender t fresh agree c i = ground (
  arith,
  ops_of-record_sender id sender c t,
  agree c i,
  eq_iff sender c,
  ==_iff id i,
  Map.lookup-insert id i tt (ops_of c t),
  Map.lookup-insert id i sender t.op_to_sender,
)

IdSet-cases :
    (ids : IdSet) → (ids ≡ []) ⊎ ((e : OperationId × Unit {0}) × (more : IdSet) × (ids ≡ e ∷ more))
IdSet-cases [] = inl refl
IdSet-cases (e ∷ more) = inr (e, more, refl)

module _ (id : OperationId) (sender c : CallerToken) (i : OperationId) where
  has-drop_from_found :
      (ids : IdSet) (m : Map CallerToken IdSet)
      → Map.lookup sender m ≡ some ids
      → has i (ids_of c (drop_from id sender m))
        ≡ (if text_eq sender c && (id == i) then false else has i (ids_of c m))
  unfolding drop_from
  has-drop_from_found ids m found = elim (IdSet-cases (Map.erase id ids)) [
    | inl e ↦ ground (
      arith,
      eq_iff sender c,
      ==_iff id i,
      Map.lookup-erase sender c m,
      Map.lookup-erase id i ids,
      lookup_nil (Map.erase id ids) i e,
    )
    | inr ((j, u), more, e) ↦ ground (
      arith,
      eq_iff sender c,
      ==_iff id i,
      Map.lookup-insert sender c ((j, u) ∷ more) m,
      Map.lookup-erase id i ids,
      ap (λ x. Map.lookup i x) e,
    )
  ]

  has-drop_from :
      (m : Map CallerToken IdSet)
      → has i (ids_of c (drop_from id sender m))
        ≡ (if text_eq sender c && (id == i) then false else has i (ids_of c m))
  unfolding drop_from
  has-drop_from m = elim (Option-cases (Map.lookup sender m)) [
    | inl e ↦ ground (arith, eq_iff sender c, lookup_nil [] i refl)
    | inr (ids, e) ↦ has-drop_from_found ids m e
  ]

pub forget_sender-Agree : (id : OperationId) (t : Tracking) → Agree t → Agree (forget_sender id t)
unfolding forget_sender ops_of
forget_sender-Agree id t agree c i = elim (Option-cases (Map.lookup id t.op_to_sender)) [
  | inl e ↦ ground (arith, agree c i)
  | inr (sender, e) ↦ ground (
    arith,
    agree c i,
    ==_iff id i,
    has-drop_from id sender c i t.sender_to_ops,
    Map.lookup-erase id i t.op_to_sender,
  )
]

pub forget_op_by_id-Agree :
    (id : OperationId) (t : Tracking) → Agree t → Agree (forget_op_by_id id t)
unfolding forget_op_by_id ops_of
forget_op_by_id-Agree id t agree c i = elim (Bool-cases (id == 0)) [
  | inl e ↦ ground (arith, agree c i)
  | inr e ↦
      ground (arith, forget_sender-Agree id (record t { by_id = Map.erase id t.by_id }) agree c i)
]

unfoldable pub mem : OperationId → List OperationId → Bool
mem i [] = false
mem i (id ∷ ids) = (id == i) || mem i ids

pub lookup-erase_all :
    (i : OperationId) (ids : List OperationId) (m : Map OperationId CallerToken)
    → Map.lookup i (erase_all ids m) ≡ (if mem i ids then none else Map.lookup i m)
unfolding erase_all mem
lookup-erase_all i [] m = refl
lookup-erase_all i (id ∷ ids) m =
    ground (arith, lookup-erase_all i ids (Map.erase id m), Map.lookup-erase id i m)

mem-ids_in : (i : OperationId) (ids : IdSet) → mem i (ids_in ids) ≡ has i ids
unfolding ids_in mem Map.lookup
mem-ids_in i [] = refl
mem-ids_in i ((id, u) ∷ ids) = ground (arith, mem-ids_in i ids)

-- An operation has one sender.
one_sender :
    (c client : CallerToken) (i : OperationId) (t : Tracking)
    → (text_eq client c || not (sent_by c i t && sent_by client i t)) ≡ true
one_sender c client i t = elim (Option-cases (Map.lookup i t.op_to_sender)) [
  | inl e ↦ ground arith
  | inr (s, e) ↦ ground (arith, eq_iff s c, eq_iff s client, eq_iff client c)
]

pub take_ops_of-Agree :
    (client : CallerToken) (t : Tracking) → Agree t → Agree (take_ops_of client t).1
unfolding take_ops_of ops_of
take_ops_of-Agree client t agree c i = elim (Option-cases (Map.lookup client t.sender_to_ops)) [
  | inl e ↦ ground (arith, agree c i)
  | inr (ids, e) ↦ ground (
    arith,
    agree c i,
    agree client i,
    eq_iff client c,
    one_sender c client i t,
    mem-ids_in i ids,
    lookup_nil [] i refl,
    Map.lookup-erase client c t.sender_to_ops,
    lookup-erase_all i (ids_in ids) t.op_to_sender,
  )
]

-- The ids that a disconnect cancels are those that the client asked for.
pub mem-take_ops_of :
    (client : CallerToken) (i : OperationId) (t : Tracking)
    → Agree t
    → mem i (take_ops_of client t).0 ≡ sent_by client i t
unfolding take_ops_of ops_of mem
mem-take_ops_of client i t agree = elim (Option-cases (Map.lookup client t.sender_to_ops)) [
  | inl e ↦ ground (arith, agree client i, lookup_nil [] i refl)
  | inr (ids, e) ↦ ground (arith, agree client i, mem-ids_in i ids)
]
