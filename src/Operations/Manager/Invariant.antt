-- ===== src/Operations/Manager/Invariant.antt =====
-- The invariant of the manager: ids are fresh, the tables agree, and they name operations on the heap.
use libre_agent.Common.{
  ℕ, ◌+◌, ◌≡◌, ◌<◌, ◌≤◌, true, Option, none, some, List, [], ◌∷◌, ◌==◌, inl, inr, arith, ap, ◌∙◌,
  Bool-cases, Option-cases, nat_key, text_key, ==_iff, All,
}
use libre_agent.Common.Map
use libre_agent.Common.Map.{Map}
use libre_agent.Identity.{ObjectId}
use libre_agent.Operations.Tracking.{OperationId}
use libre_agent.Operations.Tracking.Senders.{mem, Agree}
use libre_agent.Operations.Manager.{id_at, Manager, ReaderWorker, WorkerFate, Publishing}
use libre_agent.Operations.Manager.Teardown.{forget_ops, destroy}
use libre_agent.Operations.Manager.Memory.{
  ByAddress, id_at-destroy, lookup-forget_ops, forget_ops-Agree, forget_ops-Asked, Asked, Tracked,
  forget-Tracked, mem-names, names,
}

-- The ids below it are taken, but for the id of a publication that is under way.
abbrev pub ceiling : Manager → ℕ
ceiling m = elim m.publishing [ none ↦ m.counter + 1 | some _ ↦ m.counter ]

abbrev pub Flies : ℕ → Option ℕ → Type 0
Flies n none = Unit {0}
Flies n (some a) = a < n

-- A worker holds addresses below the bound.
abbrev pub Holds : ℕ → ReaderWorker → Type 0
Holds n w = All (λ a. a < n) w.queue × Flies n w.in_flight

pub record IsSound (m : Manager) : Type 0 where
  pub tracked : Tracked m.heap m.tracking.by_id
  pub small : (a : ℕ) → id_at a m.heap < ceiling m
  pub beyond : (a : ℕ) → m.next_address ≤ a → id_at a m.heap ≡ 0
  pub asked : Asked (ceiling m) m.tracking
  pub agree : Agree m.tracking
  pub forgotten :
      (a : ℕ)
      → mem a m.zombies ≡ true
      → (Map.lookup (id_at a m.heap) m.tracking.by_id ≡ none) × (a < m.next_address)
  pub held :
      (r : ObjectId) (w : ReaderWorker) → Map.lookup r m.workers ≡ some w → Holds m.next_address w
  pub pending :
      (p : Publishing)
      → m.publishing ≡ some p
      → (p.id ≡ m.counter) × (0 < m.counter) × (p.fate ≡ WorkerFate.kept)

-- No entry stands under 0.
pub zero_untracked :
    (heap : ByAddress) (by_id : Map OperationId ℕ) → Tracked heap by_id → Map.lookup 0 by_id ≡ none
zero_untracked heap by_id h = elim (Option-cases (Map.lookup 0 by_id)) [
  | inl e ↦ e
  | inr (a, e) ↦ absurd (ground (arith, h 0 a))
]

-- Operations that change in place, and workers that hold no new address.
pub renew :
    (m : Manager) (heap : ByAddress) (workers : Map ObjectId ReaderWorker)
    → IsSound m
    → ((a : ℕ) → id_at a heap ≡ id_at a m.heap)
    → ((r : ObjectId) (w : ReaderWorker) → Map.lookup r workers ≡ some w → Holds m.next_address w)
    → IsSound (record m { heap = heap; workers = workers })
renew m heap workers inv same held = record {
  tracked = λ i a e. ground (arith, same a, inv.tracked i a);
  small = λ a. ground (arith, same a, inv.small a);
  beyond = λ a h. ground (arith, same a, inv.beyond a);
  asked = inv.asked;
  agree = inv.agree;
  forgotten = λ a h. (
    ap (λ i. Map.lookup i m.tracking.by_id) (same a) ∙ (inv.forgotten a h).0,
    (inv.forgotten a h).1,
  );
  held = held;
  pending = inv.pending;
}

-- Operations that are scrubbed and freed.
pub free_ops :
    (m : Manager) (ops : List ℕ)
    → IsSound m
    → IsSound (record m { tracking = forget_ops ops m.heap m.tracking; heap = destroy ops m.heap })
free_ops m ops inv = record {
  tracked = forget-Tracked ops m.heap m.tracking inv.tracked;
  small = λ a. ground (arith, id_at-destroy ops a m.heap, inv.small a);
  beyond = λ a h. ground (arith, id_at-destroy ops a m.heap, inv.beyond a);
  asked = forget_ops-Asked _ ops m.heap m.tracking inv.asked;
  agree = forget_ops-Agree ops m.heap m.tracking inv.agree;
  forgotten = λ a h. ground (
    arith,
    ap (λ i. Map.lookup i (forget_ops ops m.heap m.tracking).by_id) (id_at-destroy ops a m.heap),
    lookup-forget_ops ops m.heap (id_at a m.heap) m.tracking,
    lookup-forget_ops ops m.heap 0 m.tracking,
    zero_untracked m.heap m.tracking.by_id inv.tracked,
    inv.forgotten a,
  );
  held = inv.held;
  pending = inv.pending;
}

parked_untracked :
    (m : Manager) (b : ℕ)
    → IsSound m
    → b < m.next_address
    → (a : ℕ) → mem a (b ∷ m.zombies) ≡ true
    → (Map.lookup (id_at a m.heap) (forget_ops (b ∷ []) m.heap m.tracking).by_id ≡ none)
      × (a < m.next_address)
unfolding mem
parked_untracked m b inv low a h = elim (Bool-cases (id_at a m.heap == 0)) [
  | inl e ↦ ground (
    arith,
    inv.forgotten a,
    ==_iff b a,
    lookup-forget_ops (b ∷ []) m.heap (id_at a m.heap) m.tracking,
    ap (λ i. Map.lookup i m.tracking.by_id) ((==_iff (id_at a m.heap) 0).0 e),
    zero_untracked m.heap m.tracking.by_id inv.tracked,
  )
  | inr e ↦ ground (
    arith,
    inv.forgotten a,
    ==_iff b a,
    lookup-forget_ops (b ∷ []) m.heap (id_at a m.heap) m.tracking,
    mem-names a (b ∷ []) m.heap,
  )
]

-- An operation that is scrubbed and left to a worker that is parked.
pub park_op :
    (m : Manager) (b : ℕ)
    → IsSound m
    → b < m.next_address
    → IsSound
        (record m { tracking = forget_ops (b ∷ []) m.heap m.tracking; zombies = b ∷ m.zombies })
unfolding mem names
park_op m b inv low = record {
  tracked =
      λ i a e. ground (arith, inv.tracked i a, lookup-forget_ops (b ∷ []) m.heap i m.tracking);
  small = inv.small;
  beyond = inv.beyond;
  asked = forget_ops-Asked _ (b ∷ []) m.heap m.tracking inv.asked;
  agree = forget_ops-Agree (b ∷ []) m.heap m.tracking inv.agree;
  forgotten = λ a h. parked_untracked m b inv low a h;
  held = inv.held;
  pending = inv.pending;
}
