-- ===== src/Operations/Manager/Disconnect.antt =====
-- What the disconnect of a client cancels.
use libre_agent.Common.{
  ℕ, ◌≡◌, refl, Bool, true, false, not, ◌&&◌, ◌||◌, none, some, List, [], ◌∷◌, ◌==◌, inl, inr,
  arith, ap, ◌∙◌, Bool-cases, Option-cases, nat_key, text_key, ==_iff,
}
use libre_agent.Common.Map
use libre_agent.Common.Map.{Map}
use libre_agent.Identity.{CallerToken}
use libre_agent.Operations.Operation.{request_cancel}
use libre_agent.Operations.Tracking.{OperationId, ops_of, take_ops_of}
use libre_agent.Operations.Tracking.Senders.{mem, has, sent_by, mem-take_ops_of}
use libre_agent.Operations.Manager.{id_at, apply_at, Manager, cancel}
use libre_agent.Operations.Manager.Teardown.{cancel_all, dispatch_client_disconnect}
use libre_agent.Operations.Manager.Memory.{
  ByAddress, Tracked, take_ops_of-by_id, sender-take_ops_of,
}
use libre_agent.Operations.Manager.Invariant.{IsSound, zero_untracked}
use libre_agent.Operations.Manager.History.{Event, after, undisturbed, after-IsSound}

-- Whether the operation at the address is there and cancelled.
abbrev pub cancelled_at : ℕ → ByAddress → Bool
cancelled_at a heap = elim (Map.lookup a heap) [
  | none ↦ false
  | some s ↦ s.operation.state.is_cancelled
]

abbrev pub present : ℕ → ByAddress → Bool
present a heap = elim (Map.lookup a heap) [ none ↦ false | some _ ↦ true ]

abbrev pub points_to : OperationId → ℕ → Map OperationId ℕ → Bool
points_to id a by_id = elim (Map.lookup id by_id) [ none ↦ false | some b ↦ b == a ]

unfoldable reaches : List OperationId → ℕ → Map OperationId ℕ → Bool
reaches [] a by_id = false
reaches (id ∷ ids) a by_id = points_to id a by_id || reaches ids a by_id

by_id-cancel : (id : OperationId) (m : Manager) → (cancel id m).tracking ≡ m.tracking
unfolding cancel
by_id-cancel id m = ground arith

module _ (a : ℕ) where
  present-cancel :
      (id : OperationId) (m : Manager) → present a (cancel id m).heap ≡ present a m.heap
  unfolding cancel apply_at
  present-cancel id m = elim (Option-cases (Map.lookup id m.tracking.by_id)) [
    | inl e ↦ ground arith
    | inr (b, e) ↦ ground (
      arith,
      Map.lookup-modify b a (λ s. record s { operation = request_cancel s.operation }) m.heap,
    )
  ]

  cancelled_at-cancel :
      (id : OperationId) (m : Manager)
      → cancelled_at a (cancel id m).heap
        ≡ (cancelled_at a m.heap || (present a m.heap && points_to id a m.tracking.by_id))
  unfolding cancel apply_at request_cancel
  cancelled_at-cancel id m = elim (Option-cases (Map.lookup id m.tracking.by_id)) [
    | inl e ↦ ground arith
    | inr (b, e) ↦ ground (
      arith,
      ==_iff b a,
      Map.lookup-modify b a (λ s. record s { operation = request_cancel s.operation }) m.heap,
    )
  ]

  cancelled_at-cancel_all :
      (ids : List OperationId) (m : Manager)
      → cancelled_at a (cancel_all ids m).heap
        ≡ (cancelled_at a m.heap || (present a m.heap && reaches ids a m.tracking.by_id))
  unfolding cancel_all reaches
  cancelled_at-cancel_all [] m = ground arith
  cancelled_at-cancel_all (id ∷ ids) m = ground (
    arith,
    cancelled_at-cancel_all ids (cancel id m),
    cancelled_at-cancel id m,
    present-cancel id m,
    ap (λ t. points_to id a t.by_id) (by_id-cancel id m),
    ap (λ t. reaches ids a t.by_id) (by_id-cancel id m),
  )

  points_elsewhere :
      (id : OperationId) (heap : ByAddress) (by_id : Map OperationId ℕ)
      → Tracked heap by_id
      → (id == id_at a heap) ≡ false
      → points_to id a by_id ≡ false
  points_elsewhere id heap by_id h e = elim (Option-cases (Map.lookup id by_id)) [
    | inl none_there ↦ ground arith
    | inr (b, there) ↦ ground (arith, h id b, ==_iff b a, ap (λ x. id_at x heap) {x = b} {y = a})
  ]

  -- An entry points to an operation that is present.
  pointed_present :
      (heap : ByAddress) (by_id : Map OperationId ℕ)
      → Tracked heap by_id
      → (present a heap || not (points_to (id_at a heap) a by_id)) ≡ true
  unfolding id_at
  pointed_present heap by_id h = elim (Option-cases (Map.lookup a heap)) [
    | inl gone ↦ ground (
      arith,
      zero_untracked heap by_id h,
      ap (λ i. points_to i a by_id) {x = id_at a heap} {y = 0} (ground arith),
    )
    | inr (s, there) ↦ ground arith
  ]

  -- Of the ids in a list, the one at the address is the only one that reaches it.
  reaches-own :
      (ids : List OperationId) (heap : ByAddress) (by_id : Map OperationId ℕ)
      → Tracked heap by_id
      → reaches ids a by_id ≡ (mem (id_at a heap) ids && points_to (id_at a heap) a by_id)
  unfolding reaches mem
  reaches-own [] heap by_id h = refl
  reaches-own (id ∷ ids) heap by_id h = elim (Bool-cases (id == id_at a heap)) [
    | inl e ↦ ground (
      arith,
      reaches-own ids heap by_id h,
      ap (λ i. points_to i a by_id) ((==_iff id (id_at a heap)).0 e),
    )
    | inr e ↦ ground (arith, reaches-own ids heap by_id h, points_elsewhere id heap by_id h e)
  ]

-- After a client has gone, an operation on the heap is cancelled if it was before, or if it stands in the
-- table of ids with that client as its sender; and no other is. The history has no removal in the
-- middle of a publication to the same reader, and the ids last.
pub disconnect-cancels :
    (past : List Event) (client : CallerToken) (a : ℕ)
    → undisturbed past ≡ true
    → cancelled_at a (dispatch_client_disconnect client (after past)).heap ≡ (
        cancelled_at a (after past).heap
        || (points_to (id_at a (after past).heap) a (after past).tracking.by_id
            && sent_by client (id_at a (after past).heap) (after past).tracking))
unfolding dispatch_client_disconnect
disconnect-cancels past client a calm = ground (
  arith,
  cancelled_at-cancel_all a doomed left,
  ap (λ b. reaches doomed a b) (take_ops_of-by_id client m.tracking),
  reaches-own a doomed m.heap m.tracking.by_id inv.tracked,
  mem-take_ops_of client (id_at a m.heap) m.tracking inv.agree,
  pointed_present a m.heap m.tracking.by_id inv.tracked,
)
  where
    m : Manager
    m = after past

    inv : IsSound m
    inv = after-IsSound past calm

    doomed : List OperationId
    doomed = (take_ops_of client m.tracking).0

    left : Manager
    left = record m { tracking = (take_ops_of client m.tracking).1 }

tracking-cancel_all :
    (ids : List OperationId) (m : Manager) → (cancel_all ids m).tracking ≡ m.tracking
unfolding cancel_all
tracking-cancel_all [] m = refl
tracking-cancel_all (id ∷ ids) m = tracking-cancel_all ids (cancel id m) ∙ by_id-cancel id m

-- In every history the set of a client holds the operations that have it as their sender and no other; and after the
-- disconnect of a client no operation has it.
pub disconnect-forgets :
    (past : List Event) (client : CallerToken) (id : OperationId)
    → undisturbed past ≡ true
    → (has id (ops_of client (after past).tracking) ≡ sent_by client id (after past).tracking)
      × (sent_by client id (dispatch_client_disconnect client (after past)).tracking ≡ false)
unfolding dispatch_client_disconnect
disconnect-forgets past client id calm = (
  inv.agree client id,
  ap (λ t. sent_by client id t)
        (tracking-cancel_all (take_ops_of client m.tracking).0
          (record m { tracking = (take_ops_of client m.tracking).1 }))
      ∙ ground (
        arith,
        sender-take_ops_of client id m.tracking,
        mem-take_ops_of client id m.tracking inv.agree,
      ),
)
  where
    m : Manager
    m = after past

    inv : IsSound m
    inv = after-IsSound past calm
