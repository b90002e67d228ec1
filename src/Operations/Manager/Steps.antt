-- ===== src/Operations/Manager/Steps.antt =====
-- What each operation of the manager does to the invariant.
use libre_agent.Common.{
  ℕ, ◌≡◌, refl, Bool, true, some, List, [], ◌∷◌, ◌==◌, inl, inr, arith, ap, sym, subst, on_option,
  ◌∙◌, Bool-cases, Option-cases, nat_key, text_key,
}
use libre_agent.Common.Map
use libre_agent.Common.Map.{Map}
use libre_agent.Identity.{CallerToken, ObjectId}
use libre_agent.Operations.Operation.{Operation, quiesce, request_cancel}
use libre_agent.Operations.Tracking.{OperationId, take_ops_of}
use libre_agent.Operations.Tracking.Senders.{take_ops_of-Agree}
use libre_agent.Operations.Manager.{
  ReaderWorker, FinishedRecord, Manager, worker_for, set_worker, id_at, apply_at, turn, worker_turn,
  worker_done, invalidate_reader_session, set_reader_hold, cancel,
}
use libre_agent.Operations.Manager.Teardown.{cancel_all, dispatch_client_disconnect}
use libre_agent.Operations.Manager.Memory.{id_at-apply_at, take_ops_of-Asked, take_ops_of-by_id}
use libre_agent.Operations.Manager.Invariant.{IsSound, Holds, renew}

abbrev pub Held : ℕ → Map ObjectId ReaderWorker → Type 0
Held n workers = (r : ObjectId) (w : ReaderWorker) → Map.lookup r workers ≡ some w → Holds n w

pub Held-insert :
    (n : ℕ) (reader : ObjectId) (v : ReaderWorker) (workers : Map ObjectId ReaderWorker)
    → Held n workers
    → Holds n v
    → Held n (Map.insert reader v workers)
Held-insert n reader v workers h k r w e = elim (Bool-cases (reader == r)) [
  | inl same ↦
      subst (Holds n) {x = v} {y = w} (ground (arith, e, Map.lookup-insert reader r v workers)) k
  | inr other ↦ h r w (ground (arith, Map.lookup-insert reader r v workers))
]

pub Held-erase :
    (n : ℕ) (reader : ObjectId) (workers : Map ObjectId ReaderWorker)
    → Held n workers
    → Held n (Map.erase reader workers)
Held-erase n reader workers h r w e = h r w (ground (arith, Map.lookup-erase reader r workers))

pub worker_for-Holds :
    (reader : ObjectId) (m : Manager) → IsSound m → Holds m.next_address (worker_for reader m)
unfolding worker_for
worker_for-Holds reader m inv =
    on_option (Holds m.next_address) (Map.lookup reader m.workers) _ _ (λ e. (tt, tt))
      (λ w e. inv.held reader w e)

turn-Holds : (n : ℕ) (ready : Bool) (w : ReaderWorker) → Holds n w → Holds n (turn ready w)
unfolding turn
turn-Holds n ready w h = ground arith

pub worker_turn-IsSound :
    (reader : ObjectId) (ready : Bool) (m : Manager)
    → IsSound m
    → IsSound (worker_turn reader ready m)
unfolding worker_turn set_worker
worker_turn-IsSound reader ready m inv =
    on_option IsSound (Map.lookup reader m.workers) _ _ (λ _. inv)
      (λ w e.
        on_option IsSound w.in_flight _ _
          (λ _.
            renew m m.heap _ inv (λ a. refl)
              (Held-insert _ reader _ m.workers inv.held
                (turn-Holds _ ready w (inv.held reader w e))))
          (λ _ _. inv))

-- A list of finished operations does not matter to the invariant.
pub hand_over :
    (m : Manager) (finished : List FinishedRecord)
    → IsSound m
    → IsSound (record m { finished = finished })
hand_over m finished inv = record {
  tracked = inv.tracked;
  small = inv.small;
  beyond = inv.beyond;
  asked = inv.asked;
  agree = inv.agree;
  forgotten = inv.forgotten;
  held = inv.held;
  pending = inv.pending;
}

pub worker_done-IsSound :
    (reader : ObjectId) (now : ℕ) (m : Manager) → IsSound m → IsSound (worker_done reader now m)
unfolding worker_done set_worker
worker_done-IsSound reader now m inv =
    on_option IsSound (Map.lookup reader m.workers) _ _ (λ _. inv)
      (λ w e.
        on_option IsSound w.in_flight _ _ (λ _. inv)
          (λ a _. hand_over _ _ (
            renew m _ _ inv (λ b. id_at-apply_at quiesce a b m.heap)
              (Held-insert _ reader _ m.workers inv.held ((inv.held reader w e).0, tt)))))

pub proceed-IsSound :
    (f : Operation → Operation) (a : ℕ) (m : Manager)
    → IsSound m
    → IsSound (record m { heap = apply_at f a m.heap })
proceed-IsSound f a m inv = renew m _ m.workers inv (λ b. id_at-apply_at f a b m.heap) inv.held

pub Held-modify :
    (n : ℕ) (reader : ObjectId) (f : ReaderWorker → ReaderWorker)
    (workers : Map ObjectId ReaderWorker)
    → ((w : ReaderWorker) → Holds n w → Holds n (f w))
    → Held n workers
    → Held n (Map.modify reader f workers)
Held-modify n reader f workers keep h r w e = elim (Option-cases (Map.lookup r workers)) [
  | inl missing ↦ absurd (ground (arith, e, missing, Map.lookup-modify reader r f workers))
  | inr (v, there) ↦ elim (Bool-cases (reader == r)) [
    | inl same ↦
        subst (Holds n) {x = f v} {y = w}
          (ground (arith, e, there, Map.lookup-modify reader r f workers)) (keep v (h r v there))
    | inr other ↦ h r w (ground (arith, e, Map.lookup-modify reader r f workers))
  ]
]

pub cancel-IsSound : (id : OperationId) (m : Manager) → IsSound m → IsSound (cancel id m)
unfolding cancel
cancel-IsSound id m inv =
    on_option IsSound (Map.lookup id m.tracking.by_id) _ _ (λ _. inv)
      (λ a _. proceed-IsSound request_cancel a m inv)

cancel_all-IsSound : (ids : List OperationId) (m : Manager) → IsSound m → IsSound (cancel_all ids m)
unfolding cancel_all
cancel_all-IsSound [] m inv = inv
cancel_all-IsSound (id ∷ ids) m inv = cancel_all-IsSound ids _ (cancel-IsSound id m inv)

pub disconnect-IsSound :
    (client : CallerToken) (m : Manager) → IsSound m → IsSound (dispatch_client_disconnect client m)
unfolding dispatch_client_disconnect
disconnect-IsSound client m inv =
    cancel_all-IsSound (take_ops_of client m.tracking).0
      (record m { tracking = (take_ops_of client m.tracking).1 })
      (record {
        tracked = λ i a e.
            inv.tracked i a
              (ap (λ b. Map.lookup i b) (sym (take_ops_of-by_id client m.tracking)) ∙ e);
        small = inv.small;
        beyond = inv.beyond;
        asked = take_ops_of-Asked _ client m.tracking inv.asked;
        agree = take_ops_of-Agree client m.tracking inv.agree;
        forgotten = λ a h. (
          ap (λ b. Map.lookup (id_at a m.heap) b) (take_ops_of-by_id client m.tracking)
              ∙ (inv.forgotten a h).0,
          (inv.forgotten a h).1,
        );
        held = inv.held;
        pending = inv.pending;
      })

pub invalidate-IsSound :
    (reader : ObjectId) (m : Manager) → IsSound m → IsSound (invalidate_reader_session reader m)
unfolding invalidate_reader_session
invalidate-IsSound reader m inv =
    renew m m.heap _ inv (λ a. refl)
      (Held-modify _ reader (λ w. record w { pending_invalidate = true }) m.workers (λ w h. h)
        inv.held)

pub hold-IsSound :
    (reader : ObjectId) (hold : Bool) (m : Manager)
    → IsSound m
    → IsSound (set_reader_hold reader hold m)
unfolding set_reader_hold
hold-IsSound reader hold m inv =
    renew m m.heap _ inv (λ a. refl)
      (Held-modify _ reader (λ w. record w { hold = hold; hold_dirty = true }) m.workers (λ w h. h)
        inv.held)
