-- ===== src/Operations/Manager/Publish.antt =====
-- What a publication does to the invariant.
use libre_agent.Common.{
  ℕ, ◌+◌, ◌^◌, ◌≡◌, ◌<◌, refl, Bool, true, false, Option, none, some, [], ◌∷◌, ◌==◌, inl, inr,
  arith, sym, subst, on_if, on_option, if◌then◌else◌, Option-cases, nat_key, text_key, ==_iff,
  length, leb, ◌++◌,
}
use libre_agent.Common.Map
use libre_agent.Common.Map.{Map}
use libre_agent.Identity.{CallerToken, ObjectId}
use libre_agent.Operations.Operation.{Operation}
use libre_agent.Operations.Tracking.{OperationId, Tracking, ops_of, emplace, record_sender}
use libre_agent.Operations.Tracking.Senders.{mem, record_sender-Agree}
use libre_agent.Operations.Manager.{
  WorkerFate, Publishing, Manager, next_operation_id, worker_for, set_worker, id_at, begin_publish,
  track, end_publish, enqueue_on_reader_worker,
}
use libre_agent.Operations.Manager.Allocate.{raise, allocate}
use text.Mathlib.Text.{◌==◌ as text_eq}
use libre_agent.Operations.Manager.Memory.{id_at-insert, Asked}
use libre_agent.Operations.Manager.Steps.{Held-insert, worker_for-Holds}
use libre_agent.Operations.Manager.Invariant.{IsSound, ceiling, renew}

next_id : (c : ℕ) → c + 1 < 2 ^ 64 → next_operation_id c ≡ c + 1
unfolding next_operation_id
next_id c room = omega arith

pub begin-IsSound :
    (reader : ObjectId) (caller : CallerToken) (m : Manager)
    → m.publishing ≡ none
    → m.counter + 1 < 2 ^ 64
    → IsSound m
    → IsSound (begin_publish reader caller m)
unfolding begin_publish set_worker
begin-IsSound reader caller m idle room inv =
    on_if IsSound (leb 32 (length (worker_for reader m).queue)) _ _
      (λ _. known m.publishing (
        raise m id m.publishing inv (ground (arith, next_id m.counter room))
          (λ q e. absurd (ground arith))))
      (λ _. known _ (
        raise m id _ inv (ground (arith, next_id m.counter room))
          (λ q e. ground (arith, next_id m.counter room))))
  where
    id : OperationId
    id = next_operation_id m.counter

    known :
        (p : Option Publishing)
        → IsSound (record m { counter = id; publishing = p })
        → IsSound (record m {
          counter = id;
          workers = Map.insert reader (worker_for reader m) m.workers;
          publishing = p;
        })
    known p above =
        renew (record m { counter = id; publishing = p }) m.heap _ above (λ a. refl)
          (Held-insert _ reader (worker_for reader m) m.workers inv.held
            (worker_for-Holds reader m inv))

pub enqueue-IsSound :
    (reader : ObjectId) (op : Operation) (m : Manager)
    → IsSound m
    → IsSound (enqueue_on_reader_worker reader op m).1
unfolding enqueue_on_reader_worker set_worker
enqueue-IsSound reader op m inv =
    on_if {B = Bool × Manager} (λ x. IsSound x.1) (leb 32 (length (worker_for reader m).queue)) _ _
      (λ _.
        renew m m.heap _ inv (λ a. refl)
          (Held-insert _ reader (worker_for reader m) m.workers inv.held
            (worker_for-Holds reader m inv)))
      (λ _. allocate 0 op reader m inv (omega (arith, inv.small m.next_address)))

record_sender-IsSound :
    (id : OperationId) (caller : CallerToken) (m : Manager)
    → Map.lookup id m.tracking.op_to_sender ≡ none
    → id < ceiling m
    → IsSound m
    → IsSound (record m { tracking = record_sender id caller m.tracking })
unfolding record_sender
record_sender-IsSound id caller m fresh low inv = record {
  tracked = inv.tracked;
  small = inv.small;
  beyond = inv.beyond;
  asked = λ i s e.
      ground
        (arith, inv.asked i s, ==_iff id i, Map.lookup-insert id i caller m.tracking.op_to_sender);
  agree = record_sender-Agree id caller m.tracking fresh inv.agree;
  forgotten = inv.forgotten;
  held = inv.held;
  pending = inv.pending;
}

insert-IsSound :
    (id : OperationId) (a : ℕ) (m : Manager)
    → id_at a m.heap ≡ id
    → 0 < id
    → ((b : ℕ) → mem b m.zombies ≡ true → (id_at b m.heap == id) ≡ false)
    → IsSound m
    → IsSound
        (record m { tracking = record m.tracking { by_id = Map.insert id a m.tracking.by_id } })
unfolding ops_of
insert-IsSound id a m there valid other inv = record {
  tracked = λ i b e.
      ground (arith, inv.tracked i b, ==_iff id i, Map.lookup-insert id i a m.tracking.by_id);
  small = inv.small;
  beyond = inv.beyond;
  asked = inv.asked;
  agree = inv.agree;
  forgotten = λ b h. ground (
    arith,
    inv.forgotten b,
    other b,
    ==_iff id (id_at b m.heap),
    ==_iff (id_at b m.heap) id,
    Map.lookup-insert id (id_at b m.heap) a m.tracking.by_id,
  );
  held = inv.held;
  pending = inv.pending;
}

track-IsSound :
    (id : OperationId) (caller : CallerToken) (a : ℕ) (m : Manager)
    → Map.lookup id m.tracking.op_to_sender ≡ none
    → id < ceiling m
    → id_at a m.heap ≡ id
    → 0 < id
    → ((b : ℕ) → mem b m.zombies ≡ true → (id_at b m.heap == id) ≡ false)
    → IsSound m
    → IsSound (record m { tracking = track id caller a m.tracking })
unfolding track emplace
track-IsSound id caller a m fresh low there valid other inv =
    on_option (λ t. IsSound (record m { tracking = t })) (Map.lookup id asked_for.by_id) _ _
      (λ _. insert-IsSound id a (record m { tracking = asked_for }) there valid other recorded)
      (λ _ _. recorded)
  where
    asked_for : Tracking
    asked_for = if text_eq caller "" then m.tracking else record_sender id caller m.tracking

    recorded : IsSound (record m { tracking = asked_for })
    recorded =
        on_if (λ t. IsSound (record m { tracking = t })) (text_eq caller "") _ _ (λ _. inv)
          (λ _. record_sender-IsSound id caller m fresh low inv)

unasked : (id : OperationId) (t : Tracking) → Asked id t → Map.lookup id t.op_to_sender ≡ none
unasked id t h = elim (Option-cases (Map.lookup id t.op_to_sender)) [
  | inl e ↦ e
  | inr (s, e) ↦ absurd (omega (arith, h id s e))
]

end_kept-IsSound :
    (op : Operation) (p : Publishing) (m : Manager)
    → m.publishing ≡ some p
    → IsSound m
    → IsSound (end_publish op (record p { fate = WorkerFate.kept }) m)
unfolding end_publish set_worker
end_kept-IsSound op p m e inv =
    track-IsSound p.id p.caller m.next_address allocated
      (unasked p.id m.tracking (λ i s k. ground (arith, inv.asked i s, inv.pending p)))
      (ground (arith, inv.pending p))
      (ground (
        arith,
        id_at-insert m.next_address m.next_address (record { id = p.id; operation = op }) m.heap,
      ))
      (ground (arith, inv.pending p))
      (λ b h. ground (
        arith,
        inv.forgotten b,
        inv.small b,
        inv.pending p,
        ==_iff m.next_address b,
        id_at-insert m.next_address b (record { id = p.id; operation = op }) m.heap,
      ))
      (allocate p.id op p.reader idle
        (raise m m.counter none inv (ground arith) (λ q k. absurd (ground arith)))
        (ground (arith, inv.pending p)))
  where
    idle : Manager
    idle = record m { counter = m.counter; publishing = none }

    allocated : Manager
    allocated = record idle {
      heap = Map.insert m.next_address (record { id = p.id; operation = op }) m.heap;
      next_address = m.next_address + 1;
      workers =
          Map.insert p.reader
            (record (worker_for p.reader idle) {
              queue = (worker_for p.reader idle).queue ++ (m.next_address ∷ []);
            })
            m.workers;
    }

pub end-IsSound :
    (op : Operation) (p : Publishing) (m : Manager)
    → m.publishing ≡ some p
    → IsSound m
    → IsSound (end_publish op p m)
end-IsSound op p m e inv =
    let (_, _, fate) = inv.pending p e in
    subst (λ f. IsSound (end_publish op (record p { fate = f }) m)) (sym fate)
      (end_kept-IsSound op p m e inv)
