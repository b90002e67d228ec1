-- ===== src/Operations/Manager/Allocate.antt =====
-- Fresh ids and fresh addresses keep the invariant.
use libre_agent.Common.{
  ℕ, ◌+◌, ◌≡◌, ◌<◌, ◌≤◌, Option, none, some, List, [], ◌∷◌, arith, ap, ◌∙◌, nat_key, text_key,
  ==_iff, All, All-append, ◌++◌,
}
use libre_agent.Common.Map
use libre_agent.Common.Map.{Map}
use libre_agent.Identity.{ObjectId}
use libre_agent.Operations.Operation.{Operation}
use libre_agent.Operations.Tracking.{OperationId}
use libre_agent.Operations.Manager.{ReaderWorker, WorkerFate, Publishing, Manager, worker_for}
use libre_agent.Operations.Manager.Memory.{id_at-insert}
use libre_agent.Operations.Manager.Steps.{Held-insert, worker_for-Holds}
use libre_agent.Operations.Manager.Invariant.{IsSound, Flies, ceiling, Holds}

-- Ids go up.
pub raise :
    (m : Manager) (c : ℕ) (p : Option Publishing)
    → IsSound m
    → ceiling m ≤ ceiling (record m { counter = c; publishing = p })
    → ((q : Publishing) → p ≡ some q → (q.id ≡ c) × (0 < c) × (q.fate ≡ WorkerFate.kept))
    → IsSound (record m { counter = c; publishing = p })
raise m c p inv up pending = record {
  tracked = inv.tracked;
  small = λ a. omega (arith, inv.small a);
  beyond = inv.beyond;
  asked = λ i s e. omega (arith, inv.asked i s e);
  agree = inv.agree;
  forgotten = inv.forgotten;
  held = inv.held;
  pending = pending;
}

Holds-up : (n : ℕ) (w : ReaderWorker) → Holds n w → Holds (n + 1) w
Holds-up n w h = (All-up w.queue h.0, Flies-up w.in_flight h.1)
  where
    All-up : (q : List ℕ) → All (λ a. a < n) q → All (λ a. a < n + 1) q
    All-up [] h = tt
    All-up (a ∷ q) h = (omega (arith, h.0), All-up q h.1)

    Flies-up : (o : Option ℕ) → Flies n o → Flies (n + 1) o
    Flies-up none h = tt
    Flies-up (some a) h = omega arith

queue_grows :
    (n : ℕ) (w : ReaderWorker)
    → Holds n w
    → Holds (n + 1) (record w { queue = w.queue ++ (n ∷ []) })
queue_grows n w h =
    let up = Holds-up n w h in
    (All-append (λ a. a < n + 1) w.queue (n ∷ []) up.0 (omega arith, tt), up.1)

-- A new operation on the heap, under an id that no other has.
pub allocate :
    (id : OperationId) (op : Operation) (reader : ObjectId) (m : Manager)
    → IsSound m
    → id < ceiling m
    → IsSound (record m {
      heap = Map.insert m.next_address (record { id = id; operation = op }) m.heap;
      next_address = m.next_address + 1;
      workers =
          Map.insert reader
            (record (worker_for reader m) {
              queue = (worker_for reader m).queue ++ (m.next_address ∷ []);
            })
            m.workers;
    })
allocate id op reader m inv low = record {
  tracked = λ i a e. ground (
    arith,
    inv.tracked i a,
    inv.beyond a,
    ==_iff m.next_address a,
    id_at-insert m.next_address a (record { id = id; operation = op }) m.heap,
  );
  small = λ a. ground (
    arith,
    inv.small a,
    id_at-insert m.next_address a (record { id = id; operation = op }) m.heap,
  );
  beyond = λ a h. ground (
    arith,
    inv.beyond a,
    ==_iff m.next_address a,
    id_at-insert m.next_address a (record { id = id; operation = op }) m.heap,
  );
  asked = inv.asked;
  agree = inv.agree;
  forgotten = λ a h.
      let (none_there, below) = inv.forgotten a h in
      (
        ap (λ i. Map.lookup i m.tracking.by_id)
              (ground
                (arith, id_at-insert m.next_address a (record { id = id; operation = op }) m.heap))
            ∙ none_there,
        omega arith,
      );
  held =
      Held-insert _ reader _ m.workers (λ r w e. Holds-up _ w (inv.held r w e))
        (queue_grows _ (worker_for reader m) (worker_for-Holds reader m inv));
  pending = inv.pending;
}
