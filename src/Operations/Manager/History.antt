-- ===== src/Operations/Manager/History.antt =====
-- The manager under any sequence of the steps of its threads: the event loop, the workers, the monitor of
-- the readers and the cleanup.
use libre_agent.Common.{
  ℕ, ◌+◌, ◌^◌, ◌≡◌, refl, Bool, true, not, ◌&&◌, none, some, List, [], ◌∷◌, inl, inr, arith, on_if,
  on_option, ltb, ltb→lt, if◌then◌else◌, Option-cases, nat_key, text_key,
}
use libre_agent.Common.Map
use libre_agent.Common.Map.{Map}
use libre_agent.Identity.{CallerToken, ObjectId}
use libre_agent.Operations.Operation.{Operation}
use libre_agent.Operations.Tracking.{OperationId, ops_of}
use libre_agent.Operations.Tracking.Senders.{mem}
use libre_agent.Operations.Manager.{
  Stamped, Manager, new_manager, id_at, apply_at, begin_publish, end_publish,
  enqueue_on_reader_worker, worker_turn, worker_done, invalidate_reader_session, set_reader_hold,
  cancel,
}
use libre_agent.Operations.Manager.Teardown.{
  remove_reader, zombie_returns, sweep_finished, dispatch_client_disconnect,
}
use libre_agent.Operations.Manager.Invariant.{IsSound}
use libre_agent.Operations.Manager.Steps.{
  worker_turn-IsSound, worker_done-IsSound, proceed-IsSound, invalidate-IsSound, hold-IsSound,
  cancel-IsSound, disconnect-IsSound,
}
use libre_agent.Operations.Manager.Removal.{
  publishes_at, remove-IsSound, zombie-IsSound, sweep-IsSound,
}
use libre_agent.Operations.Manager.Publish.{begin-IsSound, end-IsSound, enqueue-IsSound}

pub data Event : Type 0 where
  begins : (reader : ObjectId) (caller : CallerToken) → Event
  publishes : (op : Operation) → Event
  enqueues : (reader : ObjectId) (op : Operation) → Event
  turns : (reader : ObjectId) (ready : Bool) → Event
  completes : (reader : ObjectId) (now : ℕ) → Event
  proceeds : (address : ℕ) (next : Operation) → Event  -- a step of the operation's own threads
  invalidates : (reader : ObjectId) → Event
  holds : (reader : ObjectId) (hold : Bool) → Event
  cancels : (id : OperationId) → Event
  removes : (reader : ObjectId) (wedged : Bool) (now : ℕ) → Event
  wakes : (address : ℕ) → Event  -- a parked worker
  sweeps : (grace now : ℕ) → Event
  disconnects : (client : CallerToken) → Event

-- The event loop has one publication at a time, and only a parked worker wakes.
unfoldable pub step : Event → Manager → Manager
step (begins reader caller) m = elim m.publishing [
  | none ↦ begin_publish reader caller m
  | some _ ↦ m
]
step (publishes op) m = elim m.publishing [ none ↦ m | some p ↦ end_publish op p m ]
step (enqueues reader op) m = (enqueue_on_reader_worker reader op m).1
step (turns reader ready) m = worker_turn reader ready m
step (completes reader now) m = worker_done reader now m
step (proceeds a next) m = record m { heap = apply_at (λ _. next) a m.heap }
step (invalidates reader) m = invalidate_reader_session reader m
step (holds reader hold) m = set_reader_hold reader hold m
step (cancels id) m = cancel id m
step (removes reader wedged now) m = remove_reader reader wedged now m
step (wakes a) m = if mem a m.zombies then zombie_returns a m else m
step (sweeps grace now) m = sweep_finished grace now m
step (disconnects client) m = dispatch_client_disconnect client m

unfoldable pub after : List Event → Manager
after [] = new_manager
after (e ∷ past) = step e (after past)

-- Ids have not run out, and no reader is removed between the two halves of a publication to it.
unfoldable pub is_calm : Event → Manager → Bool
is_calm (begins reader caller) m = ltb (m.counter + 1) (2 ^ 64)
is_calm (removes reader wedged now) m = not (publishes_at reader m)
is_calm e m = true

unfoldable pub undisturbed : List Event → Bool
unfolding is_calm
undisturbed [] = true
undisturbed (e ∷ past) = is_calm e (after past) && undisturbed past

step-IsSound : (e : Event) (m : Manager) → is_calm e m ≡ true → IsSound m → IsSound (step e m)
unfolding step is_calm enqueue_on_reader_worker
step-IsSound (begins reader caller) m calm inv =
    on_option IsSound m.publishing _ _
      (λ idle. begin-IsSound reader caller m idle (ltb→lt (m.counter + 1) (2 ^ 64) calm) inv)
      (λ _ _. inv)
step-IsSound (publishes op) m calm inv =
    on_option IsSound m.publishing _ _ (λ _. inv) (λ p e. end-IsSound op p m e inv)
step-IsSound (enqueues reader op) m calm inv = enqueue-IsSound reader op m inv
step-IsSound (turns reader ready) m calm inv = worker_turn-IsSound reader ready m inv
step-IsSound (completes reader now) m calm inv = worker_done-IsSound reader now m inv
step-IsSound (proceeds a next) m calm inv = proceed-IsSound (λ _. next) a m inv
step-IsSound (invalidates reader) m calm inv = invalidate-IsSound reader m inv
step-IsSound (holds reader hold) m calm inv = hold-IsSound reader hold m inv
step-IsSound (cancels id) m calm inv = cancel-IsSound id m inv
step-IsSound (removes reader wedged now) m calm inv =
    remove-IsSound reader wedged now m (ground arith) inv
step-IsSound (wakes a) m calm inv =
    on_if IsSound (mem a m.zombies) _ _ (λ parked. zombie-IsSound a m parked inv) (λ _. inv)
step-IsSound (sweeps grace now) m calm inv = sweep-IsSound grace now m inv
step-IsSound (disconnects client) m calm inv = disconnect-IsSound client m inv

new-IsSound : IsSound new_manager
unfolding id_at mem Map.lookup ops_of
new-IsSound = record {
  tracked = λ i a e. absurd (ground arith);
  small = λ a. omega arith;
  beyond = λ a h. refl;
  asked = λ i s e. absurd (ground arith);
  agree = λ c i. refl;
  forgotten = λ a h. absurd (ground arith);
  held = λ r w e. absurd (ground arith);
  pending = λ p e. absurd (ground arith);
}

pub after-IsSound : (past : List Event) → undisturbed past ≡ true → IsSound (after past)
unfolding after undisturbed
after-IsSound [] h = new-IsSound
after-IsSound (e ∷ past) h =
    step-IsSound e (after past) (ground arith) (after-IsSound past (ground arith))

-- An entry of the table of ids always points to an operation on the heap, one with that id: nothing that is freed stays
-- reachable by its id, in any history without a removal in the middle of a publication to the same reader, while
-- the ids last.
pub by_id-alive :
    (past : List Event) (id : OperationId) (a : ℕ)
    → undisturbed past ≡ true
    → Map.lookup id (after past).tracking.by_id ≡ some a
    → (s : Stamped) × (Map.lookup a (after past).heap ≡ some s) × (s.id ≡ id)
unfolding id_at
by_id-alive past id a calm e = elim (Option-cases (Map.lookup a (after past).heap)) [
  | inl gone ↦ absurd (ground (arith, e, gone, (after-IsSound past calm).tracked id a))
  | inr (s, there) ↦ (s, there, ground (arith, e, there, (after-IsSound past calm).tracked id a))
]
