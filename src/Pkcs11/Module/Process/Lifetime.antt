-- ===== src/Pkcs11/Module/Process/Lifetime.antt =====
-- The threads of the process: which of them are at the agent, and what they find when they come back.
use libre_agent.Common.{
  ℕ, ◌+◌, ◌≡◌, refl, Bool, true, false, ◌||◌, Option, none, some, List, [], ◌∷◌, ◌==◌,
  if◌then◌else◌, nat_key, arith, length,
}
use libre_agent.Common.Map
use libre_agent.Pkcs11.Attribute.{Rv}
use libre_agent.Pkcs11.Objects.{ReaderState}
use libre_agent.Pkcs11.Session.{SessionState}
use mathlib.Core.Option
use libre_agent.Pkcs11.Module.Process.{
  Process, fresh_process, InitializeArgs, initialize, end_finalize, enter_guard, leave_guard,
  begin_refresh, publish_model,
}

-- The sessions whose calls are at the agent, and the refreshes that are.
pub record Threads : Type 0 where
  pub process : Process
  pub asking : List ℕ
  pub refreshing : List ℕ

abbrev is_among : ℕ → List ℕ → Bool
is_among a [] = false
is_among a (b ∷ bs) = b == a || is_among a bs

abbrev without : ℕ → List ℕ → List ℕ
without a [] = []
without a (b ∷ bs) = if b == a then bs else b ∷ without a bs

-- A thread initializes, comes to the end of C_Finalize, takes a call of a session to the agent and comes back, does
-- the same for a refresh, publishes it, or does anything else to the library under the lock.
pub data Event : Type 0 where
  initializes : Option InitializeArgs → Event
  finalizes : Event
  asks : ℕ → Event
  comes_back : ℕ → Event
  refreshes : Event
  refreshed : ℕ → Event
  publishes : ℕ → List ReaderState → Event
  works : (SessionState → SessionState) → Event

unfoldable ask : ℕ → Threads → SessionState → Threads
unfolding enter_guard
ask h t s = elim (Map.lookup h s.sessions) [
  | none ↦ t
  | some x ↦
      if x.rpc_in_flight
      then t
      else record t { process = enter_guard (some h) s t.process; asking = h ∷ t.asking }
]

unfoldable pub step : Threads → Event → Threads
unfolding ask initialize end_finalize leave_guard begin_refresh publish_model
step t (initializes args) = record t { process = (initialize args t.process).1 }
step t finalizes = record t { process = (end_finalize t.process).1 }
step t (asks h) = elim t.process.library [ none ↦ t | some s ↦ ask h t s ]
step t (comes_back h) =
    if is_among h t.asking
    then record t { process = leave_guard (some h) t.process; asking = without h t.asking }
    else t
step t refreshes = elim (begin_refresh t.process) [
  | none ↦ t
  | some (ticket, p) ↦ record t { process = p; refreshing = ticket ∷ t.refreshing }
]
step t (refreshed ticket) =
    if is_among ticket t.refreshing
    then record t { process = leave_guard none t.process; refreshing = without ticket t.refreshing }
    else t
step t (publishes ticket readers) = record t {
  process = (publish_model ticket readers t.process).1;
}
step t (works f) = record t {
  process = record t.process { library = Option.map f t.process.library };
}

-- The process after a history, newest event first.
unfoldable pub after : List Event → Threads
unfolding step
after [] = record { process = fresh_process; asking = []; refreshing = [] }
after (event ∷ past) = step (after past) event

length-without :
    (a : ℕ) (xs : List ℕ) → is_among a xs ≡ true → length xs ≡ length (without a xs) + 1
length-without a [] h = absurd (ground arith)
length-without a (b ∷ xs) h = ground (arith, length-without a xs)

unfoldable pub is_initialized : Process → Bool
is_initialized p = elim p.library [ none ↦ false | some _ ↦ true ]

-- The guards are counted, and without a library there are none.
record Counted (t : Threads) : Type 0 where
  count : t.process.rpc_in_flight ≡ length t.asking + length t.refreshing
  none_left : (is_initialized t.process || t.process.rpc_in_flight == 0) ≡ true

step-Counted : (t : Threads) (event : Event) → Counted t → Counted (step t event)
unfolding step ask initialize end_finalize leave_guard begin_refresh publish_model enter_guard
    is_initialized
step-Counted t (initializes args) v = record {
  count = ground (arith, v.count);
  none_left = ground (arith, v.none_left);
}
step-Counted t finalizes v = record {
  count = ground (arith, v.count);
  none_left = ground (arith, v.none_left);
}
step-Counted t (asks h) v = record {
  count = ground (arith, v.count);
  none_left = ground (arith, v.none_left);
}
step-Counted t (comes_back h) v = record {
  count = ground (arith, v.count, length-without h t.asking);
  none_left = ground (arith, v.none_left);
}
step-Counted t refreshes v = record {
  count = ground (arith, v.count);
  none_left = ground (arith, v.none_left);
}
step-Counted t (refreshed ticket) v = record {
  count = ground (arith, v.count, length-without ticket t.refreshing);
  none_left = ground (arith, v.none_left);
}
step-Counted t (publishes ticket readers) v = record {
  count = ground (arith, v.count);
  none_left = ground (arith, v.none_left);
}
step-Counted t (works f) v = record {
  count = ground (arith, v.count);
  none_left = ground (arith, v.none_left);
}

after-Counted : (past : List Event) → Counted (after past)
unfolding after is_initialized
after-Counted [] = record { count = refl; none_left = refl }
after-Counted (event ∷ past) = step-Counted (after past) event (after-Counted past)

unfoldable pub nobody_asks : Threads → Bool
nobody_asks t = length t.asking + length t.refreshing == 0

-- In every interleaving of the threads, with any refresh published and any work done under the lock: the library is
-- there while some call or refresh is at the agent, and a C_Finalize at the end of its wait then fails and
-- destroys nothing; once none is, it destroys the library.
pub library_outlives :
    (past : List Event)
    → ((is_initialized (after past).process || nobody_asks (after past)) ≡ true)
      × (end_finalize (after past).process ≡ (
          if nobody_asks (after past)
          then (Rv.ok, record (after past).process { library = none })
          else (Rv.function_failed, (after past).process)))
unfolding nobody_asks end_finalize
library_outlives past =
    let v = after-Counted past in
    (ground (arith, v.count, v.none_left), ground (arith, v.count, v.none_left))
