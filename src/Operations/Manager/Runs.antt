-- ===== src/Operations/Manager/Runs.antt =====
-- The manager at concrete histories.
use libre_agent.Common.{
  ◌≡◌, refl, true, false, ◌&&◌, ◌||◌, none, some, List, [], ◌∷◌, nat_key, text_key,
}
use libre_agent.Common.Map
use libre_agent.Operations.Operation.{Operation, request_cancel}
use libre_agent.Operations.Operation.Threads.{new_operation}
use libre_agent.Operations.Tracking.{
  ops_of, record_sender, emplace, drop_from, forget_sender, forget_op_by_id, ids_in, erase_all,
  take_ops_of,
}
use libre_agent.Operations.Tracking.Senders.{sent_by, mem}
use libre_agent.Operations.Manager.{
  Stamped, next_operation_id, worker_for, set_worker, id_at, apply_at, begin_publish, track,
  end_publish, enqueue_on_reader_worker, turn, worker_turn, worker_done, cancel,
}
use libre_agent.Operations.Manager.Teardown.{
  forget_ops, remove_cards, destroy, drain, settle_in_flight, abandon_or_join, orphan, is_busy,
  remove_reader, cancel_all, dispatch_client_disconnect,
}
use libre_agent.Operations.Manager.History.{
  Event, begins, publishes, turns, removes, step, after, is_calm, undisturbed, by_id-alive,
}
use libre_agent.Operations.Manager.Disconnect.{cancelled_at, points_to, disconnect-cancels}

unfoldable running : Unit {0}
unfolding ops_of record_sender emplace drop_from forget_sender forget_op_by_id ids_in erase_all
    take_ops_of mem next_operation_id worker_for set_worker id_at apply_at begin_publish track
    end_publish enqueue_on_reader_worker turn worker_turn worker_done cancel forget_ops remove_cards
    destroy drain settle_in_flight abandon_or_join orphan is_busy remove_reader cancel_all
    dispatch_client_disconnect step after is_calm undisturbed Map.running
running = tt

abbrev op : Operation
op = new_operation true false none 60

-- Two clients read the card in one reader, and the first read is under way.
abbrev two_reads : List Event
two_reads = turns 7 true ∷ publishes op ∷ begins 7 ":1.9" ∷ publishes op ∷ begins 7 ":1.4" ∷ []

by_id-alive_example : (s : Stamped) × (Map.lookup 1 (after two_reads).heap ≡ some s) × (s.id ≡ 2)
unfolding running
by_id-alive_example = by_id-alive two_reads 2 1 refl refl

disconnect-cancels_example :
    cancelled_at 1 (dispatch_client_disconnect ":1.9" (after two_reads)).heap ≡ (
      cancelled_at 1 (after two_reads).heap
      || (points_to (id_at 1 (after two_reads).heap) 1 (after two_reads).tracking.by_id
          && sent_by ":1.9" (id_at 1 (after two_reads).heap) (after two_reads).tracking))
unfolding running
disconnect-cancels_example = disconnect-cancels two_reads ":1.9" 1 refl

disconnect_hits :
    (cancelled_at 0 (dispatch_client_disconnect ":1.9" (after two_reads)).heap ≡ false)
    × (cancelled_at 1 (dispatch_client_disconnect ":1.9" (after two_reads)).heap ≡ true)
unfolding running request_cancel
disconnect_hits = (refl, refl)

-- A reader that goes in the middle of a publication leaves an entry without an operation.
abbrev torn : List Event
torn = publishes op ∷ removes 7 false 0 ∷ begins 7 ":1.4" ∷ []

torn_dangles :
    (Map.lookup 1 (after torn).tracking.by_id ≡ some 0) × (Map.lookup 0 (after torn).heap ≡ none)
unfolding running
torn_dangles = (refl, refl)
