-- ===== src/Operations/Operation/Progress.antt =====
-- A worker that is stuck in the middleware cannot keep its operation from finishing.
use libre_agent.Common.{◌≡◌, ◌≢◌, refl, true, arith}
use libre_agent.Operations.Operation.{
  Operation, Verdict, Publication, unclaimed, claimed, judged, phased, stored, gated, emitted,
  closed, expired, judge, enter_done, store_mirrors, open_gate, emit_finished, mark_finished, claim,
}
use libre_agent.Operations.Operation.Threads.{
  Publish, judges, enters, stores, opens, emits, marks, Watch, latches, trips, reports, publish,
  watch, Reachable, later,
}
use libre_agent.Operations.Operation.Terminal.{Reachable-IsSound}
use libre_agent.Operations.Operation.Outcome.{outcome}

-- Steps of the timer and of the publishing call alone.
infix 4 ◌⇢*◌
pub data ◌⇢*◌ : Operation → Operation → Type 0 where
  rest : {o : Operation} → o ⇢* o
  publishes : {o p q : Operation} → Publish o p → p ⇢* q → o ⇢* q
  watches : {o p q : Operation} → Watch o p → p ⇢* q → o ⇢* q

abbrev Closes : Operation → Type 0
Closes o = (p : Operation) × (o ⇢* p) × (p.publication ≡ closed)

Publish-first : {o p : Operation} → Publish o p → Closes p → Closes o
Publish-first s (q, run, e) = (q, publishes s run, e)

Watch-first : {o p : Operation} → Watch o p → Closes p → Closes o
Watch-first s (q, run, e) = (q, watches s run, e)

close_emitted : (o : Operation) → o.publication ≡ emitted → Closes o
unfolding mark_finished
close_emitted o h = Publish-first (marks h) (mark_finished o, rest, refl)

close_gated : (v : Verdict) (o : Operation) → o.publication ≡ gated v → Closes o
unfolding emit_finished
close_gated v o h = Publish-first (emits h) (close_emitted _ refl)

close_stored : (v : Verdict) (o : Operation) → o.publication ≡ stored v → Closes o
unfolding open_gate
close_stored v o h = Publish-first (opens h) (close_gated v _ refl)

close_phased : (v : Verdict) (o : Operation) → o.publication ≡ phased v → Closes o
unfolding store_mirrors
close_phased v o h = Publish-first (stores h) (close_stored v _ refl)

close_judged : (v : Verdict) (o : Operation) → o.publication ≡ judged v → Closes o
unfolding enter_done
close_judged v o h = Publish-first (enters h) (close_phased v _ refl)

close_claimed : (v : Verdict) (o : Operation) → o.publication ≡ claimed v → Closes o
unfolding judge
close_claimed v o h = Publish-first (judges h) (close_judged _ _ refl)

-- From any point on, the publication runs to its end by itself.
close_from : (o : Operation) (q : Publication) → o.publication ≡ q → q ≢ unclaimed → Closes o
close_from o unclaimed h claimed_already = absurd (claimed_already refl)
close_from o (claimed v) h _ = close_claimed v o h
close_from o (judged v) h _ = close_judged v o h
close_from o (phased v) h _ = close_phased v o h
close_from o (stored v) h _ = close_stored v o h
close_from o (gated v) h _ = close_gated v o h
close_from o emitted h _ = close_emitted o h
close_from o closed h _ = (o, rest, h)

claimed-claim : (v : Verdict) (o : Operation) → (claim v o).publication ≢ unclaimed
unfolding claim
claimed-claim v o h = ground arith

close_expired : (o : Operation) → o.timer ≡ expired → Closes o
close_expired o h = Watch-first (latches h) (
    Watch-first (trips refl) (Watch-first (reports refl) (close_from _ _ refl (claimed-claim _ _))))

Reachable-unaided : {o p : Operation} → Reachable o → o ⇢* p → Reachable p
Reachable-unaided r rest = r
Reachable-unaided r (publishes s run) = Reachable-unaided (later r (publish s)) run
Reachable-unaided r (watches s run) = Reachable-unaided (later r (watch s)) run

-- Once the budget of the watchdog has run out, the steps of the timer and of the call that publishes lead to an
-- operation that is complete and finished, without a step of the worker or of any other thread.
pub expired_finishes :
    {o : Operation}
    → Reachable o
    → o.timer ≡ expired
    → (p : Operation) × (o ⇢* p) × (p.finished ≡ true) × (p.state.completed ≡ true)
unfolding outcome
expired_finishes {o} r h =
    let (p, run, e) = close_expired o h in
    let inv = Reachable-IsSound (Reachable-unaided r run) in
    (p, run, ground (arith, inv.over), ground (arith, inv.gate))
