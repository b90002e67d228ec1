-- ===== src/Operations/Operation/Timeout.antt =====
-- The watchdog's verdict outranks every other.
use libre_agent.Common.{◌≡◌, true, false, Bool, arith, Option, none, some}
use libre_agent.Value.ErrorTaxonomy.{watchdog_timeout, error}
use libre_agent.Operations.Operation.{
  Operation, Verdict, timeout_verdict, Publication, unclaimed, claimed, judged, phased, stored,
}
use libre_agent.Operations.Operation.Threads.{◌⟶*◌, stay, more, Reachable, Reachable-run}
use libre_agent.Operations.Operation.Terminal.{gate_is_open, Reachable-IsSound}
use libre_agent.Operations.Operation.Outcome.{
  Outcome, outcome, ◌↝◌, same, mirrors, premise, outcome-refines,
}

-- Where the watchdog has the last word: it fired before the verdict was made, or the verdict is its own.
abbrev ruling : Publication → Option Verdict
ruling (judged v) = some v
ruling (phased v) = some v
ruling _ = none

abbrev is_mirrored : Publication → Bool
is_mirrored (stored _) = true
is_mirrored p = gate_is_open p

abbrev is_unruled : Publication → Bool
is_unruled unclaimed = true
is_unruled (claimed _) = true
is_unruled _ = false

record IsOverruled (c : Outcome) : Type 0 where
  latched : c.fired ≡ true
  ruled : (v : Verdict) → ruling c.publication ≡ some v → v ≡ timeout_verdict
  mirrored : is_mirrored c.publication ≡ true → (c.status ≡ error) × (c.code ≡ watchdog_timeout)

module _ {c : Outcome} (inv : IsOverruled c) where
  open inv use {latched, ruled, mirrored}

  step-latched : {d : Outcome} → c ↝ d → d.fired ≡ true
  step-latched same = latched
  step-latched s = ground (arith, latched)

  step-ruled :
      {d : Outcome} → c ↝ d → (v : Verdict) → ruling d.publication ≡ some v → v ≡ timeout_verdict
  step-ruled same v e = ruled v e
  step-ruled s v e = ground (arith, premise s, latched, ruled v)

  step-mirrored :
      {d : Outcome}
      → c ↝ d
      → is_mirrored d.publication ≡ true
      → (d.status ≡ error) × (d.code ≡ watchdog_timeout)
  step-mirrored same e = mirrored e
  step-mirrored (mirrors {v} h) e = ground (arith, ruled v)
  step-mirrored s e = ground (arith, premise s, mirrored)

  Step-IsOverruled : {d : Outcome} → c ↝ d → IsOverruled d
  Step-IsOverruled s = record {
    latched = step-latched s;
    ruled = step-ruled s;
    mirrored = step-mirrored s;
  }

run-IsOverruled : {o p : Operation} → IsOverruled (outcome o) → o ⟶* p → IsOverruled (outcome p)
run-IsOverruled inv stay = inv
run-IsOverruled inv (more run s) = Step-IsOverruled (run-IsOverruled inv run) (outcome-refines s)

-- Once the watchdog has fired while no verdict is made yet, the operation can end in no other way than as
-- a timeout, whichever thread comes first to `finish` and whatever it brings.
pub timeout_outranks :
    {o p : Operation}
    → Reachable o
    → o.watchdog_fired ≡ true
    → is_unruled o.publication ≡ true
    → o ⟶* p
    → p.state.completed ≡ true
    → (p.state.terminal_status ≡ error) × (p.state.terminal_error_code ≡ watchdog_timeout)
unfolding outcome
timeout_outranks {o} {p} r fired open_yet run h =
    (run-IsOverruled {o = o} {p = p}
        (record { latched = fired; ruled = λ v e. ground arith; mirrored = λ e. ground arith })
        run).mirrored
      (ground (arith, (Reachable-IsSound (Reachable-run r run)).gate))
