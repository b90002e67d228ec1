-- ===== src/Operations/PromptSerializer/Gates.antt =====
-- What each operation of the serializer does to the gate of a card, and when a gate lets a thread on.
use libre_agent.Common.{
  ℕ, ◌≡◌, refl, true, false, not, ◌&&◌, List, [], ◌∷◌, ◌++◌, String, inl, inr, arith, if◌then◌else◌,
  Bool-cases, Option-cases, text_key, length,
}
use libre_agent.Common.Map
use libre_agent.Operations.PromptSerializer.{
  Gate, new_gate, Serializer, gate_of, enqueue, is_first, at_head, slot_free, may_wake, tail,
  remove_ticket, is_idle_gate, surrender, take_slot, release,
}
use text.Mathlib.Text.{◌==◌ as text_eq}
use text.Mathlib.TextEquality.{eq_iff}

pub gate_of-enqueue :
    (key c : String) (p : Serializer)
    → gate_of c (enqueue key p) ≡ (
        if text_eq key c
        then record (gate_of c p) { waiters = (gate_of c p).waiters ++ (p.next_ticket ∷ []) }
        else gate_of c p)
unfolding gate_of enqueue
gate_of-enqueue key c p = ground (
  arith,
  eq_iff key c,
  Map.lookup-insert key c
      (record (gate_of key p) { waiters = (gate_of key p).waiters ++ (p.next_ticket ∷ []) })
      p.gates,
)

pub gate_of-take_slot :
    (key c : String) (p : Serializer)
    → gate_of c (take_slot key p) ≡ (
        if text_eq key c
        then record { waiters = tail (gate_of c p).waiters; held = true }
        else gate_of c p)
unfolding gate_of take_slot
gate_of-take_slot key c p = ground (
  arith,
  eq_iff key c,
  Map.lookup-insert key c (record { waiters = tail (gate_of key p).waiters; held = true }) p.gates,
)

pub idle_new : (g : Gate) → is_idle_gate g ≡ true → g ≡ new_gate
idle_new g h = ground arith

pub gate_of-surrender :
    (key c : String) (t : ℕ) (p : Serializer)
    → gate_of c (surrender key t p) ≡ (
        if text_eq key c
        then record (gate_of c p) { waiters = remove_ticket t (gate_of c p).waiters }
        else gate_of c p)
unfolding gate_of surrender remove_ticket
gate_of-surrender key c t p = elim (Option-cases (Map.lookup key p.gates)) [
  | inl e ↦ ground (arith, eq_iff key c)
  | inr (g, e) ↦
      elim (Bool-cases (is_idle_gate (record g { waiters = remove_ticket t g.waiters }))) [
        | inl idle ↦ ground (arith, eq_iff key c, Map.lookup-erase key c p.gates, idle_new _ idle)
        | inr busy ↦ ground (
          arith,
          eq_iff key c,
          Map.lookup-insert key c (record g { waiters = remove_ticket t g.waiters }) p.gates,
        )
      ]
]

pub gate_of-release :
    (key c : String) (p : Serializer)
    → gate_of c (release key p)
      ≡ (if text_eq key c then record (gate_of c p) { held = false } else gate_of c p)
unfolding gate_of release
gate_of-release key c p = elim (Option-cases (Map.lookup key p.gates)) [
  | inl e ↦ ground (arith, eq_iff key c)
  | inr (g, e) ↦ elim (Bool-cases (is_idle_gate (record g { held = false }))) [
    | inl idle ↦ ground (
      arith,
      eq_iff key c,
      Map.lookup-erase key c p.gates,
      idle_new (record g { held = false }) idle,
    )
    | inr busy ↦
        ground (arith, eq_iff key c, Map.lookup-insert key c (record g { held = false }) p.gates)
  ]
]

-- The predicate of a thread that is not cancelled, over its card's gate.
pub may_wake-gate :
    (key : String) (t : ℕ) (p : Serializer)
    → may_wake false key t p ≡ (not (gate_of key p).held && is_first t (gate_of key p).waiters)
unfolding may_wake slot_free at_head gate_of is_first
may_wake-gate key t p = ground arith

pub first_removed : (t : ℕ) (ts : List ℕ) → is_first t ts ≡ true → tail ts ≡ remove_ticket t ts
unfolding is_first remove_ticket
first_removed t [] h = absurd (ground arith)
first_removed t (u ∷ ts) h = ground arith

pub no_tickets : (ts : List ℕ) → length ts ≡ 0 → ts ≡ []
no_tickets [] h = refl
no_tickets (t ∷ ts) h = absurd (omega arith)

pub first_inv : (t : ℕ) (ts : List ℕ) → is_first t ts ≡ true → (rest : List ℕ) × (ts ≡ t ∷ rest)
unfolding is_first
first_inv t [] h = absurd (ground arith)
first_inv t (u ∷ ts) h = (ts, ground arith)
