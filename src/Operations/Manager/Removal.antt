-- ===== src/Operations/Manager/Removal.antt =====
-- What freeing operations does to the invariant.
use libre_agent.Common.{
  ℕ, ◌≡◌, ◌<◌, refl, Bool, true, false, ◌&&◌, Option, none, some, List, [], ◌∷◌, ◌==◌, inl, inr,
  arith, ap, sym, subst, on_if, on_option, ◌∙◌, Bool-cases, Option-cases, nat_key, text_key, ==_iff,
}
use libre_agent.Common.Map
use libre_agent.Common.Map.{Map}
use libre_agent.Identity.{ObjectId}
use libre_agent.Operations.Operation.{quiesce, request_cancel}
use libre_agent.Operations.Tracking.{Tracking, forget_op_by_id}
use libre_agent.Operations.Tracking.Senders.{mem}
use libre_agent.Operations.Manager.{ReaderWorker, Manager, id_at}
use libre_agent.Operations.Manager.Teardown.{
  forget_ops, remove_cards, destroy, drain, settle_in_flight, abandon_or_join, orphan, is_busy,
  remove_reader, without, zombie_returns, aged_out, sweep_finished,
}
use libre_agent.Operations.Manager.Memory.{ByAddress, id_at-erase, id_at-remove_cards}
use libre_agent.Operations.Manager.Steps.{Held-erase, proceed-IsSound, hand_over}
use libre_agent.Operations.Manager.Invariant.{
  IsSound, Flies, Holds, renew, free_ops, park_op, zero_untracked,
}

-- The reader of a publication that is under way.
abbrev pub publishes_at : ObjectId → Manager → Bool
publishes_at reader m = elim m.publishing [ none ↦ false | some p ↦ p.reader == reader ]

-- A scrub reads the ids on the heap and nothing else.
forget_ops-cong :
    (ops : List ℕ) (x y : ByAddress) (t : Tracking)
    → ((a : ℕ) → id_at a x ≡ id_at a y)
    → forget_ops ops x t ≡ forget_ops ops y t
unfolding forget_ops
forget_ops-cong [] x y t same = refl
forget_ops-cong (a ∷ ops) x y t same =
    ap (λ i. forget_ops ops x (forget_op_by_id i t)) (same a) ∙ forget_ops-cong ops x y _ same

drain-IsSound : (doomed : List ℕ) (m : Manager) → IsSound m → IsSound (drain doomed m)
unfolding drain
drain-IsSound doomed m inv =
    subst (λ t. IsSound (record m { heap = destroy doomed gone; tracking = t }))
      (forget_ops-cong doomed gone m.heap m.tracking same)
      (free_ops (record m { heap = gone }) doomed (renew m gone m.workers inv same inv.held))
  where
    gone : ByAddress
    gone = remove_cards doomed m.heap

    same : (a : ℕ) → id_at a gone ≡ id_at a m.heap
    same a = id_at-remove_cards doomed a m.heap

pub sweep-IsSound : (grace now : ℕ) (m : Manager) → IsSound m → IsSound (sweep_finished grace now m)
unfolding sweep_finished
sweep-IsSound grace now m inv = hand_over _ _ (free_ops m (aged_out grace now m.finished).0 inv)

mem-without : (a b : ℕ) (ids : List ℕ) → mem b (without a ids) ≡ true → mem b ids ≡ true
unfolding mem without
mem-without a b [] h = h
mem-without a b (c ∷ ids) h = ground (arith, mem-without a b ids)

left_untracked :
    (a b : ℕ) (m : Manager)
    → IsSound m
    → mem b m.zombies ≡ true
    → Map.lookup (id_at b (Map.erase a m.heap)) m.tracking.by_id ≡ none
left_untracked a b m inv h = elim (Bool-cases (a == b)) [
  | inl e ↦
      ap (λ i. Map.lookup i m.tracking.by_id) (ground (arith, id_at-erase a b m.heap))
      ∙ zero_untracked m.heap m.tracking.by_id inv.tracked
  | inr e ↦
      ap (λ i. Map.lookup i m.tracking.by_id) (ground (arith, id_at-erase a b m.heap))
      ∙ (inv.forgotten b h).0
]

pub zombie-IsSound :
    (a : ℕ) (m : Manager) → mem a m.zombies ≡ true → IsSound m → IsSound (zombie_returns a m)
unfolding zombie_returns
zombie-IsSound a m parked inv = record {
  tracked = λ i b e. ground (
    arith,
    inv.tracked i b,
    inv.forgotten a,
    ==_iff a b,
    id_at-erase a b m.heap,
    ap (λ j. Map.lookup j m.tracking.by_id) {x = id_at a m.heap} {y = i},
  );
  small = λ b. ground (arith, inv.small b, id_at-erase a b m.heap);
  beyond = λ b h. ground (arith, inv.beyond b, id_at-erase a b m.heap);
  asked = inv.asked;
  agree = inv.agree;
  forgotten = λ b h. (
    left_untracked a b m inv (mem-without a b m.zombies h),
    (inv.forgotten b (mem-without a b m.zombies h)).1,
  );
  held = inv.held;
  pending = inv.pending;
}

settle-IsSound :
    (wedged : Bool) (now a : ℕ) (m : Manager)
    → a < m.next_address
    → IsSound m
    → IsSound (settle_in_flight wedged now a m)
unfolding settle_in_flight
settle-IsSound wedged now a m low inv =
    on_if IsSound wedged _ _ (λ _. park_op m a inv low)
      (λ _. hand_over _ _ (proceed-IsSound quiesce a m inv))

flying_below : (n a : ℕ) (o : Option ℕ) → o ≡ some a → Flies n o → a < n
flying_below n a none e h = absurd (ground arith)
flying_below n a (some b) e h = ground arith

abandon-IsSound :
    (wedged : Bool) (now : ℕ) (w : ReaderWorker) (m : Manager)
    → Holds m.next_address w
    → IsSound m
    → IsSound (abandon_or_join wedged now w m)
unfolding abandon_or_join
abandon-IsSound wedged now w m holds_w inv =
    on_option IsSound w.in_flight _ _ (λ _. drain-IsSound w.queue m inv)
      (λ a e.
        settle-IsSound wedged now a _ (flying_below _ a _ e holds_w.1)
          (drain-IsSound w.queue _ (proceed-IsSound request_cancel a m inv)))

orphan_elsewhere :
    (reader : ObjectId) (wedged : Bool) (m : Manager)
    → publishes_at reader m ≡ false
    → orphan reader wedged m.publishing ≡ m.publishing
unfolding orphan
orphan_elsewhere reader wedged m h = elim (Option-cases m.publishing) [
  | inl e ↦ ground arith
  | inr (p, e) ↦ ground arith
]

pub remove-IsSound :
    (reader : ObjectId) (wedged : Bool) (now : ℕ) (m : Manager)
    → publishes_at reader m ≡ false
    → IsSound m
    → IsSound (remove_reader reader wedged now m)
unfolding remove_reader
remove-IsSound reader wedged now m elsewhere inv =
    on_option IsSound (Map.lookup reader m.workers) _ _ (λ _. inv)
      (λ w e. abandon-IsSound wedged now w _ (inv.held reader w e) (
        subst (λ p. IsSound (record m { workers = Map.erase reader m.workers; publishing = p }))
          (sym (orphan_elsewhere reader (wedged && is_busy w) m elsewhere))
          (renew m m.heap _ inv (λ a. refl) (Held-erase _ reader m.workers inv.held))))
