-- ===== src/Common/Map.antt =====
-- `std::map` as an association list in the order of its keys.
use libre_agent.Common.Tests.{if◌then◌else◌, Key, Bool-cases}
use mathlib.Core.Bool.{Bool}
use mathlib.Core.List.{List, [], ◌∷◌}
use mathlib.Core.Logic.{inl, inr}
use mathlib.Core.Option
use mathlib.Core.Option.{Option, none, some}
use mathlib.Core.Path.{◌≡◌, refl, ap}
use native.Mathlib.Omega.{arith}

abbrev pub Map {ℓ κ} : Type ℓ → Type κ → Type (ℓ ⊔ κ)
Map K V = List (K × V)

module _ {ℓ κ} {K : Type ℓ} {V : Type κ} ⦃k : Key K⦄ where
  -- `find`: the value of a key.
  unfoldable pub lookup : K → Map K V → Option V
  lookup a [] = none
  lookup a ((b, v) ∷ m) = if k.beq b a then some v else lookup a m

  -- `erase_if` by a test on the entry.
  unfoldable pub erase_if : (K → V → Bool) → Map K V → Map K V
  erase_if p [] = []
  erase_if p ((b, w) ∷ m) = if p b w then erase_if p m else (b, w) ∷ erase_if p m

  unfoldable pub erase : K → Map K V → Map K V
  unfolding erase_if
  erase a = erase_if (λ b w. k.beq b a)

  -- `it = m.find(a); if (it != m.end()) it->second = f(it->second)`
  unfoldable pub modify : K → (V → V) → Map K V → Map K V
  modify a f [] = []
  modify a f ((b, w) ∷ m) = if k.beq b a then (b, f w) ∷ m else (b, w) ∷ modify a f m

  -- A new key stands before the first key that follows it.
  unfoldable pub place : K → V → Map K V → Map K V
  place a v [] = (a, v) ∷ []
  place a v ((b, w) ∷ m) =
      let rest = place a v m in if k.before a b then (a, v) ∷ (b, w) ∷ m else (b, w) ∷ rest

  -- `m[a] = v`: the value of a key that is there is replaced.
  unfoldable pub insert : K → V → Map K V → Map K V
  insert a v m = elim (lookup a m) [ none ↦ place a v m | some _ ↦ modify a (λ _. v) m ]

  pub lookup-place :
      (a c : K) (v : V) (m : Map K V)
      → lookup a m ≡ none
      → lookup c (place a v m) ≡ (if k.beq a c then some v else lookup c m)
  unfolding lookup place
  lookup-place a c v [] h = refl
  lookup-place a c v ((b, w) ∷ m) h =
      ground (arith, k.beq_iff b a, k.beq_iff b c, k.beq_iff a c, lookup-place a c v m)

  pub lookup-modify :
      (a c : K) (f : V → V) (m : Map K V)
      → lookup c (modify a f m) ≡ (if k.beq a c then Option.map f (lookup c m) else lookup c m)
  unfolding lookup modify
  lookup-modify a c f [] = ground arith
  lookup-modify a c f ((b, w) ∷ m) =
      ground (arith, k.beq_iff b a, k.beq_iff b c, k.beq_iff a c, lookup-modify a c f m)

  pub lookup-insert :
      (a c : K) (v : V) (m : Map K V)
      → lookup c (insert a v m) ≡ (if k.beq a c then some v else lookup c m)
  unfolding insert
  lookup-insert a c v m =
      ground (arith, k.beq_iff a c, lookup-place a c v m, lookup-modify a c (λ _. v) m)

  pub lookup-erase :
      (a c : K) (m : Map K V) → lookup c (erase a m) ≡ (if k.beq a c then none else lookup c m)
  unfolding lookup erase
  lookup-erase a c [] = ground arith
  lookup-erase a c ((b, w) ∷ m) =
      ground (arith, k.beq_iff b a, k.beq_iff b c, k.beq_iff a c, lookup-erase a c m)

  -- A removal by a test on the key alone.
  pub lookup-erase_if :
      (p : K → Bool) (c : K) (m : Map K V)
      → lookup c (erase_if (λ b w. p b) m) ≡ (if p c then none else lookup c m)
  unfolding lookup erase_if
  lookup-erase_if p c [] = ground arith
  lookup-erase_if p c ((b, w) ∷ m) = elim (Bool-cases (k.beq b c)) [
    | inl e ↦ ground (arith, ap p ((k.beq_iff b c).0 e), lookup-erase_if p c m)
    | inr e ↦ ground (arith, lookup-erase_if p c m)
  ]

-- All of the above at once, for runs at concrete maps.
unfoldable pub running : Unit {0}
unfolding lookup place insert erase_if erase modify
running = tt
