-- ===== src/Common/Values.antt =====
-- Maps all of whose values have a property.
use libre_agent.Common.Tests.{Key, Bool-cases}
use libre_agent.Common.Map.{Map, lookup, place, insert, erase_if, modify}
use mathlib.Core.Bool.{Bool}
use mathlib.Core.Logic.{inl, inr}
use mathlib.Core.Path.{◌≡◌, subst}
use mathlib.Core.List.{[], ◌∷◌}
use mathlib.Core.Option.{some}
use native.Mathlib.Omega.{arith}

module _ {ℓ κ} {K : Type ℓ} {V : Type κ} ⦃k : Key K⦄ where
  abbrev pub AllValues : (V → Type 0) → Map K V → Type 0
  AllValues P [] = Unit {0}
  AllValues P ((b, w) ∷ m) = P w × AllValues P m

  place-AllValues :
      (P : V → Type 0) (a : K) (v : V) (m : Map K V)
      → P v
      → AllValues P m
      → AllValues P (place a v m)
  unfolding place
  place-AllValues P a v [] p h = (p, tt)
  place-AllValues P a v ((b, w) ∷ m) p h = ground (arith, place-AllValues P a v m p h.1)

  modify-AllValues :
      (P : V → Type 0) (a : K) (v : V) (m : Map K V)
      → P v
      → AllValues P m
      → AllValues P (modify a (λ _. v) m)
  unfolding modify
  modify-AllValues P a v [] p h = tt
  modify-AllValues P a v ((b, w) ∷ m) p h = ground (arith, modify-AllValues P a v m p h.1)

  pub insert-AllValues :
      (P : V → Type 0) (a : K) (v : V) (m : Map K V)
      → P v
      → AllValues P m
      → AllValues P (insert a v m)
  unfolding insert
  insert-AllValues P a v m p h =
      ground (arith, place-AllValues P a v m p h, modify-AllValues P a v m p h)

  pub erase_if-AllValues :
      (P : V → Type 0) (p : K → V → Bool) (m : Map K V) → AllValues P m → AllValues P (erase_if p m)
  unfolding erase_if
  erase_if-AllValues P p [] h = tt
  erase_if-AllValues P p ((b, w) ∷ m) h = ground (arith, erase_if-AllValues P p m h.1)

  pub map-AllValues :
      (P Q : V → Type 0) (m : Map K V) → ((v : V) → P v → Q v) → AllValues P m → AllValues Q m
  map-AllValues P Q [] f h = tt
  map-AllValues P Q ((b, w) ∷ m) f h = (f w h.0, map-AllValues P Q m f h.1)

  pub lookup-AllValues :
      (P : V → Type 0) (a : K) (v : V) (m : Map K V) → AllValues P m → lookup a m ≡ some v → P v
  unfolding lookup
  lookup-AllValues P a v [] h e = absurd (ground arith)
  lookup-AllValues P a v ((b, w) ∷ m) h e = elim (Bool-cases (k.beq b a)) [
    | inl same ↦ subst P (ground arith) h.0
    | inr other ↦ lookup-AllValues P a v m h.1 (ground arith)
  ]
