-- ===== src/Common/Unique.antt =====
-- Maps in which no key stands twice, as in every `std::map`.
use libre_agent.Common.Tests.{if◌then◌else◌, Key, Bool-cases}
use libre_agent.Common.Map.{Map, lookup, place, insert, erase_if, modify}
use mathlib.Core.Bool.{Bool, true, false}
use mathlib.Core.List.{[], ◌∷◌}
use mathlib.Core.Logic.{inl, inr}
use mathlib.Core.Option.{none, some}
use mathlib.Core.Path.{◌≡◌, refl, subst}
use native.Mathlib.Omega.{arith}

module _ {ℓ κ} {K : Type ℓ} {V : Type κ} ⦃k : Key K⦄ where
  -- The key does not stand in the map.
  abbrev pub Lacks : K → Map K V → Type 0
  Lacks a [] = Unit {0}
  Lacks a ((b, w) ∷ m) = (k.beq b a ≡ false) × Lacks a m

  abbrev pub Unique : Map K V → Type 0
  Unique [] = Unit {0}
  Unique ((b, w) ∷ m) = Lacks b m × Unique m

  lookup_lacking : (a : K) (m : Map K V) → Lacks a m → lookup a m ≡ none
  unfolding lookup
  lookup_lacking a [] h = refl
  lookup_lacking a ((b, w) ∷ m) h = ground (arith, lookup_lacking a m h.1)

  place-Lacks :
      (a c : K) (v : V) (m : Map K V) → k.beq a c ≡ false → Lacks c m → Lacks c (place a v m)
  unfolding place
  place-Lacks a c v [] e h = (e, tt)
  place-Lacks a c v ((b, w) ∷ m) e h = ground (arith, place-Lacks a c v m e h.1)

  Lacks-eq : (a b : K) (m : Map K V) → k.beq a b ≡ true → Lacks a m → Lacks b m
  Lacks-eq a b m e h = subst (λ c. Lacks c m) ((k.beq_iff a b).0 e) h

  pub Lacks-lookup : (a : K) (m : Map K V) → lookup a m ≡ none → Lacks a m
  unfolding lookup
  Lacks-lookup a [] h = tt
  Lacks-lookup a ((b, w) ∷ m) h = ground (arith, Lacks-lookup a m)

  erase_if-Lacks : (p : K → V → Bool) (c : K) (m : Map K V) → Lacks c m → Lacks c (erase_if p m)
  unfolding erase_if
  erase_if-Lacks p c [] h = tt
  erase_if-Lacks p c ((b, w) ∷ m) h = ground (arith, erase_if-Lacks p c m h.1)

  modify-Lacks : (a : K) (f : V → V) (c : K) (m : Map K V) → Lacks c m → Lacks c (modify a f m)
  unfolding modify
  modify-Lacks a f c [] h = tt
  modify-Lacks a f c ((b, w) ∷ m) h = ground (arith, modify-Lacks a f c m h.1)

  pub erase_if-Unique : (p : K → V → Bool) (m : Map K V) → Unique m → Unique (erase_if p m)
  unfolding erase_if
  erase_if-Unique p [] h = tt
  erase_if-Unique p ((b, w) ∷ m) h =
      ground (arith, erase_if-Unique p m h.1, erase_if-Lacks p b m h.0)

  pub modify-Unique : (a : K) (f : V → V) (m : Map K V) → Unique m → Unique (modify a f m)
  unfolding modify
  modify-Unique a f [] h = tt
  modify-Unique a f ((b, w) ∷ m) h =
      ground (arith, modify-Unique a f m h.1, modify-Lacks a f b m h.0)

  -- A removal by a test on the whole entry.
  pub lookup-erase_if_entry :
      (p : K → V → Bool) (c : K) (m : Map K V)
      → Unique m
      → lookup c (erase_if p m)
        ≡ elim (lookup c m) [ none ↦ none | some v ↦ if p c v then none else some v ]
  unfolding lookup erase_if
  lookup-erase_if_entry p c [] u = refl
  lookup-erase_if_entry p c ((b, w) ∷ m) u = elim (Bool-cases (k.beq b c)) [
    | inl e ↦ ground (
      arith,
      (k.beq_iff b c).0 e,
      lookup_lacking c (erase_if p m) (erase_if-Lacks p c m (Lacks-eq b c m e u.0)),
    )
    | inr e ↦ ground (arith, lookup-erase_if_entry p c m u.1)
  ]

  place-Unique : (a : K) (v : V) (m : Map K V) → Lacks a m → Unique m → Unique (place a v m)
  unfolding place
  place-Unique a v [] h u = (tt, tt)
  place-Unique a v ((b, w) ∷ m) h u =
      ground (arith, k.beq_iff a b, k.beq_iff b a, place-Unique a v m h.1 u.1, place-Lacks a b v m)

  pub insert-Unique : (a : K) (v : V) (m : Map K V) → Unique m → Unique (insert a v m)
  unfolding insert
  insert-Unique a v m u =
      ground (arith, Lacks-lookup a m, place-Unique a v m, modify-Unique a (λ _. v) m u)
