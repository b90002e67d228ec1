-- ===== src/Common/Tests.antt =====
-- Boolean tests on the native numbers, the conditional, and the interface of map keys.
use Prim.Native.Nat.{ℕ, ◌≤◌, ◌<◌, compare, Ordering}
use Prim.Native.String.{String, compare as compare_text}
use mathlib.Core.Path.{◌≡◌, refl}
use mathlib.Core.Logic.{◌↔◌, ◌⊎◌, inl, inr, ◌≢◌}
use mathlib.Core.Bool.{Bool, true, false}
use mathlib.Core.Option.{Option, none, some}
use native.Mathlib.Omega.{arith}
use text.Mathlib.Text.{◌==◌ as text_eq, is_lt}
use text.Mathlib.TextEquality.{eq_iff}

abbrev pub ltb : ℕ → ℕ → Bool
ltb a b = elim (compare a b) [ Ordering.lt ↦ true | _ ↦ false ]

abbrev pub leb : ℕ → ℕ → Bool
leb a b = elim (compare a b) [ Ordering.gt ↦ false | _ ↦ true ]

infix 50 ◌==◌
abbrev pub ◌==◌ : ℕ → ℕ → Bool
a == b = elim (compare a b) [ Ordering.eq ↦ true | _ ↦ false ]

infix 1 if◌then◌else◌
abbrev pub if◌then◌else◌ {ℓ} : {A : Type ℓ} → Bool → A → A → A
if true then x else y = x
if false then x else y = y

pub ltb→lt : (a b : ℕ) → ltb a b ≡ true → a < b
ltb→lt a b h = ground arith

pub leb→le : (a b : ℕ) → leb a b ≡ true → a ≤ b
leb→le a b h = ground arith

pub ==_iff : (a b : ℕ) → ((a == b) ≡ true) ↔ (a ≡ b)
==_iff a b = ground arith

pub Bool-cases : (b : Bool) → (b ≡ true) ⊎ (b ≡ false)
Bool-cases true = inl refl
Bool-cases false = inr refl

pub Option-cases {ℓ} : {A : Type ℓ} (o : Option A) → (o ≡ none) ⊎ ((a : A) × (o ≡ some a))
Option-cases none = inl refl
Option-cases (some a) = inr (a, refl)

-- What `std::map` asks of a key: equality and the order of iteration.
pub record Key {ℓ} (K : Type ℓ) : Type ℓ where
  pub beq : K → K → Bool
  pub before : K → K → Bool
  pub beq_iff : (a b : K) → (beq a b ≡ true) ↔ (a ≡ b)

abbrev pub nat_eq : ℕ → ℕ → Bool
nat_eq a b = a == b

abbrev pub text_before : String → String → Bool
text_before a b = is_lt (compare_text a b)

instance abbrev pub nat_key : Key ℕ
nat_key = record { beq = nat_eq; before = ltb; beq_iff = ==_iff }

instance abbrev pub text_key : Key String
text_key = record { beq = text_eq; before = text_before; beq_iff = eq_iff }

module _ {ℓ} {K : Type ℓ} ⦃k : Key K⦄ where
  pub beq_refl : (a : K) → k.beq a a ≡ true
  beq_refl a = (k.beq_iff a a).1 refl

  pub beq_ne : (a b : K) → a ≢ b → k.beq a b ≡ false
  beq_ne a b h = elim (Bool-cases (k.beq a b)) [
    | inl e ↦ absurd (h ((k.beq_iff a b).0 e))
    | inr e ↦ e
  ]

-- A property of a value that a test or an option selects: it holds of what each case gives.
pub on_if {ℓ κ} :
    {B : Type ℓ} (P : B → Type κ) (t : Bool) (x y : B)
    → (t ≡ true → P x)
    → (t ≡ false → P y)
    → P (if t then x else y)
on_if P true x y f g = f refl
on_if P false x y f g = g refl

pub on_option {ℓ κ μ} :
    {A : Type ℓ} {B : Type κ} (P : B → Type μ) (o : Option A) (x : B) (f : A → B)
    → (o ≡ none → P x)
    → ((a : A) → o ≡ some a → P (f a))
    → P (elim o [ none ↦ x | some a ↦ f a ])
on_option P none x f g h = g refl
on_option P (some a) x f g h = h a refl
