-- ===== src/Base/Tests.antt =====
-- Boolean tests on the native numbers, and the conditional.
use Prim.Native.Nat.{ℕ, compare, Ordering}
use mathlib.Core.Path.{◌≡◌, refl, subst}
use mathlib.Core.Logic.{◌↔◌, ◌⊎◌, inl, inr}
use mathlib.Core.Bool.{Bool, true, false}
use mathlib.Core.Option.{Option, none, some}
use native.Mathlib.Omega.{arith}

-- These compute to `compare`, which `ground` and `grind` read with no lemma listed.
abbrev pub ltb : ℕ → ℕ → Bool
ltb a b = elim (compare a b) [ Ordering.lt ↦ true | _ ↦ false ]

infix 50 ◌==◌
abbrev pub ◌==◌ : ℕ → ℕ → Bool
a == b = elim (compare a b) [ Ordering.eq ↦ true | _ ↦ false ]

infix 1 if◌then◌else◌
abbrev pub if◌then◌else◌ {ℓ} : {A : Type ℓ} → Bool → A → A → A
if true then x else y = x
if false then x else y = y

pub ==_iff : (a b : ℕ) → ((a == b) ≡ true) ↔ (a ≡ b)
==_iff a b = ground arith

-- To split on a computed value and keep the equation.
pub Bool-cases : (b : Bool) → (b ≡ true) ⊎ (b ≡ false)
Bool-cases true = inl refl
Bool-cases false = inr refl

pub Option-cases {ℓ} : {A : Type ℓ} (o : Option A) → (o ≡ none) ⊎ ((a : A) × (o ≡ some a))
Option-cases none = inl refl
Option-cases (some a) = inr (a, refl)

-- A conditional with a panic or a disabled step on one side, that came to a result.
module _ {ℓ} {A : Type ℓ} where
  pub then_some :
      (b : Bool) (o : Option A) (d : A)
      → (if b then o else none) ≡ some d
      → (b ≡ true) × (o ≡ some d)
  then_some true o d e = (refl, e)
  then_some false o d e = cc

  pub else_some :
      (b : Bool) (o : Option A) (d : A)
      → (if b then none else o) ≡ some d
      → (b ≡ false) × (o ≡ some d)
  else_some true o d e = cc
  else_some false o d e = (refl, e)

  -- What holds of the result holds of it under its other name.
  pub of_some {κ} : (P : A → Type κ) (x u : A) → some x ≡ some u → P x → P u
  of_some P x u e h = let same : x ≡ u = cc in subst P same h
