-- ===== src/Base/First.antt =====
-- The first element that passes a test: the specification of a loop that returns at a match.
use mathlib.Core.Path.{◌≡◌, refl, ap}
use mathlib.Core.Logic.{◌↔◌, inl, inr}
use mathlib.Core.Bool.{Bool, true, false, cond}
use mathlib.Core.Option.{Option, none, some}
use mathlib.Core.List.{List, [], ◌∷◌, ◌++◌}
use native.Mathlib.Omega.{arith}
use tunnet_lite.Base.Tests.{Bool-cases}
use tunnet_lite.Base.Lists.{All}

-- `x` passes, and everything that stands before it in `xs` does not.
pub record IsFirst {ℓ} {A : Type ℓ} (p : A → Bool) (xs : List A) (x : A) : Type ℓ where
  pub before : List A
  pub after : List A
  pub split : xs ≡ before ++ x ∷ after
  pub passed_over : All (λ y. p y ≡ false) before
  pub passes : p x ≡ true

module _ {ℓ} {A : Type ℓ} (p : A → Bool) where
  unfoldable pub first : List A → Option A
  first [] = none
  first (x ∷ xs) = let rest = first xs in cond (p x) (some x) rest

  IsFirst-cons : (x : A) (xs : List A) (y : A) → p x ≡ false → IsFirst p xs y → IsFirst p (x ∷ xs) y
  IsFirst-cons x xs y e f = record {
    before = x ∷ f.before;
    after = f.after;
    split = ap (◌∷◌ x) f.split;
    passed_over = (e, f.passed_over);
    passes = f.passes;
  }

  pub first→IsFirst : (xs : List A) (y : A) → first xs ≡ some y → IsFirst p xs y
  unfolding first
  first→IsFirst [] y h = cc
  first→IsFirst (x ∷ xs) y h = elim (Bool-cases (p x)) [
    | inl e ↦ record {
      before = [];
      after = xs;
      split = ground arith;
      passed_over = tt;
      passes = ground arith;
    }
    | inr e ↦ IsFirst-cons x xs y e (first→IsFirst xs y (ground arith))
  ]

  first-append :
      (before : List A) (y : A) (after : List A)
      → All (λ y. p y ≡ false) before
      → p y ≡ true
      → first (before ++ y ∷ after) ≡ some y
  unfolding first
  first-append [] y after n h = ground arith
  first-append (x ∷ xs) y after n h = ground (arith, first-append xs y after)

  pub first_of_IsFirst : (xs : List A) (y : A) → IsFirst p xs y → first xs ≡ some y
  first_of_IsFirst xs y f = rw f.split (first-append f.before y f.after f.passed_over f.passes)

  pub first-eq-none : (xs : List A) → (first xs ≡ none) ↔ All (λ y. p y ≡ false) xs
  unfolding first
  first-eq-none [] = (λ _. tt, λ _. refl)
  first-eq-none (x ∷ xs) = ground (arith, first-eq-none xs)
