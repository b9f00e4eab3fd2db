-- ===== src/Base/Select.antt =====
-- Members of what a loop selects, and of lists that are empty or in order.
use mathlib.Core.Path.{◌≡◌, refl}
use mathlib.Core.Logic.{◌↔◌}
use mathlib.Core.Bool.{Bool, true, false, ◌&&◌}
use mathlib.Core.List.{List, [], ◌∷◌}
use native.Mathlib.Omega.{arith}
use tunnet_lite.Base.Equality.{Eq, contains}
use tunnet_lite.Base.Lists.{All, select, is_empty}
use tunnet_lite.Base.Sort.Order.{IsSorted}

module _ {ℓ} {A : Type ℓ} where
  pub All-select : (P : A → Type 0) (p : A → Bool) (l : List A) → All P l → All P (select p l)
  All-select P p [] h = tt
  All-select P p (x ∷ xs) h = ground (arith, All-select P p xs h.1)

  pub select-IsSorted :
      (less : A → A → Bool) (p : A → Bool) (l : List A)
      → IsSorted less l
      → IsSorted less (select p l)
  select-IsSorted less p [] s = tt
  select-IsSorted less p (x ∷ xs) s =
      ground (arith, All-select (λ y. less y x ≡ false) p xs s.0, select-IsSorted less p xs s.1)

module _ {ℓ} {A : Type ℓ} ⦃e : Eq A⦄ where
  pub contains-select :
      (p : A → Bool) (l : List A) (a : A) → contains (select p l) a ≡ (contains l a && p a)
  contains-select p [] a = refl
  contains-select p (x ∷ xs) a = ground (arith, contains-select p xs a)

  pub is_empty_iff : (l : List A) → (is_empty l ≡ true) ↔ ((a : A) → contains l a ≡ false)
  is_empty_iff [] = (λ _ a. refl, λ _. refl)
  is_empty_iff (x ∷ xs) = (λ h. cc, λ h. ground (arith, h x))
