-- ===== src/Base/Sort.antt =====
-- `slices.Sort` and `sort.SliceStable` by a test `less`. The library's algorithms are not modelled:
-- any stable sort gives the list that insertion gives.
pub mod Order
pub mod Laws
use mathlib.Core.Bool.{Bool, cond}
use mathlib.Core.List.{List, [], ◌∷◌}

module _ {ℓ} {A : Type ℓ} (less : A → A → Bool) where
  unfoldable pub insert : A → List A → List A
  insert x [] = x ∷ []
  insert x (y ∷ ys) = cond (less y x) (y ∷ insert x ys) (x ∷ y ∷ ys)

  unfoldable pub sort : List A → List A
  unfolding insert
  sort [] = []
  sort (x ∷ xs) = insert x (sort xs)
