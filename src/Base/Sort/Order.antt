-- ===== src/Base/Sort/Order.antt =====
-- What a sort asks of its test, and when a list is in order.
use mathlib.Core.Path.{◌≡◌}
use mathlib.Core.Bool.{Bool, true, false}
use mathlib.Core.List.{List, [], ◌∷◌}
use tunnet_lite.Base.Lists.{All}

-- A strict weak order.
pub record IsWeak {ℓ} {A : Type ℓ} (less : A → A → Bool) : Type ℓ where
  pub asym : (a b : A) → less a b ≡ true → less b a ≡ false
  pub trans : (a b c : A) → less b a ≡ false → less c b ≡ false → less c a ≡ false

-- A strict total order.
pub record IsTotal {ℓ} {A : Type ℓ} (less : A → A → Bool) : Type ℓ where
  pub weak : IsWeak less
  pub tight : (a b : A) → less a b ≡ false → less b a ≡ false → a ≡ b

-- No later element is less than an earlier one.
abbrev pub IsSorted {ℓ} : {A : Type ℓ} → (A → A → Bool) → List A → Type 0
IsSorted less [] = Unit
IsSorted less (x ∷ xs) = All (λ y. less y x ≡ false) xs × IsSorted less xs
