-- ===== src/Base/Sort/Laws.antt =====
-- A sort is an ordered rearrangement that keeps equals in their order; under a total order it
-- depends on the elements alone.
use mathlib.Core.Path.{◌≡◌, refl, ◌∙◌}
use mathlib.Core.Bool.{Bool, true, false, ◌||◌}
use mathlib.Core.List.{List, [], ◌∷◌}
use mathlib.Core.List.Permᴰ
use mathlib.Core.List.{Permᴰ}
use native.Mathlib.Omega.{arith}
use tunnet_lite.Base.Tests.{Bool-cases}
use mathlib.Core.Logic.{inl, inr}
use tunnet_lite.Base.Lists.{All, select}
use tunnet_lite.Base.Equality.{Eq, ◌==◌, contains}
use tunnet_lite.Base.Sort.Order.{IsWeak, IsTotal, IsSorted}
use tunnet_lite.Base.Sort.{insert, sort}

module _ {ℓ} {A : Type ℓ} (less : A → A → Bool) where
  All-insert : (P : A → Type 0) (x : A) (l : List A) → P x → All P l → All P (insert less x l)
  unfolding insert
  All-insert P x [] p ps = (p, tt)
  All-insert P x (y ∷ ys) p ps = ground (arith, All-insert P x ys p)

  pub All-sort : (P : A → Type 0) (l : List A) → All P l → All P (sort less l)
  unfolding sort
  All-sort P [] ps = tt
  All-sort P (x ∷ xs) ps = All-insert P x (sort less xs) ps.0 (All-sort P xs ps.1)

  insert-perm : (x : A) (l : List A) → Permᴰ (insert less x l) (x ∷ l)
  unfolding insert
  insert-perm x [] = Permᴰ.refl (x ∷ [])
  insert-perm x (y ∷ ys) = elim (Bool-cases (less y x)) [
    | inl e ↦ rw e (Permᴰ.trans (Permᴰ.cons refl (insert-perm x ys)) (Permᴰ.swap refl refl))
    | inr e ↦ rw e (Permᴰ.refl (x ∷ y ∷ ys))
  ]

  -- A sort rearranges.
  pub sort-perm : (l : List A) → Permᴰ (sort less l) l
  unfolding sort
  sort-perm [] = Permᴰ.nil
  sort-perm (x ∷ xs) = Permᴰ.trans (insert-perm x (sort less xs)) (Permᴰ.cons refl (sort-perm xs))

  insert-keeps :
      (p : A → Bool) (x : A) (l : List A)
      → ((a b : A) → p a ≡ true → p b ≡ true → less a b ≡ false)
      → select p (insert less x l) ≡ select p (x ∷ l)
  unfolding insert
  insert-keeps p x [] alike = refl
  insert-keeps p x (y ∷ ys) alike = ground (arith, insert-keeps p x ys alike, alike y x)

  -- Elements that the test does not tell apart keep their order.
  pub sort_stable :
      (p : A → Bool) (l : List A)
      → ((a b : A) → p a ≡ true → p b ≡ true → less a b ≡ false)
      → select p (sort less l) ≡ select p l
  unfolding sort
  sort_stable p [] alike = refl
  sort_stable p (x ∷ xs) alike =
      insert-keeps p x (sort less xs) alike ∙ ground (arith, sort_stable p xs alike)

  module _ (w : IsWeak less) where
    All-weaken :
        (x y : A) (l : List A)
        → less y x ≡ false
        → All (λ z. less z y ≡ false) l
        → All (λ z. less z x ≡ false) l
    All-weaken x y [] h hs = tt
    All-weaken x y (z ∷ zs) h hs = (w.trans x y z h hs.0, All-weaken x y zs h hs.1)

    insert-IsSorted : (x : A) (l : List A) → IsSorted less l → IsSorted less (insert less x l)
    unfolding insert
    insert-IsSorted x [] s = (tt, tt)
    insert-IsSorted x (y ∷ ys) s = elim (Bool-cases (less y x)) [
      | inl e ↦ rw e (All-insert _ x ys (w.asym y x e) s.0, insert-IsSorted x ys s.1)
      | inr e ↦ rw e ((e, All-weaken x y ys e s.0), s)
    ]

    -- A sort puts in order.
    pub sort-IsSorted : (l : List A) → IsSorted less (sort less l)
    unfolding sort
    sort-IsSorted [] = tt
    sort-IsSorted (x ∷ xs) = insert-IsSorted x (sort less xs) (sort-IsSorted xs)

  insert_least : (x : A) (l : List A) → All (λ y. less y x ≡ false) l → insert less x l ≡ x ∷ l
  unfolding insert
  insert_least x [] h = refl
  insert_least x (y ∷ ys) h = rw (h.0)

  -- A list in order is left as it is.
  pub sort_sorted : (l : List A) → IsSorted less l → sort less l ≡ l
  unfolding sort
  sort_sorted [] s = refl
  sort_sorted (x ∷ xs) s = rw (sort_sorted xs s.1) (insert_least x xs s.0)

  module _ (t : IsTotal less) where
    insert_comm :
        (x y : A) (l : List A) → insert less x (insert less y l) ≡ insert less y (insert less x l)
    unfolding insert
    insert_comm x y [] = ground (arith, t.weak.asym x y, t.weak.asym y x, t.tight x y)
    insert_comm x y (z ∷ zs) = ground (
      arith,
      insert_comm x y zs,
      t.weak.asym x y,
      t.weak.asym y x,
      t.tight x y,
      t.weak.trans x y z,
      t.weak.trans y x z,
      t.weak.trans x z y,
      t.weak.trans y z x,
    )

    -- Under a total order the sorted list depends on the elements alone.
    pub sort-eq_of_perm : {xs ys : List A} → Permᴰ xs ys → sort less xs ≡ sort less ys
    unfolding sort
    sort-eq_of_perm Permᴰ.nil = refl
    sort-eq_of_perm (Permᴰ.cons e p) = λ i. insert less (e i) (sort-eq_of_perm p i)
    sort-eq_of_perm (Permᴰ.swap {a = a} {b = b} {l = l} e f) =
        insert_comm a b (sort less l) ∙ λ i. insert less (f i) (insert less (e i) (sort less l))
    sort-eq_of_perm (Permᴰ.trans p q) = sort-eq_of_perm p ∙ sort-eq_of_perm q

  module _ ⦃e : Eq A⦄ where
    contains-insert :
        (x a : A) (l : List A) → contains (insert less x l) a ≡ (a == x || contains l a)
    unfolding insert
    contains-insert x a [] = refl
    contains-insert x a (y ∷ ys) = ground (arith, contains-insert x a ys)

    -- A sort keeps every element.
    pub contains-sort : (l : List A) (a : A) → contains (sort less l) a ≡ contains l a
    unfolding sort
    contains-sort [] a = refl
    contains-sort (x ∷ xs) a = contains-insert x a (sort less xs) ∙ rw (contains-sort xs a)
