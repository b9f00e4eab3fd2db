-- ===== src/Inventory/Diff/Summary.antt =====
-- The lists of a report are in order, and what `sameAddresses` compares.
use mathlib.Core.List.{Permᴰ}
use mathlib.Core.List.Permᴰ
use tunnet_lite.Base.{
  suc, String, Bool, true, List, [], ◌∷◌, some, length, select, nat_eq, string_eq, ◌≡◌, ◌↔◌, refl,
  ap, ◌∙◌, arith,
}
use tunnet_lite.Base.Select.{select-IsSorted}
use tunnet_lite.Base.Sort.{sort}
use tunnet_lite.Base.Sort.Order.{IsSorted}
use tunnet_lite.Base.Sort.Laws.{sort-IsSorted, sort-perm, sort-eq_of_perm}
use tunnet_lite.Base.Texts.Order.{less, less-IsTotal}
use tunnet_lite.Inventory.Types.{Inventory}
use tunnet_lite.Inventory.Diff.{same_addresses, equal, compare, sorted_missing, sorted_difference}
use tunnet_lite.Inventory.Diff.Report.{report_lem}

equal_iff : (xs ys : List String) → (equal xs ys ≡ true) ↔ (xs ≡ ys)
unfolding equal
equal_iff [] [] = ground arith
equal_iff [] (y ∷ ys) = ground arith
equal_iff (x ∷ xs) [] = ground arith
equal_iff (x ∷ xs) (y ∷ ys) = ground (arith, equal_iff xs ys)

length-perm : {xs ys : List String} → Permᴰ xs ys → length xs ≡ length ys
length-perm Permᴰ.nil = refl
length-perm (Permᴰ.cons e p) = ap suc (length-perm p)
length-perm (Permᴰ.swap e f) = refl
length-perm (Permᴰ.trans p q) = length-perm p ∙ length-perm q

perm_of_sort : (a b : List String) → sort less a ≡ sort less b → Permᴰ a b
perm_of_sort a b e = Permᴰ.trans (Permᴰ.symm (sort-perm less a)) (rw (e) (sort-perm less b))

-- `same_addresses` holds exactly of lists that are rearrangements of one another.
pub same_addresses_iff : (a b : List String) → (same_addresses a b ≡ true) ↔ Permᴰ a b
same_addresses_iff a b = (
  λ h. perm_of_sort a b ((equal_iff _ _).0 (unfold same_addresses in ground arith)),
  λ p.
      unfold same_addresses in
      ground (
        arith,
        length-perm p,
        sort-eq_of_perm less less-IsTotal p,
        equal_iff (sort less a) (sort less b),
      ),
)

-- Every list of the report is in ascending order.
pub compare-IsSorted :
    (prev next : Inventory)
    → let c = compare (some prev) (some next) in
      IsSorted less c.hosts_added
      × IsSorted less c.hosts_removed
      × IsSorted less c.went_online
      × IsSorted less c.went_offline
      × IsSorted less c.keys_rotated
      × IsSorted less c.groups_added
      × IsSorted less c.groups_removed
      × IsSorted less c.pools_changed
      × IsSorted less c.roots_added
      × IsSorted less c.roots_removed
unfolding sorted_missing sorted_difference
compare-IsSorted prev next = rw report_lem (
  sorted _,
  sorted _,
  of_selected _ _,
  of_selected _ _,
  of_selected _ _,
  sorted _,
  sorted _,
  of_selected _ _,
  sorted _,
  sorted _,
)
  where
    sorted : (l : List String) → IsSorted less (sort less l)
    sorted l = sort-IsSorted less less-IsTotal.weak l

    of_selected : (p : String → Bool) (l : List String) → IsSorted less (select p (sort less l))
    of_selected p l = select-IsSorted less p (sort less l) (sorted l)
