-- ===== src/Console/Bounds.antt =====
-- An index of the console's commands that passed the bounds check is within the list.
use tunnet_lite.Base.{
  ℕ, zero, suc, ◌-◌, ◌<◌, String, Bool, true, false, List, [], ◌∷◌, Option, none, some, length,
  get_elem?, Error, errorf, Result, ok, err, string_eq, if◌then◌else◌, ◌≡◌, ◌≢◌, refl, ap, ◌∙◌,
  arith,
}
use tunnet_lite.Base.Int.{ℤ, pos, negsuc}
use tunnet_lite.Base.Numerals.{decimal}
use tunnet_lite.Base.Texts.{atoi}
use tunnet_lite.Inventory.{Host, EntryGroup}
use tunnet_lite.Console.{off_list, numbered, slug_of, name_of}

get_elem-ne-none :
    {A : Type 0} (items : List A) (i : ℕ) → i < length items → get_elem? items i ≢ none
get_elem-ne-none [] i h k = omega (arith, h)
get_elem-ne-none (x ∷ items) zero h k = cc
get_elem-ne-none (x ∷ items) (suc i) h k = get_elem-ne-none items i (omega (arith, h)) k

-- A number that passes the bounds check has an entry in the list that it was checked against.
numbered-ne-none :
    {A : Type 0} (z : ℤ) (items : List A)
    → off_list z (length items) ≡ false
    → numbered z items ≢ none
unfolding off_list numbered
numbered-ne-none (negsuc n) items h k = ground arith
numbered-ne-none (pos zero) items h k = ground arith
numbered-ne-none (pos (suc i)) items h k =
    get_elem-ne-none items i (ground arith)
      (ap (get_elem? items) (omega arith) ∙ within _ (ground arith) k)
  where
    within :
        (b : Bool)
        → b ≡ false
        → (if b then none else get_elem? items (suc i - 1)) ≡ none
        → get_elem? items (suc i - 1) ≡ none
    within true e q = cc
    within false e q = q

pub slug_of-ne-none : (arg : String) (hosts : List Host) → slug_of arg hosts hosts ≢ none
unfolding slug_of
slug_of-ne-none arg hosts = found (atoi arg)
  where
    inside :
        (n : ℤ) (b : Bool) (q : Option Host) (e : Error)
        → (b ≡ false → q ≢ none)
        → ◌≢◌ {A = Option (Result String)}
            (if b then some (err e) else elim q as (λ _. Option (Result String)) [
              | none ↦ none
              | some host ↦ some (ok host.slug)
            ])
            none
    inside n true q e h k = cc
    inside n false none e h k = h refl refl
    inside n false (some host) e h k = cc

    found :
        (q : Option ℤ)
        → ◌≢◌ {A = Option (Result String)}
            (elim q as (λ _. Option (Result String)) [
              | none ↦ some (ok arg)
              | some n ↦
                  if off_list n (length hosts)
                  then some (err (errorf "no exit number %d; try \"exits\"" (decimal n ∷ [])))
                  else elim (numbered n hosts) as (λ _. Option (Result String)) [
                    | none ↦ none
                    | some host ↦ some (ok host.slug)
                  ]
            ])
            none
    found none k = cc
    found (some n) k = inside n _ _ _ (numbered-ne-none n hosts) k

pub name_of-ne-none : (arg : String) (groups : List EntryGroup) → name_of arg groups groups ≢ none
unfolding name_of
name_of-ne-none arg groups = found (atoi arg)
  where
    inside :
        (n : ℤ) (b : Bool) (q : Option EntryGroup) (e : Error)
        → (b ≡ false → q ≢ none)
        → ◌≢◌ {A = Option (Result String)}
            (if b then some (err e) else elim q as (λ _. Option (Result String)) [
              | none ↦ none
              | some group ↦ some (ok group.name)
            ])
            none
    inside n true q e h k = cc
    inside n false none e h k = h refl refl
    inside n false (some group) e h k = cc

    found :
        (q : Option ℤ)
        → ◌≢◌ {A = Option (Result String)}
            (elim q as (λ _. Option (Result String)) [
              | none ↦ some (ok arg)
              | some n ↦
                  if off_list n (length groups)
                  then some (err (errorf "no entry number %d; try \"entries\"" (decimal n ∷ [])))
                  else elim (numbered n groups) as (λ _. Option (Result String)) [
                    | none ↦ none
                    | some group ↦ some (ok group.name)
                  ]
            ])
            none
    found none k = cc
    found (some n) k = inside n _ _ _ (numbered-ne-none n groups) k
