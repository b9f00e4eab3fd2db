-- ===== src/Inventory/Select/Laws.antt =====
-- What is selected, and that nothing panics on an inventory that passed `validate`.
use tunnet_lite.Base.{
  ℕ, zero, suc, ◌<◌, String, Bool, true, ◌||◌, List, [], ◌∷◌, Option, none, some, length, get_elem?,
  contains, Result, ok, err, Error, errorf, ◌==◌, nat_eq, string_eq, if◌then◌else◌, ◌≡◌, ◌≢◌, ◌↔◌,
  refl, arith, ==_refl,
}
use tunnet_lite.Base.Texts.{has_substring}
use tunnet_lite.Inventory.Types.{EntryGroup, Host, Inventory}
use tunnet_lite.Inventory.Check.Laws.{IsUsable}
use tunnet_lite.Inventory.Select.{
  select_host_from, select_host, equal_fold, select_group_from, select_group, select_root,
}
use tunnet_lite.Base.First.{IsFirst, first, first→IsFirst, first_of_IsFirst}

-- The host that a slug asks for: the one of this name, or any online host if it is empty.
abbrev pub is_wanted : String → Host → Bool
is_wanted slug h = if slug == "" then h.online else h.slug == slug

abbrev missing_host : String → Error
missing_host slug =
    if slug == ""
    then errorf "no online host in inventory" []
    else errorf "no host with slug %q" (slug ∷ [])

abbrev or_error : {A : Type 0} → Error → Option A → Result A
or_error e none = err e
or_error e (some a) = ok a

select_host_from-first :
    (slug : String) (hs : List Host)
    → select_host_from slug hs ≡ or_error (missing_host slug) (first (is_wanted slug) hs)
unfolding select_host_from first
select_host_from-first slug [] = ground arith
select_host_from-first slug (h ∷ hs) = ground (arith, select_host_from-first slug hs)

or_error-eq-ok :
    {A : Type 0} (e : Error) (o : Option A) (a : A) → (or_error e o ≡ ok a) ↔ (o ≡ some a)
or_error-eq-ok e none a = (λ h. cc, λ h. cc)
or_error-eq-ok e (some b) a = ground arith

-- `select_host` returns exactly the first host with the given slug, or, for an empty slug, the
-- first host that is online.
pub select_host_iff :
    (inv : Inventory) (slug : String) (h : Host)
    → (select_host inv slug ≡ ok h) ↔ IsFirst (is_wanted slug) inv.hosts h
unfolding select_host
select_host_iff inv slug h = (
  λ e. first→IsFirst _ inv.hosts h ((or_error-eq-ok _ _ h).0 (rw select_host_from-first at e)),
  λ f. rw select_host_from-first ((or_error-eq-ok _ _ h).1 (first_of_IsFirst _ inv.hosts h f)),
)

module _ (fold : ℕ → ℕ) where
  -- The group that a name asks for: one whose name is the same but for case, or contains it.
  abbrev pub is_matching : String → EntryGroup → Bool
  is_matching name g = equal_fold fold g.name name || has_substring g.name name

  select_group_from-first :
      (name : String) (gs : List EntryGroup)
      → select_group_from fold name gs
        ≡ or_error (errorf "no entry group matching %q" (name ∷ [])) (first (is_matching name) gs)
  unfolding select_group_from first
  select_group_from-first name [] = refl
  select_group_from-first name (g ∷ gs) = ground (arith, select_group_from-first name gs)

  -- For a name that is not empty, `select_group` returns exactly the first group that matches it.
  pub select_group_iff :
      (inv : Inventory) (name : String) (g : EntryGroup)
      → name ≢ ""
      → (select_group fold inv name ≡ some (ok g)) ↔ IsFirst (is_matching name) inv.entry_groups g
  unfolding select_group
  select_group_iff inv name g n = ground (
    arith,
    first→IsFirst (is_matching name) inv.entry_groups g,
    first_of_IsFirst (is_matching name) inv.entry_groups g,
    or_error-eq-ok (errorf "no entry group matching %q" (name ∷ []))
        (first (is_matching name) inv.entry_groups) g,
    select_group_from-first name inv.entry_groups,
  )

  -- On a usable inventory `select_group` does not panic.
  pub select_group-ne-none :
      (inv : Inventory) (name : String) → IsUsable inv → select_group fold inv name ≢ none
  unfolding select_group
  select_group-ne-none inv name u h = ground (arith, u.entry_groups)

contains-get_elem? :
    (xs : List String) (i : ℕ) (x : String) → get_elem? xs i ≡ some x → contains xs x ≡ true
contains-get_elem? [] i x h = cc
contains-get_elem? (y ∷ ys) zero x h = ground arith
contains-get_elem? (y ∷ ys) (suc i) x h = ground (arith, contains-get_elem? ys i x h)

get_elem?-ne-none : (xs : List String) (i : ℕ) → i < length xs → get_elem? xs i ≢ none
get_elem?-ne-none [] i h = elim h [ ]
get_elem?-ne-none (y ∷ ys) zero h = λ e. cc
get_elem?-ne-none (y ∷ ys) (suc i) h = get_elem?-ne-none ys i (omega arith)

length-pos : (xs : List String) → xs ≢ [] → 0 < length xs
length-pos [] h = absurd (h refl)
length-pos (x ∷ xs) h = omega arith

-- On a usable inventory `select_root` does not panic, if a number drawn below n is below n.
pub select_root-ne-none :
    (draw : ℕ → ℕ) (inv : Inventory) (pinned cached : String)
    → ((n : ℕ) → 0 < n → draw n < n)
    → IsUsable inv
    → select_root draw inv pinned cached ≢ none
unfolding select_root
select_root-ne-none draw inv pinned cached d u =
    let pool = length-pos inv.root_domains u.root_domains in
    let there = get_elem?-ne-none inv.root_domains _ (d (length inv.root_domains) pool) in
    ground arith

-- A root that `select_root` returns is in the pool.
pub contains-select_root :
    (draw : ℕ → ℕ) (inv : Inventory) (pinned cached root : String)
    → select_root draw inv pinned cached ≡ some (ok root)
    → contains inv.root_domains root ≡ true
unfolding select_root
contains-select_root draw inv pinned cached root h =
    ground (arith, contains-get_elem? inv.root_domains (draw (length inv.root_domains)) root)

-- The choice sticks: a root that was selected with none pinned is selected again once it is cached,
-- whatever is drawn.
pub select_root_sticky :
    (draw draw' : ℕ → ℕ) (inv : Inventory) (cached root : String)
    → select_root draw inv "" cached ≡ some (ok root)
    → root ≢ ""
    → select_root draw' inv "" root ≡ some (ok root)
select_root_sticky draw draw' inv cached root h n =
    let in_pool = contains-select_root draw inv "" cached root h in
    unfold select_root in ground (arith, ==_refl {A = String} "")

-- A pinned root is the result if it is in the pool, and an error if it is not.
pub select_root_pinned :
    (draw : ℕ → ℕ) (inv : Inventory) (pinned cached : String)
    → pinned ≢ ""
    → select_root draw inv pinned cached
      ≡ some (
          if contains inv.root_domains pinned
          then ok pinned
          else err (errorf "root domain %q is not in the inventory pool" (pinned ∷ [])))
unfolding select_root
select_root_pinned draw inv pinned cached n = ground arith
