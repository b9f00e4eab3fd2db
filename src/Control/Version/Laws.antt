-- ===== src/Control/Version/Laws.antt =====
-- `versionLess` is a strict weak order: the lexicographic order of the components, with zeros for
-- what is missing.
use Prim.Native.Nat.{max}
use native.Mathlib.Decide.{dec_lt}
use native.Mathlib.Nat.{zero-add, suc-add}
use tunnet_lite.Base.{
  ℕ, zero, suc, ◌+◌, ◌-◌, ◌≤◌, ◌<◌, String, true, false, List, [], ◌∷◌, Option, none, some,
  get_elem?, length, ◌≡◌, ◌↔◌, refl, sym, ap, ◌∙◌, arith, inl, inr, Bool-cases,
}
use tunnet_lite.Base.Int
use tunnet_lite.Base.Int.{ℤ, pos, ◌<ℤ◌}
use tunnet_lite.Base.Sort.Order.{IsWeak}
use tunnet_lite.Base.Texts.{split, trim_space, atoi}
use mathlib.Core.Path.{subst}
use tunnet_lite.Control.Version.{part_value, component, less_from, version_less}

-- What stands at a place of a version: the number that a part is, and 0 for a part that is no number
-- and for one that is missing.
pub data HasValue (parts : List String) (i : ℕ) : ℤ → Type 0 where
  number :
      (s : String) (v : ℤ)
      → get_elem? parts i ≡ some s
      → atoi (trim_space s) ≡ some v
      → HasValue parts i v
  other :
      (s : String)
      → get_elem? parts i ≡ some s
      → atoi (trim_space s) ≡ none
      → HasValue parts i (pos 0)
  missing : get_elem? parts i ≡ none → HasValue parts i (pos 0)

component-HasValue : (parts : List String) (i : ℕ) → HasValue parts i (component parts i)
unfolding component part_value
component-HasValue parts i = at_place (get_elem? parts i) refl
  where
    as_part :
        (s : String) (q : Option ℤ)
        → get_elem? parts i ≡ some s
        → atoi (trim_space s) ≡ q
        → HasValue parts i (elim q as (λ _. ℤ) [ none ↦ pos 0 | some v ↦ v ])
    as_part s none e h = HasValue.other s e h
    as_part s (some v) e h = HasValue.number s v e h

    at_place :
        (q : Option String)
        → get_elem? parts i ≡ q
        → HasValue parts i (elim q as (λ _. ℤ) [ none ↦ pos 0 | some s ↦ part_value s ])
    at_place none e = HasValue.missing e
    at_place (some s) e = as_part s (atoi (trim_space s)) e refl

HasValue-component :
    (parts : List String) (i : ℕ) (v : ℤ) → HasValue parts i v → component parts i ≡ v
unfolding component part_value
HasValue-component parts i _ (HasValue.number s v e h) = rw (e, component) (rw (h, part_value) refl)
HasValue-component parts i _ (HasValue.other s e h) = rw (e, component) (rw (h, part_value) refl)
HasValue-component parts i _ (HasValue.missing e) = rw (e, component) refl

-- At the first place where two versions differ, the first has the smaller number.
pub record IsBefore (xs ys : List String) : Type 0 where
  pub place : ℕ
  pub same : (j : ℕ) → j < place → (v : ℤ) × HasValue xs j v × HasValue ys j v
  pub low : ℤ
  pub high : ℤ
  pub lower : HasValue xs place low
  pub higher : HasValue ys place high
  pub smaller : low <ℤ high

component_past : (parts : List String) (i : ℕ) → length parts ≤ i → component parts i ≡ pos 0
unfolding component
component_past [] i h = refl
component_past (p ∷ ps) zero h = absurd (omega arith)
component_past (p ∷ ps) (suc i) h = component_past ps i (omega arith)

ℤ_tight : (a b : ℤ) → Int.ltb a b ≡ false → Int.ltb b a ≡ false → a ≡ b
ℤ_tight a b h k = ground arith

module _ (xs ys : List String) where
  -- Past the end of both there is nothing to compare.
  less_from-past : (n i : ℕ) → length xs ≤ i → length ys ≤ i → less_from n i xs ys ≡ false
  unfolding less_from
  less_from-past zero i h k = refl
  less_from-past (suc n) i h k = ground (
    arith,
    component_past xs i h,
    component_past ys i k,
    less_from-past n (suc i) (omega arith) (omega arith),
  )

  -- More rounds than the longer version has parts change nothing.
  less_from-extend :
      (n k i : ℕ)
      → length xs ≤ i + n
      → length ys ≤ i + n
      → less_from (n + k) i xs ys ≡ less_from n i xs ys
  unfolding less_from
  less_from-extend zero k i h l = rw zero-add (less_from-past k i (omega arith) (omega arith))
  less_from-extend (suc n) k i h l =
      rw suc-add (ground (arith, less_from-extend n k (suc i) (omega arith) (omega arith)))

  same_from :
      (i : ℕ)
      → component xs i ≡ component ys i
      → (P : ℕ → Type 0) → ((j : ℕ) → suc i ≤ j → P j → component xs j ≡ component ys j)
      → (j : ℕ) → i ≤ j
      → P j
      → component xs j ≡ component ys j
  same_from i here P later j l m = elim (dec_lt i j) [
    | yes k ↦ later j k m
    | no k ↦ let e : i ≡ j = omega arith in rw (← e) here
  ]

  abbrev FirstFrom : ℕ → Type 0
  FirstFrom i =
      (place : ℕ) × (i ≤ place)
      × ((j : ℕ) → i ≤ j → j < place → component xs j ≡ component ys j)
      × (component xs place <ℤ component ys place)

  less_from→FirstFrom : (n i : ℕ) → less_from n i xs ys ≡ true → FirstFrom i
  unfolding less_from
  less_from→FirstFrom zero i h = cc
  less_from→FirstFrom (suc n) i h = elim (Bool-cases (Int.ltb (component xs i) (component ys i))) [
    | inl e ↦ (i, omega arith, λ j l m. absurd (omega arith), Int.ltb→<ℤ (component xs i) _ e)
    | inr e ↦
        let (p, l, s, m) = less_from→FirstFrom n (suc i) (ground arith) in
        let here : component xs i ≡ component ys i = ℤ_tight _ _ e (ground arith) in
        (p, omega arith, same_from i here (λ j. j < p) s, m)
  ]

  FirstFrom→less_from :
      (n i place : ℕ)
      → i ≤ place
      → place < i + n
      → ((j : ℕ) → i ≤ j → j < place → component xs j ≡ component ys j)
      → component xs place <ℤ component ys place
      → less_from n i xs ys ≡ true
  unfolding less_from
  FirstFrom→less_from zero i place h k same smaller = absurd (omega arith)
  FirstFrom→less_from (suc n) i place h k same smaller = elim (dec_lt i place) [
    | yes l ↦
        let e = same i (omega arith) l in
        ground (
          arith,
          FirstFrom→less_from n (suc i) place l (omega arith) (λ j m o. same j (omega arith) o)
              smaller,
        )
    | no l ↦ let e : i ≡ place = omega arith in ground arith
  ]

place_bound :
    (xs ys : List String) (p : ℕ)
    → component xs p <ℤ component ys p
    → p < 0 + max (length xs) (length ys)
place_bound xs ys p h = elim (dec_lt p (max (length xs) (length ys))) [
  | yes l ↦ omega arith
  | no l ↦ ground (arith, component_past xs p (omega arith), component_past ys p (omega arith))
]

-- `version_less` holds exactly if the first version is the smaller at the first place where the two
-- differ, where a part that is missing or no number counts as 0.
pub version_less_iff :
    (a b : String) → (version_less a b ≡ true) ↔ IsBefore (split a b'.') (split b b'.')
unfolding version_less
version_less_iff a b = (
  λ h.
      let (p, l, s, m) = less_from→FirstFrom _ _ _ 0 h in
      record {
        place = p;
        same = λ j k. (
          component (split a b'.') j,
          component-HasValue _ j,
          subst (HasValue (split b b'.') j) (sym (s j (omega arith) k)) (component-HasValue _ j),
        );
        low = component (split a b'.') p;
        high = component (split b b'.') p;
        lower = component-HasValue _ p;
        higher = component-HasValue _ p;
        smaller = m;
      },
  λ v.
      let m : component (split a b'.') v.place <ℤ component (split b b'.') v.place =
        rw
          (HasValue-component _ v.place v.low v.lower, HasValue-component _ v.place v.high v.higher)
          v.smaller in
      FirstFrom→less_from _ _ _ 0 v.place (omega arith) (place_bound _ _ v.place m)
        (λ j l k.
          let (x, h, i) = v.same j k in
          HasValue-component _ j x h ∙ sym (HasValue-component _ j x i))
        m,
)

less_from_asym :
    (xs ys : List String) (n i : ℕ) → less_from n i xs ys ≡ true → less_from n i ys xs ≡ false
unfolding less_from
less_from_asym xs ys zero i h = refl
less_from_asym xs ys (suc n) i h = ground (arith, less_from_asym xs ys n (suc i))

less_from_trans :
    (xs ys zs : List String) (n i : ℕ)
    → less_from n i ys xs ≡ false
    → less_from n i zs ys ≡ false
    → less_from n i zs xs ≡ false
unfolding less_from
less_from_trans xs ys zs zero i h k = refl
less_from_trans xs ys zs (suc n) i h k = ground (arith, less_from_trans xs ys zs n (suc i))

-- The rounds do not matter, if there are enough of them.
version_less-less_from :
    (a b : String) (n : ℕ)
    → length (split a b'.') ≤ n
    → length (split b b'.') ≤ n
    → version_less a b ≡ less_from n 0 (split a b'.') (split b b'.')
unfolding version_less
version_less-less_from a b n h k =
    sym (less_from-extend xs ys m (n - m) 0 (omega arith) (omega arith))
    ∙ ap (λ (t : ℕ). less_from t 0 xs ys) (omega arith)
  where
    xs : List String
    xs = split a b'.'

    ys : List String
    ys = split b b'.'

    m : ℕ
    m = max (length xs) (length ys)

-- `version_less` is a strict weak order on all texts, malformed versions included.
pub version_less-IsWeak : IsWeak version_less
version_less-IsWeak = record {
  asym = λ a b h.
      let n = length (split a b'.') + length (split b b'.') in
      let e = version_less-less_from a b n (omega arith) (omega arith) in
      version_less-less_from b a n (omega arith) (omega arith) ∙ less_from_asym _ _ n 0 (sym e ∙ h);
  trans = λ a b c h k.
      let n = length (split a b'.') + length (split b b'.') + length (split c b'.') in
      version_less-less_from c a n (omega arith) (omega arith)
      ∙ less_from_trans _ (split b b'.') _ n 0
          (sym (version_less-less_from b a n (omega arith) (omega arith)) ∙ h)
          (sym (version_less-less_from c b n (omega arith) (omega arith)) ∙ k);
}
