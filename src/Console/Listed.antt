-- ===== src/Console/Listed.antt =====
-- The numbers that `exits` prints are the ones that `exit` takes.
use tunnet_lite.Base.{
  ℕ, zero, suc, ◌+◌, ◌-◌, String, ◌<>◌, ◌++◌, Bool, true, false, List, [], ◌∷◌, Option, none, some,
  get_elem?, length, ltb, errorf, Error, Result, ok, err, ◌==◌, string_eq, if◌then◌else◌, ◌≡◌, ◌⊎◌,
  inl, inr, refl, sym, ap, ◌∙◌, arith,
}
use mathlib.Core.Path.{subst}
use tunnet_lite.Base.Int.{ℤ, pos, negsuc}
use tunnet_lite.Base.Dict.{lookup}
use tunnet_lite.Base.Numerals.{decimal, itoa}
use tunnet_lite.Base.Texts.{atoi}
use tunnet_lite.Inventory.{Host}
use tunnet_lite.Control.Session.{Paths}
use tunnet_lite.Console.{
  World, Console, dispatch, perform, prints, say, exits, off_list, numbered, slug_of,
}
use tunnet_lite.Console.Screen.{selected, two_wide, exit_row, exit_rows}

-- The text of a row: a mark, a number in decimal, after a blank or not, a slug, and the rest.
pub record IsRow (row slug : String) (n : ℕ) : Type 0 where
  pub mark : String
  pub number : String
  pub rest : String
  pub marked : (mark ≡ "*") ⊎ (mark ≡ " ")
  pub numbered : (number ≡ itoa n) ⊎ (number ≡ " " <> itoa n)
  pub text : row ≡ mark <> (" " <> (number <> ("\t" <> (slug <> ("\t" <> rest)))))

selected_iff : (b : Bool) → (selected b ≡ "*") ⊎ (selected b ≡ " ")
selected_iff true = inl refl
selected_iff false = inr refl

two_wide_iff : (n : ℕ) → (two_wide n ≡ itoa n) ⊎ (two_wide n ≡ " " <> itoa n)
unfolding two_wide
two_wide_iff n = chosen (ltb n 10)
  where
    chosen :
        (b : Bool)
        → ((if b then " " <> itoa n else itoa n) ≡ itoa n)
          ⊎ ((if b then " " <> itoa n else itoa n) ≡ " " <> itoa n)
    chosen true = inr refl
    chosen false = inl refl

exit_row-IsRow : (chosen : String) (n : ℕ) (h : Host) → IsRow (exit_row chosen n h) h.slug n
unfolding exit_row
exit_row-IsRow chosen n h = record {
  mark = selected (h.slug == chosen);
  number = two_wide n;
  rest = h.name <> ("\t" <> ((if h.online then "online" else "offline") <> "\n"));
  marked = selected_iff (h.slug == chosen);
  numbered = two_wide_iff n;
  text = refl;
}

-- The row of a place is the one of the host that stands there.
exit_rows-get :
    (chosen : String) (m i : ℕ) (hosts : List Host) (h : Host)
    → get_elem? hosts i ≡ some h
    → get_elem? (exit_rows chosen m hosts) i ≡ some (exit_row chosen (m + i) h)
unfolding exit_rows
exit_rows-get chosen m i [] h e = cc
exit_rows-get chosen m zero (x ∷ hosts) h e =
    let k : x ≡ h = cc in
    ap some (ap (exit_row chosen m) k ∙ ap (λ n. exit_row chosen n h) (omega arith))
exit_rows-get chosen m (suc i) (x ∷ hosts) h e =
    exit_rows-get chosen (suc m) i hosts h e ∙ ap (λ n. some (exit_row chosen n h)) (omega arith)

numbered-inv :
    (z : ℤ) (hosts : List Host) (h : Host)
    → numbered z hosts ≡ some h
    → (i : ℕ) × (z ≡ pos (suc i)) × (get_elem? hosts i ≡ some h)
unfolding numbered
numbered-inv (negsuc n) hosts h e = ground arith
numbered-inv (pos zero) hosts h e = ground arith
numbered-inv (pos (suc i)) hosts h e = (i, refl, within _ e)
  where
    within :
        (b : Bool)
        → (if b then none else get_elem? hosts (suc i - 1)) ≡ some h
        → get_elem? hosts i ≡ some h
    within true k = cc
    within false k = ap (get_elem? hosts) (omega arith) ∙ k

slug_of-inv :
    (arg : String) (z : ℤ) (hosts : List Host) (slug : String)
    → atoi arg ≡ some z
    → slug_of arg hosts hosts ≡ some (ok slug)
    → (i : ℕ) × (h : Host) × (z ≡ pos (suc i)) × (get_elem? hosts i ≡ some h) × (h.slug ≡ slug)
unfolding slug_of
slug_of-inv arg z hosts slug a e =
    checked (off_list z (length hosts)) _ (numbered z hosts) refl (ap parsed (sym a) ∙ e)
  where
    checked_as : Bool → Error → Option Host → Option (Result String)
    checked_as b x q =
        if b
        then some (err x)
        else elim q as (λ _. Option (Result String)) [ none ↦ none | some h ↦ some (ok h.slug) ]

    parsed : Option ℤ → Option (Result String)
    parsed q = elim q [
      | none ↦ some (ok arg)
      | some n ↦
          checked_as (off_list n (length hosts))
            (errorf "no exit number %d; try \"exits\"" (decimal n ∷ [])) (numbered n hosts)
    ]

    checked :
        (b : Bool) (x : Error) (o : Option Host)
        → numbered z hosts ≡ o
        → checked_as b x o ≡ some (ok slug)
        → (i : ℕ) × (h : Host) × (z ≡ pos (suc i)) × (get_elem? hosts i ≡ some h) × (h.slug ≡ slug)
    checked true x o n k = cc
    checked false x none n k = cc
    checked false x (some h) n k = let (i, q, g) = numbered-inv z hosts h n in (i, h, q, g, cc)

module _ (W : World) (p : Paths) (has_session : Bool) where
  -- The command `exits` prints one row for each place: where the argument of `exit` is a number and
  -- stands for a slug, the number is above 0, and the row at this place, counted from 1, has the number
  -- and then the slug.
  pub slug_of-listed :
      (c : Console W p has_session) (arg : String) (z : ℤ) (slug : String)
      → atoi arg ≡ some z
      → slug_of arg c.inv.hosts c.inv.hosts ≡ some (ok slug)
      → (rows : List String) × (i : ℕ) × (row : String) × ((dispatch W p has_session "exits" ""
            c).1.out
          ≡ c.out ++ rows)
        × (z ≡ pos (suc i))
        × (get_elem? rows i ≡ some row)
        × IsRow row slug (suc i)
  unfolding dispatch perform lookup string_eq prints say
  slug_of-listed c arg z slug a e =
      let (i, h, q, g, s) = slug_of-inv arg z c.inv.hosts slug a e in
      (
        exits W p has_session c,
        i,
        exit_row c.opts.host_slug (suc i) h,
        refl,
        q,
        exit_rows-get c.opts.host_slug 1 i c.inv.hosts h g
            ∙ ap (λ x. some (exit_row c.opts.host_slug x h)) (omega arith),
        subst (λ t. IsRow (exit_row c.opts.host_slug (suc i) h) t (suc i)) s
            (exit_row-IsRow c.opts.host_slug (suc i) h),
      )
