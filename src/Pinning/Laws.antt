-- ===== src/Pinning/Laws.antt =====
-- What the store and the callback of `Verifier` promise, whatever the disk answers.
use tunnet_lite.Base.{
  String, true, List, [], ◌∷◌, Result, ok, err, nat_eq, string_eq, ◌≡◌, ◌≢◌, ◌↔◌, ◌⊎◌, inl, inr,
  refl, sym, arith, All, >>=-eq-ok, context, context-eq-ok,
}
use tunnet_lite.Base.Dict.{Dict, lookup, lookup-insert}
use tunnet_lite.Base.Dict
use tunnet_lite.Base.Sort
use tunnet_lite.Base.Sort.{sort}
use tunnet_lite.Base.Sort.Laws.{All-sort}
use tunnet_lite.Base.Texts.{trim_space}
use tunnet_lite.Base.Texts.Order.{less}
use tunnet_lite.Pinning.{
  Store, Disk, is_pin, check_values, validate_pin_entry, validate_pins, open_contents, open_store,
  set,
}

-- A host with a name, and at least one well-formed pin for it.
abbrev pub IsEntry : String → List String → Type 0
IsEntry host values = (trim_space host ≢ "") × (values ≢ []) × All (λ v. is_pin v ≡ true) values

check_values_iff :
    (host : String) (vs : List String)
    → (check_values host vs ≡ ok tt) ↔ All (λ v. is_pin v ≡ true) vs
unfolding check_values
check_values_iff host [] = (λ _. tt, λ _. refl)
check_values_iff host (v ∷ vs) = ground (arith, check_values_iff host vs)

pub validate_pin_entry_iff :
    (host : String) (values : List String)
    → (validate_pin_entry host values ≡ ok tt) ↔ IsEntry host values
unfolding validate_pin_entry
validate_pin_entry_iff host values = ground (arith, check_values_iff host values)

abbrev pub IsPins : Dict (List String) → Type 0
IsPins d = All (λ e. IsEntry e.0 e.1) d

validate_pins_iff : (d : Dict (List String)) → (validate_pins d ≡ ok tt) ↔ IsPins d
unfolding validate_pins
validate_pins_iff [] = (λ _. tt, λ _. refl)
validate_pins_iff ((host, values) ∷ rest) =
    ground (arith, validate_pin_entry_iff host values, validate_pins_iff rest)

IsPins-insert :
    (host : String) (values : List String) (d : Dict (List String))
    → IsEntry host values
    → IsPins d
    → IsPins (Dict.insert host values d)
unfolding Dict.insert
IsPins-insert host values [] e h = (e, tt)
IsPins-insert host values ((j, w) ∷ d) e h = ground (arith, IsPins-insert host values d)

sort_nonempty : (values : List String) → values ≢ [] → sort less values ≢ []
unfolding sort Sort.insert
sort_nonempty [] h = absurd (h refl)
sort_nonempty (v ∷ vs) h = insert_nonempty (sort less vs)
  where
    insert_nonempty : (l : List String) → Sort.insert less v l ≢ []
    insert_nonempty [] e = cc
    insert_nonempty (x ∷ xs) e = ground arith

IsEntry-sort :
    (host : String) (values : List String) → IsEntry host values → IsEntry host (sort less values)
IsEntry-sort host values e =
    (e.0, sort_nonempty values e.1, All-sort less (λ v. is_pin v ≡ true) values e.2)

module _ (D : Disk) where
  open_contents-IsPins :
      (path : String) (r : Result String) (s : Store)
      → open_contents D path r ≡ ok s
      → (s.path ≡ path) × IsPins s.pins
  unfolding open_contents
  open_contents-IsPins path (err e) s h = ground arith
  open_contents-IsPins path (ok text) s h =
      let (pins, d, k) = >>=-eq-ok (context _ _ (D.decode_pins text)) _ h in
      let (u, v, l) = >>=-eq-ok (context _ _ (validate_pins pins)) _ k in
      opened pins (context-eq-ok _ _ (validate_pins pins) v) l
    where
      pure_store : Dict (List String) → Result Store
      pure_store pins = ok (record { path = path; pins = pins })

      opened :
          (pins : Dict (List String))
          → validate_pins pins ≡ ok tt
          → pure_store pins ≡ ok s
          → (s.path ≡ path) × IsPins s.pins
      opened pins v l =
          let e : record { path = path; pins = pins } ≡ s = cc in
          rw (sym e) (refl, (validate_pins_iff pins).0 v)

  -- A store that `Open` returns has the path it was opened at, and each of its entries is for a named
  -- host and holds at least one pin, all well-formed.
  pub open_store-IsPins :
      (path : String) (w : D.World) (s : Store)
      → open_store D path w ≡ ok s
      → (s.path ≡ path) × IsPins s.pins
  unfolding open_store
  open_store-IsPins path w s h = ground (arith, open_contents-IsPins path (D.read_file path w) s)

  -- What `Set` leaves, as an outcome: the entry is stored, sorted, or nothing has changed.
  pub set-outcome :
      (s : Store) (host : String) (values : List String) (w : D.World)
      → let (r, t, v) = set D s host values w in
        ((r ≡ ok tt)
          × IsEntry host values
          × (t ≡ record s { pins = Dict.insert host (sort less values) s.pins }))
        ⊎ ((r ≢ ok tt) × (t ≡ s))
  unfolding set
  set-outcome s host values w = ground (arith, validate_pin_entry_iff host values)

  -- `Set`, whether it returns or fails, leaves a store of well-formed entries in that form.
  pub set-IsPins :
      (s : Store) (host : String) (values : List String) (w : D.World)
      → IsPins s.pins
      → IsPins ((set D s host values w).1).pins
  set-IsPins s host values w h = elim (set-outcome s host values w) [
    | inl (e, i, t) ↦ rw t (IsPins-insert host _ s.pins (IsEntry-sort host values i) h)
    | inr (e, t) ↦ rw t h
  ]
