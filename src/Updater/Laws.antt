-- ===== src/Updater/Laws.antt =====
-- Which updates are reported.
use tunnet_lite.Base.{
  Bool, true, false, List, [], ◌∷◌, All, Option, some, Result, ok, err, if◌then◌else◌, ◌≡◌, refl,
  Error, sym, ◌∙◌, ap, Bool-cases, inl, inr,
}
use mathlib.Core.Path.{subst}
use tunnet_lite.Inventory.{Inventory}
use tunnet_lite.Inventory.Diff.{compare, empty}
use tunnet_lite.Inventory.Check.Laws.{IsUsable}
use tunnet_lite.Control.Exec.{Env, State}
use tunnet_lite.Control.Session.{Paths, refresh}
use tunnet_lite.Control.Session.Usable.{refresh-IsUsable}
use tunnet_lite.Updater.{Updater, Event, done, tick, Report, no_options, report, watch}

module _ (E : Env) (ended : E.World → Bool) (p : Paths) (u : Updater) where
  -- The inventories that the refreshes of the loop give, in order: one for each tick whose refresh
  -- succeeds, up to the end of the context.
  pub data Fetches : List Event → State E.World → List Inventory → Type 0 where
    over : (s : State E.World) → Fetches [] s []
    cancelled : (events : List Event) (s : State E.World) → Fetches (done ∷ events) s []
    got :
        (events : List Event) (s : State E.World) (next : Inventory) (rest : List Inventory)
        → (refresh E p no_options s).0 ≡ ok next
        → Fetches events (refresh E p no_options s).1 rest
        → Fetches (tick ∷ events) s (next ∷ rest)
    failed :
        (events : List Event) (s : State E.World) (x : Error) (rest : List Inventory)
        → (refresh E p no_options s).0 ≡ err x
        → ended (refresh E p no_options s).1.world ≡ false
        → Fetches events (refresh E p no_options s).1 rest
        → Fetches (tick ∷ events) s rest
    ended_in :
        (events : List Event) (s : State E.World) (x : Error)
        → (refresh E p no_options s).0 ≡ err x
        → ended (refresh E p no_options s).1.world ≡ true
        → Fetches (tick ∷ events) s []

  -- The reports about inventories that come one after the other: where there is a callback, the
  -- changes from each to the next, but not those that are empty; without a callback none.
  pub data Tells : Option Inventory → List Inventory → List Report → Type 0 where
    over : (current : Option Inventory) → Tells current [] []
    unchanged :
        (current : Option Inventory) (next : Inventory) (rest : List Inventory) (rs : List Report)
        → empty (compare current (some next)) ≡ true
        → Tells (some next) rest rs
        → Tells current (next ∷ rest) rs
    changed :
        (current : Option Inventory) (next : Inventory) (rest : List Inventory) (rs : List Report)
        → empty (compare current (some next)) ≡ false
        → u.has_callback ≡ true
        → Tells (some next) rest rs
        → Tells current (next ∷ rest) ((next, compare current (some next)) ∷ rs)
    silent :
        (current : Option Inventory) (next : Inventory) (rest : List Inventory) (rs : List Report)
        → u.has_callback ≡ false
        → Tells (some next) rest rs
        → Tells current (next ∷ rest) rs

  report-Tells :
      (current : Option Inventory) (next : Inventory) (rest : List Inventory) (rs : List Report)
      → Tells (some next) rest rs
      → Tells current (next ∷ rest) (report u current next rs)
  unfolding report
  report-Tells current next rest rs t =
      chosen (empty (compare current (some next))) u.has_callback refl refl
    where
      chosen :
          (a b : Bool)
          → empty (compare current (some next)) ≡ a
          → u.has_callback ≡ b
          → Tells current
              (next ∷ rest)
              (if a then rs else if b then (next, compare current (some next)) ∷ rs else rs)
      chosen true b e h = Tells.unchanged current next rest rs e t
      chosen false true e h = Tells.changed current next rest rs e h t
      chosen false false e h = Tells.silent current next rest rs h t

  -- The inventories that the loop fetches, and that its reports tell of them.
  abbrev pub Watched : List Event → Option Inventory → State E.World → List Report → Type 0
  Watched events current s rs =
      (found : List Inventory) × Fetches events s found × Tells current found rs

  -- The reports of the loop are the changes from each inventory that a refresh gave to the next,
  -- beginning with the one at the start, those that are empty left out; none are made without a
  -- callback. A refresh that fails changes nothing of that, but ends the loop if the context has ended.
  pub watch-reports :
      (events : List Event) (current : Option Inventory) (s : State E.World)
      → Watched events current s (watch E ended p u events current s).0
  unfolding watch
  watch-reports [] current s = ([], Fetches.over s, Tells.over current)
  watch-reports (done ∷ events) current s = ([], Fetches.cancelled events s, Tells.over current)
  watch-reports (tick ∷ events) current s = after _ _ refl refl (λ c t. watch-reports events c t)
    where
      after :
          (r : Result Inventory) (t : State E.World)
          → (refresh E p no_options s).0 ≡ r
          → (refresh E p no_options s).1 ≡ t
          → ((c : Option Inventory) (v : State E.World)
              → Watched events c v (watch E ended p u events c v).0)
          → Watched
              (tick ∷ events)
              current
              s
              (elim r as (λ _. List Report × State E.World) [
                | err e ↦ if ended t.world then ([], t) else watch E ended p u events current t
                | ok next ↦ (
                  report u current next (watch E ended p u events (some next) t).0,
                  (watch E ended p u events (some next) t).1,
                )
              ]).0
      after (ok next) t e h ih =
          let (rest, f, k) = ih (some next) t in
          (
            next ∷ rest,
            Fetches.got events s next rest e (subst (λ v. Fetches events v rest) (sym h) f),
            report-Tells current next rest _ k,
          )
      after (err x) t e h ih = chosen (ended t.world) refl
        where
          chosen :
              (b : Bool)
              → ended t.world ≡ b
              → Watched
                  (tick ∷ events)
                  current
                  s
                  (if b then ([], t) else watch E ended p u events current t).0
          chosen true g = (
            [],
            Fetches.ended_in events s x e (ap (λ v. ended v.world) h ∙ g),
            Tells.over current,
          )
          chosen false g =
              let (rest, f, k) = ih current t in
              (
                rest,
                Fetches.failed events s x rest e (ap (λ v. ended v.world) h ∙ g)
                    (subst (λ v. Fetches events v rest) (sym h) f),
                k,
              )

  -- An inventory that can be used, with changes that are not empty.
  abbrev pub IsReport : Report → Type 0
  IsReport r = IsUsable r.0 × (empty r.1 ≡ false)

  report-IsReport :
      (current : Option Inventory) (next : Inventory) (rest : List Report)
      → IsUsable next
      → All IsReport rest
      → All IsReport (report u current next rest)
  unfolding report
  report-IsReport current next rest k h = elim (Bool-cases (empty (compare current (some next)))) [
    | inl e ↦ rw e h
    | inr e ↦ rw e (called u.has_callback e)
  ]
    where
      called :
          (b : Bool)
          → empty (compare current (some next)) ≡ false
          → All IsReport (if b then (next, compare current (some next)) ∷ rest else rest)
      called true e = ((k, e), h)
      called false e = h

  -- Every inventory that is reported is one that can be used, and differs from the one before.
  pub watch-IsReport :
      (events : List Event) (current : Option Inventory) (s : State E.World)
      → All IsReport (watch E ended p u events current s).0
  unfolding watch
  watch-IsReport [] current s = tt
  watch-IsReport (done ∷ events) current s = tt
  watch-IsReport (tick ∷ events) current s =
      let (r, t) = refresh E p no_options s in
      after r t (λ next e. refresh-IsUsable E p no_options s next e)
        (λ c. watch-IsReport events c t)
    where
      after :
          (r : Result Inventory) (t : State E.World)
          → ((next : Inventory) → r ≡ ok next → IsUsable next)
          → ((c : Option Inventory) → All IsReport (watch E ended p u events c t).0)
          → All IsReport
              (elim r as (λ _. List Report × State E.World) [
                | err e ↦ if ended t.world then ([], t) else watch E ended p u events current t
                | ok next ↦ (
                  report u current next (watch E ended p u events (some next) t).0,
                  (watch E ended p u events (some next) t).1,
                )
              ]).0
      after (ok next) t k ih = report-IsReport current next _ (k next refl) (ih (some next))
      after (err e) t k ih = elim (Bool-cases (ended t.world)) [
        | inl h ↦ rw h tt
        | inr h ↦ rw h (ih current)
      ]
