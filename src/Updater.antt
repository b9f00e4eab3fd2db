-- ===== src/Updater.antt =====
-- internal/updater/updater.go, over a session. What the `select` of the loop meets is a sequence of
-- events, and each call of `OnUpdate` is kept, in order.
pub mod Laws
use tunnet_lite.Base.{
  ℕ, Bool, true, false, not, ◌||◌, List, [], ◌∷◌, Option, some, Result, ok, err, if◌then◌else◌,
}
use tunnet_lite.Base.Int
use tunnet_lite.Base.Int.{ℤ, pos}
use tunnet_lite.Inventory.{Inventory}
use tunnet_lite.Inventory.Diff.{Changes, compare, empty}
use tunnet_lite.Control.Exec.{Env, State}
use tunnet_lite.Control.Session.{Paths, RefreshOptions, refresh}

-- `Updater`: whether it has a session and a callback, and the interval.
pub record Updater : Type 0 where
  pub has_session : Bool
  pub interval : ℤ
  pub has_callback : Bool

-- What the `select` meets: the end of the context or a tick.
pub data Event : Type 0 where
  done : Event
  tick : Event

-- A call of `OnUpdate`
abbrev pub Report : Type 0
Report = Inventory × Changes

abbrev pub no_options : RefreshOptions
no_options = record { auto_approve = false; verification_url = "" }

-- The reports after a refresh that found `next` where `current` was known.
unfoldable pub report : Updater → Option Inventory → Inventory → List Report → List Report
report u current next rest =
    let changes = compare current (some next) in
    if empty changes then rest else if u.has_callback then (next, changes) ∷ rest else rest

-- `ended` is `ctx.Err() != nil`.
module _ (E : Env) (ended : E.World → Bool) (p : Paths) (u : Updater) where
  -- The loop of `Run`.
  unfoldable pub watch : List Event → Option Inventory → State E.World → List Report × State E.World
  watch [] current s = ([], s)
  watch (done ∷ events) current s = ([], s)
  watch (tick ∷ events) current s =
      let (r, t) = refresh E p no_options s in
      elim r [
        | err e ↦ if ended t.world then ([], t) else watch events current t
        | ok next ↦ let (rest, v) = watch events (some next) t in (report u current next rest, v)
      ]

  -- `Run`
  unfoldable pub run : List Event → Option Inventory → State E.World → List Report × State E.World
  run events current s =
      if not u.has_session || not (Int.ltb (pos 0) u.interval)
      then ([], s)
      else watch events current s
