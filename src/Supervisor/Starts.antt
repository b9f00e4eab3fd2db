-- ===== src/Supervisor/Starts.antt =====
-- What `Start` leaves in the engine.
use tunnet_lite.Base.{
  ℕ, ◌<◌, String, [], Option, none, some, Error, Result, ok, err, ◌≡◌, ◌≢◌, refl, sym,
}
use mathlib.Core.Path.{subst}
use tunnet_lite.Inventory.{Inventory}
use tunnet_lite.Inventory.Check.Laws.{IsUsable}
use tunnet_lite.Engine.{Plan, Core, Engine, apply}
use tunnet_lite.Engine.Laws.{Reaches, applied, IsOutcome, IsOutcome-apply}
use tunnet_lite.Xcfg.Json.{Json}
use tunnet_lite.Supervisor.{Options, Outside, after_apply, after_resolve, resolve, start}
use tunnet_lite.Supervisor.Resolved.{resolve-IsResolved}
use tunnet_lite.Supervisor.Total.{resolve-ne-none}

-- A plan, if there is one, has entries.
abbrev pub HasEntries : Option Plan → Type 0
HasEntries none = Unit {0}
HasEntries (some plan) = plan.entries ≢ []

module _ (E : Outside) (C : Core) where
  -- A reachable engine whose plan, if it runs, has entries.
  pub record IsServing (e : Engine C) : Type 0 where
    pub reached : Reaches C e
    pub entries : HasEntries e.plan

  HasEntries-IsOutcome :
      (plan : Plan) (r : Option Error) (e : Engine C)
      → plan.entries ≢ []
      → IsOutcome C plan r e
      → HasEntries e.plan
  HasEntries-IsOutcome plan none e n o = subst HasEntries (sym o.1) n
  HasEntries-IsOutcome plan (some x) e n o = subst HasEntries (sym o.0.1) tt

  apply-IsServing :
      (plan : Plan) (config : String) (e : Engine C) (w : C.World)
      → plan.entries ≢ []
      → Reaches C e
      → IsServing (apply C plan config e w).1
  apply-IsServing plan config e w n r = record {
    reached = applied e plan config w r;
    entries =
        HasEntries-IsOutcome plan (apply C plan config e w).0 (apply C plan config e w).1 n
          (IsOutcome-apply C e plan config w r);
  }

  after_apply-IsServing :
      (plan : Plan) (v : E.World) (r : Option Error) (e : Engine C) (c : C.World)
      → IsServing e
      → IsServing (after_apply E C plan v (r, e, c)).2
  unfolding after_apply
  after_apply-IsServing plan v none e c s = s
  after_apply-IsServing plan v (some x) e c s = s

  after_resolve-IsServing :
      (r : Option (Result (Plan × Json))) (v : E.World) (e : Engine C) (c : C.World)
      → ((plan : Plan) (json : Json) → r ≡ some (ok (plan, json)) → plan.entries ≢ [])
      → IsServing e
      → IsServing (after_resolve E C r v e c).2
  unfolding after_resolve
  after_resolve-IsServing none v e c n s = s
  after_resolve-IsServing (some (err x)) v e c n s = s
  after_resolve-IsServing (some (ok (plan, json))) v e c n s =
      let (r, f, d) = apply C plan (E.encode_config json) e c in
      after_apply-IsServing plan v r f d
        (apply-IsServing plan (E.encode_config json) e c (n plan json refl) s.reached)

  -- `Start` leaves a plan with entries running, or none.
  pub start-IsServing :
      (inv : Inventory) (o : Options) (w : E.World) (e : Engine C) (c : C.World)
      → IsServing e
      → IsServing (start E C inv o w e c).2
  unfolding start
  start-IsServing inv o w e c s =
      after_resolve-IsServing (resolve E inv o w).0 (resolve E inv o w).1 e c
        (λ plan json h.
          let r = resolve-IsResolved E inv o plan json w h in let (n, rest, e) = r.kept in n)
        s

  after_resolve-ne-none :
      (r : Option (Result (Plan × Json))) (v : E.World) (e : Engine C) (c : C.World)
      → r ≢ none
      → (after_resolve E C r v e c).0 ≢ none
  unfolding after_resolve
  after_resolve-ne-none none v e c n h = n refl
  after_resolve-ne-none (some (err x)) v e c n h = cc
  after_resolve-ne-none (some (ok (plan, json))) v e c n h =
      let (r, f, d) = apply C plan (E.encode_config json) e c in answers r f d h
    where
      answers :
          (r : Option Error) (f : Engine C) (d : C.World)
          → (after_apply E C plan v (r, f, d)).0 ≡ none
          → ⊥
      answers none f d k = unfold after_apply in cc
      answers (some x) f d k = unfold after_apply in cc

  -- `Start` does not panic on an inventory that can be used.
  pub start-ne-none :
      (draws : (w : E.World) (n : ℕ) → 0 < n → E.draw w n < n) (inv : Inventory) (u : IsUsable inv)
      (o : Options) (w : E.World) (e : Engine C) (c : C.World)
      → (start E C inv o w e c).0 ≢ none
  unfolding start
  start-ne-none draws inv u o w e c =
      after_resolve-ne-none (resolve E inv o w).0 (resolve E inv o w).1 e c
        (resolve-ne-none E inv o u draws w)
