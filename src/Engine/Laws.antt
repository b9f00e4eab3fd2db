-- ===== src/Engine/Laws.antt =====
-- The engine's states: what an operation leaves, and what holds in each state that can be reached.
use tunnet_lite.Base.{String, true, Option, none, some, Error, Result, ok, err, ◌≡◌, refl, arith}
use tunnet_lite.Base.Dict.{is_some}
use tunnet_lite.Engine.{
  Plan, Core, Status, Engine, new_engine, stop_instance, stop, fail, after_start, after_create,
  after_load, apply, status,
}

-- A status that reads the same all over: a plan and a start time exactly while an instance runs.
pub record IsConsistent (s : Status) : Type 0 where
  pub plan : is_some s.plan ≡ s.running
  pub started_at : is_some s.started_at ≡ s.running

module _ (C : Core) where
  -- A reachable engine, by the operations that led to it, with whatever world each of them met.
  pub data Reaches : Engine C → Type 0 where
    fresh : Reaches (new_engine C)
    applied :
        (e : Engine C) (plan : Plan) (config : String) (w : C.World)
        → Reaches e
        → Reaches (apply C plan config e w).1
    stopped : (e : Engine C) (w : C.World) → Reaches e → Reaches (stop C e w).1

  -- Nothing runs, and nothing is left of what ran.
  abbrev pub IsStopped : Engine C → Type 0
  IsStopped e = (e.inst ≡ none) × (e.plan ≡ none) × (e.started_at ≡ none)

  stop_instance-IsStopped :
      (inst : Option C.Instance) (e : Engine C) (w : C.World)
      → e.inst ≡ inst
      → IsConsistent (status C e)
      → IsStopped (stop_instance C inst e w).1
  unfolding stop_instance status
  stop_instance-IsStopped none e w h c = ground (arith, c.plan, c.started_at)
  stop_instance-IsStopped (some i) e w h c = (refl, refl, refl)

  -- What `Apply` leaves: on success the plan runs and no error is on record; on a failure nothing
  -- runs and the error is on record.
  abbrev pub IsOutcome : Plan → Option Error → Engine C → Type 0
  IsOutcome plan none e =
      (is_some e.inst ≡ true)
      × (e.plan ≡ some plan)
      × (is_some e.started_at ≡ true)
      × (e.last_err ≡ "")
  IsOutcome plan (some x) e = IsStopped e × (e.last_err ≡ C.render x)

  after_start-IsOutcome :
      (plan : Plan) (i : C.Instance) (f : Option Error) (e : Engine C) (w : C.World)
      → IsStopped e
      → IsOutcome plan (after_start C plan i f e w).0 (after_start C plan i f e w).1
  unfolding after_start fail
  after_start-IsOutcome plan i (some x) e w h = (h, refl)
  after_start-IsOutcome plan i none e w h = (refl, refl, refl, refl)

  after_create-IsOutcome :
      (plan : Plan) (r : Result C.Instance) (e : Engine C) (w : C.World)
      → IsStopped e
      → IsOutcome plan (after_create C plan r e w).0 (after_create C plan r e w).1
  unfolding after_create fail
  after_create-IsOutcome plan (err x) e w h = (h, refl)
  after_create-IsOutcome plan (ok i) e w h = after_start-IsOutcome plan i _ e _ h

  after_load-IsOutcome :
      (plan : Plan) (r : Result C.Config) (e : Engine C) (w : C.World)
      → IsStopped e
      → IsOutcome plan (after_load C plan r e w).0 (after_load C plan r e w).1
  unfolding after_load fail
  after_load-IsOutcome plan (err x) e w h = (h, refl)
  after_load-IsOutcome plan (ok c) e w h = after_create-IsOutcome plan _ e _ h

  pub stop-IsStopped :
      (e : Engine C) (w : C.World) → IsConsistent (status C e) → IsStopped (stop C e w).1
  unfolding stop
  stop-IsStopped e w c = stop_instance-IsStopped e.inst e w refl c

  apply-IsOutcome_from :
      (e : Engine C) (plan : Plan) (config : String) (w : C.World)
      → IsConsistent (status C e)
      → IsOutcome plan (apply C plan config e w).0 (apply C plan config e w).1
  unfolding apply
  apply-IsOutcome_from e plan config w c = after_load-IsOutcome plan _ _ _ (stop-IsStopped e w c)

  IsOutcome-IsConsistent :
      (plan : Plan) (r : Option Error) (e : Engine C)
      → IsOutcome plan r e
      → IsConsistent (status C e)
  unfolding status
  IsOutcome-IsConsistent plan none e (i, p, t, l) = record {
    plan = ground arith;
    started_at = ground arith;
  }
  IsOutcome-IsConsistent plan (some x) e ((i, p, t), l) = record {
    plan = ground arith;
    started_at = ground arith;
  }

  IsStopped-IsConsistent : (e : Engine C) → IsStopped e → IsConsistent (status C e)
  unfolding status
  IsStopped-IsConsistent e (i, p, t) = record { plan = ground arith; started_at = ground arith }

  -- However an engine was reached from a new one, by applying and stopping in any order and with any
  -- failures, its status has a plan and a start time exactly while it says that an instance runs.
  pub status-IsConsistent : (e : Engine C) → Reaches e → IsConsistent (status C e)
  status-IsConsistent _ fresh = IsStopped-IsConsistent _ (refl, refl, refl)
  status-IsConsistent _ (applied e plan config w r) =
      IsOutcome-IsConsistent plan _ _
        (apply-IsOutcome_from e plan config w (status-IsConsistent e r))
  status-IsConsistent _ (stopped e w r) =
      IsStopped-IsConsistent _ (stop-IsStopped e w (status-IsConsistent e r))

  -- The result and the record that `Apply` leaves, from a reachable engine.
  pub IsOutcome-apply :
      (e : Engine C) (plan : Plan) (config : String) (w : C.World)
      → Reaches e
      → IsOutcome plan (apply C plan config e w).0 (apply C plan config e w).1
  IsOutcome-apply e plan config w r = apply-IsOutcome_from e plan config w (status-IsConsistent e r)

  stop_instance_twice :
      (inst : Option C.Instance) (e : Engine C) (w v : C.World)
      → e.inst ≡ inst
      → stop C (stop_instance C inst e w).1 v ≡ (none, (stop_instance C inst e w).1, v)
  unfolding stop_instance stop
  stop_instance_twice none e w v h = rw h refl
  stop_instance_twice (some i) e w v h = refl

  stop_twice : (e : Engine C) (w v : C.World) → stop C (stop C e w).1 v ≡ (none, (stop C e w).1, v)
  unfolding stop
  stop_twice e w v = stop_instance_twice e.inst e w v refl

  -- `Apply` begins with `Stop`: to stop an engine and to apply then, in the world that the stop left,
  -- is to apply at once.
  pub apply-stop :
      (e : Engine C) (plan : Plan) (config : String) (w : C.World)
      → apply C plan config (stop C e w).1 (stop C e w).2 ≡ apply C plan config e w
  unfolding apply
  apply-stop e plan config w = rw (stop_twice e w (stop C e w).2) refl
