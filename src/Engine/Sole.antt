-- ===== src/Engine/Sole.antt =====
-- Which instances run outside when the engine has applied a plan.
use tunnet_lite.Base.{
  String, Bool, true, Option, none, some, Error, Result, ok, err, ◌≡◌, ◌≢◌, ◌⊎◌, inl, inr, refl,
  sym, ap, ◌∙◌,
}
use mathlib.Core.Path.{subst}
use mathlib.Core.Option.{some-injective}
use tunnet_lite.Engine.{
  Plan, Core, Engine, stop_instance, stop, fail, after_start, after_create, after_load, apply,
}
use tunnet_lite.Engine.Laws.{
  Reaches, IsOutcome, IsOutcome-apply, IsStopped, stop-IsStopped, status-IsConsistent,
}

module _ (C : Core) (alive : C.World → C.Instance → Bool) where
  -- What xray-core promises of the instances that are alive: loading and creating starts none; starting
  -- one starts no other, and the one itself if there is no error, while after an error a part of it may
  -- be alive; and one that was closed is not alive any more, whatever the error.
  pub record IsCore : Type 0 where
    pub create :
        (c : C.Config) (w : C.World) (j : C.Instance)
        → alive (C.create c w).1 j ≡ true
        → alive w j ≡ true
    pub start :
        (i : C.Instance) (w : C.World) (j : C.Instance)
        → alive (C.start i w).1 j ≡ true
        → (alive w j ≡ true) ⊎ (j ≡ i)
    pub started :
        (i : C.Instance) (w : C.World) → (C.start i w).0 ≡ none → alive (C.start i w).1 i ≡ true
    pub close :
        (i : C.Instance) (w : C.World) (j : C.Instance)
        → alive (C.close i w).1 j ≡ true
        → (alive w j ≡ true) × (j ≢ i)

  -- The instances that are alive: just the one on record, if there is one.
  pub record IsSole (inst : Option C.Instance) (w : C.World) : Type 0 where
    pub recorded : (j : C.Instance) → alive w j ≡ true → inst ≡ some j
    pub runs : (j : C.Instance) → inst ≡ some j → alive w j ≡ true

  module _ (k : IsCore) where
    none-IsSole :
        (inst : Option C.Instance) (w : C.World)
        → inst ≡ none
        → ((j : C.Instance) → alive w j ≡ true → ⊥)
        → IsSole inst w
    none-IsSole inst w e n = record {
      recorded = λ j a. absurd (n j a);
      runs = λ j h. let q : none ≡ some j = sym e ∙ h in cc;
    }

    stop_instance-IsSole :
        (inst : Option C.Instance) (e : Engine C) (w : C.World)
        → e.inst ≡ inst
        → IsSole e.inst w
        → IsSole (stop_instance C inst e w).1.inst (stop_instance C inst e w).2
    unfolding stop_instance
    stop_instance-IsSole none e w h s = s
    stop_instance-IsSole (some i) e w h s =
        none-IsSole none _ refl
          (λ j a. let (b, n) = k.close i w j a in n (some-injective j i (sym (s.recorded j b) ∙ h)))

    stop-IsSole :
        (e : Engine C) (w : C.World) → IsSole e.inst w → IsSole (stop C e w).1.inst (stop C e w).2
    unfolding stop
    stop-IsSole e w s = stop_instance-IsSole e.inst e w refl s

    after_start-IsSole :
        (plan : Plan) (i : C.Instance) (f : Option Error) (e : Engine C) (w : C.World)
        → e.inst ≡ none
        → ((j : C.Instance) → alive w j ≡ true → j ≡ i)
        → (f ≡ none → alive w i ≡ true)
        → IsSole (after_start C plan i f e w).1.inst (after_start C plan i f e w).2
    unfolding after_start fail
    after_start-IsSole plan i (some x) e w h near up =
        none-IsSole e.inst _ h (λ j a. let (b, n) = k.close i w j a in n (near j b))
    after_start-IsSole plan i none e w h near up = record {
      recorded = λ j a. ap some (sym (near j a));
      runs = λ j q. subst (λ t. alive w t ≡ true) (some-injective i j q) (up refl);
    }

    after_create-IsSole :
        (plan : Plan) (r : Result C.Instance) (e : Engine C) (w : C.World)
        → e.inst ≡ none
        → ((j : C.Instance) → alive w j ≡ true → ⊥)
        → IsSole (after_create C plan r e w).1.inst (after_create C plan r e w).2
    unfolding after_create fail
    after_create-IsSole plan (err x) e w h n = none-IsSole e.inst w h n
    after_create-IsSole plan (ok i) e w h n =
        after_start-IsSole plan i _ e _ h (λ j a. near j (k.start i w j a)) (k.started i w)
      where
        near : (j : C.Instance) → (alive w j ≡ true) ⊎ (j ≡ i) → j ≡ i
        near j (inl a) = absurd (n j a)
        near j (inr q) = q

    after_load-IsSole :
        (plan : Plan) (r : Result C.Config) (e : Engine C) (w : C.World)
        → e.inst ≡ none
        → ((j : C.Instance) → alive w j ≡ true → ⊥)
        → IsSole (after_load C plan r e w).1.inst (after_load C plan r e w).2
    unfolding after_load fail
    after_load-IsSole plan (err x) e w h n = none-IsSole e.inst w h n
    after_load-IsSole plan (ok c) e w h n =
        after_create-IsSole plan _ e _ h (λ j a. n j (k.create c w j a))

    apply-IsSole :
        (e : Engine C) (plan : Plan) (config : String) (w : C.World)
        → IsStopped C (stop C e w).1
        → IsSole e.inst w
        → IsSole (apply C plan config e w).1.inst (apply C plan config e w).2
    unfolding apply
    apply-IsSole e plan config w h s =
        let t = stop-IsSole e w s in
        after_load-IsSole plan _ _ _ h.0
          (λ j a. let q : none ≡ some j = sym h.0 ∙ t.recorded j a in cc)

    -- From a reachable engine, `Apply` without an error leaves the given plan running and no error on
    -- record; with an error it leaves nothing on record but this error. And if the one instance alive was
    -- that on record, it is so afterwards: what ran before is closed, and after an error none is alive;
    -- for a core whose instances are no more alive when they were closed.
    pub apply-IsOutcome :
        (e : Engine C) (plan : Plan) (config : String) (w : C.World)
        → Reaches C e
        → IsSole e.inst w
        → IsOutcome C plan (apply C plan config e w).0 (apply C plan config e w).1
          × IsSole (apply C plan config e w).1.inst (apply C plan config e w).2
    apply-IsOutcome e plan config w r s = (
      IsOutcome-apply C e plan config w r,
      apply-IsSole e plan config w (stop-IsStopped C e w (status-IsConsistent C e r)) s,
    )
