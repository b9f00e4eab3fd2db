-- ===== src/Main/Execute/Serves.antt =====
-- When a run without the console fails.
use tunnet_lite.Base.{
  Bool, true, false, Option, none, some, Error, Result, ok, err, if◌then◌else◌, ◌≡◌, ◌↔◌,
}
use tunnet_lite.Base.Action.{Action}
use tunnet_lite.Inventory.{Inventory}
use tunnet_lite.Engine.{Plan, Engine, new_engine}
use tunnet_lite.Supervisor
use tunnet_lite.Main.Machine.{Machine}
use tunnet_lite.Main.Machine.Views.{nodes}
use tunnet_lite.Main.Run.{RunConfig, Opened}
use tunnet_lite.Main.Execute.{Script, Process, Finish, run_headless, serve, after_started, run}

module _ (M : Machine) (S : Script M) (c : RunConfig) (quiet : c.interactive ≡ false)
    (inv : Inventory) where
  run_headless-ne-err :
      (session : Option (Opened M)) (e : Engine M.core) (d : M.core.World) (p : Process M)
      (x : Error)
      → (run_headless M S c inv session e d p).0 ≡ err x
      → ⊥
  unfolding run_headless
  run_headless-ne-err session e d p x h = cc

  chosen-ne-err :
      (b : Bool) (m n : Action (Process M) (Finish M)) (p : Process M) (x : Error)
      → b ≡ false
      → ((n p).0 ≡ err x → ⊥)
      → ((if b then m else n) p).0 ≡ err x
      → ⊥
  chosen-ne-err true m n p x k f h = cc
  chosen-ne-err false m n p x k f h = f h

  serve-ne-err :
      (e : Engine M.core) (d : M.core.World) (r : Result (Option (Opened M))) (p : Process M)
      (x : Error)
      → (serve M S c inv e d r p).0 ≡ err x
      → ⊥
  unfolding serve
  serve-ne-err e d (err y) p x =
      chosen-ne-err c.interactive _ _ p x quiet (run_headless-ne-err none e d p x)
  serve-ne-err e d (ok session) p x =
      chosen-ne-err c.interactive _ _ p x quiet (run_headless-ne-err session e d p x)

  after_started-eq-err_iff :
      (r : Option (Result Plan)) (e : Engine M.core) (d : M.core.World) (p : Process M) (x : Error)
      → ((after_started M S c inv r e d p).0 ≡ err x) ↔ (r ≡ some (err x))
  unfolding after_started
  after_started-eq-err_iff none e d p x = (λ h. cc, λ h. cc)
  after_started-eq-err_iff (some (err y)) e d p x = (λ h. cc, λ h. cc)
  after_started-eq-err_iff (some (ok plan)) e d p x =
      (λ h. absurd (serve-ne-err e d _ _ x h), λ h. cc)

  -- A run without the console gives an error exactly when `Start` gives it: what keeps the session
  -- from being opened is none.
  pub run-eq-err_iff :
      (p : Process M) (x : Error)
      → ((run M S inv c p).0 ≡ err x) ↔ (
          (Supervisor.start (nodes M) M.core inv c.supervisor p.world (new_engine M.core) p.core).0
          ≡ some (err x))
  unfolding run
  run-eq-err_iff p x = after_started-eq-err_iff _ _ _ _ x
