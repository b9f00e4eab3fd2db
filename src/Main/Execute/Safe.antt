-- ===== src/Main/Execute/Safe.antt =====
-- The process does not panic.
use tunnet_lite.Base.{
  ℕ, ◌<◌, String, Option, none, some, All, Result, ok, err, ◌≡◌, ◌≢◌, refl, string_eq,
}
use tunnet_lite.Base.Dict.{is_some}
use tunnet_lite.Base.Action.Rules.{
  Gives, Gives-raise, Gives-pure, Gives-if, Gives-bind, Gives-bind_known,
}
use tunnet_lite.Inventory.{Inventory}
use tunnet_lite.Inventory.Check.Laws.{IsUsable, load_iff}
use tunnet_lite.Engine.{Plan, Engine, new_engine}
use tunnet_lite.Engine.Laws.{fresh}
use tunnet_lite.Rules
use tunnet_lite.Rules.{new_fetcher}
use tunnet_lite.Supervisor
use tunnet_lite.Supervisor.{Options}
use tunnet_lite.Supervisor.Starts.{IsServing, start-IsServing, start-ne-none}
use tunnet_lite.Supervisor.Total.{resolve-ne-none}
use tunnet_lite.Xcfg.Json.{Json}
use tunnet_lite.Console.{Console}
use tunnet_lite.Console.Safe.{IsWell}
use tunnet_lite.Console.Laws.{IsSound, run-IsOver}
use tunnet_lite.Main.{CliOptions, Settings}
use tunnet_lite.Main.Machine.{Machine}
use tunnet_lite.Main.Machine.Views.{nodes}
use tunnet_lite.Main.Run.{
  SessionPaths, RunConfig, RefreshConfig, Opened, paths_of, around, open_existing,
}
use tunnet_lite.Main.Execute.{
  Script, Process, Finish, load_nodes, panicked, fetch_rules, dumped, dump_config, new_console,
  run_headless, left, run_console, serve, after_started, run, refresh_only, with_inventory,
  hardened, configured, located, execute,
}

module _ (M : Machine) where
  abbrev IsCalm : Finish M → Type 0
  IsCalm f = f ≢ panicked

  load_nodes-IsUsable : (path : String) → Gives IsUsable (load_nodes M path)
  unfolding load_nodes
  load_nodes-IsUsable path = record {
    at = λ p inv h.
        let (t, r, d, u) = (load_iff (M.read_file path p.world) M.decode_inventory path inv).0 h in
        u;
  }

  fetch_rules-IsCalm : (dir : String) → Gives IsCalm (fetch_rules M dir)
  unfolding fetch_rules
  fetch_rules-IsCalm dir = record {
    at = λ p f h. let (r, local) = Rules.fetch M.rules new_fetcher dir p.local in calm r f h;
  }
    where
      calm :
          (r : Result (Unit {0})) (f : Finish M)
          → ◌≡◌ {A = Result (Finish M)}
              (elim r as (λ _. Result (Finish M)) [ err e ↦ err e | ok u ↦ ok Finish.finished ])
              (ok f)
          → IsCalm f
      calm (err e) f h = cc
      calm (ok u) f h = λ k. cc

  module _ (draws : (w : M.net.World) (n : ℕ) → 0 < n → M.draw w n < n) where
    dumped-IsCalm : (r : Option (Result (Plan × Json))) → r ≢ none → Gives IsCalm (dumped M r)
    unfolding dumped
    dumped-IsCalm none n = absurd (n refl)
    dumped-IsCalm (some (err e)) n = Gives-raise e
    dumped-IsCalm (some (ok (plan, json))) n = record { at = λ p f h k. cc }

    dump_config-IsCalm :
        (inv : Inventory) (u : IsUsable inv) (o : Options) → Gives IsCalm (dump_config M inv o)
    unfolding dump_config
    dump_config-IsCalm inv u o = record {
      at = λ p f h.
          (dumped-IsCalm (Supervisor.resolve (nodes M) inv o p.world).0
              (resolve-ne-none (nodes M) inv o u draws p.world)).at
            _ f h;
    }

    new_console-IsWell :
        (session : Option (Opened M)) (p : SessionPaths) (inv : Inventory) (u : IsUsable inv)
        (o : Options) (e : Engine M.core) (s : IsServing (nodes M) M.core e) (d : M.core.World)
        (w : M.net.World)
        → IsWell
            (around M session)
            (paths_of p)
            (is_some session)
            (new_console M session p inv o e d w)
    unfolding new_console
    new_console-IsWell none p inv u o e s d w = record {
      usable = u;
      serving = record { reached = s.reached; entries = s.entries };
      settled = refl;
    }
    new_console-IsWell (some session) p inv u o e s d w = record {
      usable = u;
      serving = record { reached = s.reached; entries = s.entries };
      settled = refl;
    }

    module _ (S : Script M) (sound : All IsSound S.inputs) where
      run_headless-IsCalm :
          (c : RunConfig) (inv : Inventory) (session : Option (Opened M)) (e : Engine M.core)
          (d : M.core.World)
          → Gives IsCalm (run_headless M S c inv session e d)
      unfolding run_headless
      run_headless-IsCalm c inv session e d = record { at = λ p f h k. cc }

      left-IsCalm :
          (session : Option (Opened M)) (p : SessionPaths)
          (q : Option (Result (Unit {0}))
            × Console (around M session) (paths_of p) (is_some session))
          → q.0 ≢ none
          → Gives IsCalm (left M S session p q)
      unfolding left
      left-IsCalm session p (none, c) n = absurd (n refl)
      left-IsCalm session p (some (err x), c) n = record { at = λ q f h k. cc }
      left-IsCalm session p (some (ok u), c) n = record { at = λ q f h k. cc }

      run_console-IsCalm :
          (c : RunConfig) (inv : Inventory) (u : IsUsable inv) (session : Option (Opened M))
          (e : Engine M.core) (s : IsServing (nodes M) M.core e) (d : M.core.World)
          → Gives IsCalm (run_console M S c inv session e d)
      unfolding run_console
      run_console-IsCalm c inv u session e s d = record {
        at = λ p f h.
            let over =
              run-IsOver (around M session) (paths_of c.paths) (is_some session) draws S.inputs
                (new_console M session c.paths inv c.supervisor e d p.world) sound
                (new_console-IsWell session c.paths inv u c.supervisor e s d p.world) in
            (left-IsCalm session c.paths _ over.0).at p f h;
      }

      serve-IsCalm :
          (c : RunConfig) (inv : Inventory) (u : IsUsable inv) (e : Engine M.core)
          (s : IsServing (nodes M) M.core e) (d : M.core.World) (r : Result (Option (Opened M)))
          → Gives IsCalm (serve M S c inv e d r)
      unfolding serve
      serve-IsCalm c inv u e s d (err x) =
          Gives-if c.interactive _ _ (record { at = λ p f h. cc })
            (run_headless-IsCalm c inv none e d)
      serve-IsCalm c inv u e s d (ok session) =
          Gives-if c.interactive _ _ (run_console-IsCalm c inv u session e s d)
            (run_headless-IsCalm c inv session e d)

      after_started-IsCalm :
          (c : RunConfig) (inv : Inventory) (u : IsUsable inv) (r : Option (Result Plan))
          (e : Engine M.core) (s : IsServing (nodes M) M.core e) (d : M.core.World)
          → r ≢ none
          → Gives IsCalm (after_started M S c inv r e d)
      unfolding after_started
      after_started-IsCalm c inv u none e s d n = absurd (n refl)
      after_started-IsCalm c inv u (some (err x)) e s d n = record { at = λ p f h. cc }
      after_started-IsCalm c inv u (some (ok plan)) e s d n = record {
        at = λ p f h.
            (serve-IsCalm c inv u e s d (open_existing M c.paths c.hardening p.world).0).at _ f h;
      }

      run-IsCalm :
          (inv : Inventory) (u : IsUsable inv) (c : RunConfig) → Gives IsCalm (run M S inv c)
      unfolding run
      run-IsCalm inv u c = record {
        at = λ p f h.
            (after_started-IsCalm c inv u _ _
                (start-IsServing (nodes M) M.core inv c.supervisor p.world (new_engine M.core)
                  p.core (record { reached = fresh; entries = tt }))
                _
                (start-ne-none (nodes M) M.core draws inv u c.supervisor p.world (new_engine M.core)
                  p.core)).at
              _ f h;
      }

      with_inventory-IsCalm :
          (o : CliOptions) (h : Settings) (inv : Inventory) (u : IsUsable inv)
          → Gives IsCalm (with_inventory M S o h inv)
      unfolding with_inventory
      with_inventory-IsCalm o h inv u =
          Gives-if _ _ _ (dump_config-IsCalm inv u o.supervisor) (run-IsCalm inv u _)

      refresh_only-IsCalm : (c : RefreshConfig) → Gives IsCalm (refresh_only M S c)
      unfolding refresh_only
      refresh_only-IsCalm c = Gives-bind _ _ (λ inv. Gives-pure _ (λ k. cc))

      hardened-IsCalm : (o : CliOptions) (h : Settings) → Gives IsCalm (hardened M S o h)
      unfolding hardened
      hardened-IsCalm o h = Gives-if o.refresh _ _ (refresh_only-IsCalm _) (
          Gives-bind_known IsUsable _ _ (load_nodes-IsUsable o.nodes_path)
            (λ inv u. with_inventory-IsCalm o h inv u))

      configured-IsCalm : (o : CliOptions) → Gives IsCalm (configured M S o)
      unfolding configured
      configured-IsCalm o =
          Gives-bind _ _
            (λ routed. Gives-bind _ _ (λ built. Gives-bind _ _ (hardened-IsCalm routed)))

      located-IsCalm : (o : CliOptions) → Gives IsCalm (located M S o)
      unfolding located
      located-IsCalm o = Gives-if _ _ _ (fetch_rules-IsCalm _) (configured-IsCalm o)

      -- Whatever the flags, the files and the network, and whatever is typed, the process ends with an
      -- error or returns, and does not panic; if a number drawn below n is below n, and if the
      -- inventories that the updater installs in the console can be used, and are installed between two
      -- lines, not while a command runs.
      pub execute-ne-panicked : (o : CliOptions) (p : Process M) → (execute M S o p).0 ≢ ok panicked
      unfolding execute
      execute-ne-panicked o p h =
          (Gives-bind {Q = IsCalm} _ _ (located-IsCalm)).at p panicked h refl
