-- ===== src/Main/Execute.antt =====
-- `run` and `execute` of main.go. What the process meets while it runs, lines that are typed and
-- ticks of the updater, is given as sequences. The console's parts each go on from the world as it is
-- when the console opens. The engine is stopped at the end, after a panic too.
pub mod Safe
pub mod Serves
pub mod Modes
use tunnet_lite.Base.{
  String, Bool, true, false, List, [], ◌∷◌, ◌++◌, Option, none, some, Error, Result, ok, err,
  if◌then◌else◌,
}
use tunnet_lite.Base.Dict.{is_some}
use tunnet_lite.Base.Action.{Action, pure, raise, lift, gets, ◌>>=◌, ◌>>◌}
use tunnet_lite.Inventory.{Inventory}
use tunnet_lite.Inventory.Check.{load}
use tunnet_lite.Engine.{Plan, Engine, new_engine, stop}
use tunnet_lite.Rules
use tunnet_lite.Rules.{Local, new_fetcher}
use tunnet_lite.Supervisor
use tunnet_lite.Supervisor.{Options}
use tunnet_lite.Xcfg.Json.{Json}
use tunnet_lite.Control.Exec.{Identity, State}
use tunnet_lite.Updater
use tunnet_lite.Updater.{Updater, Event, Report}
use tunnet_lite.Console
use tunnet_lite.Console.{Console, Input}
use tunnet_lite.Main.{CliOptions, Settings, apply_paths, apply_routing, build_hardening}
use tunnet_lite.Main.Machine.{Machine}
use tunnet_lite.Main.Machine.Views.{place, files, disk, nodes, dns}
use tunnet_lite.Main.Run.{
  SessionPaths, RunConfig, RefreshConfig, Opened, paths_of, open_existing, env_of, state_of,
  refresh_inventory, start_watching, around,
}

-- What the process meets while it runs: what is typed, the updater's ticks, and whether the context
-- has ended.
pub record Script (M : Machine) : Type 0 where
  pub inputs : List Input
  pub events : List Event
  pub ended : M.net.World → Bool

-- The paths and the configurations that `execute` makes of the options.
abbrev pub session_paths : CliOptions → SessionPaths
session_paths o = record {
  identity = o.identity;
  nodes = o.nodes_path;
  control_url = o.control_url;
}

abbrev pub run_config : CliOptions → Settings → RunConfig
run_config o h = record {
  supervisor = o.supervisor;
  interactive = o.interactive;
  paths = session_paths o;
  hardening = h;
  refresh_every = o.refresh_every;
}

abbrev pub refresh_config : CliOptions → Settings → RefreshConfig
refresh_config o h = record {
  paths = session_paths o;
  hardening = h;
  auto_approve = o.auto_approve;
  verify_url = o.verify_url;
}

module _ (M : Machine) where
  -- The world, the files of the rule sets, xray-core, and what is printed.
  pub record Process : Type 0 where
    pub world : M.net.World
    pub local : Local M.rules
    pub core : M.core.World
    pub out : List String

  -- How `execute` returns without an error: with nothing more to say, after a run without the console
  -- and what its updater reported, or after the console; or a panic.
  pub data Finish : Type 0 where
    finished : Finish
    watched : List Report → Finish
    closed :
        (session : Option (Opened M)) (p : SessionPaths)
        → Console (around M session) (paths_of p) (is_some session)
        → Finish
    panicked : Finish

  unfoldable pub on_world : {A : Type 0} → Action M.net.World A → Action Process A
  on_world m p = let (r, w) = m p.world in (r, record p { world = w })

  -- `inventory.Load`
  unfoldable pub load_nodes : String → Action Process Inventory
  load_nodes path p = (load (M.read_file path p.world) M.decode_inventory path, p)

  -- `fetchRules`
  unfoldable pub fetch_rules : String → Action Process Finish
  fetch_rules dir p =
      let (r, local) = Rules.fetch M.rules new_fetcher dir p.local in
      (elim r [ err e ↦ err e | ok u ↦ ok finished ], record p { local = local })

  -- `dumpConfig` from the answer of `Resolve` on.
  unfoldable pub dumped : Option (Result (Plan × Json)) → Action Process Finish
  dumped none = pure panicked
  dumped (some (err e)) = raise e
  dumped (some (ok (plan, json))) =
      (λ p. (ok finished, record p { out = p.out ++ (M.encode_config json ∷ []) }))

  -- `dumpConfig`
  unfoldable pub dump_config : Inventory → Options → Action Process Finish
  dump_config inv o p =
      let (r, w) = Supervisor.resolve (nodes M) inv o p.world in dumped r (record p { world = w })

  -- `defer eng.Stop()`
  unfoldable pub stop_engine : Engine M.core → M.core.World → Process → Process
  stop_engine e d p = let (x, f, c) = stop M.core e d in record p { core = c }

  -- `console.New`
  unfoldable pub new_console :
      (session : Option (Opened M)) (p : SessionPaths)
      → Inventory
      → Options
      → Engine M.core
      → M.core.World
      → M.net.World
      → Console (around M session) (paths_of p) (is_some session)
  new_console none p inv o e d w = record {
    inv = inv;
    opts = o;
    engine = e;
    core = d;
    nodes = w;
    session = record {
      identity = record { client_id = ""; signing_key = []; pending_ticket = "" };
      app_version = "";
      world = w;
    };
    files = w;
    out = [];
    arriving = [];
  }
  new_console (some session) p inv o e d w = record {
    inv = inv;
    opts = o;
    engine = e;
    core = d;
    nodes = w;
    session = state_of M session w;
    files = w;
    out = [];
    arriving = [];
  }

  module _ (S : Script M) where
    -- What the updater reports, and the world that it leaves.
    unfoldable pub watch_nodes :
        SessionPaths
        → Inventory
        → Option (Opened M)
        → Option Updater
        → M.net.World
        → List Report × M.net.World
    watch_nodes p inv (some session) (some u) w =
        let (reports, s) =
          Updater.run (env_of M session) S.ended (paths_of p) u S.events (some inv)
            (state_of M session w) in
        (reports, s.world)
    watch_nodes p inv (some session) none w = ([], w)
    watch_nodes p inv none u w = ([], w)

    -- The end of `run` without the console: it waits for the end of the context.
    unfoldable pub run_headless :
        RunConfig
        → Inventory
        → Option (Opened M)
        → Engine M.core
        → M.core.World
        → Action Process Finish
    run_headless c inv session e d p =
        let (reports, w) =
          watch_nodes c.paths inv session (start_watching M session c.refresh_every false)
            p.world in
        (ok (watched reports), stop_engine e d (record p { world = w }))

    -- The end of `run` after the console.
    unfoldable pub left :
        (session : Option (Opened M)) (p : SessionPaths)
        → Option (Result (Unit {0})) × Console (around M session) (paths_of p) (is_some session)
        → Action Process Finish
    left session p (none, c) = (λ q. (ok panicked, stop_engine c.engine c.core q))
    left session p (some (err x), c) = (λ q. (err x, stop_engine c.engine c.core q))
    left session p (some (ok u), c) =
        (λ q. (ok (closed session p c), stop_engine c.engine c.core q))

    -- The end of `run` with the console.
    unfoldable pub run_console :
        RunConfig
        → Inventory
        → Option (Opened M)
        → Engine M.core
        → M.core.World
        → Action Process Finish
    run_console c inv session e d p =
        left session c.paths
          (Console.run (around M session) (paths_of c.paths) (is_some session) S.inputs
            (new_console session c.paths inv c.supervisor e d p.world))
          p

    -- `run` from the answer of `openExistingSession` on.
    unfoldable pub serve :
        RunConfig
        → Inventory
        → Engine M.core
        → M.core.World
        → Result (Option (Opened M))
        → Action Process Finish
    serve c inv e d (err x) =
        if c.interactive then (λ p. (err x, stop_engine e d p)) else run_headless c inv none e d
    serve c inv e d (ok session) =
        if c.interactive then run_console c inv session e d else run_headless c inv session e d

    -- `run` from the answer of `Start` on.
    unfoldable pub after_started :
        RunConfig
        → Inventory
        → Option (Result Plan)
        → Engine M.core
        → M.core.World
        → Action Process Finish
    after_started c inv none e d p = (ok panicked, stop_engine e d p)
    after_started c inv (some (err x)) e d p = (err x, stop_engine e d p)
    after_started c inv (some (ok plan)) e d p =
        let (r, w) = open_existing M c.paths c.hardening p.world in
        serve c inv e d r (record p { world = w })

    -- `run`
    unfoldable pub run : Inventory → RunConfig → Action Process Finish
    run inv c p =
        let (r, w, e, d) =
          Supervisor.start (nodes M) M.core inv c.supervisor p.world (new_engine M.core) p.core in
        after_started c inv r e d (record p { world = w })

    -- `refreshInventory` has nothing more to say.
    unfoldable pub refresh_only : RefreshConfig → Action Process Finish
    refresh_only c = do inv ← on_world (refresh_inventory M c); pure finished

    -- `execute` from the inventory on.
    unfoldable pub with_inventory : CliOptions → Settings → Inventory → Action Process Finish
    with_inventory o h inv =
        if o.dump then dump_config inv o.supervisor else run inv (run_config o h)

    -- `execute` from the hardening on.
    unfoldable pub hardened : CliOptions → Settings → Action Process Finish
    hardened o h =
        if o.refresh
        then refresh_only (refresh_config o h)
        else (load_nodes o.nodes_path >>= with_inventory o h)

    -- `execute` from the routing on.
    unfoldable pub configured : CliOptions → Action Process Finish
    configured o = do
      routed ← on_world (apply_routing (files M) o)
      built ← gets (λ p.
          build_hardening (dns M) (disk M) routed.doh_list routed.use_ech routed.pin_mode
            routed.pins_path p.world)
      h ← lift built
      hardened routed h

    unfoldable pub located : CliOptions → Action Process Finish
    located o = if o.fetch_rules then fetch_rules o.supervisor.assets else configured o

    -- `execute`
    unfoldable pub execute : CliOptions → Action Process Finish
    execute o = on_world (λ w. apply_paths (place M w) M.make_dir o w) >>= located
