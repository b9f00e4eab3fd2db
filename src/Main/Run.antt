-- ===== src/Main/Run.antt =====
-- `execute` of main.go and what it calls, over the parts of the program. What the process meets while
-- it runs, lines that are typed and ticks of the updater, is given as sequences.
pub mod Laws
pub mod Defaults
use tunnet_lite.Base.{
  String, Bool, true, false, not, ◌||◌, List, [], ◌∷◌, ◌++◌, Option, none, some, Error, errorf,
  Result, ok, err, is_not_exist, if◌then◌else◌,
}
use tunnet_lite.Base.Int
use tunnet_lite.Base.Int.{ℤ, pos}
use tunnet_lite.Base.Dict.{is_some}
use tunnet_lite.Base.Action.{Action, pure, raise, lift, attempt, ◌>>=◌, ◌>>◌}
use tunnet_lite.Inventory.{Inventory}
use tunnet_lite.Inventory.Check.{load}
use tunnet_lite.Engine.{Plan, Engine, new_engine, stop}
use tunnet_lite.Rules
use tunnet_lite.Rules.{Local, new_fetcher}
use tunnet_lite.Supervisor
use tunnet_lite.Supervisor.{Options}
use tunnet_lite.Xcfg.Json.{Json}
use tunnet_lite.Control.Exec.{Identity, Env, State}
use tunnet_lite.Control.Session
use tunnet_lite.Control.Session.{RefreshOptions}
use tunnet_lite.Control.Open.{default_version, open_session}
use tunnet_lite.Control.Transport.{Transport, TlsConfig, new_hardened_client}
use tunnet_lite.Updater
use tunnet_lite.Updater.{Updater, Event, Report}
use tunnet_lite.Console
use tunnet_lite.Console.{Console, Input}
use tunnet_lite.Main.{CliOptions, Settings, apply_paths, apply_routing, build_hardening}
use tunnet_lite.Main.Machine.{Machine}
use tunnet_lite.Main.Machine.Views.{place, files, disk, nodes, dns, keys, env, hardening}

-- `sessionPaths`
pub record SessionPaths : Type 0 where
  pub identity : String
  pub nodes : String
  pub control_url : String

abbrev pub paths_of : SessionPaths → Session.Paths
paths_of p = record { identity = p.identity; inventory = p.nodes }

-- `runConfig`
pub record RunConfig : Type 0 where
  pub supervisor : Options
  pub interactive : Bool
  pub paths : SessionPaths
  pub hardening : Settings
  pub refresh_every : ℤ

-- `refreshConfig`
pub record RefreshConfig : Type 0 where
  pub paths : SessionPaths
  pub hardening : Settings
  pub auto_approve : Bool
  pub verify_url : String

module _ (M : Machine) where
  -- `control.Session`, but for its paths: where its client sends, and its identity.
  pub record Opened : Type 0 where
    pub endpoint : String
    pub transport : Transport M.net
    pub identity : Identity

  -- The transport of the HTTP client that `NewClient` makes.
  abbrev pub plain_transport : Transport M.net
  plain_transport = record {
    tls = record {
      server_name = "";
      verify_peer_certificate = none;
      encrypted_client_hello_config_list = [];
      min_version = 0;
      requires_ech = false;
      next_protos = [];
    };
    via = none;
    ech_dialer = none;
  }

  -- What answers a session before it is pointed at an endpoint: it sends nothing yet.
  abbrev pub local_env : Env
  local_env =
      env M plain_transport "" (record { client_id = ""; signing_key = []; pending_ticket = "" })

  -- `openSession`
  unfoldable pub open_hardened : SessionPaths → Settings → Action M.net.World (Opened × Bool)
  open_hardened p h = do
    opened ← open_session local_env (keys M) (paths_of p)
    client ← new_hardened_client M.net p.control_url (hardening M h)
    pure ((record { endpoint = p.control_url; transport = client; identity = opened.0 }), opened.1)

  -- `openExistingSession` from the answer of `openSession` on.
  unfoldable pub not_fresh : Opened × Bool → Action M.net.World (Option Opened)
  not_fresh (session, true) = raise (errorf "existing identity unexpectedly reopened as new" [])
  not_fresh (session, false) = pure (some session)

  -- `openExistingSession` from the answer of `os.Stat` on.
  unfoldable pub open_found :
      SessionPaths → Settings → Option Error → Action M.net.World (Option Opened)
  open_found p h none = open_hardened p h >>= not_fresh
  open_found p h (some e) = if is_not_exist e then pure none else raise e

  -- `openExistingSession`
  unfoldable pub open_existing : SessionPaths → Settings → Action M.net.World (Option Opened)
  open_existing p h w = open_found p h (M.stat p.identity w) w

  -- What a session's calls go to, and its state.
  abbrev pub env_of : Opened → Env
  env_of session = env M session.transport session.endpoint session.identity

  abbrev pub state_of : Opened → M.net.World → State M.net.World
  state_of session w = record {
    identity = session.identity;
    app_version = default_version (env_of session);
    world = w;
  }

  -- `refreshInventory`, which only logs the inventory.
  unfoldable pub refresh_inventory : RefreshConfig → Action M.net.World Inventory
  refresh_inventory c = do
    session ← open_hardened c.paths c.hardening
    (λ w.
        let (r, s) =
          Session.refresh (env_of session.0) (paths_of c.paths)
            (record { auto_approve = c.auto_approve; verification_url = c.verify_url })
            (state_of session.0 w) in
        (r, s.world))

  -- The updater of `startWatching`, by whether it installs what it finds; none if it does not start.
  unfoldable pub start_watching : Option Opened → ℤ → Bool → Option Updater
  start_watching none every installs = none
  start_watching (some session) every installs =
      if not (Int.ltb (pos 0) every)
      then none
      else some (record { has_session = true; interval = every; has_callback = installs })

  -- What the console acts on.
  abbrev pub around : Option Opened → Console.World
  around session = record {
    nodes = nodes M;
    core = M.core;
    control = elim session [ none ↦ local_env | some s ↦ env_of s ];
    files = files M;
    lower = M.net.lower;
    show_time = M.show_time;
  }
