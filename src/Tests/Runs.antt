-- ===== src/Tests/Runs.antt =====
-- Runs of the whole program, on concrete data.
use tunnet_lite.Base.{
  ℕ, ◌<◌, String, ◌<>◌, true, false, [], ◌∷◌, none, some, All, Error, errorf, ok, err, ◌==◌,
  string_eq, nat_eq, ◌≡◌, ◌≢◌, ◌↔◌, refl, sym, ap, ◌∙◌, ==_iff, Bool-cases, inl, inr, if◌then◌else◌,
}
use tunnet_lite.Base.Int.{pos}
use tunnet_lite.Inventory.Check.{load}
use tunnet_lite.Engine.{new_engine}
use tunnet_lite.Supervisor
use tunnet_lite.Console.{line, install}
use tunnet_lite.Console.Laws.{IsSound}
use tunnet_lite.Updater.{tick}
use tunnet_lite.Base.Dict.{lookup, insert, lookup-insert}
use tunnet_lite.Base.Base64.{encode, decode}
use tunnet_lite.Base.Texts.{to_lower, has_prefix}
use tunnet_lite.Base.Reader.{read_limited}
use tunnet_lite.Base.Action.{pure, lift, gets, attempt, ◌>>=◌, ◌>>◌}
use tunnet_lite.Inventory.Key.{normalized_key}
use tunnet_lite.Inventory.Check.{validate, check_hosts, check_groups}
use tunnet_lite.Control.Directory.{runtime_of, read_hosts, read_groups, read_front, parse_directory}
use tunnet_lite.Control.Exec.{call, call_unit}
use tunnet_lite.Control.Session.{
  persist, try_sync, call_sync, parse_sync, merge_sync, or_retry, after_sync, refresh,
}
use tunnet_lite.Control.Identity.{stored_key, checked, parse_identity}
use tunnet_lite.Control.Client
use tunnet_lite.Control.Client.{
  sync, new_exchange, signed_request, unseal, open_response, identity_request,
}
use tunnet_lite.Control.Transport.{
  new_hardened_client, host_of, configure_ech, base_config, pin_check, with_dialer,
}
use tunnet_lite.Main.Machine.Views.{as_text}
use tunnet_lite.Control.Open.{load_identity, open_session, opened}
use tunnet_lite.Control.Session.Persisted.{IsLasting}
use tunnet_lite.Main.{CliOptions, Settings}
use tunnet_lite.Main.Machine.Views.{nodes, keys}
use tunnet_lite.Main.Run.{
  SessionPaths, RunConfig, RefreshConfig, Opened, local_env, open_hardened, open_existing,
  open_found, not_fresh, refresh_inventory,
}
use tunnet_lite.Main.Run.Laws.{open_existing-load, refresh_inventory-load}
use tunnet_lite.Main.Flags.{zero_options}
use tunnet_lite.Main.Execute.{Script, Process, panicked, run, execute}
use tunnet_lite.Main.Execute.Modes.{execute-core}
use tunnet_lite.Main.Execute.Safe.{execute-ne-panicked}
use tunnet_lite.Main.Execute.Serves.{run-eq-err_iff}
use tunnet_lite.Tests.Data.{first_inventory}
use tunnet_lite.Tests.Inventories.{first-IsUsable}
use tunnet_lite.Tests.Sessions.{synced}
use tunnet_lite.Tests.Services.{choices}
use tunnet_lite.Tests.Machines.{desk, contents, zeros}

abbrev script : Script desk
script = record {
  inputs = line "exit 1" [] ∷ install first_inventory ∷ line "start" [] ∷ line "quit" [] ∷ [];
  events = tick ∷ [];
  ended = λ w. false;
}

script-IsSound : All IsSound script.inputs
script-IsSound = (refl, (first-IsUsable, (refl, (refl, tt))))

abbrev pub begun : Process desk
begun = record {
  world = ("id.json", "identity") ∷ [];
  local = record { files = []; world = 0 };
  core = 0;
  out = [];
}

draws : (w : desk.net.World) (n : ℕ) → 0 < n → desk.draw w n < n
draws w n h = h

-- Options that lead to the console, on files that are there.
abbrev to_console : CliOptions
to_console = record zero_options {
  nodes_path = "nodes.json";
  home_dir = "/home";
  identity = "id.json";
  doh_list = "off";
  pin_mode = "off";
  route_mode = "global";
  interactive = true;
  supervisor = choices;
}

abbrev stocked : Process desk
stocked = record begun { world = ("id.json", "identity") ∷ ("nodes.json", "inventory\n") ∷ [] }

execute-ne-panicked_example : (execute desk script to_console stocked).0 ≢ ok panicked
execute-ne-panicked_example =
    execute-ne-panicked desk draws script script-IsSound to_console stocked

abbrev pub places : SessionPaths
places = record {
  identity = "id.json";
  nodes = "nodes.json";
  control_url = "https://cp.example/api";
}

abbrev soft : Settings
soft = record { upstreams = none; ech = false; pin_mode = "off"; store = none }

abbrev headless : RunConfig
headless = record {
  supervisor = choices;
  interactive = false;
  paths = places;
  hardening = soft;
  refresh_every = pos 60000000000;
}

abbrev failure : Error
failure = errorf "no" []

run-eq-err_iff_example : ((run desk script first_inventory headless begun).0 ≡ err failure) ↔ (
    (Supervisor.start
      (nodes desk)
      desk.core
      first_inventory
      choices
      begun.world
      (new_engine desk.core)
      begun.core).0
    ≡ some (err failure))
run-eq-err_iff_example = run-eq-err_iff desk script headless refl first_inventory begun failure

abbrev asked : RefreshConfig
asked = record { paths = places; hardening = soft; auto_approve = false; verify_url = "" }

is_refreshed : (refresh_inventory desk asked begun.world).0 ≡ ok synced
unfolding refresh_inventory ◌>>=◌ ◌>>◌ open_hardened open_session attempt opened load_identity
    lookup string_eq nat_eq lift parse_identity stored_key decode checked pure new_hardened_client
    host_of to_lower configure_ech base_config pin_check with_dialer refresh try_sync call_sync
    parse_sync merge_sync or_retry after_sync persist parse_directory runtime_of read_hosts
    read_groups read_front validate check_hosts check_groups normalized_key encode load gets call
    call_unit as_text sync Client.call new_exchange signed_request read_limited unseal open_response
    has_prefix insert identity_request
is_refreshed = refl

same : (path : String) → (path == path) ≡ true
same path = (==_iff path path).1 refl

other : (path name : String) → path ≢ name → (name == path) ≡ false
other path name n = elim (Bool-cases (name == path)) [
  | inl e ↦ absurd (n (sym ((==_iff name path).0 e)))
  | inr e ↦ e
]

desk-IsLasting : IsLasting (local_env desk)
desk-IsLasting = record {
  reads = λ path text w h. ap contents (
      lookup-insert path path text w
      ∙ ap (λ b. if b then some text else lookup path w) (same path));
  apart = λ path text name w n. ap contents (
      lookup-insert name path text w
      ∙ ap (λ b. if b then some text else lookup name w) (other path name n));
  parents = λ path name w. refl;
}

differ : false ≡ true → ⊥
differ e = cc

named : asked.paths.nodes ≢ ""
unfolding string_eq
named e = differ (sym (ap (λ s. s == asked.paths.nodes) e))

apart : asked.paths.identity ≢ asked.paths.nodes
unfolding string_eq
apart e = differ (ap (λ s. s == asked.paths.nodes) e)

decodes : desk.decode_inventory (desk.encode_inventory synced <> "\n") ≡ ok synced
unfolding string_eq
decodes = refl

refresh_inventory-load_example :
    load
      (desk.read_file "nodes.json" (refresh_inventory desk asked begun.world).1)
      desk.decode_inventory
      "nodes.json"
    ≡ ok synced
refresh_inventory-load_example =
    refresh_inventory-load desk desk-IsLasting asked named apart begun.world synced decodes
      is_refreshed

-- The session that the file of the identity gives.
abbrev reopened : Opened desk
reopened = record {
  endpoint = "https://cp.example/api";
  transport = record {
    tls = record {
      server_name = "223.5.5.5";
      verify_peer_certificate = none;
      encrypted_client_hello_config_list = [];
      min_version = 0;
      requires_ech = false;
      next_protos = [];
    };
    via = none;
    ech_dialer = none;
  };
  identity = record { client_id = "c"; signing_key = zeros 64; pending_ticket = "" };
}

is_reopened : (open_existing desk places soft begun.world).0 ≡ ok (some reopened)
unfolding open_existing open_found not_fresh ◌>>=◌ ◌>>◌ open_hardened open_session attempt opened
    load_identity lookup string_eq nat_eq lift parse_identity stored_key decode checked pure
    new_hardened_client host_of to_lower configure_ech base_config pin_check with_dialer
is_reopened = refl

open_existing-load_example :
    (load_identity (local_env desk) (keys desk) "id.json" begun.world).0 ≡ ok reopened.identity
open_existing-load_example = open_existing-load desk places soft begun.world reopened is_reopened

execute-core_example :
    (execute desk script (record to_console { dump = true }) stocked).1.core ≡ stocked.core
execute-core_example =
    execute-core desk script (record to_console { dump = true }) (inr (inr refl)) stocked
