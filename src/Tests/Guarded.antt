-- ===== src/Tests/Guarded.antt =====
-- Sessions as the flags guard them, on concrete data.
use tunnet_lite.Base.{String, true, false, [], ◌∷◌, none, some, List}
use tunnet_lite.Base.Int.{pos}
use tunnet_lite.Main.{Settings, CliOptions}
use tunnet_lite.Main.Machine.Views.{resolver_for}
use tunnet_lite.Main.Run.{Opened}
use tunnet_lite.Main.Flags.{Setting, to_int}
use tunnet_lite.Tests.Machines.{desk, zeros}
use tunnet_lite.Tests.Resolvers.{upstreams}

abbrev guarded : Opened desk
guarded = record {
  endpoint = "https://cp.example/api";
  transport = record {
    tls = record {
      server_name = "223.5.5.5";
      verify_peer_certificate = none;
      encrypted_client_hello_config_list = 1 ∷ [];
      min_version = 772;
      requires_ech = true;
      next_protos = "h2" ∷ "http/1.1" ∷ [];
    };
    via = some (resolver_for desk upstreams);
    ech_dialer = some (1 ∷ []);
  };
  identity = record { client_id = "c"; signing_key = zeros 64; pending_ticket = "" };
}

abbrev given : List (String × Setting)
given = ("port", to_int (pos 1080)) ∷ []

abbrev parsed : CliOptions
parsed = record {
  nodes_path = "";
  home_dir = "";
  identity = "";
  control_url = "https://client-api.nexttun.net/api/v1/client";
  doh_list = "";
  pin_mode = "tofu";
  pins_path = "";
  verify_url = "";
  route_mode = "global";
  fetch_rules = false;
  use_ech = true;
  refresh = false;
  auto_approve = false;
  interactive = false;
  dump = false;
  refresh_every = pos 0;
  supervisor = record {
    listen = "127.0.0.1";
    port = pos 1080;
    host_slug = "";
    entry_group = "";
    root_domain = "";
    no_front = false;
    udp = false;
    route_mode = "";
    domain_strategy = "";
    assets = "";
    max_entries = pos 0;
    probe_timeout = pos 3000000000;
    probe_url = "";
    health_interval = pos 60000000000;
    health_timeout = pos 15000000000;
    mode = "native";
    rtt = "1rtt";
    padding = "100-35-35";
    flow = "xtls-rprx-vision";
    state_path = "";
    log_level = "warning";
  };
}

abbrev default_settings : Settings
default_settings = record {
  upstreams = some upstreams;
  ech = true;
  pin_mode = "tofu";
  store = some (record { path = "pins.json"; pins = [] });
}

abbrev pinned : Opened desk
pinned = record guarded {
  transport = record guarded.transport {
    tls = record guarded.transport.tls { verify_peer_certificate = some tt };
  };
}
