-- ===== src/Main/Flags/Table.antt =====
-- The flags of main.go: what each sets, and its default.
use tunnet_lite.Base.{String, Bool, true, false, List, [], ◌∷◌, string_eq}
use tunnet_lite.Base.Int.{ℤ, pos}
use tunnet_lite.Xcfg.{default_flow}
use tunnet_lite.Main.{CliOptions}

-- `StringVar`, `BoolVar`, and `IntVar` or `DurationVar`: the field and the default. A time is in
-- nanoseconds.
pub data Variable : Type 0 where
  string_var : (String → CliOptions → CliOptions) → String → Variable
  bool_var : (Bool → CliOptions → CliOptions) → Bool → Variable
  int_var : (ℤ → CliOptions → CliOptions) → ℤ → Variable

pub record Flag : Type 0 where
  pub name : String
  pub var : Variable

-- `registerProxyFlags`
abbrev pub proxy_flags : List Flag
proxy_flags =
    (record { name = "dir"; var = string_var (λ x o. record o { home_dir = x }) "" })
    ∷ (record { name = "nodes"; var = string_var (λ x o. record o { nodes_path = x }) "" })
    ∷ (record {
      name = "listen";
      var =
          string_var (λ x o. record o { supervisor = record o.supervisor { listen = x } })
            "127.0.0.1";
    })
    ∷ (record {
      name = "port";
      var = int_var (λ x o. record o { supervisor = record o.supervisor { port = x } }) (pos 18080);
    })
    ∷ (record {
      name = "udp";
      var = bool_var (λ x o. record o { supervisor = record o.supervisor { udp = x } }) false;
    })
    ∷ (record {
      name = "host";
      var = string_var (λ x o. record o { supervisor = record o.supervisor { host_slug = x } }) "";
    })
    ∷ (record {
      name = "entry-group";
      var =
          string_var (λ x o. record o { supervisor = record o.supervisor { entry_group = x } }) "";
    })
    ∷ (record {
      name = "root";
      var =
          string_var (λ x o. record o { supervisor = record o.supervisor { root_domain = x } }) "";
    })
    ∷ (record {
      name = "no-front";
      var = bool_var (λ x o. record o { supervisor = record o.supervisor { no_front = x } }) false;
    })
    ∷ (record { name = "route"; var = string_var (λ x o. record o { route_mode = x }) "global" })
    ∷ (record {
      name = "assets";
      var = string_var (λ x o. record o { supervisor = record o.supervisor { assets = x } }) "";
    })
    ∷ (record { name = "fetch-rules"; var = bool_var (λ x o. record o { fetch_rules = x }) false })
    ∷ (record {
      name = "route-domain-strategy";
      var =
          string_var (λ x o. record o { supervisor = record o.supervisor { domain_strategy = x } })
            "";
    })
    ∷ (record {
      name = "max-entries";
      var =
          int_var (λ x o. record o { supervisor = record o.supervisor { max_entries = x } })
            (pos 0);
    })
    ∷ (record {
      name = "probe-timeout";
      var =
          int_var (λ x o. record o { supervisor = record o.supervisor { probe_timeout = x } })
            (pos 3000000000);
    })
    ∷ []

-- `registerWireFlags`
abbrev pub wire_flags : List Flag
wire_flags =
    (record {
      name = "health-url";
      var = string_var (λ x o. record o { supervisor = record o.supervisor { probe_url = x } }) "";
    })
    ∷ (record {
      name = "health-interval";
      var =
          int_var (λ x o. record o { supervisor = record o.supervisor { health_interval = x } })
            (pos 60000000000);
    })
    ∷ (record {
      name = "health-timeout";
      var =
          int_var (λ x o. record o { supervisor = record o.supervisor { health_timeout = x } })
            (pos 15000000000);
    })
    ∷ (record {
      name = "enc-mode";
      var = string_var (λ x o. record o { supervisor = record o.supervisor { mode = x } }) "native";
    })
    ∷ (record {
      name = "enc-rtt";
      var = string_var (λ x o. record o { supervisor = record o.supervisor { rtt = x } }) "1rtt";
    })
    ∷ (record {
      name = "enc-padding";
      var =
          string_var (λ x o. record o { supervisor = record o.supervisor { padding = x } })
            "100-35-35";
    })
    ∷ (record {
      name = "flow";
      var =
          string_var (λ x o. record o { supervisor = record o.supervisor { flow = x } })
            default_flow;
    })
    ∷ (record {
      name = "state";
      var = string_var (λ x o. record o { supervisor = record o.supervisor { state_path = x } }) "";
    })
    ∷ (record {
      name = "log-level";
      var =
          string_var (λ x o. record o { supervisor = record o.supervisor { log_level = x } })
            "warning";
    })
    ∷ (record { name = "console"; var = bool_var (λ x o. record o { interactive = x }) false })
    ∷ (record { name = "dump-config"; var = bool_var (λ x o. record o { dump = x }) false })
    ∷ []

-- `registerControlFlags`
abbrev pub control_flags : List Flag
control_flags =
    (record { name = "identity"; var = string_var (λ x o. record o { identity = x }) "" })
    ∷ (record { name = "refresh"; var = bool_var (λ x o. record o { refresh = x }) false })
    ∷ (record {
      name = "auto-approve";
      var = bool_var (λ x o. record o { auto_approve = x }) false;
    })
    ∷ (record { name = "verify-url"; var = string_var (λ x o. record o { verify_url = x }) "" })
    ∷ (record {
      name = "control-url";
      var =
          string_var (λ x o. record o { control_url = x })
            "https://client-api.nexttun.net/api/v1/client";
    })
    ∷ (record { name = "doh"; var = string_var (λ x o. record o { doh_list = x }) "" })
    ∷ (record { name = "ech"; var = bool_var (λ x o. record o { use_ech = x }) true })
    ∷ (record { name = "pin-mode"; var = string_var (λ x o. record o { pin_mode = x }) "tofu" })
    ∷ (record { name = "pins"; var = string_var (λ x o. record o { pins_path = x }) "" })
    ∷ (record {
      name = "refresh-interval";
      var = int_var (λ x o. record o { refresh_every = x }) (pos 0);
    })
    ∷ []
