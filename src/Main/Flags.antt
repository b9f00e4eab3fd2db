-- ===== src/Main/Flags.antt =====
-- `parseCLI` of main.go. The parsing of arguments is the flag package's: what it does to the options is
-- a list of settings.
pub mod Table
pub mod Guards
use tunnet_lite.Base.{
  String, Bool, true, false, List, [], ◌∷◌, ◌++◌, Option, none, some, contains, ◌==◌, string_eq,
  if◌then◌else◌,
}
use tunnet_lite.Base.Int.{ℤ, pos}
use tunnet_lite.Xcfg.{default_flow}
use tunnet_lite.Main.{CliOptions}
use tunnet_lite.Main.Flags.Table.{
  Variable, string_var, bool_var, int_var, Flag, proxy_flags, wire_flags, control_flags,
}

-- `var options cliOptions`
abbrev pub zero_options : CliOptions
zero_options = record {
  nodes_path = "";
  home_dir = "";
  identity = "";
  control_url = "";
  doh_list = "";
  pin_mode = "";
  pins_path = "";
  verify_url = "";
  route_mode = "";
  fetch_rules = false;
  use_ech = false;
  refresh = false;
  auto_approve = false;
  interactive = false;
  dump = false;
  refresh_every = pos 0;
  supervisor = record {
    listen = "";
    port = pos 0;
    host_slug = "";
    entry_group = "";
    root_domain = "";
    no_front = false;
    udp = false;
    route_mode = "";
    domain_strategy = "";
    assets = "";
    max_entries = pos 0;
    probe_timeout = pos 0;
    probe_url = "";
    health_interval = pos 0;
    health_timeout = pos 0;
    mode = "";
    rtt = "";
    padding = "";
    flow = "";
    state_path = "";
    log_level = "";
  };
}

-- A variable starts at its default.
unfoldable pub initial : Variable → CliOptions → CliOptions
initial (string_var set value) o = set value o
initial (bool_var set value) o = set value o
initial (int_var set value) o = set value o

-- The calls that register flags, with the names that are taken: a name that is taken is a panic.
unfoldable pub register_all : List Flag → List String → CliOptions → Option CliOptions
register_all [] taken o = some o
register_all (flag ∷ flags) taken o =
    if contains taken flag.name
    then none
    else register_all flags (flag.name ∷ taken) (initial flag.var o)

-- What an argument sets.
pub data Setting : Type 0 where
  to_string : String → Setting
  to_bool : Bool → Setting
  to_int : ℤ → Setting

-- `Value.Set`, of a value that fits.
unfoldable pub assign : Variable → Setting → CliOptions → CliOptions
assign (string_var set d) (to_string x) o = set x o
assign (bool_var set d) (to_bool x) o = set x o
assign (int_var set d) (to_int x) o = set x o
assign (string_var set d) (to_bool x) o = o
assign (string_var set d) (to_int x) o = o
assign (bool_var set d) (to_string x) o = o
assign (bool_var set d) (to_int x) o = o
assign (int_var set d) (to_string x) o = o
assign (int_var set d) (to_bool x) o = o

abbrev pub all_flags : List Flag
all_flags = proxy_flags ++ (wire_flags ++ control_flags)

unfoldable pub find_flag : List Flag → String → Option Variable
find_flag [] name = none
find_flag (flag ∷ flags) name = if flag.name == name then some flag.var else find_flag flags name

-- The settings of the arguments, in their order.
unfoldable pub set_all : List (String × Setting) → CliOptions → CliOptions
set_all [] o = o
set_all ((name, value) ∷ rest) o = elim (find_flag all_flags name) [
  | none ↦ set_all rest o
  | some var ↦ set_all rest (assign var value o)
]

-- `parseCLI`, over the settings that `flag.Parse` finds.
unfoldable pub parse_cli : List (String × Setting) → Option CliOptions
parse_cli settings = elim (register_all all_flags [] zero_options) [
  | none ↦ none
  | some o ↦ some (set_all settings o)
]
