-- ===== src/Xcfg.antt =====
-- internal/xcfg: the options, with their defaults and their check, and the modes of routing. The
-- children render the configuration.
pub mod Assets
pub mod Json
pub mod Render
pub mod Bounds
pub mod References
pub mod Total
use Prim.Native.Nat.{ℕ, suc, ◌+◌, ◌-◌, ◌*◌, ◌%◌, ◌^◌}
use tunnet_lite.Base.{
  String, ◌<>◌, Bool, true, false, not, ◌&&◌, ◌||◌, List, [], ◌∷◌, Option, none, some, is_empty,
  errorf, Result, ok, err, ◌>>=◌, ◌>>◌, fail_if, ◌==◌, string_eq, if◌then◌else◌, ltb,
}
use tunnet_lite.Base.Int.{ℤ, pos, negsuc}
use tunnet_lite.Base.Int
use tunnet_lite.Inventory.{FrontProxy}

-- `Options`. Times are in nanoseconds.
pub record Options : Type 0 where
  pub listen : String
  pub port : ℤ
  pub client_id : String
  pub logical_host : String
  pub encryption_key : String
  pub entries : List String
  pub front_proxy : Option FrontProxy
  pub udp : Bool
  pub route_mode : String
  pub domain_strategy : String
  pub mode : String
  pub rtt : String
  pub padding : String
  pub flow : String
  pub probe_url : String
  pub probe_interval : ℤ
  pub probe_timeout : ℤ
  pub log_level : String

abbrev pub default_flow : String
default_flow = "xtls-rprx-vision"

-- `if s == "" { s = d }`
or_default : String → String → String
or_default s d = if s == "" then d else s

-- The flow after both of its tests.
pick_flow : String → String
pick_flow flow = if flow == "" then default_flow else if flow == "none" then "" else flow

with_udp : Bool → String → String
with_udp udp flow = if udp && flow == default_flow then default_flow <> "-udp443" else flow

-- `4 * d` in 64 bits.
times_four : ℤ → ℤ
times_four (pos n) =
    let m = (n * 4) % 2 ^ 64 in if ltb m (2 ^ 63) then pos m else negsuc (2 ^ 64 - m - 1)
times_four (negsuc n) =
    let m = (n * 4 + 3) % 2 ^ 64 in if ltb m (2 ^ 63) then negsuc m else pos (2 ^ 64 - m - 1)

unfoldable pub pick_timeout : ℤ → ℤ
pick_timeout d = if Int.ltb (pos 0) d then d else pos 15000000000

unfoldable pub pick_interval : ℤ → ℤ → ℤ
unfolding times_four
pick_interval interval timeout = if Int.ltb timeout interval then interval else times_four timeout

-- `applyDefaults`
unfoldable pub apply_defaults : Options → Options
unfolding or_default pick_flow with_udp
apply_defaults o = record o {
  mode = or_default o.mode "native";
  rtt = or_default o.rtt "1rtt";
  padding = or_default o.padding "100-35-35";
  flow = with_udp o.udp (pick_flow o.flow);
  probe_url = or_default o.probe_url "https://connectivitycheck.gstatic.com/generate_204";
  probe_timeout = pick_timeout o.probe_timeout;
  probe_interval = pick_interval o.probe_interval (pick_timeout o.probe_timeout);
  log_level = or_default o.log_level "warning";
  route_mode = or_default o.route_mode "global";
  listen = or_default o.listen "127.0.0.1";
}

-- `validate`. The port of a message is not rendered.
unfoldable pub validate : Options → Result (Unit {0})
validate o = do
  fail_if (o.client_id == "") (errorf "client id is empty" [])
  fail_if (o.encryption_key == "") (errorf "encryption key is empty" [])
  fail_if (o.logical_host == "") (errorf "logical host is empty" [])
  fail_if (is_empty o.entries) (errorf "no entry address" [])
  fail_if (not (Int.ltb (pos 0) o.port) || Int.ltb (pos 65535) o.port)
      (errorf "invalid socks port %d" [])

-- `ParseRouteMode`
unfoldable pub parse_route_mode : String → Result String
parse_route_mode s =
    if s == "global" || s == "smart"
    then ok s
    else err (errorf "unknown route mode %q; expected global or smart" (s ∷ []))
