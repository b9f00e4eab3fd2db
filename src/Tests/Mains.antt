-- ===== src/Tests/Mains.antt =====
-- The hardening of the command line, on concrete data.
use tunnet_lite.Base.{true, [], some, ok, ◌≡◌, refl, string_eq}
use tunnet_lite.Main.{
  Settings, build_hardening, choose_upstreams, resolver_of, with_upstreams, pin_mode_of, harden,
  choose_store,
}
use tunnet_lite.Base.Texts.{trim_space}
use tunnet_lite.Resolver.{validate_upstreams, check_upstreams, check_upstream, check_url}
use tunnet_lite.Pinning.{parse_mode, open_store, open_contents, validate_pins}
use tunnet_lite.Tests.Services.{shelf}
use tunnet_lite.Tests.Resolvers.{lines, upstreams}

abbrev settings : Settings
settings = record {
  upstreams = some upstreams;
  ech = true;
  pin_mode = "tofu";
  store = some (record { path = "pins.json"; pins = [] });
}

is_built : build_hardening lines shelf "" true "tofu" "pins.json" 0 ≡ ok settings
unfolding build_hardening resolver_of choose_upstreams string_eq with_upstreams validate_upstreams
    check_upstreams check_upstream check_url pin_mode_of parse_mode harden choose_store open_store
    trim_space open_contents validate_pins
is_built = refl
