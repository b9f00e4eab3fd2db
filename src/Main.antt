-- ===== src/Main.antt =====
-- main.go: the locations, the routing choice and the hardening that the options ask for. A location
-- that is not set is the empty text.
pub mod Laws
pub mod Machine
pub mod Flags
pub mod Run
pub mod Execute
use tunnet_lite.Base.{
  ℕ, String, Bool, true, false, not, List, [], Option, none, some, Error, errorf, wrapf, Result, ok,
  err, context, ◌==◌, string_eq, if◌then◌else◌, ◌∷◌,
}
use tunnet_lite.Base.Int.{ℤ}
use tunnet_lite.Base.Texts.{split}
use tunnet_lite.Base.Action.{Action, pure, raise, lift, attempt, ◌>>=◌, ◌>>◌}
use tunnet_lite.Pinning.{Store, Disk, open_store, parse_mode}
use tunnet_lite.Resolver
use tunnet_lite.Resolver.{new_doh}
use tunnet_lite.Paths.{Place, Paths, ensure_dir}
use tunnet_lite.Paths
use tunnet_lite.Supervisor.{Options}
use tunnet_lite.Xcfg.{parse_route_mode}
use tunnet_lite.Xcfg.Assets.{Files, resolve_assets}

-- `cliOptions`
pub record CliOptions : Type 0 where
  pub nodes_path : String
  pub home_dir : String
  pub identity : String
  pub control_url : String
  pub doh_list : String
  pub pin_mode : String
  pub pins_path : String
  pub verify_url : String
  pub route_mode : String
  pub fetch_rules : Bool
  pub use_ech : Bool
  pub refresh : Bool
  pub auto_approve : Bool
  pub interactive : Bool
  pub dump : Bool
  pub refresh_every : ℤ
  pub supervisor : Options

-- `setDefault`: the field, filled if it was unset.
unfoldable pub set_default : String → String → String
set_default field value = if not (field == "") then field else value

-- `applyPaths` from the directory on.
unfoldable pub fill_paths : CliOptions → Paths → CliOptions
fill_paths o p = record o {
  nodes_path = set_default o.nodes_path p.nodes;
  identity = set_default o.identity p.identity;
  pins_path = set_default o.pins_path p.pins;
  supervisor = record o.supervisor {
    state_path = set_default o.supervisor.state_path p.state;
    assets = set_default o.supervisor.assets p.assets;
  };
}

-- `applyPaths`
unfoldable pub apply_paths :
    {World : Type 0}
    → Place
    → (String → World → Option Error × World)
    → CliOptions
    → Action World CliOptions
apply_paths place make_dir o = do
  resolved ← lift (Paths.resolve place o.home_dir)
  made ← attempt (ensure_dir make_dir resolved)
  lift (context "prepare %s: %w" (resolved.dir ∷ []) made)
  pure (fill_paths o resolved)

module _ (F : Files) where
  -- `applyRouting` from the answer of `ResolveAssets` on.
  unfoldable pub routed :
      CliOptions → String → (String × Option Error) × F.World → Result CliOptions × F.World
  routed o mode ((dir, none), w) =
      (ok (record o { supervisor = record o.supervisor { route_mode = mode } }), w)
  routed o mode ((dir, some e), w) =
      if mode == "smart"
      then (
        err (
            wrapf
              "smart routing needs the rule sets: %w\nput geoip.dat and geosite.dat in %s, or pass -assets"
              (dir ∷ []) e),
        w,
      )
      else (ok (record o { supervisor = record o.supervisor { route_mode = mode } }), w)

  -- `applyRouting`
  unfoldable pub apply_routing : CliOptions → Action F.World CliOptions
  apply_routing o = do
    mode ← lift (parse_route_mode o.route_mode)
    (λ w. routed o mode (resolve_assets F o.supervisor.assets w))

-- `control.Hardening` as it is built here: the resolver by its upstreams.
pub record Settings : Type 0 where
  pub upstreams : Option (List String)
  pub ech : Bool
  pub pin_mode : String
  pub store : Option Store

unfoldable pub with_upstreams : Bool → Result (List String) → Result (Option (List String) × Bool)
with_upstreams ech (err e) = err e
with_upstreams ech (ok upstreams) = ok (some upstreams, ech)

-- The switch of `buildHardening`: the upstreams, none for the system's resolver.
unfoldable pub choose_upstreams :
    Resolver.Net → String → Bool → Result (Option (List String) × Bool)
choose_upstreams N doh_list use_ech =
    if doh_list == "off"
    then if use_ech
      then err (errorf "-ech=true requires DoH; use -ech=false with -doh=off" [])
      else ok (none, false)
    else with_upstreams use_ech (new_doh N (if doh_list == "" then [] else split doh_list b','))

-- The pins of `buildHardening`.
unfoldable pub choose_store : (D : Disk) → String → String → D.World → Result (Option Store)
choose_store D mode path w =
    if mode == "off"
    then ok none
    else elim (open_store D path w) [ err e ↦ err e | ok store ↦ ok (some store) ]

module _ (N : Resolver.Net) (D : Disk) where
  -- `buildHardening` from the mode of pinning on.
  unfoldable pub harden :
      Option (List String) × Bool → String → Result (Option Store) → Result Settings
  harden q mode (err e) = err e
  harden q mode (ok store) =
      ok (record { upstreams = q.0; ech = q.1; pin_mode = mode; store = store })

  unfoldable pub pin_mode_of :
      Option (List String) × Bool → String → D.World → Result String → Result Settings
  pin_mode_of q path w (err e) = err e
  pin_mode_of q path w (ok mode) = harden q mode (choose_store D mode path w)

  unfoldable pub resolver_of :
      String → String → D.World → Result (Option (List String) × Bool) → Result Settings
  resolver_of pin_mode path w (err e) = err e
  resolver_of pin_mode path w (ok q) = pin_mode_of q path w (parse_mode pin_mode)

  -- `buildHardening`
  unfoldable pub build_hardening : String → Bool → String → String → D.World → Result Settings
  build_hardening doh_list use_ech pin_mode path w =
      resolver_of pin_mode path w (choose_upstreams N doh_list use_ech)
