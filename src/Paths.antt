-- ===== src/Paths.antt =====
-- internal/paths/paths.go. The environment and the file system are parameters.
pub mod Laws
use tunnet_lite.Base.{
  ℕ, String, ◌<>◌, Bool, true, false, not, ◌&&◌, ◌||◌, List, [], ◌∷◌, any, Option, none, some,
  Error, Result, ok, err, ◌==◌, string_eq, if◌then◌else◌,
}
use tunnet_lite.Base.Dict.{Dict, lookup}
use tunnet_lite.Base.Action.{Action, pure, check}

-- `Paths`
pub record Paths : Type 0 where
  pub dir : String
  pub nodes : String
  pub identity : String
  pub pins : String
  pub state : String
  pub assets : String

-- `legacy`
abbrev pub legacy : Dict String
legacy =
    ("nodes", "nodes.json")
    ∷ ("identity", "tunnet-lite-identity.json")
    ∷ ("pins", "tunnet-lite-pins.json")
    ∷ ("state", "tunnet-lite-state.json")
    ∷ ("assets", "assets")
    ∷ []

-- What the process finds around it; `there` is whether `os.Stat` succeeds.
pub record Place : Type 0 where
  pub home : String
  pub user_config_dir : Result String
  pub there : String → Bool
  -- `filepath.Join`, `filepath.Abs` and `filepath.IsAbs`
  pub join : String → String → String
  pub absolute : String → Result String
  pub is_absolute : String → Bool

-- `legacy[name]`
unfoldable pub legacy_of : String → String
legacy_of name = elim (lookup name legacy) [ none ↦ "" | some path ↦ path ]

-- `Resolve` where there is no configuration directory.
abbrev pub bare : Paths
bare = record { dir = "."; nodes = ""; identity = ""; pins = ""; state = ""; assets = "" }

-- `EnsureDir`
unfoldable pub ensure_dir :
    {World : Type 0} → (String → World → Option Error × World) → Paths → Action World (Unit {0})
ensure_dir make_dir p = if p.dir == "" || p.dir == "." then pure tt else check (make_dir p.dir)

module _ (P : Place) where
  -- `adopt` in `withLegacy`
  unfoldable pub adopt : Bool → String → String → String
  adopt force current name =
      let old = legacy_of name in
      if force then old else if P.there old && not (P.there current) then old else current

  -- `withLegacy`
  unfoldable pub with_legacy : Paths → Bool → Paths
  with_legacy p force = record {
    dir = p.dir;
    nodes = adopt force p.nodes "nodes";
    identity = adopt force p.identity "identity";
    pins = adopt force p.pins "pins";
    state = adopt force p.state "state";
    assets = adopt force p.assets "assets";
  }

  -- The paths in a directory.
  unfoldable pub paths_in : String → Paths
  paths_in dir = record {
    dir = dir;
    nodes = P.join dir "nodes.json";
    identity = P.join dir "identity.json";
    pins = P.join dir "pins.json";
    state = P.join dir "state.json";
    assets = P.join dir "assets";
  }

  -- `Resolve` from the directory on.
  unfoldable pub place_in : Bool → Result String → Result Paths
  place_in explicit (err e) = err e
  place_in explicit (ok dir) =
      if explicit then ok (paths_in dir) else ok (with_legacy (paths_in dir) false)

  -- `Resolve` where neither the caller nor the environment names a directory.
  unfoldable pub default_place : Result String → Result Paths
  default_place (err e) = ok (with_legacy bare true)
  default_place (ok base) = place_in false (P.absolute (P.join base "tunnet-lite"))

  -- `Resolve`
  unfoldable pub resolve : String → Result Paths
  resolve dir =
      if not (dir == "")
      then place_in true (P.absolute dir)
      else if not (P.home == "")
      then place_in true (P.absolute P.home)
      else default_place P.user_config_dir

  -- `UsingLegacy`
  unfoldable pub using_legacy : Paths → Bool
  using_legacy p =
      any (λ path. not (P.is_absolute path)) (p.nodes ∷ p.identity ∷ p.pins ∷ p.state ∷ [])
