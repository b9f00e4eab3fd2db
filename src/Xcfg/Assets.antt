-- ===== src/Xcfg/Assets.antt =====
-- `ResolveAssets` of internal/xcfg/routing.go. The environment variable is part of the world.
use tunnet_lite.Base.{
  String, Bool, List, [], ◌∷◌, Option, none, some, is_empty, Error, errorf, Result, ok, err, ◌==◌,
  string_eq, if◌then◌else◌,
}
use tunnet_lite.Base.Texts.{join}

pub record Files : Type 1 where
  pub World : Type 0
  -- `filepath.Abs` and `filepath.Dir`
  pub absolute : String → Result String
  pub dir_of : String → String
  -- `os.Setenv(platform.AssetLocation, dir)`
  pub set_location : String → World → Option Error × World
  -- `platform.GetAssetLocation`
  pub location : String → World → String
  -- whether `os.Stat` succeeds
  pub there : String → World → Bool

-- `GeoFiles`
abbrev pub geo_files : List String
geo_files = "geoip.dat" ∷ "geosite.dat" ∷ []

module _ (F : Files) where
  -- The start of `ResolveAssets`.
  unfoldable pub point_at : String → F.World → Option Error × F.World
  point_at dir w =
      if dir == ""
      then (none, w)
      else elim (F.absolute dir) [ err e ↦ (some e, w) | ok path ↦ F.set_location path w ]

  -- The files that are missing.
  unfoldable pub missing_of : List String → F.World → List String
  missing_of [] w = []
  missing_of (name ∷ names) w =
      let rest = missing_of names w in if F.there (F.location name w) w then rest else name ∷ rest

  -- `found` after the loop.
  unfoldable pub found_in : List String → String → F.World → String
  found_in [] found w = found
  found_in (name ∷ names) found w = found_in names (F.dir_of (F.location name w)) w

  -- The end of `ResolveAssets`: the directory, and the error if there is one.
  unfoldable pub look : F.World → String × Option Error
  look w =
      let missing = missing_of geo_files w in
      let found = found_in geo_files "" w in
      if is_empty missing
      then (found, none)
      else (found, some (errorf "missing rule set %s in %s" (join missing " and " ∷ found ∷ [])))

  unfoldable pub looked : Option Error × F.World → (String × Option Error) × F.World
  looked (some e, w) = (("", some e), w)
  looked (none, w) = (look w, w)

  -- `ResolveAssets`
  unfoldable pub resolve_assets : String → F.World → (String × Option Error) × F.World
  resolve_assets dir w = looked (point_at dir w)
