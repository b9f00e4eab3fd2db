-- ===== src/Paths/Laws.antt =====
-- When the files of an earlier version are used, and when they are not.
use tunnet_lite.Base.{
  String, Bool, true, false, not, ◌||◌, Result, ok, err, ◌==◌, string_eq, if◌then◌else◌, ◌≡◌, refl,
  sym, ◌∙◌, ◌⊎◌, inl, inr,
}
use mathlib.Core.Path.{subst}
use tunnet_lite.Base.Dict.{lookup}
use tunnet_lite.Paths.{
  Paths, Place, legacy_of, adopt, with_legacy, paths_in, place_in, default_place, resolve,
}

or_true : (b : Bool) → b || true ≡ true
or_true true = refl
or_true false = refl

module _ (P : Place) where
  -- Which of the new location and the old one is used: the old one exactly where it is there and the
  -- new one is not.
  abbrev pub IsChosen : String → String → String → Type 0
  IsChosen path new old =
      ((path ≡ new) × (P.there new || not (P.there old) ≡ true))
      ⊎ ((path ≡ old) × (P.there old ≡ true) × (P.there new ≡ false))

  adopt-IsChosen :
      (current name : String) → IsChosen (adopt P false current name) current (legacy_of name)
  unfolding adopt
  adopt-IsChosen current name = chosen (P.there (legacy_of name)) (P.there current) refl refl
    where
      chosen :
          (a b : Bool)
          → P.there (legacy_of name) ≡ a
          → P.there current ≡ b
          → IsChosen (adopt P false current name) current (legacy_of name)
      chosen true true h k = rw (h, k) (inl (refl, refl))
      chosen true false h k = rw (h, k) (inr (refl, refl, refl))
      chosen false b h k = rw h (inl (refl, or_true (P.there current)))

  -- Paths in a directory, of which each may be replaced by one of the working directory.
  pub record IsSettled (dir : String) (p : Paths) : Type 0 where
    pub base : p.dir ≡ dir
    pub nodes : IsChosen p.nodes (P.join dir "nodes.json") "nodes.json"
    pub identity : IsChosen p.identity (P.join dir "identity.json") "tunnet-lite-identity.json"
    pub pins : IsChosen p.pins (P.join dir "pins.json") "tunnet-lite-pins.json"
    pub state : IsChosen p.state (P.join dir "state.json") "tunnet-lite-state.json"
    pub assets : IsChosen p.assets (P.join dir "assets") "assets"

  with_legacy-IsSettled : (dir : String) → IsSettled dir (with_legacy P (paths_in P dir) false)
  unfolding with_legacy paths_in legacy_of lookup string_eq
  with_legacy-IsSettled dir = record {
    base = refl;
    nodes = adopt-IsChosen (P.join dir "nodes.json") "nodes";
    identity = adopt-IsChosen (P.join dir "identity.json") "identity";
    pins = adopt-IsChosen (P.join dir "pins.json") "pins";
    state = adopt-IsChosen (P.join dir "state.json") "state";
    assets = adopt-IsChosen (P.join dir "assets") "assets";
  }

  at_home :
      (home : String)
      → home ≡ ""
      → (if not (home == "")
          then place_in P true (P.absolute home)
          else default_place P P.user_config_dir)
        ≡ default_place P P.user_config_dir
  unfolding string_eq
  at_home home e = rw e refl

  settled :
      (base dir : String) (r : Result String)
      → r ≡ ok base
      → P.absolute (P.join base "tunnet-lite") ≡ ok dir
      → default_place P r ≡ ok (with_legacy P (paths_in P dir) false)
  unfolding default_place place_in
  settled base dir r q k = rw (q, k) refl

  -- Where nobody names a directory, the paths are those in the user's configuration directory, but for
  -- each file for which there is one of an earlier version in the working directory and none in the new
  -- place: there the old one is used.
  pub resolve-IsSettled :
      (base dir : String) (p : Paths)
      → P.home ≡ ""
      → P.user_config_dir ≡ ok base
      → P.absolute (P.join base "tunnet-lite") ≡ ok dir
      → resolve P "" ≡ ok p
      → IsSettled dir p
  unfolding resolve string_eq
  resolve-IsSettled base dir p e h k g =
      let made : ok (with_legacy P (paths_in P dir) false) ≡ ok p =
        sym (settled base dir P.user_config_dir h k) ∙ sym (at_home P.home e) ∙ g in
      let q : with_legacy P (paths_in P dir) false ≡ p = cc in
      subst (IsSettled dir) q (with_legacy-IsSettled dir)

module _ (P : Place) (there : String → Bool) where
  -- The same surroundings, but for the files that are there.
  abbrev pub with_files : Place
  with_files = record P { there = there }

  place_in-with_files : (r : Result String) → place_in with_files true r ≡ place_in P true r
  unfolding place_in paths_in
  place_in-with_files (err e) = refl
  place_in-with_files (ok dir) = refl

  picked :
      {A : Type 0} (a b : Bool) (z w : A) {x y u v : A}
      → a || b ≡ true
      → x ≡ u
      → y ≡ v
      → (if a then x else if b then y else z) ≡ (if a then u else if b then v else w)
  picked true b z w h e k = e
  picked false true z w h e k = k
  picked false false z w h e k = cc

  -- Where the caller or the environment names a directory, it makes no difference which files are there:
  -- the working directory is never looked at.
  pub resolve-with_files :
      (dir : String)
      → not (dir == "") || not (P.home == "") ≡ true
      → resolve with_files dir ≡ resolve P dir
  unfolding resolve
  resolve-with_files dir h =
      picked (not (dir == "")) (not (P.home == "")) _ _ h (place_in-with_files (P.absolute dir))
        (place_in-with_files (P.absolute P.home))
