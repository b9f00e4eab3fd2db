-- ===== src/Main/Laws.antt =====
-- What the hardening is that the options ask for.
use tunnet_lite.Base.{
  String, Bool, true, false, not, List, [], All, Option, none, some, errorf, Result, ok, err, ◌==◌,
  string_eq, if◌then◌else◌, ◌≡◌, refl, sym, ap, ◌∙◌, arith,
}
use mathlib.Core.Path.{subst}
use tunnet_lite.Base.Dict.{is_some}
use tunnet_lite.Base.Texts.{split}
use tunnet_lite.Pinning.{Store, Disk, open_store, parse_mode}
use tunnet_lite.Pinning.Laws.{IsPins, open_store-IsPins}
use tunnet_lite.Resolver
use tunnet_lite.Resolver.{new_doh}
use tunnet_lite.Resolver.Laws.{IsUpstream, validate_upstreams-All}
use tunnet_lite.Main.{
  Settings, with_upstreams, choose_upstreams, choose_store, harden, pin_mode_of, resolver_of,
  build_hardening,
}

-- Upstreams, if there are any, whose hosts are literal addresses.
abbrev pub AreUpstreams : Resolver.Net → Option (List String) → Type 0
AreUpstreams N none = Unit {0}
AreUpstreams N (some urls) = All (IsUpstream N) urls

-- A store, if there is one, whose pins are well-formed.
abbrev pub IsStored : Option Store → Type 0
IsStored none = Unit {0}
IsStored (some store) = IsPins store.pins

-- Settings that are what the flags say, none of which is dropped.
pub record IsAsked (N : Resolver.Net) (doh_list : String) (use_ech : Bool) (pin_mode : String)
    (s : Settings) : Type 0 where
  pub ech : s.ech ≡ use_ech
  pub resolver : is_some s.upstreams ≡ not (doh_list == "off")
  pub upstreams : AreUpstreams N s.upstreams
  pub mode : s.pin_mode ≡ pin_mode
  pub store : is_some s.store ≡ not (pin_mode == "off")
  pub pins : IsStored s.store

-- The resolver and the use of ECH.
abbrev IsChoice : Resolver.Net → String → Bool → Option (List String) × Bool → Type 0
IsChoice N doh_list use_ech q =
    (q.1 ≡ use_ech) × (is_some q.0 ≡ not (doh_list == "off")) × AreUpstreams N q.0

module _ (N : Resolver.Net) where
  with_upstreams-IsChoice :
      (doh_list : String) (ech : Bool) (from : List String) (r : Result (List String))
      (q : Option (List String) × Bool)
      → (doh_list == "off") ≡ false
      → new_doh N from ≡ r
      → with_upstreams ech r ≡ ok q
      → IsChoice N doh_list ech q
  unfolding with_upstreams
  with_upstreams-IsChoice doh_list ech from (err e) q f k h = cc
  with_upstreams-IsChoice doh_list ech from (ok urls) q f k h =
      let e : (some urls, ech) ≡ q = cc in
      subst (IsChoice N doh_list ech) e (refl, ap not (sym f), validate_upstreams-All N from urls k)

  choose_upstreams-IsChoice :
      (doh_list : String) (use_ech : Bool) (q : Option (List String) × Bool)
      → choose_upstreams N doh_list use_ech ≡ ok q
      → IsChoice N doh_list use_ech q
  unfolding choose_upstreams
  choose_upstreams-IsChoice doh_list use_ech q h = chosen (doh_list == "off") use_ech refl h
    where
      from : List String
      from = if doh_list == "" then [] else split doh_list b','

      chosen :
          (a b : Bool)
          → (doh_list == "off") ≡ a
          → (if a
              then if b
                then err (errorf "-ech=true requires DoH; use -ech=false with -doh=off" [])
                else ok (none, false)
              else with_upstreams b (new_doh N from))
            ≡ ok q
          → IsChoice N doh_list b q
      chosen true true e k = cc
      chosen true false e k =
          let p : (none, false) ≡ q = cc in
          subst (IsChoice N doh_list false) p (refl, ap not (sym e), tt)
      chosen false b e k = with_upstreams-IsChoice doh_list b from (new_doh N from) q e refl k

parse_mode-eq-ok : (s mode : String) → parse_mode s ≡ ok mode → s ≡ mode
unfolding parse_mode
parse_mode-eq-ok s mode h = ground arith

-- The store for a mode.
abbrev IsKept : String → Option Store → Type 0
IsKept mode store = (is_some store ≡ not (mode == "off")) × IsStored store

choose_store-IsKept :
    (D : Disk) (mode path : String) (w : D.World) (store : Option Store)
    → choose_store D mode path w ≡ ok store
    → IsKept mode store
unfolding choose_store
choose_store-IsKept D mode path w store h = chosen (mode == "off") refl h
  where
    opened :
        (r : Result Store)
        → (mode == "off") ≡ false
        → open_store D path w ≡ r
        → elim r as (λ _. Result (Option Store)) [ err e ↦ err e | ok s ↦ ok (some s) ] ≡ ok store
        → IsKept mode store
    opened (err e) f k g = cc
    opened (ok s) f k g =
        let e : some s ≡ store = cc in
        subst (IsKept mode) e (ap not (sym f), (open_store-IsPins D path w s k).1)

    chosen :
        (a : Bool)
        → (mode == "off") ≡ a
        → (if a then ok none else elim (open_store D path w) as (λ _. Result (Option Store)) [
          | err e ↦ err e
          | ok s ↦ ok (some s)
        ])
          ≡ ok store
        → IsKept mode store
    chosen true e k = let q : none ≡ store = cc in subst (IsKept mode) q (ap not (sym e), tt)
    chosen false e k = opened (open_store D path w) e refl k

module _ (N : Resolver.Net) (D : Disk) (doh_list : String) (use_ech : Bool) (pin_mode path : String)
    (w : D.World) (s : Settings) where
  harden-IsAsked :
      (q : Option (List String) × Bool) (r : Result (Option Store))
      → IsChoice N doh_list use_ech q
      → choose_store D pin_mode path w ≡ r
      → harden N D q pin_mode r ≡ ok s
      → IsAsked N doh_list use_ech pin_mode s
  unfolding harden
  harden-IsAsked q (err e) c k h = cc
  harden-IsAsked q (ok store) c k h =
      let i = choose_store-IsKept D pin_mode path w store k in
      let made : Settings = record {
        upstreams = q.0;
        ech = q.1;
        pin_mode = pin_mode;
        store = store;
      } in
      let e : made ≡ s = cc in
      subst (IsAsked N doh_list use_ech pin_mode) e (record {
        ech = c.0;
        resolver = c.1;
        upstreams = c.2;
        mode = refl;
        store = i.0;
        pins = i.1;
      })

  pin_mode_of-IsAsked :
      (q : Option (List String) × Bool) (r : Result String)
      → IsChoice N doh_list use_ech q
      → parse_mode pin_mode ≡ r
      → pin_mode_of N D q path w r ≡ ok s
      → IsAsked N doh_list use_ech pin_mode s
  unfolding pin_mode_of
  pin_mode_of-IsAsked q (err e) c k h = cc
  pin_mode_of-IsAsked q (ok mode) c k h =
      let e = parse_mode-eq-ok pin_mode mode k in
      harden-IsAsked q (choose_store D pin_mode path w) c refl
        (ap (λ m. harden N D q m (choose_store D m path w)) e ∙ h)

  -- What `buildHardening` returns is what the flags ask for, and no flag is dropped in silence: ECH is
  -- required exactly if it was asked for, there is a resolver unless DNS over HTTPS is off, with upstreams
  -- under literal addresses, and there is a store of well-formed pins unless pinning is off.
  pub build_hardening-IsAsked :
      build_hardening N D doh_list use_ech pin_mode path w ≡ ok s
      → IsAsked N doh_list use_ech pin_mode s
  unfolding build_hardening resolver_of
  build_hardening-IsAsked h = chosen (choose_upstreams N doh_list use_ech) refl h
    where
      chosen :
          (r : Result (Option (List String) × Bool))
          → choose_upstreams N doh_list use_ech ≡ r
          → resolver_of N D pin_mode path w r ≡ ok s
          → IsAsked N doh_list use_ech pin_mode s
      chosen (err e) k g = cc
      chosen (ok q) k g =
          pin_mode_of-IsAsked q (parse_mode pin_mode)
            (choose_upstreams-IsChoice N doh_list use_ech q k) refl g
