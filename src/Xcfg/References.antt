-- ===== src/Xcfg/References.antt =====
-- What `Build` renders: exactly when, and that the tags it refers to are those of its outbounds.
use tunnet_lite.Base.{
  ℕ, suc, String, ◌<>◌, List, [], ◌∷◌, ◌++◌, Option, none, some, map, Result, ok, err, string_eq,
  ◌≡◌, refl, ap, sym, ◌∙◌, arith, ◌>>=◌, >>=-eq-ok,
}
use tunnet_lite.Base.Numerals.{itoa}
use tunnet_lite.Base.Int.{ℤ}
use tunnet_lite.Inventory.{FrontProxy}
use tunnet_lite.Xcfg.{Options, apply_defaults, validate}
use tunnet_lite.Xcfg.Json.{
  Json, text, number, array, obj, items, Items, nil, item, at_key, at_field,
}
use tunnet_lite.Xcfg.Render.{
  split_endpoint, front_outbound, entry_outbound, entry_tags, entry_outbounds, direct_outbound,
  front_outbounds, config_from, config, with_front, build_with, build,
}

-- The outbounds of a configuration.
abbrev pub elements : Items → List Json
elements nil = []
elements (item j js) = j ∷ elements js

elements-items : (l : List Json) → elements (items l) ≡ l
elements-items [] = refl
elements-items (j ∷ js) = ap (λ t. j ∷ t) (elements-items js)

abbrev pub tag_of : Json → Option Json
tag_of j = at_key "tag" j

abbrev pub front_tags : Option FrontProxy → List String
front_tags none = []
front_tags (some fp) = "front-proxy" ∷ []

entry_outbounds-tags :
    (o : Options) (i : ℕ) (ips : List String)
    → map tag_of (entry_outbounds o i ips) ≡ map (λ t. some (text t)) (entry_tags i ips)
unfolding entry_outbounds entry_tags entry_outbound at_key at_field string_eq
entry_outbounds-tags o i [] = refl
entry_outbounds-tags o i (ip ∷ ips) =
    ap (λ t. some (text ("entry-" <> itoa i)) ∷ t) (entry_outbounds-tags o (suc i) ips)

-- Where a configuration names its outbounds, and its fallback.
abbrev pub outbounds_in : Option Json → List Json
outbounds_in (some (array js)) = elements js
outbounds_in _ = []

abbrev pub outbounds_of : Json → List Json
outbounds_of j = outbounds_in (at_key "outbounds" j)

abbrev pub first_of : Option Json → Option Json
first_of (some (array (item j js))) = some j
first_of _ = none

abbrev pub at : String → Option Json → Option Json
at k none = none
at k (some j) = at_key k j

abbrev pub fallback_of : Json → Option Json
fallback_of j = at "fallbackTag" (first_of (at "balancers" (at_key "routing" j)))

abbrev pub as_texts : List String → List (Option Json)
as_texts l = map (λ t. some (text t)) l

config-outbounds :
    (o : Options) (tag : String) (l : List Json) → outbounds_of (config_from o tag l) ≡ l
unfolding config_from at_key at_field string_eq
config-outbounds o tag l = elements-items l

config-fallback :
    (o : Options) (tag : String) (l : List Json)
    → fallback_of (config_from o tag l) ≡ some (text tag)
unfolding config_from at_key at_field string_eq
config-fallback o tag l = refl

front_outbound-tag :
    (fp : FrontProxy) (j : Json) → front_outbound fp ≡ ok j → tag_of j ≡ some (text "front-proxy")
unfolding front_outbound at_key at_field string_eq
front_outbound-tag fp j h = rendered (split_endpoint fp.endpoint) h
  where
    rendered :
        (r : Result (String × ℤ))
        → (r >>= λ e. ok (
            obj (
              ("tag", text "front-proxy")
              ∷ ("protocol", text "http")
              ∷ (
                "settings",
                obj (
                    (
                      "servers",
                      array (items (obj (("address", text e.0) ∷ ("port", number e.1) ∷ []) ∷ [])),
                    )
                    ∷ ("headers", obj (map (λ h. (h.0, text h.1)) fp.headers))
                    ∷ []),
              )
              ∷ [])))
          ≡ ok j
        → tag_of j ≡ some (text "front-proxy")
    rendered (ok e) h = ground arith
    rendered (err e) h = cc

front_outbounds-tags :
    (f : Option FrontProxy) (l : List Json)
    → front_outbounds f ≡ ok l
    → map tag_of l ≡ as_texts (front_tags f)
unfolding front_outbounds
front_outbounds-tags none l h = ground arith
front_outbounds-tags (some fp) l h =
    let (j, e, k) = >>=-eq-ok (front_outbound fp) _ h in
    let t = front_outbound-tag fp j e in let s : j ∷ [] ≡ l = cc in rw (sym s, t) refl

map-append : {A B : Type 0} (f : A → B) (xs ys : List A) → map f (xs ++ ys) ≡ map f xs ++ map f ys
map-append f [] ys = refl
map-append f (x ∷ xs) ys = ap (λ t. f x ∷ t) (map-append f xs ys)

outbounds-tags :
    (o : Options) (front : List Json)
    → front_outbounds o.front_proxy ≡ ok front
    → map tag_of (entry_outbounds o 0 o.entries ++ (front ++ (direct_outbound ∷ [])))
      ≡ as_texts (entry_tags 0 o.entries ++ (front_tags o.front_proxy ++ ("direct" ∷ [])))
unfolding at_key at_field string_eq
outbounds-tags o front h =
    rw
      (
        map-append tag_of (entry_outbounds o 0 o.entries) (front ++ (direct_outbound ∷ [])),
        map-append tag_of front (direct_outbound ∷ []),
        entry_outbounds-tags o 0 o.entries,
        front_outbounds-tags o.front_proxy front h,
        map-append (λ t. some (text t)) (entry_tags 0 o.entries)
            (front_tags o.front_proxy ++ ("direct" ∷ [])),
        map-append (λ t. some (text t)) (front_tags o.front_proxy) ("direct" ∷ []),
      )
      refl

config-inv :
    (o : Options) (ips : List String) (l : List Json) (q : Option Json) (j : Json)
    → config o (entry_tags 0 ips) l ≡ q
    → ◌≡◌ {A = Option (Result Json)}
        (elim q as (λ _. Option (Result Json)) [ none ↦ none | some json ↦ some (ok json) ])
        (some (ok j))
    → config_from o ("entry-" <> itoa 0) l ≡ j
unfolding entry_tags config
config-inv o ips l none j e h = cc
config-inv o [] l (some json) j e h = cc
config-inv o (ip ∷ ips) l (some json) j e h = cc

with_front-inv :
    (o : Options) (r : Result (List Json)) (j : Json)
    → with_front o r ≡ some (ok j)
    → (front : List Json) × (r ≡ ok front)
      × (config_from o
            ("entry-" <> itoa 0)
            (entry_outbounds o 0 o.entries ++ (front ++ (direct_outbound ∷ [])))
          ≡ j)
unfolding with_front
with_front-inv o (err e) j h = cc
with_front-inv o (ok front) j h = (
  front,
  refl,
  config-inv o o.entries (entry_outbounds o 0 o.entries ++ (front ++ (direct_outbound ∷ []))) _ j
      refl h,
)

build_with-parts :
    (o : Options) (j : Json)
    → build_with o ≡ some (ok j)
    → (front : List Json) × (front_outbounds o.front_proxy ≡ ok front)
      × (config_from o
            ("entry-" <> itoa 0)
            (entry_outbounds o 0 o.entries ++ (front ++ (direct_outbound ∷ [])))
          ≡ j)
unfolding build_with
build_with-parts o j h =
    let (front, e, k) = with_front-inv o _ j h in
    let (u, v, f) = >>=-eq-ok (validate o) _ e in (front, f, k)

-- A configuration that `Build` renders has one outbound for each entry, tagged by the entry's index,
-- then the one of the front proxy exactly if there is a proxy, then the direct one; and the
-- balancer's fallback is the tag of the first entry's outbound.
pub build-tags :
    (o : Options) (j : Json)
    → build o ≡ some (ok j)
    → (map tag_of (outbounds_of j)
        ≡ as_texts (entry_tags 0 o.entries ++ (front_tags o.front_proxy ++ ("direct" ∷ []))))
      × (fallback_of j ≡ some (text ("entry-" <> itoa 0)))
unfolding build apply_defaults
build-tags o j h =
    let d = apply_defaults o in
    let (front, f, e) = build_with-parts d j h in
    rw (sym e) (
      ap (map tag_of) (config-outbounds d ("entry-" <> itoa 0) _) ∙ outbounds-tags d front f,
      config-fallback d ("entry-" <> itoa 0) _,
    )
