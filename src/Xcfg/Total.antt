-- ===== src/Xcfg/Total.antt =====
-- `Build` does not panic: `validate` comes before the first tag is taken.
use tunnet_lite.Base.{
  String, false, List, [], ◌∷◌, ◌++◌, Option, none, some, Result, ok, err, >>=-eq-ok, is_empty,
  string_eq, ◌≡◌, ◌≢◌, refl, arith,
}
use tunnet_lite.Xcfg.{Options, apply_defaults, validate}
use tunnet_lite.Xcfg.Json.{Json}
use tunnet_lite.Xcfg.Render.{
  entry_tags, entry_outbounds, direct_outbound, front_outbounds, config, with_front, build_with,
  build,
}

validate-nonempty : (o : Options) → validate o ≡ ok tt → is_empty o.entries ≡ false
unfolding validate
validate-nonempty o h = ground arith

config-ne-none :
    (o : Options) (ips : List String) (l : List Json)
    → is_empty ips ≡ false
    → config o (entry_tags 0 ips) l ≢ none
unfolding config entry_tags
config-ne-none o [] l h k = cc
config-ne-none o (ip ∷ ips) l h k = cc

with_front-ne-none :
    (o : Options) (r : Result (List Json))
    → ((front : List Json) → r ≡ ok front → is_empty o.entries ≡ false)
    → with_front o r ≢ none
unfolding with_front
with_front-ne-none o (err e) n h = cc
with_front-ne-none o (ok front) n h =
    made _
      (config-ne-none o o.entries
        (entry_outbounds o 0 o.entries ++ (front ++ (direct_outbound ∷ []))) (n front refl))
      h
  where
    made :
        (q : Option Json)
        → q ≢ none
        → ◌≢◌ {A = Option (Result Json)}
            (elim q as (λ _. Option (Result Json)) [ none ↦ none | some json ↦ some (ok json) ])
            none
    made none n k = n refl
    made (some json) n k = cc

build_with-ne-none : (o : Options) → build_with o ≢ none
unfolding build_with
build_with-ne-none o = with_front-ne-none o _ (λ front e.
    let (u, v, f) = >>=-eq-ok (validate o) (λ _. front_outbounds o.front_proxy) e in
    validate-nonempty o v)

-- Whatever the options, `Build` returns a configuration or an error.
pub build-ne-none : (o : Options) → build o ≢ none
unfolding build
build-ne-none o = build_with-ne-none (apply_defaults o)
