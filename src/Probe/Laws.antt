-- ===== src/Probe/Laws.antt =====
-- What the ranking promises: all that answered and nothing else, the fastest first.
use tunnet_lite.Base.{
  select, String, Bool, true, false, not, List, [], ◌∷◌, ◌++◌, map, ◌≡◌, refl, arith, All,
  string_eq,
}
use tunnet_lite.Base.Int.{ℤ, pos}
use tunnet_lite.Base.Int
use mathlib.Core.List.{Permᴰ}
use tunnet_lite.Base.Sort.{sort}
use tunnet_lite.Base.Sort.Order.{IsWeak, IsSorted}
use tunnet_lite.Base.Sort.Laws.{sort-IsSorted, sort-perm}
use tunnet_lite.Probe.{Probed, is_up, sooner, rank_tcp, reachable}

sooner_asym : (a b : Probed) → sooner a b ≡ true → sooner b a ≡ false
unfolding sooner
sooner_asym a b h = ground arith

sooner_trans : (a b c : Probed) → sooner b a ≡ false → sooner c b ≡ false → sooner c a ≡ false
unfolding sooner
sooner_trans a b c h k = ground arith

pub sooner-IsWeak : IsWeak sooner
sooner-IsWeak = record { asym = sooner_asym; trans = sooner_trans }

-- The order of the times alone.
abbrev pub faster : Probed → Probed → Bool
faster a b = Int.ltb a.rtt b.rtt

is_down : Probed → Bool
unfolding is_up
is_down r = not (is_up r)

down_stays :
    (x : Probed) (rs : List Probed)
    → is_up x ≡ false
    → All (λ y. sooner y x ≡ false) rs
    → select is_up rs ≡ []
unfolding sooner
down_stays x [] d h = refl
down_stays x (r ∷ rs) d h = ground (arith, down_stays x rs d)

sorted_apart : (rs : List Probed) → IsSorted sooner rs → rs ≡ select is_up rs ++ select is_down rs
unfolding is_down
sorted_apart [] s = refl
sorted_apart (r ∷ rs) s = ground (arith, sorted_apart rs s.1, down_stays r rs)

faster_than :
    (x : Probed) (rs : List Probed)
    → is_up x ≡ true
    → All (λ y. sooner y x ≡ false) rs
    → All (λ y. faster y x ≡ false) (select is_up rs)
unfolding sooner
faster_than x [] u h = tt
faster_than x (r ∷ rs) u h = ground (arith, faster_than x rs u)

IsSorted-up : (rs : List Probed) → IsSorted sooner rs → IsSorted faster (select is_up rs)
IsSorted-up [] s = tt
IsSorted-up (r ∷ rs) s = ground (arith, IsSorted-up rs s.1, faster_than r rs)

pub reachable-eq : (rs : List Probed) → reachable rs ≡ map (λ r. r.ip) (select is_up rs)
unfolding reachable
reachable-eq [] = refl
reachable-eq (r ∷ rs) = ground (arith, reachable-eq rs)

-- Whatever the dials answer, the ranking is a rearrangement of the answers in which those that
-- succeeded stand first, by time, and those that failed follow; and `Reachable` of it is the
-- addresses of the first part.
pub rank_tcp-IsRanked :
    (dial : String → Probed) (ips : List String)
    → let ranked = rank_tcp dial ips in
      Permᴰ ranked (map dial ips)
      × (ranked ≡ select is_up ranked ++ select (λ r. not (is_up r)) ranked)
      × IsSorted (λ a b. Int.ltb a.rtt b.rtt) (select is_up ranked)
      × (reachable ranked ≡ map (λ r. r.ip) (select is_up ranked))
unfolding rank_tcp is_down
rank_tcp-IsRanked dial ips =
    let l = map dial ips in
    let s = sort-IsSorted sooner sooner-IsWeak l in
    (
      sort-perm sooner l,
      sorted_apart (sort sooner l) s,
      IsSorted-up (sort sooner l) s,
      reachable-eq (sort sooner l),
    )
