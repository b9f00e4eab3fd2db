-- ===== src/Probe.antt =====
-- internal/probe/probe.go. The ranking is over what each address answered: the goroutines write to
-- distinct indices and are all waited for.
pub mod Laws
use tunnet_lite.Base.{
  ℕ, ◌-◌, Result, ok, err, String, Bool, true, false, not, ◌&&◌, ◌||◌, List, [], ◌∷◌, Option, none,
  some, map, Error, if◌then◌else◌,
}
use tunnet_lite.Base.Int.{ℤ, pos}
use tunnet_lite.Base.Int
use tunnet_lite.Base.Sort.{sort}
use tunnet_lite.Base.Address.{join_host_port}
use tunnet_lite.Base.Numerals.{itoa}

-- `Result`, as `probe.Result` is called here. `rtt` is in nanoseconds.
pub record Probed : Type 0 where
  pub ip : String
  pub rtt : ℤ
  pub failure : Option Error

-- `Result.OK`
unfoldable pub is_up : Probed → Bool
is_up r = elim r.failure [ none ↦ true | some e ↦ false ]

-- TCP within a timeout, and the readings of the monotonic clock in nanoseconds.
pub record Tcp : Type 1 where
  pub World : Type 0
  pub Conn : Type 0
  pub connect : ℤ → String → World → Result Conn × World
  pub clock : World → ℕ × World
  pub close : Conn → World → World

module _ (T : Tcp) where
  -- `dial` from the answer of `DialContext` on.
  unfoldable pub dialled : String → ℕ → Result T.Conn × T.World → Probed × T.World
  dialled ip start (err e, w) = (record { ip = ip; rtt = pos 0; failure = some e }, w)
  dialled ip start (ok conn, w) =
      let (end, v) = T.clock w in
      (record { ip = ip; rtt = pos (end - start); failure = none }, T.close conn v)

  -- `dial`
  unfoldable pub dial : ℤ → String → ℕ → T.World → Probed × T.World
  dial timeout ip port w =
      let (start, v) = T.clock w in
      dialled ip start (T.connect timeout (join_host_port ip (itoa port)) v)

-- The test of the stable sort.
unfoldable pub sooner : Probed → Probed → Bool
unfolding is_up
sooner a b =
    if not (is_up a && is_up b || not (is_up a) && not (is_up b))
    then is_up a
    else Int.ltb a.rtt b.rtt

-- `RankTCP`, from what dialling each address gives.
unfoldable pub rank_tcp : (String → Probed) → List String → List Probed
unfolding sooner sort
rank_tcp dial ips = sort sooner (map dial ips)

-- `Reachable`
unfoldable pub reachable : List Probed → List String
unfolding is_up
reachable [] = []
reachable (r ∷ rs) = let rest = reachable rs in if is_up r then r.ip ∷ rest else rest
