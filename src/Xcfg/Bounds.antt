-- ===== src/Xcfg/Bounds.antt =====
-- The times of the health checks with the defaults, in nanoseconds.
use Prim.Native.Nat.{ℕ, ◌*◌, ◌^◌, ◌<◌}
use tunnet_lite.Base.{true, ◌≡◌, arith}
use tunnet_lite.Base.Int.{ℤ, pos, negsuc, ◌<ℤ◌, ltb→<ℤ}
use tunnet_lite.Base.Int
use tunnet_lite.Xcfg.{Options, pick_timeout, pick_interval, times_four, apply_defaults}

pick_timeout-pos : (d : ℤ) → Int.ltb (pos 0) (pick_timeout d) ≡ true
unfolding pick_timeout
pick_timeout-pos d = ground arith

times_four-small : (n : ℕ) → n < 2 ^ 61 → times_four (pos n) ≡ pos (n * 4)
unfolding times_four
times_four-small n h = ground arith

pick_interval-above :
    (i d : ℤ)
    → Int.ltb (pos 0) d ≡ true
    → Int.ltb d (pos (2 ^ 61)) ≡ true
    → Int.ltb d (pick_interval i d) ≡ true
unfolding pick_interval
pick_interval-above i (pos n) p b = ground (arith, times_four-small n)
pick_interval-above i (negsuc n) p b = absurd (ground arith)

pick_timeout-small :
    (d : ℤ) → Int.ltb d (pos (2 ^ 61)) ≡ true → Int.ltb (pick_timeout d) (pos (2 ^ 61)) ≡ true
unfolding pick_timeout
pick_timeout-small d h = ground arith

-- With the defaults applied, and for a timeout below 2^61 nanoseconds, the timeout of a health check
-- is above 0 and the interval between checks is above the timeout, both in nanoseconds, before they
-- are rendered.
pub apply_defaults-rounds :
    (o : Options)
    → Int.ltb o.probe_timeout (pos (2 ^ 61)) ≡ true
    → (pos 0 <ℤ (apply_defaults o).probe_timeout)
      × ((apply_defaults o).probe_timeout <ℤ (apply_defaults o).probe_interval)
unfolding apply_defaults
apply_defaults-rounds o h =
    let p = pick_timeout-pos o.probe_timeout in
    let t = pick_timeout o.probe_timeout in
    (
      ltb→<ℤ (pos 0) t p,
      ltb→<ℤ t (pick_interval o.probe_interval t)
          (pick_interval-above o.probe_interval t p (pick_timeout-small o.probe_timeout h)),
    )
