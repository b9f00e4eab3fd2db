-- ===== src/Control/Version.antt =====
-- internal/control/version.go: the order of dotted version numbers.
pub mod Laws
use Prim.Native.Nat.{max}
use tunnet_lite.Base.{
  ℕ, zero, suc, ◌-◌, String, Bool, true, false, List, [], ◌∷◌, Option, none, some, length,
  get_elem?, ltb, if◌then◌else◌,
}
use tunnet_lite.Base.Int
use tunnet_lite.Base.Int.{ℤ, pos}
use tunnet_lite.Base.Texts.{split, trim_space, atoi}

-- The value of a part; a part that is no number counts as zero.
unfoldable pub part_value : String → ℤ
part_value s = elim (atoi (trim_space s)) [ none ↦ pos 0 | some v ↦ v ]

unfoldable pub component : List String → ℕ → ℤ
component parts i = elim (get_elem? parts i) [ none ↦ pos 0 | some s ↦ part_value s ]

-- The loop from index `i`, with `left` rounds to go.
unfoldable pub less_from : ℕ → ℕ → List String → List String → Bool
less_from zero i xs ys = false
less_from (suc left) i xs ys =
    let rest = less_from left (suc i) xs ys in
    let av = component xs i in
    let bv = component ys i in if Int.ltb av bv then true else if Int.ltb bv av then false else rest

unfoldable pub version_less : String → String → Bool
version_less a b =
    let xs = split a b'.' in
    let ys = split b b'.' in less_from (max (length xs) (length ys)) 0 xs ys
