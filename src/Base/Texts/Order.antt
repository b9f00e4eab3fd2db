-- ===== src/Base/Texts/Order.antt =====
-- The order of Go strings is total, so `slices.Sort` on strings has one possible result.
use Prim.Native.Char.{code}
use Prim.Native.String.{String}
use mathlib.Core.Path.{◌≡◌, refl, ap₂}
use mathlib.Core.Bool.{Bool, true, false}
use native.Mathlib.Omega.{arith}
use text.Mathlib.TextEquality.{Char-path}
use tunnet_lite.Base.Tests.{ltb, if◌then◌else◌}
use tunnet_lite.Base.Sort.Order.{IsTotal}

-- `s < t`
unfoldable pub less : String → String → Bool
less String.[] String.[] = false
less String.[] (String.◌∷◌ d t) = true
less (String.◌∷◌ c s) String.[] = false
less (String.◌∷◌ c s) (String.◌∷◌ d t) =
    if ltb (code c) (code d) then true else if ltb (code d) (code c) then false else less s t

less_asym : (s t : String) → less s t ≡ true → less t s ≡ false
unfolding less
less_asym String.[] String.[] h = refl
less_asym String.[] (String.◌∷◌ d t) h = refl
less_asym (String.◌∷◌ c s) String.[] h = cc
less_asym (String.◌∷◌ c s) (String.◌∷◌ d t) h = ground (arith, less_asym s t)

less_trans : (r s t : String) → less s r ≡ false → less t s ≡ false → less t r ≡ false
unfolding less
less_trans String.[] String.[] t h k = k
less_trans String.[] (String.◌∷◌ d s) String.[] h k = cc
less_trans String.[] (String.◌∷◌ d s) (String.◌∷◌ e t) h k = refl
less_trans (String.◌∷◌ c r) String.[] t h k = cc
less_trans (String.◌∷◌ c r) (String.◌∷◌ d s) String.[] h k = cc
less_trans (String.◌∷◌ c r) (String.◌∷◌ d s) (String.◌∷◌ e t) h k = ground (arith, less_trans r s t)

less_tight : (s t : String) → less s t ≡ false → less t s ≡ false → s ≡ t
unfolding less
less_tight String.[] String.[] h k = refl
less_tight String.[] (String.◌∷◌ d t) h k = cc
less_tight (String.◌∷◌ c s) String.[] h k = cc
less_tight (String.◌∷◌ c s) (String.◌∷◌ d t) h k =
    ap₂ String.◌∷◌ (Char-path c d (ground arith)) (less_tight s t (ground arith) (ground arith))

pub less-IsTotal : IsTotal less
less-IsTotal = record { weak = record { asym = less_asym; trans = less_trans }; tight = less_tight }
