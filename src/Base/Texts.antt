-- ===== src/Base/Texts.antt =====
-- Go's functions on strings. A text is a list of characters; Go compares strings by their bytes,
-- which for UTF-8 is the order of the code points.
pub mod Order
use Prim.Native.Nat.{ℕ, zero, suc, ◌+◌, ◌-◌, ◌*◌, ◌^◌}
use Prim.Native.Char.{Char, code}
use Prim.Native.String.{String, ◌++◌ as ◌<>◌}
use mathlib.Core.Bool.{Bool, true, false, ◌&&◌, ◌||◌}
use mathlib.Core.List.{List, [], ◌∷◌}
use mathlib.Core.Option.{Option, none, some}
use tunnet_lite.Base.Tests.{leb, if◌then◌else◌}
use tunnet_lite.Base.Equality.{◌==◌, nat_eq, string_eq}
use tunnet_lite.Base.Int.{ℤ, pos, negsuc}

-- `strings.HasPrefix(s, p)`
unfoldable pub has_prefix : String → String → Bool
has_prefix s String.[] = true
has_prefix String.[] (String.◌∷◌ d p) = false
has_prefix (String.◌∷◌ c s) (String.◌∷◌ d p) = code c == code d && has_prefix s p

-- `strings.Contains(s, p)`
unfoldable pub has_substring : String → String → Bool
unfolding has_prefix
has_substring String.[] p = has_prefix String.[] p
has_substring (String.◌∷◌ c s) p = has_prefix (String.◌∷◌ c s) p || has_substring s p

-- `strings.TrimPrefix(s, p)`
unfoldable pub cut_prefix : String → String → String
cut_prefix s String.[] = s
cut_prefix String.[] (String.◌∷◌ d p) = String.[]
cut_prefix (String.◌∷◌ c s) (String.◌∷◌ d p) = cut_prefix s p

unfoldable pub trim_prefix : String → String → String
unfolding has_prefix cut_prefix
trim_prefix s p = if has_prefix s p then cut_prefix s p else s

-- `strings.Split(s, sep)` for a separator of one character: the pieces, in order, of which there
-- is at least one.
split_onto : ℕ → String → String → List String
split_onto sep piece String.[] = piece ∷ []
split_onto sep piece (String.◌∷◌ c s) = elim (code c == sep) [
  | true ↦ piece ∷ split_onto sep String.[] s
  | false ↦ split_onto sep (piece <> (String.◌∷◌ c String.[])) s
]

unfoldable pub split : String → ℕ → List String
unfolding split_onto
split s sep = split_onto sep String.[] s

-- `strings.Join(parts, sep)`
unfoldable pub join : List String → String → String
join [] sep = ""
join (s ∷ []) sep = s
join (s ∷ t ∷ rest) sep = s <> (sep <> join (t ∷ rest) sep)

-- `unicode.IsSpace`
is_space : ℕ → Bool
unfolding nat_eq
is_space c =
    (leb 9 c && leb c 13)
    || c == 32
    || c == 0x85
    || c == 0xa0
    || c == 0x1680
    || (leb 0x2000 c && leb c 0x200a)
    || c == 0x2028
    || c == 0x2029
    || c == 0x202f
    || c == 0x205f
    || c == 0x3000

trim_left : String → String
unfolding is_space
trim_left String.[] = String.[]
trim_left (String.◌∷◌ c s) = if is_space (code c) then trim_left s else String.◌∷◌ c s

trim_right : String → String
unfolding is_space string_eq
trim_right String.[] = String.[]
trim_right (String.◌∷◌ c s) =
    let rest = trim_right s in
    if is_space (code c) && rest == "" then String.[] else String.◌∷◌ c rest

-- `strings.TrimSpace(s)`
unfoldable pub trim_space : String → String
unfolding trim_left trim_right
trim_space s = trim_right (trim_left s)

-- `strings.Fields`, with the field that has begun.
fields_onto : String → String → List String
fields_onto piece String.[] = if piece == "" then [] else piece ∷ []
fields_onto piece (String.◌∷◌ c s) = elim (is_space (code c)) [
  | true ↦ let rest = fields_onto "" s in if piece == "" then rest else piece ∷ rest
  | false ↦ fields_onto (piece <> (String.◌∷◌ c String.[])) s
]

unfoldable pub fields : String → List String
unfolding fields_onto is_space
fields s = fields_onto "" s

-- `strings.ToLower`, by the table of the lower-case letters.
unfoldable pub to_lower : (Char → Char) → String → String
to_lower lower String.[] = ""
to_lower lower (String.◌∷◌ c s) = String.◌∷◌ (lower c) (to_lower lower s)

-- The value of a text of decimal digits, at least one if `some_read` is set or becomes so.
digits_onto : Bool → ℕ → String → Option ℕ
digits_onto some_read n String.[] = if some_read then some n else none
digits_onto some_read n (String.◌∷◌ c s) = elim (leb 48 (code c) && leb (code c) 57) [
  | true ↦ digits_onto true (n * 10 + (code c - 48)) s
  | false ↦ none
]

digits : String → Option ℕ
unfolding digits_onto
digits = digits_onto false 0

-- A magnitude with its sign, if it fits in 64 bits.
signed : Bool → Option ℕ → Option ℤ
signed minus none = none
signed false (some n) = if leb (2 ^ 63) n then none else some (pos n)
signed true (some zero) = some (pos 0)
signed true (some (suc n)) = if leb (2 ^ 63) n then none else some (negsuc n)

-- `strconv.Atoi(s)`: an optional sign and digits, in the range of a 64-bit `int`.
unfoldable pub atoi : String → Option ℤ
unfolding digits signed nat_eq
atoi String.[] = none
atoi (String.◌∷◌ c s) =
    if code c == b'-'
    then signed true (digits s)
    else if code c == b'+'
    then signed false (digits s)
    else signed false (digits (String.◌∷◌ c s))
