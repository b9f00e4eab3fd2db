-- ===== src/Base/Base64.antt =====
-- `encoding/base64`: the URL and the standard alphabet, with and without padding.
pub mod Laws
use Prim.Native.Nat.{ℕ, zero, suc, ◌+◌, ◌-◌, ◌*◌, ◌/◌, ◌%◌}
use Prim.Native.Char.{Char, code, nul}
use Prim.Native.String.{String}
use mathlib.Core.Bool.{Bool, true, false, not, ◌&&◌, ◌||◌}
use mathlib.Core.List.{List, [], ◌∷◌}
use mathlib.Core.Option.{Option, none, some}
use mathlib.Core.Option
use tunnet_lite.Base.Tests.{leb, if◌then◌else◌}
use tunnet_lite.Base.Equality.{◌==◌, nat_eq}
use tunnet_lite.Base.Lists.{select, is_empty}

-- `url` tells the alphabet, `padded` whether the last quantum is filled up with `=`.
pub record Encoding : Type 0 where
  pub url : Bool
  pub padded : Bool

-- `base64.StdEncoding`
abbrev pub std : Encoding
std = record { url = false; padded = true }

-- The code points of a text.
abbrev pub codes : String → List ℕ
codes String.[] = []
codes (String.◌∷◌ c s) = code c ∷ codes s

char_at : String → ℕ → Char
char_at String.[] i = nul
char_at (String.◌∷◌ c s) zero = c
char_at (String.◌∷◌ c s) (suc i) = char_at s i

-- The character of a six-bit digit.
unfoldable pub symbol : Bool → ℕ → Char
unfolding char_at
symbol url v =
    char_at
      (if url
        then "ABCDEFGHIJKLMNOPQRSTUVWXYZabcdefghijklmnopqrstuvwxyz0123456789-_"
        else "ABCDEFGHIJKLMNOPQRSTUVWXYZabcdefghijklmnopqrstuvwxyz0123456789+/")
      v

-- The digit of a character.
unfoldable pub digit : Bool → ℕ → Option ℕ
unfolding nat_eq
digit url c =
    if leb b'A' c && leb c b'Z'
    then some (c - 65)
    else if leb b'a' c && leb c b'z'
    then some (c - 71)
    else if leb b'0' c && leb c b'9'
    then some (c + 4)
    else if c == (if url then b'-' else b'+')
    then some 62
    else if c == (if url then b'_' else b'/')
    then some 63
    else none

module _ (e : Encoding) where
  -- The last quantum: its digits, with padding exactly if the encoding has it.
  last_one : Option ℕ → Option ℕ → Option (List ℕ)
  last_one (some x) (some y) = some ((x * 4 + y / 16) ∷ [])
  last_one _ _ = none

  last_two : Option ℕ → Option ℕ → Option ℕ → Option (List ℕ)
  last_two (some x) (some y) (some z) = some ((x * 4 + y / 16) ∷ (y % 16 * 16 + z / 4) ∷ [])
  last_two _ _ _ = none

  full : Option ℕ → Option ℕ → Option ℕ → Option ℕ → Option (List ℕ) → Option (List ℕ)
  full (some x) (some y) (some z) (some w) (some rest) =
      some ((x * 4 + y / 16) ∷ (y % 16 * 16 + z / 4) ∷ (z % 4 * 64 + w) ∷ rest)
  full _ _ _ _ _ = none

  -- The quanta of a text from which the line ends are gone.
  quanta : List ℕ → Option (List ℕ)
  unfolding last_one last_two full
  quanta [] = some []
  quanta (a ∷ []) = none
  quanta (a ∷ b ∷ []) = if e.padded then none else last_one (digit e.url a) (digit e.url b)
  quanta (a ∷ b ∷ c ∷ []) =
      if e.padded then none else last_two (digit e.url a) (digit e.url b) (digit e.url c)
  quanta (a ∷ b ∷ c ∷ d ∷ rest) =
      if e.padded && d == b'=' && is_empty rest
      then if c == b'='
        then last_one (digit e.url a) (digit e.url b)
        else last_two (digit e.url a) (digit e.url b) (digit e.url c)
      else full (digit e.url a) (digit e.url b) (digit e.url c) (digit e.url d) (quanta rest)

  -- `DecodeString`: line ends are skipped wherever they stand.
  unfoldable pub decode : String → Option (List ℕ)
  unfolding quanta digit nat_eq
  decode s = quanta (select (λ c. not (c == 10 || c == 13)) (codes s))

  -- `EncodeToString`
  unfoldable pub encode : List ℕ → String
  unfolding symbol
  encode [] = ""
  encode (a ∷ []) =
      String.◌∷◌ (symbol e.url (a / 4))
        (String.◌∷◌ (symbol e.url (a % 4 * 16)) (if e.padded then "==" else ""))
  encode (a ∷ b ∷ []) = String.◌∷◌ (symbol e.url (a / 4)) (
      String.◌∷◌ (symbol e.url (a % 4 * 16 + b / 16))
        (String.◌∷◌ (symbol e.url (b % 16 * 4)) (if e.padded then "=" else "")))
  encode (a ∷ b ∷ c ∷ rest) = String.◌∷◌ (symbol e.url (a / 4)) (
      String.◌∷◌ (symbol e.url (a % 4 * 16 + b / 16)) (
        String.◌∷◌ (symbol e.url (b % 16 * 4 + c / 64))
          (String.◌∷◌ (symbol e.url (c % 64)) (encode rest))))
