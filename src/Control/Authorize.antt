-- ===== src/Control/Authorize.antt =====
-- internal/control/authorize.go: the verification link in a bootstrap payload. `parse_url` is
-- `url.Parse`, which gives the host of a URL and the text that `URL.String` renders.
use Prim.Native.Char.{code}
use tunnet_lite.Base.{
  ℕ, zero, suc, ◌-◌, String, ◌<>◌, Bool, not, ◌&&◌, ◌||◌, List, [], ◌∷◌, Option, none, some, leb,
  ◌==◌, nat_eq, string_eq, if◌then◌else◌, length,
}
use tunnet_lite.Base.Texts.{has_prefix, cut_prefix}
use tunnet_lite.Base.Base64.{codes}

-- `[A-Za-z0-9.\-]`
unfoldable pub is_host_char : ℕ → Bool
is_host_char c =
    (leb b'A' c && leb c b'Z')
    || (leb b'a' c && leb c b'z')
    || (leb b'0' c && leb c b'9')
    || c == b'.'
    || c == b'-'

-- `[^\s"']`
unfoldable pub is_path_char : ℕ → Bool
is_path_char c = not (c == 9 || c == 10 || c == 12 || c == 13 || c == 32 || c == 34 || c == 39)

-- The longest prefix of characters that pass.
unfoldable pub run : (ℕ → Bool) → String → String
run p String.[] = ""
run p (String.◌∷◌ c s) = let rest = run p s in if p (code c) then String.◌∷◌ c rest else ""

-- The optional group `(?:/[^\s"']*)?`, at the start of a text.
path_at : String → String
path_at String.[] = ""
path_at (String.◌∷◌ c s) = if code c == b'/' then String.◌∷◌ c (run is_path_char s) else ""

-- The match of `urlPattern` at the start of a text, if there is one.
unfoldable pub match_here : String → Option String
unfolding path_at
match_here s =
    let rest = cut_prefix s "https://" in
    let host = run is_host_char rest in
    if has_prefix s "https://" && not (host == "")
    then some ("https://" <> (host <> path_at (cut_prefix rest host)))
    else none

-- `FindAllString`: the matches from left to right, none of which overlap; `skip` characters belong
-- to the last match.
unfoldable pub find_all : ℕ → String → List String
find_all skip String.[] = []
find_all zero (String.◌∷◌ c s) = elim (match_here (String.◌∷◌ c s)) [
  | none ↦ find_all zero s
  | some m ↦ m ∷ find_all (length (codes m) - 1) s
]
find_all (suc skip) (String.◌∷◌ c s) = find_all skip s

-- `strings.TrimRight(s, "\",")`
unfoldable pub trim_end : String → String
trim_end String.[] = ""
trim_end (String.◌∷◌ c s) =
    let rest = trim_end s in
    if (code c == 34 || code c == b',') && rest == "" then "" else String.◌∷◌ c rest

module _ (parse_url : String → Option (String × String)) where
  -- The loop over the candidates.
  unfoldable pub first_access : List String → String
  first_access [] = ""
  first_access (candidate ∷ candidates) = elim (parse_url (trim_end candidate)) [
    | none ↦ first_access candidates
    | some (host, text) ↦
        let rest = first_access candidates in if has_prefix host "access." then text else rest
  ]

  -- `VerificationURL`
  unfoldable pub verification_url : String → String
  verification_url payload = first_access (find_all zero payload)
