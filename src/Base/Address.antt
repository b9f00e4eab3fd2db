-- ===== src/Base/Address.antt =====
-- `net.SplitHostPort` and `net.JoinHostPort`, with `strings.Cut` and `strings.TrimSuffix` at one character.
use Prim.Native.Nat.{ℕ}
use Prim.Native.Char.{code}
use Prim.Native.String.{String, ◌++◌ as ◌<>◌}
use mathlib.Core.Bool.{not, ◌&&◌, ◌||◌}
use mathlib.Core.List.{[]}
use mathlib.Core.Option.{Option, none, some}
use tunnet_lite.Base.Tests.{if◌then◌else◌}
use tunnet_lite.Base.Equality.{◌==◌, nat_eq, string_eq}
use tunnet_lite.Base.Results.{errorf, Result, ok, err}
use tunnet_lite.Base.Texts.{has_prefix, has_substring, trim_prefix}

-- `strings.Cut` at a character.
unfoldable pub cut : ℕ → String → Option (String × String)
cut sep String.[] = none
cut sep (String.◌∷◌ c s) =
    let rest = cut sep s in
    if code c == sep
    then some (String.[], s)
    else elim rest [ none ↦ none | some p ↦ some (String.◌∷◌ c p.0, p.1) ]

-- `net.SplitHostPort` of an address that begins with a bracket, from what stands before and after the
-- closing one.
split_bracketed : String → String → Result (String × String)
split_bracketed head rest = elim (cut b':' rest) [
  | none ↦ err (errorf "missing port in address" [])
  | some p ↦
      if not (p.0 == "")
      then err (errorf "missing port in address" [])
      else if has_substring p.1 ":"
      then err (errorf "too many colons in address" [])
      else if has_substring (trim_prefix head "[") "[" || has_substring rest "["
      then err (errorf "unexpected '[' in address" [])
      else if has_substring rest "]"
      then err (errorf "unexpected ']' in address" [])
      else ok (trim_prefix head "[", p.1)
]

split_plain : String → String × String → Result (String × String)
split_plain s p =
    if has_substring p.1 ":"
    then err (errorf "too many colons in address" [])
    else if has_substring s "["
    then err (errorf "unexpected '[' in address" [])
    else if has_substring s "]"
    then err (errorf "unexpected ']' in address" [])
    else ok p

-- `net.SplitHostPort`
unfoldable pub split_host_port : String → Result (String × String)
unfolding cut split_bracketed split_plain
split_host_port s = elim (cut b':' s) [
  | none ↦ err (errorf "missing port in address" [])
  | some p ↦
      if has_prefix s "["
      then elim (cut b']' s) [
        | none ↦ err (errorf "missing ']' in address" [])
        | some q ↦ split_bracketed q.0 q.1
      ]
      else split_plain s p
]

-- `strings.TrimSuffix(s, "/")`
unfoldable pub trim_slash : String → String
trim_slash String.[] = String.[]
trim_slash (String.◌∷◌ c s) =
    let rest = trim_slash s in if s == "" && code c == b'/' then String.[] else String.◌∷◌ c rest

-- `net.JoinHostPort`
unfoldable pub join_host_port : String → String → String
join_host_port host port =
    if has_substring host ":" then "[" <> (host <> ("]:" <> port)) else host <> (":" <> port)
