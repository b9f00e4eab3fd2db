-- ===== src/Inventory/Select.antt =====
-- `SelectHost`, `SelectGroup` and `SelectRoot` of internal/inventory/inventory.go. `none` is a panic:
-- an index out of range, or `rand.N` at 0.
pub mod Laws
use tunnet_lite.Base.{
  ℕ, String, Bool, true, false, not, ◌&&◌, ◌||◌, List, [], ◌∷◌, Option, none, some, length,
  get_elem?, map, contains, Result, ok, err, errorf, ◌==◌, nat_eq, string_eq, if◌then◌else◌,
}
use mathlib.Core.Option
use tunnet_lite.Base.Texts.{has_substring}
use tunnet_lite.Base.Base64.{codes}
use tunnet_lite.Inventory.Types.{EntryGroup, Host, Inventory}

-- The loop over the hosts.
unfoldable pub select_host_from : String → List Host → Result Host
select_host_from slug [] =
    if slug == ""
    then err (errorf "no online host in inventory" [])
    else err (errorf "no host with slug %q" (slug ∷ []))
select_host_from slug (h ∷ hs) =
    let rest = select_host_from slug hs in
    if not (slug == "") && h.slug == slug
    then ok h
    else if slug == "" && h.online
    then ok h
    else rest

unfoldable pub select_host : Inventory → String → Result Host
select_host inv slug = select_host_from slug inv.hosts

-- Texts by their code points, without regard to case. `fold` maps a code point to the
-- representative of its class under simple case folding, as Go's tables give it.
same_codes : (ℕ → ℕ) → List ℕ → List ℕ → Bool
same_codes fold [] [] = true
same_codes fold [] (d ∷ t) = false
same_codes fold (c ∷ s) [] = false
same_codes fold (c ∷ s) (d ∷ t) = fold c == fold d && same_codes fold s t

-- `strings.EqualFold(s, t)`
unfoldable pub equal_fold : (ℕ → ℕ) → String → String → Bool
unfolding same_codes
equal_fold fold s t = same_codes fold (codes s) (codes t)

module _ (fold : ℕ → ℕ) where
  -- The loop over the groups.
  unfoldable pub select_group_from : String → List EntryGroup → Result EntryGroup
  select_group_from name [] = err (errorf "no entry group matching %q" (name ∷ []))
  select_group_from name (g ∷ gs) =
      let rest = select_group_from name gs in
      if equal_fold fold g.name name || has_substring g.name name then ok g else rest

  unfoldable pub select_group : Inventory → String → Option (Result EntryGroup)
  select_group inv name =
      if name == ""
      then Option.map ok (get_elem? inv.entry_groups 0)
      else some (select_group_from name inv.entry_groups)

-- `draw n` is what `rand.N(n)` returns.
unfoldable pub select_root : (ℕ → ℕ) → Inventory → String → String → Option (Result String)
select_root draw inv pinned cached =
    if not (pinned == "")
    then if not (contains inv.root_domains pinned)
      then some (err (errorf "root domain %q is not in the inventory pool" (pinned ∷ [])))
      else some (ok pinned)
    else if not (cached == "") && contains inv.root_domains cached
    then some (ok cached)
    else Option.map ok (get_elem? inv.root_domains (draw (length inv.root_domains)))
