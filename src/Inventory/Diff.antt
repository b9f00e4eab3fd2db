-- ===== src/Inventory/Diff.antt =====
-- internal/inventory/diff.go: what changed from one inventory to the next.
pub mod Laws
pub mod Report
pub mod Summary
pub mod Quiet
use tunnet_lite.Base.{
  ℕ, String, ◌<>◌, Bool, true, false, not, ◌&&◌, List, [], ◌∷◌, ◌++◌, Option, none, some, length,
  is_empty, select, contains, ◌==◌, nat_eq, string_eq, if◌then◌else◌,
}
use tunnet_lite.Base.Sort.{sort}
use tunnet_lite.Base.Texts.{join}
use tunnet_lite.Base.Texts.Order.{less}
use tunnet_lite.Base.Dict.{Dict, lookup, insert, keys, is_some}
use tunnet_lite.Inventory.Types.{EntryGroup, Host, Inventory}

pub record Changes : Type 0 where
  pub hosts_added : List String
  pub hosts_removed : List String
  pub went_online : List String
  pub went_offline : List String
  pub keys_rotated : List String
  pub groups_added : List String
  pub groups_removed : List String
  pub pools_changed : List String
  pub roots_added : List String
  pub roots_removed : List String

abbrev pub no_changes : Changes
no_changes = record {
  hosts_added = [];
  hosts_removed = [];
  went_online = [];
  went_offline = [];
  keys_rotated = [];
  groups_added = [];
  groups_removed = [];
  pools_changed = [];
  roots_added = [];
  roots_removed = [];
}

-- `Changes.Empty`
unfoldable pub empty : Changes → Bool
empty c =
    is_empty c.hosts_added
    && is_empty c.hosts_removed
    && is_empty c.went_online
    && is_empty c.went_offline
    && is_empty c.keys_rotated
    && is_empty c.groups_added
    && is_empty c.groups_removed
    && is_empty c.pools_changed
    && is_empty c.roots_added
    && is_empty c.roots_removed

-- The closure `add` of `Changes.String`.
unfoldable pub add_line : String → List String → List String → List String
add_line label values lines =
    if is_empty values then lines else lines ++ ((label <> ": ") <> join values ", ") ∷ []

-- `Changes.String`
unfoldable pub to_string : Changes → String
to_string c =
    let lines = add_line "exits added" c.hosts_added [] in
    let lines = add_line "exits removed" c.hosts_removed lines in
    let lines = add_line "came online" c.went_online lines in
    let lines = add_line "went offline" c.went_offline lines in
    let lines = add_line "keys rotated" c.keys_rotated lines in
    let lines = add_line "ingresses added" c.groups_added lines in
    let lines = add_line "ingresses removed" c.groups_removed lines in
    let lines = add_line "address pools changed" c.pools_changed lines in
    let lines = add_line "root domains added" c.roots_added lines in
    join (add_line "root domains removed" c.roots_removed lines) "; "

-- The loop of `hostsBySlug`.
unfoldable pub index_hosts : List Host → Dict Host → Dict Host
index_hosts [] out = out
index_hosts (h ∷ hs) out = index_hosts hs (insert h.slug h out)

unfoldable pub hosts_by_slug : Inventory → Dict Host
hosts_by_slug inv = index_hosts inv.hosts []

-- The loop of `groupsByName`.
unfoldable pub index_groups : List EntryGroup → Dict EntryGroup → Dict EntryGroup
index_groups [] out = out
index_groups (g ∷ gs) out = index_groups gs (insert g.name g out)

unfoldable pub groups_by_name : Inventory → Dict EntryGroup
groups_by_name inv = index_groups inv.entry_groups []

unfoldable pub sorted_missing : {T : Type 0} → Dict T → Dict T → List String
sorted_missing have from = sort less (select (λ key. not (is_some (lookup key from))) (keys have))

unfoldable pub sorted_difference : List String → List String → List String
sorted_difference have from = sort less (select (λ v. not (contains from v)) have)

-- `slices.Equal`
unfoldable pub equal : List String → List String → Bool
equal [] [] = true
equal [] (y ∷ ys) = false
equal (x ∷ xs) [] = false
equal (x ∷ xs) (y ∷ ys) = x == y && equal xs ys

unfoldable pub same_addresses : List String → List String → Bool
same_addresses a b = if not (length a == length b) then false else equal (sort less a) (sort less b)

-- The zero values that a read of a missing key gives.
abbrev pub zero_host : Host
zero_host = record { slug = ""; name = ""; key = ""; online = false }

abbrev pub zero_group : EntryGroup
zero_group = record { name = ""; ipv4 = []; front_proxy = none }

-- `d[k]`, with the zero value for a missing key.
abbrev pub at : {T : Type 0} → T → Dict T → String → T
at zero d k = elim (lookup k d) [ none ↦ zero | some v ↦ v ]

-- One host that both inventories have: the `switch` and the comparison of the keys.
unfoldable pub note_host : Host → Host → String → Changes → Changes
note_host before after slug c =
    let c =
      if not before.online && after.online
      then record c { went_online = c.went_online ++ slug ∷ [] }
      else if before.online && not after.online
      then record c { went_offline = c.went_offline ++ slug ∷ [] }
      else c in
    if not (before.key == after.key)
    then record c { keys_rotated = c.keys_rotated ++ slug ∷ [] }
    else c

-- The loop over the sorted slugs.
unfoldable pub compare_hosts : Dict Host → Dict Host → List String → Changes → Changes
compare_hosts prev next [] c = c
compare_hosts prev next (slug ∷ slugs) c = compare_hosts prev next slugs (elim (lookup slug prev) [
  | none ↦ c
  | some before ↦ note_host before (at zero_host next slug) slug c
])

-- The loop over the sorted group names.
unfoldable pub compare_groups : Dict EntryGroup → Dict EntryGroup → List String → Changes → Changes
compare_groups prev next [] c = c
compare_groups prev next (name ∷ names) c =
    compare_groups prev next names (elim (lookup name prev) [
      | none ↦ c
      | some before ↦
          if not (same_addresses before.ipv4 (at zero_group next name).ipv4)
          then record c { pools_changed = c.pools_changed ++ name ∷ [] }
          else c
    ])

-- The body of `Compare`, for two inventories that are there.
unfoldable pub compare_both : Inventory → Inventory → Changes
compare_both prev next =
    let prev_hosts = hosts_by_slug prev in
    let next_hosts = hosts_by_slug next in
    let c = compare_hosts prev_hosts next_hosts (sort less (keys next_hosts)) (record no_changes {
      hosts_added = sorted_missing next_hosts prev_hosts;
      hosts_removed = sorted_missing prev_hosts next_hosts;
    }) in
    let prev_groups = groups_by_name prev in
    let next_groups = groups_by_name next in
    let c = compare_groups prev_groups next_groups (sort less (keys next_groups)) (record c {
      groups_added = sorted_missing next_groups prev_groups;
      groups_removed = sorted_missing prev_groups next_groups;
    }) in
    record c {
      roots_added = sorted_difference next.root_domains prev.root_domains;
      roots_removed = sorted_difference prev.root_domains next.root_domains;
    }

-- `Compare`; a nil inventory is `none`.
unfoldable pub compare : Option Inventory → Option Inventory → Changes
compare (some prev) (some next) = compare_both prev next
compare _ _ = no_changes
