-- ===== src/Inventory/Diff/Laws.antt =====
-- The loops of `Compare` in closed form.
use mathlib.Core.List.{append-nil, append_assoc}
use tunnet_lite.Base.{
  String, Bool, false, not, ◌&&◌, List, [], ◌∷◌, ◌++◌, Option, none, some, select, ◌==◌, nat_eq,
  string_eq, ◌≡◌, arith,
}
use tunnet_lite.Base.Dict.{Dict, lookup}
use tunnet_lite.Inventory.Types.{EntryGroup, Host}
use tunnet_lite.Inventory.Diff.{
  Changes, at, zero_host, zero_group, note_host, compare_hosts, compare_groups, same_addresses,
}

-- Whether a host that both have came online, went offline, or has another key.
abbrev pub came_online : Option Host → Host → Bool
came_online none after = false
came_online (some before) after = not before.online && after.online

abbrev pub fell_offline : Option Host → Host → Bool
fell_offline none after = false
fell_offline (some before) after = before.online && not after.online

abbrev pub rotated : Option Host → Host → Bool
rotated none after = false
rotated (some before) after = not (before.key == after.key)

abbrev pub pool_differs : Option EntryGroup → EntryGroup → Bool
pool_differs none after = false
pool_differs (some before) after = not (same_addresses before.ipv4 after.ipv4)

module _ (prev next : Dict Host) where
  abbrev pub online_now : String → Bool
  online_now s = came_online (lookup s prev) (at zero_host next s)

  abbrev pub offline_now : String → Bool
  offline_now s = fell_offline (lookup s prev) (at zero_host next s)

  abbrev pub rotated_now : String → Bool
  rotated_now s = rotated (lookup s prev) (at zero_host next s)

  pub compare_hosts_lem :
      (slugs : List String) (c : Changes)
      → compare_hosts prev next slugs c ≡ record c {
        went_online = c.went_online ++ select online_now slugs;
        went_offline = c.went_offline ++ select offline_now slugs;
        keys_rotated = c.keys_rotated ++ select rotated_now slugs;
      }
  unfolding compare_hosts note_host
  compare_hosts_lem [] c = simp append-nil
  compare_hosts_lem (s ∷ ss) c = rw (compare_hosts_lem ss _) (
      ground (
        arith,
        append_assoc c.went_online (s ∷ []) (select online_now ss),
        append_assoc c.went_offline (s ∷ []) (select offline_now ss),
        append_assoc c.keys_rotated (s ∷ []) (select rotated_now ss),
      ))

module _ (prev next : Dict EntryGroup) where
  abbrev pub pool_now : String → Bool
  pool_now n = pool_differs (lookup n prev) (at zero_group next n)

  pub compare_groups_lem :
      (names : List String) (c : Changes)
      → compare_groups prev next names c
        ≡ record c { pools_changed = c.pools_changed ++ select pool_now names }
  unfolding compare_groups
  compare_groups_lem [] c = simp append-nil
  compare_groups_lem (n ∷ ns) c =
      rw (compare_groups_lem ns _)
        (ground (arith, append_assoc c.pools_changed (n ∷ []) (select pool_now ns)))
