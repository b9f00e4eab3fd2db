-- ===== src/Inventory/Diff/Report.antt =====
-- What `Compare` reports, field by field, in terms of the two inventories.
use tunnet_lite.Base.{
  String, Bool, false, not, ◌&&◌, List, [], ◌∷◌, Option, none, some, select, contains, last, ◌==◌,
  nat_eq, string_eq, ◌≡◌, refl, ◌∙◌, arith,
}
use tunnet_lite.Base.Dict.{Dict, lookup, insert, keys, is_some, lookup-insert, contains-keys}
use tunnet_lite.Base.Select.{contains-select}
use tunnet_lite.Base.Sort.{sort}
use tunnet_lite.Base.Sort.Laws.{contains-sort}
use tunnet_lite.Base.Texts.Order.{less}
use tunnet_lite.Inventory.Types.{EntryGroup, Host, Inventory}
use tunnet_lite.Inventory.Diff.{
  Changes, same_addresses, compare_both, compare, hosts_by_slug, groups_by_name, index_hosts,
  index_groups, sorted_missing, sorted_difference,
}
use tunnet_lite.Inventory.Diff.Laws.{
  compare_hosts_lem, compare_groups_lem, online_now, offline_now, rotated_now, pool_now,
}

-- The host of a slug: the last one, where several share it.
abbrev pub host_of : Inventory → String → Option Host
host_of inv s = last (λ h. s == h.slug) inv.hosts

abbrev pub group_of : Inventory → String → Option EntryGroup
group_of inv n = last (λ g. n == g.name) inv.entry_groups

abbrev or_else : {A : Type 0} → Option A → Option A → Option A
or_else none o = o
or_else (some a) o = some a

lookup-index_hosts :
    (s : String) (hs : List Host) (out : Dict Host)
    → lookup s (index_hosts hs out) ≡ or_else (last (λ h. s == h.slug) hs) (lookup s out)
unfolding index_hosts
lookup-index_hosts s [] out = refl
lookup-index_hosts s (h ∷ hs) out =
    lookup-index_hosts s hs (insert h.slug h out) ∙ ground (arith, lookup-insert s h.slug h out)

lookup-index_groups :
    (n : String) (gs : List EntryGroup) (out : Dict EntryGroup)
    → lookup n (index_groups gs out) ≡ or_else (last (λ g. n == g.name) gs) (lookup n out)
unfolding index_groups
lookup-index_groups n [] out = refl
lookup-index_groups n (g ∷ gs) out =
    lookup-index_groups n gs (insert g.name g out) ∙ ground (arith, lookup-insert n g.name g out)

lookup-hosts_by_slug : (inv : Inventory) (s : String) → lookup s (hosts_by_slug inv) ≡ host_of inv s
unfolding hosts_by_slug lookup
lookup-hosts_by_slug inv s = lookup-index_hosts s inv.hosts [] ∙ ground arith

lookup-groups_by_name :
    (inv : Inventory) (n : String) → lookup n (groups_by_name inv) ≡ group_of inv n
unfolding groups_by_name lookup
lookup-groups_by_name inv n = lookup-index_groups n inv.entry_groups [] ∙ ground arith

contains-sort-select :
    (p : String → Bool) (l : List String) (k : String)
    → contains (sort less (select p l)) k ≡ (contains l k && p k)
contains-sort-select p l k = contains-sort less (select p l) k ∙ contains-select p l k

contains-sorted_missing :
    {T : Type 0} (have from : Dict T) (k : String)
    → contains (sorted_missing have from) k
      ≡ (is_some (lookup k have) && not (is_some (lookup k from)))
unfolding sorted_missing
contains-sorted_missing have from k =
    contains-sort-select _ (keys have) k ∙ rw (contains-keys have k)

contains-sorted_difference :
    (have from : List String) (v : String)
    → contains (sorted_difference have from) v ≡ (contains have v && not (contains from v))
unfolding sorted_difference
contains-sorted_difference have from v = contains-sort-select _ have v

contains-select-keys :
    {T : Type 0} (p : String → Bool) (d : Dict T) (k : String)
    → contains (select p (sort less (keys d))) k ≡ (is_some (lookup k d) && p k)
contains-select-keys p d k =
    contains-select p (sort less (keys d)) k ∙ rw (contains-sort less (keys d) k, contains-keys d k)

-- Both are there, and the test holds of them.
abbrev pub both : {A : Type 0} → (A → A → Bool) → Option A → Option A → Bool
both p none after = false
both p (some before) none = false
both p (some before) (some after) = p before after

abbrev pub only : {A : Type 0} → Option A → Option A → Bool
only there missing = is_some there && not (is_some missing)

module _ (prev next : Inventory) where
  abbrev report : Changes
  report = compare (some prev) (some next)

  -- The result of `Compare`, its loops in closed form.
  pub report_lem : report ≡ record {
    hosts_added = sorted_missing (hosts_by_slug next) (hosts_by_slug prev);
    hosts_removed = sorted_missing (hosts_by_slug prev) (hosts_by_slug next);
    went_online =
        select
          (online_now (hosts_by_slug prev) (hosts_by_slug next))
          (sort less (keys (hosts_by_slug next)));
    went_offline =
        select
          (offline_now (hosts_by_slug prev) (hosts_by_slug next))
          (sort less (keys (hosts_by_slug next)));
    keys_rotated =
        select
          (rotated_now (hosts_by_slug prev) (hosts_by_slug next))
          (sort less (keys (hosts_by_slug next)));
    groups_added = sorted_missing (groups_by_name next) (groups_by_name prev);
    groups_removed = sorted_missing (groups_by_name prev) (groups_by_name next);
    pools_changed =
        select
          (pool_now (groups_by_name prev) (groups_by_name next))
          (sort less (keys (groups_by_name next)));
    roots_added = sorted_difference next.root_domains prev.root_domains;
    roots_removed = sorted_difference prev.root_domains next.root_domains;
  }
  unfolding compare compare_both
  report_lem = simp (compare_hosts_lem, compare_groups_lem)

  -- A slug is reported as added or removed exactly if only the next or only the previous inventory
  -- has it; as gone online, gone offline or rotated exactly if both have it and its host changed so.
  -- Of hosts that share a slug the last one counts.
  pub contains-compare_hosts :
      (s : String)
      → let before = host_of prev s in
        let after = host_of next s in
        (contains report.hosts_added s ≡ only after before)
        × (contains report.hosts_removed s ≡ only before after)
        × (contains report.went_online s ≡ both (λ b a. not b.online && a.online) before after)
        × (contains report.went_offline s ≡ both (λ b a. b.online && not a.online) before after)
        × (contains report.keys_rotated s ≡ both (λ b a. not (b.key == a.key)) before after)
  contains-compare_hosts s = rw report_lem (
      rw (← lookup-hosts_by_slug prev s, ← lookup-hosts_by_slug next s)
        (
          contains-sorted_missing (hosts_by_slug next) (hosts_by_slug prev) s,
          contains-sorted_missing (hosts_by_slug prev) (hosts_by_slug next) s,
          contains-select-keys _ (hosts_by_slug next) s ∙ ground arith,
          contains-select-keys _ (hosts_by_slug next) s ∙ ground arith,
          contains-select-keys _ (hosts_by_slug next) s ∙ ground arith,
        ))

  -- A group is reported as added or removed exactly if only the next or only the previous inventory
  -- has it, and as changed exactly if both have it and the address lists differ by more than order.
  pub contains-compare_groups :
      (n : String)
      → let before = group_of prev n in
        let after = group_of next n in
        (contains report.groups_added n ≡ only after before)
        × (contains report.groups_removed n ≡ only before after)
        × (contains report.pools_changed n
            ≡ both (λ b a. not (same_addresses b.ipv4 a.ipv4)) before after)
  contains-compare_groups n = rw report_lem (
      rw (← lookup-groups_by_name prev n, ← lookup-groups_by_name next n)
        (
          contains-sorted_missing (groups_by_name next) (groups_by_name prev) n,
          contains-sorted_missing (groups_by_name prev) (groups_by_name next) n,
          contains-select-keys _ (groups_by_name next) n ∙ ground arith,
        ))

  -- A root domain is reported exactly if only one of the inventories has it.
  pub contains-compare_roots :
      (r : String)
      → (contains report.roots_added r
          ≡ (contains next.root_domains r && not (contains prev.root_domains r)))
        × (contains report.roots_removed r
            ≡ (contains prev.root_domains r && not (contains next.root_domains r)))
  contains-compare_roots r = rw report_lem (
    contains-sorted_difference next.root_domains prev.root_domains r,
    contains-sorted_difference prev.root_domains next.root_domains r,
  )
