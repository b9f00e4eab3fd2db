-- ===== src/Inventory/Diff/Quiet.antt =====
-- When `Compare` finds nothing.
use mathlib.Core.List.{Permᴰ}
use tunnet_lite.Base.{
  String, Bool, true, false, not, ◌&&◌, List, Option, none, some, contains, ◌==◌, nat_eq, string_eq,
  ◌≡◌, ◌↔◌, refl, sym, ◌∙◌, arith,
}
use tunnet_lite.Base.Select.{is_empty_iff}
use tunnet_lite.Inventory.Diff.Summary.{same_addresses_iff}
use tunnet_lite.Inventory.Types.{EntryGroup, Host, Inventory}
use tunnet_lite.Inventory.Diff.{Changes, same_addresses, compare, empty}
use tunnet_lite.Inventory.Diff.Report.{
  host_of, group_of, both, only, contains-compare_hosts, contains-compare_groups,
  contains-compare_roots,
}

-- Both inventories lack the host, or both have it with the same state and key.
abbrev pub SameHost : Option Host → Option Host → Type 0
SameHost none none = Unit
SameHost (some b) (some a) = (b.online ≡ a.online) × (b.key ≡ a.key)
SameHost _ _ = ⊥

-- Both inventories lack the group, or both have it with the same addresses up to order.
abbrev pub SameGroup : Option EntryGroup → Option EntryGroup → Type 0
SameGroup none none = Unit
SameGroup (some b) (some a) = Permᴰ b.ipv4 a.ipv4
SameGroup _ _ = ⊥

-- All that the report is about is the same in two inventories.
pub record SameView (prev next : Inventory) : Type 0 where
  pub host : (s : String) → SameHost (host_of prev s) (host_of next s)
  pub group : (n : String) → SameGroup (group_of prev n) (group_of next n)
  pub root : (r : String) → contains prev.root_domains r ≡ contains next.root_domains r

-- No test of a report on a host passes.
abbrev NoHostChange : Option Host → Option Host → Type 0
NoHostChange b a =
    (only a b ≡ false)
    × (only b a ≡ false)
    × (both (λ b a. not b.online && a.online) b a ≡ false)
    × (both (λ b a. b.online && not a.online) b a ≡ false)
    × (both (λ b a. not (b.key == a.key)) b a ≡ false)

NoHostChange-iff : (b a : Option Host) → NoHostChange b a ↔ SameHost b a
NoHostChange-iff none none = ground arith
NoHostChange-iff none (some a) = ground arith
NoHostChange-iff (some b) none = ground arith
NoHostChange-iff (some b) (some a) = ground arith

abbrev NoGroupChange : Option EntryGroup → Option EntryGroup → Type 0
NoGroupChange b a =
    (only a b ≡ false)
    × (only b a ≡ false)
    × (both (λ b a. not (same_addresses b.ipv4 a.ipv4)) b a ≡ false)

not-false : (b : Bool) → (not b ≡ false) ↔ (b ≡ true)
not-false true = ground arith
not-false false = ground arith

NoGroupChange→SameGroup : (b a : Option EntryGroup) → NoGroupChange b a → SameGroup b a
NoGroupChange→SameGroup none none h = tt
NoGroupChange→SameGroup none (some a) h = cc
NoGroupChange→SameGroup (some b) none h = cc
NoGroupChange→SameGroup (some b) (some a) h = (same_addresses_iff _ _).0 ((not-false _).0 h.2)

SameGroup→NoGroupChange : (b a : Option EntryGroup) → SameGroup b a → NoGroupChange b a
SameGroup→NoGroupChange none none h = (refl, refl, refl)
SameGroup→NoGroupChange none (some a) h = absurd h
SameGroup→NoGroupChange (some b) none h = absurd h
SameGroup→NoGroupChange (some b) (some a) h =
    (refl, refl, (not-false _).1 ((same_addresses_iff _ _).1 h))

abbrev Nothing : List String → Type 0
Nothing l = (s : String) → contains l s ≡ false

-- No list of a report has a member.
record IsEmpty (c : Changes) : Type 0 where
  hosts_added : Nothing c.hosts_added
  hosts_removed : Nothing c.hosts_removed
  went_online : Nothing c.went_online
  went_offline : Nothing c.went_offline
  keys_rotated : Nothing c.keys_rotated
  groups_added : Nothing c.groups_added
  groups_removed : Nothing c.groups_removed
  pools_changed : Nothing c.pools_changed
  roots_added : Nothing c.roots_added
  roots_removed : Nothing c.roots_removed

&&-true : (a b : Bool) → ((a && b) ≡ true) ↔ ((a ≡ true) × (b ≡ true))
&&-true a b = ground arith

empty→IsEmpty : (c : Changes) → empty c ≡ true → IsEmpty c
unfolding empty
empty→IsEmpty c h = record {
  hosts_added = (is_empty_iff c.hosts_added).0 (ground arith);
  hosts_removed = (is_empty_iff c.hosts_removed).0 (ground arith);
  went_online = (is_empty_iff c.went_online).0 (ground arith);
  went_offline = (is_empty_iff c.went_offline).0 (ground arith);
  keys_rotated = (is_empty_iff c.keys_rotated).0 (ground arith);
  groups_added = (is_empty_iff c.groups_added).0 (ground arith);
  groups_removed = (is_empty_iff c.groups_removed).0 (ground arith);
  pools_changed = (is_empty_iff c.pools_changed).0 (ground arith);
  roots_added = (is_empty_iff c.roots_added).0 (ground arith);
  roots_removed = (is_empty_iff c.roots_removed).0 (ground arith);
}

IsEmpty→empty : (c : Changes) → IsEmpty c → empty c ≡ true
unfolding empty
IsEmpty→empty c h = ground (
  arith,
  (is_empty_iff c.hosts_added).1 h.hosts_added,
  (is_empty_iff c.hosts_removed).1 h.hosts_removed,
  (is_empty_iff c.went_online).1 h.went_online,
  (is_empty_iff c.went_offline).1 h.went_offline,
  (is_empty_iff c.keys_rotated).1 h.keys_rotated,
  (is_empty_iff c.groups_added).1 h.groups_added,
  (is_empty_iff c.groups_removed).1 h.groups_removed,
  (is_empty_iff c.pools_changed).1 h.pools_changed,
  (is_empty_iff c.roots_added).1 h.roots_added,
  (is_empty_iff c.roots_removed).1 h.roots_removed,
)

module _ (prev next : Inventory) where
  abbrev report : Changes
  report = compare (some prev) (some next)

  IsEmpty→SameView : IsEmpty report → SameView prev next
  IsEmpty→SameView h = record {
    host = λ s.
        let r = contains-compare_hosts prev next s in
        (NoHostChange-iff _ _).0 (
          sym r.0 ∙ h.hosts_added s,
          sym r.1 ∙ h.hosts_removed s,
          sym r.2 ∙ h.went_online s,
          sym r.3 ∙ h.went_offline s,
          sym r.4 ∙ h.keys_rotated s,
        );
    group = λ n.
        let r = contains-compare_groups prev next n in
        NoGroupChange→SameGroup _ _
          (sym r.0 ∙ h.groups_added n, sym r.1 ∙ h.groups_removed n, sym r.2 ∙ h.pools_changed n);
    root =
        λ d. ground (arith, contains-compare_roots prev next d, h.roots_added d, h.roots_removed d);
  }

  SameView→IsEmpty : SameView prev next → IsEmpty report
  SameView→IsEmpty v = record {
    hosts_added = λ s. (contains-compare_hosts prev next s).0 ∙ (still s).0;
    hosts_removed = λ s. (contains-compare_hosts prev next s).1 ∙ (still s).1;
    went_online = λ s. (contains-compare_hosts prev next s).2 ∙ (still s).2;
    went_offline = λ s. (contains-compare_hosts prev next s).3 ∙ (still s).3;
    keys_rotated = λ s. (contains-compare_hosts prev next s).4 ∙ (still s).4;
    groups_added = λ n. (contains-compare_groups prev next n).0 ∙ (kept n).0;
    groups_removed = λ n. (contains-compare_groups prev next n).1 ∙ (kept n).1;
    pools_changed = λ n. (contains-compare_groups prev next n).2 ∙ (kept n).2;
    roots_added = λ d. ground (arith, contains-compare_roots prev next d, v.root d);
    roots_removed = λ d. ground (arith, contains-compare_roots prev next d, v.root d);
  }
    where
      still : (s : String) → NoHostChange (host_of prev s) (host_of next s)
      still s = (NoHostChange-iff _ _).1 (v.host s)

      kept : (n : String) → NoGroupChange (group_of prev n) (group_of next n)
      kept n = SameGroup→NoGroupChange _ _ (v.group n)

-- `Compare` reports nothing exactly if the two inventories have the same slugs with the same state
-- and key, the same groups with the same addresses up to order, and the same root domains.
pub empty-compare_iff :
    (prev next : Inventory) → (empty (compare (some prev) (some next)) ≡ true) ↔ SameView prev next
empty-compare_iff prev next = (
  λ h. IsEmpty→SameView prev next (empty→IsEmpty _ h),
  λ v. IsEmpty→empty _ (SameView→IsEmpty prev next v),
)
