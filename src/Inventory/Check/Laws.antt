-- ===== src/Inventory/Check/Laws.antt =====
-- Which inventories pass `validate`, and that a partial update merged onto a usable inventory does.
use tunnet_lite.Base.{
  String, List, [], ◌∷◌, Option, none, some, All, Result, ok, err, string_eq, ◌≡◌, ◌≢◌, ◌↔◌, refl,
  arith,
}
use tunnet_lite.Inventory.Types.{EntryGroup, Host, Inventory}
use tunnet_lite.Inventory.Key.Laws.{IsKey, normalized_key_iff}
use tunnet_lite.Inventory.Check.{check_hosts, check_groups, validate, fill_missing_from, load}

-- A host that can be dialled.
abbrev pub IsUsableHost : Host → Type 0
IsUsableHost h = (h.slug ≢ "") × IsKey h.key

abbrev pub IsUsableGroup : EntryGroup → Type 0
IsUsableGroup g = g.ipv4 ≢ []

pub record IsUsable (inv : Inventory) : Type 0 where
  pub client_id : inv.client_id ≢ ""
  pub root_domains : inv.root_domains ≢ []
  pub hosts : inv.hosts ≢ []
  pub entry_groups : inv.entry_groups ≢ []
  pub each_host : All IsUsableHost inv.hosts
  pub each_group : All IsUsableGroup inv.entry_groups

check_hosts_iff : (hs : List Host) → (check_hosts hs ≡ ok tt) ↔ All IsUsableHost hs
unfolding check_hosts
check_hosts_iff [] = (λ _. tt, λ _. refl)
check_hosts_iff (h ∷ hs) = ground (arith, normalized_key_iff h, check_hosts_iff hs)

check_groups_iff : (gs : List EntryGroup) → (check_groups gs ≡ ok tt) ↔ All IsUsableGroup gs
unfolding check_groups
check_groups_iff [] = (λ _. tt, λ _. refl)
check_groups_iff (g ∷ gs) = ground (arith, check_groups_iff gs)

-- `validate` accepts exactly the inventories with a client id, at least one root domain, host and
-- entry group, whose hosts have a slug and a key that is the text of 32 bytes in one of the four
-- base64 variants, and whose groups have an address.
pub validate_iff : (inv : Inventory) → (validate inv ≡ ok tt) ↔ IsUsable inv
unfolding validate
validate_iff inv = ground (arith, check_hosts_iff inv.hosts, check_groups_iff inv.entry_groups)

-- Merging a partial update, whose hosts and groups are each usable, onto a usable inventory gives
-- one that `validate` accepts, whatever the update leaves out.
pub validate-fill_missing_from :
    (inv prev : Inventory)
    → IsUsable prev
    → All IsUsableHost inv.hosts
    → All IsUsableGroup inv.entry_groups
    → validate (fill_missing_from inv (some prev)) ≡ ok tt
validate-fill_missing_from inv prev u hs gs =
    (validate_iff (fill_missing_from inv (some prev))).1 (unfold fill_missing_from in ground arith)

-- Filling twice is filling once.
pub fill_missing_from_idem :
    (inv : Inventory) (prev : Option Inventory)
    → fill_missing_from (fill_missing_from inv prev) prev ≡ fill_missing_from inv prev
unfolding fill_missing_from
fill_missing_from_idem inv none = refl
fill_missing_from_idem inv (some prev) = ground arith

-- `load` returns an inventory exactly when the file can be read, its text decodes to this inventory
-- and `validate` accepts it.
pub load_iff :
    (contents : Result String) (decode : String → Result Inventory) (path : String)
    (inv : Inventory)
    → (load contents decode path ≡ ok inv)
      ↔ ((text : String) × (contents ≡ ok text) × (decode text ≡ ok inv) × IsUsable inv)
unfolding load
load_iff contents decode path inv =
    (to contents, λ (t, r, d, u). ground (arith, (validate_iff inv).1 u))
  where
    to :
        (c : Result String)
        → load c decode path ≡ ok inv
        → (text : String) × (c ≡ ok text) × (decode text ≡ ok inv) × IsUsable inv
    to (ok text) h = (text, refl, ground arith, (validate_iff inv).0 (ground arith))
    to (err e) h = cc
