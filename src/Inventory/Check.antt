-- ===== src/Inventory/Check.antt =====
-- `Validate`, `FillMissingFrom` and `Load` of internal/inventory/inventory.go.
pub mod Laws
use tunnet_lite.Base.{
  String, Bool, List, [], ◌∷◌, Option, none, some, is_empty, Result, ok, err, errorf, wrapf,
  fail_if, context, ◌>>=◌, ◌>>◌, ◌==◌, string_eq, if◌then◌else◌,
}
use tunnet_lite.Inventory.Types.{EntryGroup, Host, Inventory}
use tunnet_lite.Inventory.Key.{normalized_key}

-- The loop over the hosts.
unfoldable pub check_hosts : List Host → Result (Unit {0})
check_hosts [] = ok tt
check_hosts (h ∷ hs) = do
  fail_if (h.slug == "") (errorf "a host has an empty slug" [])
  key ← context "host %s: %w" (h.slug ∷ []) (normalized_key h)
  check_hosts hs

-- The loop over the entry groups.
unfoldable pub check_groups : List EntryGroup → Result (Unit {0})
check_groups [] = ok tt
check_groups (g ∷ gs) = do
  fail_if (is_empty g.ipv4) (errorf "entry group %q has no address" (g.name ∷ []))
  check_groups gs

unfoldable pub validate : Inventory → Result (Unit {0})
validate inv = do
  fail_if (inv.client_id == "") (errorf "client_id is empty" [])
  fail_if (is_empty inv.root_domains) (errorf "root_domains is empty" [])
  fail_if (is_empty inv.hosts) (errorf "hosts is empty" [])
  fail_if (is_empty inv.entry_groups) (errorf "entry_groups is empty" [])
  check_hosts inv.hosts
  check_groups inv.entry_groups

-- `prev` is nil if there is no earlier inventory.
unfoldable pub fill_missing_from : Inventory → Option Inventory → Inventory
fill_missing_from inv none = inv
fill_missing_from inv (some prev) = record {
  root_domains = if is_empty inv.root_domains then prev.root_domains else inv.root_domains;
  client_id = if inv.client_id == "" then prev.client_id else inv.client_id;
  hosts = if is_empty inv.hosts then prev.hosts else inv.hosts;
  entry_groups = if is_empty inv.entry_groups then prev.entry_groups else inv.entry_groups;
}

-- `Load`, over what reading the file gives and over the JSON decoder.
unfoldable pub load : Result String → (String → Result Inventory) → String → Result Inventory
load contents decode path = do
  text ← context "read inventory: %w" [] contents
  inv ← context "parse inventory %s: %w" (path ∷ []) (decode text)
  context "invalid inventory %s: %w" (path ∷ []) (validate inv)
  ok inv
