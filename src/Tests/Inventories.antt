-- ===== src/Tests/Inventories.antt =====
-- The inventory: runs, and the theorems at concrete inventories.
use tunnet_lite.Base.{
  ℕ, String, true, false, List, [], ◌∷◌, some, Result, ok, string_eq, nat_eq, ◌≡◌, ◌≢◌, ◌↔◌, refl,
  arith,
}
use tunnet_lite.Base.Sort
use tunnet_lite.Base.Texts.Order.{less}
use tunnet_lite.Base.Dict
use tunnet_lite.Base.Base64.{Encoding, encode, decode}
use tunnet_lite.Inventory.{Inventory}
use tunnet_lite.Inventory.Key.{raw_url, normalized_key}
use tunnet_lite.Inventory.Key.Laws.{IsKey, normalized_key_iff, normalized_key-encode}
use tunnet_lite.Inventory.Check.{check_hosts, check_groups, validate, fill_missing_from}
use tunnet_lite.Inventory.Check.Laws.{IsUsable, validate_iff, validate-fill_missing_from}
use tunnet_lite.Inventory.Select.{select_host_from, select_host, select_root}
use tunnet_lite.Inventory.Diff.{
  compare, compare_both, compare_hosts, compare_groups, note_host, hosts_by_slug, groups_by_name,
  index_hosts, index_groups, sorted_difference, sorted_missing, equal, empty, same_addresses,
}
use tunnet_lite.Inventory.Diff.Quiet.{SameView, empty-compare_iff}
use tunnet_lite.Tests.Data.{zero_key, tokyo, first_inventory, next_inventory, delta}

tokyo_key : normalized_key tokyo ≡ ok zero_key
unfolding normalized_key decode encode string_eq nat_eq
tokyo_key = refl

first_valid : validate first_inventory ≡ ok tt
unfolding validate check_hosts check_groups normalized_key decode encode string_eq nat_eq
first_valid = refl

pub first-IsUsable : IsUsable first_inventory
first-IsUsable = (validate_iff first_inventory).0 first_valid

validate_iff_example : (validate first_inventory ≡ ok tt) ↔ IsUsable first_inventory
validate_iff_example = validate_iff first_inventory

validate-fill_missing_from_example :
    validate (fill_missing_from delta (some first_inventory)) ≡ ok tt
validate-fill_missing_from_example =
    validate-fill_missing_from delta first_inventory first-IsUsable delta_hosts tt
  where
    tokyo-IsKey : IsKey tokyo.key
    tokyo-IsKey = (normalized_key_iff tokyo).0 (rw tokyo_key refl)

    delta_hosts : ((tokyo.slug ≢ "") × IsKey tokyo.key) × Unit {0}
    delta_hosts = (((λ e. cc), tokyo-IsKey), tt)

abbrev contents : Result String
contents = ok "{}"

abbrev decode_first : String → Result Inventory
decode_first t = ok first_inventory

abbrev padded : Encoding
padded = record { url = false; padded = true }

abbrev zeros : List ℕ
zeros =
    0 ∷ 0 ∷ 0 ∷ 0 ∷ 0 ∷ 0 ∷ 0 ∷ 0 ∷ 0 ∷ 0 ∷ 0 ∷ 0 ∷ 0 ∷ 0 ∷ 0 ∷ 0 ∷ 0 ∷ 0 ∷ 0 ∷ 0 ∷ 0 ∷ 0 ∷ 0 ∷ 0
    ∷ 0 ∷ 0 ∷ 0 ∷ 0 ∷ 0 ∷ 0 ∷ 0 ∷ 0 ∷ []

normalized_key-encode_example :
    normalized_key (record tokyo { key = encode padded zeros }) ≡ ok (encode raw_url zeros)
normalized_key-encode_example =
    normalized_key-encode (record tokyo { key = encode padded zeros }) padded zeros (omega arith)
      refl refl

select_first_online : select_host first_inventory "" ≡ ok tokyo
unfolding select_host select_host_from string_eq
select_first_online = refl

draw_first : select_root (λ n. 0) first_inventory "" "" ≡ some (ok "a.example")
unfolding select_root string_eq
draw_first = refl

empty-compare_iff_example :
    (empty (compare (some first_inventory) (some next_inventory)) ≡ true)
    ↔ SameView first_inventory next_inventory
empty-compare_iff_example = empty-compare_iff first_inventory next_inventory

report_of_next :
    ((compare (some first_inventory) (some next_inventory)).went_offline ≡ "jp" ∷ [])
    × ((compare (some first_inventory) (some next_inventory)).roots_added ≡ "c.example" ∷ [])
unfolding compare compare_both compare_hosts compare_groups note_host hosts_by_slug groups_by_name
    index_hosts index_groups sorted_difference sorted_missing same_addresses equal Dict.lookup
    Dict.insert Dict.keys Sort.sort Sort.insert less string_eq nat_eq
report_of_next = (refl, refl)

abbrev pool : List String
pool = "1.1.1.1" ∷ "2.2.2.2" ∷ []

abbrev turned : List String
turned = "2.2.2.2" ∷ "1.1.1.1" ∷ []
