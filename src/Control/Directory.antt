-- ===== src/Control/Directory.antt =====
-- internal/control/directory.go: from a decoded payload to an inventory.
use tunnet_lite.Base.{
  String, Bool, List, [], ◌∷◌, ◌++◌, Option, none, some, Result, ok, err, errorf, context, ◌>>=◌,
  ◌>>◌, ◌≡◌, arith,
}
use tunnet_lite.Inventory.{FrontProxy, EntryGroup, Host, Inventory}
use tunnet_lite.Inventory.Check.{validate}
use tunnet_lite.Inventory.Check.Laws.{IsUsable, validate_iff}

-- The anonymous structs of `runtimePayload`.
pub record FrontPayload : Type 0 where
  pub endpoint : String
  pub headers : List (String × String)

pub record EntryPayload : Type 0 where
  pub name : String
  pub ipv4 : List String
  pub front_proxy : Option FrontPayload

pub record HostPayload : Type 0 where
  pub name : String
  pub slug : String
  pub online : Bool
  pub key : String

pub record RuntimePayload : Type 0 where
  pub client_id : String
  pub entry_nodes : List EntryPayload
  pub hosts : List HostPayload
  pub root_domains : List String

-- `bootstrap` is the section of this name with the runtime in it, which may be missing too.
pub record Directory : Type 0 where
  pub runtime : Option RuntimePayload
  pub bootstrap : Option (Option RuntimePayload)

-- `directory.runtime`
unfoldable pub runtime_of : Directory → Option RuntimePayload
runtime_of d = elim d.bootstrap [
  | none ↦ d.runtime
  | some b ↦ elim b [ none ↦ d.runtime | some rt ↦ some rt ]
]

-- The loop over the hosts.
unfoldable pub read_hosts : List HostPayload → List Host → List Host
read_hosts [] out = out
read_hosts (h ∷ hs) out =
    read_hosts hs
      (out ++ record { slug = h.slug; name = h.name; online = h.online; key = h.key } ∷ [])

unfoldable pub read_front : Option FrontPayload → Option FrontProxy
read_front none = none
read_front (some f) = some (record { endpoint = f.endpoint; headers = f.headers })

-- The loop over the entry nodes.
unfoldable pub read_groups : List EntryPayload → List EntryGroup → List EntryGroup
read_groups [] out = out
read_groups (e ∷ es) out =
    read_groups es
      (out ++ record { name = e.name; ipv4 = e.ipv4; front_proxy = read_front e.front_proxy } ∷ [])

-- `decode` is the JSON decoder, applied to the payload.
module _ (decode : String → Result Directory) where
  unfoldable pub parse_directory : String → Result Inventory
  parse_directory payload = do
    d ← context "parse directory: %w" [] (decode payload)
    elim (runtime_of d) [
      | none ↦ err (errorf "directory contains no runtime section" [])
      | some rt ↦ ok (record {
        client_id = rt.client_id;
        root_domains = rt.root_domains;
        hosts = read_hosts rt.hosts [];
        entry_groups = read_groups rt.entry_nodes [];
      })
    ]

  unfoldable pub parse_inventory : String → Result Inventory
  parse_inventory payload = do
    inv ← parse_directory payload
    context "directory is not usable: %w" [] (validate inv)
    ok inv

  -- What `parse_inventory` accepts is usable.
  pub parse_inventory-IsUsable :
      (payload : String) (inv : Inventory) → parse_inventory payload ≡ ok inv → IsUsable inv
  unfolding parse_inventory
  parse_inventory-IsUsable payload inv h = (validate_iff inv).0 (ground arith)
