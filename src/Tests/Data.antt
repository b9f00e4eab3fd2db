-- ===== src/Tests/Data.antt =====
-- Inventories for the tests.
use tunnet_lite.Base.{String, true, false, [], ◌∷◌, some}
use tunnet_lite.Inventory.{FrontProxy, EntryGroup, Host, Inventory}

-- The raw URL text of 32 zero bytes.
abbrev pub zero_key : String
zero_key = "AAAAAAAAAAAAAAAAAAAAAAAAAAAAAAAAAAAAAAAAAAA"

abbrev pub front : FrontProxy
front = record { endpoint = "http://f.example:80/"; headers = [] }

abbrev pub tokyo : Host
tokyo = record { slug = "jp"; name = "Tokyo"; key = zero_key; online = true }

abbrev pub paris : Host
paris = record { slug = "fr"; name = "Paris"; key = zero_key; online = false }

abbrev pub north : EntryGroup
north = record { name = "north"; ipv4 = "1.1.1.1" ∷ "2.2.2.2" ∷ []; front_proxy = some front }

abbrev pub first_inventory : Inventory
first_inventory = record {
  client_id = "c";
  root_domains = "a.example" ∷ "b.example" ∷ [];
  hosts = paris ∷ tokyo ∷ [];
  entry_groups = north ∷ [];
}

-- Tokyo went offline, and a root domain is new.
abbrev pub next_inventory : Inventory
next_inventory = record first_inventory {
  root_domains = "a.example" ∷ "b.example" ∷ "c.example" ∷ [];
  hosts = paris ∷ record tokyo { online = false } ∷ [];
}

-- A delta that repeats one host.
abbrev pub delta : Inventory
delta = record { client_id = ""; root_domains = []; hosts = tokyo ∷ []; entry_groups = [] }
