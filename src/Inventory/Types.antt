-- ===== src/Inventory/Types.antt =====
-- The records of internal/inventory/inventory.go. A Go map is a list of pairs, a pointer an option.
use tunnet_lite.Base.{String, Bool, List, Option}

pub record FrontProxy : Type 0 where
  pub endpoint : String
  pub headers : List (String × String)

pub record EntryGroup : Type 0 where
  pub name : String
  pub ipv4 : List String
  pub front_proxy : Option FrontProxy

pub record Host : Type 0 where
  pub slug : String
  pub name : String
  pub key : String
  pub online : Bool

pub record Inventory : Type 0 where
  pub client_id : String
  pub root_domains : List String
  pub hosts : List Host
  pub entry_groups : List EntryGroup
