-- ===== src/Xcfg/Json.antt =====
-- JSON as the configuration is built of it, before `json.MarshalIndent` writes it out. Go sorts the
-- keys of a map when it writes it; the order of the fields here is that of the source.
use tunnet_lite.Base.{
  String, Bool, List, [], ◌∷◌, Option, none, some, map, if◌then◌else◌, ◌==◌, string_eq,
}
use tunnet_lite.Base.Int.{ℤ}

mutual
  pub data Json : Type 0 where
    text : String → Json
    number : ℤ → Json
    boolean : Bool → Json
    array : Items → Json
    object : Fields → Json

  pub data Items : Type 0 where
    nil : Items
    item : Json → Items → Items

  pub data Fields : Type 0 where
    empty : Fields
    field : String → Json → Fields → Fields

-- A list as a JSON array.
abbrev pub items : List Json → Items
items [] = nil
items (j ∷ js) = item j (items js)

abbrev pub fields : List (String × Json) → Fields
fields [] = empty
fields ((k, j) ∷ rest) = field k j (fields rest)

-- An object, and an array of texts.
abbrev pub obj : List (String × Json) → Json
obj l = object (fields l)

abbrev pub texts : List String → Json
texts l = array (items (map text l))

-- The field of an object.
unfoldable pub at_field : String → Fields → Option Json
at_field k empty = none
at_field k (field j v rest) = if k == j then some v else at_field k rest

unfoldable pub at_key : String → Json → Option Json
unfolding at_field
at_key k (object fs) = at_field k fs
at_key k _ = none
