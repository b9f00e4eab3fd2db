-- ===== src/Inventory/Key.antt =====
-- `Host.NormalizedKey`: the key in raw URL base64, from any common variant.
pub mod Laws
use tunnet_lite.Base.{
  ℕ, String, Bool, true, false, List, [], ◌∷◌, Option, none, some, length, Result, ok, err, errorf,
  ◌==◌, nat_eq, if◌then◌else◌,
}
use tunnet_lite.Base.Base64.{Encoding, decode, encode}
use tunnet_lite.Inventory.Types.{Host}

abbrev pub raw_url : Encoding
raw_url = record { url = true; padded = false }

-- The variants, in the order in which they are tried.
abbrev pub variants : List Encoding
variants =
    raw_url
    ∷ record { url = true; padded = true }
    ∷ record { url = false; padded = false }
    ∷ record { url = false; padded = true }
    ∷ []

-- The loop over the variants: the first that decodes to 32 bytes is taken.
first_decoding : String → List Encoding → Result String
unfolding nat_eq
first_decoding key [] = err (errorf "vless_encryption_key is not a 32-byte base64 value" [])
first_decoding key (e ∷ es) = elim (decode e key) [
  | none ↦ first_decoding key es
  | some bytes ↦
      let rest = first_decoding key es in
      if length bytes == 32 then ok (encode raw_url bytes) else rest
]

unfoldable pub normalized_key : Host → Result String
unfolding first_decoding
normalized_key h = first_decoding h.key variants
