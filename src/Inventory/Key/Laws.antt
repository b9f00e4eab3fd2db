-- ===== src/Inventory/Key/Laws.antt =====
-- All texts of one key normalise alike, and a normalised key stays as it is.
use mathlib.Core.List.{Memᴰ}
use tunnet_lite.Base.{
  ℕ, String, Bool, true, false, List, [], ◌∷◌, some, length, ok, is_ok, ◌↔◌, ◌==◌, nat_eq, ◌≡◌,
  refl, sym, arith, Option-cases, Bool-cases, inl, inr, ◌∙◌, ap,
}
use tunnet_lite.Base.Base64.{Encoding, decode, encode}
use tunnet_lite.Base.Base64.Laws.{IsBytes, decode-encode, decode_agree, decode-IsBytes}
use tunnet_lite.Inventory.Types.{Host}
use tunnet_lite.Inventory.Key.{raw_url, variants, first_decoding, normalized_key}

-- A variant that decodes to 32 bytes decides the result, wherever it stands among the variants.
first_decoding_lem :
    (key : String) (e : Encoding) (es : List Encoding) (bytes : List ℕ)
    → Memᴰ e es
    → decode e key ≡ some bytes
    → length bytes ≡ 32
    → first_decoding key es ≡ ok (encode raw_url bytes)
unfolding first_decoding
first_decoding_lem key e [] bytes m h n = elim m [ ]
first_decoding_lem key e (d ∷ ds) bytes (Memᴰ.head p) h n =
    ground (arith, ap (λ (v : Encoding). decode v key) p)
first_decoding_lem key e (d ∷ ds) bytes (Memᴰ.tail m) h n = elim (Option-cases (decode d key)) [
  | inl q ↦ rw (q, first_decoding) (first_decoding_lem key e ds bytes m h n)
  | inr (b, q) ↦ rw (q, first_decoding) (ground (arith, decode_agree d e key b bytes q h))
]

variants_all : (url padded : Bool) → Memᴰ (record { url = url; padded = padded }) variants
variants_all true false = Memᴰ.head refl
variants_all true true = Memᴰ.tail (Memᴰ.head refl)
variants_all false false = Memᴰ.tail (Memᴰ.tail (Memᴰ.head refl))
variants_all false true = Memᴰ.tail (Memᴰ.tail (Memᴰ.tail (Memᴰ.head refl)))

-- A host whose key is the text of 32 bytes in any of the four variants has these bytes in raw URL
-- base64 as its normalised key.
pub normalized_key-encode :
    (h : Host) (e : Encoding) (bytes : List ℕ)
    → IsBytes bytes
    → length bytes ≡ 32
    → h.key ≡ encode e bytes
    → normalized_key h ≡ ok (encode raw_url bytes)
unfolding normalized_key
normalized_key-encode h e bytes b n k =
    first_decoding_lem h.key e variants bytes (variants_all e.url e.padded)
      (ap (decode e) k ∙ decode-encode e bytes b) n

first_decoding_inv :
    (key : String) (es : List Encoding) (out : String)
    → first_decoding key es ≡ ok out
    → (bytes : List ℕ) × IsBytes bytes × (length bytes ≡ 32) × (out ≡ encode raw_url bytes)
unfolding first_decoding
first_decoding_inv key [] out h = cc
first_decoding_inv key (e ∷ es) out h = elim (Option-cases (decode e key)) [
  | inl q ↦ first_decoding_inv key es out (rw (q, first_decoding) at h)
  | inr (bytes, q) ↦ elim (Bool-cases (length bytes == 32)) [
    | inl n ↦ (bytes, decode-IsBytes e key bytes q, ground arith, ground arith)
    | inr n ↦ first_decoding_inv key es out (ground arith)
  ]
]

-- Normalising a key that was normalised changes nothing.
pub normalized_key_idem :
    (h : Host) (key : String)
    → normalized_key h ≡ ok key
    → normalized_key (record h { key = key }) ≡ ok key
unfolding normalized_key
normalized_key_idem h key e =
    let (bytes, b, n, k) = first_decoding_inv h.key variants key e in
    normalized_key-encode (record h { key = key }) raw_url bytes b n k ∙ ap ok (sym k)

-- The text of 32 bytes in one of the four variants.
abbrev pub IsKey : String → Type 0
IsKey key = (e : Encoding) × (bytes : List ℕ) × (decode e key ≡ some bytes) × (length bytes ≡ 32)

first_decoding-IsKey :
    (key : String) (es : List Encoding) → is_ok (first_decoding key es) ≡ true → IsKey key
unfolding first_decoding
first_decoding-IsKey key [] h = cc
first_decoding-IsKey key (e ∷ es) h = elim (Option-cases (decode e key)) [
  | inl q ↦ first_decoding-IsKey key es (rw (q, first_decoding) at h)
  | inr (bytes, q) ↦ elim (Bool-cases (length bytes == 32)) [
    | inl n ↦ (e, bytes, q, ground arith)
    | inr n ↦ first_decoding-IsKey key es (ground arith)
  ]
]

-- A key normalises exactly when it is one.
pub normalized_key_iff : (h : Host) → (is_ok (normalized_key h) ≡ true) ↔ IsKey h.key
unfolding normalized_key
normalized_key_iff h = (
  first_decoding-IsKey h.key variants,
  λ (e, bytes, q, n).
      ap is_ok (first_decoding_lem h.key e variants bytes (variants_all e.url e.padded) q n),
)
