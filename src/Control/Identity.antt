-- ===== src/Control/Identity.antt =====
-- internal/control/identity.go: the identity's name and its stored form. `Save` is in Session, and
-- `NewIdentity` and `LoadIdentity` are in Open.
use tunnet_lite.Base.{
  ℕ, zero, suc, ◌+◌, ◌/◌, ◌%◌, String, ◌<>◌, not, List, [], ◌∷◌, none, some, length, errorf, Result,
  ok, err, context, ◌>>=◌, ◌==◌, nat_eq, string_eq, if◌then◌else◌,
}
use Prim.Native.Char.{Char}
use tunnet_lite.Base.Base64.{encode, decode}
use tunnet_lite.Inventory.Key.{raw_url}
use tunnet_lite.Control.Exec.{Identity, IdentityFile}

-- The random source, the key generator and the codec, beside those of a session.
pub record Keys (World : Type 0) : Type 0 where
  -- `rand.Read` of so many bytes
  pub random : ℕ → World → Result (List ℕ) × World
  -- `ed25519.GenerateKey`: the private key, and the public half of one
  pub generate_key : World → Result (List ℕ) × World
  pub public_half : List ℕ → List ℕ
  -- `json.Unmarshal` of an identity
  pub decode_identity : String → Result IdentityFile

-- `raw[i] = f(raw[i])`
unfoldable pub change_at : ℕ → (ℕ → ℕ) → List ℕ → List ℕ
change_at i f [] = []
change_at zero f (b ∷ bs) = f b ∷ bs
change_at (suc i) f (b ∷ bs) = b ∷ change_at i f bs

-- `raw[6]&0x0f | 0x80` and `raw[8]&0x3f | 0x80`
unfoldable pub mark : List ℕ → List ℕ
unfolding change_at
mark raw = change_at 8 (λ b. b % 64 + 128) (change_at 6 (λ b. b % 16 + 128) raw)

hex_digit : ℕ → Char
hex_digit n =
    if n == 0
    then "0"
    else if n == 1
    then "1"
    else if n == 2
    then "2"
    else if n == 3
    then "3"
    else if n == 4
    then "4"
    else if n == 5
    then "5"
    else if n == 6
    then "6"
    else if n == 7
    then "7"
    else if n == 8
    then "8"
    else if n == 9
    then "9"
    else if n == 10
    then "a"
    else if n == 11
    then "b"
    else if n == 12
    then "c"
    else if n == 13
    then "d"
    else if n == 14
    then "e"
    else "f"

-- `hex.EncodeToString`
unfoldable pub hex : List ℕ → String
unfolding hex_digit
hex [] = ""
hex (b ∷ bs) = String.◌∷◌ (hex_digit (b / 16)) (String.◌∷◌ (hex_digit (b % 16)) (hex bs))

-- `s[:n]` and `s[n:]`, within the text.
unfoldable pub prefix : ℕ → String → String
prefix zero s = ""
prefix (suc n) String.[] = ""
prefix (suc n) (String.◌∷◌ c s) = String.◌∷◌ c (prefix n s)

unfoldable pub suffix : ℕ → String → String
suffix zero s = s
suffix (suc n) String.[] = ""
suffix (suc n) (String.◌∷◌ c s) = suffix n s

-- `s[:8]`, `s[8:12]`, `s[12:16]`, `s[16:20]` and `s[20:]` of `formatUUID`
unfoldable pub dashed : String → String
unfolding prefix suffix
dashed s =
    prefix 8 s
    <> ("-"
        <> (prefix 4 (suffix 8 s)
            <> ("-"
                <> (prefix 4 (suffix 12 s)
                    <> ("-" <> (prefix 4 (suffix 16 s) <> ("-" <> suffix 20 s)))))))

-- `formatUUID`
unfoldable pub format_uuid : List ℕ → String
unfolding dashed hex
format_uuid raw = dashed (hex raw)

module _ {World : Type 0} (K : Keys World) where
  -- `Identity.PublicKey`
  unfoldable pub public_key : Identity → String
  public_key id = encode raw_url (K.public_half id.signing_key)

  -- `LoadIdentity` from the decoded file on.
  unfoldable pub checked : IdentityFile → List ℕ → Result Identity
  checked f key =
      if not (length key == 64)
      then err (errorf "stored signing key has the wrong size" [])
      else if f.client_id == ""
      then err (errorf "stored identity has no client id" [])
      else ok
          (record { client_id = f.client_id; signing_key = key; pending_ticket = f.pending_ticket })

  -- The error of the decoder is not told apart.
  unfoldable pub stored_key : String → IdentityFile → Result (List ℕ)
  stored_key path f = elim (decode raw_url f.signing_key) [
    | none ↦ err (errorf "parse identity %s: illegal base64 data" (path ∷ []))
    | some key ↦ ok key
  ]

  unfoldable pub parse_identity : String → String → Result Identity
  parse_identity path contents = do
    f ← context "parse identity %s: %w" (path ∷ []) (K.decode_identity contents)
    key ← stored_key path f
    checked f key
