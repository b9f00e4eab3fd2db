-- ===== src/Control/Client.antt =====
-- internal/control/client.go and `Authorize` of internal/control/authorize.go. A client's calls are
-- actions on the world; what `reportTLSOnce` logs is left out.
pub mod Sealed
pub mod Signed
use tunnet_lite.Base.{
  ℕ, zero, suc, ◌+◌, ◌-◌, ◌*◌, ◌%◌, ◌^◌, String, ◌<>◌, Bool, true, false, not, ◌||◌, List, [], ◌∷◌,
  ◌++◌, Option, none, some, length, take, ltb, Error, errorf, wrapf, Result, ok, err, context, ◌==◌,
  nat_eq, string_eq, if◌then◌else◌,
}
use tunnet_lite.Base.Int.{ℤ, pos, negsuc}
use tunnet_lite.Base.Dict.{Dict, lookup, insert}
use tunnet_lite.Base.Texts.{trim_space, has_prefix, join}
use tunnet_lite.Base.Utf8.{utf8}
use tunnet_lite.Base.Reader.{read_limited}
use tunnet_lite.Base.Numerals.{decimal}
use tunnet_lite.Base.Base64.{std, encode}
use tunnet_lite.Base.Action.{Action, pure, raise, lift, gets, attempt, ◌>>=◌, ◌>>◌}
use tunnet_lite.Inventory.Key.{raw_url}
use tunnet_lite.Control.Exec.{Identity, BootstrapResult}

-- `http.Request`, with the parts of its URL that are signed.
pub record Request : Type 0 where
  pub method : String
  pub url : String
  pub host : String
  pub escaped_path : String
  pub header : Dict String
  pub body : List ℕ

-- An answer: the bytes that arrive, and the error that ends them, if not the end.
pub record Answer : Type 0 where
  pub status_code : ℕ
  pub status : String
  pub content_type : String
  pub body : List ℕ
  pub broken : Option Error

-- `identityRequest` and `ticketRequest`
pub record IdentityRequest : Type 0 where
  pub client_id : String
  pub platform : String
  pub app_version : String

pub record TicketRequest : Type 0 where
  pub ticket : String
  pub app_version : String

-- The `access` block of a bootstrap payload.
pub record AccessBlock : Type 0 where
  pub state : String
  pub ticket : String
  pub retry_after_seconds : ℤ

pub record Outside : Type 1 where
  pub World : Type 0
  -- the private half of a response key
  pub Key : Type 0
  -- `rand.Read` of so many bytes, and `GenerateKey` of X25519 with the public bytes
  pub random : ℕ → World → Result (List ℕ) × World
  pub generate_key : World → Result (Key × List ℕ) × World
  -- `time.Now().Unix()`
  pub now : World → ℤ × World
  -- `http.NewRequestWithContext`: the host and the escaped path of a URL
  pub parse_url : String → Result (String × String)
  -- `Client.Do`
  pub send : Request → World → Result Answer × World
  pub sha256 : List ℕ → List ℕ
  -- ed25519
  pub sign : List ℕ → List ℕ → List ℕ
  pub public_half : List ℕ → List ℕ
  -- `hpke.Open` of a key, an info text and a ciphertext
  pub open_sealed : Key → List ℕ → List ℕ → Result (List ℕ)
  -- the JSON codecs
  pub encode_identity_request : IdentityRequest → List ℕ
  pub encode_ticket_request : TicketRequest → List ℕ
  pub encode_ticket : String → List ℕ
  pub decode_bootstrap : List ℕ → Result AccessBlock
  -- the text that bytes stand for
  pub text_of : List ℕ → String
  -- `url.Parse`: the scheme and the host
  pub origin : String → Result (String × String)

-- `exchange`
pub record Exchange (Key : Type 0) : Type 0 where
  pub operation : String
  pub nonce : String
  pub nonce_raw : List ℕ
  pub response_key : Key
  pub response_pub : String

-- `Client`, without its HTTP client.
pub record Client : Type 0 where
  pub endpoint : String
  pub platform : String
  pub app_version : String
  pub identity : Identity

-- `NewClient`
abbrev pub new_client : Identity → Client
new_client id = record {
  endpoint = "https://client-api.nexttun.net/api/v1/client";
  platform = "windows";
  app_version = "0.2.4";
  identity = id;
}

abbrev pub media_type : String
media_type = "application/vnd.tunnet.hpke"

-- `time.Duration(n) * time.Second` in 64 bits.
unfoldable pub seconds : ℤ → ℤ
seconds (pos n) =
    let m = (n * 1000000000) % 2 ^ 64 in if ltb m (2 ^ 63) then pos m else negsuc (2 ^ 64 - m - 1)
seconds (negsuc n) =
    let m = (n * 1000000000 + 999999999) % 2 ^ 64 in
    if ltb m (2 ^ 63) then negsuc m else pos (2 ^ 64 - m - 1)

-- That number and 120, in 64 bits.
unfoldable pub two_minutes_on : ℤ → ℤ
two_minutes_on (pos n) =
    if ltb (n + 120) (2 ^ 63) then pos (n + 120) else negsuc (2 ^ 64 - (n + 120) - 1)
two_minutes_on (negsuc n) = if ltb n 120 then pos (119 - n) else negsuc (n - 120)

-- `Header.Get`
unfoldable pub header_of : Request → String → String
header_of req name = elim (lookup name req.header) [ none ↦ "" | some value ↦ value ]

-- `Header.Set`, of a name in its canonical form.
unfoldable pub set_header : String → String → Request → Request
set_header name value req = record req { header = insert name value req.header }

abbrev pub signed_components : String
signed_components =
    "(\"@method\" \"@authority\" \"@path\" \"content-type\" \"content-digest\" \"tunnet-public-key\" \"tunnet-response-key\")"

-- `signatureParams`
unfoldable pub signature_params : {K : Type 0} → String → Exchange K → ℤ → String
signature_params client_id ex created =
    signed_components
    <> (";created="
        <> (decimal created
            <> (";expires="
                <> (decimal (two_minutes_on created)
                    <> (";keyid=\""
                        <> (client_id
                            <> ("\";alg=\"ed25519\";nonce=\""
                                <> (ex.nonce
                                    <> ("\";tag=\""
                                        <> (ex.operation <> ":tunnet-client-v1\""))))))))))

-- `signatureBase`
unfoldable pub signature_base : Request → String → String
signature_base req params =
    join
      (("\"@method\": " <> req.method)
        ∷ ("\"@authority\": " <> req.host)
        ∷ ("\"@path\": " <> req.escaped_path)
        ∷ ("\"content-type\": " <> header_of req "Content-Type")
        ∷ ("\"content-digest\": " <> header_of req "Content-Digest")
        ∷ ("\"tunnet-public-key\": " <> header_of req "Tunnet-Public-Key")
        ∷ ("\"tunnet-response-key\": " <> header_of req "Tunnet-Response-Key")
        ∷ ("\"@signature-params\": " <> params)
        ∷ [])
      "\n"

-- The info string of `open`.
unfoldable pub info : {K : Type 0} → String → Exchange K → List ℕ
info client_id ex =
    utf8 "TunNet/client-response/v1"
    ++ (0 ∷ (utf8 ex.operation ++ (0 ∷ (utf8 client_id ++ (0 ∷ ex.nonce_raw)))))

module _ (O : Outside) where
  -- `truncate`: the cut is between bytes.
  unfoldable pub truncate : List ℕ → ℕ → String
  truncate b n =
      let s = trim_space (O.text_of b) in
      if ltb n (length (utf8 s)) then O.text_of (take n (utf8 s)) <> "…" else s

  -- `newExchange`
  unfoldable pub new_exchange : String → Action O.World (Exchange O.Key)
  new_exchange operation = do
    nonce_raw ← O.random 16
    key ← O.generate_key
    pure (record {
      operation = operation;
      nonce = encode raw_url nonce_raw;
      nonce_raw = nonce_raw;
      response_key = key.0;
      response_pub = encode raw_url key.1;
    })

  -- The request before it is signed.
  unfoldable pub unsigned_request : Client → Exchange O.Key → List ℕ → String × String → Request
  unsigned_request c ex body url =
      set_header "Content-Digest" ("sha-256=:" <> (encode std (O.sha256 body) <> ":")) (
        set_header "Tunnet-Response-Key" ex.response_pub (
          set_header "Tunnet-Public-Key" (encode raw_url (O.public_half c.identity.signing_key)) (
            set_header "Accept" (media_type <> ", application/json") (
              set_header "Content-Type" "application/json" (record {
                method = "POST";
                url = c.endpoint;
                host = url.0;
                escaped_path = url.1;
                header = [];
                body = body;
              })))))

  -- The two headers of the signature.
  unfoldable pub add_signature : Client → Exchange O.Key → ℤ → Request → Request
  add_signature c ex created req =
      let params = signature_params c.identity.client_id ex created in
      let sig = O.sign c.identity.signing_key (utf8 (signature_base req params)) in
      set_header "Signature" ("tn=:" <> (encode std sig <> ":"))
        (set_header "Signature-Input" ("tn=" <> params) req)

  -- `Client.signedRequest`
  unfoldable pub signed_request : Client → Exchange O.Key → List ℕ → ℤ → Result Request
  signed_request c ex body now = elim (O.parse_url c.endpoint) [
    | err e ↦ err e
    | ok url ↦ ok (add_signature c ex now (unsigned_request c ex body url))
  ]

  -- `Client.open`
  unfoldable pub open_response : Client → Exchange O.Key → List ℕ → Result (List ℕ)
  open_response c ex ciphertext =
      O.open_sealed ex.response_key (info c.identity.client_id ex) ciphertext

  -- `Client.call` from the payload on.
  unfoldable pub unseal : Client → Exchange O.Key → String → Answer → List ℕ → Result (List ℕ)
  unseal c ex operation resp payload =
      if not (has_prefix resp.content_type media_type)
      then err (errorf "%s rejected (%s): %s" (operation ∷ resp.status ∷ truncate payload 512 ∷ []))
      else context "%s: decrypt response: %w" (operation ∷ []) (open_response c ex payload)

  -- `Client.call`
  unfoldable pub call : Client → String → List ℕ → Action O.World (List ℕ)
  call c operation body = do
    ex ← new_exchange operation
    now ← (λ w. let (t, v) = O.now w in (ok t, v))
    req ← lift (signed_request c ex body now)
    sent ← attempt (O.send req)
    resp ← lift (context "%s: %w" (operation ∷ []) sent)
    payload ← lift (context "%s: %w" (operation ∷ []) (read_limited 8388608 resp.body resp.broken))
    lift (unseal c ex operation resp payload)

  unfoldable pub identity_request : Client → List ℕ
  identity_request c = O.encode_identity_request (record {
    client_id = c.identity.client_id;
    platform = c.platform;
    app_version = c.app_version;
  })

  -- `Client.Bootstrap`
  unfoldable pub bootstrap : Client → Action O.World BootstrapResult
  bootstrap c = do
    plain ← call c "bootstrap" (identity_request c)
    parsed ← lift (context "parse bootstrap response: %w" [] (O.decode_bootstrap plain))
    pure (record {
      state = parsed.state;
      ticket = parsed.ticket;
      retry_after = seconds parsed.retry_after_seconds;
      raw = O.text_of plain;
    })

  -- `Client.Access`
  unfoldable pub access : Client → String → Action O.World (List ℕ)
  access c ticket =
      call c "access"
        (O.encode_ticket_request (record { ticket = ticket; app_version = c.app_version }))

  -- `Client.Sync`
  unfoldable pub sync : Client → Action O.World (List ℕ)
  sync c = call c "sync" (identity_request c)

  -- `originOf`
  unfoldable pub origin_of : String → Result String
  origin_of raw =
      if raw == ""
      then err (errorf "no verification URL available; pass one explicitly" [])
      else elim (O.origin raw) [
        | err e ↦ err (wrapf "bad verification URL %q: %w" (raw ∷ []) e)
        | ok u ↦
            if not (u.0 == "https") || u.1 == ""
            then err (errorf "bad verification URL %q" (raw ∷ []))
            else ok ("https://" <> u.1)
      ]

  -- The request of `Authorize`.
  unfoldable pub authorize_request : String → List ℕ → String × String → Request
  authorize_request origin body url = set_header "Sec-Fetch-Site" "same-origin" (
      set_header "Sec-Fetch-Mode" "cors" (
        set_header "Origin" origin (
          set_header "Content-Type" "application/json" (
            set_header "Accept" "application/json" (record {
              method = "POST";
              url = origin <> "/api/v1/access/authorize";
              host = url.0;
              escaped_path = url.1;
              header = [];
              body = body;
            })))))

  -- `Authorize`, where one read gives the first 2048 bytes.
  unfoldable pub authorize : String → String → Action O.World (Unit {0})
  authorize verification_url ticket = do
    origin ← lift (origin_of verification_url)
    url ← lift (O.parse_url (origin <> "/api/v1/access/authorize"))
    sent ← attempt (O.send (authorize_request origin (O.encode_ticket ticket) url))
    resp ← lift (context "authorize: %w" [] sent)
    if not (resp.status_code == 200)
        then raise (
            errorf "authorize rejected (%s): %s"
              (resp.status ∷ truncate (take 2048 resp.body) 512 ∷ []))
        else pure tt
