-- ===== src/Control/Client/Signed.antt =====
-- What a signed request carries.
use tunnet_lite.Base.{
  ℕ, String, ◌<>◌, [], ◌∷◌, Bool, true, List, some, Result, ok, err, ◌≡◌, refl, string_eq,
}
use mathlib.Core.Path.{subst}
use tunnet_lite.Base.Int.{ℤ}
use tunnet_lite.Base.Dict.{lookup, insert}
use tunnet_lite.Base.Utf8.{utf8}
use tunnet_lite.Base.Base64.{std, encode, decode}
use tunnet_lite.Base.Base64.Laws.{IsBytes, decode-encode}
use tunnet_lite.Base.Texts.{join}
use tunnet_lite.Inventory.Key.{raw_url}
use tunnet_lite.Control.Client.{
  Request, Exchange, Client, Outside, set_header, header_of, signature_params, signature_base,
  unsigned_request, add_signature, signed_request,
}

module _ (O : Outside) (verify : List ℕ → List ℕ → List ℕ → Bool) where
  -- A signature passes under the public half of its key. Signatures, digests and keys are bytes.
  pub record IsSound : Type 0 where
    pub passes : (k m : List ℕ) → verify (O.public_half k) m (O.sign k m) ≡ true
    pub sig_bytes : (k m : List ℕ) → IsBytes (O.sign k m)
    pub key_bytes : (k : List ℕ) → IsBytes (O.public_half k)
    pub digest_bytes : (m : List ℕ) → IsBytes (O.sha256 m)

  -- What is signed, line by line: the method, the address and the headers of a request.
  abbrev pub signed_lines : Request → String → List String
  signed_lines req params =
      ("\"@method\": " <> req.method)
      ∷ ("\"@authority\": " <> req.host)
      ∷ ("\"@path\": " <> req.escaped_path)
      ∷ ("\"content-type\": " <> header_of req "Content-Type")
      ∷ ("\"content-digest\": " <> header_of req "Content-Digest")
      ∷ ("\"tunnet-public-key\": " <> header_of req "Tunnet-Public-Key")
      ∷ ("\"tunnet-response-key\": " <> header_of req "Tunnet-Response-Key")
      ∷ ("\"@signature-params\": " <> params)
      ∷ []

  -- What the parameters of a signature say that it covers.
  abbrev pub covered : String
  covered =
      "(\"@method\" \"@authority\" \"@path\" \"content-type\" \"content-digest\" \"tunnet-public-key\" \"tunnet-response-key\")"

  -- What a server finds in a request: a signature over the request's own parts, under the key that the
  -- request names, and the digest of its own body.
  pub record IsSigned (req : Request) : Type 0 where
    pub params : String
    pub others : String
    pub covers : params ≡ covered <> others
    pub input : header_of req "Signature-Input" ≡ "tn=" <> params
    pub sig : String
    pub signature : header_of req "Signature" ≡ "tn=:" <> (sig <> ":")
    pub sig_raw : List ℕ
    pub sig_decoded : decode std sig ≡ some sig_raw
    pub key : List ℕ
    pub key_decoded : decode raw_url (header_of req "Tunnet-Public-Key") ≡ some key
    pub valid : verify key (utf8 (join (signed_lines req params) "\n")) sig_raw ≡ true
    pub digest : String
    pub digest_header : header_of req "Content-Digest" ≡ "sha-256=:" <> (digest <> ":")
    pub digest_decoded : decode std digest ≡ some (O.sha256 req.body)

  module _ (v : IsSound) (c : Client) (ex : Exchange O.Key) (body : List ℕ) (now : ℤ) where
    add_signature-IsSigned :
        (url : String × String)
        → IsSigned (add_signature O c ex now (unsigned_request O c ex body url))
    unfolding add_signature unsigned_request signature_base signature_params header_of set_header
        lookup insert string_eq
    add_signature-IsSigned url =
        let req = unsigned_request O c ex body url in
        let params = signature_params c.identity.client_id ex now in
        let m = utf8 (signature_base req params) in
        record {
          params = params;
          others = _;
          covers = refl;
          input = refl;
          sig = encode std (O.sign c.identity.signing_key m);
          signature = refl;
          sig_raw = O.sign c.identity.signing_key m;
          sig_decoded = decode-encode std _ (v.sig_bytes c.identity.signing_key m);
          key = O.public_half c.identity.signing_key;
          key_decoded = decode-encode raw_url _ (v.key_bytes c.identity.signing_key);
          valid = v.passes c.identity.signing_key m;
          digest = encode std (O.sha256 body);
          digest_header = refl;
          digest_decoded = decode-encode std _ (v.digest_bytes body);
        }

    -- Every request that `signedRequest` makes is a POST of the given body to the address of the client's
    -- endpoint, and can be checked from the request alone: the signature that it carries passes, under the
    -- public key that it names, over the text of its own method, host, path, content type, digest and
    -- keys, which its parameters list, and its `Content-Digest` is that of its body; if signatures of
    -- ed25519 pass under the public half of their key, and signatures, keys and digests are bytes.
    pub signed_request-IsSigned :
        (req : Request)
        → signed_request O c ex body now ≡ ok req
        → IsSigned req
          × (req.method ≡ "POST")
          × (req.body ≡ body)
          × (O.parse_url c.endpoint ≡ ok (req.host, req.escaped_path))
    unfolding signed_request
    signed_request-IsSigned req h = made (O.parse_url c.endpoint) refl h
      where
        made :
            (r : Result (String × String))
            → O.parse_url c.endpoint ≡ r
            → elim r as (λ _. Result Request) [
              | err e ↦ err e
              | ok url ↦ ok (add_signature O c ex now (unsigned_request O c ex body url))
            ]
              ≡ ok req
            → IsSigned req
              × (req.method ≡ "POST")
              × (req.body ≡ body)
              × (O.parse_url c.endpoint ≡ ok (req.host, req.escaped_path))
        made (err e) q k = cc
        made (ok url) q k =
            let e : add_signature O c ex now (unsigned_request O c ex body url) ≡ req = cc in
            subst
              (λ t.
                IsSigned t
                × (t.method ≡ "POST")
                × (t.body ≡ body)
                × (O.parse_url c.endpoint ≡ ok (t.host, t.escaped_path)))
              e
              (
                add_signature-IsSigned url,
                unfold add_signature unsigned_request set_header in refl,
                unfold add_signature unsigned_request set_header in refl,
                unfold add_signature unsigned_request set_header in q,
              )
