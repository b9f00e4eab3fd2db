-- ===== src/Resolver.antt =====
-- internal/resolver/doh.go. The codec of DNS messages, URLs and HTTP are parameters.
pub mod Laws
use tunnet_lite.Base.{
  ℕ, zero, suc, String, ◌<>◌, Bool, true, false, not, ◌||◌, List, [], ◌∷◌, ◌++◌, Option, none, some,
  is_empty, Error, errorf, wrapf, Result, ok, err, context, ◌==◌, nat_eq, string_eq, if◌then◌else◌,
}
use Prim.Native.Char.{code}
use tunnet_lite.Base.Texts.{trim_space}
use tunnet_lite.Base.Reader.{read_limited}
use tunnet_lite.Base.Action.{Action, pure, raise, lift, gets, attempt, ◌>>=◌, ◌>>◌}

-- `dnsmessage.SVCParam`
pub record Param : Type 0 where
  pub key : ℕ
  pub value : List ℕ

-- The body of a `dnsmessage.Resource`.
pub data Resource : Type 0 where
  a_resource : List ℕ → Resource
  aaaa_resource : List ℕ → Resource
  https_resource : List Param → Resource
  svcb_resource : List Param → Resource
  other_resource : Resource

-- `dnsmessage.Type`, of the queries that are made.
pub data Kind : Type 0 where
  type_a : Kind
  type_aaaa : Kind
  type_https : Kind

-- `dnsmessage.Message`, as far as the code writes it: one question of class IN.
pub record Query : Type 0 where
  pub recursion_desired : Bool
  pub name : String
  pub kind : Kind

-- `dnsmessage.Message`, as far as the code reads it.
pub record Message : Type 0 where
  pub response : Bool
  pub rcode : ℕ
  pub answers : List Resource

-- An answer over HTTP: the bytes that arrive, and the error that ends them, if not the end.
pub record Answer : Type 0 where
  pub status_code : ℕ
  pub status : String
  pub content_type : String
  pub body : List ℕ
  pub broken : Option Error

-- What `url.Parse` finds of a URL: the scheme, whether it names a user, and `Hostname()`.
pub record Url : Type 0 where
  pub scheme : String
  pub has_user : Bool
  pub hostname : String

pub record Net : Type 1 where
  pub World : Type 0
  -- a POST of a DNS message
  pub post : String → List ℕ → World → Result Answer × World
  -- `mime.ParseMediaType`
  pub media_type : String → Result String
  -- `NewName`: its error; `Pack` of a query, and `Unpack`
  pub new_name : String → Result (Unit {0})
  pub pack : Query → Result (List ℕ)
  pub unpack : List ℕ → Result Message
  -- `url.Parse`, and `net.ParseIP(s) != nil`
  pub parse_url : String → Result Url
  pub is_ip : String → Bool
  -- `%v` of a response code, and of a type
  pub show_rcode : ℕ → String
  pub show_kind : Kind → String
  -- the text of an error
  pub message : Error → String

-- `defaultUpstreams`
abbrev pub default_upstreams : List String
default_upstreams = "https://223.5.5.5/dns-query" ∷ "https://1.12.12.12/dns-query" ∷ []

-- `SVCParamECH`
abbrev pub svc_param_ech : ℕ
svc_param_ech = 5

-- `fqdn`
unfoldable pub ends_in_dot : String → Bool
ends_in_dot String.[] = false
ends_in_dot (String.◌∷◌ c s) = let rest = ends_in_dot s in if s == "" then code c == b'.' else rest

unfoldable pub fqdn : String → String
fqdn name = if ends_in_dot name then name else name <> "."

-- The addresses among the answers, in their order.
unfoldable pub addresses : List Resource → List (List ℕ)
addresses [] = []
addresses (a_resource ip ∷ answers) = ip ∷ addresses answers
addresses (aaaa_resource ip ∷ answers) = ip ∷ addresses answers
addresses (https_resource params ∷ answers) = addresses answers
addresses (svcb_resource params ∷ answers) = addresses answers
addresses (other_resource ∷ answers) = addresses answers

-- The parameters of the `switch` of `LookupECH`.
abbrev pub params_of : Resource → List Param
params_of (https_resource params) = params
params_of (svcb_resource params) = params
params_of _ = []

-- The loop over the parameters: the first of the ECH key.
unfoldable pub ech_param : List Param → Option (List ℕ)
ech_param [] = none
ech_param (param ∷ params) =
    if param.key == svc_param_ech then some param.value else ech_param params

-- The loop of `LookupECH` over the answers. A value that is nil is an empty one.
unfoldable pub ech_config : List Resource → List ℕ
ech_config [] = []
ech_config (answer ∷ answers) = elim (ech_param (params_of answer)) [
  | none ↦ ech_config answers
  | some value ↦ value
]

module _ (N : Net) where
  -- `errors.Join`: the texts, one to a line.
  unfoldable pub join_errors : List Error → Error
  join_errors errs = errorf "%v" (map_messages errs)
    where
      map_messages : List Error → List String
      map_messages [] = []
      map_messages (e ∷ es) = N.message e ∷ map_messages es

  -- `parseAnswers`
  unfoldable pub parse_answers : List ℕ → Result (List Resource)
  parse_answers payload = elim (N.unpack payload) [
    | err e ↦ err e
    | ok msg ↦
        if not msg.response
        then err (errorf "DNS payload is not a response" [])
        else if not (msg.rcode == 0)
        then err (errorf "DNS response code %v" (N.show_rcode msg.rcode ∷ []))
        else ok msg.answers
  ]

  -- The check of the content type in `exchange`.
  abbrev pub is_dns : Result String → Bool
  is_dns (err e) = false
  is_dns (ok media_type) = media_type == "application/dns-message"

  -- `exchange`
  unfoldable pub exchange : String → List ℕ → Action N.World (List Resource)
  exchange upstream wire = do
    resp ← N.post upstream wire
    if not (resp.status_code == 200)
        then raise (errorf "%s returned %s" (upstream ∷ resp.status ∷ []))
        else if not (is_dns (N.media_type resp.content_type))
        then raise
            (errorf "%s returned invalid content type %q" (upstream ∷ resp.content_type ∷ []))
        else lift (bind_result (read_limited 65536 resp.body resp.broken))
    where
      bind_result : Result (List ℕ) → Result (List Resource)
      bind_result (err e) = err e
      bind_result (ok payload) = parse_answers payload

  -- The loop of `query` over the upstreams, with the errors so far.
  unfoldable pub query_each :
      String → List ℕ → List String → List Error → Action N.World (List Resource)
  query_each name wire [] errs =
      raise (wrapf "DoH lookup of %s failed on every upstream: %w" (name ∷ []) (join_errors errs))
  query_each name wire (upstream ∷ upstreams) errs = attempt (exchange upstream wire) >>= λ r.
      elim r [
        | ok answers ↦ pure answers
        | err e ↦ query_each name wire upstreams (errs ++ (wrapf "%s: %w" (upstream ∷ []) e ∷ []))
      ]

  -- `buildQuery`
  unfoldable pub build_query : String → Kind → Result (List ℕ)
  build_query name kind = elim (N.new_name (fqdn name)) [
    | err e ↦ err e
    | ok u ↦ N.pack (record { recursion_desired = true; name = fqdn name; kind = kind })
  ]

  -- `query`
  unfoldable pub query : List String → String → Kind → Action N.World (List Resource)
  query upstreams name kind = do
    wire ← lift (build_query name kind)
    query_each name wire upstreams []

  -- The end of `LookupIP`.
  unfoldable pub found : String → List (List ℕ) → List Error → Result (List (List ℕ))
  found name ips errs =
      if not (is_empty ips)
      then ok ips
      else if is_empty errs
      then err (errorf "no address for %s over DoH" (name ∷ []))
      else err (wrapf "no address for %s over DoH: %w" (name ∷ []) (join_errors errs))

  -- The loop of `LookupIP` over the types, with the addresses and the errors so far.
  unfoldable pub lookup_each :
      List String → String → List Kind → List (List ℕ) → List Error → Action N.World (List (List ℕ))
  lookup_each upstreams name [] ips errs = lift (found name ips errs)
  lookup_each upstreams name (kind ∷ kinds) ips errs = attempt (query upstreams name kind) >>= λ r.
      elim r [
        | ok answers ↦ lookup_each upstreams name kinds (ips ++ addresses answers) errs
        | err e ↦
            lookup_each upstreams name kinds ips
              (errs ++ (wrapf "%s: %w" (N.show_kind kind ∷ []) e ∷ []))
      ]

  -- `LookupIP`
  unfoldable pub lookup_ip : List String → String → Action N.World (List (List ℕ))
  lookup_ip upstreams name = lookup_each upstreams name (type_a ∷ type_aaaa ∷ []) [] []

  -- `LookupECH`
  unfoldable pub lookup_ech : List String → String → Action N.World (List ℕ)
  lookup_ech upstreams name = do
    answers ← query upstreams name type_https
    pure (ech_config answers)

  -- The check of one upstream in `validateUpstreams`.
  unfoldable pub check_url : String → Result Url → Result String
  check_url raw (err e) = err (wrapf "invalid DoH upstream %q: %w" (raw ∷ []) e)
  check_url raw (ok u) =
      if not (u.scheme == "https") || u.has_user || not (N.is_ip u.hostname)
      then err (errorf "DoH upstream %q must be an HTTPS URL with an IP-literal host" (raw ∷ []))
      else ok (trim_space raw)

  unfoldable pub check_upstream : String → Result String
  check_upstream raw = check_url raw (N.parse_url (trim_space raw))

  -- The loop of `validateUpstreams`.
  abbrev pub push_front : String → Result (List String) → Result (List String)
  push_front url (err e) = err e
  push_front url (ok urls) = ok (url ∷ urls)

  unfoldable pub check_upstreams : List String → Result (List String)
  check_upstreams [] = ok []
  check_upstreams (raw ∷ rest) =
      let others = check_upstreams rest in
      elim (check_upstream raw) [ err e ↦ err e | ok url ↦ push_front url others ]

  -- `validateUpstreams`
  unfoldable pub validate_upstreams : List String → Result (List String)
  validate_upstreams upstreams =
      check_upstreams (if is_empty upstreams then default_upstreams else upstreams)

  -- `NewDoH`: the upstreams of the resolver.
  abbrev pub new_doh : List String → Result (List String)
  new_doh upstreams = validate_upstreams upstreams
