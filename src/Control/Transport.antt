-- ===== src/Control/Transport.antt =====
-- internal/control/transport.go: the client that reaches the control endpoint, and its dialers.
pub mod Retry
pub mod Hardened
pub mod Literal
use tunnet_lite.Base.{
  ℕ, String, Bool, true, false, not, ◌&&◌, ◌||◌, List, [], ◌∷◌, Option, none, some, is_empty, Error,
  errorf, wrapf, Result, ok, err, context, fail_if, ◌==◌, string_eq, if◌then◌else◌,
}
use Prim.Native.Char.{Char}
use tunnet_lite.Base.Address.{split_host_port, join_host_port}
use tunnet_lite.Base.Texts.{to_lower}
use tunnet_lite.Base.Action.{Action, pure, raise, lift, gets, attempt, ◌>>=◌, ◌>>◌}

-- What `url.Parse` finds of a URL: the scheme, whether it names a user, and `Hostname()`.
pub record Url : Type 0 where
  pub scheme : String
  pub has_user : Bool
  pub hostname : String

-- `tls.Config`, as far as the code sets it. `min_version` is 0 unless it is set.
pub record TlsConfig (Verify : Type 0) : Type 0 where
  pub server_name : String
  pub verify_peer_certificate : Option Verify
  pub encrypted_client_hello_config_list : List ℕ
  pub min_version : ℕ
  -- whether `VerifyConnection` is `requireECH`
  pub requires_ech : Bool
  pub next_protos : List String

pub record Net : Type 1 where
  pub World : Type 0
  -- `net.Conn` before and after the handshake, `net.IP`, and a check of certificates
  pub Raw : Type 0
  pub Conn : Type 0
  pub Ip : Type 0
  pub Verify : Type 0
  pub parse_url : String → Result Url
  -- `net.ParseIP(s) != nil` and `ip.String()`
  pub is_ip : String → Bool
  pub show_ip : Ip → String
  pub lower : Char → Char
  -- `Dialer.DialContext` of ten seconds
  pub dial : String → World → Result Raw × World
  -- `HandshakeContext` of a TLS client, and whether ECH was accepted
  pub handshake : TlsConfig Verify → Raw → World → Result Conn × World
  pub ech_accepted : Conn → Bool
  -- `raw.Close()`
  pub close : Raw → World → World
  -- `errors.As` into a `*tls.ECHRejectionError`: its `RetryConfigList`
  pub rejection : Error → Option (List ℕ)
  -- `http2.ConfigureTransport`: its error
  pub configure_http2 : World → Option Error × World

-- `tls.VersionTLS13`
abbrev pub version_tls13 : ℕ
version_tls13 = 772

-- `requireECH`
unfoldable pub require_ech : Bool → Result (Unit {0})
require_ech accepted =
    fail_if (not accepted)
      (errorf "ECH is required but was not accepted by the control endpoint" [])

module _ (N : Net) where
  -- `EndpointResolver`
  pub record Resolver : Type 0 where
    pub lookup_ip : String → N.World → Result (List N.Ip) × N.World
    pub lookup_ech : String → N.World → Result (List ℕ) × N.World

  -- `Hardening`; `verifier` is `Pins.Verifier`, of a mode and a host.
  pub record Hardening : Type 0 where
    pub resolver : Option Resolver
    pub ech : Bool
    pub verifier : Option (String → String → N.Verify)
    pub pin_mode : String

  -- `http.Transport`: the TLS settings, the resolver that the dial function goes through, and the
  -- configuration of the dialer that takes over TLS, if one does.
  pub record Transport : Type 0 where
    pub tls : TlsConfig N.Verify
    pub via : Option Resolver
    pub ech_dialer : Option (List ℕ)

  abbrev pub Dial : Type 0
  Dial = String → Action N.World N.Raw

  -- The check of the endpoint in `NewHardenedClient`: its host.
  unfoldable pub host_of : String → Result String
  host_of endpoint = elim (N.parse_url endpoint) [
    | err e ↦ err (wrapf "bad control endpoint %q: %w" (endpoint ∷ []) e)
    | ok u ↦
        if not (u.scheme == "https") || u.has_user
        then err
            (errorf "bad control endpoint %q: HTTPS without user info is required" (endpoint ∷ []))
        else if to_lower N.lower u.hostname == ""
        then err (errorf "bad control endpoint %q: no host" (endpoint ∷ []))
        else ok (to_lower N.lower u.hostname)
  ]

  -- The check of pins, unless there are none or the mode is off.
  unfoldable pub pin_check : Hardening → String → Option N.Verify
  pin_check h host = elim h.verifier [
    | none ↦ none
    | some verifier ↦ if h.pin_mode == "off" then none else some (verifier h.pin_mode host)
  ]

  unfoldable pub base_config : Hardening → String → TlsConfig N.Verify
  base_config h host = record {
    server_name = host;
    verify_peer_certificate = pin_check h host;
    encrypted_client_hello_config_list = [];
    min_version = 0;
    requires_ech = false;
    next_protos = [];
  }

  -- `configureECH` from the list that the lookup gives.
  unfoldable pub with_ech : String → TlsConfig N.Verify → List ℕ → Result (TlsConfig N.Verify)
  with_ech host tls list =
      if is_empty list
      then err (errorf "ECH is required but %s publishes no ECH config" (host ∷ []))
      else ok (record tls {
        encrypted_client_hello_config_list = list;
        min_version = version_tls13;
        requires_ech = true;
      })

  unfoldable pub lookup_config :
      Option Resolver → String → TlsConfig N.Verify → Action N.World (TlsConfig N.Verify)
  lookup_config none host tls = raise (errorf "ECH is enabled but no DoH resolver is configured" [])
  lookup_config (some resolver) host tls = do
    answer ← attempt (resolver.lookup_ech host)
    list ← lift (context "fetch ECH config for %s: %w" (host ∷ []) answer)
    lift (with_ech host tls list)

  -- `configureECH`
  unfoldable pub configure_ech : Hardening → String → Action N.World (TlsConfig N.Verify)
  configure_ech h host =
      if not h.ech
      then pure (base_config h host)
      else lookup_config h.resolver host (base_config h host)

  -- `useECHDialer` from the answer of the HTTP/2 set-up.
  abbrev pub taken_over : Transport → Option Error → N.World → Result Transport × N.World
  taken_over t (some e) w = (err e, w)
  taken_over t none w = (
    ok (record t {
      tls = record t.tls { next_protos = "h2" ∷ "http/1.1" ∷ [] };
      ech_dialer = some t.tls.encrypted_client_hello_config_list;
    }),
    w,
  )

  -- `useECHDialer`
  unfoldable pub use_ech_dialer : Transport → Action N.World Transport
  use_ech_dialer t w = let (e, v) = N.configure_http2 w in taken_over t e v

  unfoldable pub with_dialer : Transport → Action N.World Transport
  with_dialer t =
      if not (is_empty t.tls.encrypted_client_hello_config_list) then use_ech_dialer t else pure t

  -- `NewHardenedClient`
  unfoldable pub new_hardened_client : String → Hardening → Action N.World Transport
  new_hardened_client endpoint h = do
    host ← lift (host_of endpoint)
    tls ← configure_ech h host
    with_dialer (record { tls = tls; via = h.resolver; ech_dialer = none })

  -- `echDialer.attempt`: on failure, the error and the retry configuration, if there is one.
  unfoldable pub retry_config : Error → Option (List ℕ)
  retry_config e = elim (N.rejection e) [
    | none ↦ none
    | some list ↦ if is_empty list then none else some list
  ]

  pub data Attempt : Type 0 where
    connected : N.Conn → Attempt
    refused : Option (List ℕ) → Error → Attempt

  abbrev pub shaken : N.Raw → Result N.Conn → N.World → Attempt × N.World
  shaken raw (ok conn) w = (connected conn, w)
  shaken raw (err e) w = (refused (retry_config e) e, N.close raw w)

  unfoldable pub shake : TlsConfig N.Verify → List ℕ → Result N.Raw → N.World → Attempt × N.World
  shake tls list (err e) w = (refused none e, w)
  shake tls list (ok raw) w =
      let (r, v) = N.handshake (record tls { encrypted_client_hello_config_list = list }) raw w in
      shaken raw r v

  unfoldable pub try : TlsConfig N.Verify → Dial → String → List ℕ → N.World → Attempt × N.World
  try tls dial addr list w = let (r, v) = dial addr w in shake tls list r v

  -- `echDialer`: the configuration, which changes, beside the world.
  pub record EchDialer : Type 0 where
    pub config : List ℕ
    pub world : N.World

  abbrev pub outcome : Attempt → Result N.Conn
  outcome (connected conn) = ok conn
  outcome (refused retry e) = err e

  -- `dialTLS` after the first attempt.
  unfoldable pub adopt :
      TlsConfig N.Verify → Dial → String → Attempt → EchDialer → Result N.Conn × EchDialer
  adopt tls dial addr (connected conn) d = (ok conn, d)
  adopt tls dial addr (refused none e) d = (err e, d)
  adopt tls dial addr (refused (some list) e) d =
      let (a, w) = try tls dial addr list d.world in
      (outcome a, record { config = list; world = w })

  -- `echDialer.dialTLS`
  unfoldable pub dial_tls : TlsConfig N.Verify → Dial → String → Action EchDialer N.Conn
  dial_tls tls dial addr d =
      let (a, w) = try tls dial addr d.config d.world in
      adopt tls dial addr a (record d { world = w })

  -- The loop of `dialViaResolver` over the addresses, with `lastErr`.
  unfoldable pub dial_each :
      Dial → String → String → List N.Ip → Option Error → Action N.World N.Raw
  dial_each dial host port [] last = raise (elim last [
    | none ↦ errorf "no reachable address for %s: %!w(<nil>)" (host ∷ [])
    | some e ↦ wrapf "no reachable address for %s: %w" (host ∷ []) e
  ])
  dial_each dial host port (ip ∷ ips) last =
      attempt (dial (join_host_port (N.show_ip ip) port)) >>= λ r. elim r [
        | ok conn ↦ pure conn
        | err e ↦ dial_each dial host port ips (some e)
      ]

  unfoldable pub dial_host : Resolver → Dial → String → String × String → Action N.World N.Raw
  dial_host res dial addr p =
      if N.is_ip p.0
      then dial addr
      else (res.lookup_ip p.0 >>= λ ips. dial_each dial p.0 p.1 ips none)

  -- `dialViaResolver`, over the dialer that it makes.
  unfoldable pub dial_via_resolver : Resolver → Dial → Dial
  dial_via_resolver res dial addr = lift (split_host_port addr) >>= dial_host res dial addr
