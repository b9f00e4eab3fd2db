-- ===== src/Control/Transport/Hardened.antt =====
-- What `NewHardenedClient` makes.
use tunnet_lite.Base.{
  is_empty-eq-false, ℕ, String, Bool, true, false, not, List, [], ◌∷◌, Option, none, some, Error,
  ok, string_eq, if◌then◌else◌, ◌≡◌, ◌≢◌,
}
use tunnet_lite.Base.Action.{pure}
use tunnet_lite.Base.Action.Rules.{Gives, Gives-lift, Gives-raise, Gives-bind, Gives-bind_known}
use tunnet_lite.Control.Transport.{
  TlsConfig, Net, version_tls13, Resolver, Hardening, Transport, Dial, host_of, pin_check,
  base_config, with_ech, lookup_config, configure_ech, use_ech_dialer, taken_over, with_dialer,
  new_hardened_client, EchDialer, dial_tls,
}
use tunnet_lite.Control.Transport.Retry.{IsVerified, dial_tls-accepted}

module _ (N : Net) where
  -- TLS settings for a host that insist on ECH, with a configuration to offer, and check the pins.
  pub record IsStrict (h : Hardening N) (host : String) (tls : TlsConfig N.Verify) : Type 0 where
    pub name : tls.server_name ≡ host
    pub checks : tls.verify_peer_certificate ≡ pin_check N h host
    pub offers : tls.encrypted_client_hello_config_list ≢ []
    pub least : tls.min_version ≡ version_tls13
    pub requires : tls.requires_ech ≡ true

  -- A transport for the host of an endpoint, whose dialer begins with the configuration of the settings.
  pub record IsHardened (endpoint : String) (h : Hardening N) (t : Transport N) : Type 0 where
    pub host : String
    pub named : host_of N endpoint ≡ ok host
    pub strict : IsStrict h host t.tls
    pub via : t.via ≡ h.resolver
    pub dialer : t.ech_dialer ≡ some t.tls.encrypted_client_hello_config_list

module _ (N : Net) (h : Hardening N) (host : String) where
  with_ech-IsStrict :
      (list : List ℕ) (made : TlsConfig N.Verify)
      → with_ech N host (base_config N h host) list ≡ ok made
      → IsStrict N h host made
  unfolding with_ech base_config
  with_ech-IsStrict [] made e = cc
  with_ech-IsStrict (x ∷ l) made e = record {
    name = cc;
    checks = cc;
    offers = λ k. cc;
    least = cc;
    requires = cc;
  }

  lookup_config-IsStrict :
      (r : Option (Resolver N))
      → Gives (IsStrict N h host) (lookup_config N r host (base_config N h host))
  unfolding lookup_config
  lookup_config-IsStrict none = Gives-raise _
  lookup_config-IsStrict (some resolver) =
      Gives-bind _ _
        (λ answer. Gives-bind _ _ (λ list. Gives-lift _ (λ made e. with_ech-IsStrict list made e)))

  module _ (endpoint : String) (tls : TlsConfig N.Verify) (e : host_of N endpoint ≡ ok host)
      (k : IsStrict N h host tls) where
    plain : Transport N
    plain = record { tls = tls; via = h.resolver; ech_dialer = none }

    taken_over-IsHardened :
        (x : Option Error) (w : N.World) (t : Transport N)
        → (taken_over N plain x w).0 ≡ ok t
        → IsHardened N endpoint h t
    unfolding plain
    taken_over-IsHardened (some x) w t g = cc
    taken_over-IsHardened none w t g = record {
      host = host;
      named = e;
      strict = record {
        name = cc;
        checks = cc;
        offers = λ q. k.offers cc;
        least = cc;
        requires = cc;
      };
      via = cc;
      dialer = cc;
    }

    use_ech_dialer-IsHardened : Gives (IsHardened N endpoint h) (use_ech_dialer N plain)
    unfolding use_ech_dialer
    use_ech_dialer-IsHardened = record {
      at = λ w t g. let (x, v) = N.configure_http2 w in taken_over-IsHardened x v t g;
    }

    with_dialer-IsHardened : Gives (IsHardened N endpoint h) (with_dialer N plain)
    unfolding with_dialer plain
    with_dialer-IsHardened =
        rw (is_empty-eq-false tls.encrypted_client_hello_config_list k.offers)
          use_ech_dialer-IsHardened

module _ (N : Net) (endpoint : String) (h : Hardening N) (e : h.ech ≡ true) where
  configure_ech-IsStrict : (host : String) → Gives (IsStrict N h host) (configure_ech N h host)
  unfolding configure_ech
  configure_ech-IsStrict host = chosen h.ech e
    where
      chosen :
          (b : Bool)
          → b ≡ true
          → Gives (IsStrict N h host) (
              if not b
              then pure (base_config N h host)
              else lookup_config N h.resolver host (base_config N h host))
      chosen true k = lookup_config-IsStrict N h host h.resolver
      chosen false k = cc

  -- With ECH on, whatever client `NewHardenedClient` makes is for the host of the endpoint, offers a
  -- configuration that is not empty, insists on TLS 1.3 and on ECH, checks the pins unless there are
  -- none or their mode is off, and dials through the resolver.
  pub new_hardened_client-IsHardened :
      (w : N.World) (t : Transport N)
      → (new_hardened_client N endpoint h w).0 ≡ ok t
      → IsHardened N endpoint h t
  unfolding new_hardened_client with_dialer plain
  new_hardened_client-IsHardened w t g = made.at w t g
    where
      made : Gives (IsHardened N endpoint h) (new_hardened_client N endpoint h)
      made =
          Gives-bind_known (λ host. host_of N endpoint ≡ ok host) _ _ (Gives-lift _ (λ host k. k))
            (λ host k.
              Gives-bind_known (IsStrict N h host) _ _ (configure_ech-IsStrict host)
                (λ tls q. with_dialer-IsHardened N h host endpoint tls k q))

  -- With ECH on, every connection that the dialer of such a client returns, after a retry as well, has
  -- had ECH accepted, if the handshake heeds `VerifyConnection`.
  pub dial_tls-new_hardened_client :
      (v : IsVerified N) (w : N.World) (t : Transport N) (dial : Dial N) (addr : String)
      (d : EchDialer N) (conn : N.Conn)
      → (new_hardened_client N endpoint h w).0 ≡ ok t
      → (dial_tls N t.tls dial addr d).0 ≡ ok conn
      → N.ech_accepted conn ≡ true
  dial_tls-new_hardened_client v w t dial addr d conn g =
      let i = new_hardened_client-IsHardened w t g in
      dial_tls-accepted N v t.tls i.strict.requires dial addr d conn
