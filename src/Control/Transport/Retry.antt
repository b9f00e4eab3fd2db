-- ===== src/Control/Transport/Retry.antt =====
-- The dialer that retries with the configuration of a rejection.
use tunnet_lite.Base.{
  ℕ, String, Bool, true, false, List, [], ◌∷◌, Option, none, some, is_empty, Result, ok, err,
  string_eq, if◌then◌else◌, ◌≡◌, refl, ◌≢◌,
}
use tunnet_lite.Control.Transport.{
  TlsConfig, Net, require_ech, Dial, retry_config, Attempt, connected, refused, shaken, shake, try,
  EchDialer, outcome, adopt, dial_tls,
}

module _ (N : Net) where
  -- `HandshakeContext` calls `VerifyConnection`, and fails if that gives an error.
  pub record IsVerified : Type 0 where
    pub at :
        (c : TlsConfig N.Verify) (raw : N.Raw) (w : N.World) (conn : N.Conn)
        → (N.handshake c raw w).0 ≡ ok conn
        → c.requires_ech ≡ true
        → require_ech (N.ech_accepted conn) ≡ ok tt

  require_ech-eq-ok : (b : Bool) → require_ech b ≡ ok tt → b ≡ true
  unfolding require_ech
  require_ech-eq-ok true h = refl
  require_ech-eq-ok false h = cc

  module _ (v : IsVerified) (tls : TlsConfig N.Verify) (e : tls.requires_ech ≡ true) where
    shaken-accepted :
        (list : List ℕ) (raw : N.Raw) (w u : N.World) (r : Result N.Conn) (conn : N.Conn)
        → (N.handshake (record tls { encrypted_client_hello_config_list = list }) raw w).0 ≡ r
        → (shaken N raw r u).0 ≡ connected conn
        → N.ech_accepted conn ≡ true
    shaken-accepted list raw w u (ok c) conn k h =
        require_ech-eq-ok (N.ech_accepted conn)
          (v.at (record tls { encrypted_client_hello_config_list = list }) raw w conn (cc) e)
    shaken-accepted list raw w u (err x) conn k h = cc

    shake-accepted :
        (list : List ℕ) (r : Result N.Raw) (w : N.World) (conn : N.Conn)
        → (shake N tls list r w).0 ≡ connected conn
        → N.ech_accepted conn ≡ true
    unfolding shake
    shake-accepted list (err x) w conn h = cc
    shake-accepted list (ok raw) w conn h =
        let (r, u) = N.handshake (record tls { encrypted_client_hello_config_list = list }) raw w in
        shaken-accepted list raw w u r conn refl h

    try-accepted :
        (dial : Dial N) (addr : String) (list : List ℕ) (w : N.World) (conn : N.Conn)
        → (try N tls dial addr list w).0 ≡ connected conn
        → N.ech_accepted conn ≡ true
    unfolding try
    try-accepted dial addr list w conn h =
        shake-accepted list (dial addr w).0 (dial addr w).1 conn h

    adopt-accepted :
        (dial : Dial N) (addr : String) (a : Attempt N) (d : EchDialer N) (conn : N.Conn)
        → ((c : N.Conn) → a ≡ connected c → N.ech_accepted c ≡ true)
        → (adopt N tls dial addr a d).0 ≡ ok conn
        → N.ech_accepted conn ≡ true
    unfolding adopt
    adopt-accepted dial addr (connected c) d conn k h = k conn cc
    adopt-accepted dial addr (refused none x) d conn k h = absurd (cc)
    adopt-accepted dial addr (refused (some list) x) d conn k h =
        let (a, w) = try N tls dial addr list d.world in again a refl h
      where
        again :
            (a : Attempt N)
            → (try N tls dial addr list d.world).0 ≡ a
            → outcome N a ≡ ok conn
            → N.ech_accepted conn ≡ true
        again (connected c) h g = try-accepted dial addr list d.world conn cc
        again (refused retry y) h g = cc

    pub dial_tls-accepted :
        (dial : Dial N) (addr : String) (d : EchDialer N) (conn : N.Conn)
        → (dial_tls N tls dial addr d).0 ≡ ok conn
        → N.ech_accepted conn ≡ true
    unfolding dial_tls
    dial_tls-accepted dial addr d conn h =
        let (a, w) = try N tls dial addr d.config d.world in
        adopt-accepted dial addr a (record d { world = w }) conn
          (λ c k. try-accepted dial addr d.config d.world c k) h

module _ (N : Net) (tls : TlsConfig N.Verify) (dial : Dial N) (addr : String) where
  -- An attempt that is refused gives no retry configuration that is empty.
  abbrev IsOffer : Attempt N → Type 0
  IsOffer (connected conn) = Unit
  IsOffer (refused none x) = Unit
  IsOffer (refused (some list) x) = list ≢ []

  shaken-IsOffer : (raw : N.Raw) (r : Result N.Conn) (w : N.World) → IsOffer (shaken N raw r w).0
  unfolding retry_config
  shaken-IsOffer raw (ok conn) w = tt
  shaken-IsOffer raw (err x) w = offered (N.rejection x)
    where
      offered :
          (r : Option (List ℕ))
          → IsOffer
              (refused (elim r [ none ↦ none | some l ↦ if is_empty l then none else some l ]) x)
      offered none = tt
      offered (some []) = tt
      offered (some (b ∷ l)) = λ k. cc

  shake-IsOffer :
      (list : List ℕ) (r : Result N.Raw) (w : N.World) → IsOffer (shake N tls list r w).0
  unfolding shake
  shake-IsOffer list (err x) w = tt
  shake-IsOffer list (ok raw) w =
      let (r, u) = N.handshake (record tls { encrypted_client_hello_config_list = list }) raw w in
      shaken-IsOffer raw r u

  adopt-offers :
      (a : Attempt N) (d : EchDialer N)
      → IsOffer a
      → d.config ≢ []
      → (adopt N tls dial addr a d).1.config ≢ []
  unfolding adopt
  adopt-offers (connected conn) d o n = n
  adopt-offers (refused none x) d o n = n
  adopt-offers (refused (some list) x) d o n = o

  -- A dialer that has a configuration to offer has one after every dial, whether it succeeds or fails.
  pub dial_tls-offers :
      (d : EchDialer N) → d.config ≢ [] → (dial_tls N tls dial addr d).1.config ≢ []
  unfolding dial_tls try
  dial_tls-offers d n =
      let (r, w) = dial addr d.world in
      let (a, v) = shake N tls d.config r w in
      adopt-offers a (record d { world = v }) (shake-IsOffer d.config r w) n
