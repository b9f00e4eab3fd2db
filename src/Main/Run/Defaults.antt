-- ===== src/Main/Run/Defaults.antt =====
-- The control connection as the flags leave it by default.
use tunnet_lite.Base.{String, List, All, Option, some, ◌≡◌}
use tunnet_lite.Control.Transport.Hardened.{IsHardened}
use tunnet_lite.Main.{Settings}
use tunnet_lite.Pinning.{Store, verify}
use tunnet_lite.Resolver.Laws.{IsUpstream}
use tunnet_lite.Main.Machine.{Machine}
use tunnet_lite.Main.Machine.Views.{dns, disk, hardening, resolver_for}
use tunnet_lite.Main.Run.{Opened}
use tunnet_lite.Main.Run.Laws.{ChecksPins}

abbrev mode_by_default : String
mode_by_default = "tofu"

module _ (M : Machine) where
  -- A session with these settings goes through a client that requires ECH, calls back the verifier of
  -- the open store in the mode that keeps pins from the first connection on, and dials through
  -- resolvers that have HTTPS addresses with literal hosts.
  pub record IsGuarded (h : Settings) (endpoint : String) (session : Opened M) : Type 0 where
    pub hardened : IsHardened M.net endpoint (hardening M h) session.transport
    pub checks : ChecksPins M "tofu" h session.transport
    pub pinned :
        (store : Store) × (session.transport.tls.verify_peer_certificate
          ≡ some (
              M.callback store
                (verify (disk M) M.raw_spki M.sha256 "tofu" session.transport.tls.server_name)))
    pub private :
        (urls : List String) × All (IsUpstream (dns M)) urls
        × (session.transport.via ≡ some (resolver_for M urls))
