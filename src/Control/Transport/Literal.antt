-- ===== src/Control/Transport/Literal.antt =====
-- The dial function that goes through a resolver.
use tunnet_lite.Base.{
  String, true, List, [], ◌∷◌, Option, none, some, Error, Result, ok, err, string_eq, Bool-cases,
  ◌≡◌, refl, inl, inr,
}
use tunnet_lite.Base.Action.{Action, pure, lift, attempt, continue, ◌>>=◌}
use tunnet_lite.Base.Address.{split_host_port, join_host_port}
use tunnet_lite.Control.Transport.{Net, Resolver, Dial, dial_each, dial_host, dial_via_resolver}

-- What the code dials: a literal address, or one that is made of an address of the resolver.
pub data IsLiteral (N : Net) : String → Type 0 where
  given :
      (addr host port : String)
      → split_host_port addr ≡ ok (host, port)
      → N.is_ip host ≡ true
      → IsLiteral N addr
  resolved : (ip : N.Ip) (port : String) → IsLiteral N (join_host_port (N.show_ip ip) port)

module _ (N : Net) (res : Resolver N) (f g : Dial N)
    (same : (a : String) (w : N.World) → IsLiteral N a → f a w ≡ g a w) where
  dial_each-same :
      (host port : String) (ips : List N.Ip) (last : Option Error) (w : N.World)
      → dial_each N f host port ips last w ≡ dial_each N g host port ips last w
  unfolding dial_each ◌>>=◌ attempt
  dial_each-same host port [] last w = refl
  dial_each-same host port (ip ∷ ips) last w =
      let a = join_host_port (N.show_ip ip) port in
      rw (same a w (resolved ip port))
        (after (g a w).0 (g a w).1 (λ e u. dial_each-same host port ips (some e) u))
    where
      after :
          (r : Result N.Raw) (u : N.World)
          → ((e : Error) (v : N.World)
              → dial_each N f host port ips (some e) v ≡ dial_each N g host port ips (some e) v)
          → (elim r as (λ _. Action N.World N.Raw) [
            | ok conn ↦ pure conn
            | err e ↦ dial_each N f host port ips (some e)
          ])
              u
            ≡ (elim r as (λ _. Action N.World N.Raw) [
              | ok conn ↦ pure conn
              | err e ↦ dial_each N g host port ips (some e)
            ])
                u
      after (ok conn) u h = refl
      after (err e) u h = h e u

  dial_host-same :
      (addr : String) (p : String × String) (w : N.World)
      → split_host_port addr ≡ ok p
      → dial_host N res f addr p w ≡ dial_host N res g addr p w
  unfolding dial_host ◌>>=◌
  dial_host-same addr (host, port) w k = elim (Bool-cases (N.is_ip host)) [
    | inl e ↦ rw e (same addr w (given addr host port k e))
    | inr e ↦ rw e (after (res.lookup_ip host w).0 (res.lookup_ip host w).1)
  ]
    where
      after :
          (r : Result (List N.Ip)) (u : N.World)
          → continue (λ ips. dial_each N f host port ips none) r u
            ≡ continue (λ ips. dial_each N g host port ips none) r u
      after (ok ips) u = dial_each-same host port ips none u
      after (err e) u = refl

  -- The dial function that goes through a resolver hands the network nothing but literal addresses: two
  -- networks that agree on those addresses give it the same results, so that no name is left to the
  -- system's resolver.
  pub dial_via_resolver-same :
      (addr : String) (w : N.World)
      → dial_via_resolver N res f addr w ≡ dial_via_resolver N res g addr w
  unfolding dial_via_resolver ◌>>=◌ lift
  dial_via_resolver-same addr w = after (split_host_port addr) refl
    where
      after :
          (r : Result (String × String))
          → split_host_port addr ≡ r
          → continue (dial_host N res f addr) r w ≡ continue (dial_host N res g addr) r w
      after (ok p) k = dial_host-same addr p w k
      after (err e) k = refl
