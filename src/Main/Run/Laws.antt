-- ===== src/Main/Run/Laws.antt =====
-- What a session is that the program opens, and what its refresh leaves on disk.
use tunnet_lite.Base.{
  String, ◌<>◌, Bool, true, false, Option, none, some, Error, Result, ok, err, is_not_exist,
  string_eq, if◌then◌else◌, ◌≡◌, ◌≢◌, refl, sym, ap, ◌∙◌,
}
use tunnet_lite.Base.Action.{pure, raise, attempt, ◌>>=◌}
use tunnet_lite.Base.Action.Rules.{Gives, Gives-bind, Gives-then, Gives-pure, bind_inv}
use tunnet_lite.Inventory.{Inventory}
use tunnet_lite.Inventory.Check.{load}
use tunnet_lite.Control.Session.Persisted.{IsLasting, refresh-load}
use tunnet_lite.Control.Exec.{Identity}
use tunnet_lite.Control.Open.{open_session, opened, load_identity, create_identity, keep_new}
use tunnet_lite.Control.Transport.{Transport, new_hardened_client}
use tunnet_lite.Main.{Settings}
use tunnet_lite.Pinning.{Store, verify}
use tunnet_lite.Pinning.Laws.{IsPins}
use tunnet_lite.Main.Machine.{Machine}
use tunnet_lite.Main.Machine.Views.{disk, keys, hardening}
use tunnet_lite.Main.Run.{
  SessionPaths, RefreshConfig, Opened, paths_of, local_env, open_hardened, not_fresh, open_found,
  open_existing, env_of, state_of, refresh_inventory,
}

module _ (M : Machine) where
  -- Where the mode of the pins is not off, each handshake calls back the verifier of the open store,
  -- whose pins are well-formed, with this mode and the server's name; where it is off, nothing.
  pub record ChecksPins (mode : String) (h : Settings) (t : Transport M.net) : Type 0 where
    pub checked :
        mode ≢ "off"
        → (store : Store) × (h.store ≡ some store)
          × IsPins store.pins
          × (t.tls.verify_peer_certificate
              ≡ some
                  (M.callback store (verify (disk M) M.raw_spki M.sha256 mode t.tls.server_name)))
    pub unchecked : mode ≡ "off" → t.tls.verify_peer_certificate ≡ none

  create_identity-fresh :
      (path : String) → Gives (λ q. q.1 ≡ true) (create_identity (local_env M) (keys M) path)
  unfolding create_identity keep_new
  create_identity-fresh path =
      Gives-bind _ _ (λ id. Gives-bind _ _ (λ saved. Gives-then _ _ (Gives-pure _ refl)))

  opened-old :
      (path : String) (r : Result Identity) (id : Identity) (w : M.net.World)
      → (opened (local_env M) (keys M) path r w).0 ≡ ok (id, false)
      → r ≡ ok id
  unfolding opened pure raise
  opened-old path (ok i) id w h = cc
  opened-old path (err e) id w h = absurd (chosen (is_not_exist e) h)
    where
      chosen :
          (b : Bool)
          → ((if b then create_identity (local_env M) (keys M) path else raise e) w).0
            ≡ ok (id, false)
          → ⊥
      chosen true k = let f : false ≡ true = (create_identity-fresh path).at w (id, false) k in cc
      chosen false k = unfold raise in cc

  open_session-old :
      (p : SessionPaths) (id : Identity) (w : M.net.World)
      → (open_session (local_env M) (keys M) (paths_of p) w).0 ≡ ok (id, false)
      → (load_identity (local_env M) (keys M) p.identity w).0 ≡ ok id
  unfolding open_session attempt ◌>>=◌
  open_session-old p id w h =
      let (r, v) = load_identity (local_env M) (keys M) p.identity w in
      opened-old p.identity r id v h

  open_hardened-old :
      (p : SessionPaths) (h : Settings) (session : Opened M) (w : M.net.World)
      → (open_hardened M p h w).0 ≡ ok (session, false)
      → (load_identity (local_env M) (keys M) p.identity w).0 ≡ ok session.identity
  unfolding open_hardened
  open_hardened-old p h session w g =
      let (q, e, k) = bind_inv (open_session (local_env M) (keys M) (paths_of p)) _ w _ g in
      let (i, f) =
        (pointed q).at (open_session (local_env M) (keys M) (paths_of p) w).1 (session, false)
          (ap (λ x. x.0) (sym k) ∙ g) in
      open_session-old p session.identity w
        (e ∙ sym (ap (λ x. ok (x, q.1)) i) ∙ sym (ap (λ x. ok (session.identity, x)) f))
    where
      pointed :
          (q : Identity × Bool)
          → Gives {A = Opened M × Bool}
              (λ r. (r.0.identity ≡ q.0) × (r.1 ≡ q.1))
              (new_hardened_client M.net p.control_url (hardening M h) >>= λ client.
                pure
                  ((record { endpoint = p.control_url; transport = client; identity = q.0 }), q.1))
      pointed q = Gives-bind _ _ (λ client. Gives-pure _ (refl, refl))

  not_fresh-old :
      (q : Opened M × Bool) (session : Opened M) (w : M.net.World)
      → (not_fresh M q w).0 ≡ ok (some session)
      → q ≡ (session, false)
  unfolding not_fresh pure raise
  not_fresh-old (s, true) session w h = cc
  not_fresh-old (s, false) session w h = cc

  open_found-load :
      (p : SessionPaths) (h : Settings) (x : Option Error) (w : M.net.World) (session : Opened M)
      → (open_found M p h x w).0 ≡ ok (some session)
      → (load_identity (local_env M) (keys M) p.identity w).0 ≡ ok session.identity
  unfolding open_found
  open_found-load p h none w session g =
      let (q, e, k) = bind_inv (open_hardened M p h) (not_fresh M) w (some session) g in
      let n = not_fresh-old q session _ (ap (λ x. x.0) (sym k) ∙ g) in
      open_hardened-old p h session w (e ∙ ap ok n)
  open_found-load p h (some x) w session g = absurd (chosen (is_not_exist x) g)
    where
      chosen : (b : Bool) → ((if b then pure none else raise x) w).0 ≡ ok (some session) → ⊥
      chosen true k = unfold pure in cc
      chosen false k = unfold raise in cc

  -- A session that is opened for a run has the identity that the file held before: one that was made
  -- anew is not taken.
  pub open_existing-load :
      (p : SessionPaths) (h : Settings) (w : M.net.World) (session : Opened M)
      → (open_existing M p h w).0 ≡ ok (some session)
      → (load_identity (local_env M) (keys M) p.identity w).0 ≡ ok session.identity
  unfolding open_existing
  open_existing-load p h w session g = open_found-load p h (M.stat p.identity w) w session g

  -- The machine's files keep what is written to them, for whatever session.
  IsLasting-env_of :
      (v : IsLasting (local_env M)) (session : Opened M) → IsLasting (env_of M session)
  IsLasting-env_of v session = record { reads = v.reads; apart = v.apart; parents = v.parents }

  -- After a refresh from the command line that returns, `inventory.Load` gives the inventory that it
  -- returned, from the file of the nodes; if the files keep what they are given, if the inventory
  -- decodes from its JSON, and if it has a path, which is not that of the identity.
  pub refresh_inventory-load :
      (v : IsLasting (local_env M)) (c : RefreshConfig) (named : c.paths.nodes ≢ "")
      (apart : c.paths.identity ≢ c.paths.nodes) (w : M.net.World) (inv : Inventory)
      → M.decode_inventory (M.encode_inventory inv <> "\n") ≡ ok inv
      → (refresh_inventory M c w).0 ≡ ok inv
      → load
          (M.read_file c.paths.nodes (refresh_inventory M c w).1)
          M.decode_inventory
          c.paths.nodes
        ≡ ok inv
  unfolding refresh_inventory
  refresh_inventory-load v c named apart w inv d g =
      let (q, e, k) = bind_inv (open_hardened M c.paths c.hardening) _ w inv g in
      let session = q.0 in
      let s = state_of M session (open_hardened M c.paths c.hardening w).1 in
      rw k (
        refresh-load (env_of M session) (IsLasting-env_of v session) (paths_of c.paths) apart named
          _ s inv d (ap (λ x. x.0) (sym k) ∙ g))
