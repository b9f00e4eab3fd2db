-- ===== src/Control/Open.antt =====
-- `NewIdentity` and `LoadIdentity` of internal/control/identity.go, and `Open` of
-- internal/control/session.go.
pub mod Laws
use tunnet_lite.Base.{
  String, Bool, true, false, [], Result, ok, err, context, is_not_exist, if◌then◌else◌,
}
use tunnet_lite.Base.Action.{Action, pure, raise, lift, attempt, ◌>>=◌, ◌>>◌}
use tunnet_lite.Control.Exec.{Identity, Env, State}
use tunnet_lite.Control.Session.{Paths, save}
use tunnet_lite.Control.Identity.{Keys, mark, format_uuid, parse_identity}

module _ {World : Type 0} (K : Keys World) where
  -- `NewIdentity`
  unfoldable pub new_identity : Action World Identity
  new_identity = do
    raw ← K.random 16
    key ← K.generate_key
    pure (record { client_id = format_uuid (mark raw); signing_key = key; pending_ticket = "" })

module _ (E : Env) where
  -- `defaultVersion`, the version that `NewClient` sets.
  abbrev pub default_version : String
  default_version = "0.2.4"

  -- `Save` of a client that `NewClient` made.
  unfoldable pub save_new : String → Identity → Action E.World (Unit {0})
  save_new path id w =
      let s : State E.World = record { identity = id; app_version = default_version; world = w } in
      let (r, t) = save E path id s in (r, t.world)

  -- `Open` from the new identity on.
  unfoldable pub keep_new : String → Identity → Action E.World (Identity × Bool)
  keep_new path id = do
    saved ← attempt (save_new path id)
    lift (context "persist identity: %w" [] saved)
    pure (id, true)

module _ (E : Env) (K : Keys E.World) where
  -- `LoadIdentity`
  unfoldable pub load_identity : String → Action E.World Identity
  load_identity path = do
    contents ← (λ w. (E.read_file path w, w))
    lift (parse_identity K path contents)

  -- `Open` where no identity is stored.
  unfoldable pub create_identity : String → Action E.World (Identity × Bool)
  create_identity path = new_identity K >>= keep_new E path

  -- `Open` from what `LoadIdentity` gives.
  unfoldable pub opened : String → Result Identity → Action E.World (Identity × Bool)
  opened path (ok id) = pure (id, false)
  opened path (err e) = if is_not_exist e then create_identity path else raise e

  -- `Open`: the identity of the session, and whether it is new.
  unfoldable pub open_session : Paths → Action E.World (Identity × Bool)
  open_session p = do r ← attempt (load_identity p.identity); opened p.identity r
