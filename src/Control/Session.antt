-- ===== src/Control/Session.antt =====
-- internal/control/session.go. Where Go returns a value together with an error, the model returns
-- the error alone: the callers read no value beside an error.
pub mod Usable
pub mod Evolves
pub mod Persisted
pub mod Ticket
use tunnet_lite.Base.{
  String, ◌<>◌, Bool, true, false, not, ◌||◌, List, [], ◌∷◌, Option, none, some, Error, errorf,
  wrapf, needs_authorization, Result, ok, err, context, ◌==◌, string_eq, if◌then◌else◌,
}
use tunnet_lite.Base
use tunnet_lite.Base.Int
use tunnet_lite.Base.Int.{pos}
use tunnet_lite.Base.Base64.{encode}
use tunnet_lite.Inventory.{Inventory}
use tunnet_lite.Inventory.Key.{raw_url}
use tunnet_lite.Inventory.Check.{validate, fill_missing_from, load}
use tunnet_lite.Control.Version.{version_less}
use tunnet_lite.Control.Authorize.{verification_url}
use tunnet_lite.Control.Directory.{parse_directory, parse_inventory}
use tunnet_lite.Base.Action.{pure, raise, lift, gets, attempt, ◌>>=◌, ◌>>◌}
use tunnet_lite.Control.Exec.{
  Identity, IdentityFile, BootstrapResult, Env, State, Exec, call, call_unit,
}

-- The paths of a `Session`.
pub record Paths : Type 0 where
  pub identity : String
  pub inventory : String

-- `RefreshOptions`
pub record RefreshOptions : Type 0 where
  pub auto_approve : Bool
  pub verification_url : String

module _ (E : Env) where
  -- `Identity.Save`
  unfoldable pub save : String → Identity → Exec E.World (Unit {0})
  save path id = do
    call_unit (E.make_parent path)
    call_unit (
        E.write_file path (
          E.encode_identity (record {
            client_id = id.client_id;
            signing_key = encode raw_url id.signing_key;
            pending_ticket = id.pending_ticket;
          })
          <> "\n"))

  unfoldable pub set_ticket : String → Exec E.World (Unit {0})
  set_ticket ticket s =
      (ok tt, record s { identity = record (s.identity) { pending_ticket = ticket } })

  -- `Session.persist`
  unfoldable pub persist : Paths → Inventory → Exec E.World (Unit {0})
  persist p inv = if p.inventory == "" then pure tt else do
    call_unit (E.make_parent p.inventory)
    call_unit (E.write_file p.inventory (E.encode_inventory inv <> "\n"))

  -- `Session.rememberTicket`: an identity that cannot be saved is only logged.
  unfoldable pub remember_ticket : Paths → String → Exec E.World (Unit {0})
  remember_ticket p ticket = do
    set_ticket ticket
    id ← gets (λ s. s.identity)
    saved ← attempt (save p.identity id)
    pure tt

  -- `Session.clearTicket`
  unfoldable pub clear_ticket : Paths → Exec E.World (Unit {0})
  clear_ticket p = do
    ticket ← gets (λ s. s.identity.pending_ticket)
    if ticket == "" then pure tt else do
      set_ticket ""
      id ← gets (λ s. s.identity)
      saved ← attempt (save p.identity id)
      pure tt

  -- `Session.Complete`
  unfoldable pub complete : Paths → String → Exec E.World Inventory
  complete p ticket = do
    version ← gets (λ s. s.app_version)
    payload ← call (E.access ticket version)
    inv ← lift (parse_inventory E.decode_directory payload)
    persist p inv
    pure inv

  -- The merge and the check of `Session.parseSync`, from what the inventory file holds.
  unfoldable pub merge_sync : Paths → Inventory → Result String → Result Inventory
  merge_sync p inv contents =
      let merged : Inventory = elim (load contents E.decode_inventory p.inventory) [
        | ok prev ↦ fill_missing_from inv (some prev)
        | err e ↦ inv
      ] in
      elim (validate merged) [
        | ok u ↦ ok merged
        | err e ↦ err (wrapf "sync directory is not usable: %w" [] e)
      ]

  -- `Session.parseSync`
  unfoldable pub parse_sync : Paths → String → Exec E.World Inventory
  parse_sync p payload = do
    inv ← lift (parse_directory E.decode_directory payload)
    contents ← gets (λ s. E.read_file p.inventory s.world)
    lift (merge_sync p inv contents)

  -- `MinimumVersion`: a payload without a readable release block has no floor.
  unfoldable pub minimum_version : String → String
  minimum_version payload = elim (E.decode_release payload) [ ok v ↦ v | err e ↦ "" ]

  -- The call of `Client.Sync`.
  unfoldable pub call_sync : Exec E.World String
  call_sync = do
    id ← gets (λ s. s.identity)
    version ← gets (λ s. s.app_version)
    call (E.sync id.client_id version)

  unfoldable pub set_version : String → Exec E.World (Unit {0})
  set_version floor s = (ok tt, record s { app_version = floor })

  -- What `Session.trySync` does about a payload that gave an error: it adopts a higher floor and asks
  -- once more.
  unfoldable pub retry_sync : Paths → String → Error → Exec E.World Inventory
  retry_sync p payload e = do
    version ← gets (λ s. s.app_version)
    let floor = minimum_version payload
    if floor == "" || not (version_less version floor)
        then raise e
        else do set_version floor; again ← call_sync; parse_sync p again

  unfoldable pub or_retry : Paths → String → Result Inventory → Exec E.World Inventory
  or_retry p payload (ok inv) = pure inv
  or_retry p payload (err e) = retry_sync p payload e

  -- `Session.trySync`
  unfoldable pub try_sync : Paths → Exec E.World Inventory
  try_sync p = do
    payload ← call_sync
    parsed ← attempt (parse_sync p payload)
    or_retry p payload parsed

  unfoldable pub after_complete : Paths → Result Inventory → Exec E.World (Option Inventory)
  after_complete p (ok inv) = do clear_ticket p; pure (some inv)
  after_complete p (err e) = pure none

  -- The attempt of `Refresh` to redeem a ticket that was approved between runs.
  unfoldable pub redeem : Paths → Exec E.World (Option Inventory)
  redeem p = do
    ticket ← gets (λ s. s.identity.pending_ticket)
    if ticket == "" then pure none else do done ← attempt (complete p ticket); after_complete p done

  -- The approval of a new ticket, and its redemption.
  unfoldable pub approve : Paths → String → BootstrapResult → Exec E.World Inventory
  approve p url boot = do
    call_unit (E.authorize url boot.ticket)
    if Int.ltb (pos 0) boot.retry_after then call_unit (E.wait boot.retry_after) else pure tt
    inv ← complete p boot.ticket
    clear_ticket p
    pure inv

  -- `Refresh` from the answer to the bootstrap call on, by whether the answer is a directory.
  unfoldable pub settle :
      Paths → RefreshOptions → Error → BootstrapResult → Result Inventory → Exec E.World Inventory
  settle p o sync_err boot (ok inv) = do clear_ticket p; persist p inv; pure inv
  settle p o sync_err boot (err parse_err) =
      if boot.ticket == ""
      then raise (
          wrapf "no directory available (bootstrap state %q); sync failed: %w" (boot.state ∷ [])
            sync_err)
      else do
        remember_ticket p boot.ticket
        let url =
            if o.verification_url == ""
            then verification_url E.parse_url boot.raw
            else o.verification_url
        if not o.auto_approve
            then raise (needs_authorization boot.ticket url)
            else approve p url boot

  -- `Refresh` after a sync that failed, and by whether a ticket was redeemed.
  unfoldable pub or_bootstrap :
      Paths → RefreshOptions → Error → Option Inventory → Exec E.World Inventory
  or_bootstrap p o sync_err (some inv) = pure inv
  or_bootstrap p o sync_err none = do
    id ← gets (λ s. s.identity)
    version ← gets (λ s. s.app_version)
    boot ← call (E.bootstrap id.client_id version)
    settle p o sync_err boot (parse_inventory E.decode_directory boot.raw)

  unfoldable pub after_sync : Paths → RefreshOptions → Result Inventory → Exec E.World Inventory
  after_sync p o (ok inv) = do persist p inv; pure inv
  after_sync p o (err sync_err) = do redeemed ← redeem p; or_bootstrap p o sync_err redeemed

  -- `Session.Refresh`
  unfoldable pub refresh : Paths → RefreshOptions → Exec E.World Inventory
  refresh p o = do synced ← attempt (try_sync p); after_sync p o synced
