-- ===== src/Control/Session/Usable.antt =====
-- Every inventory that `Refresh` returns is usable, by whatever path it came.
use tunnet_lite.Base.{
  String, Option, none, some, Error, Result, ok, err, string_eq, ◌≡◌, refl, arith,
}
use tunnet_lite.Inventory.{Inventory}
use tunnet_lite.Inventory.Check.Laws.{IsUsable, validate_iff}
use tunnet_lite.Control.Directory.{parse_inventory-IsUsable}
use tunnet_lite.Control.Exec.{BootstrapResult, Env, State}
use tunnet_lite.Base.Action.Rules.{
  Gives, Gives-lift, Gives-raise, Gives-pure, Gives-attempt, Gives-if, Gives-bind_known, Gives-bind,
  Gives-then,
}
use tunnet_lite.Control.Session.{
  Paths, RefreshOptions, complete, merge_sync, parse_sync, retry_sync, or_retry, try_sync,
  after_complete, redeem, approve, settle, or_bootstrap, after_sync, refresh,
}

module _ (E : Env) (p : Paths) where
  merge_sync-IsUsable :
      (inv : Inventory) (contents : Result String) (out : Inventory)
      → merge_sync E p inv contents ≡ ok out
      → IsUsable out
  unfolding merge_sync
  merge_sync-IsUsable inv contents out h = (validate_iff out).0 (ground arith)

  parse_sync-IsUsable : (payload : String) → Gives IsUsable (parse_sync E p payload)
  unfolding parse_sync
  parse_sync-IsUsable payload =
      Gives-bind _ _ (λ inv. Gives-bind _ _ (λ c. Gives-lift _ (merge_sync-IsUsable inv c)))

  complete-IsUsable : (ticket : String) → Gives IsUsable (complete E p ticket)
  unfolding complete
  complete-IsUsable ticket = Gives-bind _ _ (λ v. Gives-bind _ _ (λ payload.
      Gives-bind_known IsUsable _ _
        (Gives-lift _ (parse_inventory-IsUsable E.decode_directory payload))
        (λ inv u. Gives-then _ _ (Gives-pure inv u))))

  retry_sync-IsUsable : (payload : String) (e : Error) → Gives IsUsable (retry_sync E p payload e)
  unfolding retry_sync
  retry_sync-IsUsable payload e = Gives-bind _ _ (λ v.
      Gives-if _ _ _ (Gives-raise e)
        (Gives-then _ _ (Gives-bind _ _ (λ again. parse_sync-IsUsable again))))

  or_retry-IsUsable :
      (payload : String) (r : Result Inventory)
      → ((a : Inventory) → r ≡ ok a → IsUsable a)
      → Gives IsUsable (or_retry E p payload r)
  unfolding or_retry
  or_retry-IsUsable payload (ok inv) h = Gives-pure inv (h inv refl)
  or_retry-IsUsable payload (err e) h = retry_sync-IsUsable payload e

  try_sync-IsUsable : Gives IsUsable (try_sync E p)
  unfolding try_sync
  try_sync-IsUsable = Gives-bind _ _ (λ payload.
      Gives-bind_known _ _ _ (Gives-attempt _ (parse_sync-IsUsable payload))
        (λ r h. or_retry-IsUsable payload r h))

  abbrev UsableIf : Option Inventory → Type 0
  UsableIf o = (inv : Inventory) → o ≡ some inv → IsUsable inv

  after_complete-UsableIf :
      (r : Result Inventory)
      → ((a : Inventory) → r ≡ ok a → IsUsable a)
      → Gives UsableIf (after_complete E p r)
  unfolding after_complete
  after_complete-UsableIf (ok inv) h =
      Gives-then _ _ (Gives-pure (some inv) (λ i e. h i (ground arith)))
  after_complete-UsableIf (err e) h = Gives-pure none (λ i e. absurd (cc))

  redeem-UsableIf : Gives UsableIf (redeem E p)
  unfolding redeem
  redeem-UsableIf = Gives-bind _ _ (λ ticket.
      Gives-if _ _ _ (Gives-pure none (λ i e. absurd (cc))) (
        Gives-bind_known _ _ _ (Gives-attempt _ (complete-IsUsable ticket))
          (λ r h. after_complete-UsableIf r h)))

  approve-IsUsable : (url : String) (boot : BootstrapResult) → Gives IsUsable (approve E p url boot)
  unfolding approve
  approve-IsUsable url boot = Gives-then _ _ (
      Gives-then _ _ (
        Gives-bind_known IsUsable _ _ (complete-IsUsable boot.ticket)
          (λ inv u. Gives-then _ _ (Gives-pure inv u))))

  module _ (o : RefreshOptions) where
    settle-IsUsable :
        (e : Error) (boot : BootstrapResult) (r : Result Inventory)
        → ((a : Inventory) → r ≡ ok a → IsUsable a)
        → Gives IsUsable (settle E p o e boot r)
    unfolding settle
    settle-IsUsable e boot (ok inv) h =
        Gives-then _ _ (Gives-then _ _ (Gives-pure inv (h inv refl)))
    settle-IsUsable e boot (err x) h =
        Gives-if _ _ _ (Gives-raise _)
          (Gives-then _ _ (Gives-if _ _ _ (Gives-raise _) (approve-IsUsable _ boot)))

    or_bootstrap-IsUsable :
        (e : Error) (r : Option Inventory) → UsableIf r → Gives IsUsable (or_bootstrap E p o e r)
    unfolding or_bootstrap
    or_bootstrap-IsUsable e (some inv) h = Gives-pure inv (h inv refl)
    or_bootstrap-IsUsable e none h = Gives-bind _ _ (λ id. Gives-bind _ _ (λ v.
        Gives-bind _ _ (λ boot.
          settle-IsUsable e boot _ (parse_inventory-IsUsable E.decode_directory boot.raw))))

    after_sync-IsUsable :
        (r : Result Inventory)
        → ((a : Inventory) → r ≡ ok a → IsUsable a)
        → Gives IsUsable (after_sync E p o r)
    unfolding after_sync
    after_sync-IsUsable (ok inv) h = Gives-then _ _ (Gives-pure inv (h inv refl))
    after_sync-IsUsable (err e) h =
        Gives-bind_known UsableIf _ _ redeem-UsableIf (λ r u. or_bootstrap-IsUsable e r u)

    refresh-Gives : Gives IsUsable (refresh E p o)
    unfolding refresh
    refresh-Gives =
        Gives-bind_known _ _ _ (Gives-attempt _ try_sync-IsUsable) (λ r h. after_sync-IsUsable r h)

-- Whatever the control plane and the file system answer, an inventory that `refresh` returns has
-- passed `validate`.
pub refresh-IsUsable :
    (E : Env) (p : Paths) (o : RefreshOptions) (s : State E.World) (inv : Inventory)
    → (refresh E p o s).0 ≡ ok inv
    → IsUsable inv
refresh-IsUsable E p o s inv h = (refresh-Gives E p o).at s inv h
