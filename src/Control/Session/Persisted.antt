-- ===== src/Control/Session/Persisted.antt =====
-- What `Refresh` leaves in the inventory file: what it returns, to be loaded again.
use tunnet_lite.Base.{
  String, ◌<>◌, Option, none, some, Error, Result, ok, err, ◌==◌, string_eq, ◌≡◌, ◌≢◌, refl, ◌∙◌,
  arith,
}
use mathlib.Core.Path.{subst}
use mathlib.Core.Option.{some-injective}
use tunnet_lite.Inventory.{Inventory}
use tunnet_lite.Inventory.Check.{load}
use tunnet_lite.Inventory.Check.Laws.{load_iff}
use tunnet_lite.Base.Action.{or_error, pure, ◌>>◌}
use tunnet_lite.Base.Action.Rules.{Keeps, IsPreorder, keeps_rules}
use tunnet_lite.Base.Action.Leads.{
  Leads, Leads-pure, Leads-raise, Leads-if, Leads-unless, Leads-bind, Leads-then, Leads-after,
  Leads-next, Leads-attempt, Anything,
}
use tunnet_lite.Control.Exec.{Identity, BootstrapResult, Env, State, call_unit}
use tunnet_lite.Control.Session.{
  Paths, RefreshOptions, set_ticket, save, persist, complete, after_complete, redeem, approve,
  settle, or_bootstrap, after_sync, refresh, clear_ticket,
}
use tunnet_lite.Control.Session.Usable.{refresh-IsUsable}

-- A file that was written without an error is read back, and neither a write to another path nor a
-- new directory changes it.
pub record IsLasting (E : Env) : Type 0 where
  pub reads :
      (path text : String) (w : E.World)
      → (E.write_file path text w).0 ≡ none
      → E.read_file path (E.write_file path text w).1 ≡ ok text
  pub apart :
      (path text other : String) (w : E.World)
      → path ≢ other
      → E.read_file other (E.write_file path text w).1 ≡ E.read_file other w
  pub parents :
      (path other : String) (w : E.World)
      → E.read_file other (E.make_parent path w).1 ≡ E.read_file other w

module _ (E : Env) (v : IsLasting E) (p : Paths) (apart : p.identity ≢ p.inventory) where
  abbrev Stored : Inventory → State E.World → Type 0
  Stored inv s = E.read_file p.inventory s.world ≡ ok (E.encode_inventory inv <> "\n")

  -- What the inventory file holds stays.
  abbrev Lasts : State E.World → State E.World → Type 0
  Lasts s t = (inv : Inventory) → Stored inv s → Stored inv t

  Lasts-IsPreorder : IsPreorder Lasts
  Lasts-IsPreorder = record { same = λ s inv h. h; chain = λ s t u h k inv e. k inv (h inv e) }

  make_parent-Lasts : (path : String) → Keeps Lasts (call_unit (E.make_parent path))
  unfolding call_unit
  make_parent-Lasts path = record { at = λ s inv h. v.parents path p.inventory s.world ∙ h }

  write-Lasts : (text : String) → Keeps Lasts (call_unit (E.write_file p.identity text))
  unfolding call_unit
  write-Lasts text = record {
    at = λ s inv h. v.apart p.identity text p.inventory s.world apart ∙ h;
  }

  set_ticket-Lasts : (ticket : String) → Keeps Lasts (set_ticket E ticket)
  unfolding set_ticket
  set_ticket-Lasts ticket = record { at = λ s inv h. h }

  ruleset lasts_rules =
      (keeps_rules, Lasts-IsPreorder, make_parent-Lasts, write-Lasts, set_ticket-Lasts)

  save-Lasts : (id : Identity) → Keeps Lasts (save E p.identity id)
  unfolding save
  save-Lasts id = search lasts_rules

  clear_ticket-Lasts : Keeps Lasts (clear_ticket E p)
  unfolding clear_ticket
  clear_ticket-Lasts = search (lasts_rules, save-Lasts) depth 10

  clear_ticket-Leads : (inv : Inventory) → Leads (Stored inv) (clear_ticket E p) (λ u. Stored inv)
  clear_ticket-Leads inv = record { at = λ s a h e. clear_ticket-Lasts.at s inv h }

  module _ (named : p.inventory ≢ "") where
    write-Stored :
        (inv : Inventory)
        → Leads Anything
            (call_unit (E.write_file p.inventory (E.encode_inventory inv <> "\n")))
            (λ u. Stored inv)
    unfolding call_unit
    write-Stored inv = record { at = λ s a h e. v.reads p.inventory _ s.world (no_error _ a e) }
      where
        no_error : (o : Option Error) (a : Unit {0}) → or_error o ≡ ok a → o ≡ none
        no_error none a e = refl
        no_error (some x) a e = cc

    persist-Stored : (inv : Inventory) → Leads Anything (persist E p inv) (λ u. Stored inv)
    unfolding persist
    persist-Stored inv =
        Leads-unless (p.inventory == "") _ _ (ground arith) (Leads-next _ _ (write-Stored inv))

    -- The end of each path to an inventory.
    persist-pure : (inv : Inventory) → Leads Anything (persist E p inv >> pure inv) Stored
    persist-pure inv = Leads-then (Stored inv) _ _ (persist-Stored inv) (Leads-pure inv (λ s h. h))

    complete-Stored : (ticket : String) → Leads Anything (complete E p ticket) Stored
    unfolding complete
    complete-Stored ticket =
        Leads-after _ _
          (λ version. Leads-after _ _ (λ payload. Leads-after _ _ (λ inv. persist-pure inv)))

    abbrev StoredIf : Option Inventory → State E.World → Type 0
    StoredIf o s = (inv : Inventory) → o ≡ some inv → Stored inv s

    after_complete-StoredIf :
        (r : Result Inventory)
        → Leads (λ s. (a : Inventory) → r ≡ ok a → Stored a s) (after_complete E p r) StoredIf
    unfolding after_complete
    after_complete-StoredIf (ok inv) =
        Leads-then (Stored inv) _ _
          (record { at = λ s a h e. clear_ticket-Lasts.at s inv (h inv refl) })
          (Leads-pure (some inv) (λ s h i k. subst (λ x. Stored x s) (some-injective inv i k) h))
    after_complete-StoredIf (err e) = Leads-pure none (λ s h i k. cc)

    redeem-StoredIf : Leads Anything (redeem E p) StoredIf
    unfolding redeem
    redeem-StoredIf = Leads-after _ _ (λ ticket.
        Leads-if _ _ _ (Leads-pure none (λ s h i k. cc))
          (Leads-bind _ _ _ (Leads-attempt _ (complete-Stored ticket)) after_complete-StoredIf))

    approve-Stored :
        (url : String) (boot : BootstrapResult) → Leads Anything (approve E p url boot) Stored
    unfolding approve
    approve-Stored url boot = Leads-next _ _ (
        Leads-next _ _ (
          Leads-bind Stored _ _ (complete-Stored boot.ticket) (λ inv.
            Leads-then (Stored inv) _ _ (clear_ticket-Leads inv) (Leads-pure inv (λ s h. h)))))

    settle-Stored :
        (o : RefreshOptions) (e : Error) (boot : BootstrapResult) (r : Result Inventory)
        → Leads Anything (settle E p o e boot r) Stored
    unfolding settle
    settle-Stored o e boot (ok inv) = Leads-next _ _ (persist-pure inv)
    settle-Stored o e boot (err x) =
        Leads-if _ _ _ (Leads-raise _)
          (Leads-next _ _ (Leads-if _ _ _ (Leads-raise _) (approve-Stored _ boot)))

    or_bootstrap-Stored :
        (o : RefreshOptions) (e : Error) (r : Option Inventory)
        → Leads (StoredIf r) (or_bootstrap E p o e r) Stored
    unfolding or_bootstrap
    or_bootstrap-Stored o e (some inv) = Leads-pure inv (λ s h. h inv refl)
    or_bootstrap-Stored o e none =
        Leads-after _ _
          (λ id. Leads-after _ _ (λ version. Leads-after _ _ (λ boot. settle-Stored o e boot _)))

    after_sync-Stored :
        (o : RefreshOptions) (r : Result Inventory) → Leads Anything (after_sync E p o r) Stored
    unfolding after_sync
    after_sync-Stored o (ok inv) = persist-pure inv
    after_sync-Stored o (err e) = Leads-bind StoredIf _ _ redeem-StoredIf (or_bootstrap-Stored o e)

    refresh-Stored : (o : RefreshOptions) → Leads Anything (refresh E p o) Stored
    unfolding refresh
    refresh-Stored o = Leads-after _ _ (after_sync-Stored o)

    -- The inventory that `refresh` returns is the one that `load` then gives, from the file that the
    -- session keeps it in; if the file system keeps what it is given, if the inventory decodes from its
    -- JSON, and if it has a path, which is not that of the identity.
    pub refresh-load :
        (o : RefreshOptions) (s : State E.World) (inv : Inventory)
        → E.decode_inventory (E.encode_inventory inv <> "\n") ≡ ok inv
        → (refresh E p o s).0 ≡ ok inv
        → load (E.read_file p.inventory (refresh E p o s).1.world) E.decode_inventory p.inventory
          ≡ ok inv
    refresh-load o s inv d h =
        (load_iff _ E.decode_inventory p.inventory inv).1
          (_, (refresh-Stored o).at s inv (tt) h, d, refresh-IsUsable E p o s inv h)
