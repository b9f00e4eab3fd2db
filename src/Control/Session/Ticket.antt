-- ===== src/Control/Session/Ticket.antt =====
-- What becomes of the pending ticket where `Refresh` returns.
use tunnet_lite.Base.{
  String, Bool, true, false, Option, none, some, Error, Result, ok, err, ◌==◌, ==_iff, string_eq,
  if◌then◌else◌, ◌≡◌, refl, ◌∙◌,
}
use tunnet_lite.Base.Dict.{is_some}
use tunnet_lite.Inventory.{Inventory}
use tunnet_lite.Base.Action.{Action, gets, pure, attempt, ◌>>=◌, ◌>>◌}
use tunnet_lite.Base.Action.Rules.{Keeps, IsPreorder, keeps_rules}
use tunnet_lite.Base.Action.Leads.{
  Anything, Leads, Leads-pure, Leads-raise, Leads-if, Leads-bind, Leads-then, Leads-after,
  Leads-next,
}
use tunnet_lite.Control.Exec.{Identity, BootstrapResult, Env, State}
use tunnet_lite.Control.Exec.Rules.{IsUntouched, call_rules}
use tunnet_lite.Control.Session.{
  Paths, RefreshOptions, set_ticket, save, persist, complete, parse_sync, retry_sync, or_retry,
  try_sync, after_complete, redeem, approve, settle, or_bootstrap, after_sync, refresh, call_sync,
  set_version, clear_ticket,
}

abbrev pub ticket_of : {W : Type 0} → State W → String
ticket_of s = s.identity.pending_ticket

abbrev Stays : {W : Type 0} → State W → State W → Type 0
Stays s t = ticket_of t ≡ ticket_of s

Stays-IsPreorder : {W : Type 0} → IsPreorder (Stays {W = W})
Stays-IsPreorder = record { same = λ s. refl; chain = λ s t u h k. k ∙ h }

Stays-IsUntouched : {W : Type 0} → IsUntouched (Stays {W = W})
Stays-IsUntouched = record { world = λ s w. refl }

ruleset stays_rules = (keeps_rules, call_rules, Stays-IsPreorder, Stays-IsUntouched)

module _ (E : Env) (p : Paths) where
  save-Stays : (path : String) (id : Identity) → Keeps Stays (save E path id)
  unfolding save
  save-Stays path id = search stays_rules

  persist-Stays : (inv : Inventory) → Keeps Stays (persist E p inv)
  unfolding persist
  persist-Stays inv = search stays_rules

  complete-Stays : (t : String) → Keeps Stays (complete E p t)
  unfolding complete
  complete-Stays t = search (stays_rules, persist-Stays) depth 8

  call_sync-Stays : Keeps Stays (call_sync E)
  unfolding call_sync
  call_sync-Stays = search stays_rules depth 8

  parse_sync-Stays : (payload : String) → Keeps Stays (parse_sync E p payload)
  unfolding parse_sync
  parse_sync-Stays payload = search stays_rules depth 8

  set_version-Stays : (floor : String) → Keeps Stays (set_version E floor)
  unfolding set_version
  set_version-Stays floor = record { at = λ s. refl }

  retry_sync-Stays : (payload : String) (e : Error) → Keeps Stays (retry_sync E p payload e)
  unfolding retry_sync
  retry_sync-Stays payload e =
      search (stays_rules, set_version-Stays, call_sync-Stays, parse_sync-Stays) depth 10

  or_retry-Stays : (payload : String) (r : Result Inventory) → Keeps Stays (or_retry E p payload r)
  unfolding or_retry
  or_retry-Stays payload (ok inv) = search stays_rules
  or_retry-Stays payload (err e) = retry_sync-Stays payload e

  try_sync-Stays : Keeps Stays (try_sync E p)
  unfolding try_sync
  try_sync-Stays = search (stays_rules, call_sync-Stays, parse_sync-Stays, or_retry-Stays) depth 8

  abbrev pub Spent : State E.World → Type 0
  Spent s = ticket_of s ≡ ""

  -- What keeps the ticket keeps it spent.
  Stays-Leads :
      {A : Type 0} (m : Action (State E.World) A) (t : String)
      → Keeps Stays m
      → Leads (λ s. ticket_of s ≡ t) m (λ a s. ticket_of s ≡ t)
  Stays-Leads m t k = record { at = λ s a h e. k.at s ∙ h }

  set_ticket-Spent : Leads Anything (set_ticket E "") (λ u. Spent)
  unfolding set_ticket
  set_ticket-Spent = record { at = λ s a h e. refl }

  -- A ticket that is cleared is spent.
  clear_ticket-Spent : Leads Anything (clear_ticket E p) (λ u. Spent)
  unfolding clear_ticket gets
  clear_ticket-Spent = Leads-bind (λ t s. ticket_of s ≡ t) _ _ read (λ t. tested t _ refl)
    where
      read : Leads (Anything {S = State E.World}) (gets ticket_of) (λ t s. ticket_of s ≡ t)
      read = record { at = λ s t h e. cc }

      -- The identity without its ticket is saved.
      tail-Stays :
          Keeps {S = State E.World} Stays
            (gets (λ s. s.identity) >>= λ id. attempt (save E p.identity id) >>= λ saved. pure tt)
      tail-Stays = search (stays_rules, save-Stays) depth 8

      tested :
          (t : String) (b : Bool)
          → (t == "") ≡ b
          → Leads
              (λ s. ticket_of s ≡ t)
              (if b
                then pure tt
                else (set_ticket E ""
                    >> (gets (λ s. s.identity) >>= λ id.
                        attempt (save E p.identity id) >>= λ saved. pure tt)))
              (λ u. Spent)
      tested t true e = Leads-pure tt (λ s h. h ∙ (==_iff t "").0 e)
      tested t false e =
          Leads-then Spent _ _ (record { at = λ s a h k. set_ticket-Spent.at s a tt k })
            (Stays-Leads _ "" tail-Stays)

  after_complete-Spent :
      (r : Result Inventory)
      → Leads Anything (after_complete E p r) (λ o s. is_some o ≡ true → Spent s)
  unfolding after_complete
  after_complete-Spent (ok inv) =
      Leads-then Spent _ _ clear_ticket-Spent (Leads-pure (some inv) (λ s h e. h))
  after_complete-Spent (err e) = Leads-pure none (λ s h k. cc)

  redeem-Spent : Leads Anything (redeem E p) (λ o s. is_some o ≡ true → Spent s)
  unfolding redeem
  redeem-Spent = Leads-after _ _ (λ ticket.
      Leads-if _ _ _ (Leads-pure none (λ s h k. cc)) (Leads-after _ _ after_complete-Spent))

  approve-Spent :
      (url : String) (boot : BootstrapResult) → Leads Anything (approve E p url boot) (λ inv. Spent)
  unfolding approve
  approve-Spent url boot = Leads-next _ _ (
      Leads-next _ _ (
        Leads-after _ _
          (λ inv. Leads-then Spent _ _ clear_ticket-Spent (Leads-pure inv (λ s h. h)))))

  settle-Spent :
      (o : RefreshOptions) (e : Error) (boot : BootstrapResult) (r : Result Inventory)
      → Leads Anything (settle E p o e boot r) (λ inv. Spent)
  unfolding settle
  settle-Spent o e boot (ok inv) =
      Leads-then Spent _ _ clear_ticket-Spent
        (Leads-then Spent _ _ (Stays-Leads _ "" (persist-Stays inv)) (Leads-pure inv (λ s h. h)))
  settle-Spent o e boot (err x) =
      Leads-if _ _ _ (Leads-raise _)
        (Leads-next _ _ (Leads-if _ _ _ (Leads-raise _) (approve-Spent _ boot)))

  or_bootstrap-Spent :
      (o : RefreshOptions) (e : Error) (r : Option Inventory)
      → Leads (λ s. is_some r ≡ true → Spent s) (or_bootstrap E p o e r) (λ inv. Spent)
  unfolding or_bootstrap
  or_bootstrap-Spent o e (some inv) = Leads-pure inv (λ s h. h refl)
  or_bootstrap-Spent o e none =
      Leads-after _ _
        (λ id. Leads-after _ _ (λ version. Leads-after _ _ (λ boot. settle-Spent o e boot _)))

  -- The ticket after a sync that gave this result.
  abbrev pub Settled : String → Result Inventory → State E.World → Type 0
  Settled t (ok inv) s = ticket_of s ≡ t
  Settled t (err e) s = Spent s

  after_sync-Settled :
      (o : RefreshOptions) (t : String) (r : Result Inventory)
      → Leads (λ s. ticket_of s ≡ t) (after_sync E p o r) (λ inv. Settled t r)
  unfolding after_sync
  after_sync-Settled o t (ok inv) =
      Leads-then (λ s. ticket_of s ≡ t) _ _ (Stays-Leads _ t (persist-Stays inv))
        (Leads-pure inv (λ s h. h))
  after_sync-Settled o t (err e) =
      Leads-bind (λ r s. is_some r ≡ true → Spent s) _ _
        (record { at = λ s a h k. redeem-Spent.at s a tt k }) (or_bootstrap-Spent o e)

  -- Where `refresh` returns, the pending ticket is the one from before if the sync gave the inventory,
  -- and none is pending if another way did: a ticket that was redeemed is not kept.
  pub refresh-Settled :
      (o : RefreshOptions) (s : State E.World) (inv : Inventory)
      → (refresh E p o s).0 ≡ ok inv
      → Settled (ticket_of s) (try_sync E p s).0 (refresh E p o s).1
  unfolding refresh ◌>>=◌ attempt
  refresh-Settled o s inv h =
      (after_sync-Settled o (ticket_of s) (try_sync E p s).0).at (try_sync E p s).1 inv
        (try_sync-Stays.at s) h
