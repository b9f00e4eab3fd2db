-- ===== src/Control/Session/Evolves.antt =====
-- What no run of `Refresh` changes: the client id and the signing key. And the version only rises.
use tunnet_lite.Base.{
  String, Bool, true, false, Option, none, some, Error, Result, ok, err, ◌==◌, string_eq,
  if◌then◌else◌, ◌≡◌, ◌⊎◌, inl, inr, refl, ◌∙◌, arith, ◌||◌, not,
}
use tunnet_lite.Inventory.{Inventory}
use tunnet_lite.Control.Version.{version_less}
use tunnet_lite.Control.Version.Laws.{version_less-IsWeak}
use tunnet_lite.Base.Action.{raise, gets, ◌>>=◌, ◌>>◌}
use tunnet_lite.Control.Exec.{Identity, BootstrapResult, Env, State}
use tunnet_lite.Base.Action.Rules.{Keeps, IsPreorder, keeps_rules, Keeps-bind, Keeps-raise}
use tunnet_lite.Control.Exec.Rules.{IsUntouched, call_rules}
use tunnet_lite.Control.Session.{
  Paths, RefreshOptions, set_ticket, save, persist, complete, parse_sync, retry_sync, or_retry,
  try_sync, after_complete, redeem, approve, settle, or_bootstrap, after_sync, refresh, call_sync,
  set_version, clear_ticket, remember_ticket, minimum_version,
}

-- The version is the same or a later one.
abbrev pub Rises : String → String → Type 0
Rises v w = (w ≡ v) ⊎ (version_less v w ≡ true)

pub record Evolves {W : Type 0} (s t : State W) : Type 0 where
  pub client_id : t.identity.client_id ≡ s.identity.client_id
  pub signing_key : t.identity.signing_key ≡ s.identity.signing_key
  pub version : Rises s.app_version t.app_version

version_less_trans :
    (a b c : String) → version_less a b ≡ true → version_less b c ≡ true → version_less a c ≡ true
version_less_trans a b c h k =
    ground (arith, version_less-IsWeak.asym b c k, version_less-IsWeak.trans b c a)

Rises-trans : (a b c : String) → Rises a b → Rises b c → Rises a c
Rises-trans a b c (inl e) (inl f) = inl (f ∙ e)
Rises-trans a b c (inl e) (inr k) = inr (ground arith)
Rises-trans a b c (inr h) (inl f) = inr (ground arith)
Rises-trans a b c (inr h) (inr k) = inr (version_less_trans a b c h k)

Evolves-IsPreorder : {W : Type 0} → IsPreorder (Evolves {W = W})
Evolves-IsPreorder = record {
  same = λ s. record { client_id = refl; signing_key = refl; version = inl refl };
  chain = λ s t u h k. record {
    client_id = k.client_id ∙ h.client_id;
    signing_key = k.signing_key ∙ h.signing_key;
    version = Rises-trans _ _ _ h.version k.version;
  };
}

Evolves-IsUntouched : {W : Type 0} → IsUntouched (Evolves {W = W})
Evolves-IsUntouched = record {
  world = λ s w. record { client_id = refl; signing_key = refl; version = inl refl };
}

ruleset evolves_rules = (keeps_rules, call_rules, Evolves-IsPreorder, Evolves-IsUntouched)

module _ (E : Env) (p : Paths) where
  set_ticket-Evolves : (t : String) → Keeps Evolves (set_ticket E t)
  unfolding set_ticket
  set_ticket-Evolves t = record {
    at = λ s. record { client_id = refl; signing_key = refl; version = inl refl };
  }

  save-Evolves : (path : String) (id : Identity) → Keeps Evolves (save E path id)
  unfolding save
  save-Evolves path id = search evolves_rules

  persist-Evolves : (inv : Inventory) → Keeps Evolves (persist E p inv)
  unfolding persist
  persist-Evolves inv = search evolves_rules

  remember_ticket-Evolves : (t : String) → Keeps Evolves (remember_ticket E p t)
  unfolding remember_ticket
  remember_ticket-Evolves t = search (evolves_rules, set_ticket-Evolves, save-Evolves) depth 8

  clear_ticket-Evolves : Keeps Evolves (clear_ticket E p)
  unfolding clear_ticket
  clear_ticket-Evolves = search (evolves_rules, set_ticket-Evolves, save-Evolves) depth 10

  complete-Evolves : (t : String) → Keeps Evolves (complete E p t)
  unfolding complete
  complete-Evolves t = search (evolves_rules, persist-Evolves) depth 8

  call_sync-Evolves : Keeps Evolves (call_sync E)
  unfolding call_sync
  call_sync-Evolves = search evolves_rules depth 8

  parse_sync-Evolves : (payload : String) → Keeps Evolves (parse_sync E p payload)
  unfolding parse_sync
  parse_sync-Evolves payload = search evolves_rules depth 8

  -- A floor that is adopted is above the version.
  set_version-Evolves :
      (floor : String) (s : State E.World)
      → version_less s.app_version floor ≡ true
      → Evolves s (set_version E floor s).1
  unfolding set_version
  set_version-Evolves floor s h = record { client_id = refl; signing_key = refl; version = inr h }

  ask_again-Evolves :
      (floor : String) (s : State E.World)
      → version_less s.app_version floor ≡ true
      → Evolves s ((set_version E floor >> (call_sync E >>= λ again. parse_sync E p again)) s).1
  unfolding ◌>>◌ ◌>>=◌ set_version
  ask_again-Evolves floor s h = Evolves-IsPreorder.chain s _ _ (set_version-Evolves floor s h) (
      (Keeps-bind Evolves-IsPreorder (call_sync E) (parse_sync E p) call_sync-Evolves
          parse_sync-Evolves).at
        (record s { app_version = floor }))

  retry_from :
      (e : Error) (floor : String) (s : State E.World) (b c : Bool)
      → version_less s.app_version floor ≡ c
      → Evolves s
          ((if b || not c
              then raise e
              else (set_version E floor >> (call_sync E >>= λ again. parse_sync E p again)))
            s).1
  retry_from e floor s true c h = (Keeps-raise Evolves-IsPreorder e).at s
  retry_from e floor s false true h = ask_again-Evolves floor s h
  retry_from e floor s false false h = (Keeps-raise Evolves-IsPreorder e).at s

  retry_sync-Evolves : (payload : String) (e : Error) → Keeps Evolves (retry_sync E p payload e)
  unfolding retry_sync ◌>>=◌ gets
  retry_sync-Evolves payload e = record {
    at = λ s. retry_from e (minimum_version E payload) s (minimum_version E payload == "") _ refl;
  }

  or_retry-Evolves :
      (payload : String) (r : Result Inventory) → Keeps Evolves (or_retry E p payload r)
  unfolding or_retry
  or_retry-Evolves payload (ok inv) = search evolves_rules
  or_retry-Evolves payload (err e) = retry_sync-Evolves payload e

  try_sync-Evolves : Keeps Evolves (try_sync E p)
  unfolding try_sync
  try_sync-Evolves =
      search (evolves_rules, call_sync-Evolves, parse_sync-Evolves, or_retry-Evolves) depth 8

  after_complete-Evolves : (r : Result Inventory) → Keeps Evolves (after_complete E p r)
  unfolding after_complete
  after_complete-Evolves (ok inv) = search (evolves_rules, clear_ticket-Evolves)
  after_complete-Evolves (err e) = search evolves_rules

  redeem-Evolves : Keeps Evolves (redeem E p)
  unfolding redeem
  redeem-Evolves = search (evolves_rules, complete-Evolves, after_complete-Evolves) depth 8

  approve-Evolves : (url : String) (b : BootstrapResult) → Keeps Evolves (approve E p url b)
  unfolding approve
  approve-Evolves url b = search (evolves_rules, complete-Evolves, clear_ticket-Evolves) depth 10

  settle-Evolves :
      (o : RefreshOptions) (e : Error) (b : BootstrapResult) (r : Result Inventory)
      → Keeps Evolves (settle E p o e b r)
  unfolding settle
  settle-Evolves o e b (ok inv) =
      search (evolves_rules, clear_ticket-Evolves, persist-Evolves) depth 8
  settle-Evolves o e b (err x) =
      search (evolves_rules, remember_ticket-Evolves, approve-Evolves) depth 8

  or_bootstrap-Evolves :
      (o : RefreshOptions) (e : Error) (r : Option Inventory)
      → Keeps Evolves (or_bootstrap E p o e r)
  unfolding or_bootstrap
  or_bootstrap-Evolves o e (some inv) = search evolves_rules
  or_bootstrap-Evolves o e none = search (evolves_rules, settle-Evolves) depth 8

  after_sync-Evolves :
      (o : RefreshOptions) (r : Result Inventory) → Keeps Evolves (after_sync E p o r)
  unfolding after_sync
  after_sync-Evolves o (ok inv) = search (evolves_rules, persist-Evolves) depth 8
  after_sync-Evolves o (err e) =
      search (evolves_rules, redeem-Evolves, or_bootstrap-Evolves) depth 8

  refresh-Keeps : (o : RefreshOptions) → Keeps Evolves (refresh E p o)
  unfolding refresh
  refresh-Keeps o = search (evolves_rules, try_sync-Evolves, after_sync-Evolves) depth 8

  -- From the state before a refresh to the state after it, whether it returns or fails, the client id
  -- and the signing key are the same, and the version is the same or one that `version_less` puts
  -- after it.
  pub refresh-Evolves : (o : RefreshOptions) (s : State E.World) → Evolves s (refresh E p o s).1
  refresh-Evolves o s = (refresh-Keeps o).at s
