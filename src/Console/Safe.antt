-- ===== src/Console/Safe.antt =====
-- Each command leaves the console well, and none panics.
use tunnet_lite.Base.Int.{ℤ}
use tunnet_lite.Base.Texts.{atoi}
use tunnet_lite.Base.{
  ap, ◌∙◌, ℕ, String, Bool, true, false, not, List, [], ◌∷◌, ◌++◌, Option, none, some, Error,
  Result, ok, err, string_eq, if◌then◌else◌, ◌≡◌, ◌≢◌, refl, sym, as_needs_authorization,
}
use mathlib.Core.Path.{subst}
use tunnet_lite.Base.Dict.{is_some}
use tunnet_lite.Inventory.{Inventory, Host, EntryGroup}
use tunnet_lite.Inventory.Check.Laws.{IsUsable}
use tunnet_lite.Inventory.Select.{select_host, select_group}
use tunnet_lite.Inventory.Select.Laws.{select_group-ne-none}
use tunnet_lite.Engine.{Plan, Core, Engine, stop, apply, status, Status}
use tunnet_lite.Engine
use tunnet_lite.Engine.Laws.{Reaches, IsConsistent, IsOutcome, status-IsConsistent, stop-IsStopped}
use tunnet_lite.Supervisor.{Options}
use tunnet_lite.Supervisor.Starts.{HasEntries, IsServing}
use tunnet_lite.Control.Session.{Paths}
use tunnet_lite.Control.Session.Usable.{refresh-IsUsable}
use tunnet_lite.Console.Screen.{best_lines, running_lines, status_lines}
use tunnet_lite.Console.Bounds.{slug_of-ne-none, name_of-ne-none}
use tunnet_lite.Console.{
  World, Console, Outcome, slug_of, name_of, arrive, later, after_number, failed, say, set_options,
  shown, told, show_status, choose_exit, find_exit, set_exit, choose_entry, find_entry, set_entry,
  set_udp, set_direct, with_assets, choose_route, set_route, toggled, stopped, unapproved, started,
  stop_proxy, refreshed, refresh_nodes, prints,
}

module _ (W : World) (p : Paths) (has_session : Bool) where
  -- A console that shows an inventory that can be used, over an engine that serves.
  pub record IsWell (c : Console W p has_session) : Type 0 where
    pub usable : IsUsable c.inv
    pub serving : IsServing W.nodes W.core c.engine
    -- no inventory is about to be installed while the command runs
    pub settled : c.arriving ≡ []

  -- An outcome that is no panic, and leaves the console well.
  pub record IsSafe (r : Outcome W p has_session) : Type 0 where
    pub outcome : r.0 ≢ none
    pub after : IsWell r.1

  pub failed-IsSafe :
      (e : Error) (c : Console W p has_session) → IsWell c → IsSafe (failed W p has_session e c)
  unfolding failed
  failed-IsSafe e c w = record { outcome = λ k. cc; after = w }

  pub fine : (c : Console W p has_session) → IsWell c → IsSafe (some (ok tt), c)
  fine c w = record { outcome = λ k. cc; after = w }

  -- What is printed has no part in it.
  pub say-IsWell :
      (texts : List String) (c : Console W p has_session)
      → IsWell c
      → IsWell (say W p has_session texts c)
  unfolding say
  say-IsWell texts c w = record { usable = w.usable; serving = w.serving; settled = w.settled }

  said :
      (texts : List String) (c : Console W p has_session)
      → IsWell c
      → IsSafe (some (ok tt), say W p has_session texts c)
  said texts c w = fine (say W p has_session texts c) (say-IsWell texts c w)

  pub set_options-IsSafe :
      (o : Options) (text : String) (c : Console W p has_session)
      → IsWell c
      → IsSafe (set_options W p has_session o text c)
  unfolding set_options
  set_options-IsSafe o text c w =
      said (text ∷ []) (record c { opts = o })
        (record { usable = w.usable; serving = w.serving; settled = w.settled })

  running_lines-ne-none :
      (since : String) (b : Bool) (last : List String) (plan : Option Plan)
      → is_some plan ≡ b
      → HasEntries plan
      → (if not b then some last else running_lines since plan) ≢ none
  unfolding running_lines
  running_lines-ne-none since false last plan e h k = cc
  running_lines-ne-none since true last none e h k = cc
  running_lines-ne-none since true last (some plan) e h k = best plan.entries h k
    where
      best : (entries : List String) → entries ≢ [] → best_lines since plan entries ≢ none
      best [] n k = n refl
      best (entry ∷ entries) n k = unfold best_lines in cc

  added-ne-none :
      (q : Option (List String)) (last : List String)
      → q ≢ none
      → ◌≢◌ {A = Option (List String)}
          (elim q as (λ _. Option (List String)) [
            | none ↦ none
            | some lines ↦ some (lines ++ last)
          ])
          none
  added-ne-none none last n k = n refl
  added-ne-none (some lines) last n k = cc

  status_lines-ne-none :
      (f : ℕ → String) (st : Status) (o : Options)
      → IsConsistent st
      → HasEntries st.plan
      → status_lines f st o ≢ none
  unfolding status_lines
  status_lines-ne-none f st o i h =
      added-ne-none _ _ (running_lines-ne-none _ st.running _ st.plan i.plan h)

  shown-IsSafe :
      (q : Option (List String)) (c : Console W p has_session)
      → q ≢ none
      → IsWell c
      → IsSafe (shown W p has_session q c)
  unfolding shown
  shown-IsSafe none c n w = absurd (n refl)
  shown-IsSafe (some lines) c n w = said lines c w

  pub show_status-IsSafe :
      (c : Console W p has_session) → IsWell c → IsSafe (show_status W p has_session c)
  unfolding show_status
  show_status-IsSafe c w =
      shown-IsSafe _ c
        (status_lines-ne-none W.show_time (status W.core c.engine) c.opts
          (status-IsConsistent W.core c.engine w.serving.reached)
          (unfold status in w.serving.entries))
        w

  choose_exit-IsSafe :
      (r : Result Host) (c : Console W p has_session)
      → IsWell c
      → IsSafe (choose_exit W p has_session r c)
  unfolding choose_exit
  choose_exit-IsSafe (err e) c w = failed-IsSafe e c w
  choose_exit-IsSafe (ok host) c w = set_options-IsSafe _ _ c w

  -- Where nothing is about to be installed, each read finds the same.
  later-same : (c : Console W p has_session) → IsWell c → later W p has_session c ≡ c
  unfolding later arrive
  later-same c w = rw w.settled refl

  after_number-same :
      (arg : String) (c : Console W p has_session)
      → IsWell c
      → after_number W p has_session arg c ≡ c
  unfolding after_number
  after_number-same arg c w = same (atoi arg)
    where
      same :
          (q : Option ℤ)
          → elim q as (λ _. Console W p has_session) [
            | none ↦ c
            | some n ↦ later W p has_session (later W p has_session c)
          ]
            ≡ c
      same none = refl
      same (some n) = ap (later W p has_session) (later-same c w) ∙ later-same c w

  find_exit-IsSafe :
      (r : Option (Result String)) (c : Console W p has_session)
      → r ≢ none
      → IsWell c
      → IsSafe (find_exit W p has_session r c)
  unfolding find_exit
  find_exit-IsSafe none c n w = absurd (n refl)
  find_exit-IsSafe (some (err e)) c n w = failed-IsSafe e c w
  find_exit-IsSafe (some (ok slug)) c n w = choose_exit-IsSafe (select_host c.inv slug) c w

  -- A test for a missing argument before the rest of a command.
  pub IsSafe-if :
      (b : Bool) (m n : Outcome W p has_session) → IsSafe m → IsSafe n → IsSafe (if b then m else n)
  IsSafe-if true m n h k = h
  IsSafe-if false m n h k = k

  abbrev pub IsSafeCommand : (String → Console W p has_session → Outcome W p has_session) → Type 0
  IsSafeCommand f = (arg : String) (c : Console W p has_session) → IsWell c → IsSafe (f arg c)

  exit_found-IsSafe :
      (arg : String) (c : Console W p has_session)
      → IsWell c
      → IsSafe (
          find_exit W p has_session
            (slug_of arg c.inv.hosts (later W p has_session c).inv.hosts)
            (after_number W p has_session arg c))
  exit_found-IsSafe arg c w =
      rw (later-same c w, after_number-same arg c w)
        (find_exit-IsSafe _ c (slug_of-ne-none arg c.inv.hosts) w)

  pub set_exit-IsSafe : IsSafeCommand (set_exit W p has_session)
  unfolding set_exit
  set_exit-IsSafe arg c w = IsSafe-if _ _ _ (failed-IsSafe _ c w) (exit_found-IsSafe arg c w)

  choose_entry-IsSafe :
      (r : Option (Result EntryGroup)) (c : Console W p has_session)
      → r ≢ none
      → IsWell c
      → IsSafe (choose_entry W p has_session r c)
  unfolding choose_entry
  choose_entry-IsSafe none c n w = absurd (n refl)
  choose_entry-IsSafe (some (err e)) c n w = failed-IsSafe e c w
  choose_entry-IsSafe (some (ok group)) c n w = set_options-IsSafe _ _ c w

  find_entry-IsSafe :
      (r : Option (Result String)) (c : Console W p has_session)
      → r ≢ none
      → IsWell c
      → IsSafe (find_entry W p has_session r c)
  unfolding find_entry
  find_entry-IsSafe none c n w = absurd (n refl)
  find_entry-IsSafe (some (err e)) c n w = failed-IsSafe e c w
  find_entry-IsSafe (some (ok name)) c n w =
      choose_entry-IsSafe (select_group W.nodes.fold c.inv name) c
        (select_group-ne-none W.nodes.fold c.inv name w.usable) w

  entry_found-IsSafe :
      (arg : String) (c : Console W p has_session)
      → IsWell c
      → IsSafe (
          find_entry W p has_session
            (name_of arg c.inv.entry_groups (later W p has_session c).inv.entry_groups)
            (after_number W p has_session arg c))
  entry_found-IsSafe arg c w =
      rw (later-same c w, after_number-same arg c w)
        (find_entry-IsSafe _ c (name_of-ne-none arg c.inv.entry_groups) w)

  pub set_entry-IsSafe : IsSafeCommand (set_entry W p has_session)
  unfolding set_entry
  set_entry-IsSafe arg c w = IsSafe-if _ _ _ (failed-IsSafe _ c w) (entry_found-IsSafe arg c w)

  toggled-IsSafe :
      (set : Bool → Options) (text : Bool → String) (r : Result Bool) (c : Console W p has_session)
      → IsWell c
      → IsSafe (toggled W p has_session set text r c)
  unfolding toggled
  toggled-IsSafe set text (err e) c w = failed-IsSafe e c w
  toggled-IsSafe set text (ok on) c w = set_options-IsSafe _ _ c w

  pub set_udp-IsSafe : IsSafeCommand (set_udp W p has_session)
  unfolding set_udp
  set_udp-IsSafe arg c w = toggled-IsSafe _ _ _ c w

  pub set_direct-IsSafe : IsSafeCommand (set_direct W p has_session)
  unfolding set_direct
  set_direct-IsSafe arg c w = toggled-IsSafe _ _ _ c w

  -- What has no part in the inventory and the engine may change.
  with_assets-IsSafe :
      (mode : String) (q : (String × Option Error) × W.files.World) (c : Console W p has_session)
      → IsWell c
      → IsSafe (with_assets W p has_session mode q c)
  unfolding with_assets
  with_assets-IsSafe mode ((found, some e), v) c w =
      failed-IsSafe _ _ (record { usable = w.usable; serving = w.serving; settled = w.settled })
  with_assets-IsSafe mode ((found, none), v) c w =
      set_options-IsSafe _ _ _
        (record { usable = w.usable; serving = w.serving; settled = w.settled })

  choose_route-IsSafe :
      (r : Result String) (c : Console W p has_session)
      → IsWell c
      → IsSafe (choose_route W p has_session r c)
  unfolding choose_route
  choose_route-IsSafe (err e) c w = failed-IsSafe e c w
  choose_route-IsSafe (ok mode) c w =
      IsSafe-if _ _ _ (with_assets-IsSafe mode _ c w) (set_options-IsSafe _ _ c w)

  pub set_route-IsSafe : IsSafeCommand (set_route W p has_session)
  unfolding set_route
  set_route-IsSafe arg c w = IsSafe-if _ _ _ (failed-IsSafe _ c w) (choose_route-IsSafe _ c w)

  pub started-IsSafe :
      (r : Option (Result Plan)) (c : Console W p has_session)
      → r ≢ none
      → IsWell c
      → IsSafe (started W p has_session r c)
  unfolding started
  started-IsSafe none c n w = absurd (n refl)
  started-IsSafe (some (err e)) c n w = failed-IsSafe e c w
  started-IsSafe (some (ok plan)) c n w = show_status-IsSafe c w

  stopped-IsSafe :
      (r : Option Error) (c : Console W p has_session)
      → IsWell c
      → IsSafe (stopped W p has_session r c)
  unfolding stopped
  stopped-IsSafe none c w = said _ c w
  stopped-IsSafe (some e) c w = failed-IsSafe e c w

  stop-IsServing :
      (e : Engine W.core) (d : W.core.World)
      → IsServing W.nodes W.core e
      → IsServing W.nodes W.core (stop W.core e d).1
  stop-IsServing e d s =
      let (inst, plan, at) = stop-IsStopped W.core e d (status-IsConsistent W.core e s.reached) in
      record { reached = stopped_after e d s.reached; entries = subst HasEntries (sym plan) tt }
    where
      stopped_after :
          (e : Engine W.core) (d : W.core.World)
          → Reaches W.core e
          → Reaches W.core (stop W.core e d).1
      stopped_after e d r = Engine.Laws.Reaches.stopped e d r

  pub stop_proxy-IsSafe :
      (c : Console W p has_session) → IsWell c → IsSafe (stop_proxy W p has_session c)
  unfolding stop_proxy
  stop_proxy-IsSafe c w = stopped-IsSafe _ _ (record {
    usable = w.usable;
    serving = stop-IsServing c.engine c.core w.serving;
    settled = w.settled;
  })

  refreshed-IsSafe :
      (r : Result Inventory) (c : Console W p has_session)
      → ((inv : Inventory) → r ≡ ok inv → IsUsable inv)
      → IsWell c
      → IsSafe (refreshed W p has_session r c)
  unfolding refreshed unapproved
  refreshed-IsSafe (ok inv) c u w =
      said _ (record c { inv = inv })
        (record { usable = u inv refl; serving = w.serving; settled = w.settled })
  refreshed-IsSafe (err e) c u w = told (as_needs_authorization e)
    where
      told : (o : Option String) → IsSafe (unapproved W p has_session e o c)
      told none = failed-IsSafe e c w
      told (some url) = said _ c w

  pub refresh_nodes-IsSafe :
      (c : Console W p has_session) → IsWell c → IsSafe (refresh_nodes W p has_session c)
  unfolding refresh_nodes
  refresh_nodes-IsSafe c w = IsSafe-if _ _ _ (failed-IsSafe _ c w) (
      refreshed-IsSafe _ _ (λ inv h. refresh-IsUsable W.control p _ c.session inv h)
        (say-IsWell _ (record c { session = _ })
          (record { usable = w.usable; serving = w.serving; settled = w.settled })))

  pub prints-IsSafe :
      (lines : Console W p has_session → List String) → IsSafeCommand (prints W p has_session lines)
  unfolding prints
  prints-IsSafe lines arg c w = said (lines c) c w

  -- What `Run` adds after a command.
  pub told-IsSafe : (r : Outcome W p has_session) → IsSafe r → IsSafe (told W p has_session r)
  unfolding told
  told-IsSafe (none, c) s = s
  told-IsSafe (some (ok u), c) s = s
  told-IsSafe (some (err e), c) s = record { outcome = λ k. cc; after = say-IsWell _ c s.after }
