-- ===== src/Console/Laws.antt =====
-- The console does not panic.
use tunnet_lite.Base.{
  ℕ, ◌<◌, String, Bool, true, false, List, [], ◌∷◌, Option, none, some, All, Result, ok, ◌≡◌, ◌==◌,
  string_eq, if◌then◌else◌, ◌≢◌, refl, Bool-cases, inl, inr,
}
use tunnet_lite.Base.Dict.{Dict, lookup}
use tunnet_lite.Inventory.Check.Laws.{IsUsable}
use tunnet_lite.Supervisor.Starts.{start-IsServing, start-ne-none}
use tunnet_lite.Base.Texts.{trim_space}
use tunnet_lite.Control.Session.{Paths}
use tunnet_lite.Console.{
  World, Input, line, install, cancelled, ended, broken, Console, Outcome, banner, say, show_status,
  perform, commands, start_proxy, dispatch, run_line, loop, run,
}
use tunnet_lite.Console.Safe.{
  IsWell, IsSafe, say-IsWell, told-IsSafe, failed-IsSafe, fine, show_status-IsSafe, IsSafe-if,
  IsSafeCommand, set_exit-IsSafe, set_entry-IsSafe, set_udp-IsSafe, set_direct-IsSafe,
  set_route-IsSafe, prints-IsSafe, started-IsSafe, stop_proxy-IsSafe, refresh_nodes-IsSafe,
}

-- Inventories that the updater installs can be used, and it installs none while a command runs.
abbrev pub IsSound : Input → Type 0
IsSound (install inv) = IsUsable inv
IsSound (line text between) = between ≡ []
IsSound cancelled = Unit {0}
IsSound ended = Unit {0}
IsSound (broken e) = Unit {0}

module _ (W : World) (p : Paths) (has_session : Bool) where
  module _ (draws : (w : W.nodes.World) (n : ℕ) → 0 < n → W.nodes.draw w n < n) where
    start_proxy-IsSafe :
        (c : Console W p has_session)
        → IsWell W p has_session c
        → IsSafe W p has_session (start_proxy W p has_session c)
    unfolding start_proxy
    start_proxy-IsSafe c w =
        started-IsSafe W p has_session _ _
          (start-ne-none W.nodes W.core draws c.inv w.usable c.opts c.nodes c.engine c.core)
          (say-IsWell W p has_session _ (record c { nodes = _; engine = _; core = _ })
            (record {
              usable = w.usable;
              serving =
                  start-IsServing W.nodes W.core c.inv c.opts c.nodes c.engine c.core w.serving;
              settled = w.settled;
            }))

    lookup-IsSafe :
        (d : Dict (String → Console W p has_session → Outcome W p has_session)) (name arg : String)
        (c : Console W p has_session)
        → All (λ q. IsSafeCommand W p has_session q.1) d
        → IsWell W p has_session c
        → IsSafe W p has_session (perform W p has_session name arg (lookup name d) c)
    unfolding lookup perform
    lookup-IsSafe [] name arg c k w = failed-IsSafe W p has_session _ c w
    lookup-IsSafe ((key, f) ∷ d) name arg c k w = elim (Bool-cases (name == key)) [
      | inl e ↦ rw e (k.0 arg c w)
      | inr e ↦ rw e (lookup-IsSafe d name arg c k.1 w)
    ]

    commands-IsSafe : All (λ q. IsSafeCommand W p has_session q.1) (commands W p has_session)
    commands-IsSafe = (
      (λ arg c w. show_status-IsSafe W p has_session c w),
      (
        prints-IsSafe W p has_session _,
        (
          prints-IsSafe W p has_session _,
          (
            set_exit-IsSafe W p has_session,
            (
              set_entry-IsSafe W p has_session,
              (
                set_udp-IsSafe W p has_session,
                (
                  set_route-IsSafe W p has_session,
                  (
                    set_direct-IsSafe W p has_session,
                    (
                      (λ arg c w. start_proxy-IsSafe c w),
                      (
                        (λ arg c w. stop_proxy-IsSafe W p has_session c w),
                        (
                          (λ arg c w. refresh_nodes-IsSafe W p has_session c w),
                          (prints-IsSafe W p has_session _, tt),
                        ),
                      ),
                    ),
                  ),
                ),
              ),
            ),
          ),
        ),
      ),
    )

    dispatch-IsSafe :
        (name arg : String) (c : Console W p has_session)
        → IsWell W p has_session c
        → IsSafe W p has_session (dispatch W p has_session name arg c)
    unfolding dispatch
    dispatch-IsSafe name arg c w =
        lookup-IsSafe (commands W p has_session) name arg c commands-IsSafe w

    run_line-IsSafe :
        (text : String) (c : Console W p has_session)
        → IsWell W p has_session c
        → IsSafe W p has_session (run_line W p has_session text c)
    unfolding run_line
    run_line-IsSafe text c w =
        IsSafe-if W p has_session _ _ _ (fine W p has_session c w)
          (told-IsSafe W p has_session _ (dispatch-IsSafe _ _ c w))

    over-IsSafe :
        (b : Bool) (d : Console W p has_session) (rest : Outcome W p has_session)
        → IsWell W p has_session d
        → IsSafe W p has_session rest
        → IsSafe W p has_session (if b then (some (ok tt), d) else rest)
    over-IsSafe true d rest v h = fine W p has_session d v
    over-IsSafe false d rest v h = h

    loop-IsSafe :
        (over : Bool) (inputs : List Input) (c : Console W p has_session)
        → All IsSound inputs
        → IsWell W p has_session c
        → IsSafe W p has_session (loop W p has_session over inputs c)
    unfolding loop
    loop-IsSafe over [] c k w = fine W p has_session _ (say-IsWell W p has_session _ c w)
    loop-IsSafe over (broken e ∷ inputs) c k w = record {
      outcome = λ h. cc;
      after = say-IsWell W p has_session _ c w;
    }
    loop-IsSafe over (ended ∷ inputs) c k w = fine W p has_session c w
    loop-IsSafe over (cancelled ∷ inputs) c k w = loop-IsSafe true inputs c k.1 w
    loop-IsSafe over (install inv ∷ inputs) c k w =
        loop-IsSafe over inputs (record c { inv = inv }) k.1
          (record { usable = k.0; serving = w.serving; settled = w.settled })
    loop-IsSafe over (line text between ∷ inputs) c k w =
        let asked =
          say-IsWell W p has_session ("\n> " ∷ []) (record c { arriving = between })
            (record { usable = w.usable; serving = w.serving; settled = k.0 }) in
        let begun = say W p has_session ("\n> " ∷ []) (record c { arriving = between }) in
        let (r, d) = run_line W p has_session (trim_space text) begun in
        let s = run_line-IsSafe (trim_space text) begun asked in
        IsSafe-if W p has_session _ _ _ (fine W p has_session _ asked)
          (next r d s.outcome s.after (λ v. loop-IsSafe false inputs d k.1 v))
      where
        next :
            (r : Option (Result (Unit {0}))) (d : Console W p has_session)
            → r ≢ none
            → IsWell W p has_session d
            → (IsWell W p has_session d
                → IsSafe W p has_session (loop W p has_session false inputs d))
            → IsSafe W p has_session (elim r as (λ _. Outcome W p has_session) [
              | none ↦ (none, d)
              | some result ↦
                  if over then (some (ok tt), d) else loop W p has_session false inputs d
            ])
        next none d n v ih = absurd (n refl)
        next (some result) d n v ih = over-IsSafe over d _ v (ih v)

    -- Whatever lines are typed, and whatever answers, the console does not panic, and it ends with an
    -- inventory that can be used, over a reachable engine whose plan has entries; if it begins so, if the
    -- updater installs inventories that can be used, and only between two lines, not while a command
    -- runs, and if a number drawn below n is below n.
    pub run-IsOver :
        (inputs : List Input) (c : Console W p has_session)
        → All IsSound inputs
        → IsWell W p has_session c
        → ((run W p has_session inputs c).0 ≢ none)
          × IsWell W p has_session (run W p has_session inputs c).1
    unfolding run
    run-IsOver inputs c k w =
        let begun = say W p has_session (banner W p has_session ∷ []) c in
        let s =
          show_status-IsSafe W p has_session begun
            (say-IsWell W p has_session (banner W p has_session ∷ []) c w) in
        let (r, d) = show_status W p has_session begun in
        let safe = from r d s.outcome s.after in (safe.outcome, safe.after)
      where
        from :
            (r : Option (Result (Unit {0}))) (d : Console W p has_session)
            → r ≢ none
            → IsWell W p has_session d
            → IsSafe W p has_session (elim r as (λ _. Outcome W p has_session) [
              | none ↦ (none, d)
              | some result ↦ loop W p has_session false inputs d
            ])
        from none d n v = absurd (n refl)
        from (some result) d n v = loop-IsSafe false inputs d k v
