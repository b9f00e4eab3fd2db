-- ===== src/Console/Quiet.antt =====
-- Only `start` and `stop` touch the engine.
use tunnet_lite.Base.{
  String, Bool, List, true, false, [], ◌∷◌, Option, none, some, All, Error, Result, ok, err, ◌==◌,
  ==_iff, string_eq, if◌then◌else◌, ◌≡◌, ◌≢◌, ◌⊎◌, refl, ◌∙◌, Bool-cases, inl, inr,
  as_needs_authorization,
}
use tunnet_lite.Base.Int.{ℤ}
use tunnet_lite.Base.Texts.{atoi}
use tunnet_lite.Base.Dict.{Dict, lookup}
use tunnet_lite.Inventory.{Inventory, Host, EntryGroup}
use tunnet_lite.Control.Session.{Paths}
use tunnet_lite.Supervisor.{Options}
use tunnet_lite.Console.{
  World, Console, Outcome, arrive, later, after_number, failed, set_options, show_status,
  choose_exit, find_exit, set_exit, choose_entry, find_entry, set_entry, toggled, set_udp,
  set_direct, with_assets, choose_route, set_route, say, shown, unapproved, refreshed,
  refresh_nodes, prints, commands, perform, dispatch,
}

module _ (W : World) (p : Paths) (has_session : Bool) where
  -- An outcome that leaves the engine as it is in `c`.
  abbrev IsQuiet : Console W p has_session → Outcome W p has_session → Type 0
  IsQuiet c r = r.1.engine ≡ c.engine

  IsQuiet-if :
      (b : Bool) (c : Console W p has_session) (m n : Outcome W p has_session)
      → IsQuiet c m
      → IsQuiet c n
      → IsQuiet c (if b then m else n)
  IsQuiet-if true c m n h k = h
  IsQuiet-if false c m n h k = k

  module _ (c : Console W p has_session) where
    shown-IsQuiet : (q : Option (List String)) → IsQuiet c (shown W p has_session q c)
    unfolding shown say
    shown-IsQuiet none = refl
    shown-IsQuiet (some lines) = refl

    find_exit-IsQuiet : (r : Option (Result String)) → IsQuiet c (find_exit W p has_session r c)
    unfolding find_exit failed
    find_exit-IsQuiet none = refl
    find_exit-IsQuiet (some (err e)) = refl
    find_exit-IsQuiet (some (ok slug)) = chosen _
      where
        chosen : (r : Result Host) → IsQuiet c (choose_exit W p has_session r c)
        chosen (err e) = unfold choose_exit failed in refl
        chosen (ok host) = unfold choose_exit set_options say in refl

    choose_entry-IsQuiet :
        (r : Option (Result EntryGroup)) → IsQuiet c (choose_entry W p has_session r c)
    unfolding choose_entry failed set_options say
    choose_entry-IsQuiet none = refl
    choose_entry-IsQuiet (some (err e)) = refl
    choose_entry-IsQuiet (some (ok group)) = refl

    find_entry-IsQuiet : (r : Option (Result String)) → IsQuiet c (find_entry W p has_session r c)
    unfolding find_entry failed
    find_entry-IsQuiet none = refl
    find_entry-IsQuiet (some (err e)) = refl
    find_entry-IsQuiet (some (ok name)) = choose_entry-IsQuiet _

    toggled-IsQuiet :
        (set : Bool → Options) (text : Bool → String) (r : Result Bool)
        → IsQuiet c (toggled W p has_session set text r c)
    unfolding toggled failed set_options say
    toggled-IsQuiet set text (err e) = refl
    toggled-IsQuiet set text (ok on) = refl

    with_assets-IsQuiet :
        (mode : String) (q : (String × Option Error) × W.files.World)
        → IsQuiet c (with_assets W p has_session mode q c)
    unfolding with_assets failed set_options say
    with_assets-IsQuiet mode ((found, some e), v) = refl
    with_assets-IsQuiet mode ((found, none), v) = refl

    choose_route-IsQuiet : (r : Result String) → IsQuiet c (choose_route W p has_session r c)
    unfolding choose_route failed set_options say
    choose_route-IsQuiet (err e) = refl
    choose_route-IsQuiet (ok mode) = IsQuiet-if _ c _ _ (with_assets-IsQuiet mode _) refl

  later-engine : (c : Console W p has_session) → (later W p has_session c).engine ≡ c.engine
  unfolding later
  later-engine c = arrived c.arriving
    where
      arrived : (invs : List Inventory) → (arrive W p has_session invs c).engine ≡ c.engine
      arrived [] = unfold arrive in refl
      arrived (inv ∷ rest) = unfold arrive in refl

  after_number-engine :
      (arg : String) (c : Console W p has_session)
      → (after_number W p has_session arg c).engine ≡ c.engine
  unfolding after_number
  after_number-engine arg c = read (atoi arg)
    where
      read :
          (q : Option ℤ)
          → (elim q as (λ _. Console W p has_session) [
            | none ↦ c
            | some n ↦ later W p has_session (later W p has_session c)
          ]).engine
            ≡ c.engine
      read none = refl
      read (some n) = later-engine (later W p has_session c) ∙ later-engine c

  refreshed-IsQuiet :
      (r : Result Inventory) (c : Console W p has_session)
      → (refreshed W p has_session r c).1.engine ≡ c.engine
  unfolding refreshed say
  refreshed-IsQuiet (ok inv) c = refl
  refreshed-IsQuiet (err e) c = told (as_needs_authorization e)
    where
      told : (o : Option String) → (unapproved W p has_session e o c).1.engine ≡ c.engine
      told none = unfold unapproved failed in refl
      told (some url) = unfold unapproved say in refl

  -- A command that may change the engine, or one that does not.
  abbrev IsFair : String × (String → Console W p has_session → Outcome W p has_session) → Type 0
  IsFair q =
      (q.0 ≡ "start")
      ⊎ (q.0 ≡ "stop")
      ⊎ ((arg : String) (c : Console W p has_session) → IsQuiet c (q.1 arg c))

  commands-IsFair : All IsFair (commands W p has_session)
  unfolding show_status prints say set_exit set_entry set_udp set_route set_direct refresh_nodes
      failed
  commands-IsFair = (
    quiet (λ arg c. shown-IsQuiet c _),
    (
      quiet (λ arg c. refl),
      (
        quiet (λ arg c. refl),
        (
          quiet (λ arg c.
              IsQuiet-if _ c _ _ refl (find_exit-IsQuiet _ _ ∙ after_number-engine arg c)),
          (
            quiet (λ arg c.
                IsQuiet-if _ c _ _ refl (find_entry-IsQuiet _ _ ∙ after_number-engine arg c)),
            (
              quiet (λ arg c. toggled-IsQuiet c _ _ _),
              (
                quiet (λ arg c. IsQuiet-if _ c _ _ refl (choose_route-IsQuiet c _)),
                (
                  quiet (λ arg c. toggled-IsQuiet c _ _ _),
                  (
                    inl refl,
                    (
                      inr (inl refl),
                      (
                        quiet (λ arg c. IsQuiet-if _ c _ _ refl (refreshed-IsQuiet _ _)),
                        (quiet (λ arg c. refl), tt),
                      ),
                    ),
                  ),
                ),
              ),
            ),
          ),
        ),
      ),
    ),
  )
    where
      quiet : {A B C : Type 0} → C → A ⊎ (B ⊎ C)
      quiet x = inr (inr x)

  perform-IsQuiet :
      (d : Dict (String → Console W p has_session → Outcome W p has_session)) (name arg : String)
      (c : Console W p has_session)
      → All IsFair d
      → name ≢ "start"
      → name ≢ "stop"
      → IsQuiet c (perform W p has_session name arg (lookup name d) c)
  unfolding lookup perform failed
  perform-IsQuiet [] name arg c k n m = refl
  perform-IsQuiet ((key, f) ∷ d) name arg c k n m = elim (Bool-cases (name == key)) [
    | inl e ↦ rw e (fair k.0 ((==_iff name key).0 e))
    | inr e ↦ rw e (perform-IsQuiet d name arg c k.1 n m)
  ]
    where
      fair : IsFair (key, f) → name ≡ key → IsQuiet c (f arg c)
      fair (inl s) e = absurd (n (e ∙ s))
      fair (inr (inl s)) e = absurd (m (e ∙ s))
      fair (inr (inr q)) e = q arg c

  -- No command but `start` and `stop` changes the engine, whether it succeeds or fails: what is chosen
  -- waits for the next `start`.
  pub dispatch-engine :
      (name arg : String) (c : Console W p has_session)
      → name ≢ "start"
      → name ≢ "stop"
      → (dispatch W p has_session name arg c).1.engine ≡ c.engine
  unfolding dispatch
  dispatch-engine name arg c n m =
      perform-IsQuiet (commands W p has_session) name arg c commands-IsFair n m
