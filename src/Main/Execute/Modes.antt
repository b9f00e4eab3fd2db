-- ===== src/Main/Execute/Modes.antt =====
-- The runs that do not start the proxy.
use tunnet_lite.Base.{
  String, Bool, true, false, Option, none, some, Error, Result, ok, err, if◌then◌else◌, ◌==◌,
  string_eq, ◌≡◌, ◌⊎◌, inl, inr, refl, sym, ap, ◌∙◌,
}
use mathlib.Core.Path.{subst}
use tunnet_lite.Base.Action.{Action, pure, raise}
use tunnet_lite.Base.Action.Rules.{
  Keeps, IsPreorder, keeps_rules, Keeps-bind, Keeps-lift, Keeps-if, Keeps-gets, Keeps-bind_known,
  Gives, Gives-bind, Gives-then, Gives-pure,
}
use tunnet_lite.Inventory.{Inventory}
use tunnet_lite.Engine.{Plan}
use tunnet_lite.Supervisor
use tunnet_lite.Supervisor.{Options}
use tunnet_lite.Xcfg.Json.{Json}
use tunnet_lite.Main.{CliOptions, Settings, apply_paths, apply_routing, routed, fill_paths}
use tunnet_lite.Main.Machine.{Machine}
use tunnet_lite.Main.Machine.Views.{place, files, nodes}
use tunnet_lite.Main.Run.{RefreshConfig}
use tunnet_lite.Main.Execute.{
  Script, Process, on_world, fetch_rules, load_nodes, dumped, dump_config, refresh_only,
  with_inventory, hardened, configured, located, execute,
}

-- The flags that choose what `execute` does.
abbrev pub modes : CliOptions → Bool × Bool × Bool
modes o = (o.fetch_rules, o.refresh, o.dump)

-- A run that fetches the rule sets, refreshes the inventory or prints the configuration.
abbrev pub IsOffline : Bool × Bool × Bool → Type 0
IsOffline m = (m.0 ≡ true) ⊎ ((m.1 ≡ true) ⊎ (m.2 ≡ true))

module _ (M : Machine) (S : Script M) where
  -- xray-core is left alone.
  abbrev IsIdle : Process M → Process M → Type 0
  IsIdle p q = q.core ≡ p.core

  IsIdle-IsPreorder : IsPreorder IsIdle
  IsIdle-IsPreorder = record { same = λ s. refl; chain = λ s t u h k. k ∙ h }

  on_world-IsIdle : {A : Type 0} (m : Action M.net.World A) → Keeps IsIdle (on_world M m)
  unfolding on_world
  on_world-IsIdle m = record { at = λ p. refl }

  on_world-Gives :
      {A : Type 0} (P : A → Type 0) (m : Action M.net.World A)
      → ((w : M.net.World) (a : A) → (m w).0 ≡ ok a → P a)
      → Gives P (on_world M m)
  unfolding on_world
  on_world-Gives P m f = record { at = λ p a h. f p.world a h }

  fetch_rules-IsIdle : (dir : String) → Keeps IsIdle (fetch_rules M dir)
  unfolding fetch_rules
  fetch_rules-IsIdle dir = record { at = λ p. refl }

  load_nodes-IsIdle : (path : String) → Keeps IsIdle (load_nodes M path)
  unfolding load_nodes
  load_nodes-IsIdle path = record { at = λ p. refl }

  dumped-IsIdle : (r : Option (Result (Plan × Json))) → Keeps IsIdle (dumped M r)
  unfolding dumped pure raise
  dumped-IsIdle none = record { at = λ p. refl }
  dumped-IsIdle (some (err e)) = record { at = λ p. refl }
  dumped-IsIdle (some (ok (plan, json))) = record { at = λ p. refl }

  dump_config-IsIdle : (inv : Inventory) (o : Options) → Keeps IsIdle (dump_config M inv o)
  unfolding dump_config
  dump_config-IsIdle inv o = record {
    at = λ p.
        let (r, w) = Supervisor.resolve (nodes M) inv o p.world in
        (dumped-IsIdle r).at (record p { world = w });
  }

  refresh_only-IsIdle : (c : RefreshConfig) → Keeps IsIdle (refresh_only M S c)
  unfolding refresh_only
  refresh_only-IsIdle c = search (keeps_rules, IsIdle-IsPreorder, on_world-IsIdle)

  -- A branch that the flag takes.
  taken :
      {A : Type 0} (b : Bool) (m n : Action (Process M) A)
      → b ≡ true
      → Keeps IsIdle m
      → Keeps IsIdle (if b then m else n)
  taken true m n e k = k
  taken false m n e k = cc

  hardened-IsIdle :
      (o : CliOptions) (h : Settings)
      → (o.refresh ≡ true) ⊎ (o.dump ≡ true)
      → Keeps IsIdle (hardened M S o h)
  unfolding hardened with_inventory
  hardened-IsIdle o h (inl r) = taken o.refresh _ _ r (refresh_only-IsIdle _)
  hardened-IsIdle o h (inr d) = Keeps-if IsIdle-IsPreorder o.refresh _ _ (refresh_only-IsIdle _) (
      Keeps-bind IsIdle-IsPreorder _ _ (load_nodes-IsIdle o.nodes_path)
        (λ inv. taken o.dump _ _ d (dump_config-IsIdle inv o.supervisor)))

  -- Neither the locations nor the routing choice change the flags.
  routed-modes :
      (o : CliOptions) (mode : String) (q : (String × Option Error) × M.net.World)
      (made : CliOptions)
      → (routed (files M) o mode q).0 ≡ ok made
      → modes made ≡ modes o
  unfolding routed
  routed-modes o mode ((dir, none), w) made h =
      same (record o { supervisor = record o.supervisor { route_mode = mode } }) made h
    where
      same : (x y : CliOptions) → ◌≡◌ {A = Result CliOptions} (ok x) (ok y) → modes y ≡ modes x
      same x y e = let k : x ≡ y = cc in ap modes (sym k)
  routed-modes o mode ((dir, some e), w) made h =
      either (mode == "smart") _
        (record o { supervisor = record o.supervisor { route_mode = mode } }) h
    where
      either :
          (b : Bool) (x : Error) (y : CliOptions)
          → ◌≡◌ {A = Result CliOptions}
              (if◌then◌else◌ {A = Result CliOptions × M.net.World} b (err x, w) (ok y, w)).0
              (ok made)
          → modes made ≡ modes y
      either true x y k = cc
      either false x y k = let q : y ≡ made = cc in ap modes (sym q)

  apply_routing-modes :
      (o : CliOptions) → Gives (λ q. modes q ≡ modes o) (apply_routing (files M) o)
  unfolding apply_routing
  apply_routing-modes o =
      Gives-bind _ _ (λ mode. record { at = λ w q h. routed-modes o mode _ q h })

  apply_paths-modes :
      (o : CliOptions) (w : M.net.World)
      → Gives (λ q. modes q ≡ modes o) (apply_paths (place M w) M.make_dir o)
  unfolding apply_paths fill_paths
  apply_paths-modes o w =
      Gives-bind _ _ (λ resolved. Gives-bind _ _ (λ made. Gives-then _ _ (Gives-pure _ refl)))

  configured-IsIdle :
      (o : CliOptions) → (o.refresh ≡ true) ⊎ (o.dump ≡ true) → Keeps IsIdle (configured M S o)
  unfolding configured
  configured-IsIdle o c =
      Keeps-bind_known IsIdle-IsPreorder (λ q. modes q ≡ modes o) _ _
        (on_world-Gives _ _ (λ w q h. (apply_routing-modes o).at w q h)) (on_world-IsIdle _)
        (λ q e. Keeps-bind IsIdle-IsPreorder _ _ (Keeps-gets IsIdle-IsPreorder _) (λ built.
          Keeps-bind IsIdle-IsPreorder _ _ (Keeps-lift IsIdle-IsPreorder built)
            (λ h. hardened-IsIdle q h (carried q e c))))
    where
      carried :
          (q : CliOptions)
          → modes q ≡ modes o
          → (o.refresh ≡ true) ⊎ (o.dump ≡ true)
          → (q.refresh ≡ true) ⊎ (q.dump ≡ true)
      carried q e (inl r) = inl (ap (λ m. m.1) e ∙ r)
      carried q e (inr d) = inr (ap (λ m. m.2) e ∙ d)

  located-IsIdle : (o : CliOptions) → IsOffline (modes o) → Keeps IsIdle (located M S o)
  unfolding located
  located-IsIdle o (inl f) = taken o.fetch_rules _ _ f (fetch_rules-IsIdle _)
  located-IsIdle o (inr c) =
      Keeps-if IsIdle-IsPreorder o.fetch_rules _ _ (fetch_rules-IsIdle _) (configured-IsIdle o c)

  -- With `-fetch-rules`, `-refresh` or `-dump-config`, xray-core is left as it is, whatever goes
  -- wrong.
  pub execute-core :
      (o : CliOptions) → IsOffline (modes o) → (p : Process M) → (execute M S o p).1.core ≡ p.core
  unfolding execute
  execute-core o c p =
      (Keeps-bind_known IsIdle-IsPreorder (λ q. modes q ≡ modes o) _ _
          (on_world-Gives _ _ (λ w q h. (apply_paths-modes o w).at w q h)) (on_world-IsIdle _)
          (λ q e. located-IsIdle q (subst IsOffline (sym e) c))).at
        p
