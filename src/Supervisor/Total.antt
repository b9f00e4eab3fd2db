-- ===== src/Supervisor/Total.antt =====
-- `Resolve` does not panic.
use tunnet_lite.Base.{ℕ, ◌<◌, String, List, Option, none, some, Result, ok, err, ◌≢◌, refl}
use tunnet_lite.Base.Int.{ℤ}
use tunnet_lite.Probe.{Probed}
use tunnet_lite.Engine.{Plan}
use tunnet_lite.Xcfg.Json.{Json}
use tunnet_lite.Xcfg.Total.{build-ne-none}
use tunnet_lite.Inventory.{FrontProxy, EntryGroup, Host, Inventory}
use tunnet_lite.Inventory.Check.Laws.{IsUsable}
use tunnet_lite.Inventory.Select.{select_host}
use tunnet_lite.Inventory.Select.Laws.{select_group-ne-none, select_root-ne-none}
use tunnet_lite.Supervisor.{
  Options, Outside, with_plan, assemble, finish, load_state, resolve_root, resolve_group,
  resolve_key, resolve_host, resolve,
}

with_plan-ne-none : (plan : Plan) (q : Option (Result Json)) → q ≢ none → with_plan plan q ≢ none
unfolding with_plan
with_plan-ne-none plan none n h = n refl
with_plan-ne-none plan (some (err e)) n h = cc
with_plan-ne-none plan (some (ok json)) n h = cc

assemble-ne-none :
    (inv : Inventory) (o : Options) (host : Host) (key : String) (group : EntryGroup)
    (root : String) (r : Result (List String × Option FrontProxy))
    → assemble inv o host key group root r ≢ none
unfolding assemble
assemble-ne-none inv o host key group root (err e) h = cc
assemble-ne-none inv o host key group root (ok (entries, front)) h =
    with_plan-ne-none _ _ (build-ne-none _) h

finish-ne-none :
    (dial : ℤ → String → Probed) (inv : Inventory) (o : Options) (host : Host) (key : String)
    (group : EntryGroup) (root : String)
    → finish dial inv o host key group root ≢ none
unfolding finish
finish-ne-none dial inv o host key group root = assemble-ne-none inv o host key group root _

module _ (E : Outside) (inv : Inventory) (o : Options) (u : IsUsable inv)
    (draws : (w : E.World) (n : ℕ) → 0 < n → E.draw w n < n) where
  resolve_root-ne-none :
      (host : Host) (key : String) (group : EntryGroup) (r : Option (Result String)) (w : E.World)
      → r ≢ none
      → (resolve_root E inv o host key group r w).0 ≢ none
  unfolding resolve_root
  resolve_root-ne-none host key group none w n h = n refl
  resolve_root-ne-none host key group (some (err e)) w n h = cc
  resolve_root-ne-none host key group (some (ok root)) w n h =
      finish-ne-none _ inv o host key group root h

  resolve_group-ne-none :
      (host : Host) (key : String) (r : Option (Result EntryGroup)) (w : E.World)
      → r ≢ none
      → (resolve_group E inv o host key r w).0 ≢ none
  unfolding resolve_group
  resolve_group-ne-none host key none w n h = n refl
  resolve_group-ne-none host key (some (err e)) w n h = cc
  resolve_group-ne-none host key (some (ok group)) w n h =
      resolve_root-ne-none host key group _ w
        (select_root-ne-none (E.draw w) inv o.root_domain (load_state E o.state_path w) (draws w) u)
        h

  resolve_key-ne-none :
      (host : Host) (r : Result String) (w : E.World) → (resolve_key E inv o host r w).0 ≢ none
  unfolding resolve_key
  resolve_key-ne-none host (err e) w h = cc
  resolve_key-ne-none host (ok key) w h =
      resolve_group-ne-none host key _ w (select_group-ne-none E.fold inv o.entry_group u) h

  resolve_host-ne-none : (r : Result Host) (w : E.World) → (resolve_host E inv o r w).0 ≢ none
  unfolding resolve_host
  resolve_host-ne-none (err e) w h = cc
  resolve_host-ne-none (ok host) w h = resolve_key-ne-none host _ w h

  -- On a usable inventory, and if a number drawn below n is below n, `Resolve` does not panic: it
  -- returns a plan or an error, whatever the dials and the state file give.
  pub resolve-ne-none : (w : E.World) → (resolve E inv o w).0 ≢ none
  unfolding resolve
  resolve-ne-none w h = resolve_host-ne-none (select_host inv o.host_slug) w h
