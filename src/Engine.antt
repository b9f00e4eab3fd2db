-- ===== src/Engine.antt =====
-- internal/engine/engine.go. The engine's mutex is held for the whole of each operation, so each is
-- one step. `plan` is a pointer: none is nil. xray-core and the clock are a parameter.
pub mod Laws
pub mod Sole
use tunnet_lite.Base.{
  ℕ, String, Bool, true, false, List, [], ◌∷◌, Option, none, some, Error, wrapf, Result, ok, err,
}
use tunnet_lite.Base.Int.{ℤ}
use tunnet_lite.Base.Dict.{is_some}

pub record Plan : Type 0 where
  pub host_slug : String
  pub host_name : String
  pub logical_host : String
  pub root_domain : String
  pub group_name : String
  pub front_proxy : String
  pub entries : List String
  pub udp : Bool
  pub route_mode : String
  pub listen : String
  pub port : ℤ

pub record Core : Type 1 where
  pub World : Type 0
  pub Config : Type 0
  pub Instance : Type 0
  -- `core.LoadConfig("json", bytes)`
  pub load_config : String → Result Config
  -- `core.New`
  pub create : Config → World → Result Instance × World
  -- `Instance.Start` and `Instance.Close`
  pub start : Instance → World → Option Error × World
  pub close : Instance → World → Option Error × World
  -- `time.Now`
  pub now : World → ℕ
  -- `error.Error`: the text of an error
  pub render : Error → String

-- `Status`. A time that is zero is none.
pub record Status : Type 0 where
  pub running : Bool
  pub plan : Option Plan
  pub started_at : Option ℕ
  pub last_error : String

module _ (C : Core) where
  pub record Engine : Type 0 where
    pub inst : Option C.Instance
    pub plan : Option Plan
    pub started_at : Option ℕ
    pub last_err : String

  -- `New`
  abbrev pub new_engine : Engine
  new_engine = record { inst = none; plan = none; started_at = none; last_err = "" }

  -- `stopLocked`, by what is running.
  unfoldable pub stop_instance :
      Option C.Instance → Engine → C.World → Option Error × Engine × C.World
  stop_instance none e w = (none, e, w)
  stop_instance (some inst) e w =
      let (failed, v) = C.close inst w in
      (failed, record e { inst = none; plan = none; started_at = none }, v)

  -- `Stop`
  unfoldable pub stop : Engine → C.World → Option Error × Engine × C.World
  unfolding stop_instance
  stop e w = stop_instance e.inst e w

  -- `failLocked`
  unfoldable pub fail : Error → Engine → C.World → Option Error × Engine × C.World
  fail x e w = (some x, record e { last_err = C.render x }, w)

  -- `Apply` from the answer of `inst.Start` on.
  unfoldable pub after_start :
      Plan → C.Instance → Option Error → Engine → C.World → Option Error × Engine × C.World
  unfolding fail
  after_start plan inst (some x) e w =
      let (ignored, v) = C.close inst w in fail (wrapf "start instance: %w" [] x) e v
  after_start plan inst none e w = (
    none,
    record { inst = some inst; plan = some plan; started_at = some (C.now w); last_err = "" },
    w,
  )

  -- `Apply` from the answer of `core.New` on.
  unfoldable pub after_create :
      Plan → Result C.Instance → Engine → C.World → Option Error × Engine × C.World
  unfolding fail after_start
  after_create plan (err x) e w = fail (wrapf "create instance: %w" [] x) e w
  after_create plan (ok inst) e w =
      let (failed, v) = C.start inst w in after_start plan inst failed e v

  -- `Apply` from the answer of `core.LoadConfig` on.
  unfoldable pub after_load :
      Plan → Result C.Config → Engine → C.World → Option Error × Engine × C.World
  unfolding fail after_create
  after_load plan (err x) e w = fail (wrapf "load config: %w" [] x) e w
  after_load plan (ok cfg) e w = let (created, v) = C.create cfg w in after_create plan created e v

  -- `Apply`
  unfoldable pub apply : Plan → String → Engine → C.World → Option Error × Engine × C.World
  unfolding stop after_load
  apply plan config e w =
      let (ignored, f, v) = stop e w in after_load plan (C.load_config config) f v

  -- `Engine.Status`
  unfoldable pub status : Engine → Status
  status e = record {
    running = is_some e.inst;
    plan = e.plan;
    started_at = e.started_at;
    last_error = e.last_err;
  }
