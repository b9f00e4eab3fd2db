-- ===== src/Control/Exec.antt =====
-- The session's actions: they read and change its state, and may fail. Everything outside the
-- process is an environment, whose answers may depend on all that it was asked before.
pub mod Rules
use Prim.Native.Nat.{ℕ}
use tunnet_lite.Base.{String, List, Option, none, some, Error, Result, ok, err}
use tunnet_lite.Base.Action.{Action, or_error}
use tunnet_lite.Base.Int.{ℤ}
use tunnet_lite.Inventory.{Inventory}
use tunnet_lite.Control.Directory.{Directory}

-- `Identity` of internal/control/identity.go.
pub record Identity : Type 0 where
  pub client_id : String
  pub signing_key : List ℕ
  pub pending_ticket : String

-- `identityFile`
pub record IdentityFile : Type 0 where
  pub client_id : String
  pub signing_key : String
  pub pending_ticket : String

-- `BootstrapResult` of internal/control/client.go. `retry_after` is in nanoseconds.
pub record BootstrapResult : Type 0 where
  pub state : String
  pub ticket : String
  pub retry_after : ℤ
  pub raw : String

-- The calls of the client, the file system and the clock, with the JSON codecs.
pub record Env : Type 1 where
  pub World : Type 0
  -- `Client.Sync`, from the client id and the version
  pub sync : String → String → World → Result String × World
  -- `Client.Access`, from the ticket and the version
  pub access : String → String → World → Result String × World
  -- `Client.Bootstrap`, from the client id and the version
  pub bootstrap : String → String → World → Result BootstrapResult × World
  -- `Client.Authorize`, from the verification URL and the ticket
  pub authorize : String → String → World → Option Error × World
  -- the wait for a time or the end of the context: its error if the context ended first
  pub wait : ℤ → World → Option Error × World
  -- `os.MkdirAll(filepath.Dir(path), 0o700)`
  pub make_parent : String → World → Option Error × World
  -- `os.WriteFile(path, data, 0o600)`
  pub write_file : String → String → World → Option Error × World
  -- `os.ReadFile(path)`
  pub read_file : String → World → Result String
  -- `json.Unmarshal` into a directory, an inventory, and the release block of `MinimumVersion`
  pub decode_directory : String → Result Directory
  pub decode_inventory : String → Result Inventory
  pub decode_release : String → Result String
  -- `json.MarshalIndent` of an inventory and of an identity
  pub encode_inventory : Inventory → String
  pub encode_identity : IdentityFile → String
  -- `url.Parse`: the host of a URL and its text as `String` renders it
  pub parse_url : String → Option (String × String)

pub record State (World : Type 0) : Type 0 where
  pub identity : Identity
  pub app_version : String
  pub world : World

abbrev pub Exec : Type 0 → Type 0 → Type 0
Exec World A = Action (State World) A

module _ {World : Type 0} where
  -- A call of the environment.
  unfoldable pub call : {A : Type 0} → (World → Result A × World) → Exec World A
  call f s = let (r, w) = f s.world in (r, record s { world = w })

  -- A call that gives nothing but an error, which is nil if all went well.
  unfoldable pub call_unit : (World → Option Error × World) → Exec World (Unit {0})
  call_unit f s = let (e, w) = f s.world in (or_error e, record s { world = w })
