-- ===== src/Main/Machine.antt =====
-- What the process finds around it: the network, the files, the clock, random numbers, keys, codecs
-- and xray-core. All act on the same world, but for xray-core and the files of the rule sets.
pub mod Views
use tunnet_lite.Base.{
  ℕ, String, Bool, true, false, List, [], ◌∷◌, Option, none, some, Error, Result, ok, err,
}
use tunnet_lite.Base.Int.{ℤ}
use tunnet_lite.Base.Dict.{Dict}
use tunnet_lite.Base.Action.{Action, pure, ◌>>=◌}
use tunnet_lite.Inventory.{Inventory}
use tunnet_lite.Engine.{Core}
use tunnet_lite.Pinning.{Store, Disk, verify}
use tunnet_lite.Paths.{Place}
use tunnet_lite.Probe.{Tcp, dial}
use tunnet_lite.Resolver
use tunnet_lite.Resolver.{Message, Query, Kind}
use tunnet_lite.Rules
use tunnet_lite.Supervisor
use tunnet_lite.Xcfg.Json.{Json}
use tunnet_lite.Xcfg.Assets.{Files}
use tunnet_lite.Control.Exec.{Identity, IdentityFile, Env}
use tunnet_lite.Control.Directory.{Directory}
use tunnet_lite.Control.Identity.{Keys}
use tunnet_lite.Control.Client
use tunnet_lite.Control.Client.{
  Client, Request, Answer, IdentityRequest, TicketRequest, AccessBlock, Outside, new_client,
}
use tunnet_lite.Control.Transport
use tunnet_lite.Control.Transport.{Net, Transport, Hardening}
use tunnet_lite.Main.{Settings}

pub record Machine : Type 1 where
  -- TLS and TCP, with the world
  pub net : Net
  pub core : Core
  pub rules : Rules.Net
  -- the environment and the paths
  pub home : String
  pub user_config_dir : Result String
  pub join : String → String → String
  pub absolute : String → Result String
  pub is_absolute : String → Bool
  pub dir_of : String → String
  -- `os.Stat`: its error; and `os.ReadFile`
  pub stat : String → net.World → Option Error
  pub read_file : String → net.World → Result String
  -- `os.MkdirAll(path, 0o700)`, and of `filepath.Dir(path)`; `os.WriteFile(path, data, 0o600)`
  pub make_dir : String → net.World → Option Error × net.World
  pub make_parent : String → net.World → Option Error × net.World
  pub write_file : String → String → net.World → Option Error × net.World
  -- the asset location of xray-core
  pub set_location : String → net.World → Option Error × net.World
  pub location : String → net.World → String
  -- the clock, and a wait that the end of the context may cut
  pub now : net.World → ℤ × net.World
  pub wait : ℤ → net.World → Option Error × net.World
  -- random numbers and keys: `rand.Read`, ed25519 and X25519
  pub random : ℕ → net.World → Result (List ℕ) × net.World
  pub draw : net.World → ℕ → ℕ
  pub generate_key : net.World → Result (List ℕ) × net.World
  pub public_half : List ℕ → List ℕ
  pub sign : List ℕ → List ℕ → List ℕ
  pub Key : Type 0
  pub generate_exchange_key : net.World → Result (Key × List ℕ) × net.World
  pub open_sealed : Key → List ℕ → List ℕ → Result (List ℕ)
  pub sha256 : List ℕ → List ℕ
  -- certificates: the raw key of one, and a callback as crypto/tls takes it
  pub Cert : Type 0
  pub raw_spki : Cert → List ℕ
  pub callback :
      Store
      → (List (List Cert) → Store → net.World → Result (Unit {0}) × Store × net.World)
      → net.Verify
  -- texts
  pub text_of : List ℕ → String
  pub message : Error → String
  pub show_time : ℕ → String
  pub fold : ℕ → ℕ
  -- `http.Client.Do` with a transport, and the parts of a URL of `http.NewRequestWithContext`
  pub send : Transport net → Request → net.World → Result Answer × net.World
  pub new_request : String → Result (String × String)
  -- `url.Parse`: the scheme and the host, and the host and the text
  pub origin : String → Result (String × String)
  pub host_and_text : String → Option (String × String)
  -- DNS messages over HTTP
  pub post : String → List ℕ → net.World → Result Resolver.Answer × net.World
  pub media_type : String → Result String
  pub new_name : String → Result (Unit {0})
  pub pack : Query → Result (List ℕ)
  pub unpack : List ℕ → Result Message
  pub show_rcode : ℕ → String
  pub show_kind : Kind → String
  pub ip_of : List ℕ → net.Ip
  -- the JSON codecs
  pub encode_identity_request : IdentityRequest → List ℕ
  pub encode_ticket_request : TicketRequest → List ℕ
  pub encode_ticket : String → List ℕ
  pub decode_bootstrap : List ℕ → Result AccessBlock
  pub decode_directory : String → Result Directory
  pub decode_inventory : String → Result Inventory
  pub decode_release : String → Result String
  pub encode_inventory : Inventory → String
  pub encode_identity : IdentityFile → String
  pub decode_identity : String → Result IdentityFile
  pub encode_pins : Dict (List String) → String
  pub decode_pins : String → Result (Dict (List String))
  pub decode_state : String → String
  pub encode_state : String → String
  pub encode_config : Json → String
  -- a TCP connection within a timeout, and the monotonic clock
  pub connect : ℤ → String → net.World → Result net.Raw × net.World
  pub clock : net.World → ℕ × net.World
