-- ===== src/Main/Machine/Views.antt =====
-- The machine as each part of the program sees it.
use tunnet_lite.Base.{
  ℕ, String, Bool, true, false, List, [], ◌∷◌, Option, none, some, Error, Result, ok, err,
}
use tunnet_lite.Base.Action.{Action, pure, ◌>>=◌}
use tunnet_lite.Pinning.{Disk, verify}
use tunnet_lite.Paths.{Place}
use tunnet_lite.Probe.{Tcp, dial}
use tunnet_lite.Resolver
use tunnet_lite.Resolver.{Message, Query, Kind}
use tunnet_lite.Supervisor
use tunnet_lite.Xcfg.Assets.{Files}
use tunnet_lite.Control.Exec.{Identity, Env}
use tunnet_lite.Control.Identity.{Keys}
use tunnet_lite.Control.Client
use tunnet_lite.Control.Client.{
  Client, Request, Answer, IdentityRequest, TicketRequest, AccessBlock, Outside, new_client,
}
use tunnet_lite.Control.Transport
use tunnet_lite.Control.Transport.{Net, Transport, Hardening}
use tunnet_lite.Main.{Settings}
use tunnet_lite.Main.Machine.{Machine}

-- The error of a call that gives nothing else.
abbrev pub error_of : Result (Unit {0}) → Option Error
error_of (ok u) = none
error_of (err e) = some e

module _ (M : Machine) where
  -- Whether `os.Stat` succeeds.
  abbrev pub there : String → M.net.World → Bool
  there path w = elim (M.stat path w) [ none ↦ true | some e ↦ false ]

  -- What `paths.Resolve` looks at.
  abbrev pub place : M.net.World → Place
  place w = record {
    home = M.home;
    user_config_dir = M.user_config_dir;
    there = λ path. there path w;
    join = M.join;
    absolute = M.absolute;
    is_absolute = M.is_absolute;
  }

  abbrev pub files : Files
  files = record {
    World = M.net.World;
    absolute = M.absolute;
    dir_of = M.dir_of;
    set_location = M.set_location;
    location = M.location;
    there = there;
  }

  abbrev pub disk : Disk
  disk = record {
    World = M.net.World;
    read_file = M.read_file;
    make_parent = M.make_parent;
    write_file = M.write_file;
    encode_pins = M.encode_pins;
    decode_pins = M.decode_pins;
  }

  -- The probes run side by side: each begins in the same world.
  abbrev pub tcp : Tcp
  tcp = record {
    World = M.net.World;
    Conn = M.net.Raw;
    connect = M.connect;
    clock = M.clock;
    close = M.net.close;
  }

  abbrev pub nodes : Supervisor.Outside
  nodes = record {
    World = M.net.World;
    read_file = M.read_file;
    decode_state = M.decode_state;
    encode_state = M.encode_state;
    make_parent = M.make_parent;
    write_file = M.write_file;
    dial = λ timeout w ip. (dial tcp timeout ip 443 w).0;
    draw = M.draw;
    fold = M.fold;
    encode_config = M.encode_config;
  }

  abbrev pub resolver_url : Result Transport.Url → Result Resolver.Url
  resolver_url (err e) = err e
  resolver_url (ok u) =
      ok (record { scheme = u.scheme; has_user = u.has_user; hostname = u.hostname })

  abbrev pub dns : Resolver.Net
  dns = record {
    World = M.net.World;
    post = M.post;
    media_type = M.media_type;
    new_name = M.new_name;
    pack = M.pack;
    unpack = M.unpack;
    parse_url = λ url. resolver_url (M.net.parse_url url);
    is_ip = M.net.is_ip;
    show_rcode = M.show_rcode;
    show_kind = M.show_kind;
    message = M.message;
  }

  abbrev pub keys : Keys M.net.World
  keys = record {
    random = M.random;
    generate_key = M.generate_key;
    public_half = M.public_half;
    decode_identity = M.decode_identity;
  }

  -- The outside of a client whose HTTP client has this transport.
  abbrev pub outside : Transport M.net → Outside
  outside t = record {
    World = M.net.World;
    Key = M.Key;
    random = M.random;
    generate_key = M.generate_exchange_key;
    now = M.now;
    parse_url = M.new_request;
    send = M.send t;
    sha256 = M.sha256;
    sign = M.sign;
    public_half = M.public_half;
    open_sealed = M.open_sealed;
    encode_identity_request = M.encode_identity_request;
    encode_ticket_request = M.encode_ticket_request;
    encode_ticket = M.encode_ticket;
    decode_bootstrap = M.decode_bootstrap;
    text_of = M.text_of;
    origin = M.origin;
  }

  -- The bytes of a payload, as the text that they stand for.
  unfoldable pub as_text : Action M.net.World (List ℕ) → Action M.net.World String
  as_text m = do payload ← m; pure (M.text_of payload)

  -- What a session calls: a client with this endpoint and this identity, whose HTTP client has this
  -- transport, and the machine.
  abbrev pub env : Transport M.net → String → Identity → Env
  env t endpoint id = record {
    World = M.net.World;
    sync = λ client_id version. as_text (Client.sync (outside t) (client client_id version));
    access =
        λ ticket version. as_text (Client.access (outside t) (client id.client_id version) ticket);
    bootstrap = λ client_id version. Client.bootstrap (outside t) (client client_id version);
    authorize =
        λ url ticket w. let (r, v) = Client.authorize (outside t) url ticket w in (error_of r, v);
    wait = M.wait;
    make_parent = M.make_parent;
    write_file = M.write_file;
    read_file = M.read_file;
    decode_directory = M.decode_directory;
    decode_inventory = M.decode_inventory;
    decode_release = M.decode_release;
    encode_inventory = M.encode_inventory;
    encode_identity = M.encode_identity;
    parse_url = M.host_and_text;
  }
    where
      client : String → String → Client
      client client_id version = record (new_client (record id { client_id = client_id })) {
        endpoint = endpoint;
        app_version = version;
      }

  abbrev pub resolver_for : List String → Transport.Resolver M.net
  resolver_for upstreams = record {
    lookup_ip = λ name w. let (r, v) = Resolver.lookup_ip dns upstreams name w in (ips r, v);
    lookup_ech = Resolver.lookup_ech dns upstreams;
  }
    where
      each : List (List ℕ) → List M.net.Ip
      each [] = []
      each (bytes ∷ rest) = M.ip_of bytes ∷ each rest

      ips : Result (List (List ℕ)) → Result (List M.net.Ip)
      ips (ok found) = ok (each found)
      ips (err e) = err e

  -- `Hardening` from the settings: its methods instead of the objects that have them.
  abbrev pub hardening : Settings → Hardening M.net
  hardening s = record {
    resolver = elim s.upstreams [ none ↦ none | some urls ↦ some (resolver_for urls) ];
    ech = s.ech;
    verifier = elim s.store [
      | none ↦ none
      | some store ↦
          some (λ mode host. M.callback store (verify disk M.raw_spki M.sha256 mode host))
    ];
    pin_mode = s.pin_mode;
  }
