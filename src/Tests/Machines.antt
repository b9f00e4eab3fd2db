-- ===== src/Tests/Machines.antt =====
-- A whole machine, on concrete data: its world is its files.
use tunnet_lite.Base.{
  ℕ, zero, suc, String, ◌<>◌, true, false, List, [], ◌∷◌, Option, none, some, Error, errorf,
  not_exist, Result, ok, err, ◌==◌, string_eq, nat_eq, if◌then◌else◌,
}
use tunnet_lite.Base.Int.{pos}
use tunnet_lite.Base.Dict.{Dict, lookup, insert}
use tunnet_lite.Resolver.{https_resource}
use tunnet_lite.Control.Transport.{Net}
use tunnet_lite.Main.Machine.{Machine}
use tunnet_lite.Tests.Sessions.{runtime, synced}
use tunnet_lite.Tests.Services.{core}
use tunnet_lite.Tests.Fetches.{flaky}

abbrev Files : Type 0
Files = Dict String

abbrev pub contents : Option String → Result String
contents none = err not_exist
contents (some text) = ok text

abbrev pub wires : Net
wires = record {
  World = Files;
  Raw = Unit {0};
  Conn = Unit {0};
  Ip = Unit {0};
  Verify = Unit {0};
  parse_url = λ text. ok (record { scheme = "https"; has_user = false; hostname = "223.5.5.5" });
  is_ip = λ text. text == "223.5.5.5";
  show_ip = λ ip. "10.0.0.1";
  lower = λ c. c;
  dial = λ addr w. (ok tt, w);
  handshake = λ c raw w. (ok tt, w);
  ech_accepted = λ conn. true;
  close = λ raw w. w;
  rejection = λ e. none;
  configure_http2 = λ w. (none, w);
}

abbrev pub zeros : ℕ → List ℕ
zeros zero = []
zeros (suc n) = 0 ∷ zeros n

-- The control plane answers a sync with a directory; a DNS server publishes an ECH configuration.
abbrev pub desk : Machine
desk = record {
  net = wires;
  core = core;
  rules = flaky;
  home = "";
  user_config_dir = ok "/home";
  join = λ a b. a <> ("/" <> b);
  absolute = λ path. ok path;
  is_absolute = λ path. true;
  dir_of = λ path. path;
  stat = λ path w. elim (lookup path w) as (λ _. Option Error) [
    | none ↦ some not_exist
    | some text ↦ none
  ];
  read_file = λ path w. contents (lookup path w);
  make_dir = λ path w. (none, w);
  make_parent = λ path w. (none, w);
  write_file = λ path text w. (none, insert path text w);
  set_location = λ dir w. (none, w);
  location = λ name w. name;
  now = λ w. (pos 0, w);
  wait = λ time w. (none, w);
  random = λ n w. (ok (zeros n), w);
  draw = λ w n. 0;
  generate_key = λ w. (ok (zeros 64), w);
  public_half = λ key. key;
  sign = λ key text. [];
  Key = Unit {0};
  generate_exchange_key = λ w. (ok (tt, []), w);
  open_sealed = λ key info text. ok text;
  sha256 = λ bytes. bytes;
  Cert = Unit {0};
  raw_spki = λ cert. [];
  callback = λ store check. tt;
  text_of = λ bytes. "directory";
  message = λ e. "";
  show_time = λ t. "00:00:00";
  fold = λ c. c;
  send = λ transport req w. (
    ok (record {
      status_code = 200;
      status = "200 OK";
      content_type = "application/vnd.tunnet.hpke";
      body = [];
      broken = none;
    }),
    w,
  );
  new_request = λ url. ok ("cp.example", "/api");
  origin = λ url. ok ("https", "cp.example");
  host_and_text = λ url. none;
  post = λ url wire w. (
    ok (record {
      status_code = 200;
      status = "200 OK";
      content_type = "application/dns-message";
      body = [];
      broken = none;
    }),
    w,
  );
  media_type = λ text. ok text;
  new_name = λ name. ok tt;
  pack = λ query. ok [];
  unpack = λ bytes. ok (record {
    response = true;
    rcode = 0;
    answers = https_resource (record { key = 5; value = 1 ∷ [] } ∷ []) ∷ [];
  });
  show_rcode = λ n. "";
  show_kind = λ k. "A";
  ip_of = λ bytes. tt;
  encode_identity_request = λ r. [];
  encode_ticket_request = λ r. [];
  encode_ticket = λ t. [];
  decode_bootstrap = λ bytes. err (errorf "no bootstrap" []);
  decode_directory = λ text. ok (record { runtime = some runtime; bootstrap = none });
  decode_inventory =
      λ text. if text == "inventory\n" then ok synced else err (errorf "no inventory" []);
  decode_release = λ text. err (errorf "no release" []);
  encode_inventory = λ inv. "inventory";
  encode_identity = λ id. "identity";
  decode_identity = λ text. ok (record {
    client_id = "c";
    signing_key =
        "AAAAAAAAAAAAAAAAAAAAAAAAAAAAAAAAAAAAAAAAAAAAAAAAAAAAAAAAAAAAAAAAAAAAAAAAAAAAAAAAAAAAAA";
    pending_ticket = "";
  });
  encode_pins = λ pins. "pins";
  decode_pins = λ text. ok [];
  decode_state = λ text. text;
  encode_state = λ root. root;
  encode_config = λ json. "{}";
  connect = λ timeout addr w. (ok tt, w);
  clock = λ w. (0, w);
}
