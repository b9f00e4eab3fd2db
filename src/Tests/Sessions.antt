-- ===== src/Tests/Sessions.antt =====
-- Sessions against a control plane that answers from a script.
use tunnet_lite.Base.{
  ℕ, true, false, [], ◌∷◌, none, some, errorf, ok, err, string_eq, nat_eq, ◌≡◌, ◌↔◌, refl,
}
use tunnet_lite.Base.Texts.{split}
use tunnet_lite.Base.Base64.{encode, decode}
use tunnet_lite.Inventory.{Inventory}
use tunnet_lite.Inventory.Key.{normalized_key}
use tunnet_lite.Inventory.Check.{validate, check_hosts, check_groups, load}
use tunnet_lite.Inventory.Check.Laws.{IsUsable}
use tunnet_lite.Control.Version.{version_less}
use tunnet_lite.Control.Version.Laws.{IsBefore, version_less_iff}
use tunnet_lite.Control.Directory.{
  RuntimePayload, runtime_of, read_hosts, read_groups, read_front, parse_directory,
}
use tunnet_lite.Base.Action.{pure, lift, gets, attempt, ◌>>=◌, ◌>>◌}
use tunnet_lite.Control.Exec.{Env, State, call, call_unit}
use tunnet_lite.Control.Session.{
  Paths, RefreshOptions, persist, try_sync, call_sync, parse_sync, merge_sync, or_retry, after_sync,
  refresh,
}
use tunnet_lite.Control.Session.Usable.{refresh-IsUsable}
use tunnet_lite.Control.Session.Ticket.{ticket_of, Settled, refresh-Settled}
use tunnet_lite.Control.Session.Evolves.{Evolves, refresh-Evolves}
use tunnet_lite.Tests.Data.{zero_key}

abbrev pub runtime : RuntimePayload
runtime = record {
  client_id = "c";
  entry_nodes = record { name = "north"; ipv4 = "1.1.1.1" ∷ []; front_proxy = none } ∷ [];
  hosts = record { name = "Tokyo"; slug = "jp"; online = true; key = zero_key } ∷ [];
  root_domains = "a.example" ∷ [];
}

-- The sync is answered with a directory; nothing else is asked.
abbrev pub script : Env
script = record {
  World = ℕ;
  sync = λ id version w. (ok "directory", w);
  access = λ ticket version w. (err (errorf "no access" []), w);
  bootstrap = λ id version w. (err (errorf "no bootstrap" []), w);
  authorize = λ url ticket w. (none, w);
  wait = λ time w. (none, w);
  make_parent = λ path w. (none, w);
  write_file = λ path contents w. (none, w);
  read_file = λ path w. err (errorf "no file" []);
  decode_directory = λ text. ok (record { runtime = some runtime; bootstrap = none });
  decode_inventory = λ text. err (errorf "no inventory" []);
  decode_release = λ text. err (errorf "no release" []);
  encode_inventory = λ inv. "inventory";
  encode_identity = λ id. "identity";
  parse_url = λ url. none;
}

abbrev pub paths : Paths
paths = record { identity = "id.json"; inventory = "nodes.json" }

abbrev options : RefreshOptions
options = record { auto_approve = false; verification_url = "" }

abbrev pub begin : State ℕ
begin = record {
  identity = record { client_id = "c"; signing_key = []; pending_ticket = "" };
  app_version = "1.0.26";
  world = 0;
}

abbrev pub synced : Inventory
synced = record {
  client_id = "c";
  root_domains = "a.example" ∷ [];
  hosts = record { slug = "jp"; name = "Tokyo"; key = zero_key; online = true } ∷ [];
  entry_groups = record { name = "north"; ipv4 = "1.1.1.1" ∷ []; front_proxy = none } ∷ [];
}

refresh_syncs : (refresh script paths options begin).0 ≡ ok synced
unfolding refresh try_sync call_sync parse_sync merge_sync or_retry after_sync persist
    parse_directory runtime_of read_hosts read_groups read_front validate check_hosts check_groups
    normalized_key decode encode load gets call call_unit lift attempt pure ◌>>=◌ ◌>>◌ string_eq
    nat_eq
refresh_syncs = refl

refresh-IsUsable_example : IsUsable synced
refresh-IsUsable_example = refresh-IsUsable script paths options begin synced refresh_syncs

refresh-Evolves_example : Evolves begin (refresh script paths options begin).1
refresh-Evolves_example = refresh-Evolves script paths options begin

version_less_iff_example :
    (version_less "1.9" "1.10.0" ≡ true) ↔ IsBefore (split "1.9" b'.') (split "1.10.0" b'.')
version_less_iff_example = version_less_iff "1.9" "1.10.0"

refresh-Settled_example :
    Settled script paths
      (ticket_of begin)
      (try_sync script paths begin).0
      (refresh script paths options begin).1
refresh-Settled_example = refresh-Settled script paths options begin synced refresh_syncs
