-- ===== src/Tests/Resolvers.antt =====
-- The resolver, the updater and the places of the files, on concrete data.
use tunnet_lite.Base.{
  ℕ, suc, String, ◌<>◌, Bool, true, false, not, ◌||◌, List, [], ◌∷◌, none, some, errorf, ok, err,
  ◌==◌, string_eq, ◌≡◌, refl, if◌then◌else◌,
}
use tunnet_lite.Base.Int.{pos}
use tunnet_lite.Resolver.{
  Net, a_resource, validate_upstreams, query_each, check_upstreams, check_upstream, check_url,
}
use tunnet_lite.Resolver.Laws.{Queries, query_each-Queries}
use tunnet_lite.Updater.{Updater, tick, done, watch}
use tunnet_lite.Updater.Laws.{Watched, watch-reports}
use tunnet_lite.Paths.{Place, Paths, resolve, with_legacy, paths_in, default_place, place_in}
use tunnet_lite.Paths.Laws.{IsSettled, resolve-IsSettled}
use tunnet_lite.Base.Texts.{trim_space}
use tunnet_lite.Tests.Data.{first_inventory}
use tunnet_lite.Tests.Sessions.{script, paths, begin}

-- The first upstream is down.
abbrev pub lines : Net
lines = record {
  World = ℕ;
  post = λ url wire w. if url == "https://a" then (err (errorf "refused" []), suc w) else (
    ok (record {
      status_code = 200;
      status = "200 OK";
      content_type = "application/dns-message";
      body = [];
      broken = none;
    }),
    suc w,
  );
  media_type = λ text. ok text;
  new_name = λ name. ok tt;
  pack = λ query. ok [];
  unpack = λ bytes. ok (record { response = true; rcode = 0; answers = a_resource (1 ∷ []) ∷ [] });
  parse_url = λ text. ok (record { scheme = "https"; has_user = false; hostname = "223.5.5.5" });
  is_ip = λ text. text == "223.5.5.5";
  show_rcode = λ n. "";
  show_kind = λ k. "A";
  message = λ e. "";
}

abbrev pub upstreams : List String
upstreams = "https://223.5.5.5/dns-query" ∷ "https://1.12.12.12/dns-query" ∷ []

is_valid : validate_upstreams lines [] ≡ ok upstreams
unfolding validate_upstreams check_upstreams check_upstream check_url string_eq trim_space
is_valid = refl

query_each-Queries_example :
    Queries lines []
      ("https://a" ∷ "https://b" ∷ [])
      0
      (query_each lines "name" [] ("https://a" ∷ "https://b" ∷ []) [] 0)
query_each-Queries_example =
    query_each-Queries lines "name" [] ("https://a" ∷ "https://b" ∷ []) [] 0

abbrev watcher : Updater
watcher = record { has_session = true; interval = pos 60000000000; has_callback = true }

abbrev never : ℕ → Bool
never w = false

watch-reports_example :
    Watched script never paths watcher
      (tick ∷ tick ∷ done ∷ [])
      (some first_inventory)
      begin
      (watch script never paths watcher (tick ∷ tick ∷ done ∷ []) (some first_inventory) begin).0
watch-reports_example =
    watch-reports script never paths watcher (tick ∷ tick ∷ done ∷ []) (some first_inventory) begin

-- There is an identity of an earlier version, and nothing else.
abbrev place : Place
place = record {
  home = "";
  user_config_dir = ok "/home/me/.config";
  there = λ path. path == "tunnet-lite-identity.json";
  join = λ dir name. dir <> ("/" <> name);
  absolute = λ path. ok path;
  is_absolute = λ path. true;
}

abbrev base_dir : String
base_dir = "/home/me/.config/tunnet-lite"

abbrev found_paths : Paths
found_paths = with_legacy place (paths_in place base_dir) false

is_resolved : resolve place "" ≡ ok found_paths
unfolding resolve string_eq default_place place_in
is_resolved = refl

resolve-IsSettled_example : IsSettled place base_dir found_paths
resolve-IsSettled_example =
    resolve-IsSettled place "/home/me/.config" base_dir found_paths refl refl refl is_resolved

abbrev chosen : String
chosen = "data"

named : not (chosen == "") || not (place.home == "") ≡ true
unfolding string_eq
named = refl
