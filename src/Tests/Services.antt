-- ===== src/Tests/Services.antt =====
-- Pins, the engine, the ranking, the rendered configuration and the supervisor, on concrete data.
use mathlib.Core.List.{Permᴰ}
use mathlib.Core.Option.{some-injective}
use tunnet_lite.Base.{arith, ◌≢◌, Bool, inr, sym, ap, ==_iff}
use tunnet_lite.Base.{
  ℕ, zero, suc, String, ◌<>◌, true, false, not, List, [], ◌∷◌, ◌++◌, Option, none, some, map,
  select, any, contains, is_empty, length, Error, errorf, ok, err, ◌==◌, string_eq, nat_eq, ◌≡◌,
  ◌⊎◌, refl, if◌then◌else◌,
}
use tunnet_lite.Base.Int.{ℤ, pos, pos_part, ◌<ℤ◌}
use tunnet_lite.Base.Int
use tunnet_lite.Base.Address.{split_host_port, trim_slash, cut}
use tunnet_lite.Base.Numerals.{itoa}
use tunnet_lite.Base.Dict
use tunnet_lite.Base.Sort
use tunnet_lite.Base.Sort.Order.{IsSorted}
use tunnet_lite.Base.Texts.{trim_space, trim_prefix, has_prefix, cut_prefix, has_substring, atoi}
use tunnet_lite.Base.Texts.Order.{less}
use tunnet_lite.Base.Base64.{encode, decode}
use tunnet_lite.Pinning.{
  Store, Disk, open_store, open_contents, validate_pins, validate_pin_entry, check_values, is_pin,
  get, set, spki, add_pin, add_chain, add_chains, chain_pins, decide, verify,
}
use tunnet_lite.Pinning.Laws.{IsEntry, IsPins}
use tunnet_lite.Base.Base64.Laws.{IsBytes}
use tunnet_lite.Pinning.First.{verify-first}
use Prim.Native.Nat.{◌%◌}
use tunnet_lite.Pinning.Verify.{verify-Matches, verify-outcome, verify-IsPins}
use tunnet_lite.Engine.{
  Plan, Core, Engine, new_engine, apply, status, stop, stop_instance, after_load, after_create,
  after_start,
}
use tunnet_lite.Engine.Laws.{Reaches, fresh, applied, IsConsistent, IsOutcome, status-IsConsistent}
use tunnet_lite.Engine.Sole.{IsCore, IsSole, apply-IsOutcome}
use tunnet_lite.Probe.{Probed, is_up, sooner, rank_tcp, reachable}
use tunnet_lite.Probe.Laws.{rank_tcp-IsRanked}
use tunnet_lite.Xcfg
use tunnet_lite.Xcfg.{apply_defaults, pick_timeout, pick_interval}
use tunnet_lite.Xcfg.Bounds.{apply_defaults-rounds}
use tunnet_lite.Xcfg.Json.{Json, text}
use tunnet_lite.Xcfg.Render.{
  build, build_with, with_front, config_from, front_outbounds, split_endpoint, entry_tags,
  entry_outbounds, config, direct_outbound,
}
use tunnet_lite.Xcfg.References.{
  tag_of, outbounds_of, fallback_of, as_texts, front_tags, build-tags,
}
use tunnet_lite.Supervisor
use tunnet_lite.Supervisor.{
  Outside, rank_entries, dial_timeout, cut_entries, resolve_host, resolve_key, resolve_group,
  resolve_root, choose_path, assemble, with_plan, keep_root, load_state, save_state, finish,
  choose_front, plan_of, render_options,
}
use tunnet_lite.Inventory.Key.{normalized_key}
use tunnet_lite.Inventory.Select.{
  select_host, select_host_from, select_group, select_group_from, select_root, equal_fold,
}
use tunnet_lite.Supervisor.Laws.{IsKept, answered, rank_entries-IsKept}
use tunnet_lite.Supervisor.Resolved.{IsResolved, resolve-IsResolved}
use tunnet_lite.Tests.Data.{zero_key, front, north, first_inventory}

abbrev pub shelf : Disk
shelf = record {
  World = ℕ;
  read_file = λ path w. ok "pins";
  make_parent = λ path w. (none, w);
  write_file = λ path contents w. (none, suc w);
  encode_pins = λ pins. "pins";
  decode_pins = λ contents. ok [];
}

abbrev blank : Store
blank = record { path = "pins.json"; pins = [] }

-- A certificate is the byte that its hash repeats.
abbrev repeat : ℕ → ℕ → List ℕ
repeat zero b = []
repeat (suc n) b = b ∷ repeat n b

abbrev raw : ℕ → List ℕ
raw b = b ∷ []

abbrev hash : List ℕ → List ℕ
hash [] = []
hash (b ∷ l) = repeat 32 b

abbrev strict : String
strict = "strict"

-- A hash of 32 bytes for every text.
abbrev hash_byte : List ℕ → List ℕ
hash_byte [] = repeat 32 0
hash_byte (b ∷ l) = repeat 32 (b % 256)

abbrev chains : List (List ℕ)
chains = (7 ∷ 9 ∷ []) ∷ (7 ∷ []) ∷ []

accepted : (verify shelf raw hash "tofu" "h" chains blank 0).0 ≡ ok tt
unfolding verify decide chain_pins add_chains add_chain add_pin spki encode get set
    validate_pin_entry check_values is_pin decode trim_space Dict.lookup string_eq nat_eq
accepted = refl

verify-Matches_example :
    any
      (λ p. contains (get (verify shelf raw hash "tofu" "h" chains blank 0).1 "h") p)
      (chain_pins raw hash chains)
    ≡ true
verify-Matches_example = verify-Matches shelf raw hash "tofu" "h" chains blank 0 accepted

verify-outcome_example :
    let t = (verify shelf raw hash strict "h" chains blank 0).1 in
    let present = chain_pins raw hash chains in
    (t ≡ blank)
    ⊎ ((is_empty (get blank "h") ≡ true)
        × ((strict == "strict") ≡ false)
        × IsEntry "h" present
        × (t ≡ record blank { pins = Dict.insert "h" (Sort.sort less present) [] }))
verify-outcome_example = verify-outcome shelf raw hash strict "h" chains blank 0

verify-IsPins_example : IsPins ((verify shelf raw hash "tofu" "h" chains blank 0).1).pins
verify-IsPins_example = verify-IsPins shelf raw hash "tofu" "h" chains blank 0 tt

repeat-IsBytes : (l : List ℕ) → IsBytes (hash_byte l)
repeat-IsBytes [] = omega arith
repeat-IsBytes (b ∷ l) = omega arith

length-hash_byte : (l : List ℕ) → length (hash_byte l) ≡ 32
length-hash_byte [] = refl
length-hash_byte (b ∷ l) = refl

tofu_differs : ("tofu" == strict) ≡ false
unfolding string_eq
tofu_differs = refl

named : trim_space "h" ≢ ""
unfolding trim_space
named e = cc

unknown : is_empty (get blank "h") ≡ true
unfolding get Dict.lookup
unknown = refl

present : is_empty (chain_pins raw hash_byte chains) ≡ false
unfolding chain_pins add_chains add_chain add_pin spki encode string_eq nat_eq
present = refl

verify-first_example : (verify shelf raw hash_byte "tofu" "h" chains blank 0).0 ≡ ok tt
verify-first_example =
    verify-first raw hash_byte repeat-IsBytes length-hash_byte shelf blank (λ w. refl) (λ c w. refl)
      "tofu" "h" chains 0 tofu_differs named unknown present

opened : open_store shelf "pins.json" 0 ≡ ok blank
unfolding open_store open_contents validate_pins trim_space string_eq nat_eq
opened = refl

pub refuse : String → Option Error
refuse i = if i == "bad" then some (errorf "refused" []) else none

-- A core whose configurations and instances are texts, and which refuses the text "bad".
abbrev pub core : Core
core = record {
  World = ℕ;
  Config = String;
  Instance = String;
  load_config = λ t. ok t;
  create = λ c w. (ok c, w);
  start = λ i w. (refuse i, suc w);
  close = λ i w. (none, suc w);
  now = λ w. w;
  render = λ e. "failed";
}

abbrev sample : Plan
sample = record {
  host_slug = "jp";
  host_name = "Tokyo";
  logical_host = "jp.a.example";
  root_domain = "a.example";
  group_name = "north";
  front_proxy = "";
  entries = "1.1.1.1" ∷ [];
  udp = false;
  route_mode = "global";
  listen = "127.0.0.1";
  port = pos 1080;
}

abbrev running : Engine core
running = (apply core sample "{}" (new_engine core) 0).1

running-Reaches : Reaches core running
running-Reaches = applied (new_engine core) sample "{}" 0 fresh

status-IsConsistent_example : IsConsistent (status core running)
status-IsConsistent_example = status-IsConsistent core running running-Reaches

-- A core that keeps what runs.
abbrev keeper : Core
keeper = record {
  World = Option String;
  Config = String;
  Instance = String;
  load_config = λ t. ok t;
  create = λ c w. (ok c, w);
  start = λ i w. (refuse i, some i);
  close = λ i w. (none, none);
  now = λ w. 0;
  render = λ e. "failed";
}

alive : Option String → String → Bool
alive none j = false
alive (some i) j = i == j

keeper-IsCore : IsCore keeper alive
unfolding alive
keeper-IsCore = record {
  create = λ c w j h. h;
  start = λ i w j h. inr (sym ((==_iff i j).0 h));
  started = λ i w h. (==_iff i i).1 refl;
  close = λ i w j h. cc;
}

abbrev served : Engine keeper
served = (apply keeper sample "{}" (new_engine keeper) none).1

served-IsSole : IsSole keeper alive served.inst (some "{}")
unfolding alive apply stop stop_instance after_load after_create after_start refuse string_eq
served-IsSole = record {
  recorded = λ j h. ap some ((==_iff "{}" j).0 h);
  runs = λ j h. (==_iff "{}" j).1 (some-injective "{}" j h);
}

apply-IsOutcome_example :
    IsOutcome keeper sample
      (apply keeper sample "bad" served (some "{}")).0
      (apply keeper sample "bad" served (some "{}")).1
    × IsSole keeper alive
        (apply keeper sample "bad" served (some "{}")).1.inst
        (apply keeper sample "bad" served (some "{}")).2
apply-IsOutcome_example =
    apply-IsOutcome keeper alive keeper-IsCore served sample "bad" (some "{}")
      (applied (new_engine keeper) sample "{}" none fresh) served-IsSole

-- The first address is slow, the third does not answer.
pub dial : String → Probed
dial ip =
    if ip == "1.1.1.1"
    then record { ip = ip; rtt = pos 9; failure = none }
    else if ip == "2.2.2.2"
    then record { ip = ip; rtt = pos 5; failure = none }
    else record { ip = ip; rtt = pos 0; failure = some (errorf "timeout" []) }

abbrev ips : List String
ips = "1.1.1.1" ∷ "2.2.2.2" ∷ "3.3.3.3" ∷ []

rank_tcp-IsRanked_example :
    let ranked = rank_tcp dial ips in
    Permᴰ ranked (map dial ips)
    × (ranked ≡ select is_up ranked ++ select (λ r. not (is_up r)) ranked)
    × IsSorted (λ a b. Int.ltb a.rtt b.rtt) (select is_up ranked)
    × (reachable ranked ≡ map (λ r. r.ip) (select is_up ranked))
rank_tcp-IsRanked_example = rank_tcp-IsRanked dial ips

ranked_by_time : reachable (rank_tcp dial ips) ≡ "2.2.2.2" ∷ "1.1.1.1" ∷ []
unfolding reachable rank_tcp sooner is_up dial Sort.sort Sort.insert string_eq
ranked_by_time = refl

abbrev wire : Xcfg.Options
wire = record {
  listen = "";
  port = pos 1080;
  client_id = "c";
  logical_host = "jp.a.example";
  encryption_key = zero_key;
  entries = "2.2.2.2" ∷ "1.1.1.1" ∷ [];
  front_proxy = none;
  udp = false;
  route_mode = "smart";
  domain_strategy = "";
  mode = "";
  rtt = "";
  padding = "";
  flow = "";
  probe_url = "";
  probe_interval = pos 1;
  probe_timeout = pos 20000000000;
  log_level = "";
}

apply_defaults-rounds_example :
    (pos 0 <ℤ (apply_defaults wire).probe_timeout)
    × ((apply_defaults wire).probe_timeout <ℤ (apply_defaults wire).probe_interval)
apply_defaults-rounds_example = apply_defaults-rounds wire refl

rendered : Json
unfolding config_from
rendered =
    config_from (apply_defaults wire) "entry-0"
      (entry_outbounds (apply_defaults wire) 0 wire.entries ++ ([] ++ (direct_outbound ∷ [])))

renders : build wire ≡ some (ok rendered)
unfolding build build_with with_front config entry_tags itoa rendered front_outbounds Xcfg.validate
    apply_defaults string_eq nat_eq
renders = refl

build-tags_example :
    (map tag_of (outbounds_of rendered)
      ≡ as_texts (entry_tags 0 wire.entries ++ (front_tags none ++ ("direct" ∷ []))))
    × (fallback_of rendered ≡ some (text ("entry-" <> itoa 0)))
build-tags_example = build-tags wire rendered renders

port_of_front : split_endpoint front.endpoint ≡ ok ("f.example", pos 80)
unfolding split_endpoint split_host_port trim_slash cut trim_prefix has_prefix cut_prefix
    has_substring atoi string_eq nat_eq
port_of_front = refl

abbrev pub outside : Outside
outside = record {
  World = ℕ;
  read_file = λ path w. err (errorf "no file" []);
  decode_state = λ t. t;
  encode_state = λ r. r;
  make_parent = λ path w. (none, w);
  write_file = λ path contents w. (none, suc w);
  dial = λ timeout w ip. dial ip;
  draw = λ w n. 0;
  fold = λ c. c;
  encode_config = λ j. "{}";
}

abbrev pub choices : Supervisor.Options
choices = record {
  listen = "127.0.0.1";
  port = pos 1080;
  host_slug = "";
  entry_group = "nor";
  root_domain = "";
  no_front = true;
  udp = false;
  route_mode = "global";
  domain_strategy = "";
  assets = "";
  max_entries = pos 1;
  probe_timeout = pos 0;
  probe_url = "";
  health_interval = pos 0;
  health_timeout = pos 0;
  mode = "";
  rtt = "";
  padding = "";
  flow = "";
  state_path = "state.json";
  log_level = "";
}

abbrev dial_any : ℤ → String → Probed
dial_any timeout ip = dial ip

abbrev best : List String
best = "2.2.2.2" ∷ []

fastest : rank_entries dial_any north choices ≡ ok best
unfolding rank_entries dial_timeout cut_entries reachable rank_tcp sooner is_up dial Sort.sort
    Sort.insert string_eq
fastest = refl

rank_entries-IsKept_example : IsKept (answered dial_any north choices) best
rank_entries-IsKept_example = rank_entries-IsKept dial_any north choices best fastest

abbrev planned : Plan
planned = record {
  host_slug = "jp";
  host_name = "Tokyo";
  logical_host = "jp.a.example";
  root_domain = "a.example";
  group_name = "north";
  front_proxy = "";
  entries = best;
  udp = false;
  route_mode = "global";
  listen = "127.0.0.1";
  port = pos 1080;
}

abbrev to_render : Xcfg.Options
to_render = apply_defaults (render_options first_inventory zero_key planned none choices)

resolved_config : Json
resolved_config =
    config_from to_render "entry-0"
      (entry_outbounds to_render 0 best ++ ([] ++ (direct_outbound ∷ [])))

resolves :
    (Supervisor.resolve outside first_inventory choices 0).0 ≡ some (ok (planned, resolved_config))
unfolding Supervisor.resolve resolve_host resolve_key resolve_group resolve_root keep_root
    load_state save_state finish choose_path assemble with_plan choose_front plan_of render_options
    resolved_config select_host select_host_from select_group select_group_from select_root
    equal_fold has_substring has_prefix normalized_key encode decode rank_entries dial_timeout
    cut_entries reachable rank_tcp sooner is_up dial Sort.sort Sort.insert build build_with
    with_front config entry_tags itoa front_outbounds Xcfg.validate apply_defaults string_eq nat_eq
resolves = refl

resolve-IsResolved_example :
    IsResolved
      (λ t. outside.dial t (Supervisor.resolve outside first_inventory choices 0).1)
      first_inventory
      choices
      (λ c. c)
      planned
      resolved_config
resolve-IsResolved_example =
    resolve-IsResolved outside first_inventory choices planned resolved_config 0 resolves
