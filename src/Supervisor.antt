-- ===== src/Supervisor.antt =====
-- internal/supervisor: what `Resolve` decides, and `Start`. What it prints is not modelled. None is a
-- panic.
pub mod Laws
pub mod Resolved
pub mod Total
pub mod Starts
use tunnet_lite.Base.{
  ℕ, String, ◌<>◌, Bool, true, false, not, ◌&&◌, List, [], ◌∷◌, Option, none, some, length, take,
  is_empty, Error, errorf, Result, ok, err, ◌>>=◌, ◌==◌, string_eq, if◌then◌else◌, ltb,
}
use tunnet_lite.Base.Int.{ℤ, pos, pos_part}
use tunnet_lite.Base.Int
use tunnet_lite.Inventory.{FrontProxy, EntryGroup, Host, Inventory}
use tunnet_lite.Inventory.Key.{normalized_key}
use tunnet_lite.Inventory.Select.{select_host, select_group, select_root}
use tunnet_lite.Probe.{Probed, rank_tcp, reachable}
use tunnet_lite.Engine.{Plan, Core, Engine, apply}
use tunnet_lite.Xcfg
use tunnet_lite.Xcfg.Json.{Json}
use tunnet_lite.Xcfg.Render.{build}

-- `Options`
pub record Options : Type 0 where
  pub listen : String
  pub port : ℤ
  pub host_slug : String
  pub entry_group : String
  pub root_domain : String
  pub no_front : Bool
  pub udp : Bool
  pub route_mode : String
  pub domain_strategy : String
  pub assets : String
  pub max_entries : ℤ
  pub probe_timeout : ℤ
  pub probe_url : String
  pub health_interval : ℤ
  pub health_timeout : ℤ
  pub mode : String
  pub rtt : String
  pub padding : String
  pub flow : String
  pub state_path : String
  pub log_level : String

-- What answers outside the process: the state file, the dials, the random numbers, and the codecs.
pub record Outside : Type 1 where
  pub World : Type 0
  -- `os.ReadFile`, and the root domain that `json.Unmarshal` finds in a state
  pub read_file : String → World → Result String
  pub decode_state : String → String
  -- `json.MarshalIndent` of a state with this root domain
  pub encode_state : String → String
  -- `os.MkdirAll(filepath.Dir(path), 0o700)`
  pub make_parent : String → World → Option Error × World
  -- `os.WriteFile(path, data, 0o600)`
  pub write_file : String → String → World → Option Error × World
  -- `dial` to port 443 within a timeout
  pub dial : ℤ → World → String → Probed
  -- `rand.N`
  pub draw : World → ℕ → ℕ
  -- the classes of simple case folding
  pub fold : ℕ → ℕ
  -- `json.MarshalIndent` of a configuration
  pub encode_config : Json → String

-- The timeout of `rankEntries`.
unfoldable pub dial_timeout : ℤ → ℤ
dial_timeout d = if Int.ltb (pos 0) d then d else pos 3000000000

-- The limit on the entries.
unfoldable pub cut_entries : ℤ → List String → List String
cut_entries max entries =
    if Int.ltb (pos 0) max && ltb (pos_part max) (length entries)
    then take (pos_part max) entries
    else entries

-- `rankEntries`, from what the dials gave.
unfoldable pub rank_entries : (ℤ → String → Probed) → EntryGroup → Options → Result (List String)
rank_entries dial group o =
    let entries = reachable (rank_tcp (dial (dial_timeout o.probe_timeout)) group.ipv4) in
    if is_empty entries
    then err (errorf "no reachable address in entry group %q" (group.name ∷ []))
    else ok (cut_entries o.max_entries entries)

-- The front proxy to use, none to dial the CDN directly.
unfoldable pub choose_front : EntryGroup → Options → Result (Option FrontProxy)
choose_front group o = if o.no_front then ok none else elim group.front_proxy [
  | some f ↦ ok (some f)
  | none ↦ err (
      errorf "entry group %q has no front proxy; use the direct option to dial the CDN instead"
        (group.name ∷ []))
]

-- The plan of `Resolve`.
unfoldable pub plan_of :
    Host → EntryGroup → String → List String → Option FrontProxy → Options → Plan
plan_of host group root entries front o = record {
  route_mode = o.route_mode;
  host_slug = host.slug;
  host_name = host.name;
  logical_host = host.slug <> ("." <> root);
  root_domain = root;
  group_name = group.name;
  entries = entries;
  udp = o.udp;
  listen = o.listen;
  port = o.port;
  front_proxy = elim front [ none ↦ "" | some f ↦ f.endpoint ];
}

-- The options of `xcfg.Build`.
unfoldable pub render_options :
    Inventory → String → Plan → Option FrontProxy → Options → Xcfg.Options
render_options inv key plan front o = record {
  listen = o.listen;
  port = o.port;
  client_id = inv.client_id;
  logical_host = plan.logical_host;
  encryption_key = key;
  entries = plan.entries;
  front_proxy = front;
  udp = o.udp;
  mode = o.mode;
  rtt = o.rtt;
  padding = o.padding;
  flow = o.flow;
  route_mode = o.route_mode;
  domain_strategy = o.domain_strategy;
  probe_url = o.probe_url;
  probe_interval = o.health_interval;
  probe_timeout = o.health_timeout;
  log_level = o.log_level;
}

-- `Resolve` from the answer of `xcfg.Build` on.
unfoldable pub with_plan : Plan → Option (Result Json) → Option (Result (Plan × Json))
with_plan plan none = none
with_plan plan (some (err e)) = some (err e)
with_plan plan (some (ok json)) = some (ok (plan, json))

-- `Resolve` from the entries and the front proxy on.
unfoldable pub assemble :
    Inventory
    → Options
    → Host
    → String
    → EntryGroup
    → String
    → Result (List String × Option FrontProxy)
    → Option (Result (Plan × Json))
unfolding with_plan
assemble inv o host key group root (err e) = some (err e)
assemble inv o host key group root (ok (entries, front)) =
    let plan = plan_of host group root entries front o in
    with_plan plan (build (render_options inv key plan front o))

-- The entries, and then the front proxy.
unfoldable pub choose_path :
    (ℤ → String → Probed) → EntryGroup → Options → Result (List String × Option FrontProxy)
choose_path dial group o = do
  entries ← rank_entries dial group o
  front ← choose_front group o
  ok (entries, front)

-- `Resolve` after the choice of the root domain, which needs nothing but the dials.
unfoldable pub finish :
    (ℤ → String → Probed)
    → Inventory
    → Options
    → Host
    → String
    → EntryGroup
    → String
    → Option (Result (Plan × Json))
unfolding choose_path assemble
finish dial inv o host key group root =
    assemble inv o host key group root (choose_path dial group o)

module _ (E : Outside) where
  -- `loadState`: a state that cannot be read is an empty one.
  unfoldable pub load_state : String → E.World → String
  load_state path w = elim (E.read_file path w) [ err e ↦ "" | ok text ↦ E.decode_state text ]

  -- `saveState`. `Resolve` only logs its error.
  unfoldable pub save_state : String → String → E.World → Option Error × E.World
  save_state path root w =
      let (made, v) = E.make_parent path w in
      elim made [ some e ↦ (some e, v) | none ↦ E.write_file path (E.encode_state root <> "\n") v ]

  unfoldable pub keep_root : String → String → String → E.World → E.World
  keep_root path cached root w = if root == cached then w else (save_state path root w).1

  -- `Resolve` from the choice of the root domain on.
  unfoldable pub resolve_root :
      Inventory
      → Options
      → Host
      → String
      → EntryGroup
      → Option (Result String)
      → E.World
      → Option (Result (Plan × Json)) × E.World
  resolve_root inv o host key group none w = (none, w)
  resolve_root inv o host key group (some (err e)) w = (some (err e), w)
  resolve_root inv o host key group (some (ok root)) w =
      let v = keep_root o.state_path (load_state o.state_path w) root w in
      (finish (λ t. E.dial t v) inv o host key group root, v)

  unfoldable pub resolve_group :
      Inventory
      → Options
      → Host
      → String
      → Option (Result EntryGroup)
      → E.World
      → Option (Result (Plan × Json)) × E.World
  unfolding resolve_root
  resolve_group inv o host key none w = (none, w)
  resolve_group inv o host key (some (err e)) w = (some (err e), w)
  resolve_group inv o host key (some (ok group)) w =
      resolve_root inv o host key group
        (select_root (E.draw w) inv o.root_domain (load_state o.state_path w)) w

  unfoldable pub resolve_key :
      Inventory → Options → Host → Result String → E.World → Option (Result (Plan × Json)) × E.World
  unfolding resolve_group
  resolve_key inv o host (err e) w = (some (err e), w)
  resolve_key inv o host (ok key) w =
      resolve_group inv o host key (select_group E.fold inv o.entry_group) w

  unfoldable pub resolve_host :
      Inventory → Options → Result Host → E.World → Option (Result (Plan × Json)) × E.World
  unfolding resolve_key
  resolve_host inv o (err e) w = (some (err e), w)
  resolve_host inv o (ok host) w = resolve_key inv o host (normalized_key host) w

  -- `Resolve`
  unfoldable pub resolve : Inventory → Options → E.World → Option (Result (Plan × Json)) × E.World
  unfolding resolve_host
  resolve inv o w = resolve_host inv o (select_host inv o.host_slug) w

module _ (E : Outside) (C : Core) where
  -- `Start` from the answer of `Engine.Apply` on.
  after_apply :
      Plan
      → E.World
      → Option Error × Engine C × C.World
      → Option (Result Plan) × E.World × Engine C × C.World
  after_apply plan v (some x, f, d) = (some (err x), v, f, d)
  after_apply plan v (none, f, d) = (some (ok plan), v, f, d)

  -- `Start` from the answer of `Resolve` on.
  unfoldable pub after_resolve :
      Option (Result (Plan × Json))
      → E.World
      → Engine C
      → C.World
      → Option (Result Plan) × E.World × Engine C × C.World
  unfolding after_apply
  after_resolve none v e c = (none, v, e, c)
  after_resolve (some (err x)) v e c = (some (err x), v, e, c)
  after_resolve (some (ok (plan, json))) v e c =
      after_apply plan v (apply C plan (E.encode_config json) e c)

  -- `Start`
  unfoldable pub start :
      Inventory
      → Options
      → E.World
      → Engine C
      → C.World
      → Option (Result Plan) × E.World × Engine C × C.World
  unfolding after_resolve
  start inv o w e c = let (r, v) = resolve E inv o w in after_resolve r v e c
