-- ===== src/Supervisor/Resolved.antt =====
-- What a plan that `Resolve` returns is made of.
use tunnet_lite.Base.{
  ℕ, ◌≤◌, String, ◌<>◌, true, false, Option, none, some, length, Result, ok, err, >>=-eq-ok,
  string_eq, contains, ◌≡◌, refl, ap, ◌∙◌, List, Option-cases, inl, inr, arith,
}
use mathlib.Core.Path.{subst}
use tunnet_lite.Base.Int.{ℤ, pos, pos_part}
use tunnet_lite.Base.Int
use tunnet_lite.Inventory.{FrontProxy, EntryGroup, Host, Inventory}
use tunnet_lite.Inventory.Key.{normalized_key}
use tunnet_lite.Inventory.Select.{select_host, select_group}
use tunnet_lite.Inventory.Select.Laws.{contains-select_root}
use tunnet_lite.Probe.{Probed}
use tunnet_lite.Engine.{Plan}
use tunnet_lite.Xcfg
use tunnet_lite.Xcfg.Json.{Json}
use tunnet_lite.Xcfg.Render.{build}
use tunnet_lite.Supervisor.{
  Options, Outside, rank_entries, choose_front, plan_of, render_options, with_plan, assemble,
  choose_path, finish, load_state, resolve_root, resolve_group, resolve_key, resolve_host, resolve,
}
use tunnet_lite.Supervisor.Laws.{IsKept, answered, rank_entries-IsKept, length-rank_entries-le}

-- The front proxy that is used: none where the options say so, else that of the group.
pub record IsFront (group : EntryGroup) (o : Options) (front : Option FrontProxy) (shown : String)
    : Type 0 where
  pub direct : o.no_front ≡ true → (front ≡ none) × (shown ≡ "")
  pub via :
      o.no_front ≡ false
      → (f : FrontProxy) × (group.front_proxy ≡ some f) × (front ≡ some f) × (shown ≡ f.endpoint)

-- What is rendered: the client, the host and its key, the entries, the front proxy, and the options.
pub record IsRendering (inv : Inventory) (key host : String) (pool : List String)
    (front : Option FrontProxy) (o : Options) (x : Xcfg.Options) : Type 0 where
  pub client_id : x.client_id ≡ inv.client_id
  pub encryption_key : x.encryption_key ≡ key
  pub logical_host : x.logical_host ≡ host
  pub entries : x.entries ≡ pool
  pub front_proxy : x.front_proxy ≡ front
  pub listen : x.listen ≡ o.listen
  pub port : x.port ≡ o.port
  pub udp : x.udp ≡ o.udp
  pub mode : x.mode ≡ o.mode
  pub rtt : x.rtt ≡ o.rtt
  pub padding : x.padding ≡ o.padding
  pub flow : x.flow ≡ o.flow
  pub route_mode : x.route_mode ≡ o.route_mode
  pub domain_strategy : x.domain_strategy ≡ o.domain_strategy
  pub probe_url : x.probe_url ≡ o.probe_url
  pub probe_interval : x.probe_interval ≡ o.health_interval
  pub probe_timeout : x.probe_timeout ≡ o.health_timeout
  pub log_level : x.log_level ≡ o.log_level

-- What the parts of a plan and its configuration are.
pub record IsResolved (dial : ℤ → String → Probed) (inv : Inventory) (o : Options) (fold : ℕ → ℕ)
    (plan : Plan) (json : Json) : Type 0 where
  pub host : Host
  pub key : String
  pub group : EntryGroup
  pub front : Option FrontProxy
  pub options : Xcfg.Options
  pub chosen_host : select_host inv o.host_slug ≡ ok host
  pub chosen_key : normalized_key host ≡ ok key
  pub chosen_group : select_group fold inv o.entry_group ≡ some (ok group)
  pub chosen_root : contains inv.root_domains plan.root_domain ≡ true
  pub kept : IsKept (answered dial group o) plan.entries
  pub few : Int.ltb (pos 0) o.max_entries ≡ true → length plan.entries ≤ pos_part o.max_entries
  pub chosen_front : IsFront group o front plan.front_proxy
  pub host_slug : plan.host_slug ≡ host.slug
  pub host_name : plan.host_name ≡ host.name
  pub logical_host : plan.logical_host ≡ host.slug <> ("." <> plan.root_domain)
  pub group_name : plan.group_name ≡ group.name
  pub listen : plan.listen ≡ o.listen
  pub port : plan.port ≡ o.port
  pub udp : plan.udp ≡ o.udp
  pub route_mode : plan.route_mode ≡ o.route_mode
  pub rendering :
      IsRendering inv key (host.slug <> ("." <> plan.root_domain)) plan.entries front o options
  pub rendered : build options ≡ some (ok json)

shown_of : Option FrontProxy → String
shown_of front = elim front [ none ↦ "" | some f ↦ f.endpoint ]

choose_front-IsFront :
    (group : EntryGroup) (o : Options) (front : Option FrontProxy)
    → choose_front group o ≡ ok front
    → IsFront group o front (shown_of front)
unfolding choose_front shown_of
choose_front-IsFront group o front h = record {
  direct = λ b. let e : front ≡ none = ground arith in rw e (refl, refl);
  via = λ b. elim (Option-cases group.front_proxy) [
    | inl e ↦ ground arith
    | inr (f, e) ↦ let k : front ≡ some f = ground arith in (f, e, k, rw k refl)
  ];
}

with_plan-inv :
    (plan made : Plan) (q : Option (Result Json)) (json : Json)
    → with_plan plan q ≡ some (ok (made, json))
    → (plan ≡ made) × (q ≡ some (ok json))
unfolding with_plan
with_plan-inv plan made none json h = cc
with_plan-inv plan made (some (err e)) json h = cc
with_plan-inv plan made (some (ok j)) json h = (cc, cc)

module _ (dial : ℤ → String → Probed) (inv : Inventory) (o : Options) (fold : ℕ → ℕ) (host : Host)
    (key : String) (group : EntryGroup) (root : String) (plan : Plan) (json : Json)
    (hh : select_host inv o.host_slug ≡ ok host) (hk : normalized_key host ≡ ok key)
    (hg : select_group fold inv o.entry_group ≡ some (ok group))
    (hr : contains inv.root_domains root ≡ true) where
  planned-IsResolved :
      (entries : List String) (front : Option FrontProxy)
      → rank_entries dial group o ≡ ok entries
      → choose_front group o ≡ ok front
      → build (render_options inv key (plan_of host group root entries front o) front o)
        ≡ some (ok json)
      → IsResolved dial inv o fold (plan_of host group root entries front o) json
  unfolding plan_of render_options shown_of
  planned-IsResolved entries front e f b = record {
    host = host;
    key = key;
    group = group;
    front = front;
    options = render_options inv key (plan_of host group root entries front o) front o;
    chosen_host = hh;
    chosen_key = hk;
    chosen_group = hg;
    chosen_root = hr;
    kept = rank_entries-IsKept dial group o entries e;
    few = λ m. length-rank_entries-le dial group o entries m e;
    chosen_front = choose_front-IsFront group o front f;
    host_slug = refl;
    host_name = refl;
    logical_host = refl;
    group_name = refl;
    listen = refl;
    port = refl;
    udp = refl;
    route_mode = refl;
    rendering = record {
      client_id = refl;
      encryption_key = refl;
      logical_host = refl;
      entries = refl;
      front_proxy = refl;
      listen = refl;
      port = refl;
      udp = refl;
      mode = refl;
      rtt = refl;
      padding = refl;
      flow = refl;
      route_mode = refl;
      domain_strategy = refl;
      probe_url = refl;
      probe_interval = refl;
      probe_timeout = refl;
      log_level = refl;
    };
    rendered = b;
  }

  assemble-IsResolved :
      (r : Result (List String × Option FrontProxy))
      → choose_path dial group o ≡ r
      → assemble inv o host key group root r ≡ some (ok (plan, json))
      → IsResolved dial inv o fold plan json
  unfolding assemble choose_path
  assemble-IsResolved (err e) c h = cc
  assemble-IsResolved (ok (entries, front)) c h =
      let (some_entries, e, c2) = >>=-eq-ok (rank_entries dial group o) _ c in
      let (some_front, f, c3) = >>=-eq-ok (choose_front group o) _ c2 in
      let p : some_entries ≡ entries = cc in
      let q : some_front ≡ front = cc in
      let (same, b) = with_plan-inv (plan_of host group root entries front o) plan _ json h in
      subst (λ x. IsResolved dial inv o fold x json) same
        (planned-IsResolved entries front (e ∙ ap ok p) (f ∙ ap ok q) b)

  finish-IsResolved :
      finish dial inv o host key group root ≡ some (ok (plan, json))
      → IsResolved dial inv o fold plan json
  unfolding finish
  finish-IsResolved h = assemble-IsResolved _ refl h

module _ (E : Outside) (inv : Inventory) (o : Options) (plan : Plan) (json : Json) where
  -- Some plan and configuration, resolved with the dials as they are in the world that is left.
  Resolves : Option (Result (Plan × Json)) × E.World → Type 0
  Resolves r = r.0 ≡ some (ok (plan, json)) → IsResolved (λ t. E.dial t r.1) inv o E.fold plan json

  resolve_root-Resolves :
      (host : Host) (key : String) (group : EntryGroup) (r : Option (Result String)) (w : E.World)
      → select_host inv o.host_slug ≡ ok host
      → normalized_key host ≡ ok key
      → select_group E.fold inv o.entry_group ≡ some (ok group)
      → ((root : String) → r ≡ some (ok root) → contains inv.root_domains root ≡ true)
      → Resolves (resolve_root E inv o host key group r w)
  unfolding Resolves resolve_root
  resolve_root-Resolves host key group none w hh hk hg hr h = cc
  resolve_root-Resolves host key group (some (err e)) w hh hk hg hr h = cc
  resolve_root-Resolves host key group (some (ok root)) w hh hk hg hr h =
      finish-IsResolved _ inv o E.fold host key group root plan json hh hk hg (hr root refl) h

  resolve_group-Resolves :
      (host : Host) (key : String) (r : Option (Result EntryGroup)) (w : E.World)
      → select_host inv o.host_slug ≡ ok host
      → normalized_key host ≡ ok key
      → select_group E.fold inv o.entry_group ≡ r
      → Resolves (resolve_group E inv o host key r w)
  unfolding Resolves resolve_group
  resolve_group-Resolves host key none w hh hk hg h = cc
  resolve_group-Resolves host key (some (err e)) w hh hk hg h = cc
  resolve_group-Resolves host key (some (ok group)) w hh hk hg h =
      resolve_root-Resolves host key group _ w hh hk hg
        (contains-select_root (E.draw w) inv o.root_domain (load_state E o.state_path w)) h

  resolve_key-Resolves :
      (host : Host) (r : Result String) (w : E.World)
      → select_host inv o.host_slug ≡ ok host
      → normalized_key host ≡ r
      → Resolves (resolve_key E inv o host r w)
  unfolding Resolves resolve_key
  resolve_key-Resolves host (err e) w hh hk h = cc
  resolve_key-Resolves host (ok key) w hh hk h = resolve_group-Resolves host key _ w hh hk refl h

  resolve_host-Resolves :
      (r : Result Host) (w : E.World)
      → select_host inv o.host_slug ≡ r
      → Resolves (resolve_host E inv o r w)
  unfolding Resolves resolve_host
  resolve_host-Resolves (err e) w hh h = cc
  resolve_host-Resolves (ok host) w hh h = resolve_key-Resolves host _ w hh refl h

  -- A plan and a configuration that `Resolve` returns are put together of the selected host with its
  -- normalised key, the selected entry group, a root domain of the inventory's pool, entries that are a
  -- non-empty front part of the group's answering addresses within the limit, and no front proxy where
  -- the options say so, else the group's: the plan names these with the host's name under the root
  -- domain, and what `Build` renders has just these, the client's id and the options.
  pub resolve-IsResolved :
      (w : E.World)
      → (resolve E inv o w).0 ≡ some (ok (plan, json))
      → IsResolved (λ t. E.dial t (resolve E inv o w).1) inv o E.fold plan json
  unfolding Resolves resolve
  resolve-IsResolved w h = resolve_host-Resolves (select_host inv o.host_slug) w refl h
