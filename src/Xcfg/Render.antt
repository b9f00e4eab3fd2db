-- ===== src/Xcfg/Render.antt =====
-- `Build` of internal/xcfg/xcfg.go and the rules of internal/xcfg/routing.go, up to the JSON text.
-- A nil header map, which is written as null, is the empty one.
use Prim.Native.Nat.{ℕ, suc, ◌/◌}
use tunnet_lite.Base.{
  String, ◌<>◌, true, List, [], ◌∷◌, ◌++◌, Option, none, some, map, errorf, Result, ok, err, ◌>>=◌,
  ◌>>◌, context, ◌==◌, string_eq, nat_eq, if◌then◌else◌, ltb,
}
use tunnet_lite.Base.Int.{ℤ, pos, negsuc}
use tunnet_lite.Base.Texts.{trim_prefix, join, atoi}
use tunnet_lite.Base.Numerals.{itoa}
use tunnet_lite.Base.Address.{split_host_port, trim_slash}
use tunnet_lite.Inventory.{FrontProxy}
use tunnet_lite.Xcfg.{Options, apply_defaults, validate}
use tunnet_lite.Xcfg.Json.{Json, text, number, boolean, array, items, obj, texts}

-- `durationString`: whole seconds, towards zero. Go goes through a float, which is exact here for
-- durations below 9,000,000 seconds.
unfoldable pub duration_string : ℤ → String
duration_string (pos n) = itoa (n / 1000000000) <> "s"
duration_string (negsuc n) =
    if ltb (suc n) 1000000000 then "0s" else "-" <> (itoa (suc n / 1000000000) <> "s")

-- `splitEndpoint`
unfoldable pub split_endpoint : String → Result (String × ℤ)
split_endpoint endpoint = do
  p ←
      context "front proxy endpoint %q: %w" (endpoint ∷ [])
        (split_host_port (trim_slash (trim_prefix (trim_prefix endpoint "http://") "https://")))
  port ← context "front proxy endpoint %q: %w" (endpoint ∷ []) (elim (atoi p.1) [
    | some n ↦ ok n
    | none ↦ err (errorf "strconv.Atoi: parsing %q" (p.1 ∷ []))
  ])
  ok (p.0, port)

-- `frontOutbound`
unfoldable pub front_outbound : FrontProxy → Result Json
front_outbound fp = do
  e ← split_endpoint fp.endpoint
  ok (
      obj (
        ("tag", text "front-proxy")
        ∷ ("protocol", text "http")
        ∷ (
          "settings",
          obj (
              (
                "servers",
                array (items (obj (("address", text e.0) ∷ ("port", number e.1) ∷ []) ∷ [])),
              )
              ∷ ("headers", obj (map (λ h. (h.0, text h.1)) fp.headers))
              ∷ []),
        )
        ∷ []))

-- `browserHeaders`
abbrev pub browser_headers : Json
browser_headers = obj (
    ("Accept", text "*/*")
    ∷ ("Accept-Language", text "en-US,en;q=0.9")
    ∷ ("Cache-Control", text "no-cache")
    ∷ ("Dnt", text "1")
    ∷ ("Pragma", text "no-cache")
    ∷ ("Priority", text "u=1, i")
    ∷ ("Sec-Ch-Ua-Mobile", text "?0")
    ∷ ("Sec-Ch-Ua-Platform", text "\"Windows\"")
    ∷ ("Sec-Fetch-Dest", text "empty")
    ∷ ("Sec-Fetch-Mode", text "cors")
    ∷ ("Sec-Fetch-Site", text "same-origin")
    ∷ (
      "Sec-Ch-Ua",
      text "\"Google Chrome\";v=\"133\", \"Chromium\";v=\"133\", \"Not_A Brand\";v=\"24\"",
    )
    ∷ (
      "User-Agent",
      text
          "Mozilla/5.0 (Windows NT 10.0; Win64; x64) AppleWebKit/537.36 (KHTML, like Gecko) Chrome/133.0.0.0 Safari/537.36",
    )
    ∷ [])

-- `encryption`
unfoldable pub encryption : Options → String
encryption o = join ("mlkem768x25519plus" ∷ o.mode ∷ o.rtt ∷ o.padding ∷ o.encryption_key ∷ []) "."

-- The stream settings of `entryOutbound`.
unfoldable pub entry_stream : Options → Json
entry_stream o = obj (
    ("network", text "xhttp")
    ∷ ("security", text "tls")
    ∷ (
      "tlsSettings",
      obj (
          ("serverName", text o.logical_host)
          ∷ ("alpn", texts ("h2" ∷ []))
          ∷ ("fingerprint", text "hellochrome_133")
          ∷ ("echConfigList", text (o.logical_host <> "+https://223.5.5.5/dns-query"))
          ∷ []),
    )
    ∷ (
      "xhttpSettings",
      obj (
          ("host", text o.logical_host)
          ∷ ("path", text "/api/v1/sync/")
          ∷ ("mode", text "stream-up")
          ∷ ("headers", browser_headers)
          ∷ ("xPaddingBytes", text "100-999")
          ∷ ("xPaddingObfsMode", boolean true)
          ∷ ("xPaddingPlacement", text "queryInHeader")
          ∷ ("xPaddingKey", text "cache")
          ∷ ("xPaddingHeader", text "Referer")
          ∷ ("xPaddingMethod", text "tokenish")
          ∷ ("sessionIDTable", text "Base62")
          ∷ ("sessionIDLength", text "16-24")
          ∷ []),
    )
    ∷ elim o.front_proxy [
      | none ↦ []
      | some fp ↦ ("sockopt", obj (("dialerProxy", text "front-proxy") ∷ [])) ∷ []
    ])

-- `entryOutbound`
unfoldable pub entry_outbound : Options → String → String → Json
unfolding entry_stream encryption
entry_outbound o tag ip = obj (
    ("tag", text tag)
    ∷ ("protocol", text "vless")
    ∷ (
      "settings",
      obj (
          ("address", text ip)
          ∷ ("port", number (pos 443))
          ∷ ("id", text o.client_id)
          ∷ ("encryption", text (encryption o))
          ∷ (if o.flow == "" then [] else ("flow", text o.flow) ∷ [])),
    )
    ∷ ("streamSettings", entry_stream o)
    ∷ [])

-- The tags of the entries, and their outbounds, from an index on: the loop of `Build`.
unfoldable pub entry_tags : ℕ → List String → List String
entry_tags i [] = []
entry_tags i (ip ∷ ips) = ("entry-" <> itoa i) ∷ entry_tags (suc i) ips

unfoldable pub entry_outbounds : Options → ℕ → List String → List Json
unfolding entry_outbound
entry_outbounds o i [] = []
entry_outbounds o i (ip ∷ ips) =
    entry_outbound o ("entry-" <> itoa i) ip ∷ entry_outbounds o (suc i) ips

-- `directOutbound`
abbrev pub direct_outbound : Json
direct_outbound = obj (
    ("tag", text "direct")
    ∷ ("protocol", text "freedom")
    ∷ ("settings", obj (("domainStrategy", text "UseIP") ∷ []))
    ∷ [])

-- `directPrefixes`
abbrev pub direct_prefixes : List String
direct_prefixes =
    "0.0.0.0/8" ∷ "10.0.0.0/8" ∷ "100.64.0.0/10" ∷ "127.0.0.0/8" ∷ "169.254.0.0/16"
    ∷ "172.16.0.0/12" ∷ "192.0.0.0/24" ∷ "192.0.2.0/24" ∷ "192.168.0.0/16" ∷ "198.18.0.0/15"
    ∷ "198.51.100.0/24" ∷ "203.0.113.0/24" ∷ "224.0.0.0/4" ∷ "240.0.0.0/4" ∷ "::/128" ∷ "::1/128"
    ∷ "fc00::/7" ∷ "fe80::/10" ∷ "ff00::/8" ∷ "2001:db8::/32" ∷ []

-- A rule of the router: what it matches, and where that goes.
unfoldable pub rule : String × Json → String → String → Json
rule matched target tag = obj (("type", text "field") ∷ matched ∷ (target, text tag) ∷ [])

-- `routingRules`
unfoldable pub routing_rules : Options → List Json
unfolding rule
routing_rules o =
    (rule ("ip", texts direct_prefixes) "outboundTag" "direct" ∷ [])
    ++ ((if o.route_mode == "smart"
          then rule ("domain", texts ("geosite:cn" ∷ [])) "outboundTag" "direct"
            ∷ rule ("ip", texts ("geoip:cn" ∷ [])) "outboundTag" "direct"
            ∷ []
          else [])
        ++ (rule ("network", text "tcp,udp") "balancerTag" "entry-pool" ∷ []))

-- The outbound of the front proxy, if there is one.
unfoldable pub front_outbounds : Option FrontProxy → Result (List Json)
unfolding front_outbound
front_outbounds none = ok []
front_outbounds (some fp) = do j ← front_outbound fp; ok (j ∷ [])

-- The configuration of `Build`, from its first tag and its outbounds.
unfoldable pub config_from : Options → String → List Json → Json
unfolding routing_rules duration_string
config_from o tag outbounds = obj (
    ("log", obj (("loglevel", text o.log_level) ∷ []))
    ∷ (
      "inbounds",
      array (
          items (
            obj (
              ("tag", text "socks-in")
              ∷ ("listen", text o.listen)
              ∷ ("port", number o.port)
              ∷ ("protocol", text "socks")
              ∷ ("settings", obj (("udp", boolean o.udp) ∷ []))
              ∷ [])
            ∷ [])),
    )
    ∷ ("outbounds", array (items outbounds))
    ∷ (
      "routing",
      obj (
          ("rules", array (items (routing_rules o)))
          ∷ (
            "balancers",
            array (
                items (
                  obj (
                    ("tag", text "entry-pool")
                    ∷ ("selector", texts ("entry-" ∷ []))
                    ∷ ("strategy", obj (("type", text "leastPing") ∷ []))
                    ∷ ("fallbackTag", text tag)
                    ∷ [])
                  ∷ [])),
          )
          ∷ (if o.domain_strategy == ""
              then []
              else ("domainStrategy", text o.domain_strategy) ∷ [])),
    )
    ∷ (
      "burstObservatory",
      obj (
          ("subjectSelector", texts ("entry-" ∷ []))
          ∷ (
            "pingConfig",
            obj (
                ("destination", text o.probe_url)
                ∷ ("interval", text (duration_string o.probe_interval))
                ∷ ("timeout", text (duration_string o.probe_timeout))
                ∷ ("sampling", number (pos 1))
                ∷ []),
          )
          ∷ []),
    )
    ∷ [])

-- The configuration of `Build`, from its tags: `tags[0]` of no tags is a panic, which is none.
unfoldable pub config : Options → List String → List Json → Option Json
unfolding config_from
config o [] outbounds = none
config o (tag ∷ tags) outbounds = some (config_from o tag outbounds)

-- `Build` from the outbound of the front proxy on.
unfoldable pub with_front : Options → Result (List Json) → Option (Result Json)
unfolding entry_tags entry_outbounds config
with_front o (err e) = some (err e)
with_front o (ok front) =
    elim (config o (entry_tags 0 o.entries)
      (entry_outbounds o 0 o.entries ++ (front ++ (direct_outbound ∷ [])))) [
        | none ↦ none
        | some json ↦ some (ok json)
      ]

-- `Build`, by the options with their defaults.
unfoldable pub build_with : Options → Option (Result Json)
unfolding front_outbounds with_front
build_with o = with_front o (do validate o; front_outbounds o.front_proxy)

-- `Build`; none is a panic.
unfoldable pub build : Options → Option (Result Json)
unfolding build_with
build o = build_with (apply_defaults o)
