-- ===== src/Console/Screen.antt =====
-- What internal/console/console.go prints: the texts that it hands to its writers, in order, with the
-- tabs that the table writer then lines up.
use tunnet_lite.Base.{
  ℕ, suc, String, ◌<>◌, Bool, not, List, [], ◌∷◌, ◌++◌, Option, none, some, length, ltb, ◌==◌,
  string_eq, if◌then◌else◌,
}
use tunnet_lite.Base.Numerals.{itoa, decimal}
use tunnet_lite.Inventory.{FrontProxy, Host, EntryGroup, Inventory}
use tunnet_lite.Engine.{Plan, Status}
use tunnet_lite.Supervisor.{Options}

-- `onOff`
abbrev pub on_off : Bool → String
on_off b = if b then "on" else "off"

-- `selected`
abbrev pub selected : Bool → String
selected b = if b then "*" else " "

-- `orDefault`
unfoldable pub or_fallback : String → String → String
or_fallback v fallback = if v == "" then fallback else v

-- The `%2d` of a number.
unfoldable pub two_wide : ℕ → String
two_wide n = if ltb n 10 then " " <> itoa n else itoa n

-- The last line of `showStatus`.
unfoldable pub selection_line : Options → String
selection_line o =
    "selection\texit="
    <> (or_fallback o.host_slug "(first online)"
        <> (" entry="
            <> (or_fallback o.entry_group "(first)"
                <> (" udp="
                    <> (on_off o.udp
                        <> (" direct="
                            <> (on_off o.no_front
                                <> (" route=" <> (or_fallback o.route_mode "global" <> "\n")))))))))

-- The lines of a plan that runs, whose first entry is `best`.
unfoldable pub plan_lines : String → Plan → String → List String
plan_lines since p best =
    ("state\trunning since " <> (since <> "\n"))
    ∷ ("listening\tsocks5://"
        <> (p.listen
            <> (":"
                <> (decimal p.port
                    <> (" (" <> ((if p.udp then "tcp+udp" else "tcp only") <> ")\n"))))))
    ∷ ("exit\t" <> (p.host_slug <> (" — " <> (p.host_name <> "\n"))))
    ∷ ("host name\t" <> (p.logical_host <> "\n"))
    ∷ ("entry\t" <> (p.group_name <> "\n"))
    ∷ ("front proxy\t" <> (or_fallback p.front_proxy "direct" <> "\n"))
    ∷ ("routing\t" <> (p.route_mode <> "\n"))
    ∷ ("pool\t" <> (itoa (length p.entries) <> (" addresses, best " <> (best <> "\n"))))
    ∷ []

-- The lines of an engine that does not run.
unfoldable pub stopped_lines : String → List String
stopped_lines last =
    ("state\tstopped\n") ∷ (if last == "" then [] else (("last error\t" <> (last <> "\n")) ∷ []))

-- The lines of a plan that runs, by its entries: no entry is a panic.
unfoldable pub best_lines : String → Plan → List String → Option (List String)
best_lines since p [] = none
best_lines since p (entry ∷ entries) = some (plan_lines since p entry)

-- The lines of an engine that runs: no plan is a panic.
unfoldable pub running_lines : String → Option Plan → Option (List String)
running_lines since none = none
running_lines since (some p) = best_lines since p p.entries

-- `showStatus`; none is a panic.
unfoldable pub status_lines : (ℕ → String) → Status → Options → Option (List String)
status_lines show_time st o =
    let since : String = elim st.started_at [ none ↦ "00:00:00" | some t ↦ show_time t ] in
    elim (if not st.running
      then some (stopped_lines st.last_error)
      else running_lines since st.plan) [
        | none ↦ none
        | some lines ↦ some (lines ++ (selection_line o ∷ []))
      ]

-- A row of `cmdExits`.
unfoldable pub exit_row : String → ℕ → Host → String
exit_row chosen n h =
    selected (h.slug == chosen)
    <> (" "
        <> (two_wide n
            <> ("\t"
                <> (h.slug
                    <> ("\t"
                        <> (h.name
                            <> ("\t" <> ((if h.online then "online" else "offline") <> "\n"))))))))

-- The loop of `cmdExits`, from a number on.
unfoldable pub exit_rows : String → ℕ → List Host → List String
exit_rows chosen n [] = []
exit_rows chosen n (h ∷ hosts) = exit_row chosen n h ∷ exit_rows chosen (suc n) hosts

-- The front proxy that a row of `cmdEntries` shows.
abbrev pub front_of : Option FrontProxy → String
front_of none = "no front proxy"
front_of (some f) = f.endpoint

-- A row of `cmdEntries`.
unfoldable pub entry_row : String → ℕ → EntryGroup → String
entry_row chosen n g =
    selected (g.name == chosen)
    <> (" "
        <> (two_wide n
            <> ("\t"
                <> (g.name
                    <> ("\t"
                        <> (itoa (length g.ipv4)
                            <> (" addresses\t" <> (front_of g.front_proxy <> "\n"))))))))

-- The loop of `cmdEntries`, from a number on.
unfoldable pub entry_rows : String → ℕ → List EntryGroup → List String
entry_rows chosen n [] = []
entry_rows chosen n (g ∷ groups) = entry_row chosen n g ∷ entry_rows chosen (suc n) groups

-- The names, arguments and summaries of `commands`.
abbrev pub summaries : List (String × String × String)
summaries =
    ("status", "", "show what is running")
    ∷ ("exits", "", "list exit nodes")
    ∷ ("entries", "", "list operator ingresses")
    ∷ ("exit", "<slug|#>", "select the exit node")
    ∷ ("entry", "<name|#>", "select the operator ingress")
    ∷ ("udp", "on|off", "toggle SOCKS UDP associate")
    ∷ ("route", "global|smart", "choose how much traffic the tunnel carries")
    ∷ ("direct", "on|off", "bypass the front proxy")
    ∷ ("start", "", "apply the current selection")
    ∷ ("stop", "", "stop the proxy")
    ∷ ("refresh", "", "fetch a fresh node directory")
    ∷ ("help", "", "show this list")
    ∷ []

-- The loop of `cmdHelp`.
unfoldable pub help_rows : List (String × String × String) → List String
help_rows [] = "  quit\t leave the console; the proxy stops with it\n" ∷ []
help_rows ((name, args, summary) ∷ rest) =
    ("  " <> (name <> (" " <> (args <> ("\t" <> (summary <> "\n")))))) ∷ help_rows rest

-- What `cmdRefresh` says of an inventory.
unfoldable pub updated_line : Inventory → String
updated_line inv =
    "updated: "
    <> (itoa (length inv.hosts)
        <> (" exits, "
            <> (itoa (length inv.entry_groups)
                <> (" ingresses, " <> (itoa (length inv.root_domains) <> " root domains\n")))))
