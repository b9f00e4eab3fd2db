-- ===== src/Console.antt =====
-- internal/console/console.go. Where the code would panic, the outcome is none. The updater may install
-- an inventory between two lines, and between two reads of the inventory in one command.
pub mod Screen
pub mod Quiet
pub mod Ends
pub mod Listed
pub mod Bounds
pub mod Safe
pub mod Laws
use tunnet_lite.Base.{
  ℕ, zero, suc, ◌-◌, String, ◌<>◌, ◌++◌, Bool, true, false, not, ◌||◌, List, [], ◌∷◌, Option, none,
  some, length, get_elem?, is_empty, ltb, Error, errorf, wrapf, Result, ok, err, is_ok,
  as_needs_authorization, ◌==◌, string_eq, nat_eq, if◌then◌else◌,
}
use Prim.Native.Char.{Char}
use tunnet_lite.Base.Int.{ℤ, pos, pos_part}
use tunnet_lite.Base.Int
use tunnet_lite.Base.Numerals.{decimal}
use tunnet_lite.Base.Dict.{Dict, lookup}
use tunnet_lite.Base.Address.{cut}
use tunnet_lite.Base.Texts.{trim_space, to_lower, atoi}
use tunnet_lite.Inventory.{Inventory, Host, EntryGroup}
use tunnet_lite.Inventory.Select.{select_host, select_group}
use tunnet_lite.Console.Screen.{
  on_off, status_lines, exit_rows, entry_rows, help_rows, summaries, updated_line,
}
use tunnet_lite.Engine.{Plan, Core, Engine, stop, status, Status}
use tunnet_lite.Supervisor.{Options, Outside, start}
use tunnet_lite.Xcfg.{parse_route_mode}
use tunnet_lite.Xcfg.Assets.{Files, resolve_assets}
use tunnet_lite.Control.Exec.{Env, State}
use tunnet_lite.Control.Session.{Paths, RefreshOptions, refresh}

-- What answers outside the console, by part.
pub record World : Type 1 where
  pub nodes : Outside
  pub core : Core
  pub control : Env
  pub files : Files
  pub lower : Char → Char
  -- the text of a time of day
  pub show_time : ℕ → String

-- What the loop of `Run` meets: a line, with the inventories that the updater installs while its
-- command runs, one before each read of the inventory after the first; an inventory that is installed
-- while the loop waits; the end of the context, while it waits for a line or where it looks for it; an
-- error of the reader.
pub data Input : Type 0 where
  line : String → List Inventory → Input
  install : Inventory → Input
  cancelled : Input
  ended : Input
  broken : Error → Input

-- `parseToggle`, for the argument in lower case.
unfoldable pub toggle : String → String → Bool → Result Bool
toggle arg low current =
    if low == "on" || low == "yes" || low == "true" || low == "1"
    then ok true
    else if low == "off" || low == "no" || low == "false" || low == "0"
    then ok false
    else if low == "" || low == "toggle"
    then ok (not current)
    else err (errorf "expected on or off, got %q" (arg ∷ []))

-- The bounds check of `exit` and `entry` on a number, from 1.
unfoldable pub off_list : ℤ → ℕ → Bool
off_list n len = Int.ltb n (pos 1) || Int.ltb (pos len) n

-- The index expression of `exit` and `entry`: none is an index out of range, which is a panic.
unfoldable pub numbered {ℓ} : {A : Type ℓ} → ℤ → List A → Option A
numbered n items = if Int.ltb n (pos 1) then none else get_elem? items (pos_part n - 1)

-- The slug that the argument of `exit` stands for: the bound is that of the hosts at one read, the
-- index is into the hosts at the next. None is a panic.
unfoldable pub slug_of : String → List Host → List Host → Option (Result String)
slug_of arg hosts later = elim (atoi arg) [
  | none ↦ some (ok arg)
  | some n ↦
      if off_list n (length hosts)
      then some (err (errorf "no exit number %d; try \"exits\"" (decimal n ∷ [])))
      else elim (numbered n later) [ none ↦ none | some host ↦ some (ok host.slug) ]
]

-- The name that the argument of `entry` stands for, likewise.
unfoldable pub name_of : String → List EntryGroup → List EntryGroup → Option (Result String)
name_of arg groups later = elim (atoi arg) [
  | none ↦ some (ok arg)
  | some n ↦
      if off_list n (length groups)
      then some (err (errorf "no entry number %d; try \"entries\"" (decimal n ∷ [])))
      else elim (numbered n later) [ none ↦ none | some group ↦ some (ok group.name) ]
]

module _ (W : World) (p : Paths) (has_session : Bool) where
  -- `Console`, and beside it the engine, the session and the worlds that they are in.
  pub record Console : Type 0 where
    pub inv : Inventory
    pub opts : Options
    pub engine : Engine W.core
    pub core : W.core.World
    pub nodes : W.nodes.World
    pub session : State W.control.World
    pub files : W.files.World
    -- what is printed, by the call
    pub out : List String
    -- what the updater is about to install, one before each further read
    pub arriving : List Inventory

  -- What a command comes to; none is a panic.
  abbrev pub Outcome : Type 0
  Outcome = Option (Result (Unit {0})) × Console

  unfoldable pub failed : Error → Console → Outcome
  failed e c = (some (err e), c)

  -- Calls of `printf`.
  unfoldable pub say : List String → Console → Console
  say texts c = record c { out = c.out ++ texts }

  -- `SetInventory`
  abbrev pub set_inventory : Inventory → Console → Console
  set_inventory inv c = record c { inv = inv }

  -- What the updater does before a further read of the inventory.
  unfoldable pub arrive : List Inventory → Console → Console
  arrive [] c = c
  arrive (inv ∷ rest) c = record c { inv = inv; arriving = rest }

  -- The console as a further call of `inventory` finds it.
  unfoldable pub later : Console → Console
  later c = arrive c.arriving c

  -- The same at the read after the two that a number takes.
  unfoldable pub after_number : String → Console → Console
  after_number arg c = elim (atoi arg) [ none ↦ c | some n ↦ later (later c) ]

  -- A change of the choices, and what is said about it.
  unfoldable pub set_options : Options → String → Console → Outcome
  set_options o text c = (some (ok tt), say (text ∷ []) (record c { opts = o }))

  -- `showStatus`, from its lines.
  unfoldable pub shown : Option (List String) → Console → Outcome
  shown none c = (none, c)
  shown (some lines) c = (some (ok tt), say lines c)

  -- `showStatus`
  unfoldable pub show_status : Console → Outcome
  show_status c = shown (status_lines W.show_time (status W.core c.engine) c.opts) c

  -- `cmdSetExit`
  unfoldable pub choose_exit : Result Host → Console → Outcome
  choose_exit (err e) c = failed e c
  choose_exit (ok host) c =
      set_options (record c.opts { host_slug = host.slug })
        ("exit set to " <> (host.slug <> (" — " <> (host.name <> ". Run \"start\" to apply.\n")))) c

  unfoldable pub find_exit : Option (Result String) → Console → Outcome
  find_exit none c = (none, c)
  find_exit (some (err e)) c = failed e c
  find_exit (some (ok slug)) c = choose_exit (select_host c.inv slug) c

  unfoldable pub set_exit : String → Console → Outcome
  set_exit arg c =
      if arg == ""
      then failed (errorf "usage: exit <slug|#>" []) c
      else find_exit (slug_of arg c.inv.hosts (later c).inv.hosts) (after_number arg c)

  -- `cmdSetEntry`
  unfoldable pub choose_entry : Option (Result EntryGroup) → Console → Outcome
  choose_entry none c = (none, c)
  choose_entry (some (err e)) c = failed e c
  choose_entry (some (ok group)) c =
      set_options (record c.opts { entry_group = group.name })
        ("entry set to " <> (group.name <> ". Run \"start\" to apply.\n")) c

  unfoldable pub find_entry : Option (Result String) → Console → Outcome
  find_entry none c = (none, c)
  find_entry (some (err e)) c = failed e c
  find_entry (some (ok name)) c = choose_entry (select_group W.nodes.fold c.inv name) c

  unfoldable pub set_entry : String → Console → Outcome
  set_entry arg c =
      if arg == ""
      then failed (errorf "usage: entry <name|#>" []) c
      else find_entry (name_of arg c.inv.entry_groups (later c).inv.entry_groups)
          (after_number arg c)

  -- `cmdUDP` and `cmdDirect` from the answer of `parseToggle` on.
  unfoldable pub toggled : (Bool → Options) → (Bool → String) → Result Bool → Console → Outcome
  toggled set text (err e) c = failed e c
  toggled set text (ok on) c = set_options (set on) (text on) c

  -- `cmdUDP`
  unfoldable pub set_udp : String → Console → Outcome
  set_udp arg c =
      toggled (λ on. record c.opts { udp = on })
        (λ on. "udp " <> (on_off on <> ". Run \"start\" to apply.\n"))
        (toggle arg (to_lower W.lower arg) c.opts.udp) c

  -- `cmdDirect`
  unfoldable pub set_direct : String → Console → Outcome
  set_direct arg c =
      toggled (λ on. record c.opts { no_front = on })
        (λ on.
          "front proxy "
          <> ((if on then "bypassed" else "in use") <> ". Run \"start\" to apply.\n"))
        (toggle arg (to_lower W.lower arg) c.opts.no_front) c

  abbrev route_text : String → String
  route_text mode = "routing set to " <> (mode <> ". Run \"start\" to apply.\n")

  -- `cmdRoute`
  unfoldable pub with_assets : String → (String × Option Error) × W.files.World → Console → Outcome
  with_assets mode ((found, some e), v) c =
      failed (wrapf "smart routing needs the rule sets: %w" [] e) (record c { files = v })
  with_assets mode ((found, none), v) c =
      set_options (record c.opts { route_mode = mode }) (route_text mode) (record c { files = v })

  unfoldable pub choose_route : Result String → Console → Outcome
  choose_route (err e) c = failed e c
  choose_route (ok mode) c =
      if mode == "smart"
      then with_assets mode (resolve_assets W.files c.opts.assets c.files) c
      else set_options (record c.opts { route_mode = mode }) (route_text mode) c

  unfoldable pub set_route : String → Console → Outcome
  set_route arg c =
      if arg == ""
      then failed (errorf "usage: route global|smart" []) c
      else choose_route (parse_route_mode arg) c

  -- `cmdStart`
  unfoldable pub started : Option (Result Plan) → Console → Outcome
  started none c = (none, c)
  started (some (err e)) c = failed e c
  started (some (ok plan)) c = show_status c

  unfoldable pub start_proxy : Console → Outcome
  start_proxy c =
      let (r, v, e, d) = start W.nodes W.core c.inv c.opts c.nodes c.engine c.core in
      started r (say ("probing entry pool…\n" ∷ []) (record c { nodes = v; engine = e; core = d }))

  -- `cmdStop`
  unfoldable pub stopped : Option Error → Console → Outcome
  stopped (some e) c = failed e c
  stopped none c = (some (ok tt), say ("stopped\n" ∷ []) c)

  unfoldable pub stop_proxy : Console → Outcome
  stop_proxy c =
      let (r, e, d) = stop W.core c.engine c.core in stopped r (record c { engine = e; core = d })

  -- `cmdRefresh`
  unfoldable pub unapproved : Error → Option String → Console → Outcome
  unapproved e (some url) c = (
    some (ok tt),
    say
        (("this client is not approved yet.\n  open: "
            <> (url <> "\n  then run \"refresh\" again\n"))
          ∷ [])
        c,
  )
  unapproved e none c = failed e c

  unfoldable pub refreshed : Result Inventory → Console → Outcome
  refreshed (ok inv) c = (some (ok tt), say (updated_line inv ∷ []) (set_inventory inv c))
  refreshed (err e) c = unapproved e (as_needs_authorization e) c

  unfoldable pub refresh_nodes : Console → Outcome
  refresh_nodes c =
      if not has_session
      then failed (errorf "no control-plane identity; run once with -refresh to create one" []) c
      else let (r, s) =
          refresh W.control p (record { auto_approve = false; verification_url = "" }) c.session in
        refreshed r (say ("contacting the control plane…\n" ∷ []) (record c { session = s }))

  -- `cmdExits`, `cmdEntries` and `cmdHelp`, which only print.
  unfoldable pub prints : (Console → List String) → String → Console → Outcome
  prints lines arg c = (some (ok tt), say (lines c) c)

  abbrev pub exits : Console → List String
  exits c = exit_rows c.opts.host_slug 1 c.inv.hosts

  abbrev pub entries : Console → List String
  entries c = entry_rows c.opts.entry_group 1 c.inv.entry_groups

  -- `commands`
  abbrev pub commands : Dict (String → Console → Outcome)
  commands =
      ("status", λ arg. show_status)
      ∷ ("exits", prints exits)
      ∷ ("entries", prints entries)
      ∷ ("exit", set_exit)
      ∷ ("entry", set_entry)
      ∷ ("udp", set_udp)
      ∷ ("route", set_route)
      ∷ ("direct", set_direct)
      ∷ ("start", λ arg. start_proxy)
      ∷ ("stop", λ arg. stop_proxy)
      ∷ ("refresh", λ arg. refresh_nodes)
      ∷ ("help", prints (λ c. help_rows summaries))
      ∷ []

  -- `dispatch` from what the table gives.
  unfoldable pub perform : String → String → Option (String → Console → Outcome) → Console → Outcome
  perform name arg none c = failed (errorf "unknown command %q; type \"help\"" (name ∷ [])) c
  perform name arg (some command) c = command arg c

  -- `dispatch`
  unfoldable pub dispatch : String → String → Console → Outcome
  dispatch name arg c = perform name arg (lookup name commands) c

  -- A line as a name in lower case and an argument.
  unfoldable pub parts_of : String → String × String
  parts_of text = elim (cut b' ' text) [
    | none ↦ (to_lower W.lower text, "")
    | some q ↦ (to_lower W.lower q.0, trim_space q.1)
  ]

  -- What `Run` says of an error.
  unfoldable pub told : Outcome → Outcome
  told (some (err e), c) = (some (err e), say (("error: " <> (W.core.render e <> "\n")) ∷ []) c)
  told (some (ok u), c) = (some (ok u), c)
  told (none, c) = (none, c)

  -- What goes on after a line: `Run` goes on unless the command panics.
  unfoldable pub run_line : String → Console → Outcome
  run_line text c =
      let (name, arg) = parts_of text in
      if text == "" then (some (ok tt), c) else told (dispatch name arg c)

  abbrev pub is_quit : String → Bool
  is_quit text = let (name, arg) = parts_of text in name == "quit" || name == "q"

  -- The loop of `Run`, by whether the context has ended while it waits for a line: the line that comes
  -- then is still taken, and the end is found before the next. None is a panic.
  unfoldable pub loop : Bool → List Input → Console → Outcome
  loop over [] c = (some (ok tt), say ("\n> " ∷ "\n" ∷ []) c)
  loop over (broken e ∷ inputs) c = (some (err e), say ("\n> " ∷ "\n" ∷ []) c)
  loop over (ended ∷ inputs) c = (some (ok tt), c)
  loop over (cancelled ∷ inputs) c = loop true inputs c
  loop over (install inv ∷ inputs) c = loop over inputs (set_inventory inv c)
  loop over (line text between ∷ inputs) c =
      let asked = say ("\n> " ∷ []) (record c { arriving = between }) in
      if is_quit (trim_space text)
      then (some (ok tt), asked)
      else let (r, d) = run_line (trim_space text) asked in
        let rest = loop false inputs d in
        elim r [ none ↦ (none, d) | some result ↦ if over then (some (ok tt), d) else rest ]

  abbrev pub banner : String
  banner = "tunnet-lite console. Type \"help\" for commands, \"quit\" to leave.\n\n"

  -- `Run`
  unfoldable pub run : List Input → Console → Outcome
  run inputs c =
      let (r, d) = show_status (say (banner ∷ []) c) in
      elim r [ none ↦ (none, d) | some result ↦ loop false inputs d ]
