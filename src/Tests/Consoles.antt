-- ===== src/Tests/Consoles.antt =====
-- The console, on concrete data.
use tunnet_lite.Base.{
  suc, ◌++◌, some, get_elem?, refl, ◌==◌, ◌≡◌, sym, ap, string_eq, false, String, ℕ, ◌<◌, true,
  List, [], ◌∷◌, none, All, ok, ◌≢◌,
}
use tunnet_lite.Engine.{new_engine}
use tunnet_lite.Engine.Laws.{fresh}
use tunnet_lite.Xcfg.Assets.{Files}
use tunnet_lite.Console.{
  World, Console, Input, line, install, dispatch, run, slug_of, off_list, numbered,
}
use tunnet_lite.Console.Listed.{IsRow, slug_of-listed}
use tunnet_lite.Base.Int.{pos}
use tunnet_lite.Base.Texts.{atoi}
use tunnet_lite.Console.Quiet.{dispatch-engine}
use tunnet_lite.Console.Safe.{IsWell}
use tunnet_lite.Console.Laws.{IsSound, run-IsOver}
use tunnet_lite.Tests.Data.{first_inventory}
use tunnet_lite.Tests.Inventories.{first-IsUsable}
use tunnet_lite.Tests.Sessions.{script, paths, begin}
use tunnet_lite.Tests.Services.{core, outside, choices}

abbrev rule_files : Files
rule_files = record {
  World = ℕ;
  absolute = λ path. ok path;
  dir_of = λ path. "rules";
  set_location = λ dir w. (none, w);
  location = λ name w. name;
  there = λ path w. true;
}

abbrev around : World
around = record {
  nodes = outside;
  core = core;
  control = script;
  files = rule_files;
  lower = λ c. c;
  show_time = λ t. "00:00:00";
}

abbrev panel : Console around paths true
panel = record {
  inv = first_inventory;
  opts = choices;
  engine = new_engine core;
  core = 0;
  nodes = 0;
  session = begin;
  files = 0;
  out = [];
  arriving = [];
}

panel-IsWell : IsWell around paths true panel
panel-IsWell = record {
  usable = first-IsUsable;
  serving = record { reached = fresh; entries = tt };
  settled = refl;
}

abbrev typed : List Input
typed =
    line "exit 1" []
    ∷ line "start" []
    ∷ line "udp on" []
    ∷ install first_inventory
    ∷ line "refresh" []
    ∷ line "start" []
    ∷ line "stop" []
    ∷ line "quit" []
    ∷ []

draws : (w n : ℕ) → 0 < n → outside.draw w n < n
draws w n h = h

typed-IsSound : All IsSound typed
typed-IsSound = (refl, (refl, (refl, (first-IsUsable, (refl, (refl, (refl, (refl, tt))))))))

run-IsOver_example :
    ((run around paths true typed panel).0 ≢ none)
    × IsWell around paths true (run around paths true typed panel).1
run-IsOver_example = run-IsOver around paths true draws typed panel typed-IsSound panel-IsWell

abbrev typed_name : String
typed_name = "udp"

differ : false ≡ true → ⊥
differ e = cc

not_start : typed_name ≢ "start"
unfolding string_eq
not_start e = differ (sym (ap (λ s. s == "udp") e))

not_stop : typed_name ≢ "stop"
unfolding string_eq
not_stop e = differ (sym (ap (λ s. s == "udp") e))

dispatch-engine_example : (dispatch around paths true typed_name "on" panel).1.engine ≡ panel.engine
dispatch-engine_example = dispatch-engine around paths true typed_name "on" panel not_start not_stop

is_two : atoi "2" ≡ some (pos 2)
unfolding atoi
is_two = refl

is_tokyo : slug_of "2" first_inventory.hosts first_inventory.hosts ≡ some (ok "jp")
unfolding slug_of atoi numbered off_list
is_tokyo = refl

slug_of-listed_example :
    (rows : List String) × (i : ℕ) × (row : String) × ((dispatch around paths true "exits" ""
        panel).1.out
      ≡ [] ++ rows)
    × (pos 2 ≡ pos (suc i))
    × (get_elem? rows i ≡ some row)
    × IsRow row "jp" (suc i)
slug_of-listed_example = slug_of-listed around paths true panel "2" (pos 2) "jp" is_two is_tokyo

-- An inventory without hosts is installed after the number was checked.
is_out_of_range : slug_of "2" first_inventory.hosts [] ≡ none
unfolding slug_of atoi numbered off_list
is_out_of_range = refl
