-- ===== src/Console/Ends.antt =====
-- The console ends when it is told to.
use tunnet_lite.Base.{Bool, true, List, [], ◌∷◌, Error, String, ◌≡◌}
use tunnet_lite.Base.Texts.{trim_space}
use tunnet_lite.Inventory.{Inventory}
use tunnet_lite.Control.Session.{Paths}
use tunnet_lite.Console.{World, Console, Input, line, cancelled, ended, broken, is_quit}

module _ (W : World) (p : Paths) (has_session : Bool) where
  -- What makes `Run` return: a line that says to quit, an error of the reader, the end of the context
  -- where the loop looks for it, or any line that follows the end of the context.
  pub data Ends : List Input → Type 0 where
    quits :
        (text : String) (between : List Inventory)
        → is_quit W p has_session (trim_space text) ≡ true
        → Ends (line text between ∷ [])
    fails : (e : Error) → Ends (broken e ∷ [])
    finds : Ends (ended ∷ [])
    last_line :
        (text : String) (between : List Inventory) → Ends (cancelled ∷ line text between ∷ [])
