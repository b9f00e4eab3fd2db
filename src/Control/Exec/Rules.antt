-- ===== src/Control/Exec/Rules.antt =====
-- The rules for a call of the environment.
use tunnet_lite.Base.{Option, Error, Result}
use tunnet_lite.Base.Action.Rules.{Keeps}
use tunnet_lite.Control.Exec.{State, call, call_unit}

-- A relation that the world has no part in.
pub record IsUntouched {W : Type 0} (R : State W → State W → Type 0) : Type 0 where
  pub world : (s : State W) (w : W) → R s (record s { world = w })

module _ {W : Type 0} {R : State W → State W → Type 0} (o : IsUntouched R) where
  pub Keeps-call : {A : Type 0} (f : W → Result A × W) → Keeps R (call f)
  unfolding call
  Keeps-call f = record { at = λ s. o.world s (f s.world).1 }

  pub Keeps-call_unit : (f : W → Option Error × W) → Keeps R (call_unit f)
  unfolding call_unit
  Keeps-call_unit f = record { at = λ s. o.world s (f s.world).1 }

pub ruleset call_rules = (Keeps-call, Keeps-call_unit)
