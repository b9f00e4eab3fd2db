-- ===== src/Base/Action.antt =====
-- Actions on a state, which may fail: `pure` is a return, `raise` a return of an error, and `>>=` what
-- follows a call whose error is looked at. A call of code outside the program is an action of its own.
pub mod Rules
pub mod Leads
use mathlib.Core.Option.{Option, none, some}
use tunnet_lite.Base.Results.{Error, Result, ok, err}

abbrev pub Action : Type 0 → Type 0 → Type 0
Action S A = S → Result A × S

-- The result of a call that gives nothing but an error, which is nil if all went well.
abbrev pub or_error : Option Error → Result (Unit {0})
or_error none = ok tt
or_error (some e) = err e

module _ {S : Type 0} where
  unfoldable pub pure : {A : Type 0} → A → Action S A
  pure a s = (ok a, s)

  unfoldable pub raise : {A : Type 0} → Error → Action S A
  raise e s = (err e, s)

  unfoldable pub lift : {A : Type 0} → Result A → Action S A
  lift r s = (r, s)

  unfoldable pub gets : {A : Type 0} → (S → A) → Action S A
  gets f s = (ok (f s), s)

  -- The error as a value: what Go does when it looks at `err` and goes on.
  unfoldable pub attempt : {A : Type 0} → Action S A → Action S (Result A)
  attempt m s = let (r, t) = m s in (ok r, t)

  -- Such a call.
  unfoldable pub check : (S → Option Error × S) → Action S (Unit {0})
  check f s = let (e, t) = f s in (or_error e, t)

  -- What follows a result: the next action after a value, nothing after an error.
  abbrev pub continue : {A B : Type 0} → (A → Action S B) → Result A → S → Result B × S
  continue f (ok a) t = f a t
  continue f (err e) t = (err e, t)

  infixl 5 ◌>>=◌ ◌>>◌
  unfoldable pub ◌>>=◌ : {A B : Type 0} → Action S A → (A → Action S B) → Action S B
  ◌>>=◌ m f s = let (r, t) = m s in continue f r t

  unfoldable pub ◌>>◌ : {A B : Type 0} → Action S A → Action S B → Action S B
  unfolding ◌>>=◌
  m >> k = m >>= λ _. k
