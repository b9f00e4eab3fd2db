-- ===== src/Base/Results.antt =====
-- Go's `(value, error)` results. An error keeps the format of its message and the arguments,
-- unrendered; `wrapf` is `fmt.Errorf` with one `%w`, which `errors.Is` and `errors.As` see through.
use Prim.Native.String.{String}
use mathlib.Core.Path.{◌≡◌, refl}
use mathlib.Core.Bool.{Bool, true, false}
use mathlib.Core.List.{List}
use mathlib.Core.Option.{Option, none, some}

pub data Error : Type 0 where
  -- `errors.New`, or `fmt.Errorf` without `%w`: the format and the arguments
  errorf : String → List String → Error
  wrapf : String → List String → Error → Error
  -- `os.ErrNotExist`
  not_exist : Error
  -- `*control.NeedsAuthorizationError`: the ticket and the verification URL
  needs_authorization : String → String → Error
  -- `*pinning.MismatchError`: the host, the stored pins and the presented ones
  pin_mismatch : String → List String → List String → Error

pub data Result {ℓ} (T : Type ℓ) : Type ℓ where
  ok : T → Result T
  err : Error → Result T

-- `if bad { return err }`
abbrev pub fail_if : Bool → Error → Result (Unit {0})
fail_if true e = err e
fail_if false e = ok tt

-- `if err != nil { return err }` between two calls.
infixl 5 ◌>>=◌ ◌>>◌
abbrev pub ◌>>=◌ {ℓ κ} : {T : Type ℓ} {U : Type κ} → Result T → (T → Result U) → Result U
◌>>=◌ (err e) next = err e
◌>>=◌ (ok value) next = next value

abbrev pub ◌>>◌ {κ} : {U : Type κ} → Result (Unit {0}) → Result U → Result U
◌>>◌ check next = check >>= λ done. next

-- A failure, wrapped in a message.
abbrev pub context {ℓ} : {A : Type ℓ} → String → List String → Result A → Result A
context f args (ok a) = ok a
context f args (err e) = err (wrapf f args e)

-- `errors.Is(err, os.ErrNotExist)`
abbrev pub is_not_exist : Error → Bool
is_not_exist not_exist = true
is_not_exist (wrapf f args e) = is_not_exist e
is_not_exist _ = false

-- `errors.As(err, &needsAuth)`: the verification URL of the error that is found
abbrev pub as_needs_authorization : Error → Option String
as_needs_authorization (needs_authorization ticket url) = some url
as_needs_authorization (wrapf f args e) = as_needs_authorization e
as_needs_authorization _ = none

abbrev pub is_ok {ℓ} : {A : Type ℓ} → Result A → Bool
is_ok (ok a) = true
is_ok (err e) = false

-- Two calls succeed only if both do.
pub >>=-eq-ok {ℓ κ} :
    {T : Type ℓ} {U : Type κ} (first : Result T) (next : T → Result U) {u : U}
    → (first >>= next) ≡ ok u
    → (value : T) × (first ≡ ok value) × (next value ≡ ok u)
>>=-eq-ok (err e) next both = cc
>>=-eq-ok (ok value) next both = (value, refl, both)

pub context-eq-ok {ℓ} :
    {A : Type ℓ} (f : String) (args : List String) (m : Result A) {a : A}
    → context f args m ≡ ok a
    → m ≡ ok a
context-eq-ok f args (ok a) h = h
context-eq-ok f args (err e) h = cc
