-- ===== src/Base/Action/Rules.antt =====
-- Properties of actions, with one rule for each way to build an action.
use mathlib.Core.Path.{◌≡◌, refl}
use mathlib.Core.Bool.{Bool, true, false}
use native.Mathlib.Omega.{arith}
use tunnet_lite.Base.Tests.{if◌then◌else◌}
use tunnet_lite.Base.Results.{Error, Result, ok, err}
use tunnet_lite.Base.Action.{Action, pure, raise, lift, gets, attempt, continue, ◌>>=◌, ◌>>◌}

-- `m` leads only to states that `R` relates to where it began, whether it returns or fails.
pub record Keeps {S A : Type 0} (R : S → S → Type 0) (m : Action S A) : Type 0 where
  pub at : (s : S) → R s (m s).1

-- What `m` returns, if it returns, meets `Q`.
pub record Gives {S A : Type 0} (Q : A → Type 0) (m : Action S A) : Type 0 where
  pub at : (s : S) (a : A) → (m s).0 ≡ ok a → Q a

-- A relation that a chain of actions can go along.
pub record IsPreorder {S : Type 0} (R : S → S → Type 0) : Type 0 where
  pub same : (s : S) → R s s
  pub chain : (s t u : S) → R s t → R t u → R s u

module _ {S : Type 0} {R : S → S → Type 0} (o : IsPreorder R) where
  pub Keeps-pure : {A : Type 0} (a : A) → Keeps R (pure a)
  unfolding pure
  Keeps-pure a = record { at = λ s. o.same s }

  pub Keeps-raise : {A : Type 0} (e : Error) → Keeps R (raise {A = A} e)
  unfolding raise
  Keeps-raise e = record { at = λ s. o.same s }

  pub Keeps-lift : {A : Type 0} (r : Result A) → Keeps R (lift r)
  unfolding lift
  Keeps-lift r = record { at = λ s. o.same s }

  pub Keeps-gets : {A : Type 0} (f : S → A) → Keeps R (gets f)
  unfolding gets
  Keeps-gets f = record { at = λ s. o.same s }

  pub Keeps-attempt : {A : Type 0} (m : Action S A) → Keeps R m → Keeps R (attempt m)
  unfolding attempt
  Keeps-attempt m k = record { at = λ s. k.at s }

  Keeps-continue :
      {A B : Type 0} (f : A → Action S B) (s t : S) (r : Result A)
      → ((a : A) → Keeps R (f a))
      → R s t
      → R s (continue f r t).1
  Keeps-continue f s t (ok a) kf h = o.chain s t (f a t).1 h ((kf a).at t)
  Keeps-continue f s t (err e) kf h = h

  pub Keeps-bind :
      {A B : Type 0} (m : Action S A) (f : A → Action S B)
      → Keeps R m
      → ((a : A) → Keeps R (f a))
      → Keeps R (m >>= f)
  unfolding ◌>>=◌
  Keeps-bind m f km kf = record { at = λ s. Keeps-continue f s (m s).1 (m s).0 kf (km.at s) }

  pub Keeps-then :
      {A B : Type 0} (m : Action S A) (n : Action S B) → Keeps R m → Keeps R n → Keeps R (m >> n)
  unfolding ◌>>◌
  Keeps-then m n km kn = Keeps-bind m (λ _. n) km (λ _. kn)

  pub Keeps-if :
      {A : Type 0} (b : Bool) (m n : Action S A)
      → Keeps R m
      → Keeps R n
      → Keeps R (if b then m else n)
  Keeps-if true m n km kn = km
  Keeps-if false m n km kn = kn

pub ruleset keeps_rules = (
  Keeps-pure, Keeps-raise, Keeps-lift, Keeps-gets, Keeps-attempt, Keeps-bind, Keeps-then, Keeps-if,
)

module _ {S A : Type 0} {Q : A → Type 0} where
  pub Gives-lift : (r : Result A) → ((a : A) → r ≡ ok a → Q a) → Gives {S = S} Q (lift r)
  unfolding lift
  Gives-lift r h = record { at = λ s a e. h a e }

  pub Gives-raise : (e : Error) → Gives {S = S} Q (raise e)
  unfolding raise
  Gives-raise e = record { at = λ s a h. cc }

  pub Gives-pure : (a : A) → Q a → Gives {S = S} Q (pure a)
  unfolding pure
  Gives-pure a q = record { at = λ s b h. ground arith }

  pub Gives-attempt :
      (m : Action S A) → Gives Q m → Gives (λ r. (a : A) → r ≡ ok a → Q a) (attempt m)
  unfolding attempt
  Gives-attempt m g = record { at = λ s r h a e. g.at s a (ground arith) }

  pub Gives-if :
      (b : Bool) (m n : Action S A) → Gives Q m → Gives Q n → Gives Q (if b then m else n)
  Gives-if true m n gm gn = gm
  Gives-if false m n gm gn = gn

module _ {S A B : Type 0} {Q : B → Type 0} where
  Gives-continue :
      (P : A → Type 0) (f : A → Action S B) (t : S) (r : Result A) (b : B)
      → ((a : A) → r ≡ ok a → P a)
      → ((a : A) → P a → Gives Q (f a))
      → (continue f r t).0 ≡ ok b
      → Q b
  Gives-continue P f t (ok a) b h g e = (g a (h a refl)).at t b e
  Gives-continue P f t (err x) b h g e = absurd (cc)

  -- The rest of a block may use what the first action is known to give.
  pub Gives-bind_known :
      (P : A → Type 0) (m : Action S A) (f : A → Action S B)
      → Gives P m
      → ((a : A) → P a → Gives Q (f a))
      → Gives Q (m >>= f)
  unfolding ◌>>=◌
  Gives-bind_known P m f gm gf = record {
    at = λ s b e. Gives-continue P f (m s).1 (m s).0 b (λ a h. gm.at s a h) gf e;
  }

  pub Gives-bind :
      (m : Action S A) (f : A → Action S B) → ((a : A) → Gives Q (f a)) → Gives Q (m >>= f)
  Gives-bind m f gf =
      Gives-bind_known (λ _. Unit {0}) m f (record { at = λ s a e. tt }) (λ a _. gf a)

  pub Gives-then : (m : Action S A) (n : Action S B) → Gives Q n → Gives Q (m >> n)
  unfolding ◌>>◌
  Gives-then m n g = Gives-bind m (λ _. n) (λ _. g)

module _ {S : Type 0} {R : S → S → Type 0} (o : IsPreorder R) {A B : Type 0} where
  Keeps-continue_known :
      (P : A → Type 0) (f : A → Action S B) (s t : S) (r : Result A)
      → ((a : A) → r ≡ ok a → P a)
      → ((a : A) → P a → Keeps R (f a))
      → R s t
      → R s (continue f r t).1
  Keeps-continue_known P f s t (ok a) g kf h = o.chain s t (f a t).1 h ((kf a (g a refl)).at t)
  Keeps-continue_known P f s t (err e) g kf h = h

  -- The rest of a block may use what the first action is known to give.
  pub Keeps-bind_known :
      (P : A → Type 0) (m : Action S A) (f : A → Action S B)
      → Gives P m
      → Keeps R m
      → ((a : A) → P a → Keeps R (f a))
      → Keeps R (m >>= f)
  unfolding ◌>>=◌
  Keeps-bind_known P m f g km kf = record {
    at = λ s. Keeps-continue_known P f s (m s).1 (m s).0 (λ a e. g.at s a e) kf (km.at s);
  }

module _ {S A B : Type 0} where
  -- A block that returns goes through a value of its first action, and ends as the rest does from there.
  pub bind_inv :
      (m : Action S A) (f : A → Action S B) (s : S) (b : B)
      → ((m >>= f) s).0 ≡ ok b
      → (a : A) × ((m s).0 ≡ ok a) × ((m >>= f) s ≡ f a (m s).1)
  unfolding ◌>>=◌
  bind_inv m f s b h = through (m s).0 (m s).1 h
    where
      through :
          (r : Result A) (t : S)
          → (continue f r t).0 ≡ ok b
          → (a : A) × (r ≡ ok a) × (continue f r t ≡ f a t)
      through (ok a) t h = (a, refl, refl)
      through (err e) t h = cc
