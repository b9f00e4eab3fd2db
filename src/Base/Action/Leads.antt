-- ===== src/Base/Action/Leads.antt =====
-- Triples: what holds of the value and the state when an action returns, if something held before.
use mathlib.Core.Path.{◌≡◌, refl, subst}
use mathlib.Core.Bool.{Bool, true, false}
use tunnet_lite.Base.Tests.{if◌then◌else◌}
use tunnet_lite.Base.Results.{Error, Result, ok, err}
use tunnet_lite.Base.Action.{Action, pure, raise, attempt, continue, ◌>>=◌, ◌>>◌}
use tunnet_lite.Base.Action.Rules.{Keeps}

-- Nothing is known.
abbrev pub Anything : {S : Type 0} → S → Type 0
Anything s = Unit {0}

-- From a state where `P` holds, `m` returns only values and states that meet `Q`.
pub record Leads {S A : Type 0} (P : S → Type 0) (m : Action S A) (Q : A → S → Type 0)
    : Type 0 where
  pub at : (s : S) (a : A) → P s → (m s).0 ≡ ok a → Q a (m s).1

module _ {S A : Type 0} {P : S → Type 0} {Q : A → S → Type 0} where
  pub Leads-pure : (a : A) → ((s : S) → P s → Q a s) → Leads P (pure a) Q
  unfolding pure
  Leads-pure a f = record { at = λ s b h e. returned s b h e }
    where
      returned : (s : S) (b : A) → P s → ◌≡◌ {A = Result A} (ok a) (ok b) → Q b s
      returned s b h e = let k : a ≡ b = cc in subst (λ x. Q x s) k (f s h)

  pub Leads-raise : (e : Error) → Leads P (raise e) Q
  unfolding raise
  Leads-raise e = record { at = λ s a h k. cc }

  pub Leads-if :
      (b : Bool) (m n : Action S A) → Leads P m Q → Leads P n Q → Leads P (if b then m else n) Q
  Leads-if true m n hm hn = hm
  Leads-if false m n hm hn = hn

  pub Leads-unless :
      (b : Bool) (m n : Action S A) → b ≡ false → Leads P n Q → Leads P (if b then m else n) Q
  Leads-unless true m n e hn = cc
  Leads-unless false m n e hn = hn

module _ {S A B : Type 0} {Q : B → S → Type 0} where
  Leads-continue :
      (M : A → S → Type 0) (f : A → Action S B) (t : S) (r : Result A) (b : B)
      → ((a : A) → r ≡ ok a → M a t)
      → ((a : A) → Leads (M a) (f a) Q)
      → (continue f r t).0 ≡ ok b
      → Q b (continue f r t).1
  Leads-continue M f t (ok a) b h g e = (g a).at t b (h a refl) e
  Leads-continue M f t (err x) b h g e = cc

module _ {S A B : Type 0} {P : S → Type 0} {Q : B → S → Type 0} where
  pub Leads-bind :
      (M : A → S → Type 0) (m : Action S A) (f : A → Action S B)
      → Leads P m M
      → ((a : A) → Leads (M a) (f a) Q)
      → Leads P (m >>= f) Q
  unfolding ◌>>=◌
  Leads-bind M m f hm hf = record {
    at = λ s b h e. Leads-continue M f (m s).1 (m s).0 b (λ a k. hm.at s a h k) hf e;
  }

  pub Leads-then :
      (M : S → Type 0) (m : Action S A) (n : Action S B)
      → Leads P m (λ a. M)
      → Leads M n Q
      → Leads P (m >> n) Q
  unfolding ◌>>◌
  Leads-then M m n hm hn = Leads-bind (λ a. M) m (λ _. n) hm (λ _. hn)

  -- An action about which nothing has to be known.
  pub Leads-after :
      (m : Action S A) (f : A → Action S B)
      → ((a : A) → Leads Anything (f a) Q)
      → Leads P (m >>= f) Q
  Leads-after m f hf = Leads-bind (λ a s. Unit {0}) m f (record { at = λ s a h e. tt }) hf

  pub Leads-next : (m : Action S A) (n : Action S B) → Leads Anything n Q → Leads P (m >> n) Q
  unfolding ◌>>◌
  Leads-next m n hn = Leads-after m (λ _. n) (λ _. hn)

module _ {S A : Type 0} {P : S → Type 0} {Q : A → S → Type 0} where
  -- The value of an attempt is what the action returned, if it did.
  pub Leads-attempt :
      (m : Action S A) → Leads P m Q → Leads P (attempt m) (λ r t. (a : A) → r ≡ ok a → Q a t)
  unfolding attempt
  Leads-attempt m h = record { at = λ s r p e a k. h.at s a p (cc) }

module _ {S A : Type 0} {P : S → Type 0} where
  -- An action that a property survives, whether it returns or fails.
  pub Leads-Keeps : (m : Action S A) → Keeps (λ s t. P s → P t) m → Leads P m (λ a. P)
  Leads-Keeps m k = record { at = λ s a h e. k.at s h }
