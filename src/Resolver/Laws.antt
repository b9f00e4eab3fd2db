-- ===== src/Resolver/Laws.antt =====
-- Which upstreams a resolver may have, and how a query falls back among them.
use tunnet_lite.Base.{
  ℕ, String, true, false, List, [], ◌∷◌, ◌++◌, All, Error, wrapf, Result, ok, err, string_eq, ◌≡◌,
  refl, arith,
}
use mathlib.Core.Path.{subst}
use tunnet_lite.Base.Texts.{trim_space}
use tunnet_lite.Base.Action.{pure, raise, attempt, ◌>>=◌}
use tunnet_lite.Resolver.{
  Net, Url, Resource, exchange, query_each, check_url, check_upstream, push_front, check_upstreams,
  validate_upstreams,
}

module _ (N : Net) where
  -- The text of an HTTPS URL without a user, whose host is a literal address.
  pub record IsUpstream (text : String) : Type 0 where
    pub url : Url
    pub parsed : N.parse_url text ≡ ok url
    pub https : url.scheme ≡ "https"
    pub no_user : url.has_user ≡ false
    pub literal : N.is_ip url.hostname ≡ true

  check_url-eq-ok :
      (raw text : String) (u : Url)
      → check_url N raw (ok u) ≡ ok text
      → (u.scheme ≡ "https")
        × (u.has_user ≡ false)
        × (N.is_ip u.hostname ≡ true)
        × (trim_space raw ≡ text)
  unfolding check_url
  check_url-eq-ok raw text u h = (ground arith, ground arith, ground arith, ground arith)

  check_upstream-IsUpstream : (raw text : String) → check_upstream N raw ≡ ok text → IsUpstream text
  unfolding check_upstream
  check_upstream-IsUpstream raw text h = parsed (N.parse_url (trim_space raw)) refl h
    where
      parsed :
          (r : Result Url)
          → N.parse_url (trim_space raw) ≡ r
          → check_url N raw r ≡ ok text
          → IsUpstream text
      parsed (err e) k g = unfold check_url in cc
      parsed (ok u) k g =
          let (a, b, c, d) = check_url-eq-ok raw text u g in
          subst IsUpstream d (record { url = u; parsed = k; https = a; no_user = b; literal = c })

  push_front-All :
      (text : String) (r : Result (List String)) (urls : List String)
      → push_front N text r ≡ ok urls
      → IsUpstream text
      → ((rest : List String) → r ≡ ok rest → All IsUpstream rest)
      → All IsUpstream urls
  push_front-All text (err e) urls h u k = cc
  push_front-All text (ok rest) urls h u k =
      let e : text ∷ rest ≡ urls = cc in subst (All IsUpstream) e (u, k rest refl)

  check_upstreams-All :
      (raws urls : List String) → check_upstreams N raws ≡ ok urls → All IsUpstream urls
  unfolding check_upstreams
  check_upstreams-All [] urls h = let e : [] ≡ urls = cc in subst (All IsUpstream) e tt
  check_upstreams-All (raw ∷ raws) urls h =
      checked (check_upstream N raw) refl (λ rest e. check_upstreams-All raws rest e) h
    where
      checked :
          (r : Result String)
          → check_upstream N raw ≡ r
          → ((rest : List String) → check_upstreams N raws ≡ ok rest → All IsUpstream rest)
          → elim r as (λ _. Result (List String)) [
            | err e ↦ err e
            | ok url ↦ push_front N url (check_upstreams N raws)
          ]
            ≡ ok urls
          → All IsUpstream urls
      checked (err e) k ih g = cc
      checked (ok text) k ih g =
          push_front-All text (check_upstreams N raws) urls g (check_upstream-IsUpstream raw text k)
            ih

  -- Every upstream of a resolver that `NewDoH` makes is an HTTPS URL without a user whose host is a
  -- literal address, so that resolving never needs a name resolved.
  pub validate_upstreams-All :
      (upstreams urls : List String)
      → validate_upstreams N upstreams ≡ ok urls
      → All IsUpstream urls
  unfolding validate_upstreams
  validate_upstreams-All upstreams urls h = check_upstreams-All _ urls h

  -- Exchanges that fail, one upstream after the other.
  pub data Fails (wire : List ℕ) : List String → N.World → N.World → Type 0 where
    start : (w : N.World) → Fails wire [] w w
    next :
        (u : String) (us : List String) (w v : N.World) (e : Error)
        → (exchange N u wire w).0 ≡ err e
        → Fails wire us (exchange N u wire w).1 v
        → Fails wire (u ∷ us) w v

  -- A query over the upstreams either ends at the first that answers, with its answers, after those before
  -- it have failed in turn, or fails after all have failed.
  pub data Queries (wire : List ℕ)
      : List String → N.World → Result (List Resource) × N.World → Type 0 where
    answered :
        (before after : List String) (u : String) (w v : N.World) (answers : List Resource)
        → Fails wire before w v
        → (exchange N u wire v).0 ≡ ok answers
        → Queries wire (before ++ (u ∷ after)) w (ok answers, (exchange N u wire v).1)
    exhausted :
        (us : List String) (w v : N.World) (e : Error)
        → Fails wire us w v
        → Queries wire us w (err e, v)

  Queries-more :
      (wire : List ℕ) (u : String) (us : List String) (w : N.World) (e : Error)
      (out : Result (List Resource) × N.World)
      → (exchange N u wire w).0 ≡ err e
      → Queries wire us (exchange N u wire w).1 out
      → Queries wire (u ∷ us) w out
  Queries-more wire u us w e out h (answered before after x w_0 v answers f k) =
      answered (u ∷ before) after x w v answers (next u before w v e h f) k
  Queries-more wire u us w e out h (exhausted us_0 w_0 v x f) =
      exhausted (u ∷ us) w v x (next u us w v e h f)

  -- The loop of `query` does what the relation says: the first upstream that answers gives the result,
  -- and there is an error only after every upstream has been tried and has failed.
  pub query_each-Queries :
      (name : String) (wire : List ℕ) (us : List String) (errs : List Error) (w : N.World)
      → Queries wire us w (query_each N name wire us errs w)
  unfolding query_each ◌>>=◌ attempt
  query_each-Queries name wire [] errs w = unfold raise in exhausted [] w w _ (start w)
  query_each-Queries name wire (u ∷ us) errs w = tried (exchange N u wire w).0 refl (λ e.
      query_each-Queries name wire us (errs ++ (wrapf "%s: %w" (u ∷ []) e ∷ []))
        (exchange N u wire w).1)
    where
      tried :
          (r : Result (List Resource))
          → (exchange N u wire w).0 ≡ r
          → ((e : Error)
              → Queries wire us (exchange N u wire w).1 (
                  query_each N name wire us
                    (errs ++ (wrapf "%s: %w" (u ∷ []) e ∷ []))
                    (exchange N u wire w).1))
          → Queries wire (u ∷ us) w (
              (elim r as (λ _. N.World → Result (List Resource) × N.World) [
                | ok answers ↦ pure answers
                | err e ↦ query_each N name wire us (errs ++ (wrapf "%s: %w" (u ∷ []) e ∷ []))
              ])
                (exchange N u wire w).1)
      tried (ok answers) k ih = unfold pure in answered [] us u w w answers (start w) k
      tried (err e) k ih = Queries-more wire u us w e _ k (ih e)
