-- ===== src/Rules/Cost.antt =====
-- How many requests a fetch makes.
use tunnet_lite.Base.{
  ℕ, zero, suc, ◌+◌, ◌*◌, ◌≤◌, String, Bool, true, false, List, [], ◌∷◌, Option, none, some, Error,
  Result, ok, err, nat_eq, string_eq, if◌then◌else◌, arith,
}
use tunnet_lite.Base.Action.{Action, pure, raise, lift, gets, attempt, continue, ◌>>=◌, ◌>>◌}
use tunnet_lite.Base.Dict.{erase}
use tunnet_lite.Rules.{
  Response, Net, Fetcher, Round, done, again, Local, call, put, get, digest, create, copied, copy,
  download, renamed, rename, remove, mismatch, move, judge, round, rounds, attempts_of,
  fetch_target, fetch_one, fetch_all, make_dir, fetch,
}

module _ (N : Net) (count : N.World → ℕ) where
  -- A request adds at most one to the count, and no other call adds to it.
  pub record IsCount : Type 0 where
    pub fetch : (url : String) (w : N.World) → count (N.fetch url w).1 ≤ count w + 1
    pub make_dir : (dir : String) (w : N.World) → count (N.make_dir dir w).1 ≤ count w
    pub create : (path : String) (w : N.World) → count (N.create path w).1 ≤ count w
    pub rename : (a b : String) (w : N.World) → count (N.rename a b w).1 ≤ count w
    pub remove : (path : String) (w : N.World) → count (N.remove path w).1 ≤ count w
    pub write :
        (path : String) (bytes : List ℕ) (w : N.World) → count (N.write path bytes w).1 ≤ count w

  -- An action that makes at most `n` requests.
  pub record Costs {A : Type 0} (n : ℕ) (m : Action (Local N) A) : Type 0 where
    pub at : (s : Local N) → count (m s).1.world ≤ count s.world + n

  Costs-pure : {A : Type 0} (n : ℕ) (a : A) → Costs n (pure a)
  unfolding pure
  Costs-pure n a = record { at = λ s. omega arith }

  Costs-raise : {A : Type 0} (n : ℕ) (e : Error) → Costs {A = A} n (raise e)
  unfolding raise
  Costs-raise n e = record { at = λ s. omega arith }

  Costs-lift : {A : Type 0} (n : ℕ) (r : Result A) → Costs n (lift r)
  unfolding lift
  Costs-lift n r = record { at = λ s. omega arith }

  Costs-gets : {A : Type 0} (n : ℕ) (f : Local N → A) → Costs n (gets f)
  unfolding gets
  Costs-gets n f = record { at = λ s. omega arith }

  Costs-attempt : {A : Type 0} (n : ℕ) (m : Action (Local N) A) → Costs n m → Costs n (attempt m)
  unfolding attempt
  Costs-attempt n m c = record { at = λ s. c.at s }

  Costs-if :
      {A : Type 0} (n : ℕ) (b : Bool) (l m : Action (Local N) A)
      → Costs n l
      → Costs n m
      → Costs n (if b then l else m)
  Costs-if n true l m c d = c
  Costs-if n false l m c d = d

  Costs-bind :
      {A B : Type 0} (n k : ℕ) (m : Action (Local N) A) (f : A → Action (Local N) B)
      → Costs n m
      → ((a : A) → Costs k (f a))
      → Costs (n + k) (m >>= f)
  unfolding ◌>>=◌
  Costs-bind {A} {B} n k m f c d = record { at = λ s. after s (m s).0 (m s).1 (c.at s) }
    where
      after :
          (s : Local N) (r : Result A) (t : Local N)
          → count t.world ≤ count s.world + n
          → count (continue f r t).1.world ≤ count s.world + (n + k)
      after s (ok a) t h = let g = (d a).at t in omega arith
      after s (err e) t h = omega arith

  Costs-le : {A : Type 0} (n k : ℕ) (m : Action (Local N) A) → n ≤ k → Costs n m → Costs k m
  Costs-le n k m h c = record { at = λ s. let g = c.at s in omega arith }

  Costs-then :
      {A B : Type 0} (n k : ℕ) (m : Action (Local N) A) (l : Action (Local N) B)
      → Costs n m
      → Costs k l
      → Costs (n + k) (m >> l)
  unfolding ◌>>◌
  Costs-then n k m l c d = Costs-bind n k m (λ _. l) c (λ _. d)

  module _ (i : IsCount) (f : Fetcher) where
    request-Costs : (url : String) → Costs 1 (call N (N.fetch url))
    unfolding call
    request-Costs url = record { at = λ s. i.fetch url s.world }

    get-Costs : (name : String) → Costs 1 (get N f name)
    unfolding get
    get-Costs name =
        Costs-bind 1 0 _ _ (request-Costs _)
          (λ resp. Costs-if 0 _ _ _ (Costs-pure 0 resp) (Costs-raise 0 _))

    digest-Costs : (name : String) → Costs 1 (digest N f name)
    unfolding digest
    digest-Costs name =
        Costs-bind 1 0 _ _ (get-Costs _)
          (λ resp. Costs-bind 0 0 _ _ (Costs-lift 0 _) (λ bytes. Costs-lift 0 _))

    create-Costs : (path : String) → Costs 0 (create N path)
    unfolding create call put
    create-Costs path = record {
      at = λ s.
          let h = i.create path s.world in
          made s (N.create path s.world).0 (N.create path s.world).1 h;
    }
      where
        made :
            (s : Local N) (e : Option Error) (w : N.World)
            → count w ≤ count s.world
            → count
                (elim e as (λ _. Result (Unit {0}) × Local N) [
                  | none ↦ (ok tt, put N path [] (record s { world = w }))
                  | some x ↦ (err x, record s { world = w })
                ]).1.world
              ≤ count s.world + 0
        made s none w h = omega arith
        made s (some x) w h = omega arith

    copy-Costs : (path : String) (resp : Response) → Costs 0 (copy N path resp)
    unfolding copy call copied put
    copy-Costs path resp = record {
      at = λ s.
          let h = i.write path resp.body s.world in
          written s resp.broken (N.write path resp.body s.world).0
            (N.write path resp.body s.world).1 h;
    }
      where
        written :
            (s : Local N) (b : Option Error) (e : Option (List ℕ × Error)) (w : N.World)
            → count w ≤ count s.world
            → count (copied N path resp.body b e (record s { world = w })).1.world
              ≤ count s.world + 0
        written s b (some (landed, x)) w h = omega arith
        written s (some x) none w h = omega arith
        written s none none w h = omega arith

    download-Costs : (name path : String) → Costs 1 (download N f name path)
    unfolding download
    download-Costs name path =
        Costs-bind 1 0 _ _ (get-Costs name)
          (λ resp. Costs-then 0 0 _ _ (create-Costs path) (copy-Costs path resp))

    rename-Costs : (a b : String) → Costs 0 (rename N a b)
    unfolding rename call renamed
    rename-Costs a b = record {
      at = λ s.
          let h = i.rename a b s.world in
          moved s (N.rename a b s.world).0 (N.rename a b s.world).1 h;
    }
      where
        moved :
            (s : Local N) (e : Option Error) (w : N.World)
            → count w ≤ count s.world
            → count (renamed N a b e (record s { world = w })).1.world ≤ count s.world + 0
        moved s none w h = omega arith
        moved s (some x) w h = omega arith

    remove-Costs : (path : String) → Costs 0 (remove N path)
    unfolding remove call
    remove-Costs path = record {
      at = λ s.
          let h = i.remove path s.world in
          gone s (N.remove path s.world).0 (N.remove path s.world).1 h;
    }
      where
        gone :
            (s : Local N) (e : Option Error) (w : N.World)
            → count w ≤ count s.world
            → count
                (elim e as (λ _. Result (Unit {0}) × Local N) [
                  | some x ↦ (ok tt, record s { world = w })
                  | none ↦ (ok tt, record s { files = erase path s.files; world = w })
                ]).1.world
              ≤ count s.world + 0
        gone s none w h = omega arith
        gone s (some x) w h = omega arith

    mismatch-Costs : (target : String) (a n : ℕ) → Costs 0 (mismatch N target a n)
    unfolding mismatch
    mismatch-Costs target a n = Costs-then 0 0 _ _ (remove-Costs _) (Costs-pure 0 _)

    move-Costs : (target : String) → Costs 0 (move N target)
    unfolding move
    move-Costs target =
        Costs-bind 0 0 _ _ (Costs-attempt 0 _ (rename-Costs _ _)) (λ r. Costs-pure 0 _)

    judge-Costs :
        (target want : String) (a n : ℕ) (r : Result (ℕ × String))
        → Costs 0 (judge N target want a n r)
    unfolding judge
    judge-Costs target want a n (err e) = Costs-pure 0 _
    judge-Costs target want a n (ok q) =
        Costs-if 0 _ _ _ (mismatch-Costs target a n) (move-Costs target)

    round-Costs : (name target want : String) (a n : ℕ) → Costs 1 (round N f name target want a n)
    unfolding round
    round-Costs name target want a n =
        Costs-bind 1 0 _ _ (Costs-attempt 1 _ (download-Costs name _))
          (λ r. judge-Costs target want a n r)

    -- As many requests as there are rounds left.
    rounds-Costs :
        (name target want : String) (a left n : ℕ) (last : Option Error)
        → Costs left (rounds N f name target want a left n last)
    unfolding rounds
    rounds-Costs name target want a zero n last = Costs-lift 0 _
    rounds-Costs name target want a (suc left) n last =
        Costs-le (1 + left) (suc left) _ (omega arith) (
          Costs-bind 1 left _ _ (round-Costs name target want a n)
            (next (λ e. rounds-Costs name target want a left (suc n) (some e))))
      where
        next :
            ((e : Error) → Costs left (rounds N f name target want a left (suc n) (some e)))
            → (r : Round)
            → Costs left (elim r as (λ _. Action (Local N) (Unit {0})) [
              | done result ↦ lift result
              | again e ↦ rounds N f name target want a left (suc n) (some e)
            ])
        next ih (done result) = Costs-lift left result
        next ih (again e) = ih e

    fetch_target-Costs :
        (target name want : String) → Costs (attempts_of f) (fetch_target N f target name want)
    unfolding fetch_target
    fetch_target-Costs target name want =
        Costs-le (0 + attempts_of f) (attempts_of f) _ (omega arith) (
          Costs-bind 0 (attempts_of f) _ _ (Costs-gets 0 _) (λ got.
            Costs-if (attempts_of f) _ _ _ (Costs-pure (attempts_of f) tt)
              (rounds-Costs name target want (attempts_of f) (attempts_of f) 1 none)))

    fetch_one-Costs : (dir name : String) → Costs (1 + attempts_of f) (fetch_one N f dir name)
    unfolding fetch_one
    fetch_one-Costs dir name =
        Costs-bind 1 (attempts_of f) _ _ (digest-Costs name)
          (λ want. fetch_target-Costs _ name want)

    -- The requests for so many files.
    abbrev cost_of : List String → ℕ
    cost_of [] = 0
    cost_of (name ∷ names) = (1 + attempts_of f) + cost_of names

    fetch_all-Costs :
        (dir : String) (names : List String) → Costs (cost_of names) (fetch_all N f dir names)
    unfolding fetch_all
    fetch_all-Costs dir [] = Costs-pure 0 tt
    fetch_all-Costs dir (name ∷ names) =
        Costs-bind (1 + attempts_of f) (cost_of names) _ _
          (Costs-attempt (1 + attempts_of f) _ (fetch_one-Costs dir name))
          (λ r.
            Costs-le (0 + cost_of names) (cost_of names) _ (omega arith)
              (Costs-then 0 (cost_of names) _ _ (Costs-lift 0 _) (fetch_all-Costs dir names)))

    make_dir-Costs : (dir : String) → Costs 0 (make_dir N dir)
    unfolding make_dir call
    make_dir-Costs dir = record { at = λ s. let h = i.make_dir dir s.world in omega arith }

    -- A fetch of the two rule sets makes at most one request for each digest, and one for each of the
    -- attempts at each file, however the network answers; if a request adds one to the count, and no
    -- other call does.
    pub fetch-Costs :
        (dir : String) (s : Local N)
        → count (fetch N f dir s).1.world ≤ count s.world + 2 * (1 + attempts_of f)
    unfolding fetch
    fetch-Costs dir s =
        let names : List String = "geoip.dat" ∷ "geosite.dat" ∷ [] in
        let h : count (fetch N f dir s).1.world ≤ count s.world + (0 + cost_of names) =
          (Costs-then 0 (cost_of names) (make_dir N dir) (fetch_all N f dir names)
              (make_dir-Costs dir) (fetch_all-Costs dir names)).at
            s in
        omega (arith, h)
