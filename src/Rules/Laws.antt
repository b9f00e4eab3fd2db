-- ===== src/Rules/Laws.antt =====
-- What a fetch leaves in place: the file that was there, or one whose digest is the published one.
use tunnet_lite.Base.{
  ℕ, zero, suc, ◌-◌, String, ◌<>◌, true, false, List, [], Option, none, some, Error, Result, ok,
  err, ◌==◌, string_eq, Bool-cases, ==_iff, ==_refl, ◌≡◌, ◌≢◌, ◌⊎◌, inl, inr, refl, sym, ◌∙◌, arith,
}
use tunnet_lite.Base.Dict.{Dict, lookup, lookup-insert, lookup-erase}
use tunnet_lite.Base.Dict
use text.Mathlib.TextLemmas.{append_cancel_left, append-nil}
use tunnet_lite.Base.Action.{Action, pure, lift, gets, attempt, continue, ◌>>=◌, ◌>>◌}
use tunnet_lite.Base.Action.Rules.{Keeps, IsPreorder, keeps_rules, bind_inv}
use tunnet_lite.Rules.{
  Response, Net, Fetcher, Round, done, again, Local, call, put, get, digest, create, copied, copy,
  download, renamed, rename, remove, mismatch, move, judge, round, rounds, file_digest, is_current,
  attempts_of, fetch_target, fetch_one,
}

attempts_of-pos : (f : Fetcher) → (left : ℕ) × (attempts_of f ≡ suc left)
attempts_of-pos f = (attempts_of f - 1, unfold attempts_of in ground arith)

module _ (N : Net) (target : String) where
  -- The file at the target is as it was.
  pub record Frame (s t : Local N) : Type 0 where
    pub same : lookup target t.files ≡ lookup target s.files

  Frame-IsPreorder : IsPreorder Frame
  Frame-IsPreorder = record {
    same = λ s. record { same = refl };
    chain = λ s t u h k. record { same = k.same ∙ h.same };
  }

  ruleset frame_rules = (keeps_rules, Frame-IsPreorder)

  call-Frame : {A : Type 0} (f : N.World → Result A × N.World) → Keeps Frame (call N f)
  unfolding call
  call-Frame f = record { at = λ s. record { same = refl } }

  get-Frame : (f : Fetcher) (name : String) → Keeps Frame (get N f name)
  unfolding get
  get-Frame f name = search (frame_rules, call-Frame) depth 8

  digest-Frame : (f : Fetcher) (name : String) → Keeps Frame (digest N f name)
  unfolding digest
  digest-Frame f name = search (frame_rules, get-Frame) depth 8

  abbrev part : String
  part = target <> ".part"

  part-ne : target ≢ part
  part-ne h = cc (append_cancel_left target ".part" "" (sym h ∙ sym (append-nil target)))

  part_elsewhere : (target == part) ≡ false
  part_elsewhere = ground (arith, ==_iff target part, part-ne)

  put-same :
      (bytes : List ℕ) (t : Local N)
      → lookup target (put N part bytes t).files ≡ lookup target t.files
  unfolding put
  put-same bytes t = rw (lookup-insert target part bytes t.files, part_elsewhere) refl

  create-Frame : Keeps Frame (create N part)
  unfolding create call
  create-Frame = record {
    at = λ s. record { same = ground (arith, put-same [] (call N (N.create part) s).1) };
  }

  copied-same :
      (body : List ℕ) (broken : Option Error) (failed : Option (List ℕ × Error)) (t : Local N)
      → lookup target (copied N part body broken failed t).1.files ≡ lookup target t.files
  unfolding copied
  copied-same body broken (some (landed, e)) t = put-same landed t
  copied-same body (some e) none t = put-same body t
  copied-same body none none t = put-same body t

  copy-Frame : (resp : Response) → Keeps Frame (copy N part resp)
  unfolding copy call
  copy-Frame resp = record { at = λ s. record { same = copied-same resp.body resp.broken _ _ } }

  -- After a copy that succeeded the part holds bytes with the digest that it gives.
  copied-part :
      (body : List ℕ) (broken : Option Error) (failed : Option (List ℕ × Error)) (t : Local N)
      (p : ℕ × String)
      → (copied N part body broken failed t).0 ≡ ok p
      → (c : List ℕ) × (lookup part (copied N part body broken failed t).1.files ≡ some c)
        × (N.sha256 c ≡ p.1)
  unfolding copied put
  copied-part body broken (some (landed, e)) t p h = cc
  copied-part body (some e) none t p h = cc
  copied-part body none none t p h =
      (body, rw (lookup-insert part part body t.files, ==_refl part) refl, cc)

  remove-Frame : Keeps Frame (remove N part)
  unfolding remove call
  remove-Frame = record {
    at = λ s. record { same = ground (arith, lookup-erase target part s.files, part_elsewhere) };
  }

  copy-part :
      (resp : Response) (t : Local N) (p : ℕ × String)
      → (copy N part resp t).0 ≡ ok p
      → (c : List ℕ) × (lookup part (copy N part resp t).1.files ≡ some c) × (N.sha256 c ≡ p.1)
  unfolding copy
  copy-part resp t p h = copied-part resp.body resp.broken _ _ p h

  download-Frame : (f : Fetcher) (name : String) → Keeps Frame (download N f name part)
  unfolding download
  download-Frame f name = search (frame_rules, get-Frame, create-Frame, copy-Frame) depth 8

  download-part :
      (f : Fetcher) (name : String) (s : Local N) (p : ℕ × String)
      → (download N f name part s).0 ≡ ok p
      → (c : List ℕ) × (lookup part (download N f name part s).1.files ≡ some c)
        × (N.sha256 c ≡ p.1)
  unfolding download ◌>>◌
  download-part f name s p h =
      let (resp, g, e) = bind_inv (get N f name) _ s p h in
      let t = (get N f name s).1 in
      let (u, k, e2) = bind_inv (create N part) (λ _. copy N part resp) t p (rw e at h) in
      rw (e, e2) (copy-part resp (create N part t).1 p (rw (e, e2) at h))

  mismatch-Frame : (attempts n : ℕ) → Keeps Frame (mismatch N target attempts n)
  unfolding mismatch
  mismatch-Frame attempts n = search (frame_rules, remove-Frame) depth 8

  -- Bytes with this digest stand at the target.
  abbrev Verified : String → Local N → Type 0
  Verified want t = (c : List ℕ) × (lookup target t.files ≡ some c) × (N.sha256 c ≡ want)

  mismatch-again :
      (attempts n : ℕ) (s : Local N) → (mismatch N target attempts n s).0 ≢ ok (done (ok tt))
  unfolding mismatch remove ◌>>◌ ◌>>=◌ pure
  mismatch-again attempts n s h = ground arith

  -- A failure that leaves the target alone, or a success with the digest in place.
  abbrev IsRound : String → Local N → Result Round × Local N → Type 0
  IsRound want s r =
      (Frame s r.1 × (r.0 ≢ ok (done (ok tt)))) ⊎ ((r.0 ≡ ok (done (ok tt))) × Verified want r.1)

  IsRound-after :
      (want : String) (s t : Local N) (r : Result Round × Local N)
      → Frame s t
      → IsRound want t r
      → IsRound want s r
  IsRound-after want s t r h (inl (k, n)) = inl (record { same = k.same ∙ h.same }, n)
  IsRound-after want s t r h (inr v) = inr v

  renamed-target :
      (e : Option Error) (t : Local N) (c : List ℕ)
      → lookup part t.files ≡ some c
      → (Frame t (renamed N part target e t).1 × ((renamed N part target e t).0 ≢ ok tt))
        ⊎ (((renamed N part target e t).0 ≡ ok tt)
            × (lookup target (renamed N part target e t).1.files ≡ some c))
  unfolding renamed
  renamed-target (some x) t c h = inl (record { same = refl }, λ e. cc)
  renamed-target none t c h =
      inr
        (refl, rw (h, lookup-insert target target c (Dict.erase part t.files), ==_refl target) refl)

  move-IsRound :
      (want : String) (s : Local N) (c : List ℕ)
      → lookup part s.files ≡ some c
      → N.sha256 c ≡ want
      → IsRound want s (move N target s)
  unfolding move rename call ◌>>=◌ attempt pure
  move-IsRound want s c h d =
      elim (renamed-target (N.rename part target s.world).0
        (record s { world = (N.rename part target s.world).1 }) c h) [
          | inl (k, n) ↦ inl (record { same = k.same }, λ e. n (cc))
          | inr (k, l) ↦ inr (rw k refl, (c, l, d))
        ]

  judge-IsRound :
      (want : String) (attempts n : ℕ) (r : Result (ℕ × String)) (s : Local N)
      → ((p : ℕ × String)
          → r ≡ ok p
          → (c : List ℕ) × (lookup part s.files ≡ some c) × (N.sha256 c ≡ p.1))
      → IsRound want s (judge N target want attempts n r s)
  unfolding judge
  judge-IsRound want attempts n (err e) s h = inl (unfold pure in (record { same = refl }, λ e. cc))
  judge-IsRound want attempts n (ok p) s h = elim (Bool-cases (p.1 == want)) [
    | inl e ↦ let (c, l, d) = h p refl in rw e (move-IsRound want s c l (d ∙ (==_iff p.1 want).0 e))
    | inr e ↦ rw e (inl ((mismatch-Frame attempts n).at s, mismatch-again attempts n s))
  ]

  round-IsRound :
      (f : Fetcher) (name want : String) (attempts n : ℕ) (s : Local N)
      → IsRound want s (round N f name target want attempts n s)
  unfolding round ◌>>=◌ attempt
  round-IsRound f name want attempts n s =
      IsRound-after want s (download N f name part s).1 _ ((download-Frame f name).at s) (
        judge-IsRound want attempts n (download N f name part s).0 (download N f name part s).1
          (λ p e. download-part f name s p e))

  -- The same for the whole of a fetch.
  abbrev IsFetched : String → Local N → Result (Unit {0}) × Local N → Type 0
  IsFetched want s r = (Frame s r.1 × (r.0 ≢ ok tt)) ⊎ Verified want r.1

  IsFetched-after :
      (want : String) (s t : Local N) (r : Result (Unit {0}) × Local N)
      → Frame s t
      → IsFetched want t r
      → IsFetched want s r
  IsFetched-after want s t r h (inl (k, n)) = inl (record { same = k.same ∙ h.same }, n)
  IsFetched-after want s t r h (inr v) = inr v

  module _ (f : Fetcher) (name want : String) (attempts : ℕ) where
    settle : (left n : ℕ) → Round → Action (Local N) (Unit {0})
    settle left n r = elim r [
      | done result ↦ lift result
      | again e ↦ rounds N f name target want attempts left (suc n) (some e)
    ]

    settled :
        (left n : ℕ) (s : Local N) (r : Result Round) (t : Local N)
        → IsRound want s (r, t)
        → ((e : Error) (u : Local N)
            → IsFetched want u (rounds N f name target want attempts left (suc n) (some e) u))
        → IsFetched want s (continue (settle left n) r t)
    unfolding settle lift
    settled left n s (ok (done result)) t (inl (k, m)) ih = inl (k, λ e. m (cc))
    settled left n s (ok (done result)) t (inr (k, v)) ih = inr v
    settled left n s (ok (again e)) t (inl (k, m)) ih = IsFetched-after want s t _ k (ih e t)
    settled left n s (ok (again e)) t (inr (k, v)) ih = cc
    settled left n s (err e) t (inl (k, m)) ih = inl (k, λ h. cc)
    settled left n s (err e) t (inr (k, v)) ih = cc

    rounds-IsFetched :
        (left n : ℕ) (e : Error) (s : Local N)
        → IsFetched want s (rounds N f name target want attempts left n (some e) s)
    unfolding rounds ◌>>=◌ settle
    rounds-IsFetched zero n e s = unfold lift in inl (record { same = refl }, λ h. cc)
    rounds-IsFetched (suc left) n e s =
        settled left n s _ _ (round-IsRound f name want attempts n s)
          (λ x u. rounds-IsFetched left (suc n) x u)

    -- With a round left it does not matter which error came last.
    rounds-IsFetched_first :
        (left n : ℕ) (last : Option Error) (s : Local N)
        → IsFetched want s (rounds N f name target want attempts (suc left) n last s)
    unfolding rounds ◌>>=◌ settle
    rounds-IsFetched_first left n last s =
        settled left n s _ _ (round-IsRound f name want attempts n s)
          (λ x u. rounds-IsFetched left (suc n) x u)

  file_digest-Verified :
      (want : String) (s : Local N)
      → is_current want (file_digest N target s) ≡ true
      → Verified want s
  unfolding file_digest
  file_digest-Verified want s h = found (lookup target s.files) refl (ground arith)
    where
      found :
          (o : Option (List ℕ))
          → lookup target s.files ≡ o
          → is_current want (elim o [ none ↦ none | some bytes ↦ some (N.sha256 bytes) ]) ≡ true
          → Verified want s
      found none e k = cc
      found (some c) e k = (c, e, (==_iff (N.sha256 c) want).0 k)

  fetch_target-IsFetched :
      (f : Fetcher) (name want : String) (s : Local N)
      → IsFetched want s (fetch_target N f target name want s)
  unfolding fetch_target ◌>>=◌ gets
  fetch_target-IsFetched f name want s =
      elim (Bool-cases (is_current want (file_digest N target s))) [
        | inl e ↦ rw e (inr (unfold pure in file_digest-Verified want s e))
        | inr e ↦
            let (left, a) = attempts_of-pos f in
            rw (e, a) (rounds-IsFetched_first f name want (suc left) left 1 none s)
      ]

module _ (N : Net) (f : Fetcher) (dir name : String) (s : Local N) where
  -- However the network and the file system behave, a fetch of a file either fails and leaves the file
  -- in place as it was, or there are bytes in place whose SHA-256 digest is the published one, as the
  -- fetch of the checksum file gave it.
  pub fetch_one-IsFetched :
      let target = N.join dir name in
      let (r, t) = fetch_one N f dir name s in
      ((lookup target t.files ≡ lookup target s.files) × (r ≢ ok tt))
      ⊎ ((want : String) × (c : List ℕ) × ((digest N f name s).0 ≡ ok want)
          × (lookup target t.files ≡ some c)
          × (N.sha256 c ≡ want))
  unfolding fetch_one ◌>>=◌
  fetch_one-IsFetched = after (digest N f name s).0 refl
    where
      target : String
      target = N.join dir name

      t : Local N
      t = (digest N f name s).1

      after :
          (r : Result String)
          → (digest N f name s).0 ≡ r
          → let (q, u) = continue (fetch_target N f target name) r t in
            ((lookup target u.files ≡ lookup target s.files) × (q ≢ ok tt))
            ⊎ ((want : String) × (c : List ℕ) × ((digest N f name s).0 ≡ ok want)
                × (lookup target u.files ≡ some c)
                × (N.sha256 c ≡ want))
      after (err e) h = inl (((digest-Frame N target f name).at s).same, λ k. cc)
      after (ok want) h = elim (fetch_target-IsFetched N target f name want t) [
        | inl (k, n) ↦ inl (k.same ∙ ((digest-Frame N target f name).at s).same, n)
        | inr (c, l, d) ↦ inr (want, c, h, l, d)
      ]
