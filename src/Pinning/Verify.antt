-- ===== src/Pinning/Verify.antt =====
-- What the callback of `Verifier` promises, whatever the disk answers.
use tunnet_lite.Base.{
  ℕ, String, true, false, ◌||◌, List, [], ◌∷◌, ◌++◌, is_empty, any, contains, ok, ◌==◌, string_eq,
  ◌≡◌, ◌⊎◌, inl, inr, refl, arith, contains-append, ==_refl, ==_iff,
}
use tunnet_lite.Base.Dict.{Dict, lookup, lookup-insert}
use tunnet_lite.Base.Dict
use tunnet_lite.Base.Sort.{sort}
use tunnet_lite.Base.Sort.Laws.{contains-sort}
use tunnet_lite.Base.Texts.Order.{less}
use tunnet_lite.Pinning.{
  Store, Disk, add_pin, get, set, spki, add_chain, add_chains, chain_pins, decide, verify,
}
use tunnet_lite.Pinning.Laws.{set-outcome, set-IsPins, IsPins, IsEntry}

-- No value stands twice.
abbrev pub IsDistinct : List String → Type 0
IsDistinct [] = Unit
IsDistinct (x ∷ xs) = (contains xs x ≡ false) × IsDistinct xs

IsDistinct-snoc :
    (xs : List String) (p : String)
    → IsDistinct xs
    → contains xs p ≡ false
    → IsDistinct (xs ++ (p ∷ []))
IsDistinct-snoc [] p d n = (refl, tt)
IsDistinct-snoc (x ∷ xs) p d n =
    ground (arith, IsDistinct-snoc xs p, contains-append xs (p ∷ []) x, ==_iff p x, ==_iff x p)

module _ {Cert : Type 0} (raw_spki : Cert → List ℕ) (sha256 : List ℕ → List ℕ) where
  add_pin-IsDistinct :
      (p : String) (out : List String) → IsDistinct out → IsDistinct (add_pin p out)
  unfolding add_pin
  add_pin-IsDistinct p out d = ground (arith, IsDistinct-snoc out p)

  contains-add_pin :
      (p : String) (out : List String) (q : String)
      → contains (add_pin p out) q ≡ (contains out q || q == p)
  unfolding add_pin
  contains-add_pin p out q = ground (arith, contains-append out (p ∷ []) q, ==_iff q p)

  add_chain-IsDistinct :
      (certs : List Cert) (out : List String)
      → IsDistinct out
      → IsDistinct (add_chain raw_spki sha256 certs out)
  unfolding add_chain
  add_chain-IsDistinct [] out d = d
  add_chain-IsDistinct (c ∷ cs) out d =
      add_chain-IsDistinct cs _ (add_pin-IsDistinct (spki raw_spki sha256 c) out d)

  add_chains-IsDistinct :
      (chains : List (List Cert)) (out : List String)
      → IsDistinct out
      → IsDistinct (add_chains raw_spki sha256 chains out)
  unfolding add_chains
  add_chains-IsDistinct [] out d = d
  add_chains-IsDistinct (c ∷ cs) out d = add_chains-IsDistinct cs _ (add_chain-IsDistinct c out d)

  contains-add_chain :
      (certs : List Cert) (out : List String) (q : String)
      → contains (add_chain raw_spki sha256 certs out) q
        ≡ (contains out q || any (λ c. q == spki raw_spki sha256 c) certs)
  unfolding add_chain
  contains-add_chain [] out q = ground arith
  contains-add_chain (c ∷ cs) out q = ground (
    arith,
    contains-add_chain cs (add_pin (spki raw_spki sha256 c) out) q,
    contains-add_pin (spki raw_spki sha256 c) out q,
  )

  contains-add_chains :
      (chains : List (List Cert)) (out : List String) (q : String)
      → contains (add_chains raw_spki sha256 chains out) q
        ≡ (contains out q || any (any (λ c. q == spki raw_spki sha256 c)) chains)
  unfolding add_chains
  contains-add_chains [] out q = ground arith
  contains-add_chains (c ∷ cs) out q = ground (
    arith,
    contains-add_chains cs (add_chain raw_spki sha256 c out) q,
    contains-add_chain c out q,
  )

  -- The pins that are collected from the verified chains are exactly those of the certificates in
  -- them, each once.
  pub contains-chain_pins :
      (chains : List (List Cert)) (q : String)
      → IsDistinct (chain_pins raw_spki sha256 chains)
        × (contains (chain_pins raw_spki sha256 chains) q
            ≡ any (any (λ c. q == spki raw_spki sha256 c)) chains)
  unfolding chain_pins
  contains-chain_pins chains q =
      (add_chains-IsDistinct chains [] tt, contains-add_chains chains [] q)

-- The pin of some presented certificate is stored for the host.
abbrev pub Matches : Store → String → List String → Type 0
Matches s host present = any (λ p. contains (get s host) p) present ≡ true

any_self :
    (xs ys : List String)
    → is_empty ys ≡ false
    → ((p : String) → contains xs p ≡ contains ys p)
    → any (λ p. contains xs p) ys ≡ true
any_self xs [] n h = cc
any_self xs (y ∷ ys) n h = rw (h y) (ground (arith, ==_refl y))

get-insert :
    (s : Store) (host : String) (values : List String)
    → get (record s { pins = Dict.insert host values s.pins }) host ≡ values
unfolding get
get-insert s host values = rw (get, lookup-insert host host values s.pins, ==_refl host) refl

module _ (D : Disk) where
  Matches-stored :
      (s : Store) (host : String) (present : List String) (w : D.World)
      → is_empty present ≡ false
      → (set D s host present w).0 ≡ ok tt
      → Matches (set D s host present w).1 host present
  Matches-stored s host present w n h = elim (set-outcome D s host present w) [
    | inl (e, i, t) ↦ rw t (
        rw (get-insert s host (sort less present))
          (any_self _ present n (contains-sort less present)))
    | inr (e, t) ↦ absurd (e h)
  ]

  decide-Matches :
      (mode host : String) (s : Store) (present : List String) (w : D.World)
      → (decide D mode host s present (get s host) w).0 ≡ ok tt
      → Matches (decide D mode host s present (get s host) w).1 host present
  unfolding decide
  decide-Matches mode host s present w h = ground (arith, Matches-stored s host present w)

  -- A decision changes the store only in `Set` of the present pins, for a host without pins and in a
  -- mode that is not strict.
  decide-outcome :
      (mode host : String) (s : Store) (present stored : List String) (w : D.World)
      → (decide D mode host s present stored w ≡ set D s host present w)
          × (is_empty stored ≡ true)
          × ((mode == "strict") ≡ false)
        ⊎ ((decide D mode host s present stored w).1 ≡ s)
  unfolding decide
  decide-outcome mode host s present stored w = ground arith

  decide_again :
      (mode host : String) (s : Store) (present : List String) (w : D.World)
      → is_empty present ≡ false
      → Matches s host present
      → decide D mode host s present (get s host) w ≡ (ok tt, s, w)
  unfolding decide
  decide_again mode host s present w n m = with_stored (get s host) m
    where
      none_matches : (l : List String) → any (λ p. contains [] p) l ≡ false
      none_matches [] = refl
      none_matches (x ∷ xs) = none_matches xs

      with_stored :
          (stored : List String)
          → any (λ p. contains stored p) present ≡ true
          → decide D mode host s present stored w ≡ (ok tt, s, w)
      with_stored [] m = ground (arith, none_matches present)
      with_stored (x ∷ xs) m = ground arith

  decide-nonempty :
      (mode host : String) (s : Store) (present stored : List String) (w : D.World)
      → (decide D mode host s present stored w).0 ≡ ok tt
      → is_empty present ≡ false
  unfolding decide
  decide-nonempty mode host s present stored w h = ground arith

  module _ {Cert : Type 0} (raw_spki : Cert → List ℕ) (sha256 : List ℕ → List ℕ) where
    -- When the callback accepts verified chains, the store it leaves holds, for the host, the pin of
    -- a certificate in them.
    pub verify-Matches :
        (mode host : String) (chains : List (List Cert)) (s : Store) (w : D.World)
        → (verify D raw_spki sha256 mode host chains s w).0 ≡ ok tt
        → any
            (λ p. contains (get (verify D raw_spki sha256 mode host chains s w).1 host) p)
            (chain_pins raw_spki sha256 chains)
          ≡ true
    unfolding verify
    verify-Matches mode host chains s w h = decide-Matches mode host s _ w h

    -- Whether it accepts or not, the callback leaves the store as it was, or else the host had no
    -- pins, the mode is not strict, the host and the chains' pins make a well-formed entry, and this
    -- entry, sorted, is what the store has more.
    pub verify-outcome :
        (mode host : String) (chains : List (List Cert)) (s : Store) (w : D.World)
        → let t = (verify D raw_spki sha256 mode host chains s w).1 in
          let present = chain_pins raw_spki sha256 chains in
          (t ≡ s)
          ⊎ ((is_empty (get s host) ≡ true)
              × ((mode == "strict") ≡ false)
              × IsEntry host present
              × (t ≡ record s { pins = Dict.insert host (sort less present) s.pins }))
    unfolding verify
    verify-outcome mode host chains s w =
        elim (decide-outcome mode host s (chain_pins raw_spki sha256 chains) (get s host) w) [
          | inl (e, m, n) ↦
              rw e (elim (set-outcome D s host (chain_pins raw_spki sha256 chains) w) [
                | inl (k, i, t) ↦ inr (m, n, i, t)
                | inr (k, t) ↦ inl t
              ])
          | inr t ↦ inl t
        ]

    -- Whether it accepts or not, the callback leaves a store of well-formed entries in that form.
    pub verify-IsPins :
        (mode host : String) (chains : List (List Cert)) (s : Store) (w : D.World)
        → IsPins s.pins
        → IsPins ((verify D raw_spki sha256 mode host chains s w).1).pins
    unfolding verify
    verify-IsPins mode host chains s w h =
        elim (decide-outcome mode host s (chain_pins raw_spki sha256 chains) (get s host) w) [
          | inl (e, m, n) ↦ rw e (set-IsPins D s host (chain_pins raw_spki sha256 chains) w h)
          | inr t ↦ rw t h
        ]

    -- Once it has accepted verified chains for a host, the callback accepts the same chains again, in
    -- any mode and without a change to the store.
    pub verify_again :
        (mode later host : String) (chains : List (List Cert)) (s : Store) (w v : D.World)
        → (verify D raw_spki sha256 mode host chains s w).0 ≡ ok tt
        → verify D raw_spki sha256 later host chains
            (verify D raw_spki sha256 mode host chains s w).1
            v
          ≡ (ok tt, (verify D raw_spki sha256 mode host chains s w).1, v)
    unfolding verify
    verify_again mode later host chains s w v h =
        decide_again later host _ (chain_pins raw_spki sha256 chains) v
          (decide-nonempty mode host s _ (get s host) w h) (decide-Matches mode host s _ w h)
