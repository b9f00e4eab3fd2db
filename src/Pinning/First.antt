-- ===== src/Pinning/First.antt =====
-- The first connection in a mode that trusts on first use.
use tunnet_lite.Base.{
  ℕ, nat_eq, String, true, false, List, [], ◌∷◌, ◌++◌, Option, none, some, length, is_empty, All,
  Error, Result, ok, err, ◌==◌, string_eq, ◌≡◌, ◌≢◌, refl, arith,
}
use tunnet_lite.Base.Dict.{Dict}
use tunnet_lite.Base.Texts.{trim_space}
use tunnet_lite.Base.Base64.{std}
use tunnet_lite.Base.Base64.Laws.{IsBytes, decode-encode}
use tunnet_lite.Pinning.{
  Store, Disk, is_pin, add_pin, get, set, spki, add_chain, add_chains, chain_pins, decide, verify,
  after_write, after_parent, commit, validate_pin_entry,
}
use tunnet_lite.Pinning.Laws.{validate_pin_entry_iff}

module _ {Cert : Type 0} (raw_spki : Cert → List ℕ) (sha256 : List ℕ → List ℕ)
    (digest : (l : List ℕ) → IsBytes (sha256 l))
    (size : (l : List ℕ) → length (sha256 l) ≡ 32) where
  spki-is_pin : (c : Cert) → is_pin (spki raw_spki sha256 c) ≡ true
  unfolding is_pin spki nat_eq
  spki-is_pin c =
      rw
        (
          is_pin,
          spki,
          decode-encode std (sha256 (raw_spki c)) (digest (raw_spki c)),
          size (raw_spki c),
        )
        refl

  abbrev Pins : List String → Type 0
  Pins l = All (λ v. is_pin v ≡ true) l

  All-snoc : (l : List String) (v : String) → Pins l → is_pin v ≡ true → Pins (l ++ (v ∷ []))
  All-snoc [] v h e = (e, tt)
  All-snoc (x ∷ xs) v h e = (h.0, All-snoc xs v h.1 e)

  add_pin-Pins :
      (v : String) (out : List String) → Pins out → is_pin v ≡ true → Pins (add_pin v out)
  unfolding add_pin
  add_pin-Pins v out h e = ground (arith, All-snoc out v h e)

  add_chain-Pins :
      (certs : List Cert) (out : List String)
      → Pins out
      → Pins (add_chain raw_spki sha256 certs out)
  unfolding add_chain
  add_chain-Pins [] out h = h
  add_chain-Pins (c ∷ cs) out h = add_chain-Pins cs _ (add_pin-Pins _ out h (spki-is_pin c))

  add_chains-Pins :
      (chains : List (List Cert)) (out : List String)
      → Pins out
      → Pins (add_chains raw_spki sha256 chains out)
  unfolding add_chains
  add_chains-Pins [] out h = h
  add_chains-Pins (c ∷ cs) out h = add_chains-Pins cs _ (add_chain-Pins c out h)

  chain_pins-Pins : (chains : List (List Cert)) → Pins (chain_pins raw_spki sha256 chains)
  unfolding chain_pins
  chain_pins-Pins chains = add_chains-Pins chains [] tt

  module _ (D : Disk) (s : Store) (made : (w : D.World) → (D.make_parent s.path w).0 ≡ none)
      (written : (contents : String) (w : D.World)
        → (D.write_file s.path contents w).0 ≡ none) where
    after_write-ok :
        (next : Dict (List String)) (o : Option Error) (w : D.World)
        → o ≡ none
        → (after_write D s next o w).0 ≡ ok tt
    unfolding after_write
    after_write-ok next none w e = refl
    after_write-ok next (some x) w e = cc

    after_parent-ok :
        (next : Dict (List String)) (o : Option Error) (w : D.World)
        → o ≡ none
        → (after_parent D s next o w).0 ≡ ok tt
    unfolding after_parent
    after_parent-ok next none w e = after_write-ok next _ _ (written _ w)
    after_parent-ok next (some x) w e = cc

    commit-ok :
        (next : Dict (List String)) (r : Result (Unit {0})) (w : D.World)
        → r ≡ ok tt
        → (commit D s next r w).0 ≡ ok tt
    unfolding commit
    commit-ok next (ok u) w e = after_parent-ok next _ _ (made w)
    commit-ok next (err x) w e = cc

    set-ok :
        (host : String) (values : List String) (w : D.World)
        → validate_pin_entry host values ≡ ok tt
        → (set D s host values w).0 ≡ ok tt
    unfolding set
    set-ok host values w v = commit-ok _ _ w v

    nonempty : (l : List String) → is_empty l ≡ false → l ≢ []
    nonempty [] n e = cc
    nonempty (x ∷ xs) n e = cc

    -- In a mode that is not strict, for a host with a name and without pins, the callback accepts
    -- verified chains with at least one certificate, if SHA-256 gives 32 bytes and the disk takes the
    -- file.
    pub verify-first :
        (mode host : String) (chains : List (List Cert)) (w : D.World)
        → (mode == "strict") ≡ false
        → trim_space host ≢ ""
        → is_empty (get s host) ≡ true
        → is_empty (chain_pins raw_spki sha256 chains) ≡ false
        → (verify D raw_spki sha256 mode host chains s w).0 ≡ ok tt
    unfolding verify decide
    verify-first mode host chains w m h g c =
        let present = chain_pins raw_spki sha256 chains in
        ground (
          arith,
          set-ok host present w (
              (validate_pin_entry_iff host present).1
                (h, nonempty present c, chain_pins-Pins chains)),
        )
