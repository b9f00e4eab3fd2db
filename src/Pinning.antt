-- ===== src/Pinning.antt =====
-- internal/pinning/pinning.go. The store's mutex is not modelled: each operation is one step.
pub mod Laws
pub mod Verify
pub mod First
use tunnet_lite.Base.{
  ℕ, String, ◌<>◌, Bool, true, false, not, ◌||◌, List, [], ◌∷◌, ◌++◌, Option, none, some, length,
  is_empty, any, contains, Error, errorf, wrapf, pin_mismatch, Result, ok, err, ◌>>=◌, ◌>>◌,
  fail_if, context, is_not_exist, ◌==◌, nat_eq, string_eq, if◌then◌else◌,
}
use tunnet_lite.Base.Dict.{Dict, lookup}
use tunnet_lite.Base.Dict
use tunnet_lite.Base.Sort.{sort}
use tunnet_lite.Base.Texts.{trim_space}
use tunnet_lite.Base.Texts.Order.{less}
use tunnet_lite.Base.Base64.{std, Encoding, decode, encode}

-- `ParseMode`. A `Mode` is a string.
unfoldable pub parse_mode : String → Result String
parse_mode s =
    if s == "off" || s == "tofu" || s == "strict"
    then ok s
    else err (errorf "unknown pin mode %q; expected off, tofu or strict" (s ∷ []))

pub record Store : Type 0 where
  pub path : String
  pub pins : Dict (List String)

-- The file system and the JSON codec of the pins.
pub record Disk : Type 1 where
  pub World : Type 0
  pub read_file : String → World → Result String
  -- `os.MkdirAll(filepath.Dir(path), 0o700)`
  pub make_parent : String → World → Option Error × World
  -- `os.WriteFile(path, data, 0o600)`
  pub write_file : String → String → World → Option Error × World
  pub encode_pins : Dict (List String) → String
  pub decode_pins : String → Result (Dict (List String))

-- The test of a stored value.
unfoldable pub is_pin : String → Bool
is_pin v = elim (decode std v) [ none ↦ false | some d ↦ length d == 32 ]

unfoldable pub check_values : String → List String → Result (Unit {0})
check_values host [] = ok tt
check_values host (v ∷ vs) =
    fail_if (not (is_pin v)) (errorf "invalid SPKI SHA-256 pin for %s" (host ∷ []))
    >> check_values host vs

-- `validatePinEntry`
unfoldable pub validate_pin_entry : String → List String → Result (Unit {0})
validate_pin_entry host values = do
  fail_if (trim_space host == "") (errorf "pin host must not be empty" [])
  fail_if (is_empty values) (errorf "pin list for %s must not be empty" (host ∷ []))
  check_values host values

-- `validatePins`. Go's order of a map is open: with several bad entries, any of the errors.
unfoldable pub validate_pins : Dict (List String) → Result (Unit {0})
validate_pins [] = ok tt
validate_pins ((host, values) ∷ rest) = do validate_pin_entry host values; validate_pins rest

-- The pins of a certificate list, without those already in `out`.
unfoldable pub add_pin : String → List String → List String
add_pin pin out = if not (contains out pin) then out ++ (pin ∷ []) else out

-- `Store.Get`
unfoldable pub get : Store → String → List String
get s host = elim (lookup host s.pins) [ none ↦ [] | some v ↦ v ]

module _ {Cert : Type 0} (raw_spki : Cert → List ℕ) (sha256 : List ℕ → List ℕ) where
  -- `SPKI`
  unfoldable pub spki : Cert → String
  spki cert = encode std (sha256 (raw_spki cert))

  -- The inner loop of `chainPins`.
  unfoldable pub add_chain : List Cert → List String → List String
  add_chain [] out = out
  add_chain (cert ∷ certs) out = add_chain certs (add_pin (spki cert) out)

  -- The outer loop.
  unfoldable pub add_chains : List (List Cert) → List String → List String
  add_chains [] out = out
  add_chains (chain ∷ chains) out = add_chains chains (add_chain chain out)

  -- `chainPins`
  unfoldable pub chain_pins : List (List Cert) → List String
  chain_pins chains = add_chains chains []

module _ (D : Disk) where
  -- `Open` from what the file holds.
  unfoldable pub open_contents : String → Result String → Result Store
  open_contents path (err e) =
      if is_not_exist e then ok (record { path = path; pins = [] }) else err e
  open_contents path (ok contents) = do
    pins ← context "parse pin store %s: %w" (path ∷ []) (D.decode_pins contents)
    context "validate pin store %s: %w" (path ∷ []) (validate_pins pins)
    ok (record { path = path; pins = pins })

  -- `Open`
  unfoldable pub open_store : String → D.World → Result Store
  open_store path w =
      if trim_space path == ""
      then err (errorf "pin store path must not be empty" [])
      else open_contents path (D.read_file path w)

  -- `Store.Set` from the call of `os.WriteFile` on.
  after_write :
      Store → Dict (List String) → Option Error → D.World → Result (Unit {0}) × Store × D.World
  after_write s next (some e) w = (err e, s, w)
  after_write s next none w = (ok tt, record s { pins = next }, w)

  -- `Store.Set` from the call of `os.MkdirAll` on.
  after_parent :
      Store → Dict (List String) → Option Error → D.World → Result (Unit {0}) × Store × D.World
  unfolding after_write
  after_parent s next (some e) w = (err e, s, w)
  after_parent s next none w =
      let (written, v) = D.write_file s.path (D.encode_pins next <> "\n") w in
      after_write s next written v

  commit :
      Store → Dict (List String) → Result (Unit {0}) → D.World → Result (Unit {0}) × Store × D.World
  unfolding after_parent
  commit s next (err e) w = (err e, s, w)
  commit s next (ok u) w = let (made, v) = D.make_parent s.path w in after_parent s next made v

  -- `Store.Set`
  unfoldable pub set : Store → String → List String → D.World → Result (Unit {0}) × Store × D.World
  unfolding commit
  set s host values w =
      commit s (Dict.insert host (sort less values) s.pins) (validate_pin_entry host values) w

  -- The callback of `Verifier`, from the pins that are present and stored.
  unfoldable pub decide :
      String
      → String
      → Store
      → List String
      → List String
      → D.World
      → Result (Unit {0}) × Store × D.World
  decide mode host s present stored w =
      if is_empty present
      then (err (errorf "no verified certificate chain to pin against" []), s, w)
      else if is_empty stored
      then if mode == "strict"
        then (
          err (
              errorf
                "no pin stored for %s and strict pinning is on; connect once in tofu mode to record one"
                (host ∷ [])),
          s,
          w,
        )
        else set s host present w
      else if any (λ p. contains stored p) present
      then (ok tt, s, w)
      else (err (pin_mismatch host stored present), s, w)

  module _ {Cert : Type 0} (raw_spki : Cert → List ℕ) (sha256 : List ℕ → List ℕ) where
    -- The callback that `Store.Verifier` returns, for a mode that is not off.
    unfoldable pub verify :
        String → String → List (List Cert) → Store → D.World → Result (Unit {0}) × Store × D.World
    verify mode host chains s w =
        decide mode host s (chain_pins raw_spki sha256 chains) (get s host) w

    -- `Store.Verifier`: nil, which leaves TLS as it is, in mode off.
    unfoldable pub verifier :
        String
        → String
        → Option (List (List Cert) → Store → D.World → Result (Unit {0}) × Store × D.World)
    verifier mode host = if mode == "off" then none else some (verify mode host)
