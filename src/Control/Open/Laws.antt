-- ===== src/Control/Open/Laws.antt =====
-- What is saved is what is loaded, and what is opened again.
use tunnet_lite.Base.{
  ℕ, String, ◌<>◌, Bool, true, false, List, [], Option, none, some, length, Error, Result, ok, err,
  context, is_not_exist, nat_eq, string_eq, if◌then◌else◌, ◌≡◌, ◌≢◌, refl, sym, ap, ◌∙◌, arith,
}
use Prim.Native.Char.{Char}
use Prim.Native.String.append
use tunnet_lite.Base.Base64.{encode, decode}
use tunnet_lite.Base.Base64.Laws.{IsBytes, decode-encode}
use tunnet_lite.Base.Action.{pure, raise, lift, attempt, or_error, continue, ◌>>=◌, ◌>>◌}
use tunnet_lite.Base.Action.Rules.{Gives, Gives-bind, Gives-bind_known, Gives-pure, bind_inv}
use tunnet_lite.Inventory.Key.{raw_url}
use tunnet_lite.Control.Exec.{Identity, IdentityFile, Env, State, call_unit}
use tunnet_lite.Control.Session.{Paths, save}
use tunnet_lite.Control.Identity.{
  dashed, Keys, mark, format_uuid, checked, stored_key, parse_identity,
}
use tunnet_lite.Control.Open.{
  default_version, new_identity, load_identity, save_new, keep_new, create_identity, opened,
  open_session,
}

string_ne : {c : Char} {s : String} → String.◌∷◌ c s ≡ "" → ⊥
string_ne e = cc

-- An identity as the key generator and `formatUUID` make it.
pub record IsIdentity (id : Identity) : Type 0 where
  pub bytes : IsBytes id.signing_key
  pub size : length id.signing_key ≡ 64
  pub named : id.client_id ≢ ""

module _ (E : Env) (K : Keys E.World) where
  -- A file that was written without an error is read back, and what the encoder wrote is decoded.
  pub record IsFaithful : Type 0 where
    pub reads :
        (path text : String) (w : E.World)
        → (E.write_file path text w).0 ≡ none
        → E.read_file path (E.write_file path text w).1 ≡ ok text
    pub decodes : (f : IdentityFile) → K.decode_identity (E.encode_identity f <> "\n") ≡ ok f

  checked-eq-ok :
      (f : IdentityFile) (key : List ℕ)
      → length key ≡ 64
      → f.client_id ≢ ""
      → checked K f key
        ≡ ok (record {
          client_id = f.client_id;
          signing_key = key;
          pending_ticket = f.pending_ticket;
        })
  unfolding checked
  checked-eq-ok f key e n = ground arith

  stored_key-eq-ok :
      (path : String) (f : IdentityFile) (key : List ℕ)
      → decode raw_url f.signing_key ≡ some key
      → stored_key K path f ≡ ok key
  unfolding stored_key
  stored_key-eq-ok path f key e = rw (stored_key, e) refl

  -- The text that `Save` writes.
  text_of : Identity → String
  text_of id =
      E.encode_identity (record {
        client_id = id.client_id;
        signing_key = encode raw_url id.signing_key;
        pending_ticket = id.pending_ticket;
      })
      <> "\n"

  parse_identity-text_of :
      (v : IsFaithful) (path : String) (id : Identity)
      → IsIdentity id
      → parse_identity K path (text_of id) ≡ ok id
  unfolding parse_identity text_of
  parse_identity-text_of v path id i =
      let f : IdentityFile = record {
        client_id = id.client_id;
        signing_key = encode raw_url id.signing_key;
        pending_ticket = id.pending_ticket;
      } in
      rw
        (
          v.decodes f,
          stored_key-eq-ok path f id.signing_key (decode-encode raw_url id.signing_key i.bytes),
          checked-eq-ok f id.signing_key i.size i.named,
        )
        refl

  or_error-eq-none : (o : Option Error) → or_error o ≡ ok tt → o ≡ none
  or_error-eq-none none h = refl
  or_error-eq-none (some x) h = cc

  -- An identity that was saved without an error is the one that `LoadIdentity` gives, if the file
  -- system and the JSON codec keep what they are given, and if the identity has a key of the right
  -- size, made of bytes, and a client id.
  pub load_identity-save :
      (v : IsFaithful) (path : String) (id : Identity) (i : IsIdentity id) (s : State E.World)
      → (save E path id s).0 ≡ ok tt
      → (load_identity E K path (save E path id s).1.world).0 ≡ ok id
  unfolding save ◌>>◌ ◌>>=◌ call_unit load_identity lift text_of
  load_identity-save v path id i s h =
      first (E.make_parent path s.world).0 (E.make_parent path s.world).1 h
    where
      second :
          (w : E.World)
          → or_error (E.write_file path (text_of id) w).0 ≡ ok tt
          → (load_identity E K path (E.write_file path (text_of id) w).1).0 ≡ ok id
      second w k =
          let e = v.reads path (text_of id) w (or_error-eq-none _ k) in
          rw (e, parse_identity-text_of v path id i) refl

      first :
          (o : Option Error) (w : E.World)
          → (continue
              (λ _. call_unit (E.write_file path (text_of id)))
              (or_error o)
              (record s { world = w })).0
            ≡ ok tt
          → (load_identity E K path
              (continue
                (λ _. call_unit (E.write_file path (text_of id)))
                (or_error o)
                (record s { world = w })).1.world).0
            ≡ ok id
      first none w k = second w k
      first (some x) w k = cc

  -- The key generator gives keys of the right size, made of bytes.
  pub record IsGenerator : Type 0 where
    pub bytes : (w : E.World) (key : List ℕ) → (K.generate_key w).0 ≡ ok key → IsBytes key
    pub size : (w : E.World) (key : List ℕ) → (K.generate_key w).0 ≡ ok key → length key ≡ 64

  dash-ne-empty : (s t : String) → s <> ("-" <> t) ≢ ""
  dash-ne-empty String.[] t e = refuted (sym (append.nil ("-" <> t)) ∙ e)
    where
      refuted : "-" <> t ≡ "" → ⊥
      refuted k = string_ne (sym (append.cons "-" "" t) ∙ k)
  dash-ne-empty (String.◌∷◌ c s) t e = string_ne (sym (append.cons c s ("-" <> t)) ∙ e)

  format_uuid-ne-empty : (raw : List ℕ) → format_uuid raw ≢ ""
  unfolding format_uuid dashed
  format_uuid-ne-empty raw = dash-ne-empty _ _

  new_identity-IsIdentity : (g : IsGenerator) → Gives IsIdentity (new_identity K)
  unfolding new_identity
  new_identity-IsIdentity g = Gives-bind _ _ (λ raw.
      Gives-bind_known (λ key. (length key ≡ 64) × IsBytes key) _ _
        (record { at = λ w key e. (g.size w key e, g.bytes w key e) })
        (λ key h.
          Gives-pure _
            (record { bytes = h.1; size = h.0; named = format_uuid-ne-empty (mark raw) })))

  context-eq-ok_unit :
      (f : String) (args : List String) (r : Result (Unit {0}))
      → context f args r ≡ ok tt
      → r ≡ ok tt
  context-eq-ok_unit f args (ok u) h = refl
  context-eq-ok_unit f args (err e) h = cc

  keep_new-load :
      (v : IsFaithful) (path : String) (id : Identity) (i : IsIdentity id) (made : Identity)
      (b : Bool) (w : E.World)
      → (keep_new E path id w).0 ≡ ok (made, b)
      → (load_identity E K path (keep_new E path id w).1).0 ≡ ok made
  unfolding keep_new attempt ◌>>=◌ ◌>>◌ lift pure save_new
  keep_new-load v path id i made b w h =
      let s : State E.World = record {
        identity = id;
        app_version = default_version E;
        world = w;
      } in
      after (save E path id s).0 (save E path id s).1 (load_identity-save v path id i s) h
    where
      after :
          (r : Result (Unit {0})) (t : State E.World)
          → (r ≡ ok tt → (load_identity E K path t.world).0 ≡ ok id)
          → (continue {B = Identity × Bool}
              (λ _ u. (ok (id, true), u))
              (context "persist identity: %w" [] r)
              t.world).0
            ≡ ok (made, b)
          → (load_identity E K path
              (continue {B = Identity × Bool}
                (λ _ u. (ok (id, true), u))
                (context "persist identity: %w" [] r)
                t.world).1).0
            ≡ ok made
      after (ok u) t k e = let q : ok id ≡ ok made = cc in k (cc) ∙ q
      after (err x) t k e = cc

  create_identity-load :
      (v : IsFaithful) (g : IsGenerator) (path : String) (made : Identity) (b : Bool) (w : E.World)
      → (create_identity E K path w).0 ≡ ok (made, b)
      → (load_identity E K path (create_identity E K path w).1).0 ≡ ok made
  unfolding create_identity
  create_identity-load v g path made b w h =
      let (id, e, k) = bind_inv (new_identity K) (keep_new E path) w (made, b) h in
      rw k (
        keep_new-load v path id ((new_identity-IsIdentity g).at w id e) made b (new_identity K w).1
          (ap (λ q. q.0) (sym k) ∙ h))

  opened-load :
      (v : IsFaithful) (g : IsGenerator) (path : String) (r : Result Identity) (made : Identity)
      (w : E.World)
      → (opened E K path r w).0 ≡ ok (made, true)
      → (load_identity E K path (opened E K path r w).1).0 ≡ ok made
  unfolding opened pure raise
  opened-load v g path (ok id) made w h = cc
  opened-load v g path (err e) made w h = chosen (is_not_exist e) h
    where
      chosen :
          (b : Bool)
          → ((if b then create_identity E K path else raise e) w).0 ≡ ok (made, true)
          → (load_identity E K path ((if b then create_identity E K path else raise e) w).1).0
            ≡ ok made
      chosen true h = create_identity-load v g path made true w h
      chosen false h = cc

  -- `Open`, where it has made a new identity and saved it, gives the same identity when it is called
  -- again, and no longer says that it is new; if the file system and the codec keep what they are
  -- given, and the key generator gives 64 bytes.
  pub open_session_again :
      (v : IsFaithful) (g : IsGenerator) (p : Paths) (made : Identity) (w : E.World)
      → (open_session E K p w).0 ≡ ok (made, true)
      → (open_session E K p (open_session E K p w).1).0 ≡ ok (made, false)
  unfolding open_session attempt ◌>>=◌ opened pure
  open_session_again v g p made w h =
      let (r, t) = load_identity E K p.identity w in rw (opened-load v g p.identity r made t h) refl
