-- ===== src/Tests/Identities.antt =====
-- The identity that is opened again, on concrete data.
use tunnet_lite.Base.{
  ℕ, zero, suc, ◌<◌, String, ◌<>◌, true, false, List, [], ◌∷◌, Option, none, some, length, errorf,
  not_exist, Result, ok, err, ◌==◌, string_eq, nat_eq, ◌≡◌, refl, sym, ap, ◌∙◌, if◌then◌else◌,
  arith,
}
use mathlib.Core.Path.{subst}
use Prim.Native.Char.{Char, code}
use Prim.Native.String.append
use tunnet_lite.Base.Base64.Laws.{IsBytes}
use tunnet_lite.Base.Action.{pure, lift, attempt, ◌>>=◌, ◌>>◌}
use tunnet_lite.Control.Exec.{Identity, IdentityFile, Env, call_unit}
use tunnet_lite.Control.Session.{Paths, save}
use tunnet_lite.Control.Identity.{Keys, format_uuid, mark}
use tunnet_lite.Control.Open.{
  new_identity, open_session, load_identity, opened, create_identity, keep_new, save_new,
}
use tunnet_lite.Control.Open.Laws.{IsFaithful, IsGenerator, open_session_again}

-- A codec that marks each character, and the end of each field.
abbrev field : String → String → String
field String.[] tail = String.◌∷◌ "-" tail
field (String.◌∷◌ c s) tail = String.◌∷◌ "+" (String.◌∷◌ c (field s tail))

abbrev split_field : String → String × String
split_field String.[] = ("", "")
split_field (String.◌∷◌ m String.[]) = ("", "")
split_field (String.◌∷◌ m (String.◌∷◌ c s)) =
    let p = split_field s in
    if code m == b'-' then ("", String.◌∷◌ c s) else (String.◌∷◌ c p.0, p.1)

split-field :
    (s : String) (c : Char) (tail : String)
    → split_field (field s (String.◌∷◌ c tail)) ≡ (s, String.◌∷◌ c tail)
unfolding nat_eq
split-field String.[] c tail = refl
split-field (String.◌∷◌ d s) c tail = rw (split-field s c tail) refl

field-append : (s tail t : String) → field s tail <> t ≡ field s (tail <> t)
field-append String.[] tail t = append.cons "-" tail t
field-append (String.◌∷◌ c s) tail t =
    append.cons "+" (String.◌∷◌ c (field s tail)) t
    ∙ ap (String.◌∷◌ "+")
        (append.cons c (field s tail) t ∙ ap (String.◌∷◌ c) (field-append s tail t))

field-starts : (s tail : String) → (c : Char) × (rest : String) × (field s tail ≡ String.◌∷◌ c rest)
field-starts String.[] tail = ("-", tail, refl)
field-starts (String.◌∷◌ c s) tail = ("+", String.◌∷◌ c (field s tail), refl)

split-field_tail :
    (s tail : String) (c : Char) (rest : String)
    → tail ≡ String.◌∷◌ c rest
    → split_field (field s tail) ≡ (s, tail)
split-field_tail s tail c rest e = rw e (split-field s c rest)

abbrev written : IdentityFile → String → String
written f tail = field f.client_id (field f.signing_key (field f.pending_ticket tail))

abbrev read_back : String → Result IdentityFile
read_back text =
    let (a, s) = split_field text in
    let (b, t) = split_field s in
    ok (record { client_id = a; signing_key = b; pending_ticket = (split_field t).0 })

-- A disk of one file, which holds what was written last.
abbrev disk : Env
disk = record {
  World = Option String;
  sync = λ id version w. (err (errorf "no sync" []), w);
  access = λ ticket version w. (err (errorf "no access" []), w);
  bootstrap = λ id version w. (err (errorf "no bootstrap" []), w);
  authorize = λ url ticket w. (none, w);
  wait = λ time w. (none, w);
  make_parent = λ path w. (none, w);
  write_file = λ path contents w. (none, some contents);
  read_file =
      λ path w. elim w as (λ _. Result String) [ none ↦ err not_exist | some text ↦ ok text ];
  decode_directory = λ text. err (errorf "no directory" []);
  decode_inventory = λ text. err (errorf "no inventory" []);
  decode_release = λ text. err (errorf "no release" []);
  encode_inventory = λ inv. "inventory";
  encode_identity = λ f. written f "";
  parse_url = λ url. none;
}

abbrev repeat : ℕ → ℕ → List ℕ
repeat zero b = []
repeat (suc n) b = b ∷ repeat n b

abbrev keys : Keys (Option String)
keys = record {
  random = λ n w. (ok (repeat n 171), w);
  generate_key = λ w. (ok (repeat 64 7), w);
  public_half = λ k. k;
  decode_identity = read_back;
}

written-append : (f : IdentityFile) → written f "" <> "\n" ≡ written f "\n"
written-append f =
    field-append f.client_id (field f.signing_key (field f.pending_ticket "")) "\n"
    ∙ ap (field f.client_id) (
        field-append f.signing_key (field f.pending_ticket "") "\n"
        ∙ ap (field f.signing_key)
            (field-append f.pending_ticket "" "\n" ∙ ap (field f.pending_ticket) (append.nil "\n")))

read_back-written : (f : IdentityFile) → read_back (written f "\n") ≡ ok f
read_back-written f =
    let (c, s, p) = field-starts f.signing_key (field f.pending_ticket "\n") in
    let (d, t, q) = field-starts f.pending_ticket "\n" in
    rw
      (
        split-field_tail f.client_id _ c s p,
        split-field_tail f.signing_key _ d t q,
        split-field_tail f.pending_ticket "\n" "\n" "" refl,
      )
      refl

disk-IsFaithful : IsFaithful disk keys
disk-IsFaithful = record {
  reads = λ path text w h. refl;
  decodes = λ f. ap read_back (written-append f) ∙ read_back-written f;
}

repeat-IsBytes : (n b : ℕ) → b < 256 → IsBytes (repeat n b)
repeat-IsBytes zero b h = tt
repeat-IsBytes (suc n) b h = (h, repeat-IsBytes n b h)

keys-IsGenerator : IsGenerator disk keys
keys-IsGenerator = record {
  bytes = λ w key e. subst IsBytes (ok_same e) (repeat-IsBytes 64 7 (omega arith));
  size = λ w key e. ap length (sym (ok_same e));
}
  where
    ok_same : {a b : List ℕ} → ok a ≡ ok b → a ≡ b
    ok_same e = cc

abbrev places : Paths
places = record { identity = "id.json"; inventory = "nodes.json" }

abbrev new_id : Identity
new_id = record {
  client_id = "abababab-abab-8bab-abab-abababababab";
  signing_key = repeat 64 7;
  pending_ticket = "";
}

is_new : (open_session disk keys places none).0 ≡ ok (new_id, true)
unfolding open_session ◌>>=◌ attempt opened load_identity create_identity new_identity pure keep_new
    ◌>>◌ lift save_new save call_unit format_uuid mark nat_eq
is_new = refl

open_session_again_example :
    (open_session disk keys places (open_session disk keys places none).1).0 ≡ ok (new_id, false)
open_session_again_example =
    open_session_again disk keys disk-IsFaithful keys-IsGenerator places new_id none is_new
