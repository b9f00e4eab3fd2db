-- ===== src/Tests/Transports.antt =====
-- The transport and the exchange with the control plane, on concrete data.
use tunnet_lite.Base.{
  ℕ, suc, String, ◌<>◌, Bool, true, false, List, [], ◌∷◌, none, some, errorf, Result, ok, err, ◌==◌,
  string_eq, nat_eq, ◌≡◌, refl, sym, ap, ◌∙◌, ==_iff, Bool-cases, inl, inr, ◌&&◌, if◌then◌else◌,
  arith,
}
use Prim.Native.Char.{code}
use Prim.Native.String.append
use tunnet_lite.Base.Address.{split_host_port, cut, join_host_port}
use tunnet_lite.Base.Action.{pure, lift, attempt, ◌>>=◌}
use tunnet_lite.Base.Texts.{to_lower, has_substring, has_prefix}
use tunnet_lite.Base.Int.{pos}
use tunnet_lite.Base.Utf8.{utf8, utf8_char}
use tunnet_lite.Control.Exec.{Identity}
use tunnet_lite.Control.Transport.{
  Net, Resolver, Hardening, Transport, EchDialer, require_ech, new_hardened_client, dial_tls,
  dial_via_resolver, host_of, configure_ech, lookup_config, with_ech, with_dialer, use_ech_dialer,
  base_config, pin_check, adopt, try, shake, retry_config, dial_host, dial_each,
}
use tunnet_lite.Control.Transport.Retry.{IsVerified}
use tunnet_lite.Control.Transport.Hardened.{dial_tls-new_hardened_client}
use tunnet_lite.Control.Transport.Literal.{IsLiteral, given, resolved, dial_via_resolver-same}
use tunnet_lite.Control.Client.{
  Outside, Client, Exchange, Request, new_client, info, open_response, unsigned_request,
  add_signature, signed_request,
}
use tunnet_lite.Control.Client.Sealed.{IsPlain, IsBinding, open_response-same}
use tunnet_lite.Control.Client.Signed.{IsSound, IsSigned, signed_request-IsSigned}

abbrev answer : List ℕ → Result Bool
answer [] = err (errorf "rejected" [])
answer (b ∷ list) = if b == 2 then ok true else err (errorf "rejected" [])

-- The endpoint accepts one configuration, and hands it to whoever comes with another.
abbrev wire : Net
wire = record {
  World = ℕ;
  Raw = Unit {0};
  Conn = Bool;
  Ip = Unit {0};
  Verify = Unit {0};
  parse_url = λ text. ok (record { scheme = "https"; has_user = false; hostname = "cp.example" });
  is_ip = λ text. text == "10.0.0.1";
  show_ip = λ ip. "10.0.0.1";
  lower = λ c. c;
  dial = λ addr w. (ok tt, suc w);
  handshake = λ c raw w. (answer c.encrypted_client_hello_config_list, suc w);
  ech_accepted = λ accepted. accepted;
  close = λ raw w. w;
  rejection = λ e. some (2 ∷ []);
  configure_http2 = λ w. (none, w);
}

abbrev over_https : Resolver wire
over_https = record {
  lookup_ip = λ host w. (ok (tt ∷ []), suc w);
  lookup_ech = λ host w. (ok (1 ∷ []), suc w);
}

abbrev hard : Hardening wire
hard = record {
  resolver = some over_https;
  ech = true;
  verifier = some (λ mode host. tt);
  pin_mode = "tofu";
}

abbrev control : String
control = "https://cp.example/api"

abbrev made : Transport wire
made = record {
  tls = record {
    server_name = "cp.example";
    verify_peer_certificate = some tt;
    encrypted_client_hello_config_list = 1 ∷ [];
    min_version = 772;
    requires_ech = true;
    next_protos = "h2" ∷ "http/1.1" ∷ [];
  };
  via = some over_https;
  ech_dialer = some (1 ∷ []);
}

is_made : (new_hardened_client wire control hard 0).0 ≡ ok made
unfolding new_hardened_client ◌>>=◌ lift host_of string_eq to_lower configure_ech lookup_config
    attempt with_ech with_dialer use_ech_dialer base_config pin_check
is_made = refl

answer-true : (list : List ℕ) (conn : Bool) → answer list ≡ ok conn → require_ech conn ≡ ok tt
unfolding require_ech
answer-true [] conn h = cc
answer-true (b ∷ list) true h = refl
answer-true (b ∷ list) false h = neither (b == 2) h
  where
    neither :
        (c : Bool)
        → (if c then ok true else err (errorf "rejected" [])) ≡ ok false
        → require_ech false ≡ ok tt
    neither true k = cc
    neither false k = cc

wire-IsVerified : IsVerified wire
wire-IsVerified = record { at = λ c raw w conn h e. answer-true _ conn h }

abbrev through : String → ℕ → Result (Unit {0}) × ℕ
through addr w = dial_via_resolver wire over_https wire.dial addr w

abbrev stale : EchDialer wire
stale = record { config = 1 ∷ []; world = 0 }

is_dialled : (dial_tls wire made.tls through "cp.example:443" stale).0 ≡ ok true
unfolding dial_tls adopt try shake retry_config nat_eq dial_via_resolver ◌>>=◌ lift split_host_port
    has_prefix has_substring dial_host string_eq dial_each attempt pure cut join_host_port
is_dialled = refl

dial_tls-new_hardened_client_example : wire.ech_accepted true ≡ true
dial_tls-new_hardened_client_example =
    dial_tls-new_hardened_client wire control hard refl wire-IsVerified 0 made through
      "cp.example:443" stale true is_made is_dialled

-- A network on which one name is not to be reached.
abbrev deaf : String → ℕ → Result (Unit {0}) × ℕ
deaf addr w = if addr == "name:443" then (err (errorf "no such host" []), w) else (ok tt, suc w)

abbrev head_is : String → Bool
head_is String.[] = false
head_is (String.◌∷◌ c s) = code c == b'n'

name_literal : (a : String) → IsLiteral wire a → a ≡ "name:443" → true ≡ false
unfolding split_host_port cut has_substring has_prefix string_eq nat_eq join_host_port
name_literal a (given a_0 host port h k) p =
    let e : ok ("name", "443") ≡ ok (host, port) = ap split_host_port (sym p) ∙ h in
    let q : "name" ≡ host = cc in sym k ∙ ap (λ s. s == "10.0.0.1") (sym q)
name_literal a (resolved ip port) p =
    sym (ap head_is (sym (append.cons "1" "0.0.0.1" (":" <> port)) ∙ p))

IsLiteral-ne : (a : String) → IsLiteral wire a → (a == "name:443") ≡ false
IsLiteral-ne a i = elim (Bool-cases (a == "name:443")) [
  | inl e ↦ absurd (true-ne-false (name_literal a i ((==_iff a "name:443").0 e)))
  | inr e ↦ e
]
  where
    true-ne-false : true ≡ false → ⊥
    true-ne-false e = cc

dial_via_resolver-same_example :
    dial_via_resolver wire over_https wire.dial "name:443" 0
    ≡ dial_via_resolver wire over_https deaf "name:443" 0
dial_via_resolver-same_example =
    dial_via_resolver-same wire over_https wire.dial deaf (λ a w i. rw (IsLiteral-ne a i) refl)
      "name:443" 0

abbrev who : Identity
who = record { client_id = "c"; signing_key = 7 ∷ []; pending_ticket = "" }

-- A seal that is the info string it was made with.
abbrev same_bytes : List ℕ → List ℕ → Bool
same_bytes [] [] = true
same_bytes [] (b ∷ k) = false
same_bytes (a ∷ l) [] = false
same_bytes (a ∷ l) (b ∷ k) = a == b && same_bytes l k

same_bytes-eq : (l k : List ℕ) → same_bytes l k ≡ true → l ≡ k
same_bytes-eq [] [] h = refl
same_bytes-eq [] (b ∷ k) h = cc
same_bytes-eq (a ∷ l) [] h = cc
same_bytes-eq (a ∷ l) (b ∷ k) h =
    let e : a ≡ b = (==_iff a b).0 (and_first _ _ h) in
    let q = same_bytes-eq l k (and_second _ _ h) in cc
  where
    and_first : (a b : Bool) → a && b ≡ true → a ≡ true
    and_first true b h = refl
    and_first false b h = h

    and_second : (a b : Bool) → a && b ≡ true → b ≡ true
    and_second true b h = h
    and_second false b h = absurd cc

abbrev outside : Outside
outside = record {
  World = ℕ;
  Key = Unit {0};
  random = λ n w. (ok (w ∷ []), suc w);
  generate_key = λ w. (ok (tt, 3 ∷ []), suc w);
  now = λ w. (pos 1000, w);
  parse_url = λ url. ok ("cp.example", "/api");
  send = λ req w. (err (errorf "no answer" []), w);
  sha256 = λ m. 5 ∷ [];
  sign = λ k m. 6 ∷ [];
  public_half = λ k. 8 ∷ [];
  open_sealed = λ k i c. if same_bytes i c then ok c else err (errorf "not authentic" []);
  encode_identity_request = λ r. [];
  encode_ticket_request = λ r. [];
  encode_ticket = λ t. [];
  decode_bootstrap = λ b. err (errorf "no block" []);
  text_of = λ b. "";
  origin = λ url. ok ("https", "cp.example");
}

abbrev seal : Unit {0} → List ℕ → List ℕ → List ℕ
seal k i plain = i

seal-IsBinding : IsBinding outside seal
seal-IsBinding = record { at = λ k i j plain out h. bound i j out (same_bytes i j) refl h }
  where
    bound :
        (i j out : List ℕ) (b : Bool)
        → same_bytes i j ≡ b
        → (if b then ok j else err (errorf "not authentic" [])) ≡ ok out
        → i ≡ j
    bound i j out true e h = same_bytes-eq i j e
    bound i j out false e h = cc

abbrev sync_call : Exchange (Unit {0})
sync_call = record {
  operation = "sync";
  nonce = "AQ";
  nonce_raw = 1 ∷ [];
  response_key = tt;
  response_pub = "Aw";
}

abbrev client : Client
client = new_client who

is_open :
    open_response outside client sync_call (seal tt (info "c" sync_call) [])
    ≡ ok (info "c" sync_call)
unfolding open_response info utf8 utf8_char nat_eq
is_open = refl

suc_ne : {n : ℕ} → suc n ≡ 0 → ⊥
suc_ne e = omega arith

is_plain : IsPlain "c"
unfolding utf8 utf8_char
is_plain = ((λ e. suc_ne e), tt)

sync-IsPlain : IsPlain "sync"
unfolding utf8 utf8_char
sync-IsPlain = ((λ e. suc_ne e), ((λ e. suc_ne e), ((λ e. suc_ne e), ((λ e. suc_ne e), tt))))

open_response-same_example :
    (utf8 "sync" ≡ utf8 "sync")
    × (utf8 "c" ≡ utf8 "c")
    × (sync_call.nonce_raw ≡ sync_call.nonce_raw)
open_response-same_example =
    open_response-same outside seal seal-IsBinding client sync_call sync_call "c" []
      (info "c" sync_call) is_plain is_plain sync-IsPlain sync-IsPlain is_open

abbrev any_signature : List ℕ → List ℕ → List ℕ → Bool
any_signature k m sig = same_bytes sig (6 ∷ [])

any_signature-IsSound : IsSound outside any_signature
unfolding nat_eq
any_signature-IsSound = record {
  passes = λ k m. refl;
  sig_bytes = λ k m. (omega arith, tt);
  key_bytes = λ k. (omega arith, tt);
  digest_bytes = λ m. (omega arith, tt);
}

abbrev the_request : Request
the_request =
    add_signature outside client sync_call (pos 1000)
      (unsigned_request outside client sync_call [] ("cp.example", "/api"))

signed_request-IsSigned_example :
    IsSigned outside any_signature the_request
    × (the_request.method ≡ "POST")
    × (the_request.body ≡ [])
    × (outside.parse_url client.endpoint ≡ ok (the_request.host, the_request.escaped_path))
signed_request-IsSigned_example =
    signed_request-IsSigned outside any_signature any_signature-IsSound client sync_call []
      (pos 1000) the_request (unfold signed_request in refl)
