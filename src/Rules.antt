-- ===== src/Rules.antt =====
-- internal/rules/fetch.go. The files are part of the state; the world decides what the network
-- delivers and which calls of the file system fail.
pub mod Laws
pub mod Cost
use tunnet_lite.Base.{
  ℕ, zero, suc, String, ◌<>◌, Bool, true, false, not, ◌||◌, List, [], ◌∷◌, Option, none, some,
  length, take, leb, Error, errorf, wrapf, Result, ok, err, context, ◌==◌, nat_eq, string_eq,
  if◌then◌else◌,
}
use Prim.Native.Char.{Char}
use tunnet_lite.Base.Int
use tunnet_lite.Base.Int.{ℤ, pos, pos_part}
use tunnet_lite.Base.Dict.{Dict, lookup}
use tunnet_lite.Base.Dict
use tunnet_lite.Base.Texts.{fields, to_lower, trim_space}
use tunnet_lite.Base.Utf8.{utf8}
use tunnet_lite.Base.Reader.{read_limited}
use tunnet_lite.Base.Numerals.{itoa}
use tunnet_lite.Base.Address.{trim_slash}
use tunnet_lite.Base.Action.{Action, pure, raise, lift, gets, attempt, or_error, ◌>>=◌, ◌>>◌}

-- An answer to a GET: the bytes that arrive, and the error that ends them, if not the end.
pub record Response : Type 0 where
  pub status : ℕ
  pub status_text : String
  pub body : List ℕ
  pub broken : Option Error

pub record Net : Type 1 where
  pub World : Type 0
  -- `http.NewRequestWithContext` and `Client.Do` of a GET
  pub fetch : String → World → Result Response × World
  -- `os.MkdirAll(dir, 0o755)`
  pub make_dir : String → World → Option Error × World
  -- `os.Create`, `os.Rename` and `os.Remove`: the error, if the call fails
  pub create : String → World → Option Error × World
  pub rename : String → String → World → Option Error × World
  pub remove : String → World → Option Error × World
  -- writing bytes to a new file: if that fails, the bytes that are in it and the error
  pub write : String → List ℕ → World → Option (List ℕ × Error) × World
  -- whether a file that is there cannot be read
  pub unreadable : String → World → Bool
  -- `filepath.Join`
  pub join : String → String → String
  -- SHA-256 in hexadecimal, the text that bytes stand for, and the lower-case letters
  pub sha256 : List ℕ → String
  pub text_of : List ℕ → String
  pub lower : Char → Char

-- `Fetcher`, without its HTTP client.
pub record Fetcher : Type 0 where
  pub base_url : String
  pub attempts : ℤ

-- `NewFetcher`
abbrev pub new_fetcher : Fetcher
new_fetcher = record {
  base_url = "https://github.com/Loyalsoldier/v2ray-rules-dat/releases/latest/download";
  attempts = pos 3;
}

-- `max(f.Attempts, 1)`
unfoldable pub attempts_of : Fetcher → ℕ
attempts_of f = if Int.ltb (pos 0) f.attempts then pos_part f.attempts else 1

-- Whether a file that is there is the published one.
abbrev pub is_current : String → Option String → Bool
is_current want none = false
is_current want (some got) = got == want

-- What one round of the download loop comes to.
pub data Round : Type 0 where
  done : Result (Unit {0}) → Round
  again : Error → Round

-- The files after a file, if it is there, has been moved.
abbrev pub move_file : String → String → Option (List ℕ) → Dict (List ℕ) → Dict (List ℕ)
move_file from to none files = files
move_file from to (some bytes) files = Dict.insert to bytes (Dict.erase from files)

module _ (N : Net) where
  pub record Local : Type 0 where
    pub files : Dict (List ℕ)
    pub world : N.World

  unfoldable pub call {ℓ} : {A : Type ℓ} → (N.World → A × N.World) → Local → A × Local
  call f s = let (a, w) = f s.world in (a, record s { world = w })

  unfoldable pub put : String → List ℕ → Local → Local
  put path bytes s = record s { files = Dict.insert path bytes s.files }

  -- `Fetcher.get`
  unfoldable pub get : Fetcher → String → Action Local Response
  get f name = do
    let url = trim_slash f.base_url <> ("/" <> name)
    resp ← call (N.fetch url)
    if resp.status == 200
        then pure resp
        else raise (errorf "%s returned %s" (url ∷ resp.status_text ∷ []))

  -- `digest` from the fields of the checksum file.
  unfoldable pub checksum : String → List String → Result String
  checksum contents [] = err (errorf "unusable checksum file: %q" (trim_space contents ∷ []))
  checksum contents (field ∷ rest) =
      if not (length (utf8 field) == 64)
      then err (errorf "unusable checksum file: %q" (trim_space contents ∷ []))
      else ok (to_lower N.lower field)

  -- `Fetcher.digest`
  unfoldable pub digest : Fetcher → String → Action Local String
  digest f name = do
    resp ← get f (name <> ".sha256sum")
    bytes ← lift (read_limited 4096 resp.body resp.broken)
    lift (checksum (N.text_of bytes) (fields (N.text_of bytes)))

  -- `os.Create`, which leaves an empty file.
  unfoldable pub create : String → Local → Result (Unit {0}) × Local
  create path s =
      let (e, t) = call (N.create path) s in
      elim e [ none ↦ (ok tt, put path [] t) | some x ↦ (err x, t) ]

  -- `io.Copy` to a new file and the hash, from what the write gives and what ends the body. On
  -- success it gives the number of bytes and the digest.
  unfoldable pub copied :
      String → List ℕ → Option Error → Option (List ℕ × Error) → Local → Result (ℕ × String) × Local
  copied path body broken (some (landed, e)) t = (err e, put path landed t)
  copied path body (some e) none t = (err e, put path body t)
  copied path body none none t = (ok (length body, N.sha256 body), put path body t)

  unfoldable pub copy : String → Response → Local → Result (ℕ × String) × Local
  copy path resp s =
      let (failed, t) = call (N.write path resp.body) s in
      copied path resp.body resp.broken failed t

  -- `Fetcher.download`
  unfoldable pub download : Fetcher → String → String → Action Local (ℕ × String)
  download f name path = do resp ← get f name; create path; copy path resp

  unfoldable pub renamed : String → String → Option Error → Local → Result (Unit {0}) × Local
  renamed from to (some x) t = (err x, t)
  renamed from to none t =
      (ok tt, record t { files = move_file from to (lookup from t.files) t.files })

  unfoldable pub rename : String → String → Local → Result (Unit {0}) × Local
  rename from to s = let (e, t) = call (N.rename from to) s in renamed from to e t

  -- `os.Remove`, whose error is ignored.
  unfoldable pub remove : String → Local → Result (Unit {0}) × Local
  remove path s =
      let (e, t) = call (N.remove path) s in
      elim e [ some x ↦ (ok tt, t) | none ↦ (ok tt, record t { files = Dict.erase path t.files }) ]

  -- A digest that does not match: the part is removed, and there is another round.
  unfoldable pub mismatch : String → ℕ → ℕ → Action Local Round
  mismatch target attempts n = do
    remove (target <> ".part")
    pure (
        again (
          errorf "digest mismatch (attempt %d of %d); the download was probably truncated"
            (itoa n ∷ itoa attempts ∷ [])))

  -- A digest that matches: the part is moved into place.
  unfoldable pub move : String → Action Local Round
  move target = do renamed ← attempt (rename (target <> ".part") target); pure (done renamed)

  -- The body of the loop, from the download on.
  unfoldable pub judge : String → String → ℕ → ℕ → Result (ℕ × String) → Action Local Round
  judge target want attempts n (err e) = pure (again e)
  judge target want attempts n (ok p) =
      if not (p.1 == want) then mismatch target attempts n else move target

  unfoldable pub round : Fetcher → String → String → String → ℕ → ℕ → Action Local Round
  round f name target want attempts n = do
    r ← attempt (download f name (target <> ".part"))
    judge target want attempts n r

  -- The loop of `attempts` rounds, with the rounds left, the number of the next and `lastErr`.
  unfoldable pub rounds :
      Fetcher → String → String → String → ℕ → ℕ → ℕ → Option Error → Action Local (Unit {0})
  rounds f name target want attempts zero n last = lift (or_error last)
  rounds f name target want attempts (suc left) n last =
      round f name target want attempts n >>= λ r. elim r [
        | done result ↦ lift result
        | again e ↦ rounds f name target want attempts left (suc n) (some e)
      ]

  -- `fileDigest`
  unfoldable pub file_digest : String → Local → Option String
  file_digest path s =
      if N.unreadable path s.world
      then none
      else elim (lookup path s.files) [ none ↦ none | some bytes ↦ some (N.sha256 bytes) ]

  -- `fetchOne` from the published digest on.
  unfoldable pub fetch_target : Fetcher → String → String → String → Action Local (Unit {0})
  fetch_target f target name want = do
    got ← gets (file_digest target)
    if is_current want got
        then pure tt
        else rounds f name target want (attempts_of f) (attempts_of f) 1 none

  -- `fetchOne`
  unfoldable pub fetch_one : Fetcher → String → String → Action Local (Unit {0})
  fetch_one f dir name = do want ← digest f name; fetch_target f (N.join dir name) name want

  -- The loop of `Fetch` over the names.
  unfoldable pub fetch_all : Fetcher → String → List String → Action Local (Unit {0})
  fetch_all f dir [] = pure tt
  fetch_all f dir (name ∷ names) = do
    r ← attempt (fetch_one f dir name)
    lift (context "%s: %w" (name ∷ []) r)
    fetch_all f dir names

  -- `os.MkdirAll`
  unfoldable pub make_dir : String → Action Local (Unit {0})
  make_dir dir s = let (e, t) = call (N.make_dir dir) s in (or_error e, t)

  -- `Fetch`
  unfoldable pub fetch : Fetcher → String → Action Local (Unit {0})
  fetch f dir = do make_dir dir; fetch_all f dir ("geoip.dat" ∷ "geosite.dat" ∷ [])
