-- ===== src/Tests/Fetches.antt =====
-- The fetch of a rule file, on concrete data.
use tunnet_lite.Base.{
  ℕ, suc, String, ◌<>◌, false, List, [], ◌∷◌, none, some, length, leb, ok, ◌==◌, string_eq, nat_eq,
  ◌≡◌, ◌≢◌, ◌⊎◌, refl, if◌then◌else◌, arith, ◌+◌, ◌*◌, ◌≤◌,
}
use tunnet_lite.Base.Dict.{lookup, erase, insert}
use tunnet_lite.Base.Action.{pure, raise, lift, gets, attempt, ◌>>=◌, ◌>>◌}
use tunnet_lite.Base.Address.{trim_slash}
use tunnet_lite.Base.Reader.{read_limited}
use tunnet_lite.Base.Numerals.{itoa}
use tunnet_lite.Base.Texts.{fields, to_lower, trim_space}
use tunnet_lite.Base.Utf8.{utf8, utf8_char}
use tunnet_lite.Rules.{
  Net, Local, new_fetcher, digest, fetch_one, get, call, checksum, fetch_target, file_digest,
  rounds, attempts_of, copied, copy, create, download, judge, mismatch, move, put, remove, rename,
  renamed, round, fetch,
}
use tunnet_lite.Rules.Cost.{IsCount, fetch-Costs}
use tunnet_lite.Rules.Laws.{fetch_one-IsFetched}

abbrev sum_text : String
sum_text = "00000000000000000000000000000000000000000000000000000000000000ff"

-- A network whose first download is cut short; the world counts the calls.
abbrev pub flaky : Net
flaky = record {
  World = ℕ;
  fetch = λ url w. (
    ok (record {
      status = 200;
      status_text = "200 OK";
      body = if leb w 1 then 1 ∷ [] else 1 ∷ 2 ∷ [];
      broken = none;
    }),
    suc w,
  );
  make_dir = λ dir w. (none, w);
  create = λ path w. (none, w);
  rename = λ from to w. (none, w);
  remove = λ path w. (none, w);
  write = λ path bytes w. (none, w);
  unreadable = λ path w. false;
  join = λ dir name. dir <> ("/" <> name);
  sha256 = λ bytes. if length bytes == 2 then sum_text else "other";
  text_of = λ bytes. sum_text <> "  geoip.dat";
  lower = λ c. c;
}

abbrev start : Local flaky
start = record { files = []; world = 0 }

fetch_one-IsFetched_example :
    let target : String = "rules/geoip.dat" in
    let (r, t) = fetch_one flaky new_fetcher "rules" "geoip.dat" start in
    ((lookup target t.files ≡ lookup target start.files) × (r ≢ ok tt))
    ⊎ ((want : String) × (c : List ℕ) × ((digest flaky new_fetcher "geoip.dat" start).0 ≡ ok want)
        × (lookup target t.files ≡ some c)
        × (flaky.sha256 c ≡ want))
fetch_one-IsFetched_example = fetch_one-IsFetched flaky new_fetcher "rules" "geoip.dat" start

fetch_one-test :
    lookup "rules/geoip.dat" (fetch_one flaky new_fetcher "rules" "geoip.dat" start).1.files
    ≡ some (1 ∷ 2 ∷ [])
unfolding fetch_one lookup ◌>>=◌ digest get call nat_eq pure lift read_limited checksum fields
    string_eq utf8 fetch_target gets file_digest rounds attempt raise ◌>>◌ trim_slash erase insert
    itoa to_lower trim_space utf8_char attempts_of copied copy create download judge mismatch move
    put remove rename renamed round
fetch_one-test = refl

flaky-IsCount : IsCount flaky (λ w. w)
flaky-IsCount = record {
  fetch = λ url w. omega arith;
  make_dir = λ dir w. omega arith;
  create = λ path w. omega arith;
  rename = λ from to w. omega arith;
  remove = λ path w. omega arith;
  write = λ path bytes w. omega arith;
}

fetch-Costs_example :
    (fetch flaky new_fetcher "rules" start).1.world ≤ 0 + 2 * (1 + attempts_of new_fetcher)
fetch-Costs_example = fetch-Costs flaky (λ w. w) flaky-IsCount new_fetcher "rules" start
