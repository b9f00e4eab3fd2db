-- ===== src/Supervisor/Laws.antt =====
-- What `rankEntries` keeps of a group.
use tunnet_lite.Base.{
  ℕ, zero, suc, ◌≤◌, ◌++◌, String, Bool, true, false, ◌&&◌, List, [], ◌∷◌, length, take, is_empty,
  ok, string_eq, if◌then◌else◌, ltb, map, select, ◌≡◌, ◌≢◌, refl, sym, ap, arith, length-take-le,
}
use tunnet_lite.Base.Int.{ℤ, pos, negsuc, pos_part}
use tunnet_lite.Base.Int
use tunnet_lite.Inventory.{EntryGroup}
use tunnet_lite.Probe.{Probed, is_up, rank_tcp}
use tunnet_lite.Probe.Laws.{reachable-eq}
use tunnet_lite.Supervisor.{Options, dial_timeout, cut_entries, rank_entries}

take-prefix : {A : Type 0} (n : ℕ) (xs : List A) → (rest : List A) × (take n xs ++ rest ≡ xs)
take-prefix zero xs = (xs, refl)
take-prefix (suc n) [] = ([], refl)
take-prefix (suc n) (x ∷ xs) = let (rest, e) = take-prefix n xs in (rest, ap (λ t. x ∷ t) e)

append-nil : {A : Type 0} (xs : List A) → xs ++ [] ≡ xs
append-nil [] = refl
append-nil (x ∷ xs) = ap (λ t. x ∷ t) (append-nil xs)

-- What is kept is a prefix, and not empty.
abbrev pub IsKept : List String → List String → Type 0
IsKept all kept = (kept ≢ []) × (rest : List String) × (kept ++ rest ≡ all)

IsKept-if :
    (b : Bool) (n : ℕ) (all : List String)
    → is_empty all ≡ false
    → (b ≡ true → n ≢ 0)
    → IsKept all (if b then take n all else all)
IsKept-if b n [] e h = cc
IsKept-if false n (x ∷ xs) e h = (λ k. cc, [], append-nil (x ∷ xs))
IsKept-if true zero (x ∷ xs) e h = absurd (h refl refl)
IsKept-if true (suc n) (x ∷ xs) e h =
    (λ k. cc, (take-prefix (suc n) (x ∷ xs)).0, (take-prefix (suc n) (x ∷ xs)).1)

cut_entries-IsKept :
    (max : ℤ) (all : List String) → is_empty all ≡ false → IsKept all (cut_entries max all)
unfolding cut_entries
cut_entries-IsKept max all n =
    IsKept-if (Int.ltb (pos 0) max && ltb (pos_part max) (length all)) (pos_part max) all n
      (λ h z. ground arith)

length-cut_entries-le :
    (max : ℤ) (all : List String)
    → Int.ltb (pos 0) max ≡ true
    → length (cut_entries max all) ≤ pos_part max
unfolding cut_entries
length-cut_entries-le max all h = ground (arith, length-take-le (pos_part max) all)

-- The addresses of a group that answered, the fastest first.
abbrev pub answered : (ℤ → String → Probed) → EntryGroup → Options → List String
answered dial group o =
    map (λ r. r.ip) (select is_up (rank_tcp (dial (dial_timeout o.probe_timeout)) group.ipv4))

rank_entries-parts :
    (dial : ℤ → String → Probed) (group : EntryGroup) (o : Options) (entries : List String)
    → rank_entries dial group o ≡ ok entries
    → (is_empty (answered dial group o) ≡ false)
      × (cut_entries o.max_entries (answered dial group o) ≡ entries)
unfolding rank_entries
rank_entries-parts dial group o entries h =
    rw (sym (reachable-eq (rank_tcp (dial (dial_timeout o.probe_timeout)) group.ipv4)))
      (ground arith)

-- The entries that `rankEntries` returns are at least one, and stand at the front of the list of the
-- group's addresses that answered, the fastest first.
pub rank_entries-IsKept :
    (dial : ℤ → String → Probed) (group : EntryGroup) (o : Options) (entries : List String)
    → rank_entries dial group o ≡ ok entries
    → IsKept (answered dial group o) entries
rank_entries-IsKept dial group o entries h =
    let (n, e) = rank_entries-parts dial group o entries h in
    rw (sym e) (cut_entries-IsKept o.max_entries (answered dial group o) n)

-- With a limit above 0 on the entries, `rankEntries` returns no more of them than the limit.
pub length-rank_entries-le :
    (dial : ℤ → String → Probed) (group : EntryGroup) (o : Options) (entries : List String)
    → Int.ltb (pos 0) o.max_entries ≡ true
    → rank_entries dial group o ≡ ok entries
    → length entries ≤ pos_part o.max_entries
length-rank_entries-le dial group o entries m h =
    let (n, e) = rank_entries-parts dial group o entries h in
    rw (sym e) (length-cut_entries-le o.max_entries (answered dial group o) m)
