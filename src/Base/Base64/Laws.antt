-- ===== src/Base/Base64/Laws.antt =====
-- Decoding undoes encoding, and the encodings agree wherever two of them accept a text.
use Prim.Native.Nat.{ℕ, zero, suc, ◌<◌, ◌/◌, ◌%◌, ◌+◌, ◌*◌}
use Prim.Native.Char.{code}
use Prim.Native.String.{String}
use mathlib.Core.Path.{◌≡◌, refl}
use mathlib.Core.Bool.{Bool, true, false, ◌&&◌, not, ◌||◌}
use mathlib.Core.List.{List, [], ◌∷◌}
use mathlib.Core.Option.{Option, none, some}
use mathlib.Core.Logic.{inl, inr}
use native.Mathlib.Omega.{arith}
use tunnet_lite.Base.Tests.{Bool-cases, if◌then◌else◌}
use tunnet_lite.Base.Equality.{◌==◌, nat_eq}
use tunnet_lite.Base.Lists.{All, select}
use tunnet_lite.Base.Base64.{
  Encoding, codes, symbol, digit, last_one, last_two, full, quanta, decode, encode,
}

-- A test passes at each number under a bound.
holds_under : (ℕ → Bool) → ℕ → Bool
holds_under test zero = true
holds_under test (suc bound) = holds_under test bound && test bound

holds_at :
    (test : ℕ → Bool) (bound v : ℕ) → v < bound → holds_under test bound ≡ true → test v ≡ true
unfolding holds_under
holds_at test zero v below all = absurd (omega arith)
holds_at test (suc bound) v below all = ground (arith, holds_at test bound v)

is_some_of : ℕ → Option ℕ → Bool
is_some_of v none = false
is_some_of v (some w) = w == v

is_some_of→eq : (v : ℕ) (o : Option ℕ) → is_some_of v o ≡ true → o ≡ some v
unfolding is_some_of
is_some_of→eq v none h = cc
is_some_of→eq v (some w) h = ground arith

-- A symbol stands for its digit, and is no line end.
is_good : Bool → ℕ → Bool
unfolding is_some_of
is_good url v =
    is_some_of v (digit url (code (symbol url v)))
    && not (code (symbol url v) == 10 || code (symbol url v) == 13)

table : (url : Bool) → holds_under (is_good url) 64 ≡ true
unfolding holds_under is_good digit symbol nat_eq
table true = refl
table false = refl

digit-symbol : (url : Bool) (v : ℕ) → v < 64 → digit url (code (symbol url v)) ≡ some v
unfolding is_good
digit-symbol url v h = is_some_of→eq v _ (ground (arith, holds_at (is_good url) 64 v h (table url)))

symbol-kept :
    (url : Bool) (v : ℕ)
    → v < 64
    → not (code (symbol url v) == 10 || code (symbol url v) == 13) ≡ true
unfolding is_good
symbol-kept url v h = ground (arith, holds_at (is_good url) 64 v h (table url))

digit_pad : (url : Bool) → digit url b'=' ≡ none
unfolding digit
digit_pad true = refl
digit_pad false = refl

digit_agree : (u v : Bool) (c i j : ℕ) → digit u c ≡ some i → digit v c ≡ some j → i ≡ j
unfolding digit
digit_agree u v c i j h k = ground arith

-- Two partial results that are equal where both are there.
abbrev Agree {ℓ} : {A : Type ℓ} → Option A → Option A → Type ℓ
Agree {A} p q = (x y : A) → p ≡ some x → q ≡ some y → x ≡ y

digits-Agree : (u v : Bool) (c : ℕ) → Agree (digit u c) (digit v c)
digits-Agree u v c x y = digit_agree u v c x y

module _ (e f : Encoding) where
  last_one-Agree :
      (p q r s : Option ℕ) → Agree p r → Agree q s → Agree (last_one e p q) (last_one f r s)
  unfolding last_one
  last_one-Agree (some a) (some b) (some c) (some d) h k x y =
      ground (arith, h a c refl refl, k b d refl refl)
  last_one-Agree _ _ _ _ h k x y = ground arith

  last_two-Agree :
      (p q r s t u : Option ℕ)
      → Agree p s
      → Agree q t
      → Agree r u
      → Agree (last_two e p q r) (last_two f s t u)
  unfolding last_two
  last_two-Agree (some a) (some b) (some c) (some a') (some b') (some c') h k l x y =
      ground (arith, h a a' refl refl, k b b' refl refl, l c c' refl refl)
  last_two-Agree _ _ _ _ _ _ h k l x y = ground arith

  full-Agree :
      (p q r s p' q' r' s' : Option ℕ) (t t' : Option (List ℕ))
      → Agree p p'
      → Agree q q'
      → Agree r r'
      → Agree s s'
      → Agree t t'
      → Agree (full e p q r s t) (full f p' q' r' s' t')
  unfolding full
  full-Agree (some a) (some b) (some c) (some d) (some a') (some b') (some c') (some d') (some t)
        (some t') h k l m n x y =
      ground (
        arith,
        h a a' refl refl,
        k b b' refl refl,
        l c c' refl refl,
        m d d' refl refl,
        n t t' refl refl,
      )
  full-Agree _ _ _ _ _ _ _ _ _ _ h k l m n x y = ground arith

  full_pad : (p q r : Option ℕ) (t : Option (List ℕ)) → full e p q r none t ≡ none
  unfolding full
  full_pad (some p) (some q) (some r) (some t) = refl
  full_pad _ _ _ _ = refl

module _ (e f : Encoding) where
  quanta_agree : (l x y : List ℕ) → quanta e l ≡ some x → quanta f l ≡ some y → x ≡ y
  unfolding quanta
  quanta_agree [] x y h k = cc
  quanta_agree (a ∷ []) x y h k = cc
  quanta_agree (a ∷ b ∷ []) x y h k = ground (
    arith,
    last_one-Agree e f _ _ _ _ (digits-Agree e.url f.url a) (digits-Agree e.url f.url b) x y,
  )
  quanta_agree (a ∷ b ∷ c ∷ []) x y h k = ground (
    arith,
    last_two-Agree e f _ _ _ _ _ _ (digits-Agree e.url f.url a) (digits-Agree e.url f.url b)
        (digits-Agree e.url f.url c) x y,
  )
  quanta_agree (a ∷ b ∷ c ∷ d ∷ rest) x y h k = ground (
    arith,
    digit_pad e.url,
    digit_pad f.url,
    last_one-Agree e f _ _ _ _ (digits-Agree e.url f.url a) (digits-Agree e.url f.url b) x y,
    last_two-Agree e f _ _ _ _ _ _ (digits-Agree e.url f.url a) (digits-Agree e.url f.url b)
        (digits-Agree e.url f.url c) x y,
    full-Agree e f _ _ _ _ _ _ _ _ _ _ (digits-Agree e.url f.url a) (digits-Agree e.url f.url b)
        (digits-Agree e.url f.url c) (digits-Agree e.url f.url d) (λ x y. quanta_agree rest x y) x
        y,
    full_pad e f (digit e.url a) (digit e.url b) (digit e.url c) (quanta e rest),
    full_pad f e (digit f.url a) (digit f.url b) (digit f.url c) (quanta f rest),
  )

  -- A text that two encodings accept stands for the same bytes in both.
  pub decode_agree : (s : String) (x y : List ℕ) → decode e s ≡ some x → decode f s ≡ some y → x ≡ y
  unfolding decode
  decode_agree s x y = quanta_agree _ x y

abbrev pub IsBytes : List ℕ → Type 0
IsBytes = All (λ b. b < 256)

keep : ℕ → Bool
keep c = not (c == 10 || c == 13)

keep-symbol : (url : Bool) (v : ℕ) → v < 64 → keep (code (symbol url v)) ≡ true
unfolding keep
keep-symbol url v h = symbol-kept url v h

select-symbol :
    (url : Bool) (v : ℕ) (l : List ℕ)
    → v < 64
    → select keep (code (symbol url v) ∷ l) ≡ code (symbol url v) ∷ select keep l
select-symbol url v l h = rw (keep-symbol url v h)

module _ (url padded : Bool) where
  abbrev enc : Encoding
  enc = record { url = url; padded = padded }

  quanta_of_one :
      (x y r : ℕ)
      → x < 64
      → y < 64
      → x * 4 + y / 16 ≡ r
      → quanta enc (
          select keep
            (code (symbol url x) ∷ code (symbol url y) ∷ codes (if padded then "==" else "")))
        ≡ some (r ∷ [])
  quanta_of_one x y r hx hy e =
      rw (select-symbol url x _ hx, select-symbol url y _ hy)
        (elim (Bool-cases padded) [
          | inl p ↦ rw p (
              unfold quanta keep nat_eq in
              ground (arith, digit-symbol url x hx, digit-symbol url y hy))
          | inr p ↦
              rw p (unfold quanta in ground (arith, digit-symbol url x hx, digit-symbol url y hy))
        ])

  quanta_of_two :
      (x y z r s : ℕ)
      → x < 64
      → y < 64
      → z < 64
      → x * 4 + y / 16 ≡ r
      → y % 16 * 16 + z / 4 ≡ s
      → quanta enc (
          select keep (
            code (symbol url x)
            ∷ code (symbol url y)
            ∷ code (symbol url z)
            ∷ codes (if padded then "=" else "")))
        ≡ some (r ∷ s ∷ [])
  quanta_of_two x y z r s hx hy hz e f =
      rw (select-symbol url x _ hx, select-symbol url y _ hy, select-symbol url z _ hz)
        (elim (Bool-cases padded) [
          | inl p ↦ rw p (
              unfold quanta keep nat_eq in
              ground (
                arith,
                digit-symbol url x hx,
                digit-symbol url y hy,
                digit-symbol url z hz,
                digit_pad url,
              ))
          | inr p ↦ rw p (
              unfold quanta in
              ground (arith, digit-symbol url x hx, digit-symbol url y hy, digit-symbol url z hz))
        ])

  quanta_of_full :
      (x y z w r s t : ℕ) (l bytes : List ℕ)
      → x < 64
      → y < 64
      → z < 64
      → w < 64
      → x * 4 + y / 16 ≡ r
      → y % 16 * 16 + z / 4 ≡ s
      → z % 4 * 64 + w ≡ t
      → quanta enc (select keep l) ≡ some bytes
      → quanta enc (
          select keep (
            code (symbol url x)
            ∷ code (symbol url y)
            ∷ code (symbol url z)
            ∷ code (symbol url w)
            ∷ l))
        ≡ some (r ∷ s ∷ t ∷ bytes)
  quanta_of_full x y z w r s t l bytes hx hy hz hw e f g rest =
      rw
        (
          select-symbol url x _ hx,
          select-symbol url y _ hy,
          select-symbol url z _ hz,
          select-symbol url w _ hw,
        )
        (unfold quanta in
          ground (
            arith,
            digit-symbol url x hx,
            digit-symbol url y hy,
            digit-symbol url z hz,
            digit-symbol url w hw,
            digit_pad url,
          ))

  decode-encode_rest :
      (l : List ℕ) → IsBytes l → quanta enc (select keep (codes (encode enc l))) ≡ some l
  unfolding encode
  decode-encode_rest [] h = unfold quanta in refl
  decode-encode_rest (a ∷ []) h =
      quanta_of_one (a / 4) (a % 4 * 16) a (omega arith) (omega arith) (omega arith)
  decode-encode_rest (a ∷ b ∷ []) h =
      quanta_of_two (a / 4) (a % 4 * 16 + b / 16) (b % 16 * 4) a b (omega arith) (omega arith)
        (omega arith) (omega arith) (omega arith)
  decode-encode_rest (a ∷ b ∷ c ∷ l) h =
      quanta_of_full (a / 4) (a % 4 * 16 + b / 16) (b % 16 * 4 + c / 64) (c % 64) a b c _ l
        (omega arith) (omega arith) (omega arith) (omega arith) (omega arith) (omega arith)
        (omega arith) (decode-encode_rest l h.1.1.1)

-- Decoding gives back the bytes that were encoded.
pub decode-encode : (e : Encoding) (l : List ℕ) → IsBytes l → decode e (encode e l) ≡ some l
unfolding decode keep
decode-encode e l h = decode-encode_rest e.url e.padded l h

digit-lt : (url : Bool) (c v : ℕ) → digit url c ≡ some v → v < 64
unfolding digit
digit-lt url c v h = ground arith

-- The digits are below 64 where they are there.
abbrev IsSmall : Option ℕ → Type 0
IsSmall o = (v : ℕ) → o ≡ some v → v < 64

module _ (e : Encoding) where
  last_one-IsBytes :
      (p q : Option ℕ) (l : List ℕ) → IsSmall p → IsSmall q → last_one e p q ≡ some l → IsBytes l
  unfolding last_one
  last_one-IsBytes (some x) (some y) l hx hy h = ground (arith, hx x refl, hy y refl)
  last_one-IsBytes _ _ l hx hy h = cc

  last_two-IsBytes :
      (p q r : Option ℕ) (l : List ℕ)
      → IsSmall p
      → IsSmall q
      → IsSmall r
      → last_two e p q r ≡ some l
      → IsBytes l
  unfolding last_two
  last_two-IsBytes (some x) (some y) (some z) l hx hy hz h =
      ground (arith, hx x refl, hy y refl, hz z refl)
  last_two-IsBytes _ _ _ l hx hy hz h = cc

  full-IsBytes :
      (p q r s : Option ℕ) (t : Option (List ℕ)) (l : List ℕ)
      → IsSmall p
      → IsSmall q
      → IsSmall r
      → IsSmall s
      → ((m : List ℕ) → t ≡ some m → IsBytes m)
      → full e p q r s t ≡ some l
      → IsBytes l
  unfolding full
  full-IsBytes (some x) (some y) (some z) (some w) (some m) l hx hy hz hw hm h =
      ground (arith, hx x refl, hy y refl, hz z refl, hw w refl, hm m refl)
  full-IsBytes _ _ _ _ _ l hx hy hz hw hm h = cc

module _ (e : Encoding) where
  quanta-IsBytes : (l bytes : List ℕ) → quanta e l ≡ some bytes → IsBytes bytes
  unfolding quanta
  quanta-IsBytes [] bytes h = ground arith
  quanta-IsBytes (a ∷ []) bytes h = cc
  quanta-IsBytes (a ∷ b ∷ []) bytes h =
      ground (arith, last_one-IsBytes e _ _ bytes (digit-lt e.url a) (digit-lt e.url b))
  quanta-IsBytes (a ∷ b ∷ c ∷ []) bytes h = ground (
    arith,
    last_two-IsBytes e _ _ _ bytes (digit-lt e.url a) (digit-lt e.url b) (digit-lt e.url c),
  )
  quanta-IsBytes (a ∷ b ∷ c ∷ d ∷ rest) bytes h = ground (
    arith,
    last_one-IsBytes e _ _ bytes (digit-lt e.url a) (digit-lt e.url b),
    last_two-IsBytes e _ _ _ bytes (digit-lt e.url a) (digit-lt e.url b) (digit-lt e.url c),
    full-IsBytes e _ _ _ _ _ bytes (digit-lt e.url a) (digit-lt e.url b) (digit-lt e.url c)
        (digit-lt e.url d) (λ m k. quanta-IsBytes rest m k),
  )

  -- What is decoded are bytes.
  pub decode-IsBytes : (s : String) (bytes : List ℕ) → decode e s ≡ some bytes → IsBytes bytes
  unfolding decode
  decode-IsBytes s bytes h = quanta-IsBytes _ bytes h
