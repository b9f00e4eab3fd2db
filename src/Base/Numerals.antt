-- ===== src/Base/Numerals.antt =====
-- `strconv.Itoa` and the `%d` of `fmt`.
use Prim.Native.Nat.{ℕ, zero, suc, ◌/◌, ◌%◌}
use Prim.Native.String.{String, ◌++◌ as ◌<>◌}
use tunnet_lite.Base.Tests.{ltb, if◌then◌else◌}
use tunnet_lite.Base.Int.{ℤ, pos, negsuc}
use tunnet_lite.Base.Equality.{◌==◌, nat_eq}

digit_text : ℕ → String
digit_text n =
    if n == 0
    then "0"
    else if n == 1
    then "1"
    else if n == 2
    then "2"
    else if n == 3
    then "3"
    else if n == 4
    then "4"
    else if n == 5
    then "5"
    else if n == 6
    then "6"
    else if n == 7
    then "7"
    else if n == 8
    then "8"
    else "9"

-- The decimal text of a number, in front of `tail`; each round takes one digit off.
decimal_onto : ℕ → ℕ → String → String
unfolding digit_text
decimal_onto zero n tail = digit_text (n % 10) <> tail
decimal_onto (suc rounds) n tail =
    let rest = decimal_onto rounds (n / 10) (digit_text (n % 10) <> tail) in
    if ltb n 10 then digit_text n <> tail else rest

-- `strconv.Itoa`, for a number that is not negative.
unfoldable pub itoa : ℕ → String
unfolding decimal_onto
itoa n = decimal_onto n n ""

-- `%d` of an integer.
unfoldable pub decimal : ℤ → String
decimal (pos n) = itoa n
decimal (negsuc n) = "-" <> itoa (suc n)
