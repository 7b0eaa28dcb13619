-- ===== src/Common/Text.antt =====
-- Text: decimal printing and reading of integers as `str` and `int` do it, prefixes and joins.
use Prim.Native.Nat.{ℕ, zero, suc, ◌/◌, ◌%◌}
use Prim.Native.Char.{Char}
use Prim.Native.String.{String, [], ◌∷◌, ◌++◌}
use tile_mem.Common.Tests.{ltb, ◌==◌, if◌then◌else◌}
use tile_mem.Common.Int.{ℤ, pos, negsuc}

-- The decimal digit of a number below ten.
unfoldable pub digit : ℕ → Char
digit d =
    if d == 0
    then "0"
    else if d == 1
    then "1"
    else if d == 2
    then "2"
    else if d == 3
    then "3"
    else if d == 4
    then "4"
    else if d == 5
    then "5"
    else if d == 6
    then "6"
    else if d == 7
    then "7"
    else if d == 8
    then "8"
    else "9"

-- The digits of `n` before `out`. The fuel is a bound on their number.
unfoldable pub emit : ℕ → ℕ → String → String
unfolding digit
emit zero n out = out
emit (suc fuel) n out =
    let rest = emit fuel (n / 10) (digit (n % 10) ∷ out) in if ltb n 10 then digit n ∷ out else rest

-- A number has at most as many digits as its value, and one more for zero.
unfoldable pub dec : ℕ → String
unfolding emit
dec n = emit (suc n) n []

-- `str(n)`
unfoldable pub str_int : ℤ → String
unfolding dec
str_int (pos n) = dec n
str_int (negsuc n) = "-" ++ dec (suc n)
