-- ===== src/Decimal/Defs.antt =====
-- Decimal integers as package strconv reads them and package fmt writes them.
use selftracked.Common.{
  ℕ, zero, suc, ◌+◌, ◌-◌, ◌*◌, ◌/◌, ◌%◌, ◌^◌, Bool, true, false, ◌&&◌, [], ◌∷◌, Option, none, some,
  ltb, leb, nat_beq, if◌then◌else◌,
}
use selftracked.Common.Int.{ℤ, pos, negsuc}
use selftracked.Common.Text.{Text}

abbrev pub is_digit : ℕ → Bool
is_digit c = leb b'0' c && leb c b'9'

-- The value of a run of digits behind the value `n`; `none` at any other byte.
unfoldable pub scan : Text → ℕ → Option ℕ
scan [] n = some n
scan (c ∷ s) n = if is_digit c then scan s (n * 10 + (c - b'0')) else none

unfoldable pub parse_uint : Text → Option ℕ
parse_uint [] = none
parse_uint (c ∷ s) = scan (c ∷ s) 0

-- The range check of ParseInt at 64 bits; the first argument says whether there was a minus sign.
unfoldable pub in_range : Bool → Option ℕ → Option ℤ
in_range _ none = none
in_range false (some n) = if ltb n (2 ^ 63) then some (pos n) else none
in_range true (some zero) = some (pos 0)
in_range true (some (suc n)) = if ltb n (2 ^ 63) then some (negsuc n) else none

-- strconv.ParseInt(s, 10, 64). A value past uint64 is out of range as well, so the digits are
-- summed without a bound.
unfoldable pub parse_int : Text → Option ℤ
parse_int [] = none
parse_int (c ∷ s) =
    if nat_beq c b'-'
    then in_range true (parse_uint s)
    else if nat_beq c b'+'
    then in_range false (parse_uint s)
    else in_range false (parse_uint (c ∷ s))

-- One digit a round, the last one first; the fuel bounds the rounds.
unfoldable pub digits : ℕ → ℕ → Text → Text
digits zero n out = out
digits (suc f) n out =
    let rest = digits f (n / 10) ((b'0' + n % 10) ∷ out) in
    if ltb n 10 then (b'0' + n) ∷ out else rest

unfoldable pub format_nat : ℕ → Text
unfolding digits
format_nat n = digits (suc n) n []

-- `%d`
unfoldable pub format_int : ℤ → Text
unfolding format_nat
format_int (pos n) = format_nat n
format_int (negsuc n) = b'-' ∷ format_nat (suc n)
