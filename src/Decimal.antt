-- ===== src/Decimal.antt =====
-- Decimal text of integers: what Lua's `tostring` and Redis print for a number, and
-- strconv.ParseInt(s, 10, 64) of Go.
pub mod RoundTrip
use retcd.Prelude.{
  ℕ, zero, suc, ◌+◌, ◌-◌, ◌*◌, ◌/◌, ◌%◌, ◌^◌, ◌≤◌, ◌<◌, ◌&&◌, List, [], ◌∷◌, ◌++◌, Option, none,
  some, ltb, leb, ◌==◌, if◌then◌else◌, ℤ, pos, negsuc, Bool, true, false,
}
use retcd.Bytes.{Bytes}

-- The digits of `n`, most significant first. A number has at most as many digits as its value plus one.
unfoldable pub decimal_fuel : ℕ → ℕ → Bytes
decimal_fuel zero n = []
decimal_fuel (suc f) n =
    let digit = b'0' + n % 10 in
    elim (ltb n 10) [ true ↦ digit ∷ [] | false ↦ decimal_fuel f (n / 10) ++ digit ∷ [] ]

unfoldable pub decimal : ℕ → Bytes
unfolding decimal_fuel
decimal n = decimal_fuel (suc n) n

abbrev pub is_digit : ℕ → Bool
is_digit c = leb b'0' c && leb c b'9'

-- The value of the digits behind `acc`; `none` at a byte that is no digit.
unfoldable pub parse_digits : ℕ → Bytes → Option ℕ
parse_digits acc [] = some acc
parse_digits acc (c ∷ s) =
    let rest = parse_digits (acc * 10 + (c - b'0')) s in if is_digit c then rest else none

-- A number without a sign: at least one digit.
unfoldable pub parse_unsigned : Bytes → Option ℕ
parse_unsigned [] = none
parse_unsigned (c ∷ s) = parse_digits 0 (c ∷ s)

-- ParseInt's range errors.
unfoldable pub in_int64 : Option ℕ → Option ℤ
in_int64 none = none
in_int64 (some n) = if ltb n (2 ^ 63) then some (pos n) else none

unfoldable pub negated_in_int64 : Option ℕ → Option ℤ
negated_in_int64 none = none
negated_in_int64 (some zero) = some (pos 0)
negated_in_int64 (some (suc n)) = if ltb n (2 ^ 63) then some (negsuc n) else none

-- strconv.ParseInt(s, 10, 64); `none` is its error.
unfoldable pub parse_int : Bytes → Option ℤ
unfolding parse_digits parse_unsigned in_int64 negated_in_int64
parse_int [] = none
parse_int (c ∷ s) =
    if c == b'-'
    then negated_in_int64 (parse_unsigned s)
    else if c == b'+'
    then in_int64 (parse_unsigned s)
    else in_int64 (parse_unsigned (c ∷ s))
