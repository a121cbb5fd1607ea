-- ===== src/Decimal/RoundTrip.antt =====
-- Printing and parsing again gives the number back.
use retcd.Prelude.{
  ℕ, zero, suc, ◌+◌, ◌-◌, ◌*◌, ◌/◌, ◌%◌, ◌^◌, ◌≤◌, ◌<◌, ◌≡◌, refl, inl, inr, [], ◌∷◌, ◌++◌, some,
  arith, ltb, Bool-cases, ◌>>=?◌, pos, true, false,
}
use retcd.Bytes.{Bytes}
use retcd.Decimal.{decimal_fuel, decimal, parse_digits, parse_int}

parse_digits-append :
    (acc : ℕ) (s t : Bytes)
    → parse_digits acc (s ++ t) ≡ (parse_digits acc s >>=? λ a. parse_digits a t)
unfolding parse_digits
parse_digits-append acc [] t = refl
parse_digits-append acc (c ∷ s) t = ground (arith, parse_digits-append (acc * 10 + (c - b'0')) s t)

parse_one_digit : (acc d : ℕ) → d < 10 → parse_digits acc ((b'0' + d) ∷ []) ≡ some (acc * 10 + d)
unfolding parse_digits
parse_one_digit acc d h = ground arith

decimal_fuel-small : (f n : ℕ) → ltb n 10 ≡ true → decimal_fuel (suc f) n ≡ (b'0' + n % 10) ∷ []
unfolding decimal_fuel
decimal_fuel-small f n h = ground arith

decimal_fuel-large :
    (f n : ℕ)
    → ltb n 10 ≡ false
    → decimal_fuel (suc f) n ≡ decimal_fuel f (n / 10) ++ (b'0' + n % 10) ∷ []
unfolding decimal_fuel
decimal_fuel-large f n h = ground arith

parse-decimal_fuel : (f n : ℕ) → n < f → parse_digits 0 (decimal_fuel f n) ≡ some n
parse-decimal_fuel zero n h = elim h [ ]
parse-decimal_fuel (suc f) n h = elim (Bool-cases (ltb n 10)) [
  | inl small ↦
      rw (decimal_fuel-small f n small) (ground (arith, parse_one_digit 0 (n % 10) (omega arith)))
  | inr large ↦ rw (decimal_fuel-large f n large) (
      ground (
        arith,
        parse_digits-append 0 (decimal_fuel f (n / 10)) ((b'0' + n % 10) ∷ []),
        parse-decimal_fuel f (n / 10),
        parse_one_digit (n / 10) (n % 10),
      ))
]

abbrev pub StartsWithDigit : Bytes → Type 0
StartsWithDigit [] = ⊥
StartsWithDigit (c ∷ s) = (b'0' ≤ c) × (c ≤ b'9')

StartsWithDigit-append : (s t : Bytes) → StartsWithDigit s → StartsWithDigit (s ++ t)
StartsWithDigit-append [] t h = elim h [ ]
StartsWithDigit-append (c ∷ s) t h = h

decimal_fuel-StartsWithDigit : (f n : ℕ) → n < f → StartsWithDigit (decimal_fuel f n)
decimal_fuel-StartsWithDigit zero n h = elim h [ ]
decimal_fuel-StartsWithDigit (suc f) n h = elim (Bool-cases (ltb n 10)) [
  | inl small ↦ rw (decimal_fuel-small f n small) (omega arith, omega arith)
  | inr large ↦ rw (decimal_fuel-large f n large) (
      StartsWithDigit-append (decimal_fuel f (n / 10)) _
        (decimal_fuel-StartsWithDigit f (n / 10) (ground arith)))
]

parse_int-StartsWithDigit :
    (s : Bytes) (n : ℕ)
    → StartsWithDigit s
    → parse_digits 0 s ≡ some n
    → n < 2 ^ 63
    → parse_int s ≡ some (pos n)
unfolding parse_int
parse_int-StartsWithDigit [] n d h b = elim d [ ]
parse_int-StartsWithDigit (c ∷ s) n d h b = ground arith

pub decimal-StartsWithDigit : (n : ℕ) → StartsWithDigit (decimal n)
unfolding decimal
decimal-StartsWithDigit n = decimal_fuel-StartsWithDigit (suc n) n (omega arith)

-- Printing a number below 2^63 and parsing the text gives the number back.
pub parse_int-decimal : (n : ℕ) → n < 2 ^ 63 → parse_int (decimal n) ≡ some (pos n)
unfolding decimal
parse_int-decimal n b =
    parse_int-StartsWithDigit (decimal_fuel (suc n) n) n
      (decimal_fuel-StartsWithDigit (suc n) n (omega arith))
      (parse-decimal_fuel (suc n) n (omega arith)) b
