-- ===== src/Strings/Decimal.antt =====
-- What the program uses of Go's package strconv, and the `%d` of package fmt: decimal numerals.
pub mod RoundTrip
use scopuli.Prelude.{
  Option, Text, [], if◌then◌else◌, ltb, nat_eq, negsuc, none, pos, some, suc, text_eq, zero, ℕ, ℤ,
  ◌%◌, ◌*◌, ◌+◌, ◌-◌, ◌/◌, ◌==◌, ◌^◌, ◌||◌, ◌∷◌,
}

-- The loop that writes the digits of a number, the last one first; twenty rounds write a uint64.
unfoldable pub write_digits : ℕ → ℕ → Text → Text
write_digits zero n out = out
write_digits (suc rounds) n out =
    let longer = (b'0' + n % 10) ∷ out in
    let rest = write_digits rounds (n / 10) longer in if ltb n 10 then longer else rest

-- `%d` of a number that is not negative and fits in 64 bits.
unfoldable pub decimal : ℕ → Text
unfolding write_digits
decimal n = write_digits 20 n []

-- The number of a text of digits behind the number `n`.
unfoldable pub read_digits : ℕ → Text → Option ℕ
read_digits n [] = some n
read_digits n (c ∷ s) =
    let rest = read_digits (n * 10 + (c - b'0')) s in
    if ltb c b'0' || ltb b'9' c then none else rest

-- At least one digit.
unfoldable pub read_number : Text → Option ℕ
unfolding read_digits
read_number [] = none
read_number (c ∷ s) = read_digits 0 (c ∷ s)

abbrev positive_int64 : Option ℕ → Option ℤ
positive_int64 none = none
positive_int64 (some n) = if ltb n (2 ^ 63) then some (pos n) else none

abbrev negative_int64 : Option ℕ → Option ℤ
negative_int64 none = none
negative_int64 (some zero) = some (pos 0)
negative_int64 (some (suc n)) = if ltb n (2 ^ 63) then some (negsuc n) else none

-- `strconv.ParseInt(s, 10, 64)`, and `strconv.Atoi`.
unfoldable pub parse_int64 : Text → Option ℤ
unfolding read_number
parse_int64 [] = none
parse_int64 (c ∷ s) =
    if c == b'-'
    then negative_int64 (read_number s)
    else if c == b'+'
    then positive_int64 (read_number s)
    else positive_int64 (read_number (c ∷ s))
