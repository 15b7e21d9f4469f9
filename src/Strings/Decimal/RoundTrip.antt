-- ===== src/Strings/Decimal/RoundTrip.antt =====
-- Decimal numerals are read back, and consist of digits.
use scopuli.Prelude.{
  All, Text, [], arith, if◌then◌else◌, ltb, pos, refl, some, suc, zero, ℕ, ◌%◌, ◌+◌, ◌/◌, ◌<◌, ◌^◌,
  ◌∙◌, ◌∷◌, ◌≡◌, ◌≢◌, ◌≤◌,
}
use scopuli.Strings.Decimal.{decimal, parse_int64, read_digits, read_number, write_digits}

write_digits_step :
    (rounds n : ℕ) (out : Text)
    → write_digits (suc rounds) n out ≡ (
        if ltb n 10
        then (b'0' + n % 10) ∷ out
        else write_digits rounds (n / 10) ((b'0' + n % 10) ∷ out))
unfolding write_digits
write_digits_step rounds n out = refl

read_last : (n : ℕ) (out : Text) → read_digits (n / 10) ((b'0' + n % 10) ∷ out) ≡ read_digits n out
unfolding read_digits
read_last n out = ground arith

-- Reading what enough rounds wrote gets back to the number.
read_digits-write_digits :
    (rounds n : ℕ) (out : Text)
    → n < 10 ^ suc rounds
    → read_digits 0 (write_digits (suc rounds) n out) ≡ read_digits n out
read_digits-write_digits zero n out h =
    rw (write_digits_step zero n out) (ground (arith, read_last n out))
read_digits-write_digits (suc rounds) n out h = rw (write_digits_step (suc rounds) n out) (
    ground
      (arith, read_last n out, read_digits-write_digits rounds (n / 10) ((b'0' + n % 10) ∷ out)))

abbrev pub IsDigit : ℕ → Type 0
IsDigit c = (b'0' ≤ c) × (c ≤ b'9')

write_digits-IsDigit :
    (rounds n : ℕ) (out : Text) → All IsDigit out → All IsDigit (write_digits rounds n out)
unfolding write_digits
write_digits-IsDigit zero n out h = h
write_digits-IsDigit (suc rounds) n out h =
    ground (arith, write_digits-IsDigit rounds (n / 10) ((b'0' + n % 10) ∷ out))

pub decimal-IsDigit : (n : ℕ) → All IsDigit (decimal n)
unfolding decimal
decimal-IsDigit n = write_digits-IsDigit 20 n [] tt

write_digits-ne-nil : (rounds n : ℕ) (out : Text) → write_digits (suc rounds) n out ≢ []
write_digits-ne-nil zero n out = unfold write_digits in ground arith
write_digits-ne-nil (suc rounds) n out =
    rw (write_digits_step (suc rounds) n out)
      (ground (arith, write_digits-ne-nil rounds (n / 10) ((b'0' + n % 10) ∷ out)))

decimal-ne-nil : (n : ℕ) → decimal n ≢ []
unfolding decimal
decimal-ne-nil n = write_digits-ne-nil 19 n []

read_back : (n : ℕ) → n < 10 ^ 20 → read_digits 0 (decimal n) ≡ some n
unfolding decimal
read_back n h = read_digits-write_digits 19 n [] h ∙ unfold read_digits in refl

read_number-digits : (t : Text) → t ≢ [] → read_number t ≡ read_digits 0 t
unfolding read_number
read_number-digits [] h = absurd (h refl)
read_number-digits (c ∷ t) h = refl

-- A text of digits has no sign.
parse_int64-digits :
    (t : Text) {n : ℕ}
    → All IsDigit t
    → n < 2 ^ 63
    → read_number t ≡ some n
    → parse_int64 t ≡ some (pos n)
unfolding parse_int64
parse_int64-digits [] d h e = absurd (unfold read_number in cc)
parse_int64-digits (c ∷ t) (d, ds) h e = ground arith

-- Every int64 that is not negative is read back from its decimal print.
pub parse_int64-decimal : (n : ℕ) → n < 2 ^ 63 → parse_int64 (decimal n) ≡ some (pos n)
parse_int64-decimal n h =
    parse_int64-digits (decimal n) (decimal-IsDigit n) h
      (read_number-digits (decimal n) (decimal-ne-nil n) ∙ read_back n (omega arith))
