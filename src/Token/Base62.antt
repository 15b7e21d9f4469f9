-- ===== src/Token/Base62.antt =====
-- The digits that `base62` writes, read back, and how much of the random bytes they hold.
use scopuli.Prelude.{
  All, Bool-cases, Bytes, Text, [], ap, arith, false, if◌then◌else◌, inl, inr, length,
  length-take-le, ltb, nat_beq, nat_eq, refl, some, suc, sym, take, text_eq, zero, ℕ, ◌%◌, ◌*◌, ◌+◌,
  ◌-◌, ◌/◌, ◌<◌, ◌==◌, ◌∙◌, ◌∷◌, ◌≡◌, ◌≤◌,
}
use scopuli.Env.{Env}
use scopuli.Token.{
  agent_key_of, base62, base62_digit, base62_loop, base62_number, base62_text, big_endian,
}

-- The number of a digit, and of a text of digits behind a number.
unfoldable pub digit_value : ℕ → ℕ
digit_value c = if ltb c 58 then c - 48 else if ltb c 91 then c - 55 else c - 61

unfoldable pub digits_value : ℕ → Text → ℕ
unfolding digit_value
digits_value n [] = n
digits_value n (c ∷ s) = digits_value (n * 62 + digit_value c) s

digit_value-base62_digit : (n : ℕ) → n < 62 → digit_value (base62_digit n) ≡ n
unfolding digit_value base62_digit
digit_value-base62_digit n h = ground arith

base62_loop_value :
    (fuel n : ℕ) (out t : Text)
    → base62_loop fuel n out ≡ some t
    → digits_value 0 t ≡ digits_value n out
unfolding base62_loop
base62_loop_value zero n out t h = cc
base62_loop_value (suc fuel) n out t h = elim (Bool-cases (nat_beq n 0)) [
  | inl e ↦
      let same : out ≡ t = ground (arith, rw e at h) in
      let none_left : n ≡ 0 = ground arith in
      sym (ap (digits_value 0) same) ∙ ap (λ m. digits_value m out) (sym none_left)
  | inr e ↦
      base62_loop_value fuel (n / 62) (base62_digit (n % 62) ∷ out) t (rw e at h)
      ∙ unfold digits_value in
        ap (λ m. digits_value m out)
          (omega (arith, digit_value-base62_digit (n % 62) (omega arith)))
]

-- What a number of digits can write.
abbrev capacity : ℕ → ℕ
capacity zero = 1
capacity (suc k) = 62 * capacity k

base62_loop_step :
    (fuel n : ℕ) (out : Text)
    → nat_beq n 0 ≡ false
    → base62_loop (suc fuel) n out ≡ base62_loop fuel (n / 62) (base62_digit (n % 62) ∷ out)
unfolding base62_loop
base62_loop_step fuel n out e = rw e

base62_loop_total :
    (k n : ℕ) (out : Text) → n < capacity k → (t : Text) × (base62_loop (suc k) n out ≡ some t)
base62_loop_total zero n out h = (out, unfold base62_loop in ground arith)
base62_loop_total (suc k) n out h = elim (Bool-cases (nat_beq n 0)) [
  | inl e ↦ (out, unfold base62_loop in rw e)
  | inr e ↦
      let (t, f) = base62_loop_total k (n / 62) (base62_digit (n % 62) ∷ out) (omega arith) in
      (t, base62_loop_step (suc k) n out e ∙ f)
]

-- The largest number of `k` bytes behind a number.
abbrev grown : ℕ → ℕ → ℕ
grown n zero = n
grown n (suc k) = grown (n * 256 + 255) k

grown_le : (k l n m : ℕ) → k ≤ l → n ≤ m → grown n k ≤ grown m l
grown_le zero zero n m h i = i
grown_le zero (suc l) n m h i = grown_le zero l n (m * 256 + 255) (omega arith) (omega arith)
grown_le (suc k) zero n m h i = absurd (omega arith)
grown_le (suc k) (suc l) n m h i =
    grown_le k l (n * 256 + 255) (m * 256 + 255) (omega arith) (omega arith)

big_endian_bound :
    (bs : Bytes) (n : ℕ) → All (λ b. b < 256) bs → big_endian n bs ≤ grown n (length bs)
unfolding big_endian
big_endian_bound [] n h = omega arith
big_endian_bound (b ∷ bs) n (a, h) = omega (
  arith,
  big_endian_bound bs (n * 256 + b) h,
  grown_le (length bs) (length bs) (n * 256 + b) (n * 256 + 255) (omega arith) (omega arith),
)

All-take : (n : ℕ) (bs : Bytes) → All (λ b. b < 256) bs → All (λ b. b < 256) (take n bs)
All-take zero bs h = tt
All-take (suc n) [] h = tt
All-take (suc n) (b ∷ bs) (a, h) = (a, All-take n bs h)

base62_number_bound : (bs : Bytes) → All (λ b. b < 256) bs → base62_number bs < capacity 11
unfolding base62_number
base62_number_bound bs h = elim (Bool-cases (ltb 8 (length bs))) [
  | inl e ↦ rw e (
      omega (
        arith,
        big_endian_bound (take 8 bs) 0 (All-take 8 bs h),
        grown_le (length (take 8 bs)) 8 0 0 (length-take-le 8 bs) (omega arith),
      ))
  | inr e ↦ rw e (
      omega
        (arith, big_endian_bound bs 0 h, grown_le (length bs) 8 0 0 (ground arith) (omega arith)))
]

-- What `base62` writes of a number.
abbrev written : ℕ → Text
written n = if n == 0 then b'0' ∷ [] else base62_text (base62_loop 12 n [])

digits_value-written : (n : ℕ) → n < capacity 11 → digits_value 0 (written n) ≡ n
digits_value-written n h = elim (Bool-cases (nat_beq n 0)) [
  | inl e ↦ rw e (unfold digits_value in ground arith)
  | inr e ↦
      let (t, f) = base62_loop_total 11 n [] h in
      rw (e, f) (base62_loop_value 12 n [] t f ∙ unfold digits_value in refl)
]

-- The digits that `base62` writes denote the number that the first eight bytes are, or all of them
-- if there are fewer.
pub digits_value-base62 :
    (bs : Bytes) → All (λ b. b < 256) bs → digits_value 0 (base62 bs) ≡ base62_number bs
digits_value-base62 [] h = unfold base62 base62_number digits_value big_endian in refl
digits_value-base62 (b ∷ bs) h =
    unfold base62 in digits_value-written (base62_number (b ∷ bs)) (base62_number_bound (b ∷ bs) h)

base62-take : (a : Bytes) → 8 < length a → base62 a ≡ written (big_endian 0 (take 8 a))
base62-take [] h = absurd (omega arith)
base62-take (x ∷ a) h = unfold base62 base62_number in ground arith

-- Keys made of more than eight random bytes each, which agree in the first eight, are the same key.
pub agent_key_of_prefix :
    ⦃env : Env⦄ (a b : Bytes)
    → 8 < length a
    → 8 < length b
    → take 8 a ≡ take 8 b
    → agent_key_of a ≡ agent_key_of b
unfolding agent_key_of
agent_key_of_prefix a b h k e =
    let same = base62-take a h ∙ ap (λ x. written (big_endian 0 x)) e ∙ sym (base62-take b k) in
    rw same
