-- ===== src/Prelude/Codes.antt =====
-- Texts are lists of code points, and bytes are lists of numbers. `utf8` gives the bytes of a Go
-- string that is valid UTF-8; `byte_len` is Go's `len` of it.
use Prim.Native.Nat.{ℕ, zero, suc, ◌+◌, ◌-◌, ◌*◌, ◌/◌, ◌%◌}
use Prim.Native.Char.{code}
use Prim.Native.String.{String}
use mathlib.Core.Path.{◌≡◌, refl, ap, ◌∙◌}
use mathlib.Core.Logic.{◌↔◌}
use mathlib.Core.Bool.{Bool, true, false, ◌&&◌}
use mathlib.Core.List.{List, [], ◌∷◌, ◌++◌}
use native.Mathlib.Omega.{arith}
use scopuli.Prelude.Tests.{ltb, if◌then◌else◌, Eq, nat_beq}
use scopuli.Prelude.Lists.{length}

abbrev pub Text : Type 0
Text = List ℕ

abbrev pub Bytes : Type 0
Bytes = List ℕ

abbrev pub codes : String → Text
codes String.[] = []
codes (String.◌∷◌ c s) = code c ∷ codes s

unfoldable pub text_beq : List ℕ → List ℕ → Bool
text_beq [] [] = true
text_beq [] (y ∷ ys) = false
text_beq (x ∷ xs) [] = false
text_beq (x ∷ xs) (y ∷ ys) = nat_beq x y && text_beq xs ys

pub text_beq_iff : (a b : List ℕ) → (text_beq a b ≡ true) ↔ (a ≡ b)
unfolding text_beq
text_beq_iff [] [] = (λ _. refl, λ _. refl)
text_beq_iff [] (y ∷ ys) = (λ h. cc, λ h. cc)
text_beq_iff (x ∷ xs) [] = (λ h. cc, λ h. cc)
text_beq_iff (x ∷ xs) (y ∷ ys) = ground (arith, text_beq_iff xs ys)

instance abbrev pub text_eq : Eq (List ℕ)
text_eq = record {
  same = text_beq;
  same→≡ = λ x y. (text_beq_iff x y).0;
  same_refl = λ x. (text_beq_iff x x).1 refl;
}

-- The bytes of one code point.
unfoldable pub utf8_char : ℕ → Bytes
utf8_char c =
    if ltb c 0x80
    then c ∷ []
    else if ltb c 0x800
    then (0xC0 + c / 64) ∷ (0x80 + c % 64) ∷ []
    else if ltb c 0x10000
    then (0xE0 + c / 4096) ∷ (0x80 + c / 64 % 64) ∷ (0x80 + c % 64) ∷ []
    else (0xF0 + c / 262144) ∷ (0x80 + c / 4096 % 64) ∷ (0x80 + c / 64 % 64) ∷ (0x80 + c % 64) ∷ []

unfoldable pub utf8 : Text → Bytes
unfolding utf8_char
utf8 [] = []
utf8 (c ∷ s) = utf8_char c ++ utf8 s

abbrev pub byte_len : Text → ℕ
byte_len s = length (utf8 s)

-- `utf8` read back, for bytes that are valid UTF-8: how many bytes of a code point are still to come,
-- and the number that the bytes before them made.
unfoldable pub text_from : ℕ → ℕ → Bytes → Text
text_from more n [] = []
text_from zero n (b ∷ bs) =
    let one = text_from 0 0 bs in
    let two = text_from 1 (b - 0xC0) bs in
    let three = text_from 2 (b - 0xE0) bs in
    let four = text_from 3 (b - 0xF0) bs in
    if ltb b 0x80 then b ∷ one else if ltb b 0xE0 then two else if ltb b 0xF0 then three else four
text_from (suc zero) n (b ∷ bs) = (n * 64 + (b - 0x80)) ∷ text_from 0 0 bs
text_from (suc (suc more)) n (b ∷ bs) = text_from (suc more) (n * 64 + (b - 0x80)) bs

unfoldable pub text_of_utf8 : Bytes → Text
unfolding text_from
text_of_utf8 bs = text_from 0 0 bs

text_from-utf8_char :
    (c : ℕ) (bs : Bytes) → text_from 0 0 (utf8_char c ++ bs) ≡ c ∷ text_from 0 0 bs
unfolding text_from utf8_char
text_from-utf8_char c bs = ground arith

text_from-utf8 : (t : Text) → text_from 0 0 (utf8 t) ≡ t
unfolding utf8
text_from-utf8 [] = unfold text_from in refl
text_from-utf8 (c ∷ t) = text_from-utf8_char c (utf8 t) ∙ ap (λ r. c ∷ r) (text_from-utf8 t)

pub text_of_utf8-utf8 : (t : Text) → text_of_utf8 (utf8 t) ≡ t
unfolding text_of_utf8
text_of_utf8-utf8 t = text_from-utf8 t
