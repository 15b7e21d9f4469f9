-- ===== src/Strings.antt =====
-- What the program uses of Go's package strings, over texts as lists of code points.
pub mod Laws
pub mod Decimal
use scopuli.Prelude.{
  Bool, List, Option, Text, [], drop, false, if◌then◌else◌, keep, leb, length, ltb, nat_beq, nat_eq,
  none, some, text_eq, true, ℕ, ◌!=◌, ◌&&◌, ◌++◌, ◌==◌, ◌||◌, ◌∷◌,
}

-- `unicode.IsSpace`.
unfoldable pub is_space : ℕ → Bool
is_space c =
    (leb 9 c && leb c 13)
    || nat_beq c 32
    || nat_beq c 0x85
    || nat_beq c 0xA0
    || nat_beq c 0x1680
    || (leb 0x2000 c && leb c 0x200A)
    || nat_beq c 0x2028
    || nat_beq c 0x2029
    || nat_beq c 0x202F
    || nat_beq c 0x205F
    || nat_beq c 0x3000

-- `strings.TrimLeftFunc`.
unfoldable pub trim_left : (ℕ → Bool) → Text → Text
trim_left p [] = []
trim_left p (c ∷ s) = if p c then trim_left p s else c ∷ s

-- `strings.TrimRightFunc`: a code point goes if it passes the test and nothing is left behind it.
unfoldable pub trim_right : (ℕ → Bool) → Text → Text
trim_right p [] = []
trim_right p (c ∷ s) = let rest = trim_right p s in if p c && rest == [] then [] else c ∷ rest

unfoldable pub trim : (ℕ → Bool) → Text → Text
unfolding trim_left trim_right
trim p s = trim_right p (trim_left p s)

-- `strings.TrimSpace`.
unfoldable pub trim_space : Text → Text
unfolding trim is_space
trim_space s = trim is_space s

-- Puts a character in front of the first part.
unfoldable pub push : ℕ → List Text → List Text
push d [] = (d ∷ []) ∷ []
push d (part ∷ parts) = (d ∷ part) ∷ parts

-- `strings.Split` by one character: one more part than there are separators.
unfoldable pub split : ℕ → Text → List Text
unfolding push
split sep [] = [] ∷ []
split sep (c ∷ s) = let rest = split sep s in if c == sep then [] ∷ rest else push c rest

-- `strings.Join` with a one-character separator.
unfoldable pub join : ℕ → List Text → Text
join sep [] = []
join sep (part ∷ []) = part
join sep (part ∷ next ∷ parts) = part ++ sep ∷ join sep (next ∷ parts)

-- `strings.HasPrefix`.
unfoldable pub has_prefix : Text → Text → Bool
has_prefix s [] = true
has_prefix [] (p ∷ prefix) = false
has_prefix (c ∷ s) (p ∷ prefix) = c == p && has_prefix s prefix

-- `strings.TrimPrefix`.
unfoldable pub trim_prefix : Text → Text → Text
unfolding has_prefix
trim_prefix s prefix = if has_prefix s prefix then drop (length prefix) s else s

-- `strings.TrimSuffix` of one character.
unfoldable pub trim_suffix : Text → ℕ → Text
trim_suffix [] c = []
trim_suffix (x ∷ []) c = if x == c then [] else x ∷ []
trim_suffix (x ∷ y ∷ s) c = x ∷ trim_suffix (y ∷ s) c

-- The order of Go's strings and of SQLite's BINARY collation: by code points, as by UTF-8 bytes.
unfoldable pub text_lt : Text → Text → Bool
text_lt [] [] = false
text_lt [] (y ∷ ys) = true
text_lt (x ∷ xs) [] = false
text_lt (x ∷ xs) (y ∷ ys) = ltb x y || (nat_beq x y && text_lt xs ys)

unfoldable pub put_front : ℕ → Option (Text × Text) → Option (Text × Text)
put_front c none = none
put_front c (some (a, b)) = some (c ∷ a, b)

-- `strings.SplitN(s, sep, 2)` when the separator is there.
unfoldable pub cut : ℕ → Text → Option (Text × Text)
unfolding put_front
cut sep [] = none
cut sep (c ∷ s) = if c == sep then some ([], s) else put_front c (cut sep s)

-- `strings.ReplaceAll` of one character by nothing.
unfoldable pub remove_char : ℕ → Text → Text
remove_char x s = keep (λ c. c != x) s
