-- ===== src/Scope/Glob.antt =====
-- Go's `path.Match`, which scope.Match (internal/scope/scope.go) calls on each segment. A pattern is
-- read into items first, so that a malformed pattern fails whatever the name is, as it does in Go.
pub mod Meaning
use scopuli.Prelude.{
  Bool, List, Option, Text, [], drop, false, if◌then◌else◌, leb, length, nat_eq, none, not, some,
  suc, text_eq, true, zero, ℕ, ◌!=◌, ◌&&◌, ◌==◌, ◌||◌, ◌∷◌,
}

-- A star, a literal, any character but a slash, or a class of ranges, negated or not.
pub data Item : Type 0 where
  star : Item
  literal : ℕ → Item
  any_char : Item
  class : Bool → List (ℕ × ℕ) → Item

abbrev pub backslash : ℕ
backslash = 92

infixl 10 ◌>>=◌
abbrev ◌>>=◌ : {A B : Type 0} → Option A → (A → Option B) → Option B
none >>= f = none
some a >>= f = f a

-- The first character of what is left, which must not be empty.
unescaped : Text → Option (ℕ × Text)
unescaped [] = none
unescaped (c ∷ []) = none
unescaped (c ∷ d ∷ s) = some (c, d ∷ s)

-- `getEsc`: the next character of a class, and what follows it.
unescape : Text → Option (ℕ × Text)
unfolding unescaped
unescape [] = none
unescape (c ∷ s) =
    if c == b'-' || c == b']'
    then none
    else if c == backslash
    then unescaped s
    else unescaped (c ∷ s)

range_end : ℕ → Text → Option ((ℕ × ℕ) × Text)
unfolding unescape
range_end lo [] = some ((lo, lo), [])
range_end lo (c ∷ s) =
    if c == b'-'
    then (do (hi, rest) ← unescape s; some ((lo, hi), rest))
    else some ((lo, lo), c ∷ s)

-- The class ends at a bracket that does not come first.
closes : List (ℕ × ℕ) → Text → Bool
closes [] s = false
closes (r ∷ done) [] = false
closes (r ∷ done) (c ∷ s) = c == b']'

-- The ranges of a class, and what follows its bracket. Each range takes a character at least.
ranges : ℕ → List (ℕ × ℕ) → Text → Option (List (ℕ × ℕ) × Text)
unfolding closes range_end
ranges zero done s = none
ranges (suc fuel) done s =
    let more = (do (lo, s1) ← unescape s; (r, s2) ← range_end lo s1; ranges fuel (r ∷ done) s2) in
    if closes done s then some (done, drop 1 s) else more

read_class : Text → Option (Item × Text)
unfolding ranges
read_class [] = none
read_class (c ∷ s) =
    if c == b'^'
    then (do (rs, rest) ← ranges (suc (length s)) [] s; some (class true rs, rest))
    else (do (rs, rest) ← ranges (suc (suc (length s))) [] (c ∷ s); some (class false rs, rest))

read_escape : Text → Option (Item × Text)
read_escape [] = none
read_escape (c ∷ s) = some (literal c, s)

-- The item that begins with the character `c`, and what follows it.
unfoldable pub read_item : ℕ → Text → Option (Item × Text)
unfolding read_class read_escape
read_item c s =
    if c == b'*'
    then some (star, s)
    else if c == b'?'
    then some (any_char, s)
    else if c == b'['
    then read_class s
    else if c == backslash
    then read_escape s
    else some (literal c, s)

unfoldable pub read_items : ℕ → Text → Option (List Item)
unfolding read_item
read_items fuel [] = some []
read_items zero (c ∷ s) = none
read_items (suc fuel) (c ∷ s) = do
  (item, rest) ← read_item c s
  items ← read_items fuel rest
  some (item ∷ items)

-- `none` is `path.ErrBadPattern`. Each item takes a character, so the length is enough fuel.
unfoldable pub compile : Text → Option (List Item)
unfolding read_items
compile pattern = read_items (length pattern) pattern

unfoldable pub in_ranges : ℕ → List (ℕ × ℕ) → Bool
in_ranges c [] = false
in_ranges c ((lo, hi) ∷ rs) = leb lo c && leb c hi || in_ranges c rs

-- Whether an item other than a star takes the character.
unfoldable pub accepts : Item → ℕ → Bool
unfolding in_ranges
accepts star c = false
accepts (literal x) c = x == c
accepts any_char c = c != b'/'
accepts (class negated rs) c = if negated then not (in_ranges c rs) else in_ranges c rs

unfoldable pub match_items : List Item → Text → Bool
unfolding accepts
match_items [] [] = true
match_items [] (c ∷ s) = false
match_items (star ∷ p) [] = match_items p []
match_items (star ∷ p) (c ∷ s) = elim (match_items p (c ∷ s)) [
  | true ↦ true
  | false ↦ elim (c == b'/') [ true ↦ false | false ↦ match_items (star ∷ p) s ]
]
match_items (i ∷ p) [] = false
match_items (i ∷ p) (c ∷ s) = accepts i c && match_items p s

match_compiled : Option (List Item) → Text → Bool
match_compiled none name = false
match_compiled (some items) name = match_items items name

-- `ok, err := path.Match(pattern, name)`, and whether `err == nil && ok`.
unfoldable pub path_match : Text → Text → Bool
unfolding compile match_items match_compiled
path_match pattern name = match_compiled (compile pattern) name
