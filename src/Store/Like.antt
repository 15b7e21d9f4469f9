-- ===== src/Store/Like.antt =====
-- SQLite's `LIKE`, which internal/store/secrets.go uses without and internal/audit/audit.go with an
-- escape character: `%` is any run, `_` one character, and ASCII letters match in either case.
use scopuli.Prelude.{
  Bool, List, Option, Text, [], false, if◌then◌else◌, leb, nat_eq, none, some, text_eq, true, ℕ,
  ◌&&◌, ◌+◌, ◌==◌, ◌∷◌,
}

pub data LikeItem : Type 0 where
  any_run any_one : LikeItem
  letter : ℕ → LikeItem

unfoldable pub fold_case : ℕ → ℕ
fold_case c = if leb b'A' c && leb c b'Z' then c + 32 else c

plain_like : ℕ → LikeItem
plain_like c = if c == b'%' then any_run else if c == b'_' then any_one else letter c

like_cons : LikeItem → Option (List LikeItem) → Option (List LikeItem)
like_cons i none = none
like_cons i (some p) = some (i ∷ p)

-- The items of a pattern; `none` is a pattern that ends in its escape character, which matches nothing.
unfoldable pub read_like : Option ℕ → Text → Option (List LikeItem)
unfolding plain_like like_cons
read_like esc [] = some []
read_like none (c ∷ s) = like_cons (plain_like c) (read_like none s)
read_like (some e) (c ∷ []) = if c == e then none else some (plain_like c ∷ [])
read_like (some e) (c ∷ d ∷ s) =
    let escaped = like_cons (letter d) (read_like (some e) s) in
    let plain = like_cons (plain_like c) (read_like (some e) (d ∷ s)) in
    if c == e then escaped else plain

unfoldable pub like_items : List LikeItem → Text → Bool
unfolding fold_case
like_items [] [] = true
like_items [] (c ∷ s) = false
like_items (any_run ∷ p) [] = like_items p []
like_items (any_run ∷ p) (c ∷ s) = elim (like_items p (c ∷ s)) [
  | true ↦ true
  | false ↦ like_items (any_run ∷ p) s
]
like_items (any_one ∷ p) [] = false
like_items (any_one ∷ p) (c ∷ s) = like_items p s
like_items (letter x ∷ p) [] = false
like_items (letter x ∷ p) (c ∷ s) = fold_case x == fold_case c && like_items p s

like_read : Option (List LikeItem) → Text → Bool
like_read none s = false
like_read (some p) s = like_items p s

-- `s LIKE pattern`, or `s LIKE pattern ESCAPE e`.
unfoldable pub like : Option ℕ → Text → Text → Bool
unfolding read_like like_items like_read
like esc pattern s = like_read (read_like esc pattern) s
