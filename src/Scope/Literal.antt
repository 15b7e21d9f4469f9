-- ===== src/Scope/Literal.antt =====
-- Patterns with no wildcard.
use scopuli.Prelude.{
  All, Bool, List, Text, [], ap, arith, length, map, nat_eq, not, refl, some, sym, text_eq, true, ℕ,
  ◌==◌, ◌||◌, ◌↔◌, ◌∷◌, ◌≡◌,
}
use scopuli.Scope.{match_segments, scope_match, segments}
use scopuli.Scope.Glob.{backslash, compile, literal, path_match, read_item, read_items}
use scopuli.Scope.Glob.Meaning.{Denotes, match_items_iff}

-- A character that stands for itself in a glob.
unfoldable pub is_plain : ℕ → Bool
is_plain c = not (c == b'*' || c == b'?' || c == b'[' || c == backslash)

read_item-plain : (c : ℕ) (s : Text) → is_plain c ≡ true → read_item c s ≡ some (literal c, s)
unfolding is_plain read_item
read_item-plain c s h = ground arith

read_items-plain :
    (s : Text) → All (λ c. is_plain c ≡ true) s → read_items (length s) s ≡ some (map literal s)
unfolding read_items
read_items-plain [] h = refl
read_items-plain (c ∷ s) h = rw (read_item-plain c s h.0) (rw (read_items-plain s h.1))

Denotes-literals : (s t : Text) → Denotes (map literal s) t ↔ (s ≡ t)
Denotes-literals [] t = (λ h. sym h, λ h. sym h)
Denotes-literals (c ∷ s) t = (
  λ (a, b, e, m, d). rw (e, m) (ap (λ x. c ∷ x) ((Denotes-literals s b).0 d)),
  λ h. (c ∷ [], s, sym h, refl, (Denotes-literals s s).1 refl),
)

path_match-plain : (s t : Text) → All (λ c. is_plain c ≡ true) s → (path_match s t ≡ true) ↔ (s ≡ t)
unfolding path_match compile
path_match-plain s t h = rw (read_items-plain s h) (
  λ m. (Denotes-literals s t).0 ((match_items_iff (map literal s) t).0 m),
  λ e. (match_items_iff (map literal s) t).1 ((Denotes-literals s t).1 e),
)

match_segments-plain :
    (ps qs : List Text)
    → All (All (λ c. is_plain c ≡ true)) ps
    → length ps ≡ length qs
    → (match_segments ps qs ≡ true) ↔ (ps ≡ qs)
unfolding match_segments
match_segments-plain [] [] h e = (λ _. refl, λ _. refl)
match_segments-plain [] (q ∷ qs) h e = absurd (omega arith)
match_segments-plain (p ∷ ps) [] h e = absurd (omega arith)
match_segments-plain (p ∷ ps) (q ∷ qs) (a, h) e =
    ground (arith, path_match-plain p q a, match_segments-plain ps qs h (omega arith))

-- A pattern with no wildcard matches a path exactly if, slashes at the ends aside, they are equal
-- segment by segment.
pub scope_match-plain :
    (pattern p : Text)
    → All (All (λ c. is_plain c ≡ true)) (segments pattern)
    → (scope_match pattern p ≡ true) ↔ (segments pattern ≡ segments p)
unfolding scope_match
scope_match-plain pattern p h = (
  λ m. (match_segments-plain (segments pattern) (segments p) h (ground arith)).0 (ground arith),
  λ e.
      ground
        (arith, ap length e, match_segments-plain (segments pattern) (segments p) h (ap length e)),
)
