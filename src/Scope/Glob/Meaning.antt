-- ===== src/Scope/Glob/Meaning.antt =====
-- What a glob stands for, with no search in it, and that `match_items` decides it.
use scopuli.Prelude.{
  All, List, Text, [], and_intro, and_true, ap, arith, false, inl, inr, not, refl, subst, sym, true,
  ℕ, ◌++◌, ◌↔◌, ◌∷◌, ◌≡◌, ◌≢◌, ◌⊎◌,
}
use scopuli.Scope.Glob.{Item, accepts, any_char, class, in_ranges, literal, match_items, star}

-- The runs of characters that one item stands for.
abbrev pub Means : Item → Text → Type 0
Means star s = All (λ c. c ≢ b'/') s
Means (literal x) s = s ≡ x ∷ []
Means any_char s = (c : ℕ) × (s ≡ c ∷ []) × (c ≢ b'/')
Means (class negated rs) s = (c : ℕ) × (s ≡ c ∷ []) × (in_ranges c rs ≡ not negated)

-- A text falls into consecutive runs, one for each item.
abbrev pub Denotes : List Item → Text → Type 0
Denotes [] s = s ≡ []
Denotes (i ∷ p) s = (a : Text) × (b : Text) × (s ≡ a ++ b) × Means i a × Denotes p b

-- An item other than a star stands for single characters.
one_char : (i : Item) (c : ℕ) → accepts i c ≡ true → Means i (c ∷ [])
unfolding accepts
one_char star c h = cc
one_char (literal x) c h = ground arith
one_char any_char c h = (c, refl, ground arith)
one_char (class true rs) c h = (c, refl, ground arith)
one_char (class false rs) c h = (c, refl, ground arith)

one_char_only : (i : Item) (c : ℕ) → i ≢ star → Means i (c ∷ []) → accepts i c ≡ true
unfolding accepts
one_char_only star c n h = absurd (n refl)
one_char_only (literal x) c n h = ground arith
one_char_only any_char c n (d, e, h) = ground arith
one_char_only (class true rs) c n (d, e, h) = ground arith
one_char_only (class false rs) c n (d, e, h) = ground arith

-- An item other than a star stands for one character.
abbrev Single : Text → Type 0
Single [] = ⊥
Single (c ∷ []) = Unit
Single (c ∷ d ∷ s) = ⊥

Means-Single : (i : Item) (s : Text) → i ≢ star → Means i s → Single s
Means-Single star s n h = absurd (n refl)
Means-Single (literal x) s n h = subst Single (sym h) tt
Means-Single any_char s n (c, e, h) = subst Single (sym e) tt
Means-Single (class b rs) s n (c, e, h) = subst Single (sym e) tt

star_split :
    (p : List Item) (c : ℕ) (s : Text)
    → match_items (star ∷ p) (c ∷ s) ≡ true
    → (match_items p (c ∷ s) ≡ true) ⊎ ((c ≢ b'/') × (match_items (star ∷ p) s ≡ true))
unfolding match_items
star_split p c s h = ground arith

match_items→Denotes : (p : List Item) (s : Text) → match_items p s ≡ true → Denotes p s
unfolding match_items
match_items→Denotes [] [] h = refl
match_items→Denotes [] (c ∷ s) h = cc
match_items→Denotes (star ∷ p) [] h = ([], [], refl, tt, match_items→Denotes p [] h)
match_items→Denotes (star ∷ p) (c ∷ s) h = elim (star_split p c s h) [
  | inl now ↦ ([], c ∷ s, refl, tt, match_items→Denotes p (c ∷ s) now)
  | inr (free, later) ↦
      let (a, b, e, run, d) = match_items→Denotes (star ∷ p) s later in
      (c ∷ a, b, ap (λ r. c ∷ r) e, (free, run), d)
]
match_items→Denotes (i ∷ p) [] h = cc
match_items→Denotes (i ∷ p) (c ∷ s) h =
    let (first, rest) = and_true (accepts i c) (match_items p s) h in
    (c ∷ [], s, refl, one_char i c first, match_items→Denotes p s rest)

star_run :
    (p : List Item) (a b : Text)
    → Means star a
    → match_items p b ≡ true
    → match_items (star ∷ p) (a ++ b) ≡ true
unfolding match_items
star_run p [] [] h m = m
star_run p [] (c ∷ b) h m = rw m
star_run p (c ∷ a) b h m = ground (arith, star_run p a b h.1 m)

-- What stands for one item in front of what the rest matches is matched.
run :
    (i : Item) (p : List Item) (a b : Text)
    → Means i a
    → match_items p b ≡ true
    → match_items (i ∷ p) (a ++ b) ≡ true
unfolding match_items
run star p a b h m = star_run p a b h m
run i p [] b h m = absurd (Means-Single i [] (λ e. cc) h)
run i p (c ∷ []) b h m = and_intro (one_char_only i c (λ e. cc) h) m
run i p (c ∷ d ∷ a) b h m = absurd (Means-Single i (c ∷ d ∷ a) (λ e. cc) h)

Denotes→match_items : (p : List Item) (s : Text) → Denotes p s → match_items p s ≡ true
Denotes→match_items [] s e = rw e (unfold match_items in refl)
Denotes→match_items (i ∷ p) s (a, b, e, h, d) = rw e (run i p a b h (Denotes→match_items p b d))

-- The matcher answers true exactly on the texts that the items denote.
pub match_items_iff : (p : List Item) (s : Text) → (match_items p s ≡ true) ↔ Denotes p s
match_items_iff p s = (match_items→Denotes p s, Denotes→match_items p s)
