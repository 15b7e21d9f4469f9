-- ===== src/Scope/Segments.antt =====
-- What a scope pattern stands for: as many segments as the path, each denoting the path's.
use scopuli.Prelude.{
  Bool-cases, List, Option-cases, Text, [], ap, arith, inl, inr, length, refl, some, suc, true, ◌↔◌,
  ◌∷◌, ◌≡◌, ◌⊎◌,
}
use scopuli.Scope.{any_match, match_segments, scope_match, segments}
use scopuli.Scope.Glob.{Item, compile, path_match}
use scopuli.Scope.Glob.Meaning.{Denotes, match_items_iff}

-- A segment of a pattern is well formed and denotes a segment of a path.
abbrev pub SegmentMatches : Text → Text → Type 0
SegmentMatches pp part = (items : List Item) × (compile pp ≡ some items) × Denotes items part

abbrev pub Segmentwise : List Text → List Text → Type 0
Segmentwise [] [] = Unit
Segmentwise [] (part ∷ path_parts) = ⊥
Segmentwise (pp ∷ pat_parts) [] = ⊥
Segmentwise (pp ∷ pat_parts) (part ∷ path_parts) =
    SegmentMatches pp part × Segmentwise pat_parts path_parts

path_match→SegmentMatches : (pp part : Text) → path_match pp part ≡ true → SegmentMatches pp part
unfolding path_match
path_match→SegmentMatches pp part h = elim (Option-cases (compile pp)) [
  | inl e ↦ absurd (cc (rw e at h))
  | inr (items, e) ↦ (items, e, (match_items_iff items part).0 (rw e at h))
]

SegmentMatches→path_match : (pp part : Text) → SegmentMatches pp part → path_match pp part ≡ true
unfolding path_match
SegmentMatches→path_match pp part (items, e, d) = rw e ((match_items_iff items part).1 d)

match_segments→Segmentwise :
    (ps qs : List Text) → length ps ≡ length qs → match_segments ps qs ≡ true → Segmentwise ps qs
unfolding match_segments
match_segments→Segmentwise [] [] e h = tt
match_segments→Segmentwise [] (q ∷ qs) e h = absurd (omega arith)
match_segments→Segmentwise (p ∷ ps) [] e h = cc
match_segments→Segmentwise (p ∷ ps) (q ∷ qs) e h = elim (Bool-cases (path_match p q)) [
  | inl yes' ↦ (
    path_match→SegmentMatches p q yes',
    match_segments→Segmentwise ps qs (omega arith) (rw yes' at h),
  )
  | inr no' ↦ absurd (cc (rw no' at h))
]

Segmentwise→match_segments :
    (ps qs : List Text)
    → Segmentwise ps qs
    → (length ps ≡ length qs) × (match_segments ps qs ≡ true)
unfolding match_segments
Segmentwise→match_segments [] [] h = (refl, refl)
Segmentwise→match_segments [] (q ∷ qs) h = absurd h
Segmentwise→match_segments (p ∷ ps) [] h = absurd h
Segmentwise→match_segments (p ∷ ps) (q ∷ qs) (first, rest) =
    let (e, m) = Segmentwise→match_segments ps qs rest in
    (ap suc e, rw (SegmentMatches→path_match p q first) m)

-- A pattern matches a path exactly if, slashes at the ends aside, both have as many segments and
-- each segment of the pattern is well formed and denotes the path's. A segment denotes what path.Match
-- reads in it: stars, question marks, character classes and escaped characters.
pub scope_match_iff :
    (pattern p : Text)
    → (scope_match pattern p ≡ true) ↔ Segmentwise (segments pattern) (segments p)
unfolding scope_match
scope_match_iff pattern p = (
  λ h. let (e, m) = scope_match_parts h in match_segments→Segmentwise _ _ e m,
  λ h. let (e, m) = Segmentwise→match_segments (segments pattern) (segments p) h in ground arith,
)
  where
    scope_match_parts :
        scope_match pattern p ≡ true
        → (length (segments pattern) ≡ length (segments p))
          × (match_segments (segments pattern) (segments p) ≡ true)
    scope_match_parts h = ground arith

-- Some pattern of the list matches.
abbrev pub SomeMatches : List Text → Text → Type 0
SomeMatches [] p = ⊥
SomeMatches (pat ∷ patterns) p = Segmentwise (segments pat) (segments p) ⊎ SomeMatches patterns p

any_match→SomeMatches :
    (patterns : List Text) (p : Text) → any_match patterns p ≡ true → SomeMatches patterns p
unfolding any_match
any_match→SomeMatches [] p h = cc
any_match→SomeMatches (pat ∷ patterns) p h = elim (Bool-cases (scope_match pat p)) [
  | inl e ↦ inl ((scope_match_iff pat p).0 e)
  | inr e ↦ inr (any_match→SomeMatches patterns p (rw e at h))
]

SomeMatches→any_match :
    (patterns : List Text) (p : Text) → SomeMatches patterns p → any_match patterns p ≡ true
unfolding any_match
SomeMatches→any_match [] p h = absurd h
SomeMatches→any_match (pat ∷ patterns) p (inl h) = rw ((scope_match_iff pat p).1 h)
SomeMatches→any_match (pat ∷ patterns) p (inr h) =
    ground (arith, SomeMatches→any_match patterns p h)

-- A list of patterns admits a path exactly if one of them denotes it, segment by segment, in the sense
-- of path.Match, which knows character classes.
pub any_match_iff :
    (patterns : List Text) (p : Text) → (any_match patterns p ≡ true) ↔ SomeMatches patterns p
any_match_iff patterns p = (any_match→SomeMatches patterns p, SomeMatches→any_match patterns p)
