-- ===== src/Strings/Laws.antt =====
-- Laws of split, join and trim.
use scopuli.Prelude.{
  Option, All, Bool, Bool-cases, List, Option-cases, Text, [], ap, ap₂, arith, false, inl, inr,
  nat_beq, refl, some, text_beq, ℕ, ◌&&◌, ◌++◌, ◌∙◌, ◌∷◌, ◌≡◌, ◌≢◌,
}
use scopuli.Strings.{cut, join, push, put_front, split, trim, trim_left, trim_right, trim_space}

-- No character of the text is the separator.
abbrev pub Without : ℕ → Text → Type 0
Without sep s = All (λ c. c ≢ sep) s

push-Without :
    (sep c : ℕ) (parts : List Text)
    → c ≢ sep
    → All (Without sep) parts
    → All (Without sep) (push c parts)
unfolding push
push-Without sep c [] n h = ((n, tt), tt)
push-Without sep c (part ∷ parts) n h = ((n, h.0), h.1)

-- No part of a split has the separator in it.
pub split-Without : (sep : ℕ) (s : Text) → All (Without sep) (split sep s)
unfolding split
split-Without sep [] = (tt, tt)
split-Without sep (c ∷ s) = elim (Bool-cases (nat_beq c sep)) [
  | inl e ↦ rw e (tt, split-Without sep s)
  | inr e ↦ rw e (push-Without sep c (split sep s) (ground arith) (split-Without sep s))
]

split-one : (sep : ℕ) (s : Text) → Without sep s → split sep s ≡ s ∷ []
unfolding split
split-one sep [] h = refl
split-one sep (c ∷ s) h = rw (split-one sep s h.1) (ground arith)

split-append :
    (sep : ℕ) (s rest : Text) → Without sep s → split sep (s ++ sep ∷ rest) ≡ s ∷ split sep rest
unfolding split
split-append sep [] rest h = ground arith
split-append sep (c ∷ s) rest h = rw (split-append sep s rest h.1) (ground arith)

-- Splitting what was joined gives the parts back.
pub split-join :
    (sep : ℕ) (part : Text) (parts : List Text)
    → All (Without sep) (part ∷ parts)
    → split sep (join sep (part ∷ parts)) ≡ part ∷ parts
unfolding join
split-join sep part [] h = split-one sep part h.0
split-join sep part (next ∷ parts) h =
    split-append sep part _ h.0 ∙ ap (λ r. part ∷ r) (split-join sep next parts h.1)

-- Cutting at a separator gives the two sides back.
pub cut-append :
    (sep : ℕ) (s rest : Text) → Without sep s → cut sep (s ++ sep ∷ rest) ≡ some (s, rest)
unfolding cut put_front
cut-append sep [] rest h = ground arith
cut-append sep (c ∷ s) rest h = rw (cut-append sep s rest h.1) (ground arith)

same_sides :
    (a b front back : Text)
    → ◌≡◌ {A = Option (Text × Text)} (some (a, b)) (some (front, back))
    → (a ≡ front) × (b ≡ back)
same_sides a b front back h = (cc, cc)

-- The two sides of a cut, with the separator between them, are the text.
pub cut-join :
    (sep : ℕ) (s front back : Text) → cut sep s ≡ some (front, back) → s ≡ front ++ sep ∷ back
unfolding cut put_front
cut-join sep [] front back h = absurd (cc)
cut-join sep (c ∷ s) front back h = elim (Bool-cases (nat_beq c sep)) [
  | inl e ↦ ground (arith)
  | inr e ↦ elim (Option-cases (cut sep s)) [
    | inl n ↦ absurd (cc (rw (e, n) at h))
    | inr ((f, b), m) ↦
        let rest = cut-join sep s f b m in
        let (first, second) = same_sides (c ∷ f) b front back (rw (e, m) at h) in
        ap (λ r. c ∷ r) rest ∙ ap₂ (λ x y. x ++ sep ∷ y) first second
  ]
]

module _ (p : ℕ → Bool) where
  abbrev NoLead : Text → Type 0
  NoLead [] = Unit
  NoLead (c ∷ s) = p c ≡ false

  trim_left-NoLead : (s : Text) → NoLead (trim_left p s)
  unfolding trim_left
  trim_left-NoLead [] = tt
  trim_left-NoLead (c ∷ s) = elim (Bool-cases (p c)) [
    | inl e ↦ rw e (trim_left-NoLead s)
    | inr e ↦ rw e e
  ]

  trim_left-fixed : (s : Text) → NoLead s → trim_left p s ≡ s
  unfolding trim_left
  trim_left-fixed [] h = refl
  trim_left-fixed (c ∷ s) h = rw h

  trim_right-NoLead : (s : Text) → NoLead s → NoLead (trim_right p s)
  unfolding trim_right
  trim_right-NoLead [] h = tt
  trim_right-NoLead (c ∷ s) h = rw h h

  trim_right_twice : (s : Text) → trim_right p (trim_right p s) ≡ trim_right p s
  unfolding trim_right
  trim_right_twice [] = refl
  trim_right_twice (c ∷ s) = elim (Bool-cases (p c && text_beq (trim_right p s) [])) [
    | inl e ↦ rw e
    | inr e ↦ rw e (rw (trim_right_twice s) (rw e))
  ]

  -- Trimming twice is trimming once.
  pub trim_twice : (s : Text) → trim p (trim p s) ≡ trim p s
  unfolding trim
  trim_twice s =
      ap (trim_right p) (trim_left-fixed _ (trim_right-NoLead _ (trim_left-NoLead s)))
      ∙ trim_right_twice (trim_left p s)

  trim_left-All : (Q : ℕ → Type 0) (s : Text) → All Q s → All Q (trim_left p s)
  unfolding trim_left
  trim_left-All Q [] h = tt
  trim_left-All Q (c ∷ s) h = elim (Bool-cases (p c)) [
    | inl e ↦ rw e (trim_left-All Q s h.1)
    | inr e ↦ rw e h
  ]

  trim_right-All : (Q : ℕ → Type 0) (s : Text) → All Q s → All Q (trim_right p s)
  unfolding trim_right
  trim_right-All Q [] h = tt
  trim_right-All Q (c ∷ s) h = elim (Bool-cases (p c && text_beq (trim_right p s) [])) [
    | inl e ↦ rw e tt
    | inr e ↦ rw e (h.0, trim_right-All Q s h.1)
  ]

  -- What holds of every character still does after trimming.
  pub trim-All : (Q : ℕ → Type 0) (s : Text) → All Q s → All Q (trim p s)
  unfolding trim
  trim-All Q s h = trim_right-All Q _ (trim_left-All Q s h)

pub trim_space_twice : (s : Text) → trim_space (trim_space s) ≡ trim_space s
unfolding trim_space
trim_space_twice s = trim_twice _ s

pub trim_space-Without : (sep : ℕ) (s : Text) → Without sep s → Without sep (trim_space s)
unfolding trim_space
trim_space-Without sep s h = trim-All _ _ s h

pub split-All : (Q : ℕ → Type 0) (sep : ℕ) (s : Text) → All Q s → All (All Q) (split sep s)
unfolding split
split-All Q sep [] h = (tt, tt)
split-All Q sep (c ∷ s) h = elim (Bool-cases (nat_beq c sep)) [
  | inl e ↦ rw e (tt, split-All Q sep s h.1)
  | inr e ↦ rw e (push-All (split sep s) h.0 (split-All Q sep s h.1))
]
  where
    push-All : (parts : List Text) → Q c → All (All Q) parts → All (All Q) (push c parts)
    push-All [] q hs = ((q, tt), tt)
    push-All (part ∷ parts) q hs = ((q, hs.0), hs.1)
