-- ===== src/Metadata/Tags.antt =====
-- internal/metadata/metadata.go: what the results of NormalizeTags are made of.
pub mod Elements
use scopuli.Prelude.{
  All, All-append, Bool-cases, List, Result-cases, Text, [], ap, append-nil, append_assoc, arith,
  byte_len, elem, false, inl, inr, length, ltb, nat_eq, ok, refl, subst, sym, text_beq,
  text_beq_iff, text_eq, true, ◌++◌, ◌||◌, ◌∙◌, ◌∷◌, ◌≡◌, ◌≢◌, ◌≤◌, ◌⊎◌,
}
use scopuli.Metadata.{collect_tags, max_tag_len, max_tags, normalize_tags, within_max_tags}
use scopuli.Scope.{trimmed_parts}
use scopuli.Strings.{join, split, trim_space}
use scopuli.Strings.Laws.{Without, split-Without, split-join, trim_space-Without, trim_space_twice}

-- A tag as it is stored: not empty, trimmed, without a comma, at most 64 bytes.
pub record IsTag (t : Text) : Type 0 where
  pub nonempty : t ≢ []
  pub trimmed : trim_space t ≡ t
  pub no_comma : Without b',' t
  pub short : byte_len t ≤ max_tag_len

abbrev pub Distinct : List Text → Type 0
Distinct [] = Unit
Distinct (t ∷ ts) = (elem t ts ≡ false) × Distinct ts

-- The tags that have been collected: each one is a tag, and none comes twice.
pub record AreTags (ts : List Text) : Type 0 where
  pub each : All IsTag ts
  pub distinct : Distinct ts

elem-append : (a : Text) (xs ys : List Text) → elem a (xs ++ ys) ≡ (elem a xs || elem a ys)
elem-append a [] ys = refl
elem-append a (x ∷ xs) ys = ground (arith, elem-append a xs ys)

Distinct-add :
    (ts : List Text) (t : Text) → Distinct ts → elem t ts ≡ false → Distinct (ts ++ t ∷ [])
Distinct-add [] t d h = (refl, tt)
Distinct-add (x ∷ ts) t d h = (
  ground (arith, elem-append x ts (t ∷ []), text_beq_iff x t, text_beq_iff t x),
  Distinct-add ts t d.1 (ground arith),
)

AreTags-add :
    (out : List Text) (part : Text)
    → AreTags out
    → Without b',' part
    → trim_space part ≢ []
    → byte_len (trim_space part) ≤ max_tag_len
    → elem (trim_space part) out ≡ false
    → AreTags (out ++ trim_space part ∷ [])
AreTags-add out part a w n s e = record {
  each = All-append IsTag out (trim_space part ∷ []) a.each (
    record {
      nonempty = n;
      trimmed = trim_space_twice part;
      no_comma = trim_space-Without b',' part w;
      short = s;
    },
    tt,
  );
  distinct = Distinct-add out (trim_space part) a.distinct e;
}

-- The four ways of one round.
data Round (out : List Text) (part : Text) (parts r : List Text) : Type 0 where
  skipped :
      (text_beq (trim_space part) [] ≡ true) ⊎ (elem (trim_space part) out ≡ true)
      → collect_tags out parts ≡ ok r
      → Round out part parts r
  added :
      text_beq (trim_space part) [] ≡ false
      → byte_len (trim_space part) ≤ max_tag_len
      → elem (trim_space part) out ≡ false
      → collect_tags (out ++ trim_space part ∷ []) parts ≡ ok r
      → Round out part parts r

collect_tags-Round :
    (out : List Text) (part : Text) (parts : List Text) {r : List Text}
    → collect_tags out (part ∷ parts) ≡ ok r
    → Round out part parts r
unfolding collect_tags
collect_tags-Round out part parts h = elim (Bool-cases (text_beq (trim_space part) [])) [
  | inl e ↦ skipped (inl e) (rw e at h)
  | inr e ↦ elim (Bool-cases (ltb max_tag_len (byte_len (trim_space part)))) [
    | inl l ↦ absurd (cc (rw (e, l) at h))
    | inr l ↦ elim (Bool-cases (elem (trim_space part) out)) [
      | inl m ↦ skipped (inr m) (rw (e, l, m) at h)
      | inr m ↦ added e (ground arith) m (rw (e, l, m) at h)
    ]
  ]
]

collect_tags-AreTags :
    (parts out r : List Text)
    → AreTags out
    → All (Without b',') parts
    → collect_tags out parts ≡ ok r
    → AreTags r
collect_tags-AreTags [] out r a w h = unfold collect_tags in subst AreTags (ground arith) a
collect_tags-AreTags (part ∷ parts) out r a w h = elim (collect_tags-Round out part parts h) [
  | skipped _ e ↦ collect_tags-AreTags parts out r a w.1 e
  | added n s m e ↦
      collect_tags-AreTags parts (out ++ trim_space part ∷ []) r
        (AreTags-add out part a w.0 (ground (arith, text_beq_iff (trim_space part) [])) s m) w.1 e
]

-- The tags of an accepted list.
pub record Normalized (csv out : Text) : Type 0 where
  pub tags : List Text
  pub joined : out ≡ join b',' tags
  pub are_tags : AreTags tags
  pub few : length tags ≤ max_tags

within_max_tags_parts :
    (ts : List Text) (out : Text)
    → within_max_tags ts ≡ ok out
    → (out ≡ join b',' ts) × (length ts ≤ max_tags)
unfolding within_max_tags
within_max_tags_parts ts out h = (ground arith, ground arith)

Normalized-of :
    (csv out : Text) (ts : List Text)
    → AreTags ts
    → within_max_tags ts ≡ ok out
    → Normalized csv out
Normalized-of csv out ts a h =
    let (e, l) = within_max_tags_parts ts out h in
    record { tags = ts; joined = e; are_tags = a; few = l }

-- What NormalizeTags accepts is the join of at most 20 distinct tags, each trimmed, not empty and at
-- most 64 bytes long.
pub normalize_tags-Normalized : (csv out : Text) → normalize_tags csv ≡ ok out → Normalized csv out
unfolding normalize_tags text_beq join
normalize_tags-Normalized [] out h = record {
  tags = [];
  joined = ground arith;
  are_tags = record { each = tt; distinct = tt };
  few = omega arith;
}
normalize_tags-Normalized (c ∷ csv) out h =
    elim (Result-cases (collect_tags [] (split b',' (c ∷ csv)))) [
      | inl (ts, e) ↦
          Normalized-of (c ∷ csv) out ts
            (collect_tags-AreTags (split b',' (c ∷ csv)) [] ts (record { each = tt; distinct = tt })
              (split-Without b',' (c ∷ csv)) e)
            (ground arith)
      | inr (x, e) ↦ absurd (ground arith)
    ]

-- Tags that are new to `out` are added as they are.
abbrev Fresh : List Text → List Text → Type 0
Fresh out [] = Unit
Fresh out (t ∷ ts) = (elem t out ≡ false) × Fresh (out ++ t ∷ []) ts

collect_tags_tags :
    (ts out : List Text) → All IsTag ts → Fresh out ts → collect_tags out ts ≡ ok (out ++ ts)
unfolding collect_tags
collect_tags_tags [] out a f = rw append-nil
collect_tags_tags (t ∷ ts) out a f =
    let tag = a.0 in
    let n : text_beq t [] ≡ false = ground (arith, text_beq_iff t [], tag.nonempty) in
    let l : ltb max_tag_len (byte_len t) ≡ false = ground (arith, tag.short) in
    rw tag.trimmed (
      rw (n, l, f.0)
        (collect_tags_tags ts (out ++ t ∷ []) a.1 f.1 ∙ ap ok (append_assoc out (t ∷ []) ts)))

Distinct-elem :
    (out : List Text) (t : Text) (ts : List Text) → Distinct (out ++ t ∷ ts) → elem t out ≡ false
Distinct-elem [] t ts d = refl
Distinct-elem (x ∷ out) t ts d = ground (
  arith,
  Distinct-elem out t ts d.1,
  elem-append x out (t ∷ ts),
  text_beq_iff x t,
  text_beq_iff t x,
)

Distinct-Fresh : (ts out : List Text) → Distinct (out ++ ts) → Fresh out ts
Distinct-Fresh [] out d = tt
Distinct-Fresh (t ∷ ts) out d = (
  Distinct-elem out t ts d,
  Distinct-Fresh ts (out ++ t ∷ []) (subst Distinct (sym (append_assoc out (t ∷ []) ts)) d),
)

no_commas : (ts : List Text) → All IsTag ts → All (Without b',') ts
no_commas [] a = tt
no_commas (t ∷ ts) a = (a.0.no_comma, no_commas ts a.1)

join-ne-nil : (t : Text) (ts : List Text) → t ≢ [] → join b',' (t ∷ ts) ≢ []
unfolding join
join-ne-nil [] ts n e = n refl
join-ne-nil (c ∷ t) [] n e = cc
join-ne-nil (c ∷ t) (u ∷ ts) n e = cc

normalize_tags-join :
    (ts : List Text)
    → AreTags ts
    → length ts ≤ max_tags
    → normalize_tags (join b',' ts) ≡ ok (join b',' ts)
unfolding normalize_tags
normalize_tags-join [] a l = unfold join text_beq in refl
normalize_tags-join (t ∷ ts) a l =
    let n : text_beq (join b',' (t ∷ ts)) [] ≡ false =
      ground (arith, text_beq_iff (join b',' (t ∷ ts)) [], join-ne-nil t ts a.each.0.nonempty) in
    rw n (
      rw (split-join b',' t ts (no_commas (t ∷ ts) a.each)) (
        rw (collect_tags_tags (t ∷ ts) [] a.each (Distinct-Fresh (t ∷ ts) [] a.distinct))
          (unfold within_max_tags in ground arith)))

-- Normalizing what NormalizeTags returned changes nothing.
pub normalize_tags_twice :
    (csv out : Text) → normalize_tags csv ≡ ok out → normalize_tags out ≡ ok out
normalize_tags_twice csv out h =
    let n = normalize_tags-Normalized csv out h in
    rw n.joined (normalize_tags-join n.tags n.are_tags n.few)
