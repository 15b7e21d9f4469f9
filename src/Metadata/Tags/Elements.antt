-- ===== src/Metadata/Tags/Elements.antt =====
-- internal/metadata/metadata.go: which tags NormalizeTags keeps.
use scopuli.Prelude.{
  List, Result-cases, Text, [], arith, elem, inl, inr, nat_eq, ok, refl, text_beq, text_beq_iff,
  text_eq, ◌++◌, ◌||◌, ◌∙◌, ◌∷◌, ◌≡◌, ◌≢◌,
}
use scopuli.Metadata.{collect_tags, normalize_tags, within_max_tags}
use scopuli.Scope.{trimmed_parts}
use scopuli.Strings.{join, split, trim_space}
use scopuli.Strings.Laws.{split-Without, split-join}
use scopuli.Metadata.Tags.{
  AreTags, collect_tags-AreTags, collect_tags-Round, elem-append, no_commas, within_max_tags_parts,
  skipped, added,
}

collect_tags_nil : (out r : List Text) → collect_tags out [] ≡ ok r → r ≡ out
unfolding collect_tags
collect_tags_nil out r h = cc

elem-collect_tags :
    (a : Text) (parts out r : List Text)
    → collect_tags out parts ≡ ok r
    → elem a r ≡ (elem a out || elem a (trimmed_parts parts))
unfolding trimmed_parts
elem-collect_tags a [] out r h = rw (collect_tags_nil out r h) (ground arith)
elem-collect_tags a (part ∷ parts) out r h = elim (collect_tags-Round out part parts h) [
  | skipped (inl e) k ↦ rw e (elem-collect_tags a parts out r k)
  | skipped (inr m) k ↦
      ground (arith, elem-collect_tags a parts out r k, text_beq_iff (trim_space part) a)
  | added e s m k ↦ ground (
    arith,
    elem-collect_tags a parts (out ++ trim_space part ∷ []) r k,
    elem-append a out (trim_space part ∷ []),
  )
]

split-out :
    (ts : List Text) (out : Text)
    → AreTags ts
    → within_max_tags ts ≡ ok out
    → out ≢ []
    → split b',' out ≡ ts
split-out [] out a h n = absurd (n ((within_max_tags_parts [] out h).0 ∙ (unfold join in refl)))
split-out (t ∷ ts) out a h n =
    rw ((within_max_tags_parts (t ∷ ts) out h).0) (split-join b',' t ts (no_commas (t ∷ ts) a.each))

-- NormalizeTags keeps exactly the parts that are not empty once trimmed: the tags of a result that
-- is not empty are the trimmed parts of its input, as a set.
pub elem-normalize_tags :
    (csv out a : Text)
    → normalize_tags csv ≡ ok out
    → out ≢ []
    → elem a (split b',' out) ≡ elem a (trimmed_parts (split b',' csv))
unfolding normalize_tags text_beq
elem-normalize_tags [] out a h n = absurd (n (ground arith))
elem-normalize_tags (c ∷ csv) out a h n =
    elim (Result-cases (collect_tags [] (split b',' (c ∷ csv)))) [
      | inl (ts, e) ↦
          let are =
            collect_tags-AreTags (split b',' (c ∷ csv)) [] ts (record { each = tt; distinct = tt })
              (split-Without b',' (c ∷ csv)) e in
          rw (split-out ts out are (ground arith) n)
            (elem-collect_tags a (split b',' (c ∷ csv)) [] ts e)
      | inr (x, e) ↦ absurd (ground arith)
    ]
