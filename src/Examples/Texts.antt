-- ===== src/Examples/Texts.antt =====
-- Scopes, tags and tokens.
use scopuli.Prelude.{
  All, Bytes, Text, [], arith, codes, elem, false, keep, nat_eq, ok, refl, replicate, text_beq,
  text_eq, true, utf8, ◌<◌, ◌↔◌, ◌∷◌, ◌≡◌,
}
use scopuli.Auth.{parse_scope}
use scopuli.Auth.Scopes.{nonempty, parse_scope-split}
use scopuli.Examples.World.{demo_env}
use scopuli.Metadata.{merge_tags, normalize_tags}
use scopuli.Metadata.Tags.Elements.{elem-normalize_tags}
use scopuli.Metadata.Tags.{Normalized, normalize_tags-Normalized}
use scopuli.Scope.{any_match, scope_match, segments, trimmed_parts}
use scopuli.Scope.Glob.{path_match}
use scopuli.Scope.Literal.{is_plain}
use scopuli.Scope.Segments.{Segmentwise, SomeMatches, any_match_iff, scope_match_iff}
use scopuli.Strings.{join, split, trim, trim_space}
use scopuli.Token.{agent_key_of, base62, base62_number}
use scopuli.Token.Base62.{agent_key_of_prefix, digits_value, digits_value-base62}

abbrev pattern : Text
pattern = codes "prod/db-*"

abbrev below_prod : Text
below_prod = codes "/prod/db-main/"

scope_matches : scope_match pattern below_prod ≡ true
unfolding scope_match segments split trim text_beq path_match
scope_matches = refl

star_takes_no_slash : scope_match (codes "prod/*") (codes "prod/a/b") ≡ false
unfolding scope_match segments split trim text_beq
star_takes_no_slash = refl

bad_pattern_matches_nothing : scope_match (codes "[a") (codes "[a") ≡ false
unfolding scope_match segments path_match split trim
bad_pattern_matches_nothing = refl

scope_match_iff_example :
    (scope_match pattern below_prod ≡ true) ↔ Segmentwise (segments pattern) (segments below_prod)
scope_match_iff_example = scope_match_iff pattern below_prod

any_match_iff_example :
    (any_match (codes "dev/*" ∷ pattern ∷ []) below_prod ≡ true)
    ↔ SomeMatches (codes "dev/*" ∷ pattern ∷ []) below_prod
any_match_iff_example = any_match_iff (codes "dev/*" ∷ pattern ∷ []) below_prod

plain_segments : All (All (λ c. is_plain c ≡ true)) (segments (codes "prod/db"))
unfolding segments is_plain split trim text_beq
plain_segments = ((refl, (refl, (refl, (refl, tt)))), ((refl, (refl, tt)), tt))

parse_scope-split_example :
    parse_scope (codes "prod/*,,dev/*") ≡ keep nonempty (split b',' (codes "prod/*,,dev/*"))
parse_scope-split_example = parse_scope-split (codes "prod/*,,dev/*")

-- White space after a comma becomes a part of the pattern.
parse_scope_keeps_space : parse_scope (codes "a, b") ≡ codes "a" ∷ codes " b" ∷ []
unfolding parse_scope text_beq
parse_scope_keeps_space = refl

normalized : normalize_tags (codes " db ,prod,, db") ≡ ok (codes "db,prod")
unfolding normalize_tags text_beq split trim_space utf8 join
normalized = refl

normalize_tags-Normalized_example : Normalized (codes " db ,prod,, db") (codes "db,prod")
normalize_tags-Normalized_example =
    normalize_tags-Normalized (codes " db ,prod,, db") (codes "db,prod") normalized

elem-normalize_tags_example :
    elem (codes "db") (split b',' (codes "db,prod"))
    ≡ elem (codes "db") (trimmed_parts (split b',' (codes " db ,prod,, db")))
elem-normalize_tags_example =
    elem-normalize_tags (codes " db ,prod,, db") (codes "db,prod") (codes "db") normalized (λ e. cc)

-- A request for `MergeTags` may add a tag that NormalizeTags refuses.
merge_tags_accepts_long : merge_tags [] (replicate 65 b'x' ∷ []) [] ≡ ok (replicate 65 b'x')
unfolding merge_tags text_beq trim_space split join
merge_tags_accepts_long = refl

abbrev some_bytes : Bytes
some_bytes = 1 ∷ 2 ∷ 3 ∷ 4 ∷ 5 ∷ 6 ∷ 7 ∷ 8 ∷ 9 ∷ []

abbrev other_bytes : Bytes
other_bytes = 1 ∷ 2 ∷ 3 ∷ 4 ∷ 5 ∷ 6 ∷ 7 ∷ 8 ∷ 200 ∷ []

small_bytes : All (λ b. b < 256) some_bytes
small_bytes = (
  omega arith,
  (
    omega arith,
    (
      omega arith,
      (omega arith, (omega arith, (omega arith, (omega arith, (omega arith, (omega arith, tt)))))),
    ),
  ),
)

digits_value-base62_example : digits_value 0 (base62 some_bytes) ≡ base62_number some_bytes
digits_value-base62_example = digits_value-base62 some_bytes small_bytes

agent_key_of_prefix_example : agent_key_of some_bytes ≡ agent_key_of other_bytes
agent_key_of_prefix_example =
    agent_key_of_prefix some_bytes other_bytes (omega arith) (omega arith) refl
