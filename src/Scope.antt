-- ===== src/Scope.antt =====
-- internal/scope/scope.go: path globs matched against a path, segment by segment, and CSV scopes.
pub mod Glob
pub mod Segments
pub mod Literal
use scopuli.Prelude.{
  Bool, List, Text, [], false, if◌then◌else◌, length, nat_eq, text_eq, true, ◌!=◌, ◌==◌, ◌∷◌,
}
use scopuli.Scope.Glob.{path_match}
use scopuli.Strings.{split, trim, trim_space}

-- `strings.Trim(s, "/")`, then `strings.Split(s, "/")`.
unfoldable pub segments : Text → List Text
segments s = split b'/' (trim (λ c. c == b'/') s)

-- The loop of `Match` over the segments of both sides, whose numbers have been compared.
unfoldable pub match_segments : List Text → List Text → Bool
match_segments [] path_parts = true
match_segments (pp ∷ pat_parts) [] = false
match_segments (pp ∷ pat_parts) (part ∷ path_parts) =
    if path_match pp part then match_segments pat_parts path_parts else false

-- `Match`.
unfoldable pub scope_match : Text → Text → Bool
unfolding match_segments
scope_match pattern p =
    let pat_parts = segments pattern in
    let path_parts = segments p in
    if length pat_parts != length path_parts then false else match_segments pat_parts path_parts

-- `AnyMatch`.
unfoldable pub any_match : List Text → Text → Bool
any_match [] p = false
any_match (pat ∷ patterns) p = if scope_match pat p then true else any_match patterns p

-- The loop that `Parse` and `splitCSV` share: the parts, trimmed, without those that are empty.
unfoldable pub trimmed_parts : List Text → List Text
trimmed_parts [] = []
trimmed_parts (p ∷ parts) =
    let rest = trimmed_parts parts in let t = trim_space p in if t == [] then rest else t ∷ rest

-- `Parse`.
unfoldable pub parse : Text → List Text
unfolding trimmed_parts
parse csv = if csv == [] then [] else trimmed_parts (split b',' csv)
