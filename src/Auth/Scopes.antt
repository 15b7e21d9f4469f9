-- ===== src/Auth/Scopes.antt =====
-- How `parseScope` reads the scope of a key, beside Key.ScopeIncludes, which trims the patterns.
use scopuli.Prelude.{
  All, Bool, Bool-cases, List, Text, [], append-nil, append_assoc, arith, if◌then◌else◌, inl, inr,
  keep, nat_beq, nat_eq, refl, sym, text_beq, text_eq, ℕ, ◌!=◌, ◌++◌, ◌∙◌, ◌∷◌, ◌≡◌,
}
use scopuli.Auth.{parse_scope, parse_scope_from}
use scopuli.Scope.{any_match, scope_match}
use scopuli.Store.Database.{Key}
use scopuli.Store.Keys.{scope_includes, scope_parts_include}
use scopuli.Strings.{push, split, trim_space}

abbrev pub nonempty : Text → Bool
nonempty t = t != []

push_front : (cur : Text) (parts : List Text) → List Text
push_front cur [] = cur ∷ []
push_front cur (part ∷ parts) = (cur ++ part) ∷ parts

keep-push_front_nil :
    (parts : List Text) → keep nonempty (push_front [] parts) ≡ keep nonempty parts
unfolding push_front text_beq
keep-push_front_nil [] = refl
keep-push_front_nil (part ∷ parts) = refl

push_front-push :
    (cur : Text) (r : ℕ) (parts : List Text)
    → push_front cur (push r parts) ≡ push_front (cur ++ r ∷ []) parts
unfolding push_front push
push_front-push cur r [] = refl
push_front-push cur r (part ∷ parts) = rw (append_assoc cur (r ∷ []) part)

keep_first :
    (cur : Text) (parts : List Text)
    → (if text_beq cur [] then keep nonempty parts else cur ∷ keep nonempty parts)
      ≡ keep nonempty (push_front cur ([] ∷ parts))
unfolding push_front
keep_first cur parts = rw append-nil (ground arith)

parse_scope_from-split :
    (csv cur : Text) → parse_scope_from cur csv ≡ keep nonempty (push_front cur (split b',' csv))
unfolding parse_scope_from split
parse_scope_from-split [] cur = unfold push_front in rw append-nil (ground arith)
parse_scope_from-split (r ∷ csv) cur = elim (Bool-cases (nat_beq r b',')) [
  | inl e ↦
      rw e (
        rw (parse_scope_from-split csv [] ∙ keep-push_front_nil (split b',' csv))
          (keep_first cur _))
  | inr e ↦
      rw e
        (rw (push_front-push cur r (split b',' csv)) (parse_scope_from-split csv (cur ++ r ∷ [])))
]

-- The patterns of a key are the parts of its scope that are not empty, as they stand.
pub parse_scope-split : (csv : Text) → parse_scope csv ≡ keep nonempty (split b',' csv)
unfolding parse_scope
parse_scope-split csv = parse_scope_from-split csv [] ∙ keep-push_front_nil (split b',' csv)

scope_parts_include-any_match :
    (parts : List Text) (p : Text)
    → All (λ part. trim_space part ≡ part) parts
    → scope_parts_include parts scope_match p ≡ any_match (keep nonempty parts) p
unfolding scope_parts_include any_match
scope_parts_include-any_match [] p h = refl
scope_parts_include-any_match (part ∷ parts) p h =
    rw (h.0) (rw (scope_parts_include-any_match parts p h.1) (ground arith))

-- Where no part of the scope has white space at its ends, the scope that Authenticate gives a
-- principal admits the paths that Key.ScopeIncludes admits.
pub any_match-parse_scope :
    (k : Key) (p : Text)
    → All (λ part. trim_space part ≡ part) (split b',' k.scope)
    → any_match (parse_scope k.scope) p ≡ scope_includes k p scope_match
unfolding scope_includes
any_match-parse_scope k p h =
    rw (parse_scope-split k.scope) (sym (scope_parts_include-any_match (split b',' k.scope) p h))
