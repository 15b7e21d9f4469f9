-- ===== src/Metadata/GoMap.antt =====
-- Go's maps with string keys, kept in the order of their keys, so that equal maps are equal lists.
use scopuli.Prelude.{List, Option, Text, [], if◌then◌else◌, nat_eq, none, some, text_eq, ◌==◌, ◌∷◌}
use scopuli.Strings.{text_lt}

-- `m[k] = v`.
unfoldable pub map_set {ℓ} : {V : Type ℓ} → Text → V → List (Text × V) → List (Text × V)
unfolding text_lt
map_set k v [] = (k, v) ∷ []
map_set k v ((j, w) ∷ m) =
    let rest = map_set k v m in
    if k == j then (k, v) ∷ m else if text_lt k j then (k, v) ∷ (j, w) ∷ m else (j, w) ∷ rest

-- `delete(m, k)`.
unfoldable pub map_delete {ℓ} : {V : Type ℓ} → Text → List (Text × V) → List (Text × V)
map_delete k [] = []
map_delete k ((j, w) ∷ m) = let rest = map_delete k m in if k == j then rest else (j, w) ∷ rest

unfoldable pub map_get {ℓ} : {V : Type ℓ} → Text → List (Text × V) → Option V
map_get k [] = none
map_get k ((j, w) ∷ m) = if k == j then some w else map_get k m
