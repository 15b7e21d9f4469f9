-- ===== src/Metadata.antt =====
-- internal/metadata/metadata.go: tags, descriptions and structured metadata of secrets and keys.
pub mod GoMap
pub mod Tags
pub mod Limits
use scopuli.Prelude.{
  List, Option, Result, Text, [], byte_len, elem, err, if◌then◌else◌, length, ltb, nat_eq, none, ok,
  some, text_eq, ℕ, ◌*◌, ◌++◌, ◌==◌, ◌||◌, ◌∷◌,
}
use scopuli.Env.{Any, Env, TextMap, str}
use scopuli.Metadata.GoMap.{map_delete, map_set}
use scopuli.Strings.{join, split, trim_space}

pub data MetadataError : Type 0 where
  too_many_tags tag_too_long description_too_large metadata_shape metadata_too_large : MetadataError
  -- the error of `json.Unmarshal` as it is
  bad_base : MetadataError

abbrev pub max_tags : ℕ
max_tags = 20

abbrev pub max_tag_len : ℕ
max_tag_len = 64

abbrev pub max_description_bytes : ℕ
max_description_bytes = 8 * 1024

abbrev pub max_metadata_pairs : ℕ
max_metadata_pairs = 32

abbrev pub max_metadata_key_len : ℕ
max_metadata_key_len = 64

abbrev pub max_metadata_value_len : ℕ
max_metadata_value_len = 256

-- The loop of `NormalizeTags`: `seen` holds the tags of `out`.
unfoldable pub collect_tags : List Text → List Text → Result MetadataError (List Text)
collect_tags out [] = ok out
collect_tags out (part ∷ parts) =
    let t = trim_space part in
    let skip = collect_tags out parts in
    let add = collect_tags (out ++ t ∷ []) parts in
    if t == []
    then skip
    else if ltb max_tag_len (byte_len t)
    then err tag_too_long
    else if elem t out
    then skip
    else add

-- The test and the join at the end of `NormalizeTags` and `MergeTags`.
unfoldable pub within_max_tags : List Text → Result MetadataError Text
within_max_tags out = if ltb max_tags (length out) then err too_many_tags else ok (join b',' out)

-- `NormalizeTags`.
unfoldable pub normalize_tags : Text → Result MetadataError Text
unfolding collect_tags within_max_tags
normalize_tags csv =
    if csv == []
    then ok []
    else (elim (collect_tags [] (split b',' csv)) [ ok out ↦ within_max_tags out | err e ↦ err e ])

-- `ValidateDescription`.
unfoldable pub validate_description : Text → Result MetadataError (Unit {0})
validate_description desc =
    if ltb max_description_bytes (byte_len desc) then err description_too_large else ok tt

-- A loop of `MergeTags`, over the base or over the added tags; `seen` holds the tags of `out`.
unfoldable pub merge_parts : List Text → List Text → List Text → List Text
merge_parts remove out [] = out
merge_parts remove out (part ∷ parts) =
    let t = trim_space part in
    merge_parts remove (if t == [] || elem t remove || elem t out then out else out ++ t ∷ []) parts

-- `MergeTags`.
unfoldable pub merge_tags : Text → List Text → List Text → Result MetadataError Text
unfolding merge_parts within_max_tags
merge_tags base add remove =
    let kept = merge_parts remove [] (split b',' base) in
    within_max_tags (merge_parts remove kept add)

-- What one round of the loop of `NormalizeMetadata` says of a pair.
unfoldable pub check_pair : Text → Any → Result MetadataError (Unit {0})
check_pair k (str s) =
    if ltb max_metadata_key_len (byte_len k)
    then err metadata_too_large
    else if ltb max_metadata_value_len (byte_len s)
    then err metadata_too_large
    else ok tt
check_pair k v =
    if ltb max_metadata_key_len (byte_len k) then err metadata_too_large else err metadata_shape

-- The loop; a map is walked in the order of its keys, where Go's order is any.
unfoldable pub check_pairs : TextMap Any → Result MetadataError (Unit {0})
unfolding check_pair
check_pairs [] = ok tt
check_pairs ((k, v) ∷ m) =
    let rest = check_pairs m in elim (check_pair k v) [ ok u ↦ rest | err e ↦ err e ]

-- `for _, k := range unset { delete(m, k) }`
unfoldable pub delete_all : List Text → TextMap Any → TextMap Any
delete_all [] m = m
delete_all (k ∷ ks) m = delete_all ks (map_delete k m)

-- `for k, v := range set { m[k] = v }`
unfoldable pub set_all : TextMap Text → TextMap Any → TextMap Any
set_all [] m = m
set_all ((k, v) ∷ pairs) m = set_all pairs (map_set k (str v) m)

-- `{}`
abbrev pub empty_object : Text
empty_object = b'{' ∷ b'}' ∷ []

module _ ⦃env : Env⦄ where
  -- After `json.Unmarshal`.
  unfoldable pub normalize_object : Option (Option (TextMap Any)) → Result MetadataError Text
  unfolding check_pairs
  normalize_object none = err metadata_shape
  normalize_object (some none) = ok empty_object
  normalize_object (some (some m)) =
      if ltb max_metadata_pairs (length m)
      then err metadata_too_large
      else (elim (check_pairs m) [ ok u ↦ ok (env.marshal m) | err e ↦ err e ])

  -- `NormalizeMetadata`.
  unfoldable pub normalize_metadata : Text → Result MetadataError Text
  unfolding normalize_object
  normalize_metadata raw =
      let t = trim_space raw in
      if t == [] then ok empty_object else normalize_object (env.unmarshal t)

  -- The map that `MergeMetadata` starts from.
  unfoldable pub base_object : Text → Result MetadataError (TextMap Any)
  base_object base =
      let t = trim_space base in
      if t == [] || t == empty_object then ok [] else (elim (env.unmarshal t) [
        | none ↦ err bad_base
        | some none ↦ ok []
        | some (some m) ↦ ok m
      ])

  -- `MergeMetadata`: unset, then set, then normalize what `toJSON` renders.
  unfoldable pub merge_metadata : Text → TextMap Text → List Text → Result MetadataError Text
  unfolding base_object normalize_metadata
  merge_metadata base set unset = elim (base_object base) [
    | err e ↦ err e
    | ok m ↦ normalize_metadata (env.marshal (set_all set (delete_all unset m)))
  ]
