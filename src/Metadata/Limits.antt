-- ===== src/Metadata/Limits.antt =====
-- What NormalizeMetadata and MergeMetadata accept stays within the limits.
use scopuli.Prelude.{
  All, Bool-cases, List, Option, Result-cases, Text, [], arith, byte_len, inl, inr, length, none,
  ok, some, text_beq, ◌∷◌, ◌≡◌, ◌≤◌, ◌⊎◌,
}
use scopuli.Env.{Any, Env, TextMap, num, other, str}
use scopuli.Metadata.{
  base_object, check_pair, check_pairs, empty_object, max_metadata_key_len, max_metadata_pairs,
  max_metadata_value_len, merge_metadata, normalize_metadata, normalize_object,
}
use scopuli.Strings.{trim_space}

-- At most 32 pairs, every value a text, keys and values within their lengths.
abbrev pub PairFits : Text × Any → Type 0
PairFits (k, str s) = (byte_len k ≤ max_metadata_key_len) × (byte_len s ≤ max_metadata_value_len)
PairFits (k, num n) = ⊥
PairFits (k, other t) = ⊥

pub record ObjectFits (m : TextMap Any) : Type 0 where
  pub few : length m ≤ max_metadata_pairs
  pub pairs : All PairFits m

check_pair-PairFits : (k : Text) (v : Any) → check_pair k v ≡ ok tt → PairFits (k, v)
unfolding check_pair
check_pair-PairFits k (str s) h = ground arith
check_pair-PairFits k (num n) h = ground arith
check_pair-PairFits k (other t) h = ground arith

check_pairs-All : (m : TextMap Any) → check_pairs m ≡ ok tt → All PairFits m
unfolding check_pairs
check_pairs-All [] h = tt
check_pairs-All ((k, v) ∷ m) h = elim (Result-cases (check_pair k v)) [
  | inl (u, e) ↦ (check_pair-PairFits k v e, check_pairs-All m (ground arith))
  | inr (x, e) ↦ absurd (ground arith)
]

module _ ⦃env : Env⦄ where
  -- An accepted text is `{}` or the rendering of a map within the limits.
  normalize_object-ObjectFits :
      (o : Option (Option (TextMap Any))) (t : Text)
      → normalize_object o ≡ ok t
      → (m : TextMap Any) × ObjectFits m × ((t ≡ empty_object) ⊎ (t ≡ env.marshal m))
  unfolding normalize_object
  normalize_object-ObjectFits none t h = absurd (cc)
  normalize_object-ObjectFits (some none) t h = ([], omega arith, inl (ground arith))
  normalize_object-ObjectFits (some (some m)) t h = elim (Result-cases (check_pairs m)) [
    | inl (u, e) ↦
        (m, record { few = ground arith; pairs = check_pairs-All m e }, inr (ground arith))
    | inr (x, e) ↦ absurd (ground arith)
  ]

  -- What NormalizeMetadata returns is `{}` or the rendering of a map of at most 32 pairs, whose keys
  -- have at most 64 bytes and whose values are texts of at most 256.
  pub normalize_metadata-ObjectFits :
      (raw t : Text)
      → normalize_metadata raw ≡ ok t
      → (m : TextMap Any) × ObjectFits m × ((t ≡ empty_object) ⊎ (t ≡ env.marshal m))
  unfolding normalize_metadata
  normalize_metadata-ObjectFits raw t h = elim (Bool-cases (text_beq (trim_space raw) [])) [
    | inl e ↦ ([], record { few = omega arith; pairs = tt }, inl (ground (arith, rw e at h)))
    | inr e ↦ normalize_object-ObjectFits (env.unmarshal (trim_space raw)) t (rw e at h)
  ]

  -- Whatever the stored text and the changes are, what MergeMetadata returns is `{}` or the rendering
  -- of a map of at most 32 pairs, whose keys have at most 64 bytes and whose values are texts of at
  -- most 256.
  pub merge_metadata-ObjectFits :
      (base t : Text) (set : TextMap Text) (unset : List Text)
      → merge_metadata base set unset ≡ ok t
      → (m : TextMap Any) × ObjectFits m × ((t ≡ empty_object) ⊎ (t ≡ env.marshal m))
  unfolding merge_metadata
  merge_metadata-ObjectFits base t set unset h = elim (Result-cases (base_object base)) [
    | inl (m, e) ↦ normalize_metadata-ObjectFits _ t (rw (merge_metadata, e) at h)
    | inr (x, e) ↦ absurd (cc (rw (merge_metadata, e) at h))
  ]
