-- ===== src/Audit/Tamper.antt =====
-- What the chain shows of two logs that both verify.
use scopuli.Prelude.{
  Bool-cases, Bytes, List, Option, Text, [], ap, append_split, ap₂, arith, inl, inr, length, map,
  none, refl, some, sym, text_of_utf8, text_of_utf8-utf8, utf8, ℕ, ◌++◌, ◌∙◌, ◌∷◌, ◌≡◌, ◌≢◌, ◌⊎◌,
}
use scopuli.Audit.{
  Logger, Verdict, broken, bytes_equal, canonical_json, entry_of, intact, string_of, verify_rows,
  zero_hash,
}
use scopuli.Audit.Chain.{RowHolds, bytes_equal_iff, tip, verify_rows-cons, verify_rows_step}
use scopuli.Env.{Env, IsJson, IsSha}
use scopuli.Store.Database.{AuditRow}

-- What a row records: the time, the kind and the number of who acted, the action, the path, where null
-- counts as empty, and the result.
abbrev pub recorded : AuditRow → ℕ × Text × ℕ × Text × Text × Text
recorded r = (r.ts, r.actor_kind, r.actor_id, r.action, string_of r.path, r.result)

utf8-injective : (s t : Text) → utf8 s ≡ utf8 t → s ≡ t
utf8-injective s t h = sym (text_of_utf8-utf8 s) ∙ ap text_of_utf8 h ∙ text_of_utf8-utf8 t

module _ ⦃env : Env⦄ where
  -- Two different texts with one digest.
  abbrev pub Collision : Type 0
  Collision = (x : Bytes) × (y : Bytes) × (x ≢ y) × (env.sha256 x ≡ env.sha256 y)

  same_preimage : (x y : Bytes) → env.sha256 x ≡ env.sha256 y → (x ≡ y) ⊎ Collision
  same_preimage x y h = elim (Bool-cases (bytes_equal x y)) [
    | inl e ↦ inl ((bytes_equal_iff x y).0 e)
    | inr e ↦ inr (x, y, ground (arith, bytes_equal_iff x y), h)
  ]

  -- Rows with one canonical text record the same.
  canonical_json-injective :
      (r s : AuditRow)
      → IsJson env
      → canonical_json (entry_of r) ≡ canonical_json (entry_of s)
      → recorded r ≡ recorded s
  unfolding canonical_json entry_of
  canonical_json-injective r s json h =
      let same =
        json.marshal_injective _ _ (refl, (refl, (refl, (refl, (refl, (refl, tt))))))
          (utf8-injective _ _ h) in
      cc

  -- From the end of the chain backwards, equal hashes mean equal rows before.
  same_contents :
      (l : Logger) (a b : Bytes) (rows more : List AuditRow)
      → IsSha env
      → IsJson env
      → length a ≡ 32
      → length b ≡ 32
      → verify_rows l a rows ≡ intact
      → verify_rows l b more ≡ intact
      → length rows ≡ length more
      → tip a rows ≡ tip b more
      → ((map recorded rows ≡ map recorded more) × (a ≡ b)) ⊎ Collision
  same_contents l a b [] [] sha json la lb h k n t = inl (refl, t)
  same_contents l a b [] (s ∷ more) sha json la lb h k n t = absurd (omega arith)
  same_contents l a b (r ∷ rows) [] sha json la lb h k n t = absurd (omega arith)
  same_contents l a b (r ∷ rows) (s ∷ more) sha json la lb h k n t =
      let (hr, hrest) = verify_rows-cons l a r rows h in
      let (ks, krest) = verify_rows-cons l b s more k in
      elim (same_contents l r.hash s.hash rows more sha json
        (ap length hr.hashed ∙ sha.length-sha256 _) (ap length ks.hashed ∙ sha.length-sha256 _)
        hrest krest (omega arith) t) [
          | inr c ↦ inr c
          | inl (rest, e) ↦ elim (same_preimage _ _ (sym hr.hashed ∙ e ∙ ks.hashed)) [
            | inr c ↦ inr c
            | inl same ↦
                let (p, q) =
                  append_split r.prev_hash s.prev_hash _ _ (cc (hr.prev, ks.prev, la, lb)) same in
                inl (ap₂ ◌∷◌ (canonical_json-injective r s json q) rest, sym hr.prev ∙ p ∙ ks.prev)
          ]
        ]

  -- Where digests have 32 bytes, and json.Marshal renders objects of one shape alike only if they have
  -- the same values, two logs that verify, of the same length and with the same last hash, record row
  -- by row the same times, actors, actions, paths and results, a null path counting as an empty one;
  -- or else two different texts with one SHA-256 digest are at hand.
  pub tamper_evident :
      (l : Logger) (rows more : List AuditRow)
      → IsSha env
      → IsJson env
      → verify_rows l zero_hash rows ≡ intact
      → verify_rows l zero_hash more ≡ intact
      → length rows ≡ length more
      → tip zero_hash rows ≡ tip zero_hash more
      → (map recorded rows ≡ map recorded more) ⊎ Collision
  tamper_evident l rows more sha json h k n t =
      elim (same_contents l zero_hash zero_hash rows more sha json refl refl h k n t) [
        | inl (e, _) ↦ inl e
        | inr c ↦ inr c
      ]

  -- The row at which a verdict says that the chain is broken.
  abbrev pub broken_id : Verdict → Option ℕ
  broken_id intact = none
  broken_id (broken i expected got) = some i

  not_held :
      (l : Logger) (last : Bytes) (r : AuditRow) (more : List AuditRow)
      → ¬ RowHolds l last r
      → broken_id (verify_rows l last (r ∷ more)) ≡ some r.id
  unfolding verify_rows
  not_held l last r more n =
      let want = env.sha256 (r.prev_hash ++ canonical_json (entry_of r)) in
      let mac = env.hmac_sha256 l.hmac_key r.hash in
      elim (Bool-cases (bytes_equal r.prev_hash last)) [
        | inr e ↦ rw e
        | inl e ↦ elim (Bool-cases (bytes_equal r.hash want)) [
          | inr f ↦ rw (e, f)
          | inl f ↦ elim (Bool-cases (bytes_equal r.hmac mac)) [
            | inr g ↦ rw (e, f, g)
            | inl g ↦ absurd (
                n (record {
                  prev = (bytes_equal_iff _ _).0 e;
                  hashed = (bytes_equal_iff _ _).0 f;
                  signed = (bytes_equal_iff _ _).0 g;
                }))
          ]
        ]
      ]

  -- Verify names the first row that does not hold behind the rows before it.
  pub first_broken :
      (l : Logger) (last : Bytes) (rows : List AuditRow) (r : AuditRow) (more : List AuditRow)
      → verify_rows l last rows ≡ intact
      → ¬ RowHolds l (tip last rows) r
      → broken_id (verify_rows l last (rows ++ r ∷ more)) ≡ some r.id
  first_broken l last [] r more h n = not_held l last r more n
  first_broken l last (s ∷ rows) r more h n =
      let (holds, rest) = verify_rows-cons l last s rows h in
      rw (verify_rows_step l last s (rows ++ r ∷ more) holds)
        (first_broken l s.hash rows r more rest n)
