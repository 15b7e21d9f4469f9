-- ===== src/Audit/Chain.antt =====
-- Append keeps the chain that Verify accepts.
use scopuli.Prelude.{
  All, Bytes, List, Text, [], arith, false, length, none, ok, refl, some, subst, suc, text_beq_iff,
  true, ℕ, ◌++◌, ◌<◌, ◌↔◌, ◌∷◌, ◌≡◌, ◌≤◌,
}
use scopuli.Api.{answer}
use scopuli.Audit.{
  Entry, Logger, append, audit_ids, bytes_equal, canonical_json, chained, entry_of, hash_or_zero,
  intact, last_hash, null_string, string_of, verify_rows, zero_hash,
}
use scopuli.Env.{Env}
use scopuli.Store.Database.{AuditRow, World, next_id}

pub bytes_equal_iff : (a b : Bytes) → (bytes_equal a b ≡ true) ↔ (a ≡ b)
unfolding bytes_equal
bytes_equal_iff [] [] = (λ _. refl, λ _. refl)
bytes_equal_iff [] (y ∷ b) = (λ h. cc, λ h. cc)
bytes_equal_iff (x ∷ a) [] = (λ h. cc, λ h. cc)
bytes_equal_iff (x ∷ a) (y ∷ b) = ground (arith, bytes_equal_iff a b)

string_of-null_string : (s : Text) → string_of (null_string s) ≡ s
unfolding null_string
string_of-null_string s = ground (arith, text_beq_iff s [])

next_id-below : (ids : List ℕ) (n : ℕ) → next_id ids ≤ n → All (λ i. i < n) ids
unfolding next_id
next_id-below [] n h = tt
next_id-below (i ∷ ids) n h = (ground arith, next_id-below ids n (ground arith))

module _ ⦃env : Env⦄ where
  -- What Verify demands of one row behind a hash.
  pub record RowHolds (l : Logger) (last : Bytes) (r : AuditRow) : Type 0 where
    pub prev : r.prev_hash ≡ last
    pub hashed : r.hash ≡ env.sha256 (r.prev_hash ++ canonical_json (entry_of r))
    pub signed : r.hmac ≡ env.hmac_sha256 l.hmac_key r.hash

  pub verify_rows-cons :
      (l : Logger) (last : Bytes) (r : AuditRow) (rows : List AuditRow)
      → verify_rows l last (r ∷ rows) ≡ intact
      → RowHolds l last r × (verify_rows l r.hash rows ≡ intact)
  unfolding verify_rows
  verify_rows-cons l last r rows h =
      let want = env.sha256 (r.prev_hash ++ canonical_json (entry_of r)) in
      let mac = env.hmac_sha256 l.hmac_key r.hash in
      (
        record {
          prev = ground (arith, bytes_equal_iff r.prev_hash last);
          hashed = ground (arith, bytes_equal_iff r.hash want);
          signed = ground (arith, bytes_equal_iff r.hmac mac);
        },
        ground arith,
      )

  pub cons-verify_rows :
      (l : Logger) (last : Bytes) (r : AuditRow) (rows : List AuditRow)
      → RowHolds l last r
      → verify_rows l r.hash rows ≡ intact
      → verify_rows l last (r ∷ rows) ≡ intact
  unfolding verify_rows
  cons-verify_rows l last r rows h k =
      rw
        (
          (bytes_equal_iff r.prev_hash last).1 h.prev,
          (bytes_equal_iff _ _).1 h.hashed,
          (bytes_equal_iff _ _).1 h.signed,
        )
        k

  -- The hash behind which the next row goes.
  abbrev pub tip : Bytes → List AuditRow → Bytes
  tip last [] = last
  tip last (r ∷ rows) = tip r.hash rows

  last_hash-tip :
      (last : Bytes) (r : AuditRow) (rows : List AuditRow)
      → last_hash (r ∷ rows) ≡ some (tip last (r ∷ rows))
  unfolding last_hash
  last_hash-tip last r [] = refl
  last_hash-tip last r (s ∷ rows) = last_hash-tip last s rows

  -- A log verifies exactly if its beginning does and the rest does behind the beginning's last hash.
  pub verify_rows-append :
      (l : Logger) (last : Bytes) (rows more : List AuditRow)
      → verify_rows l last rows ≡ intact
      → verify_rows l (tip last rows) more ≡ intact
      → verify_rows l last (rows ++ more) ≡ intact
  verify_rows-append l last [] more h k = k
  verify_rows-append l last (r ∷ rows) more h k =
      let (holds, rest) = verify_rows-cons l last r rows h in
      cons-verify_rows l last r (rows ++ more) holds (verify_rows-append l r.hash rows more rest k)

  chained-RowHolds :
      (l : Logger) (e : Entry) (prev : Bytes) (i : ℕ) → RowHolds l prev (chained l e prev i)
  unfolding chained entry_of canonical_json
  chained-RowHolds l e prev i = record {
    prev = refl;
    hashed = rw (string_of-null_string e.path);
    signed = refl;
  }

  hash_or_zero-last_hash :
      (rows : List AuditRow) → hash_or_zero (last_hash rows) ≡ tip zero_hash rows
  hash_or_zero-last_hash [] = unfold last_hash in refl
  hash_or_zero-last_hash (r ∷ rows) = rw (last_hash-tip zero_hash r rows)

  pub added_intact :
      (l : Logger) (e : Entry) (rows : List AuditRow) (i : ℕ)
      → verify_rows l zero_hash rows ≡ intact
      → verify_rows l zero_hash (rows ++ chained l e (hash_or_zero (last_hash rows)) i ∷ [])
        ≡ intact
  added_intact l e rows i h = rw (hash_or_zero-last_hash rows) (
      verify_rows-append l zero_hash rows _ h
        (cons-verify_rows l _ _ [] (chained-RowHolds l e _ i) (unfold verify_rows in refl)))

  abbrev pub IsIntact : Logger → World → Type 0
  IsIntact l w = verify_rows l zero_hash w.db.audit ≡ intact

  -- Append, whether it succeeds or fails at any of its statements, keeps the log that Verify accepts.
  pub append-IsIntact :
      (l : Logger) (e : Entry) (w : World) → IsIntact l w → IsIntact l (append l e w).1
  unfolding append
  append-IsIntact l e w h =
      ground (arith, added_intact l e w.db.audit (next_id (audit_ids w.db.audit)) h)

  abbrev appended : Logger → Entry → List AuditRow → AuditRow
  appended l e rows = chained l e (hash_or_zero (last_hash rows)) (next_id (audit_ids rows))

  append-appended :
      (l : Logger) (e : Entry) (w : World)
      → ((n : ℕ) → env.fault_at n ≡ false)
      → length (tip zero_hash w.db.audit) ≡ 32
      → ((append l e w).0 ≡ ok (next_id (audit_ids w.db.audit)))
        × ((append l e w).1.db ≡ record w.db { audit = w.db.audit ++ appended l e w.db.audit ∷ [] })
  unfolding append
  append-appended l e w f n = ground (
    arith,
    f w.events,
    f (suc w.events),
    f (suc (suc w.events)),
    f (suc (suc (suc w.events))),
    hash_or_zero-last_hash w.db.audit,
  )

  -- The columns of a row are those of an entry.
  pub record Records (e : Entry) (r : AuditRow) : Type 0 where
    pub ts : r.ts ≡ e.ts
    pub actor_kind : r.actor_kind ≡ e.actor_kind
    pub actor_id : r.actor_id ≡ e.actor_id
    pub action : r.action ≡ e.action
    pub path : (r.path ≡ none → e.path ≡ []) × ((p : Text) → r.path ≡ some p → p ≡ e.path)
    pub result : r.result ≡ e.result

  chained-Records : (l : Logger) (e : Entry) (prev : Bytes) (i : ℕ) → Records e (chained l e prev i)
  unfolding chained null_string
  chained-Records l e prev i = record {
    ts = refl;
    actor_kind = refl;
    actor_id = refl;
    action = refl;
    path = (
      λ h. ground (arith, text_beq_iff e.path []),
      λ p h. ground (arith, text_beq_iff e.path []),
    );
    result = refl;
  }

  -- If the engine does not fail and the last hash has 32 bytes, Append returns the number of a new
  -- row, larger than every number in the log, and puts that row at the end of the log. Its columns are
  -- those of the entry, an empty path standing as null, and the row holds behind the last hash. No
  -- other row and no other table changes.
  pub append_total :
      (l : Logger) (e : Entry) (w : World)
      → ((n : ℕ) → env.fault_at n ≡ false)
      → length (tip zero_hash w.db.audit) ≡ 32
      → (r : AuditRow) × ((append l e w).0 ≡ ok r.id)
        × ((append l e w).1.db ≡ record w.db { audit = w.db.audit ++ r ∷ [] })
        × Records e r
        × RowHolds l (tip zero_hash w.db.audit) r
        × All (λ i. i < r.id) (audit_ids w.db.audit)
  append_total l e w f n =
      let rows = w.db.audit in
      let (answer, same) = append-appended l e w f n in
      let i = next_id (audit_ids rows) in
      (
        appended l e rows,
        unfold chained in answer,
        same,
        chained-Records l e _ i,
        subst (λ last. RowHolds l last (appended l e rows)) (hash_or_zero-last_hash rows)
            (chained-RowHolds l e (hash_or_zero (last_hash rows)) i),
        unfold chained in next_id-below (audit_ids rows) i (omega arith),
      )

  -- Behind a row that holds the verdict is that of the rest.
  pub verify_rows_step :
      (l : Logger) (last : Bytes) (r : AuditRow) (rows : List AuditRow)
      → RowHolds l last r
      → verify_rows l last (r ∷ rows) ≡ verify_rows l r.hash rows
  unfolding verify_rows
  verify_rows_step l last r rows h = rw (
    (bytes_equal_iff r.prev_hash last).1 h.prev,
    (bytes_equal_iff _ _).1 h.hashed,
    (bytes_equal_iff _ _).1 h.signed,
  )
