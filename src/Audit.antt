-- ===== src/Audit.antt =====
-- internal/audit/audit.go: the append-only log with its hash chain.
pub mod Chain
pub mod Tamper
use mathlib.Core.List.{reverse}
use scopuli.Prelude.{
  Bool, Bytes, Exec, List, Option, Text, [], codes, fail_if, false, if◌then◌else◌, keep, leb,
  length, ltb, map, nat_eq, negsuc, none, not, pos, replicate, some, take, text_eq, true, utf8, ℕ,
  ℤ, ◌!=◌, ◌&&◌, ◌++◌, ◌==◌, ◌>>=◌, ◌>>◌, ◌||◌, ◌∷◌,
}
use scopuli.Env.{Env, num, str}
use scopuli.Scope.Glob.{backslash}
use scopuli.Store.Database.{AuditRow, StoreError, World, engine, next_id, statement, transaction}
use scopuli.Store.Like.{like}
use scopuli.Store.Secrets.{clamp_limit}

pub record Entry : Type 0 where
  pub id : ℕ
  pub ts : ℕ
  pub actor_kind : Text
  pub actor_id : ℕ
  pub action : Text
  pub path : Text
  pub result : Text

abbrev pub zero_hash : Bytes
zero_hash = replicate 32 0

pub record Logger : Type 0 where
  pub hmac_key : Bytes

-- `bytesEqual`.
unfoldable pub bytes_equal : Bytes → Bytes → Bool
bytes_equal [] [] = true
bytes_equal [] (y ∷ b) = false
bytes_equal (x ∷ a) [] = false
bytes_equal (x ∷ a) (y ∷ b) = if x != y then false else bytes_equal a b

-- `nullString`, and the `String` of a column that was read.
unfoldable pub null_string : Text → Option Text
null_string s = if s == [] then none else some s

abbrev pub string_of : Option Text → Text
string_of none = []
string_of (some s) = s

-- `e` as it is scanned from a row.
unfoldable pub entry_of : AuditRow → Entry
entry_of r = record {
  id = r.id;
  ts = r.ts;
  actor_kind = r.actor_kind;
  actor_id = r.actor_id;
  action = r.action;
  path = string_of r.path;
  result = r.result;
}

-- `SELECT hash FROM audit ORDER BY id DESC LIMIT 1`
unfoldable pub last_hash : List AuditRow → Option Bytes
last_hash [] = none
last_hash (r ∷ []) = some r.hash
last_hash (r ∷ s ∷ rows) = last_hash (s ∷ rows)

abbrev pub hash_or_zero : Option Bytes → Bytes
hash_or_zero none = zero_hash
hash_or_zero (some h) = h

abbrev pub audit_ids : List AuditRow → List ℕ
audit_ids rows = map (λ r. r.id) rows

-- The verdict of `Verify`: all rows hold, or the first broken one with what was expected and found.
pub data Verdict : Type 0 where
  intact : Verdict
  broken : ℕ → Bytes → Bytes → Verdict

module _ ⦃env : Env⦄ where
  -- `canonicalJSON`: `json.Marshal` puts the keys in order.
  unfoldable pub canonical_json : Entry → Bytes
  canonical_json e = utf8 (
      env.marshal (
        (codes "action", str e.action)
        ∷ (codes "actor_id", num e.actor_id)
        ∷ (codes "actor_kind", str e.actor_kind)
        ∷ (codes "path", str e.path)
        ∷ (codes "result", str e.result)
        ∷ (codes "ts", num e.ts)
        ∷ []))

  -- The row that Append inserts behind a hash.
  unfoldable pub chained : Logger → Entry → Bytes → ℕ → AuditRow
  unfolding canonical_json null_string
  chained l e prev i =
      let hash = env.sha256 (prev ++ canonical_json e) in
      record {
        id = i;
        ts = e.ts;
        actor_kind = e.actor_kind;
        actor_id = e.actor_id;
        action = e.action;
        path = null_string e.path;
        result = e.result;
        prev_hash = prev;
        hash = hash;
        hmac = env.hmac_sha256 l.hmac_key hash;
      }

  -- `Append`.
  unfoldable pub append : Logger → Entry → Exec World StoreError ℕ
  unfolding statement transaction last_hash chained
  append l e = transaction (do
    last ← statement (λ db. (last_hash db.audit, db))
    let prev = hash_or_zero last
    fail_if (length prev != 32) engine
    statement λ db. (
      next_id (audit_ids db.audit),
      record db { audit = db.audit ++ chained l e prev (next_id (audit_ids db.audit)) ∷ [] },
    ))

  -- The loop of `Verify`, from the hash of the row before.
  unfoldable pub verify_rows : Logger → Bytes → List AuditRow → Verdict
  unfolding entry_of bytes_equal canonical_json
  verify_rows l last [] = intact
  verify_rows l last (r ∷ rows) =
      let rest = verify_rows l r.hash rows in
      let want_hash = env.sha256 (r.prev_hash ++ canonical_json (entry_of r)) in
      let want_hmac = env.hmac_sha256 l.hmac_key r.hash in
      if not (bytes_equal r.prev_hash last)
      then broken r.id last r.prev_hash
      else if not (bytes_equal r.hash want_hash)
      then broken r.id want_hash r.hash
      else if not (bytes_equal r.hmac want_hmac)
      then broken r.id want_hmac r.hmac
      else rest

  -- `Verify`.
  unfoldable pub verify : Logger → Exec World StoreError Verdict
  unfolding statement verify_rows
  verify l = statement (λ db. (verify_rows l zero_hash db.audit, db))

-- `escapeLike`.
unfoldable pub escape_like : Text → Text
escape_like [] = []
escape_like (c ∷ s) =
    let rest = escape_like s in
    if c == backslash || c == b'%' || c == b'_' then backslash ∷ c ∷ rest else c ∷ rest

-- `ts >= ?`, when a time is given.
abbrev since_matches : ℤ → ℕ → Bool
since_matches (pos n) ts = leb n ts
since_matches (negsuc n) ts = true

-- `actor_kind = 'key' AND actor_id = ?`, when a key is given.
unfoldable pub key_matches : ℕ → AuditRow → Bool
key_matches key_id r =
    if ltb 0 key_id then r.actor_kind == codes "key" && r.actor_id == key_id else true

-- The `WHERE` clause of `auditFilters`.
unfoldable pub audit_filters : ℤ → ℕ → Text → AuditRow → Bool
unfolding key_matches escape_like
audit_filters since_ms key_id action_sub r =
    since_matches since_ms r.ts
    && key_matches key_id r
    && (if action_sub == []
        then true
        else like (some backslash) (b'%' ∷ (escape_like action_sub ++ b'%' ∷ [])) r.action)

-- `id < ?`, when a row is given.
unfoldable pub before_matches : ℤ → AuditRow → Bool
before_matches (pos n) r = if ltb 0 n then ltb r.id n else true
before_matches (negsuc n) r = true

module _ ⦃env : Env⦄ where
  -- `List`.
  unfoldable pub list_entries : ℤ → ℕ → ℤ → Exec World StoreError (List Entry)
  unfolding statement entry_of key_matches
  list_entries since_ms key_id limit = statement λ db. (
    map entry_of (
        take (clamp_limit limit 100)
          (reverse (keep (λ r. since_matches since_ms r.ts && key_matches key_id r) db.audit))),
    db,
  )

  -- `Query`.
  unfoldable pub query_entries : ℤ → ℤ → ℕ → Text → ℤ → Exec World StoreError (List Entry)
  unfolding statement entry_of audit_filters before_matches
  query_entries before_id since_ms key_id action_sub limit = statement λ db. (
    map entry_of (
        take (clamp_limit limit 100) (
          reverse (
            keep (λ r. audit_filters since_ms key_id action_sub r && before_matches before_id r)
              db.audit))),
    db,
  )

  -- `Count`.
  unfoldable pub count_entries : ℤ → ℕ → Text → Exec World StoreError ℕ
  unfolding statement audit_filters
  count_entries since_ms key_id action_sub =
      statement λ db. (length (keep (audit_filters since_ms key_id action_sub) db.audit), db)
