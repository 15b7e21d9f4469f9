-- ===== src/Store/Secrets.antt =====
-- internal/store/secrets.go: the secrets table, its full-text index, and the index's text.
pub mod Rows
pub mod Put
pub mod Delete
pub mod Invariant
pub mod Frame
pub mod Healthy
pub mod Vault
use scopuli.Prelude.{
  Bool, Exec, List, Option, Text, [], if◌then◌else◌, keep, lift, ltb, map, nat_eq, negsuc, none,
  of_option, pos, pure, some, take, text_eq, true, ℕ, ℤ, ◌!=◌, ◌++◌, ◌==◌, ◌>>=◌, ◌>>◌, ◌||◌, ◌∷◌,
}
use scopuli.Env.{Env}
use scopuli.Metadata.{empty_object}
use scopuli.Store.Database.{
  FtsRow, Secret, StoreError, World, engine, next_id, not_found, now, statement, transaction,
}
use scopuli.Store.Like.{like}
use scopuli.Strings.{cut, join, remove_char, split, text_lt, trim_prefix, trim_space, trim_suffix}

-- `strings.TrimSpace(parts[0]) + "=" + strings.TrimSpace(parts[1])`, for a pair with a colon.
render_pair : Option (Text × Text) → List Text
render_pair none = []
render_pair (some (k, v)) = (trim_space k ++ b'=' ∷ trim_space v) ∷ []

flatten_pairs : List Text → List Text
unfolding render_pair
flatten_pairs [] = []
flatten_pairs (kv ∷ kvs) =
    let rest = flatten_pairs kvs in
    let t = trim_space kv in if t == [] then rest else render_pair (cut b':' t) ++ rest

-- `flattenMetadata`.
unfoldable pub flatten_metadata : Text → Text
unfolding flatten_pairs
flatten_metadata json =
    let t = trim_space json in
    if t == [] || t == empty_object
    then []
    else let inner = trim_suffix (trim_prefix t (b'{' ∷ [])) b'}' in
      join b';' (flatten_pairs (split b',' (remove_char b'"' inner)))

-- `SELECT … FROM secrets WHERE path = ?`
unfoldable pub secret_at : Text → List Secret → Option Secret
secret_at p [] = none
secret_at p (r ∷ rows) = if r.path == p then some r else secret_at p rows

unfoldable pub row_with_id : ℕ → List Secret → Option Secret
row_with_id i [] = none
row_with_id i (r ∷ rows) = if r.id == i then some r else row_with_id i rows

-- `DO UPDATE SET …`: the id, the path and created_at of the row stay.
abbrev pub excluded : Secret → Secret → Secret
excluded sec r = record sec { id = r.id; path = r.path; created_at = r.created_at }

-- `INSERT … ON CONFLICT(path) DO UPDATE`, with the number that a new row gets.
unfoldable pub upsert_secret : ℕ → Secret → List Secret → List Secret
upsert_secret new sec [] = record sec { id = new } ∷ []
upsert_secret new sec (r ∷ rows) =
    let rest = upsert_secret new sec rows in
    if r.path == sec.path then excluded sec r ∷ rows else r ∷ rest

-- `DELETE FROM secrets WHERE id = ?`, and on the rows of an index.
unfoldable pub delete_secret_row : ℕ → List Secret → List Secret
delete_secret_row i rows = keep (λ r. r.id != i) rows

unfoldable pub delete_fts : ℕ → List FtsRow → List FtsRow
delete_fts i rows = keep (λ r. r.0 != i) rows

abbrev pub secret_ids : List Secret → List ℕ
secret_ids rows = map (λ r. r.id) rows

abbrev pub fts_of_secret : Secret → FtsRow
fts_of_secret sec = (sec.id, sec.path, sec.description, flatten_metadata sec.metadata)

module _ ⦃env : Env⦄ where
  -- `GetSecret`.
  unfoldable pub get_secret : Text → Exec World StoreError Secret
  unfolding statement
  get_secret p = do
    row ← statement (λ db. (secret_at p db.secrets, db))
    lift (of_option not_found row)

  -- `syncSecretFTS`.
  unfoldable pub sync_secret_fts : Secret → Exec World StoreError (Unit {0})
  unfolding statement transaction
  sync_secret_fts sec = transaction (do
    statement (λ db. (tt {0}, record db { secrets_fts = delete_fts sec.id db.secrets_fts }))
    statement
        (λ db. (tt {0}, record db { secrets_fts = db.secrets_fts ++ fts_of_secret sec ∷ [] })))

  -- `PutSecret`.
  unfoldable pub put_secret : Secret → Exec World StoreError (Unit {0})
  unfolding statement now sync_secret_fts
  put_secret sec = do
    t ← now
    let stamped = record sec {
      updated_at = t;
      created_at = if sec.created_at == 0 then t else sec.created_at;
    }
    statement (λ db. (
      tt {0},
      record db { secrets = upsert_secret (next_id (secret_ids db.secrets)) stamped db.secrets },
    ))
    row ← statement (λ db. (secret_at sec.path db.secrets, db))
    found ← lift (of_option engine row)
    sync_secret_fts (record stamped { id = found.id })

  -- `DeleteSecret`.
  unfoldable pub delete_secret : Text → Exec World StoreError (Unit {0})
  unfolding statement get_secret
  delete_secret p = do
    sec ← get_secret p
    statement (λ db. (tt {0}, record db { secrets = delete_secret_row sec.id db.secrets }))
    statement (λ db. (tt {0}, record db { secrets_fts = delete_fts sec.id db.secrets_fts }))

-- Insertion into a list in the order of `ORDER BY`.
unfoldable pub insert_text : Text → List Text → List Text
insert_text t [] = t ∷ []
insert_text t (u ∷ us) = let rest = insert_text t us in if text_lt u t then u ∷ rest else t ∷ u ∷ us

unfoldable pub sort_texts : List Text → List Text
unfolding insert_text
sort_texts [] = []
sort_texts (t ∷ ts) = insert_text t (sort_texts ts)

-- The `WHERE` of ListSecretPaths: the prefix is a LIKE pattern with a percent sign behind it.
unfoldable pub path_is_listed : Text → Text → Bool
path_is_listed prefix p = if prefix == [] then true else like none (prefix ++ b'%' ∷ []) p

-- `limit <= 0 || limit > 1000`
unfoldable pub clamp_limit : ℤ → ℕ → ℕ
clamp_limit (pos n) default = if n == 0 || ltb 1000 n then default else n
clamp_limit (negsuc n) default = default

module _ ⦃env : Env⦄ where
  -- `ListSecretPaths`.
  unfoldable pub list_secret_paths : Text → Exec World StoreError (List Text)
  unfolding statement
  list_secret_paths prefix =
      statement λ db. (sort_texts (keep (path_is_listed prefix) (map (λ r. r.path) db.secrets)), db)

  -- `SearchSecrets`.
  unfoldable pub search_secrets : Text → ℤ → Exec World StoreError (List ℕ)
  unfolding statement
  search_secrets query limit = do
    found ← statement (λ db. (env.fts_match query db.secrets_fts, db))
    ids ← lift (of_option engine found)
    pure (take (clamp_limit limit 50) ids)

  -- `SELECT … FROM secrets WHERE id = ?`, in the search handlers.
  unfoldable pub secret_by_id : ℕ → Exec World StoreError Secret
  unfolding statement
  secret_by_id i = do
    row ← statement (λ db. (row_with_id i db.secrets, db))
    lift (of_option not_found row)
