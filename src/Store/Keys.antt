-- ===== src/Store/Keys.antt =====
-- internal/store/keys.go: the keys table and its full-text index.
use scopuli.Prelude.{
  Bool, Exec, List, Option, Text, [], false, if◌then◌else◌, keep, lift, map, nat_eq, none, not,
  of_option, pure, some, take, text_eq, true, ℕ, ℤ, ◌++◌, ◌==◌, ◌>>=◌, ◌>>◌, ◌∷◌,
}
use scopuli.Env.{Env}
use scopuli.Store.Database.{
  Database, FtsRow, Key, StoreError, World, already_exists, engine, next_id, not_found, now,
  statement, transaction,
}
use scopuli.Store.Secrets.{clamp_limit, delete_fts, flatten_metadata}
use scopuli.Strings.{split, text_lt, trim_space}

-- `SELECT … FROM keys WHERE name = ?`, `WHERE hash = ?`, `WHERE id = ?`
unfoldable pub key_named : Text → List Key → Option Key
key_named name [] = none
key_named name (k ∷ rows) = if k.name == name then some k else key_named name rows

unfoldable pub key_hashed : Text → List Key → Option Key
key_hashed hash [] = none
key_hashed hash (k ∷ rows) = if k.hash == hash then some k else key_hashed hash rows

unfoldable pub key_with_id : ℕ → List Key → Option Key
key_with_id i [] = none
key_with_id i (k ∷ rows) = if k.id == i then some k else key_with_id i rows

-- `UPDATE keys SET … WHERE id = ?`
unfoldable pub update_keys : ℕ → (Key → Key) → List Key → List Key
update_keys i f [] = []
update_keys i f (k ∷ rows) = (if k.id == i then f k else k) ∷ update_keys i f rows

-- The columns that UpdateKey sets.
abbrev pub assign_key : Key → Key → Key
assign_key k row = record row {
  scope = k.scope;
  permissions = k.permissions;
  expires_at = k.expires_at;
  tags = k.tags;
  description = k.description;
  metadata = k.metadata;
  description_updated_at = k.description_updated_at;
  metadata_updated_at = k.metadata_updated_at;
}

abbrev pub key_ids : List Key → List ℕ
key_ids rows = map (λ k. k.id) rows

abbrev pub fts_of_key : Key → FtsRow
fts_of_key k = (k.id, k.name, k.description, flatten_metadata k.metadata)

-- `INSERT INTO keys`: refused if the name is taken, else a row with a new number, which is returned.
unfoldable pub insert_key : Key → Database → Option ℕ × Database
unfolding next_id
insert_key k db =
    let i = next_id (key_ids db.keys) in
    elim (key_named k.name db.keys) [
      | none ↦ (some i, record db { keys = db.keys ++ record k { id = i } ∷ [] })
      | some row ↦ (none, db)
    ]

module _ ⦃env : Env⦄ where
  -- `syncKeyFTS`.
  unfoldable pub sync_key_fts : Key → Exec World StoreError (Unit {0})
  unfolding statement transaction
  sync_key_fts k = transaction (do
    statement (λ db. (tt {0}, record db { keys_fts = delete_fts k.id db.keys_fts }))
    statement (λ db. (tt {0}, record db { keys_fts = db.keys_fts ++ fts_of_key k ∷ [] })))

  -- `CreateKey`. The key with its number and its time is the result.
  unfoldable pub create_key : Key → Exec World StoreError Key
  unfolding statement now sync_key_fts insert_key
  create_key k = do
    t ← now
    let stamped = record k { created_at = t }
    inserted ← statement (insert_key stamped)
    i ← lift (of_option already_exists inserted)
    sync_key_fts (record stamped { id = i })
    pure (record stamped { id = i })

  -- `GetKeyByName`.
  unfoldable pub get_key_by_name : Text → Exec World StoreError Key
  unfolding statement
  get_key_by_name name = do
    row ← statement (λ db. (key_named name db.keys, db))
    lift (of_option not_found row)

  -- `GetKeyByHash`.
  unfoldable pub get_key_by_hash : Text → Exec World StoreError Key
  unfolding statement
  get_key_by_hash hash = do
    row ← statement (λ db. (key_hashed hash db.keys, db))
    lift (of_option not_found row)

  -- `UpdateKey`.
  unfoldable pub update_key : Key → Exec World StoreError (Unit {0})
  unfolding statement sync_key_fts update_keys
  update_key k = do
    statement (λ db. (tt {0}, record db { keys = update_keys k.id (assign_key k) db.keys }))
    sync_key_fts k

  -- `RevokeKey`.
  unfoldable pub revoke_key : ℕ → Exec World StoreError (Unit {0})
  unfolding statement now update_keys
  revoke_key i = do
    t ← now
    statement λ db.
        (tt {0}, record db { keys = update_keys i (λ k. record k { revoked_at = some t }) db.keys })

  -- `TouchKeyLastUsed`.
  unfoldable pub touch_key_last_used : ℕ → Exec World StoreError (Unit {0})
  unfolding statement now update_keys
  touch_key_last_used i = do
    t ← now
    statement λ db. (
      tt {0},
      record db { keys = update_keys i (λ k. record k { last_used_at = some t }) db.keys },
    )

-- `ORDER BY name`
unfoldable pub insert_key_by_name : Key → List Key → List Key
insert_key_by_name k [] = k ∷ []
insert_key_by_name k (j ∷ js) =
    let rest = insert_key_by_name k js in if text_lt j.name k.name then j ∷ rest else k ∷ j ∷ js

unfoldable pub sort_keys : List Key → List Key
unfolding insert_key_by_name
sort_keys [] = []
sort_keys (k ∷ ks) = insert_key_by_name k (sort_keys ks)

abbrev pub is_some : {A : Type 0} → Option A → Bool
is_some none = false
is_some (some a) = true

module _ ⦃env : Env⦄ where
  -- `ListKeys`.
  unfoldable pub list_keys : Bool → Exec World StoreError (List Key)
  unfolding statement
  list_keys all =
      statement
        λ db. (sort_keys (keep (λ k. if all then true else not (is_some k.revoked_at)) db.keys), db)

  -- `SearchKeys`.
  unfoldable pub search_keys : Text → ℤ → Exec World StoreError (List ℕ)
  unfolding statement
  search_keys query limit = do
    found ← statement (λ db. (env.fts_match query db.keys_fts, db))
    ids ← lift (of_option engine found)
    pure (take (clamp_limit limit 50) ids)

  -- `SELECT … FROM keys WHERE id = ?`, in the search handlers.
  unfoldable pub key_by_id : ℕ → Exec World StoreError Key
  unfolding statement
  key_by_id i = do
    row ← statement (λ db. (key_with_id i db.keys, db))
    lift (of_option not_found row)

-- The loop of `ScopeIncludes` over the parts of the scope.
unfoldable pub scope_parts_include : List Text → (Text → Text → Bool) → Text → Bool
scope_parts_include [] matcher p = false
scope_parts_include (pat ∷ parts) matcher p =
    let rest = scope_parts_include parts matcher p in
    let t = trim_space pat in if t == [] then rest else if matcher t p then true else rest

-- `ScopeIncludes`.
unfoldable pub scope_includes : Key → Text → (Text → Text → Bool) → Bool
unfolding scope_parts_include
scope_includes k p matcher = scope_parts_include (split b',' k.scope) matcher p
