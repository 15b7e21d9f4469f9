-- ===== src/Store/Opening.antt =====
-- internal/store/store.go: init, which seeds a new database and migrates the indexes of an old one.
pub mod Total
pub mod Migration
pub mod SameFiles
use scopuli.Prelude.{
  Bool, Bytes, Exec, List, Option, Result, Text, [], codes, err, fail_if, gets, if◌then◌else◌,
  length, nat_eq, not, ok, pure, text_eq, true, utf8, ℕ, ◌++◌, ◌==◌, ◌>>=◌, ◌>>◌, ◌or_fail◌, ◌∷◌,
}
use scopuli.Crypto.{KdfParams}
use scopuli.Env.{Env}
use scopuli.Store.Database.{Key, Secret, StoreError, World, engine, random, statement}
use scopuli.Store.Keys.{fts_of_key}
use scopuli.Store.Secrets.{fts_of_secret}
use scopuli.Strings.Decimal.{decimal}

-- How a virtual table of FTS5 answers the probe, which depends on the schema it was made with: whether
-- it takes a row with values for its columns, and how many rows MATCH then finds for a word of it.
pub record Index : Type 0 where
  pub takes_rows : Bool
  pub matches : ℕ

-- A table that CREATE VIRTUAL TABLE makes with the columns and the tokenizer of init.
abbrev pub new_index : Index
new_index = record { takes_rows = true; matches = 1 }

-- What is on the disk: the tables, the file with the salt, the key that the database file was made
-- with, and how the two indexes answer.
pub record Disk : Type 0 where
  pub world : World
  pub salt_file : Option Bytes
  pub file_key : Option Bytes
  pub secrets_index : Index
  pub keys_index : Index

-- Why a start fails: there is no random salt, the salt cannot be written, SQLCipher finds that the
-- file has another key, the KDF panics, or a statement fails.
pub data OpenError : Type 0 where
  no_salt cannot_write wrong_key bad_kdf : OpenError
  in_store : StoreError → OpenError

abbrev pub put_world : {A : Type 0} → Disk → Result StoreError A × World → Result OpenError A × Disk
put_world d (ok a, w) = (ok a, record d { world = w })
put_world d (err e, w) = (err (in_store e), record d { world = w })

-- A method of the store, on a disk.
abbrev pub on_disk : {A : Type 0} → Exec World StoreError A → Exec Disk OpenError A
on_disk m d = put_world d (m d.world)

-- The JSON text of the KDF parameters.
unfoldable pub params_json : KdfParams → Text
unfolding decimal
params_json p =
    codes "{\"m\":"
    ++ (decimal p.memory_kib
        ++ (codes ",\"t\":"
            ++ (decimal p.iterations
                ++ (codes ",\"p\":"
                    ++ (decimal p.parallel
                        ++ (codes ",\"klen\":" ++ (decimal p.key_len ++ codes "}")))))))

abbrev pub schema_version : Bytes
schema_version = 1 ∷ []

module _ ⦃env : Env⦄ where
  -- `NewSalt`.
  unfoldable pub new_salt : Exec World StoreError Bytes
  unfolding random
  new_salt = random 16 or_fail λ _. engine

  -- The rows that init puts into an empty `meta`.
  unfoldable pub seed_meta : KdfParams → Exec World StoreError (Unit {0})
  unfolding new_salt statement params_json
  seed_meta p = do
    salt ← new_salt
    hmac_salt ← new_salt
    statement λ db. (
      tt {0},
      record db {
        meta =
            db.meta
            ++ (codes "schema_version", schema_version)
              ∷ (codes "kdf_salt", salt)
              ∷ (codes "hmac_key_salt", hmac_salt)
              ∷ [];
      },
    )
    statement λ db.
        (tt {0}, record db { meta = db.meta ++ (codes "kdf_params", utf8 (params_json p)) ∷ [] })

  -- `INSERT INTO secrets_fts` of one row each.
  unfoldable pub insert_secret_rows : List Secret → Exec World StoreError (Unit {0})
  unfolding statement
  insert_secret_rows [] = pure tt
  insert_secret_rows (sec ∷ rows) = do
    statement λ db. (tt {0}, record db { secrets_fts = db.secrets_fts ++ fts_of_secret sec ∷ [] })
    insert_secret_rows rows

  -- The same for `keys_fts`.
  unfoldable pub insert_key_rows : List Key → Exec World StoreError (Unit {0})
  unfolding statement
  insert_key_rows [] = pure tt
  insert_key_rows (k ∷ rows) = do
    statement λ db. (tt {0}, record db { keys_fts = db.keys_fts ++ fts_of_key k ∷ [] })
    insert_key_rows rows

  unfoldable pub probe_result : Result OpenError Bool × Disk → Result OpenError Bool × Disk
  probe_result (ok is_broken, d) = (ok is_broken, d)
  probe_result (err e, d) = (ok true, d)

  -- `INSERT INTO` the index, which it may refuse, and `SELECT count(*) … MATCH`, which may find none.
  unfoldable pub probe : Index → Exec Disk OpenError Bool
  unfolding statement
  probe index = do
    on_disk (statement (λ db. (tt {0}, db)))
    fail_if (not index.takes_rows) (in_store engine)
    n ← on_disk (statement (λ db. (index.matches, db)))
    pure (n == 0)

  -- `schemaIsBroken`: a probe that fails for any reason counts as broken. The probe is rolled back.
  unfoldable pub schema_is_broken : Index → Exec Disk OpenError Bool
  unfolding statement probe_result probe
  schema_is_broken index = do
    on_disk (statement (λ db. (tt {0}, db)))
    λ d. probe_result (probe index d)

  -- From the `DROP TABLE` on, the next start finds a new table, made by init if not by this one.
  abbrev pub new_secrets_table : Exec Disk OpenError (Unit {0})
  new_secrets_table d = (ok tt, record d { secrets_index = new_index })

  abbrev pub new_keys_table : Exec Disk OpenError (Unit {0})
  new_keys_table d = (ok tt, record d { keys_index = new_index })

  -- `DROP TABLE`, `CREATE VIRTUAL TABLE`, and the rows of the table again.
  unfoldable pub recreate_secrets_fts : Exec Disk OpenError (Unit {0})
  unfolding statement insert_secret_rows
  recreate_secrets_fts = do
    on_disk (statement (λ db. (tt {0}, record db { secrets_fts = [] })))
    new_secrets_table
    on_disk (statement (λ db. (tt {0}, db)))
    rows ← on_disk (statement (λ db. (db.secrets, db)))
    on_disk (insert_secret_rows rows)

  unfoldable pub recreate_keys_fts : Exec Disk OpenError (Unit {0})
  unfolding statement insert_key_rows
  recreate_keys_fts = do
    on_disk (statement (λ db. (tt {0}, record db { keys_fts = [] })))
    new_keys_table
    on_disk (statement (λ db. (tt {0}, db)))
    rows ← on_disk (statement (λ db. (db.keys, db)))
    on_disk (insert_key_rows rows)

  -- `migrate`, of the method that recreates the index.
  unfoldable pub migrate : Index → Exec Disk OpenError (Unit {0}) → Exec Disk OpenError (Unit {0})
  unfolding schema_is_broken
  migrate index recreate = do
    is_broken ← schema_is_broken index
    if is_broken then recreate else pure tt

  -- `migrateFTS5`.
  unfoldable pub migrate_fts5 : Exec Disk OpenError (Unit {0})
  unfolding migrate recreate_secrets_fts recreate_keys_fts
  migrate_fts5 = do
    old_secrets ← gets (λ d. d.secrets_index)
    migrate old_secrets recreate_secrets_fts
    old_keys ← gets (λ d. d.keys_index)
    migrate old_keys recreate_keys_fts

  -- The pragmas, the schema and the virtual tables do not change what a table holds.
  unfoldable pub prepare : Exec World StoreError (Unit {0})
  unfolding statement
  prepare = do
    statement (λ db. (tt {0}, db))
    statement (λ db. (tt {0}, db))
    statement (λ db. (tt {0}, db))
    statement (λ db. (tt {0}, db))
    statement (λ db. (tt {0}, db))

  -- The last part of `init`: the rows of an empty `meta`.
  unfoldable pub seed_if_empty : KdfParams → Exec World StoreError (Unit {0})
  unfolding statement seed_meta
  seed_if_empty p = do
    rows ← statement (λ db. (length db.meta, db))
    if rows == 0 then seed_meta p else pure tt

  -- `init`.
  unfoldable pub init_store : KdfParams → Exec Disk OpenError (Unit {0})
  unfolding prepare migrate_fts5 seed_if_empty
  init_store p = do on_disk prepare; migrate_fts5; on_disk (seed_if_empty p)
