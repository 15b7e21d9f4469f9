-- ===== src/Store/Database.antt =====
-- The tables of internal/store/store.go, and what a statement, a transaction and a clock reading do
-- to the state. A table is the list of its rows in the order of their numbers.
use scopuli.Prelude.{
  Bytes, Exec, List, Option, Result, Text, [], err, if◌then◌else◌, ltb, of_option, ok, pure, suc, ℕ,
  ℤ, ◌/◌, ◌>>=◌, ◌>>◌, ◌∷◌,
}
use scopuli.Env.{Env}

-- A row of `secrets`, and the struct `Secret`. `version` is the bit pattern of the int64.
pub record Secret : Type 0 where
  pub id : ℕ
  pub path : Text
  pub label : Option Text
  pub ciphertext : Bytes
  pub nonce : Bytes
  pub aad : Bytes
  pub tags : Text
  pub description : Text
  pub metadata : Text
  pub created_at : ℕ
  pub updated_at : ℕ
  pub description_updated_at : Option ℕ
  pub metadata_updated_at : Option ℕ
  pub version : ℕ

-- A row of `keys`, and the struct `Key`.
pub record Key : Type 0 where
  pub id : ℕ
  pub name : Text
  pub hash : Text
  pub prefix : Text
  pub scope : Text
  pub permissions : Text
  pub tags : Text
  pub description : Text
  pub metadata : Text
  pub created_at : ℕ
  pub expires_at : Option ℤ
  pub revoked_at : Option ℕ
  pub last_used_at : Option ℕ
  pub description_updated_at : Option ℕ
  pub metadata_updated_at : Option ℕ

-- A row of `operators`, and the struct `Operator`.
pub record Operator : Type 0 where
  pub id : ℕ
  pub name : Text
  pub hash : Text
  pub prefix : Text
  pub created_at : ℕ
  pub last_used_at : Option ℕ

-- A row of `audit`.
pub record AuditRow : Type 0 where
  pub id : ℕ
  pub ts : ℕ
  pub actor_kind : Text
  pub actor_id : ℕ
  pub action : Text
  pub path : Option Text
  pub result : Text
  pub prev_hash : Bytes
  pub hash : Bytes
  pub hmac : Bytes

-- A row of `secrets_fts` or `keys_fts`: its number and its three columns.
abbrev pub FtsRow : Type 0
FtsRow = ℕ × Text × Text × Text

pub record Database : Type 0 where
  pub meta : List (Text × Bytes)
  pub operators : List Operator
  pub secrets : List Secret
  pub keys : List Key
  pub audit : List AuditRow
  pub secrets_fts : List FtsRow
  pub keys_fts : List FtsRow

-- The database, and the number of the next event outside the program.
pub record World : Type 0 where
  pub db : Database
  pub events : ℕ

-- `ErrNotFound`, `ErrAlreadyExists`, and any other error of the engine.
pub data StoreError : Type 0 where
  not_found already_exists engine : StoreError

-- The number that SQLite gives a new row: one more than the largest in use.
unfoldable pub next_id : List ℕ → ℕ
next_id [] = 1
next_id (i ∷ ids) = let rest = next_id ids in if ltb i rest then rest else suc i

unfoldable pub roll_back :
    {A : Type 0} → Database → Result StoreError A × World → Result StoreError A × World
roll_back db (ok a, w) = (ok a, w)
roll_back db (err e, w) = (err e, record w { db = db })

module _ ⦃env : Env⦄ where
  -- One statement: it fails as a whole, or it changes the database and returns a value.
  unfoldable pub statement : {A : Type 0} → (Database → A × Database) → Exec World StoreError A
  statement f w =
      if env.fault_at w.events
      then (err engine, record w { events = suc w.events })
      else (ok (f w.db).0, record w { db = (f w.db).1; events = suc w.events })

  -- `BeginTx`, the body, `Commit`, and the deferred `Rollback`.
  unfoldable pub transaction : {A : Type 0} → Exec World StoreError A → Exec World StoreError A
  unfolding statement roll_back
  transaction m w =
      roll_back w.db
        ((do statement (λ db. (tt {0}, db)); a ← m; statement (λ db. (tt {0}, db)); pure a) w)

  -- `time.Now()`.
  unfoldable pub time_now : {E : Type 0} → Exec World E ℕ
  time_now w = (ok (env.time_at w.events), record w { events = suc w.events })

  -- `time.Now().UnixMilli()`, and `now()` of store.go.
  unfoldable pub now : {E : Type 0} → Exec World E ℕ
  unfolding time_now
  now = do t ← time_now; pure (t / 1000000)

  -- `rand.Read` of so many bytes.
  unfoldable pub random : ℕ → Exec World (Unit {0}) Bytes
  random n w = (of_option tt (env.random_at w.events n), record w { events = suc w.events })
