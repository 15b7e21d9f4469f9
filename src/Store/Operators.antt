-- ===== src/Store/Operators.antt =====
-- internal/store/operators.go, and the meta table of internal/store/store.go.
use scopuli.Prelude.{
  Bool, Bytes, Exec, List, Option, Text, [], codes, if◌then◌else◌, lift, map, nat_eq, none, not,
  of_option, pure, some, text_eq, ℕ, ◌++◌, ◌==◌, ◌>>=◌, ◌∷◌,
}
use scopuli.Env.{Env}
use scopuli.Store.Database.{
  Database, Operator, StoreError, World, engine, next_id, not_found, now, statement,
}
use scopuli.Store.Keys.{is_some}

unfoldable pub operator_hashed : Text → List Operator → Option Operator
operator_hashed hash [] = none
operator_hashed hash (o ∷ rows) = if o.hash == hash then some o else operator_hashed hash rows

unfoldable pub operator_named : Text → List Operator → Option Operator
operator_named name [] = none
operator_named name (o ∷ rows) = if o.name == name then some o else operator_named name rows

unfoldable pub update_operators : ℕ → (Operator → Operator) → List Operator → List Operator
update_operators i f [] = []
update_operators i f (o ∷ rows) = (if o.id == i then f o else o) ∷ update_operators i f rows

abbrev pub operator_ids : List Operator → List ℕ
operator_ids rows = map (λ o. o.id) rows

-- `INSERT INTO operators`: refused if the name is taken.
unfoldable pub insert_operator : Operator → Database → Option ℕ × Database
unfolding next_id
insert_operator o db =
    let i = next_id (operator_ids db.operators) in
    elim (operator_named o.name db.operators) [
      | none ↦ (
        some i,
        record db { operators = db.operators ++ record o { id = i; last_used_at = none } ∷ [] },
      )
      | some row ↦ (none, db)
    ]

-- `INSERT OR REPLACE INTO meta`
unfoldable pub replace_meta : Text → Bytes → List (Text × Bytes) → List (Text × Bytes)
replace_meta k v [] = (k, v) ∷ []
replace_meta k v ((j, w) ∷ rows) =
    let rest = replace_meta k v rows in if j == k then (k, v) ∷ rows else (j, w) ∷ rest

unfoldable pub meta_at : Text → List (Text × Bytes) → Option Bytes
meta_at k [] = none
meta_at k ((j, w) ∷ rows) = if j == k then some w else meta_at k rows

abbrev pub first_boot_done : Text
first_boot_done = codes "first_boot_done"

module _ ⦃env : Env⦄ where
  -- `CreateOperator`. The number of the row is the result.
  unfoldable pub create_operator : Operator → Exec World StoreError ℕ
  unfolding statement insert_operator
  create_operator o = do inserted ← statement (insert_operator o); lift (of_option engine inserted)

  -- `GetOperatorByHash`.
  unfoldable pub get_operator_by_hash : Text → Exec World StoreError Operator
  unfolding statement
  get_operator_by_hash hash = do
    row ← statement (λ db. (operator_hashed hash db.operators, db))
    lift (of_option not_found row)

  -- `GetOperatorByName`.
  unfoldable pub get_operator_by_name : Text → Exec World StoreError Operator
  unfolding statement
  get_operator_by_name name = do
    row ← statement (λ db. (operator_named name db.operators, db))
    lift (of_option not_found row)

  -- `UpdateOperatorHash`.
  unfoldable pub update_operator_hash : ℕ → Text → Text → Exec World StoreError (Unit {0})
  unfolding statement update_operators
  update_operator_hash i new_hash new_prefix = statement λ db. (
    tt {0},
    record db {
      operators =
          update_operators i (λ o. record o { hash = new_hash; prefix = new_prefix }) db.operators;
    },
  )

  -- `TouchOperatorLastUsed`.
  unfoldable pub touch_operator_last_used : ℕ → Exec World StoreError (Unit {0})
  unfolding statement now update_operators
  touch_operator_last_used i = do
    t ← now
    statement λ db. (
      tt {0},
      record db {
        operators = update_operators i (λ o. record o { last_used_at = some t }) db.operators;
      },
    )

  -- `GetMeta`.
  unfoldable pub get_meta : Text → Exec World StoreError Bytes
  unfolding statement
  get_meta k = do v ← statement (λ db. (meta_at k db.meta, db)); lift (of_option not_found v)

  -- `SetMeta`.
  unfoldable pub set_meta : Text → Bytes → Exec World StoreError (Unit {0})
  unfolding statement replace_meta
  set_meta k v = statement λ db. (tt {0}, record db { meta = replace_meta k v db.meta })

  -- `IsFresh`.
  unfoldable pub is_fresh : Exec World StoreError Bool
  unfolding statement meta_at
  is_fresh = do v ← statement (λ db. (meta_at first_boot_done db.meta, db)); pure (not (is_some v))

  -- `MarkFirstBootDone`.
  unfoldable pub mark_first_boot_done : Exec World StoreError (Unit {0})
  unfolding set_meta
  mark_first_boot_done = set_meta first_boot_done (1 ∷ [])
