-- ===== src/Store/Opening/Total.antt =====
-- internal/store/store.go: while the engine and the random source work, init succeeds.
use scopuli.Prelude.{
  Bool, Exec, List, Result, [], codes, continue-ok, err, false, gets, if◌then◌else◌, length, nat_eq,
  ok, pure, refl, text_eq, true, ◌++◌, ◌==◌, ◌>>=◌, ◌∷◌, ◌≡◌,
}
use scopuli.Crypto.{KdfParams}
use scopuli.Env.{Delivers, Env}
use scopuli.Store.Database.{Database, Key, Secret, StoreError, World, random, statement}
use scopuli.Store.Keys.{fts_of_key}
use scopuli.Store.Opening.{
  Disk, Index, OpenError, init_store, insert_key_rows, insert_secret_rows, migrate, migrate_fts5,
  new_keys_table, new_salt, new_secrets_table, on_disk, prepare, probe, probe_result, put_world,
  recreate_keys_fts, recreate_secrets_fts, schema_is_broken, schema_version, seed_if_empty,
  seed_meta,
}
use scopuli.Store.Secrets.{fts_of_secret}
use scopuli.Store.Secrets.Healthy.{NoFaults}

-- A method that succeeds from any state.
pub record Total {S E A : Type 0} (m : Exec S E A) : Type 0 where
  pub total : (s : S) → (a : A) × ((m s).0 ≡ ok a)

pub Total-bind :
    {S E A B : Type 0} (m : Exec S E A) (f : A → Exec S E B)
    → Total m
    → ((a : A) → Total (f a))
    → Total (m >>= f)
Total-bind m f h k = record {
  total = λ s.
      let (a, e) = h.total s in
      let (b, g) = (k a).total (m s).1 in (b, rw (continue-ok (m s) f e) g);
}

pub Total-pure : {S E A : Type 0} (a : A) → Total {S = S} {E = E} (pure a)
Total-pure a = record { total = λ s. (a, refl) }

pub Total-if :
    {S E A : Type 0} (b : Bool) (m n : Exec S E A) → Total m → Total n → Total (if b then m else n)
Total-if true m n h k = h
Total-if false m n h k = k

put_world_ok :
    {A : Type 0} (d : Disk) (r : Result StoreError A × World) (a : A)
    → r.0 ≡ ok a
    → (put_world d r).0 ≡ ok a
put_world_ok d r a e = rw e

pub Total-on_disk : {A : Type 0} (m : Exec World StoreError A) → Total m → Total (on_disk m)
Total-on_disk m h = record {
  total = λ d. let (a, e) = h.total d.world in (a, put_world_ok d (m d.world) a e);
}

pub Total-gets : {S E A : Type 0} (f : S → A) → Total {S = S} {E = E} (gets f)
Total-gets f = record { total = λ s. (f s, refl) }

module _ ⦃env : Env⦄ (h : NoFaults) where
  pub Total-statement : {A : Type 0} (f : Database → A × Database) → Total (statement f)
  unfolding statement
  Total-statement f = record { total = λ w. ((f w.db).0, rw (h w.events)) }

  disk_statement : {A : Type 0} (f : Database → A × Database) → Total (on_disk (statement f))
  disk_statement f = Total-on_disk (statement f) (Total-statement f)

  insert_secret_rows-Total : (rows : List Secret) → Total (insert_secret_rows rows)
  unfolding insert_secret_rows
  insert_secret_rows-Total [] = Total-pure tt
  insert_secret_rows-Total (sec ∷ rows) =
      Total-bind
        (statement
          (λ db. (tt {0}, record db { secrets_fts = db.secrets_fts ++ fts_of_secret sec ∷ [] })))
        _ (Total-statement _) λ u. insert_secret_rows-Total rows

  insert_key_rows-Total : (rows : List Key) → Total (insert_key_rows rows)
  unfolding insert_key_rows
  insert_key_rows-Total [] = Total-pure tt
  insert_key_rows-Total (k ∷ rows) =
      Total-bind
        (statement (λ db. (tt {0}, record db { keys_fts = db.keys_fts ++ fts_of_key k ∷ [] }))) _
        (Total-statement _) λ u. insert_key_rows-Total rows

  recreate_secrets_fts-Total : Total recreate_secrets_fts
  unfolding recreate_secrets_fts
  recreate_secrets_fts-Total =
      Total-bind (on_disk (statement (λ db. (tt {0}, record db { secrets_fts = [] })))) _
        (disk_statement _)
        λ a.
          Total-bind new_secrets_table _ (record { total = λ d. (tt, refl) })
            λ b. Total-bind (on_disk (statement (λ db. (tt {0}, db)))) _ (disk_statement _) λ c.
              Total-bind (on_disk (statement (λ db. (db.secrets, db)))) _ (disk_statement _)
                λ rows. Total-on_disk (insert_secret_rows rows) (insert_secret_rows-Total rows)

  recreate_keys_fts-Total : Total recreate_keys_fts
  unfolding recreate_keys_fts
  recreate_keys_fts-Total =
      Total-bind (on_disk (statement (λ db. (tt {0}, record db { keys_fts = [] })))) _
        (disk_statement _)
        λ a.
          Total-bind new_keys_table _ (record { total = λ d. (tt, refl) })
            λ b. Total-bind (on_disk (statement (λ db. (tt {0}, db)))) _ (disk_statement _) λ c.
              Total-bind (on_disk (statement (λ db. (db.keys, db)))) _ (disk_statement _)
                λ rows. Total-on_disk (insert_key_rows rows) (insert_key_rows-Total rows)

  probe_ends : (r : Result OpenError Bool × Disk) → (b : Bool) × ((probe_result r).0 ≡ ok b)
  unfolding probe_result
  probe_ends (ok b, d) = (b, refl)
  probe_ends (err e, d) = (true, refl)

  schema_is_broken-Total : (index : Index) → Total (schema_is_broken index)
  unfolding schema_is_broken
  schema_is_broken-Total index =
      Total-bind (on_disk (statement (λ db. (tt {0}, db)))) _ (disk_statement _)
        λ a. record { total = λ d. probe_ends (probe index d) }

  migrate-Total :
      (index : Index) (m : Exec Disk OpenError (Unit {0})) → Total m → Total (migrate index m)
  unfolding migrate
  migrate-Total index m k =
      Total-bind (schema_is_broken index) _ (schema_is_broken-Total index)
        λ b. Total-if b m (pure tt) k (Total-pure tt)

  migrate_fts5-Total : Total migrate_fts5
  unfolding migrate_fts5
  migrate_fts5-Total = Total-bind (gets (λ d. d.secrets_index)) _ (Total-gets _) λ l.
      Total-bind (migrate l recreate_secrets_fts) _ (migrate-Total l _ recreate_secrets_fts-Total)
        λ _.
          Total-bind (gets (λ d. d.keys_index)) _ (Total-gets _)
            λ m. migrate-Total m recreate_keys_fts recreate_keys_fts-Total

  prepare-Total : Total prepare
  unfolding prepare
  prepare-Total =
      let id_step = statement (λ db. (tt {0}, db)) in
      Total-bind id_step _ (Total-statement _) λ a. Total-bind id_step _ (Total-statement _) λ b.
        Total-bind id_step _ (Total-statement _)
          λ c. Total-bind id_step _ (Total-statement _) λ d. Total-statement _

  module _ (g : Delivers) where
    new_salt-Total : Total new_salt
    unfolding new_salt random
    new_salt-Total = record { total = λ w. let (b, e) = g w.events 16 in (b, rw e) }

    seed_meta-Total : (p : KdfParams) → Total (seed_meta p)
    unfolding seed_meta
    seed_meta-Total p = Total-bind new_salt _ new_salt-Total λ salt.
        Total-bind new_salt _ new_salt-Total λ hmac_salt.
          Total-bind
            (statement (λ db. (
              tt {0},
              record db {
                meta =
                    db.meta
                    ++ (codes "schema_version", schema_version)
                      ∷ (codes "kdf_salt", salt)
                      ∷ (codes "hmac_key_salt", hmac_salt)
                      ∷ [];
              },
            )))
            _ (Total-statement _) λ c. Total-statement _

    seed_if_empty-Total : (p : KdfParams) → Total (seed_if_empty p)
    unfolding seed_if_empty
    seed_if_empty-Total p =
        Total-bind (statement (λ db. (length db.meta, db))) _ (Total-statement _)
          λ n. Total-if (n == 0) (seed_meta p) (pure tt) (seed_meta-Total p) (Total-pure tt)

    pub init_store-Total : (p : KdfParams) → Total (init_store p)
    unfolding init_store
    init_store-Total p = Total-bind (on_disk prepare) _ (Total-on_disk prepare prepare-Total) λ a.
        Total-bind migrate_fts5 _ migrate_fts5-Total
          λ b. Total-on_disk (seed_if_empty p) (seed_if_empty-Total p)
