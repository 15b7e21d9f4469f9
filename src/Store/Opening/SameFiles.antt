-- ===== src/Store/Opening/SameFiles.antt =====
-- internal/store/store.go: init works inside the database file.
use scopuli.Prelude.{
  Bool, Exec, Result, [], ap, continue, err, fail_if, false, gets, if◌then◌else◌, nat_eq, not, ok,
  pure, refl, text_eq, true, ◌==◌, ◌>>=◌, ◌∙◌, ◌≡◌,
}
use scopuli.Crypto.{KdfParams}
use scopuli.Env.{Env}
use scopuli.Store.Database.{StoreError, World, engine, statement}
use scopuli.Store.Opening.{
  Disk, Index, OpenError, in_store, init_store, insert_key_rows, insert_secret_rows, migrate,
  migrate_fts5, new_keys_table, new_secrets_table, on_disk, prepare, probe, probe_result, put_world,
  recreate_keys_fts, recreate_secrets_fts, schema_is_broken, seed_if_empty,
}

-- A method that leaves the file with the salt, and the key of the database file, as they are.
pub record SameFiles {A : Type 0} (m : Exec Disk OpenError A) : Type 0 where
  pub salt_kept : (d : Disk) → (m d).1.salt_file ≡ d.salt_file
  pub key_kept : (d : Disk) → (m d).1.file_key ≡ d.file_key

files_after :
    {A B : Type 0} (r : Result OpenError A × Disk) (f : A → Exec Disk OpenError B)
    → ((a : A) → SameFiles (f a))
    → ((continue r f).1.salt_file ≡ r.1.salt_file) × ((continue r f).1.file_key ≡ r.1.file_key)
files_after (ok a, d) f k = ((k a).salt_kept d, (k a).key_kept d)
files_after (err e, d) f k = (refl, refl)

pub SameFiles-bind :
    {A B : Type 0} (m : Exec Disk OpenError A) (f : A → Exec Disk OpenError B)
    → SameFiles m
    → ((a : A) → SameFiles (f a))
    → SameFiles (m >>= f)
SameFiles-bind m f h k = record {
  salt_kept = λ d. (files_after (m d) f k).0 ∙ h.salt_kept d;
  key_kept = λ d. (files_after (m d) f k).1 ∙ h.key_kept d;
}

pub SameFiles-pure : {A : Type 0} (a : A) → SameFiles (pure a)
SameFiles-pure a = record { salt_kept = λ d. refl; key_kept = λ d. refl }

pub SameFiles-fail_if : (b : Bool) (e : OpenError) → SameFiles (fail_if b e)
SameFiles-fail_if true e = record { salt_kept = λ d. refl; key_kept = λ d. refl }
SameFiles-fail_if false e = record { salt_kept = λ d. refl; key_kept = λ d. refl }

pub SameFiles-gets : {A : Type 0} (f : Disk → A) → SameFiles (gets f)
SameFiles-gets f = record { salt_kept = λ d. refl; key_kept = λ d. refl }

pub SameFiles-if :
    {A : Type 0} (b : Bool) (m n : Exec Disk OpenError A)
    → SameFiles m
    → SameFiles n
    → SameFiles (if b then m else n)
SameFiles-if true m n h k = h
SameFiles-if false m n h k = k

put_world_files :
    {A : Type 0} (d : Disk) (r : Result StoreError A × World)
    → ((put_world d r).1.salt_file ≡ d.salt_file) × ((put_world d r).1.file_key ≡ d.file_key)
put_world_files d (ok a, w) = (refl, refl)
put_world_files d (err e, w) = (refl, refl)

pub SameFiles-on_disk : {A : Type 0} (m : Exec World StoreError A) → SameFiles (on_disk m)
SameFiles-on_disk m = record {
  salt_kept = λ d. (put_world_files d (m d.world)).0;
  key_kept = λ d. (put_world_files d (m d.world)).1;
}

module _ ⦃env : Env⦄ where
  recreate_secrets_fts-SameFiles : SameFiles recreate_secrets_fts
  unfolding recreate_secrets_fts
  recreate_secrets_fts-SameFiles =
      SameFiles-bind (on_disk (statement (λ db. (tt {0}, record db { secrets_fts = [] })))) _
        (SameFiles-on_disk _)
        λ a.
          SameFiles-bind new_secrets_table _
            (record { salt_kept = λ d. refl; key_kept = λ d. refl })
            λ b.
              SameFiles-bind (on_disk (statement (λ db. (tt {0}, db)))) _ (SameFiles-on_disk _) λ c.
                SameFiles-bind (on_disk (statement (λ db. (db.secrets, db)))) _
                  (SameFiles-on_disk _) λ rows. SameFiles-on_disk (insert_secret_rows rows)

  recreate_keys_fts-SameFiles : SameFiles recreate_keys_fts
  unfolding recreate_keys_fts
  recreate_keys_fts-SameFiles =
      SameFiles-bind (on_disk (statement (λ db. (tt {0}, record db { keys_fts = [] })))) _
        (SameFiles-on_disk _)
        λ a.
          SameFiles-bind new_keys_table _ (record { salt_kept = λ d. refl; key_kept = λ d. refl })
            λ b.
              SameFiles-bind (on_disk (statement (λ db. (tt {0}, db)))) _ (SameFiles-on_disk _) λ c.
                SameFiles-bind (on_disk (statement (λ db. (db.keys, db)))) _ (SameFiles-on_disk _)
                  λ rows. SameFiles-on_disk (insert_key_rows rows)

  probe_files : (r : Result OpenError Bool × Disk) → (probe_result r).1 ≡ r.1
  unfolding probe_result
  probe_files (ok b, d) = refl
  probe_files (err e, d) = refl

  probe-SameFiles : (index : Index) → SameFiles (probe index)
  unfolding probe
  probe-SameFiles index =
      SameFiles-bind (on_disk (statement (λ db. (tt {0}, db)))) _ (SameFiles-on_disk _) λ a.
        SameFiles-bind (fail_if (not index.takes_rows) (in_store engine)) _
          (SameFiles-fail_if (not index.takes_rows) (in_store engine))
          λ b.
            SameFiles-bind (on_disk (statement (λ db. (index.matches, db)))) _ (SameFiles-on_disk _)
              λ n. SameFiles-pure (n == 0)

  schema_is_broken-SameFiles : (index : Index) → SameFiles (schema_is_broken index)
  unfolding schema_is_broken
  schema_is_broken-SameFiles index =
      SameFiles-bind (on_disk (statement (λ db. (tt {0}, db)))) _ (SameFiles-on_disk _) λ a.
        record {
          salt_kept = λ d.
              ap (λ e. e.salt_file) (probe_files (probe index d))
              ∙ (probe-SameFiles index).salt_kept d;
          key_kept = λ d.
              ap (λ e. e.file_key) (probe_files (probe index d))
              ∙ (probe-SameFiles index).key_kept d;
        }

  migrate-SameFiles :
      (index : Index) (m : Exec Disk OpenError (Unit {0}))
      → SameFiles m
      → SameFiles (migrate index m)
  unfolding migrate
  migrate-SameFiles index m k =
      SameFiles-bind (schema_is_broken index) _ (schema_is_broken-SameFiles index)
        λ b. SameFiles-if b m (pure tt) k (SameFiles-pure tt)

  migrate_fts5-SameFiles : SameFiles migrate_fts5
  unfolding migrate_fts5
  migrate_fts5-SameFiles = SameFiles-bind (gets (λ d. d.secrets_index)) _ (SameFiles-gets _) λ l.
      SameFiles-bind (migrate l recreate_secrets_fts) _
        (migrate-SameFiles l _ recreate_secrets_fts-SameFiles)
        λ _.
          SameFiles-bind (gets (λ d. d.keys_index)) _ (SameFiles-gets _)
            λ m. migrate-SameFiles m recreate_keys_fts recreate_keys_fts-SameFiles

  pub init_store-SameFiles : (p : KdfParams) → SameFiles (init_store p)
  unfolding init_store
  init_store-SameFiles p = SameFiles-bind (on_disk prepare) _ (SameFiles-on_disk prepare) λ a.
      SameFiles-bind migrate_fts5 _ migrate_fts5-SameFiles λ b. SameFiles-on_disk (seed_if_empty p)
