-- ===== src/Store/Opening/Migration.antt =====
-- internal/store/store.go: migrateFTS5 while the engine does not fail.
use scopuli.Prelude.{
  refl, Bool, Bool-cases, List, [], ap, append-nil, append_assoc, arith, continue_ok, false,
  if◌then◌else◌, inl, inr, length, map, nat_eq, ok, suc, text_eq, true, ℕ, ◌++◌, ◌+◌, ◌==◌, ◌∙◌,
  ◌∷◌, ◌≡◌,
}
use scopuli.Env.{Env}
use scopuli.Store.Database.{Key, Secret, World, statement}
use scopuli.Store.Keys.{fts_of_key}
use scopuli.Store.Opening.{
  Disk, Index, insert_key_rows, insert_secret_rows, migrate, migrate_fts5, new_index, probe,
  probe_result, recreate_keys_fts, recreate_secrets_fts, schema_is_broken,
}
use scopuli.Store.Secrets.{fts_of_secret}
use scopuli.Store.Secrets.Healthy.{NoFaults}
use scopuli.Store.Secrets.Vault.{run}

module _ ⦃env : Env⦄ where
  insert_secret_rows_total :
      (rows : List Secret) (w : World)
      → NoFaults
      → insert_secret_rows rows w ≡ (
        ok tt,
        record w {
          db = record w.db { secrets_fts = w.db.secrets_fts ++ map fts_of_secret rows };
          events = length rows + w.events;
        },
      )
  unfolding insert_secret_rows statement
  insert_secret_rows_total [] w h =
      let none_yet : 0 + w.events ≡ w.events = omega arith in
      rw (append-nil w.db.secrets_fts, none_yet)
  insert_secret_rows_total (sec ∷ rows) w h =
      let next = record w {
        db = record w.db { secrets_fts = w.db.secrets_fts ++ fts_of_secret sec ∷ [] };
        events = suc w.events;
      } in
      let shift : length rows + suc w.events ≡ suc (length rows) + w.events = omega arith in
      rw (
        h w.events,
        insert_secret_rows_total rows next h,
        shift,
        append_assoc w.db.secrets_fts (fts_of_secret sec ∷ []) (map fts_of_secret rows),
      )

  insert_key_rows_total :
      (rows : List Key) (w : World)
      → NoFaults
      → insert_key_rows rows w ≡ (
        ok tt,
        record w {
          db = record w.db { keys_fts = w.db.keys_fts ++ map fts_of_key rows };
          events = length rows + w.events;
        },
      )
  unfolding insert_key_rows statement
  insert_key_rows_total [] w h =
      let none_yet : 0 + w.events ≡ w.events = omega arith in
      rw (append-nil w.db.keys_fts, none_yet)
  insert_key_rows_total (k ∷ rows) w h =
      let next = record w {
        db = record w.db { keys_fts = w.db.keys_fts ++ fts_of_key k ∷ [] };
        events = suc w.events;
      } in
      let shift : length rows + suc w.events ≡ suc (length rows) + w.events = omega arith in
      rw (
        h w.events,
        insert_key_rows_total rows next h,
        shift,
        append_assoc w.db.keys_fts (fts_of_key k ∷ []) (map fts_of_key rows),
      )

  recreate_secrets_fts_total :
      (d : Disk)
      → NoFaults
      → recreate_secrets_fts d ≡ (
        ok tt,
        record d {
          world = record d.world {
            db = record d.world.db { secrets_fts = map fts_of_secret d.world.db.secrets };
            events = length d.world.db.secrets + suc (suc (suc d.world.events));
          };
          secrets_index = new_index;
        },
      )
  unfolding recreate_secrets_fts statement
  recreate_secrets_fts_total d h =
      let e = d.world.events in
      rw (
        h e,
        h (suc e),
        h (suc (suc e)),
        insert_secret_rows_total d.world.db.secrets
            (record d.world {
              db = record d.world.db { secrets_fts = [] };
              events = suc (suc (suc e));
            })
            h,
      )

  recreate_keys_fts_total :
      (d : Disk)
      → NoFaults
      → recreate_keys_fts d ≡ (
        ok tt,
        record d {
          world = record d.world {
            db = record d.world.db { keys_fts = map fts_of_key d.world.db.keys };
            events = length d.world.db.keys + suc (suc (suc d.world.events));
          };
          keys_index = new_index;
        },
      )
  unfolding recreate_keys_fts statement
  recreate_keys_fts_total d h =
      let e = d.world.events in
      rw (
        h e,
        h (suc e),
        h (suc (suc e)),
        insert_key_rows_total d.world.db.keys
            (record d.world {
              db = record d.world.db { keys_fts = [] };
              events = suc (suc (suc e));
            })
            h,
      )

  -- The probe finds a fault: the index refuses the row, or MATCH does not find it.
  abbrev pub fails_probe : Index → Bool
  fails_probe index = if index.takes_rows then index.matches == 0 else true

  schema_is_broken_total :
      (index : Index) (d : Disk)
      → NoFaults
      → (n : ℕ) × (schema_is_broken index d
          ≡ (ok (fails_probe index), record d { world = record d.world { events = n } }))
  unfolding schema_is_broken statement probe_result probe
  schema_is_broken_total index d h =
      let e = d.world.events in
      elim (Bool-cases index.takes_rows) [
        | inl t ↦ (suc (suc (suc e)), rw (h e, h (suc e), t, h (suc (suc e))))
        | inr t ↦ (suc (suc e), rw (h e, h (suc e), t))
      ]

  -- The table and the index after `migrate`.
  abbrev migrated_secrets : Bool → Disk → ℕ → Disk
  migrated_secrets true d n = record d {
    world = record {
      db = record d.world.db { secrets_fts = map fts_of_secret d.world.db.secrets };
      events = n;
    };
    secrets_index = new_index;
  }
  migrated_secrets false d n = record d { world = record d.world { events = n } }

  migrate_secrets :
      (d : Disk)
      → NoFaults
      → (n : ℕ) × (migrate d.secrets_index recreate_secrets_fts d
          ≡ (ok tt, migrated_secrets (fails_probe d.secrets_index) d n))
  unfolding migrate
  migrate_secrets d h =
      let (n, run) = schema_is_broken_total d.secrets_index d h in
      elim (Bool-cases (fails_probe d.secrets_index)) [
        | inl e ↦ (
          length d.world.db.secrets + suc (suc (suc n)),
          rw (
            run,
            e,
            recreate_secrets_fts_total (record d { world = record d.world { events = n } }) h,
          ),
        )
        | inr e ↦ (n, rw (run, e))
      ]

  -- The table and the index after `migrate`.
  abbrev migrated_keys : Bool → Disk → ℕ → Disk
  migrated_keys true d n = record d {
    world = record {
      db = record d.world.db { keys_fts = map fts_of_key d.world.db.keys };
      events = n;
    };
    keys_index = new_index;
  }
  migrated_keys false d n = record d { world = record d.world { events = n } }

  migrate_keys :
      (d : Disk)
      → NoFaults
      → (n : ℕ) × (migrate d.keys_index recreate_keys_fts d
          ≡ (ok tt, migrated_keys (fails_probe d.keys_index) d n))
  unfolding migrate
  migrate_keys d h =
      let (n, run) = schema_is_broken_total d.keys_index d h in
      elim (Bool-cases (fails_probe d.keys_index)) [
        | inl e ↦ (
          length d.world.db.keys + suc (suc (suc n)),
          rw (
            run,
            e,
            recreate_keys_fts_total (record d { world = record d.world { events = n } }) h,
          ),
        )
        | inr e ↦ (n, rw (run, e))
      ]

  -- What migrateFTS5 leaves on the disk.
  abbrev pub reindexed : Disk → ℕ → Disk
  reindexed d n = record d {
    world = record {
      db = record d.world.db {
        secrets_fts =
            if fails_probe d.secrets_index
            then map fts_of_secret d.world.db.secrets
            else d.world.db.secrets_fts;
        keys_fts =
            if fails_probe d.keys_index
            then map fts_of_key d.world.db.keys
            else d.world.db.keys_fts;
      };
      events = n;
    };
    secrets_index = if fails_probe d.secrets_index then new_index else d.secrets_index;
    keys_index = if fails_probe d.keys_index then new_index else d.keys_index;
  }

  both_reindexed :
      (b : Bool) (d : Disk) (n m : ℕ)
      → fails_probe d.secrets_index ≡ b
      → migrated_keys (fails_probe (migrated_secrets b d n).keys_index) (migrated_secrets b d n) m
        ≡ reindexed d m
  both_reindexed true d n m h = elim (Bool-cases (fails_probe d.keys_index)) [
    | inl e ↦ rw (h, e)
    | inr e ↦ rw (h, e)
  ]
  both_reindexed false d n m h = elim (Bool-cases (fails_probe d.keys_index)) [
    | inl e ↦ rw (h, e)
    | inr e ↦ rw (h, e)
  ]

  -- While the engine does not fail, migrateFTS5 succeeds. An index that refuses the row of the probe,
  -- or in which MATCH does not find that row, is made again, and then holds the entry of every row of
  -- its table, in their order. An index that passes the probe stays as it is, whatever made it, and so
  -- do every other table, the salt and the key of the file.
  pub migrate_fts5-reindexed :
      (d : Disk) → NoFaults → (n : ℕ) × (migrate_fts5 d ≡ (ok tt, reindexed d n))
  unfolding migrate_fts5
  migrate_fts5-reindexed d h =
      let (n, first) = migrate_secrets d h in
      let e = migrated_secrets (fails_probe d.secrets_index) d n in
      let (m, second) = migrate_keys e h in
      (
        m,
        continue_ok (migrate d.secrets_index recreate_secrets_fts d) _ first
            ∙ second
            ∙ ap (λ x. (ok tt, x)) (both_reindexed _ d n m refl),
      )
