-- ===== src/Examples/Startup.antt =====
-- Starts of the server, and the table of secrets as a map.
use scopuli.Prelude.{
  Text, Bytes, List, [], codes, false, none, ok, refl, replicate, some, ℕ, ◌∷◌, ◌≡◌,
}
use scopuli.Auth.{authenticate, operator_principal}
use scopuli.Serve.{bootstrap_first_boot, primary}
use scopuli.Serve.FirstBoot.{authenticate-bootstrap_first_boot}
use scopuli.Store.Operators.{is_fresh}
use scopuli.Examples.World.{demo_delivers, demo_env, demo_no_faults, empty_world}
use scopuli.Store.Database.{Operator, Secret, World}
use scopuli.Store.Opening.{Index, new_index, Disk, migrate_fts5}
use scopuli.Store.Opening.Migration.{migrate_fts5-reindexed, reindexed}
use scopuli.Store.Secrets.Vault.{Call, delete_call, get_call, put_call, replay, run, view}
use scopuli.Store.Secrets.Vault.Refines.{run_refines}
use scopuli.Store.Startup.Restart.{stretched}

-- An index that takes no row.
abbrev refusing : Index
refusing = record { takes_rows = false; matches = 0 }

-- A disk with nothing in the tables, and such an index of secrets.
abbrev old_disk : Disk
old_disk = record {
  world = empty_world;
  salt_file = none;
  file_key = none;
  secrets_index = refusing;
  keys_index = new_index;
}

abbrev stored_secret : Secret
stored_secret = record {
  id = 1;
  path = codes "prod/a";
  label = none;
  ciphertext = [];
  nonce = [];
  aad = [];
  tags = [];
  description = codes "first";
  metadata = codes "{}";
  created_at = 5;
  updated_at = 5;
  description_updated_at = some 5;
  metadata_updated_at = none;
  version = 1;
}

abbrev used_world : World
used_world = record empty_world { db = record empty_world.db { secrets = stored_secret ∷ [] } }

abbrev used_disk : Disk
used_disk = record old_disk { world = used_world }

migrate_fts5-reindexed_example : (n : ℕ) × (migrate_fts5 used_disk ≡ (ok tt, reindexed used_disk n))
migrate_fts5-reindexed_example = migrate_fts5-reindexed used_disk demo_no_faults

abbrev demo_calls : List Call
demo_calls =
    put_call (record stored_secret { path = codes "prod/b" })
    ∷ delete_call (codes "prod/a")
    ∷ get_call (codes "prod/a")
    ∷ get_call (codes "prod/b")
    ∷ []

run_refines_example :
    ((run demo_calls used_world).0 ≡ (replay demo_calls (view used_world)).0)
    × (view (run demo_calls used_world).1 ≡ (replay demo_calls (view used_world)).1)
run_refines_example = run_refines demo_calls used_world demo_no_faults (tt, tt)

abbrev fresh_disk : Disk
fresh_disk = record old_disk { secrets_index = new_index }

abbrev first_key : Bytes
first_key = stretched (codes "secret") (replicate 16 1)

authenticate-bootstrap_first_boot_example :
    (tok : Text) × (op : Operator) × ((bootstrap_first_boot empty_world).0 ≡ ok tok)
    × (op.name ≡ primary)
    × ((u : World)
        → u.db ≡ (bootstrap_first_boot empty_world).1.db
        → ((is_fresh u).0 ≡ ok false)
          × ((key_header : Text)
              → (authenticate (record { operator_header = tok; key_header = key_header }) u).0
                ≡ ok (operator_principal op)))
authenticate-bootstrap_first_boot_example =
    authenticate-bootstrap_first_boot empty_world demo_no_faults demo_delivers refl
