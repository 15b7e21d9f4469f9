-- ===== src/Store/Startup.antt =====
-- internal/store/store.go: opening the database file, and the file with the salt beside it.
pub mod Restart
use scopuli.Prelude.{
  Bool, Bytes, Exec, Option, Text, err, fail_if, gets, if◌then◌else◌, length, lift, nat_eq, none,
  not, of_option, ok, pure, some, suc, take, text_eq, true, ℕ, ◌==◌, ◌>>=◌, ◌>>◌, ◌or_fail◌,
}
use scopuli.Audit.{bytes_equal}
use scopuli.Crypto.{KdfParams, default_kdf_params, derive_kek}
use scopuli.Env.{Env}
use scopuli.Store.Database.{statement}
use scopuli.Store.Opening.{
  Disk, OpenError, bad_kdf, cannot_write, init_store, no_salt, on_disk, wrong_key,
}

abbrev pub tick : Disk → Disk
tick d = record d { world = record d.world { events = suc d.world.events } }

-- The content that is taken as the salt: sixteen bytes.
unfoldable pub usable_salt : Option Bytes → Option Bytes
usable_salt none = none
usable_salt (some b) = if length b == 16 then some b else none

-- SQLCipher's test of a key against the file, if there is one already.
unfoldable pub fits_file : Bytes → Option Bytes → Bool
fits_file kek none = true
fits_file kek (some k) = bytes_equal kek k

module _ ⦃env : Env⦄ where
  unfoldable pub read_file_or : Option ℕ → Disk → Option Bytes
  read_file_or none d = d.salt_file
  read_file_or (some n) d = none

  -- `os.ReadFile` of the salt; any error is no content.
  unfoldable pub read_salt : Exec Disk OpenError (Option Bytes)
  unfolding read_file_or
  read_salt d = (ok (read_file_or (env.io_fault_at d.world.events) d), tick d)

  unfoldable pub make_dir_or : Option ℕ → Exec Disk OpenError (Unit {0})
  make_dir_or none d = (ok tt, d)
  make_dir_or (some n) d = (err cannot_write, d)

  -- `os.MkdirAll` of the directory.
  unfoldable pub make_dir : Exec Disk OpenError (Unit {0})
  unfolding make_dir_or
  make_dir d = make_dir_or (env.io_fault_at d.world.events) (tick d)

  unfoldable pub write_file_or : Option ℕ → Bytes → Exec Disk OpenError (Unit {0})
  write_file_or none b d = (ok tt, record d { salt_file = some b })
  write_file_or (some n) b d = (err cannot_write, record d { salt_file = some (take n b) })

  -- `os.WriteFile` of the salt: a call that fails may leave a part.
  unfoldable pub write_salt : Bytes → Exec Disk OpenError (Unit {0})
  unfolding write_file_or
  write_salt b d = write_file_or (env.io_fault_at d.world.events) b (tick d)

  -- `rand.Read` of sixteen bytes.
  unfoldable pub draw_salt : Exec Disk OpenError Bytes
  draw_salt d = (of_option no_salt (env.random_at d.world.events 16), tick d)

  unfoldable pub salt_or : Option Bytes → Exec Disk OpenError Bytes
  unfolding draw_salt make_dir write_salt
  salt_or (some b) = pure b
  salt_or none = do buf ← draw_salt; make_dir; write_salt buf; pure buf

  -- `LoadOrCreateSalt`.
  unfoldable pub load_or_create_salt : Exec Disk OpenError Bytes
  unfolding read_salt usable_salt salt_or
  load_or_create_salt = do content ← read_salt; salt_or (usable_salt content)

  -- The database file, from now on made with this key.
  abbrev pub connect : Bytes → Exec Disk OpenError (Unit {0})
  connect kek d = (ok tt, record d { file_key = some kek })

  -- `Open`: the ping, with the test of the key, and `init`.
  unfoldable pub open_database : Bytes → KdfParams → Exec Disk OpenError (Unit {0})
  unfolding statement fits_file init_store
  open_database kek p = do
    on_disk (statement (λ db. (tt {0}, db)))
    known ← gets (λ d. d.file_key)
    fail_if (not (fits_file kek known)) wrong_key
    connect kek
    init_store p

  -- `OpenWithMasterPassword`, which hands out the key.
  unfoldable pub open_with_master_password : Text → Exec Disk OpenError Bytes
  unfolding load_or_create_salt derive_kek open_database
  open_with_master_password password = do
    salt ← load_or_create_salt
    kek ← lift (derive_kek password salt default_kdf_params) or_fail λ _. bad_kdf
    open_database kek default_kdf_params
    pure kek
