-- ===== src/Backup.antt =====
-- internal/backup/backup.go: encrypted bundles of the database file.
pub mod RoundTrip
pub mod Refusals
use scopuli.Prelude.{
  Bytes, Exec, Option, Text, [], codes, drop, err, fail_if, if◌then◌else◌, length, lift, ltb,
  nat_eq, none, of_option, ok, some, suc, take, text_eq, utf8, ℕ, ◌!=◌, ◌*◌, ◌++◌, ◌+◌, ◌==◌, ◌>>=◌,
  ◌>>◌, ◌∷◌,
}
use scopuli.Env.{Env}
use scopuli.Store.Database.{World, random}

abbrev magic : Bytes
magic = codes "SCPB"

abbrev version : ℕ
version = 0

abbrev salt_len : ℕ
salt_len = 16

abbrev nonce_len : ℕ
nonce_len = 12

abbrev key_len : ℕ
key_len = 32

abbrev memory_kib : ℕ
memory_kib = 32 * 1024

abbrev iterations : ℕ
iterations = 3

abbrev parallel : ℕ
parallel = 4

-- What a call reads from, what it has written to, and the world.
pub record Streams : Type 0 where
  pub world : World
  pub source : Bytes
  pub target : Bytes

pub data BackupError : Type 0 where
  passphrase_required no_random read_failed write_failed bad_key : BackupError
  short_header bad_magic unsupported_version not_authentic : BackupError

abbrev tick : Streams → Streams
tick f = record f { world = record f.world { events = suc f.world.events } }

module _ ⦃env : Env⦄ where
  -- `rand.Read` into a new buffer.
  unfoldable pub draw : ℕ → Exec Streams BackupError Bytes
  unfolding random
  draw n f = (of_option no_random (env.random_at f.world.events n), tick f)

  read_all_or : Option ℕ → Exec Streams BackupError Bytes
  read_all_or none f = (ok f.source, record f { source = [] })
  read_all_or (some n) f = (err read_failed, record f { source = drop n f.source })

  -- `io.ReadAll`.
  unfoldable pub read_all : Exec Streams BackupError Bytes
  unfolding read_all_or
  read_all f = read_all_or (env.io_fault_at f.world.events) (tick f)

  read_full_or : Option ℕ → ℕ → Exec Streams BackupError Bytes
  read_full_or none n f =
      if ltb (length f.source) n
      then (err short_header, record f { source = [] })
      else (ok (take n f.source), record f { source = drop n f.source })
  read_full_or (some k) n f = (err short_header, record f { source = drop k f.source })

  -- `io.ReadFull` of so many bytes.
  unfoldable pub read_full : ℕ → Exec Streams BackupError Bytes
  unfolding read_full_or
  read_full n f = read_full_or (env.io_fault_at f.world.events) n (tick f)

  write_or : Option ℕ → Bytes → Exec Streams BackupError (Unit {0})
  write_or none b f = (ok tt, record f { target = f.target ++ b })
  write_or (some k) b f = (err write_failed, record f { target = f.target ++ take k b })

  -- `dst.Write`: a call that fails may have written a part.
  unfoldable pub write : Bytes → Exec Streams BackupError (Unit {0})
  unfolding write_or
  write b f = write_or (env.io_fault_at f.world.events) b (tick f)

  -- `deriveKey`.
  unfoldable pub derive_key : Text → Bytes → Bytes
  derive_key passphrase salt =
      env.argon2id (utf8 passphrase) salt iterations memory_kib parallel key_len

  -- `Snapshot`.
  unfoldable pub snapshot : Text → Exec Streams BackupError (Unit {0})
  unfolding draw read_all write derive_key
  snapshot passphrase = do
    fail_if (passphrase == []) passphrase_required
    salt ← draw salt_len
    let derived = derive_key passphrase salt
    plain ← read_all
    fail_if (length derived != 32) bad_key
    nonce ← draw nonce_len
    let sealed = env.chacha_seal derived nonce plain magic
    write (magic ++ version ∷ (salt ++ nonce))
    write sealed

  -- `Restore`, from the header on.
  unfoldable pub restore_from : Text → Bytes → Exec Streams BackupError (Unit {0})
  unfolding read_all write derive_key
  restore_from passphrase header = do
    fail_if (take 4 header != magic) bad_magic
    fail_if (take 1 (drop 4 header) != version ∷ []) unsupported_version
    let salt = take salt_len (drop 5 header)
    let nonce = drop (5 + salt_len) header
    let derived = derive_key passphrase salt
    fail_if (length derived != 32) bad_key
    ct ← read_all
    plain ← lift (of_option not_authentic (env.chacha_open derived nonce ct magic))
    write plain

  -- `Restore`.
  unfoldable pub restore : Text → Exec Streams BackupError (Unit {0})
  unfolding read_full restore_from
  restore passphrase = do
    fail_if (passphrase == []) passphrase_required
    header ← read_full (4 + 1 + salt_len + nonce_len)
    restore_from passphrase header
