-- ===== src/Store/Startup/Restart.antt =====
-- internal/store/store.go: the server that starts again.
use scopuli.Prelude.{Bytes, Text, text_eq, utf8, ◌*◌}
use scopuli.Env.{Env}

module _ ⦃env : Env⦄ where
  -- The key that a password and a salt give.
  abbrev pub stretched : Text → Bytes → Bytes
  stretched password salt = env.argon2id (utf8 password) salt 3 (64 * 1024) 4 32
