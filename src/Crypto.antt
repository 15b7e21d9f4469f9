-- ===== src/Crypto.antt =====
-- internal/crypto: sealing with AES-256-GCM, the additional data of a secret, and key derivation.
pub mod RoundTrip
use scopuli.Prelude.{
  Bytes, Exec, Result, Text, [], drop, err, fail_if, if◌then◌else◌, length, ltb, nat_eq, of_option,
  ok, pure, take, text_eq, utf8, ℕ, ◌!=◌, ◌%◌, ◌*◌, ◌++◌, ◌+◌, ◌/◌, ◌>>=◌, ◌>>◌, ◌^◌, ◌or_fail◌,
  ◌||◌, ◌∷◌,
}
use scopuli.Env.{Env}
use scopuli.Store.Database.{World, random}

abbrev pub nonce_size : ℕ
nonce_size = 12

-- `ErrAuth`, or any other error of these functions.
pub data CryptoError : Type 0 where
  auth bad_key no_random : CryptoError

-- The eight bytes of `binary.BigEndian.PutUint64`.
unfoldable pub put_uint64 : ℕ → Bytes
put_uint64 n =
    (n / 2 ^ 56 % 256)
    ∷ (n / 2 ^ 48 % 256)
    ∷ (n / 2 ^ 40 % 256)
    ∷ (n / 2 ^ 32 % 256)
    ∷ (n / 2 ^ 24 % 256)
    ∷ (n / 2 ^ 16 % 256)
    ∷ (n / 2 ^ 8 % 256)
    ∷ (n % 256)
    ∷ []

-- The bytes that `AADSecret` hashes.
unfoldable pub aad_bytes : Text → Text → ℕ → Bytes
unfolding put_uint64
aad_bytes path description version = utf8 path ++ 0 ∷ (utf8 description ++ 0 ∷ put_uint64 version)

-- `KDFParams`.
pub record KdfParams : Type 0 where
  pub memory_kib : ℕ
  pub iterations : ℕ
  pub parallel : ℕ
  pub key_len : ℕ

abbrev pub default_kdf_params : KdfParams
default_kdf_params = record { memory_kib = 64 * 1024; iterations = 3; parallel = 4; key_len = 32 }

pub data KdfError : Type 0 where
  bad_memory bad_iterations bad_parallel bad_key_len : KdfError

-- `Validate`.
unfoldable pub validate_kdf : KdfParams → Result KdfError (Unit {0})
validate_kdf p =
    if ltb p.memory_kib (8 * 1024) || ltb (1024 * 1024) p.memory_kib
    then err bad_memory
    else if ltb p.iterations 1 || ltb 64 p.iterations
    then err bad_iterations
    else if ltb p.parallel 1 || ltb 16 p.parallel
    then err bad_parallel
    else if p.key_len != 32
    then err bad_key_len
    else ok tt

module _ ⦃env : Env⦄ where
  -- `AADSecret`.
  unfoldable pub aad_secret : Text → Text → ℕ → Bytes
  unfolding aad_bytes
  aad_secret path description version = env.sha256 (aad_bytes path description version)

  -- `Seal`: the nonce, then the ciphertext with its tag.
  unfoldable pub seal : Bytes → Bytes → Bytes → Exec World CryptoError Bytes
  unfolding random
  seal kek plaintext aad = do
    fail_if (length kek != 32) bad_key
    nonce ← random nonce_size or_fail λ _. no_random
    pure (nonce ++ env.gcm_seal kek nonce plaintext aad)

  -- `Open`.
  unfoldable pub open_sealed : Bytes → Bytes → Bytes → Result CryptoError Bytes
  open_sealed kek sealed aad =
      if length kek != 32
      then err bad_key
      else if ltb (length sealed) (nonce_size + 16)
      then err auth
      else of_option auth (env.gcm_open kek (take nonce_size sealed) (drop nonce_size sealed) aad)

  -- `DeriveKEK`; an error is the panic.
  unfoldable pub derive_kek : Text → Bytes → KdfParams → Result KdfError Bytes
  unfolding validate_kdf
  derive_kek password salt p = elim (validate_kdf p) [
    | ok u ↦ ok (env.argon2id (utf8 password) salt p.iterations p.memory_kib p.parallel p.key_len)
    | err e ↦ err e
  ]
