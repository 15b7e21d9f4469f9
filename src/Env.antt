-- ===== src/Env.antt =====
-- What the program calls and does not implement: the clock, the random source, the failures of the
-- database engine and of files, the cryptographic primitives, encoding/json and time.ParseDuration. Each call of
-- the first three takes the number of the event, so two calls need not agree.
use scopuli.Prelude.{
  All, Bool, Bytes, List, [], ◌∷◌, Option, Text, length, some, ℕ, ℤ, ◌+◌, ◌≡◌, ◌≢◌, none,
}

-- A value of type `any` in a JSON object. `other` holds the text of what is no string and no number.
pub data Any : Type 0 where
  str : Text → Any
  num : ℕ → Any
  other : Text → Any

-- Go's maps from strings, as lists of pairs in the order of their keys.
abbrev pub TextMap : Type 0 → Type 0
TextMap V = List (Text × V)

pub record Env : Type 0 where
  -- `time.Now()`, in nanoseconds since 1970
  pub time_at : ℕ → ℕ
  -- whether the statement fails in the engine
  pub fault_at : ℕ → Bool
  -- `rand.Read` of so many bytes
  pub random_at : ℕ → ℕ → Option Bytes
  pub sha256 : Bytes → Bytes
  -- key and message
  pub hmac_sha256 : Bytes → Bytes → Bytes
  -- key, nonce, plaintext or ciphertext with tag, additional data
  pub gcm_seal : Bytes → Bytes → Bytes → Bytes → Bytes
  pub gcm_open : Bytes → Bytes → Bytes → Bytes → Option Bytes
  -- password, salt, iterations, memory, lanes, length of the key
  pub argon2id : Bytes → Bytes → ℕ → ℕ → ℕ → ℕ → Bytes
  -- `json.Unmarshal` into a `map[string]any`: an error, a nil map, or a map
  pub unmarshal : Text → Option (Option (TextMap Any))
  -- `json.Marshal` of a map
  pub marshal : TextMap Any → Text
  -- `time.ParseDuration`, in nanoseconds
  pub parse_duration : Text → Option ℤ
  -- the row numbers that `MATCH` finds, best first, in rows of a number and three columns
  pub fts_match : Text → List (ℕ × Text × Text × Text) → Option (List ℕ)
  -- `base64.RawURLEncoding.EncodeToString` and `DecodeString`
  pub base64url : Bytes → Text
  pub base64url_decode : Text → Option Bytes
  -- ChaCha20-Poly1305: key, nonce, plaintext or ciphertext with tag, additional data
  pub chacha_seal : Bytes → Bytes → Bytes → Bytes → Bytes
  pub chacha_open : Bytes → Bytes → Bytes → Bytes → Option Bytes
  -- whether html/template parses the templates that are embedded in the program
  pub templates_parse : Bool
  -- whether a call of a reader or of a writer fails, and then how many bytes it moved before
  pub io_fault_at : ℕ → Option ℕ

-- AES-256-GCM as documented: a 16-byte tag, and what was sealed opens under the same arguments.
pub record IsGcm (env : Env) : Type 0 where
  pub length-seal :
      (key nonce plain aad : Bytes) → length (env.gcm_seal key nonce plain aad) ≡ length plain + 16
  pub open-seal :
      (key nonce plain aad : Bytes)
      → env.gcm_open key nonce (env.gcm_seal key nonce plain aad) aad ≡ some plain

-- `rand.Read` fills its buffer whenever it succeeds.
pub record FillsRandom (env : Env) : Type 0 where
  pub length-random : (event n : ℕ) (b : Bytes) → env.random_at event n ≡ some b → length b ≡ n

-- SHA-256 digests have 32 bytes.
pub record IsSha (env : Env) : Type 0 where
  pub length-sha256 : (m : Bytes) → length (env.sha256 m) ≡ 32

-- ChaCha20-Poly1305 as documented: what was sealed opens under the same arguments.
pub record IsChacha (env : Env) : Type 0 where
  pub open-seal :
      (key nonce plain aad : Bytes)
      → env.chacha_open key nonce (env.chacha_seal key nonce plain aad) aad ≡ some plain

-- Argon2id returns as many bytes as it was asked for.
pub record IsArgon (env : Env) : Type 0 where
  pub length-argon2id :
      (password salt : Bytes) (iterations memory lanes n : ℕ)
      → length (env.argon2id password salt iterations memory lanes n) ≡ n

-- Two JSON objects have the same keys, and texts or numbers at the same places.
abbrev pub SameShape : TextMap Any → TextMap Any → Type 0
SameShape [] [] = Unit
SameShape ((j, str a) ∷ m) ((k, str b) ∷ n) = (j ≡ k) × SameShape m n
SameShape ((j, num a) ∷ m) ((k, num b) ∷ n) = (j ≡ k) × SameShape m n
SameShape m n = ⊥

-- json.Marshal as documented: it quotes texts and writes numbers out, so two objects of one shape that
-- are rendered alike have the same values.
pub record IsJson (env : Env) : Type 0 where
  pub marshal_injective :
      (m n : TextMap Any) → SameShape m n → env.marshal m ≡ env.marshal n → m ≡ n

-- base64 in the URL alphabet as documented: it can be decoded, and has no full stop in it.
pub record IsBase64 (env : Env) : Type 0 where
  pub decode-encode : (b : Bytes) → env.base64url_decode (env.base64url b) ≡ some b
  pub no_stop : (b : Bytes) → All (λ c. c ≢ b'.') (env.base64url b)

module _ ⦃env : Env⦄ where
  -- The random source always delivers.
  abbrev pub Delivers : Type 0
  Delivers = (event n : ℕ) → (b : Bytes) × (env.random_at event n ≡ some b)

  -- No call that reads or writes a file fails.
  pub record NoIoFaults : Type 0 where
    pub never : (event : ℕ) → env.io_fault_at event ≡ none
