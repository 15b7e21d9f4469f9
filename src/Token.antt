-- ===== src/Token.antt =====
-- internal/token/token.go: operator tokens, agent keys and their digests.
pub mod Base62
use scopuli.Prelude.{
  Bool, Bytes, Exec, Option, Result, Text, [], codes, if◌then◌else◌, length, ltb, nat_eq, none,
  pure, some, suc, take, text_eq, utf8, zero, ℕ, ◌%◌, ◌*◌, ◌++◌, ◌+◌, ◌-◌, ◌/◌, ◌==◌, ◌>>=◌, ◌>>◌,
  ◌∷◌,
}
use scopuli.Crypto.{KdfError, KdfParams, default_kdf_params, derive_kek}
use scopuli.Env.{Env}
use scopuli.Store.Database.{World, random}
use scopuli.Strings.{has_prefix}

abbrev pub operator_prefix : Text
operator_prefix = codes "scot_live_"

abbrev pub key_prefix : Text
key_prefix = codes "sk_live_"

abbrev pub operator_token_body_bytes : ℕ
operator_token_body_bytes = 32

abbrev pub key_body_bytes : ℕ
key_body_bytes = 24

abbrev pub checksum_bytes : ℕ
checksum_bytes = 4

-- `hex.EncodeToString`.
unfoldable pub hex_digit : ℕ → ℕ
hex_digit n = if ltb n 10 then b'0' + n else b'a' + (n - 10)

unfoldable pub hex : Bytes → Text
unfolding hex_digit
hex [] = []
hex (b ∷ bs) = hex_digit (b / 16) ∷ hex_digit (b % 16) ∷ hex bs

-- `binary.BigEndian.Uint64`, of bytes that come after the number `n`.
unfoldable pub big_endian : ℕ → Bytes → ℕ
big_endian n [] = n
big_endian n (b ∷ bs) = big_endian (n * 256 + b) bs

-- The number that `base62` writes: the first eight bytes, or all of a shorter text.
unfoldable pub base62_number : Bytes → ℕ
unfolding big_endian
base62_number b = big_endian 0 (if ltb 8 (length b) then take 8 b else b)

-- `alphabet[n]`: the digits, the capitals and the small letters.
unfoldable pub base62_digit : ℕ → ℕ
base62_digit n =
    if ltb n 10 then b'0' + n else if ltb n 36 then b'A' + (n - 10) else b'a' + (n - 36)

-- The loop of `base62`; `none` means that the fuel ran out.
unfoldable pub base62_loop : ℕ → ℕ → Text → Option Text
unfolding base62_digit
base62_loop zero n out = none
base62_loop (suc fuel) n out =
    let rest = base62_loop fuel (n / 62) (base62_digit (n % 62) ∷ out) in
    if n == 0 then some out else rest

abbrev base62_text : Option Text → Text
base62_text none = []
base62_text (some t) = t

-- `base62`. A uint64 has at most eleven digits.
unfoldable pub base62 : Bytes → Text
unfolding base62_number base62_loop
base62 [] = []
base62 (b ∷ bs) =
    let n = base62_number (b ∷ bs) in
    if n == 0 then b'0' ∷ [] else base62_text (base62_loop 12 n [])

-- `displayPrefix`, of ASCII texts.
unfoldable pub display_prefix : Text → Text → ℕ → Text
display_prefix prefix body n = prefix ++ take n body

-- `LooksLikeOperatorToken`, `LooksLikeAgentKey`.
unfoldable pub looks_like_operator_token : Text → Bool
looks_like_operator_token t = has_prefix t operator_prefix

unfoldable pub looks_like_agent_key : Text → Bool
looks_like_agent_key t = has_prefix t key_prefix

-- A token, its digest and its display prefix.
pub record Issued : Type 0 where
  pub token : Text
  pub hash_hex : Text
  pub prefix : Text

module _ ⦃env : Env⦄ where
  -- `HashHex`.
  unfoldable pub hash_hex : Text → Text
  unfolding hex
  hash_hex tok = hex (env.sha256 (utf8 tok))

  -- `AgentKey` of the random bytes.
  unfoldable pub agent_key_of : Bytes → Issued
  unfolding base62 hash_hex display_prefix
  agent_key_of body =
      let body_str = base62 body in
      let chk = base62 (take checksum_bytes (env.sha256 (utf8 body_str))) in
      let tok = key_prefix ++ (body_str ++ b'_' ∷ chk) in
      record { token = tok; hash_hex = hash_hex tok; prefix = display_prefix key_prefix body_str 8 }

  -- `OperatorToken` of the random bytes.
  unfoldable pub operator_token_of : Bytes → Issued
  unfolding hash_hex display_prefix
  operator_token_of body =
      let body_str = env.base64url body in
      let tok = operator_prefix ++ body_str in
      record {
        token = tok;
        hash_hex = hash_hex tok;
        prefix = display_prefix operator_prefix body_str 8;
      }

  -- `AgentKey`.
  unfoldable pub agent_key : Exec World (Unit {0}) Issued
  unfolding random agent_key_of
  agent_key = do body ← random key_body_bytes; pure (agent_key_of body)

  -- `OperatorToken`.
  unfoldable pub operator_token : Exec World (Unit {0}) Issued
  unfolding random operator_token_of
  operator_token = do body ← random operator_token_body_bytes; pure (operator_token_of body)

-- The parameters of `AuditHMACKey`: less memory and fewer rounds than for the KEK.
abbrev pub audit_kdf_params : KdfParams
audit_kdf_params = record default_kdf_params { memory_kib = 8 * 1024; iterations = 2 }

-- `AuditHMACKey`.
unfoldable pub audit_hmac_key : ⦃env : Env⦄ → Text → Bytes → Result KdfError Bytes
unfolding derive_kek
audit_hmac_key master_password salt = derive_kek master_password salt audit_kdf_params
