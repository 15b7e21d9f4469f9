-- ===== src/Api/Secrets.antt =====
-- internal/api/server.go: handlePutSecret, and what the handlers under /api/secrets share.
use scopuli.Prelude.{
  Bool, Bytes, Exec, List, Option, Result, Text, [], attempt, codes, drop, fail_if, if◌then◌else◌,
  lift, nat_eq, none, of_option, ok, pure, raise, some, take, text_eq, true, ℕ, ◌!=◌, ◌%◌, ◌+◌,
  ◌==◌, ◌>>=◌, ◌>>◌, ◌^◌, ◌or_fail◌,
}
use scopuli.Api.{
  Handler, Response, Server, any_map, audit_append, bad_limits, can_access_secret, error_response,
  no_content,
}
use scopuli.Audit.{null_string}
use scopuli.Auth.{Principal, is_read_only}
use scopuli.Crypto.{aad_secret, nonce_size, seal}
use scopuli.Env.{Env, TextMap}
use scopuli.Metadata.{
  MetadataError, empty_object, normalize_metadata, normalize_tags, validate_description,
}
use scopuli.Store.Database.{Secret, World, now}
use scopuli.Store.Secrets.{get_secret, put_secret}
use scopuli.Strings.{join}

-- `putSecretReq`; a value is given by its bytes.
pub record PutSecretReq : Type 0 where
  pub path : Text
  pub value : Bytes
  pub label : Text
  pub tags : List Text
  pub description : Text
  pub metadata : Option (TextMap Text)

-- `version++` on the bit pattern of an int64.
abbrev pub bump : ℕ → ℕ
bump v = (v + 1) % 2 ^ 64

abbrev pub differs : {A : Type 0} → (A → Text) → Option A → Text → Bool
differs field none t = true
differs field (some a) t = field a != t

abbrev pub version_of : Option Secret → ℕ
version_of none = 1
version_of (some sec) = sec.version

abbrev pub created_of : Option Secret → ℕ → ℕ
created_of none t = t
created_of (some sec) t = sec.created_at

-- The version under which a written secret is stored.
unfoldable pub next_version : Option Secret → Text → ℕ
next_version existing description =
    if differs (λ sec. sec.description) existing description
    then bump (version_of existing)
    else version_of existing

-- `sql.NullInt64{Int64: now, Valid: true}` if the test holds, else the null value.
abbrev pub stamp_if : Bool → ℕ → Option ℕ
stamp_if b t = if b then some t else none

-- The row that a write stores: what was there before, the new fields, the time, and what was sealed.
unfoldable pub written_secret :
    Option Secret → Text → Text → Text → Text → Text → ℕ → Bytes → Bytes → Secret
unfolding next_version
written_secret existing path label tags description metadata t aad sealed = record {
  id = 0;
  path = path;
  label = null_string label;
  ciphertext = drop nonce_size sealed;
  nonce = take nonce_size sealed;
  aad = aad;
  tags = tags;
  description = description;
  metadata = metadata;
  created_at = created_of existing t;
  updated_at = 0;
  description_updated_at = stamp_if (differs (λ sec. sec.description) existing description) t;
  metadata_updated_at = stamp_if (differs (λ sec. sec.metadata) existing metadata) t;
  version = next_version existing description;
}

module _ ⦃env : Env⦄ where
  -- The metadata of a request: an absent map is `{}`.
  unfoldable pub request_metadata : Option (TextMap Text) → Result MetadataError Text
  unfolding normalize_metadata
  request_metadata none = ok empty_object
  request_metadata (some m) = normalize_metadata (env.marshal (any_map m))

  -- Encrypting and storing, which handlePutSecret and handleUISecretSave share.
  unfoldable pub encrypt_and_put :
      Server
      → Text
      → Text
      → Text
      → Text
      → Text
      → Bytes
      → Option Secret
      → Exec World Response (Unit {0})
  unfolding now seal put_secret written_secret aad_secret
  encrypt_and_put s path label tags description metadata value existing = do
    t ← now
    let aad = aad_secret path description (next_version existing description)
    sealed ← seal s.kek value aad or_fail λ _. error_response 500 "encrypt failed"
    put_secret (written_secret existing path label tags description metadata t aad sealed)
        or_fail λ _. error_response 500 "store"

  unfoldable pub refuse : Server → Principal → Text → Exec World Response (Unit {0})
  unfolding audit_append
  refuse s p path = do
    audit_append s p (codes "denied:out_of_scope") path (codes "denied")
    raise (error_response 403 "out of scope")

  -- The test of the scope that audits a denial.
  unfoldable pub check_scope : Server → Principal → Text → Exec World Response (Unit {0})
  unfolding refuse
  check_scope s p path = if can_access_secret (some p) path then pure tt else refuse s p path

  -- `handlePutSecret`.
  unfoldable pub handle_put_secret : Server → Principal → Option PutSecretReq → Handler
  unfolding request_metadata encrypt_and_put audit_append get_secret check_scope
  handle_put_secret s p body = do
    fail_if (is_read_only p) (error_response 403 "read-only key")
    req ← lift (of_option (error_response 400 "bad json") body)
    fail_if (req.path == []) (error_response 400 "path required")
    check_scope s p req.path
    tags ← lift (normalize_tags (join b',' req.tags)) or_fail bad_limits
    lift (validate_description req.description) or_fail bad_limits
    meta ← lift (request_metadata req.metadata) or_fail bad_limits
    existing ← attempt (get_secret req.path)
    encrypt_and_put s req.path req.label tags req.description meta req.value existing
    audit_append s p (codes "write") req.path (codes "ok")
    pure no_content
