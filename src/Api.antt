-- ===== src/Api.antt =====
-- internal/api/server.go: the server, its responses, the middleware and the helpers of the handlers.
pub mod Effects
pub mod Keeps
pub mod Preserves
pub mod Intact
pub mod Confined
pub mod Guards
pub mod Revocation
pub mod Authority
pub mod Finding
pub mod Listing
pub mod RoundTrip
pub mod Secrets
pub mod SecretReads
pub mod Annotate
pub mod Keys
pub mod UpdateKey
pub mod Operator
use scopuli.Prelude.{
  Bool, Bytes, Exec, List, Option, Result, String, Text, [], attempt, codes, err, fail_if,
  if◌then◌else◌, length, ltb, nat_eq, none, not, ok, pos, pure, some, take, text_eq, true, ℕ, ℤ,
  ◌++◌, ◌==◌, ◌>>=◌, ◌>>◌, ◌or_fail◌, ◌∷◌,
}
use scopuli.Audit.{Entry, Logger, append}
use scopuli.Auth.{
  AuthError, Credentials, Principal, authenticate, expired, is_operator, key, kind_text, revoked,
}
use scopuli.Crypto.{CryptoError, aad_secret, open_sealed}
use scopuli.Env.{Any, Env, TextMap, str}
use scopuli.Metadata.{MetadataError}
use scopuli.Scope.{any_match, trimmed_parts}
use scopuli.Store.Database.{Secret, World, now}
use scopuli.Store.Keys.{is_some}
use scopuli.Strings.{split, trim_prefix, trim_suffix}

pub record Server : Type 0 where
  pub audit : Option Logger
  pub kek : Bytes
  pub operator_name : Text
  pub session_key : Bytes

-- An item of GET /api/secrets.
pub record SecretItem : Type 0 where
  pub path : Text
  pub label : Text
  pub tags : Text
  pub description : Text
  pub value_preview : Bytes
  pub value : Bytes

-- The answer of GET /api/secrets/{path}.
pub record SecretView : Type 0 where
  pub path : Text
  pub value : Bytes
  pub label : Text
  pub tags : List Text
  pub description : Text
  pub metadata : Text
  pub version : ℕ

-- An item of GET /api/secrets/search.
pub record FoundSecret : Type 0 where
  pub path : Text
  pub label : Text
  pub tags : Text
  pub description : Text
  pub metadata : Text

-- The answer of POST /api/keys.
pub record CreatedKey : Type 0 where
  pub name : Text
  pub key : Text
  pub prefix : Text
  pub scope : Text
  pub permissions : Text
  pub expires_at : ℤ

-- An item of GET /api/keys.
pub record KeyItem : Type 0 where
  pub name : Text
  pub prefix : Text
  pub scope : Text
  pub permissions : Text
  pub tags : Text
  pub has_desc : Bool
  pub expires_at : ℤ
  pub revoked_at : ℕ

-- The answer of GET /api/keys/{name}.
pub record KeyView : Type 0 where
  pub name : Text
  pub prefix : Text
  pub scope : Text
  pub permissions : Text
  pub tags : List Text
  pub description : Text
  pub metadata : Text
  pub created_at : ℕ
  pub expires_at : ℤ
  pub revoked_at : ℕ

-- An item of GET /api/keys/search.
pub record FoundKey : Type 0 where
  pub name : Text
  pub scope : Text
  pub permissions : Text
  pub tags : Text
  pub description : Text
  pub metadata : Text

pub data Body : Type 0 where
  no_body : Body
  message : Text → Body
  limit_message : MetadataError → Body
  secret_items : List SecretItem → Body
  secret_view : SecretView → Body
  found_secrets : List FoundSecret → Body
  created_key : CreatedKey → Body
  key_items : List KeyItem → Body
  key_view : KeyView → Body
  found_keys : List FoundKey → Body
  entries : List Entry → Body
  verified : Body
  broken_at : ℕ → Bytes → Bytes → Body
  new_operator_token : Text → Body

pub record Response : Type 0 where
  pub status : ℕ
  pub body : Body

-- `writeErr`, and `writeJSON` where it ends a handler.
abbrev pub error_response : ℕ → String → Response
error_response status msg = record { status = status; body = message (codes msg) }

abbrev pub bad_limits : MetadataError → Response
bad_limits e = record { status = 400; body = limit_message e }

abbrev pub ok_response : Body → Response
ok_response b = record { status = 200; body = b }

abbrev pub no_content : Response
no_content = record { status = 204; body = no_body }

-- A handler raises the response of an early return.
abbrev pub Handler : Type 0
Handler = Exec World Response Response

abbrev pub answer : Result Response Response × World → Response × World
answer (ok r, w) = (r, w)
answer (err r, w) = (r, w)

abbrev pub serve : Handler → World → Response × World
serve h w = answer (h w)

-- `canAccessSecret`.
unfoldable pub can_access_secret : Option Principal → Text → Bool
can_access_secret none path = true
can_access_secret (some p) path = if is_operator p.kind then true else any_match p.scope path

-- `maskSecretValue`.
unfoldable pub mask_secret_value : Bytes → Bytes
mask_secret_value v = if ltb 10 (length v) then take 6 v ++ codes "***" else codes "***"

-- `splitCSV`.
unfoldable pub split_csv : Text → List Text
split_csv csv = if csv == [] then [] else trimmed_parts (split b',' csv)

-- The path that the routes for one secret take: the URL's, without the prefix and a last slash.
unfoldable pub secret_path : Text → Text → Text
secret_path url_param url_path =
    if url_param == []
    then trim_suffix (trim_prefix url_path (codes "/api/secrets/")) b'/'
    else url_param

abbrev pub text_or_empty : Option Text → Text
text_or_empty none = []
text_or_empty (some t) = t

abbrev pub number_or_zero : Option ℕ → ℕ
number_or_zero none = 0
number_or_zero (some n) = n

abbrev pub integer_or_zero : Option ℤ → ℤ
integer_or_zero none = pos 0
integer_or_zero (some n) = n

-- `toJSON` of a map of texts.
abbrev pub any_map : TextMap Text → TextMap Any
any_map [] = []
any_map ((k, v) ∷ m) = (k, str v) ∷ any_map m

-- What `requireAuth` answers when Authenticate fails.
unfoldable pub auth_failure : AuthError → Response
auth_failure revoked = error_response 401 "key revoked"
auth_failure expired = error_response 401 "key expired"
auth_failure e = error_response 401 "unauthenticated"

module _ ⦃env : Env⦄ where
  -- The call of Append in `auditAppend`; its errors are dropped.
  unfoldable pub append_entry : {E : Type 0} → Option Logger → Entry → Exec World E (Unit {0})
  unfolding append
  append_entry none e = pure tt
  append_entry (some l) e = attempt (append l e) >> pure tt

  -- `auditAppend`, for a principal that is there. The time is read only if there is a logger.
  unfoldable pub audit_append :
      {E : Type 0} → Server → Principal → Text → Text → Text → Exec World E (Unit {0})
  unfolding append_entry now kind_text
  audit_append s p action path result =
      if is_some s.audit
      then (do
        t ← now
        append_entry s.audit (record {
          id = 0;
          ts = t;
          actor_kind = kind_text p.kind;
          actor_id = p.id;
          action = action;
          path = path;
          result = result;
        }))
      else pure tt

  -- The plaintext of a row, under additional data.
  abbrev pub open_row : Bytes → Secret → Bytes → Result CryptoError Bytes
  open_row kek sec aad = open_sealed kek (sec.nonce ++ sec.ciphertext) aad

  abbrev pub aad_of : Secret → Bytes
  aad_of sec = aad_secret sec.path sec.description sec.version

  -- `requireAuth`.
  unfoldable pub require_auth : Credentials → (Principal → Handler) → Handler
  unfolding authenticate auth_failure
  require_auth c next = do p ← authenticate c or_fail auth_failure; next p

  -- `requireOperator`.
  unfoldable pub require_operator : Credentials → (Principal → Handler) → Handler
  unfolding authenticate
  require_operator c next = do
    p ← authenticate c or_fail λ _. error_response 401 "operator token required"
    fail_if (not (is_operator p.kind)) (error_response 403 "operator only")
    next p
