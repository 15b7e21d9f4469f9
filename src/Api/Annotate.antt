-- ===== src/Api/Annotate.antt =====
-- internal/api/server.go: handleAnnotateSecret.
use scopuli.Prelude.{
  Bytes, List, Option, Result, Text, [], codes, drop, fail_if, if◌then◌else◌, lift, nat_eq, none,
  not, of_option, ok, pure, some, take, text_eq, ℕ, ◌!=◌, ◌&&◌, ◌==◌, ◌>>=◌, ◌>>◌, ◌or_fail◌,
}
use scopuli.Api.{
  Handler, Server, audit_append, bad_limits, can_access_secret, error_response, no_content,
  open_row,
}
use scopuli.Api.Secrets.{bump, stamp_if}
use scopuli.Auth.{Principal, is_read_only}
use scopuli.Crypto.{aad_secret, nonce_size, seal}
use scopuli.Env.{Env, TextMap}
use scopuli.Metadata.{MetadataError, merge_metadata, merge_tags, validate_description}
use scopuli.Store.Database.{Secret, now}
use scopuli.Store.Secrets.{get_secret, put_secret}

-- `annotateReq`
pub record AnnotateReq : Type 0 where
  pub add_tags : List Text
  pub remove_tags : List Text
  pub description : Option Text
  pub set_metadata : TextMap Text
  pub unset_metadata : List Text

abbrev pub text_or : Option Text → Text → Text
text_or none t = t
text_or (some u) t = u

abbrev pub number_or : Option ℕ → Option ℕ → Option ℕ
number_or none old = old
number_or (some n) old = some n

-- The description that a request gives, if any, is within the limit.
unfoldable pub validate_optional : Option Text → Result MetadataError (Unit {0})
validate_optional none = ok tt
validate_optional (some d) = validate_description d

-- The row with its new annotations, sealed again.
unfoldable pub annotated : Secret → Text → Text → Text → ℕ → ℕ → Bytes → Bytes → Secret
annotated sec tags desc meta version t aad sealed = record sec {
  ciphertext = drop nonce_size sealed;
  nonce = take nonce_size sealed;
  aad = aad;
  tags = tags;
  description = desc;
  metadata = meta;
  version = version;
  description_updated_at =
      number_or (stamp_if (desc != sec.description) t) sec.description_updated_at;
  metadata_updated_at = number_or (stamp_if (meta != sec.metadata) t) sec.metadata_updated_at;
}

module _ ⦃env : Env⦄ where
  -- From `version := sec.Version` to the end of the handler.
  unfoldable pub store_annotated :
      Server → Principal → Text → Secret → Text → Text → Text → ℕ → Handler
  unfolding seal put_secret audit_append annotated aad_secret
  store_annotated s p path sec tags desc meta t = do
    let version = if desc != sec.description then bump sec.version else sec.version
    let aad = aad_secret sec.path desc version
    plain ← lift (open_row s.kek sec sec.aad) or_fail λ _. error_response 500 "decrypt failed"
    sealed ← seal s.kek plain aad or_fail λ _. error_response 500 "encrypt failed"
    put_secret (annotated sec tags desc meta version t aad sealed) or_fail λ _.
        error_response 500 "store"
    audit_append s p (codes "secret.annotate") path (codes "ok")
    pure no_content

  -- `handleAnnotateSecret`.
  unfoldable pub handle_annotate_secret : Server → Principal → Text → Option AnnotateReq → Handler
  unfolding get_secret now store_annotated
  handle_annotate_secret s p path body = do
    fail_if (is_read_only p) (error_response 403 "read-only key")
    fail_if (path == []) (error_response 400 "path required (use ?path=...)")
    fail_if (not (can_access_secret (some p) path)) (error_response 403 "out of scope")
    req ← lift (of_option (error_response 400 "bad json") body)
    sec ← get_secret path or_fail λ _. error_response 404 "not found"
    t ← now
    tags ← lift (merge_tags sec.tags req.add_tags req.remove_tags) or_fail bad_limits
    meta ← lift (merge_metadata sec.metadata req.set_metadata req.unset_metadata) or_fail bad_limits
    lift (validate_optional req.description) or_fail bad_limits
    let desc = text_or req.description sec.description
    let unchanged = desc == sec.description && meta == sec.metadata && tags == sec.tags
    if unchanged then pure no_content else store_annotated s p path sec tags desc meta t
