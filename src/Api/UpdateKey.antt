-- ===== src/Api/UpdateKey.antt =====
-- internal/api/server.go: handleUpdateKey.
use scopuli.Prelude.{
  Bool, Exec, List, Option, Text, codes, fail_if, false, lift, nat_eq, none, not, of_option, pure,
  some, text_eq, ℕ, ℤ, ◌!=◌, ◌>>=◌, ◌>>◌, ◌or_fail◌,
}
use scopuli.Api.{Handler, Response, Server, audit_append, bad_limits, error_response, no_content}
use scopuli.Api.Annotate.{number_or, text_or, validate_optional}
use scopuli.Api.Keys.{bad_permissions, bad_permissions_response, expiry_of}
use scopuli.Api.Secrets.{stamp_if}
use scopuli.Auth.{Principal, is_operator}
use scopuli.Env.{Env, TextMap}
use scopuli.Metadata.{merge_metadata, merge_tags}
use scopuli.Store.Database.{Key, World, now, time_now}
use scopuli.Store.Keys.{get_key_by_name, is_some, update_key}

-- `updateKeyReq`
pub record UpdateKeyReq : Type 0 where
  pub scope : Option Text
  pub permissions : Option Text
  pub expires_in : Option Text
  pub add_tags : List Text
  pub remove_tags : List Text
  pub description : Option Text
  pub set_metadata : TextMap Text
  pub unset_metadata : List Text

abbrev pub bad_optional_permissions : Option Text → Bool
bad_optional_permissions none = false
bad_optional_permissions (some t) = bad_permissions t

-- The key with the fields of the request put in.
unfoldable pub updated_key : Key → UpdateKeyReq → Option ℤ → Text → Text → ℕ → Key
updated_key k req expires_at tags meta t = record k {
  scope = text_or req.scope k.scope;
  permissions = text_or req.permissions k.permissions;
  expires_at = expires_at;
  tags = tags;
  description = text_or req.description k.description;
  description_updated_at =
      number_or (stamp_if (is_some req.description) t) k.description_updated_at;
  metadata = meta;
  metadata_updated_at = number_or (stamp_if (meta != k.metadata) t) k.metadata_updated_at;
}

module _ ⦃env : Env⦄ where
  -- The expiry after the request: the old one, or the time plus a duration, which may be malformed.
  unfoldable pub update_expiry : Option ℤ → Option Text → Exec World Response (Option ℤ)
  unfolding time_now expiry_of
  update_expiry old none = pure old
  update_expiry old (some expires_in) = do
    d ← lift (of_option (error_response 400 "expires_in") (env.parse_duration expires_in))
    t ← time_now
    pure (some (expiry_of t d))

  -- `handleUpdateKey`.
  unfoldable pub handle_update_key : Server → Principal → Text → Option UpdateKeyReq → Handler
  unfolding get_key_by_name now update_expiry update_key audit_append updated_key
  handle_update_key s p name body = do
    fail_if (not (is_operator p.kind)) (error_response 403 "operator only")
    k ← get_key_by_name name or_fail λ _. error_response 404 "not found"
    req ← lift (of_option (error_response 400 "bad json") body)
    t ← now
    fail_if (bad_optional_permissions req.permissions) bad_permissions_response
    expires_at ← update_expiry k.expires_at req.expires_in
    tags ← lift (merge_tags k.tags req.add_tags req.remove_tags) or_fail bad_limits
    lift (validate_optional req.description) or_fail bad_limits
    meta ← lift (merge_metadata k.metadata req.set_metadata req.unset_metadata) or_fail bad_limits
    update_key (updated_key k req expires_at tags meta t) or_fail λ _. error_response 500 "update"
    audit_append s p (codes "key.update") name (codes "ok")
    pure no_content
