-- ===== src/Api/Keys.antt =====
-- internal/api/server.go: the handlers under /api/keys that create, list, read, revoke and search.
use scopuli.Prelude.{
  Bool, Exec, List, Option, Text, [], add_ℤ, attempt, codes, div_floor, fail_if, if◌then◌else◌,
  lift, nat_eq, none, not, of_option, pos, pure, some, text_eq, ℕ, ℤ, ◌!=◌, ◌&&◌, ◌++◌, ◌==◌, ◌>>=◌,
  ◌>>◌, ◌or_fail◌, ◌||◌, ◌∷◌,
}
use scopuli.Api.{
  FoundKey, Handler, KeyItem, KeyView, Response, Server, audit_append, bad_limits, created_key,
  error_response, found_keys, integer_or_zero, key_items, key_view, no_content, number_or_zero,
  ok_response, split_csv,
}
use scopuli.Api.Secrets.{request_metadata}
use scopuli.Auth.{Principal, is_key, is_operator}
use scopuli.Env.{Env, TextMap}
use scopuli.Metadata.{normalize_tags, validate_description}
use scopuli.Store.Database.{Key, StoreError, World, already_exists, time_now}
use scopuli.Store.Keys.{create_key, get_key_by_name, key_by_id, list_keys, revoke_key, search_keys}
use scopuli.Strings.{join}
use scopuli.Token.{Issued, agent_key}

-- `createKeyReq`; an empty `expires_in` is an absent one.
pub record CreateKeyReq : Type 0 where
  pub name : Text
  pub scope : Text
  pub permissions : Text
  pub expires_in : Text
  pub tags : List Text
  pub description : Text
  pub metadata : Option (TextMap Text)

-- `permissions != "read" && permissions != "manage"`
unfoldable pub bad_permissions : Text → Bool
bad_permissions t = t != codes "read" && t != codes "manage"

abbrev pub bad_permissions_response : Response
bad_permissions_response = error_response 400 "permissions must be read or manage"

-- `time.Now().Add(d).UnixMilli()`
unfoldable pub expiry_of : ℕ → ℤ → ℤ
expiry_of t d = div_floor (add_ℤ t d) 1000000

-- The row that handleCreateKey stores.
abbrev pub new_key : CreateKeyReq → Issued → Text → Text → Option ℤ → Key
new_key req issued tags meta expires_at = record {
  id = 0;
  name = req.name;
  hash = issued.hash_hex;
  prefix = issued.prefix;
  scope = req.scope;
  permissions = req.permissions;
  tags = tags;
  description = req.description;
  metadata = meta;
  created_at = 0;
  expires_at = expires_at;
  revoked_at = none;
  last_used_at = none;
  description_updated_at = none;
  metadata_updated_at = none;
}

unfoldable pub create_failure : StoreError → Response
create_failure already_exists = error_response 409 "name exists"
create_failure e = error_response 500 "store"

-- `item` of handleListKeys.
abbrev pub key_item : Key → KeyItem
key_item k = record {
  name = k.name;
  prefix = k.prefix;
  scope = k.scope;
  permissions = k.permissions;
  tags = k.tags;
  has_desc = k.description != [];
  expires_at = integer_or_zero k.expires_at;
  revoked_at = number_or_zero k.revoked_at;
}

-- The loop of handleListKeys: a key sees itself only.
unfoldable pub own_keys : Principal → List Key → List KeyItem
own_keys p [] = []
own_keys p (k ∷ keys) =
    let rest = own_keys p keys in if is_key p.kind && k.id != p.id then rest else key_item k ∷ rest

unfoldable pub view_key : Key → KeyView
unfolding split_csv
view_key k = record {
  name = k.name;
  prefix = k.prefix;
  scope = k.scope;
  permissions = k.permissions;
  tags = split_csv k.tags;
  description = k.description;
  metadata = k.metadata;
  created_at = k.created_at;
  expires_at = integer_or_zero k.expires_at;
  revoked_at = number_or_zero k.revoked_at;
}

abbrev pub found_key : Key → FoundKey
found_key k = record {
  name = k.name;
  scope = k.scope;
  permissions = k.permissions;
  tags = k.tags;
  description = k.description;
  metadata = k.metadata;
}

-- The item of a row that was found, if the principal may see it.
unfoldable pub own_found : Principal → Option Key → List FoundKey
own_found p none = []
own_found p (some k) = if is_key p.kind && k.name != p.name then [] else found_key k ∷ []

module _ ⦃env : Env⦄ where
  -- The expiry that a duration stands for; the time is read after it has been parsed.
  unfoldable pub read_expiry : Text → Exec World Response (Option ℤ)
  unfolding time_now expiry_of
  read_expiry expires_in = if expires_in == [] then pure none else (do
    d ← lift (of_option (error_response 400 "expires_in") (env.parse_duration expires_in))
    t ← time_now
    pure (some (expiry_of t d)))

  -- `handleCreateKey`.
  unfoldable pub handle_create_key : Server → Principal → Option CreateKeyReq → Handler
  unfolding agent_key request_metadata read_expiry create_key audit_append create_failure
      bad_permissions
  handle_create_key s p body = do
    fail_if (not (is_operator p.kind)) (error_response 403 "operator only")
    req ← lift (of_option (error_response 400 "bad json") body)
    fail_if (req.name == [] || req.scope == []) (error_response 400 "name and scope required")
    fail_if (bad_permissions req.permissions) bad_permissions_response
    issued ← agent_key or_fail λ _. error_response 500 "key gen"
    tags ← lift (normalize_tags (join b',' req.tags)) or_fail bad_limits
    lift (validate_description req.description) or_fail bad_limits
    meta ← lift (request_metadata req.metadata) or_fail bad_limits
    expires_at ← read_expiry req.expires_in
    create_key (new_key req issued tags meta expires_at) or_fail create_failure
    audit_append s p (codes "key.create") req.name (codes "ok")
    pure (
        ok_response (
          created_key (record {
            name = req.name;
            key = issued.token;
            prefix = issued.prefix;
            scope = req.scope;
            permissions = req.permissions;
            expires_at = integer_or_zero expires_at;
          })))

  -- `handleListKeys`.
  unfoldable pub handle_list_keys : Server → Principal → Handler
  unfolding list_keys own_keys audit_append
  handle_list_keys s p = do
    keys ← list_keys (is_operator p.kind) or_fail λ _. error_response 500 "list"
    audit_append s p (codes "key.list") [] (codes "ok")
    pure (ok_response (key_items (own_keys p keys)))

  -- `handleGetKey`.
  unfoldable pub handle_get_key : Principal → Text → Handler
  unfolding get_key_by_name view_key
  handle_get_key p name = do
    fail_if (is_key p.kind && p.name != name) (error_response 403 "not your key")
    k ← get_key_by_name name or_fail λ _. error_response 404 "not found"
    pure (ok_response (key_view (view_key k)))

  -- `handleRevokeKey`.
  unfoldable pub handle_revoke_key : Server → Principal → Text → Handler
  unfolding get_key_by_name revoke_key audit_append
  handle_revoke_key s p name = do
    fail_if (not (is_operator p.kind)) (error_response 403 "operator only")
    k ← get_key_by_name name or_fail λ _. error_response 404 "not found"
    revoke_key k.id or_fail λ _. error_response 500 "revoke"
    audit_append s p (codes "key.revoke") name (codes "ok")
    pure no_content

  -- The loop of handleSearchKeys.
  unfoldable pub search_key_rows : {E : Type 0} → Principal → List ℕ → Exec World E (List FoundKey)
  unfolding key_by_id own_found
  search_key_rows p [] = pure []
  search_key_rows p (i ∷ ids) = do
    row ← attempt (key_by_id i)
    items ← search_key_rows p ids
    pure (own_found p row ++ items)

  -- `handleSearchKeys`.
  unfoldable pub handle_search_keys : Server → Principal → Text → Handler
  unfolding search_keys search_key_rows audit_append
  handle_search_keys s p q = do
    fail_if (q == []) (error_response 400 "q required")
    ids ← search_keys q (pos 50) or_fail λ _. error_response 400 "search"
    items ← search_key_rows p ids
    audit_append s p (codes "key.search") q (codes "ok")
    pure (ok_response (found_keys items))
