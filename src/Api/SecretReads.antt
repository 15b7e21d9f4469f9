-- ===== src/Api/SecretReads.antt =====
-- internal/api/server.go: the handlers under /api/secrets that list, read, delete and search.
use scopuli.Prelude.{
  Bool, Bytes, Exec, List, Option, Text, [], attempt, codes, err, fail_if, if◌then◌else◌, nat_eq,
  none, not, ok, pos, pure, raise, some, text_eq, ℕ, ◌++◌, ◌==◌, ◌>>=◌, ◌>>◌, ◌or_fail◌, ◌∷◌,
}
use scopuli.Api.{
  FoundSecret, Handler, Response, SecretItem, SecretView, Server, aad_of, audit_append,
  can_access_secret, error_response, found_secrets, mask_secret_value, no_content, ok_response,
  open_row, secret_items, secret_view, split_csv, text_or_empty,
}
use scopuli.Api.Secrets.{check_scope}
use scopuli.Auth.{Principal, is_read_only}
use scopuli.Env.{Env}
use scopuli.Store.Database.{Secret, StoreError, World, not_found}
use scopuli.Store.Secrets.{
  delete_secret, get_secret, list_secret_paths, search_secrets, secret_by_id,
}

-- `it` in the loop of handleListSecrets.
unfoldable pub secret_item : Bool → Secret → Bytes → SecretItem
unfolding mask_secret_value
secret_item reveal sec pt = record {
  path = sec.path;
  label = text_or_empty sec.label;
  tags = sec.tags;
  description = sec.description;
  value_preview = if reveal then [] else mask_secret_value pt;
  value = if reveal then pt else [];
}

unfoldable pub view_secret : Secret → Bytes → SecretView
unfolding split_csv
view_secret sec pt = record {
  path = sec.path;
  value = pt;
  label = text_or_empty sec.label;
  tags = split_csv sec.tags;
  description = sec.description;
  metadata = sec.metadata;
  version = sec.version;
}

abbrev pub found_secret : Secret → FoundSecret
found_secret sec = record {
  path = sec.path;
  label = text_or_empty sec.label;
  tags = sec.tags;
  description = sec.description;
  metadata = sec.metadata;
}

abbrev pub list_action : Bool → Text
list_action reveal = if reveal then codes "read.list.reveal" else codes "read.list"

-- What handleDeleteSecret answers when the store fails.
unfoldable pub delete_failure : StoreError → Response
delete_failure not_found = error_response 404 "not found"
delete_failure e = error_response 500 "delete"

-- The item of a row that was found, if the principal may see it.
unfoldable pub visible : Principal → Option Secret → List FoundSecret
visible p none = []
visible p (some sec) = if can_access_secret (some p) sec.path then found_secret sec ∷ [] else []

module _ ⦃env : Env⦄ where
  -- A row of the list: decrypted, or skipped with an audit entry.
  unfoldable pub list_row :
      {E : Type 0}
      → Server
      → Principal
      → Bool
      → Text
      → Option Secret
      → Exec World E (List SecretItem)
  unfolding audit_append secret_item
  list_row s p reveal path none = pure []
  list_row s p reveal path (some sec) = elim (open_row s.kek sec (aad_of sec)) [
    | ok pt ↦ pure (secret_item reveal sec pt ∷ [])
    | err e ↦ audit_append s p (codes "error:decrypt_failed") path (codes "error") >> pure []
  ]

  -- The loop of handleListSecrets.
  unfoldable pub list_rows :
      {E : Type 0} → Server → Principal → Bool → List Text → Exec World E (List SecretItem)
  unfolding get_secret list_row
  list_rows s p reveal [] = pure []
  list_rows s p reveal (path ∷ paths) =
      let rest = list_rows s p reveal paths in
      if can_access_secret (some p) path
      then (do
        row ← attempt (get_secret path)
        item ← list_row s p reveal path row
        items ← rest
        pure (item ++ items))
      else rest

  -- `handleListSecrets`.
  unfoldable pub handle_list_secrets : Server → Principal → Text → Bool → Handler
  unfolding list_secret_paths list_rows audit_append
  handle_list_secrets s p prefix reveal = do
    paths ← list_secret_paths prefix or_fail λ _. error_response 500 "list"
    items ← list_rows s p reveal paths
    audit_append s p (list_action reveal) [] (codes "ok")
    pure (ok_response (secret_items items))

  -- What handleGetSecret answers for a row that it found.
  unfoldable pub reveal_row : Server → Principal → Text → Secret → Handler
  unfolding audit_append view_secret
  reveal_row s p path sec = elim (open_row s.kek sec (aad_of sec)) [
    | ok pt ↦ do
      audit_append s p (codes "read") path (codes "ok")
      pure (ok_response (secret_view (view_secret sec pt)))
    | err e ↦ do
      audit_append s p (codes "error:decrypt_failed") path (codes "error")
      raise (error_response 500 "decrypt failed")
  ]

  -- `handleGetSecret`.
  unfoldable pub handle_get_secret : Server → Principal → Text → Handler
  unfolding check_scope get_secret reveal_row
  handle_get_secret s p path = do
    check_scope s p path
    sec ← get_secret path or_fail λ _. error_response 404 "not found"
    reveal_row s p path sec

  -- `handleDeleteSecret`.
  unfoldable pub handle_delete_secret : Server → Principal → Text → Handler
  unfolding delete_secret audit_append delete_failure
  handle_delete_secret s p path = do
    fail_if (is_read_only p) (error_response 403 "read-only key")
    fail_if (not (can_access_secret (some p) path)) (error_response 403 "out of scope")
    delete_secret path or_fail delete_failure
    audit_append s p (codes "delete") path (codes "ok")
    pure no_content

  -- The loop of handleSearchSecrets.
  unfoldable pub search_rows : {E : Type 0} → Principal → List ℕ → Exec World E (List FoundSecret)
  unfolding secret_by_id visible
  search_rows p [] = pure []
  search_rows p (i ∷ ids) = do
    row ← attempt (secret_by_id i)
    items ← search_rows p ids
    pure (visible p row ++ items)

  -- `handleSearchSecrets`.
  unfoldable pub handle_search_secrets : Server → Principal → Text → Handler
  unfolding search_secrets search_rows audit_append
  handle_search_secrets s p q = do
    fail_if (q == []) (error_response 400 "q required")
    ids ← search_secrets q (pos 50) or_fail λ _. error_response 400 "search"
    items ← search_rows p ids
    audit_append s p (codes "search") q (codes "ok")
    pure (ok_response (found_secrets items))
