-- ===== src/Ui/SecretPages.antt =====
-- internal/api/ui_pages.go: the pages of the secrets.
use scopuli.Prelude.{
  Bytes, Exec, List, Option, Text, [], attempt, codes, err, fail_if, false, if◌then◌else◌, length,
  nat_eq, none, not, ok, pos, pure, raise, some, text_eq, true, ℕ, ◌!=◌, ◌++◌, ◌==◌, ◌>>=◌, ◌>>◌,
  ◌or_fail◌, ◌∷◌,
}
use scopuli.Api.{
  Server, aad_of, audit_append, can_access_secret, mask_secret_value, open_row, split_csv,
  text_or_empty,
}
use scopuli.Auth.{Principal}
use scopuli.Env.{Env}
use scopuli.Store.Database.{Secret, World}
use scopuli.Store.Secrets.{get_secret, list_secret_paths, search_secrets, secret_by_id}
use scopuli.Strings.{trim_prefix, trim_space, trim_suffix}
use scopuli.Ui.{
  Alert, SecretFormData, SecretsData, UiHandler, UiPage, UiRequest, UiResponse, UiSecretRow,
  alert_error, css_id, of_secrets, render, render_page, rendered, reveal_value, says, secret_form,
  ui_error, ui_set,
}

-- `uiSecretRow` of a row and its plaintext.
unfoldable pub ui_secret_row : Text → Secret → Bytes → UiSecretRow
unfolding css_id split_csv mask_secret_value
ui_secret_row path sec pt = record {
  id = css_id path;
  path = sec.path;
  label = text_or_empty sec.label;
  tags = split_csv sec.tags;
  description = sec.description;
  version = sec.version;
  updated_at = sec.updated_at;
  preview = mask_secret_value pt;
}

abbrev pub path_of_row : Option Secret → List Text
path_of_row none = []
path_of_row (some sec) = sec.path ∷ []

abbrev pub empty_secret_form : SecretFormData
empty_secret_form = record {
  editing = false;
  path = [];
  label = [];
  tags = [];
  description = [];
  metadata = [];
  alert = none;
}

-- The form of handleUISecretForm after the lookup of its path.
unfoldable pub secret_form_of : Option Secret → SecretFormData
secret_form_of none = record empty_secret_form {
  alert = some (alert_error (codes "Secret not found") (says (codes "It may have been deleted.")));
}
secret_form_of (some sec) = record {
  editing = true;
  path = sec.path;
  label = text_or_empty sec.label;
  tags = sec.tags;
  description = sec.description;
  metadata = sec.metadata;
  alert = none;
}

abbrev pub secrets_page : Server → Option Alert → SecretsData → UiPage
secrets_page s alert d = record {
  active = codes "secrets";
  operator_name = s.operator_name;
  alert = alert;
  contents = of_secrets d;
}

abbrev paths_or_none : Option (List Text) → List Text
paths_or_none none = []
paths_or_none (some paths) = paths

module _ ⦃env : Env⦄ where
  -- What a row of the table gives: the row of the page, or an entry in the audit log.
  unfoldable pub ui_secret_item :
      {E : Type 0} → Server → Principal → Text → Option Secret → Exec World E (List UiSecretRow)
  unfolding audit_append ui_secret_row
  ui_secret_item s p path none = pure []
  ui_secret_item s p path (some sec) = elim (open_row s.kek sec (aad_of sec)) [
    | ok pt ↦ pure (ui_secret_row path sec pt ∷ [])
    | err e ↦ audit_append s p (codes "error:decrypt_failed") path (codes "error") >> pure []
  ]

  -- `uiSecretRows`.
  unfoldable pub ui_secret_rows :
      {E : Type 0} → Server → Principal → List Text → Exec World E (List UiSecretRow)
  unfolding get_secret ui_secret_item
  ui_secret_rows s p [] = pure []
  ui_secret_rows s p (path ∷ paths) =
      let rest = ui_secret_rows s p paths in
      if can_access_secret (some p) path
      then (do
        row ← attempt (get_secret path)
        item ← ui_secret_item s p path row
        items ← rest
        pure (item ++ items))
      else rest

  -- The loop of loadSecretsData over the numbers that were found.
  unfoldable pub found_paths : {E : Type 0} → List ℕ → Exec World E (List Text)
  unfolding secret_by_id
  found_paths [] = pure []
  found_paths (i ∷ ids) = do
    row ← attempt (secret_by_id i)
    paths ← found_paths ids
    pure (path_of_row row ++ paths)

  searched_paths : {E : Type 0} → Option (List ℕ) → Exec World E (List Text)
  unfolding found_paths
  searched_paths none = pure []
  searched_paths (some ids) = found_paths ids

  -- The paths that loadSecretsData shows.
  unfoldable pub paths_to_show : {E : Type 0} → Text → Exec World E (List Text)
  unfolding search_secrets searched_paths list_secret_paths
  paths_to_show q =
      if q != []
      then (do ids ← attempt (search_secrets q (pos 50)); searched_paths ids)
      else (do paths ← attempt (list_secret_paths []); pure (paths_or_none paths))

  -- `loadSecretsData`.
  unfoldable pub load_secrets_data :
      {E : Type 0} → Server → Principal → Text → Exec World E SecretsData
  unfolding paths_to_show ui_secret_rows
  load_secrets_data s p q = do
    paths ← paths_to_show q
    rows ← ui_secret_rows s p paths
    pure (record { query = q; count = length rows; form = none; secrets = rows })

  -- `handleUISecrets`.
  unfoldable pub handle_ui_secrets : Server → UiRequest → Principal → Text → UiHandler
  unfolding trim_space load_secrets_data render_page
  handle_ui_secrets s r p q = do
    d ← load_secrets_data s p (trim_space q)
    pure (render_page r (secrets_page s none d))

  -- `handleUISecretForm`.
  unfoldable pub handle_ui_secret_form : Text → UiHandler
  unfolding ui_set get_secret secret_form_of
  handle_ui_secret_form path = do
    fail_if (not (ui_set (codes "secrets"))) (ui_error 500 "template parse")
    form ←
        (if path == []
          then pure empty_secret_form
          else (do row ← attempt (get_secret path); pure (secret_form_of row)))
    pure (rendered (secret_form form))

  -- What handleUISecretValue answers for a row that it found.
  unfoldable pub ui_reveal_row : Server → Principal → Text → Secret → UiHandler
  unfolding audit_append render
  ui_reveal_row s p path sec = elim (open_row s.kek sec (aad_of sec)) [
    | ok pt ↦ do
      audit_append s p (codes "read") path (codes "ok")
      pure (render (codes "secrets") (reveal_value pt))
    | err e ↦ do
      audit_append s p (codes "error:decrypt_failed") path (codes "error")
      raise (ui_error 500 "decrypt failed")
  ]

  -- The test of the scope in handleUISecretValue.
  unfoldable pub ui_check_scope : Server → Principal → Text → Exec World UiResponse (Unit {0})
  unfolding audit_append
  ui_check_scope s p path = if can_access_secret (some p) path then pure tt else (do
    audit_append s p (codes "denied:out_of_scope") path (codes "denied")
    raise (ui_error 403 "out of scope"))

  -- `handleUISecretValue`.
  unfoldable pub handle_ui_secret_value : Server → Principal → Text → UiHandler
  unfolding ui_check_scope get_secret ui_reveal_row trim_suffix trim_prefix
  handle_ui_secret_value s p url_path = do
    let path = trim_suffix (trim_prefix url_path (codes "/ui/secrets/value/")) b'/'
    ui_check_scope s p path
    sec ← get_secret path or_fail λ _. ui_error 404 "not found"
    ui_reveal_row s p path sec
