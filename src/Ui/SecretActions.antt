-- ===== src/Ui/SecretActions.antt =====
-- internal/api/ui_actions.go: saving and deleting a secret from the console.
pub mod SameAsApi
use scopuli.Prelude.{
  Bool, Bytes, Exec, Option, Result, Text, [], attempt, codes, err, fail_if, false, if◌then◌else◌,
  lift, nat_eq, none, ok, pure, raise, some, text_eq, true, ◌!=◌, ◌==◌, ◌>>=◌, ◌>>◌, ◌or_else◌,
}
use scopuli.Api.{Server, audit_append, open_row}
use scopuli.Api.Secrets.{next_version, written_secret}
use scopuli.Auth.{Principal}
use scopuli.Crypto.{aad_secret, seal}
use scopuli.Env.{Env}
use scopuli.Metadata.{
  MetadataError, empty_object, normalize_metadata, normalize_tags, validate_description,
}
use scopuli.Store.Database.{Secret, StoreError, World, not_found, now}
use scopuli.Store.Secrets.{delete_secret, get_secret, put_secret}
use scopuli.Strings.{trim_space}
use scopuli.Ui.{
  Message, SecretFormData, UiHandler, UiRequest, UiResponse, alert_error, alert_success,
  render_page, says, says_limit, ui_error,
}
use scopuli.Ui.SecretPages.{load_secrets_data, secrets_page}

-- The fields of the form; a value is given by its bytes.
pub record SecretForm : Type 0 where
  pub path : Text
  pub original_path : Text
  pub value : Bytes
  pub label : Text
  pub tags : Text
  pub description : Text
  pub metadata : Text

-- `path` or, if that is empty, `original_path`, both trimmed.
abbrev pub path_or_original : Text → Text → Text
path_or_original path original = if path == [] then original else path

unfoldable pub form_path : SecretForm → Text
unfolding trim_space
form_path f = path_or_original (trim_space f.path) (trim_space f.original_path)

-- `form` of handleUISecretSave.
unfoldable pub secret_form_data : SecretForm → SecretFormData
unfolding form_path trim_space
secret_form_data f = record {
  editing = trim_space f.original_path != [];
  path = form_path f;
  label = trim_space f.label;
  tags = trim_space f.tags;
  description = f.description;
  metadata = trim_space f.metadata;
  alert = none;
}

module _ ⦃env : Env⦄ where
  -- `fail` of handleUISecretSave.
  unfoldable pub fail_secret :
      {A : Type 0} → Server → UiRequest → Principal → SecretForm → Message → Exec World UiResponse A
  unfolding load_secrets_data render_page secret_form_data
  fail_secret s r p f msg = do
    d ← load_secrets_data s p []
    let alert = some (alert_error (codes "Could not save secret") msg)
    let form = record (secret_form_data f) { alert = alert }
    raise (render_page r (secrets_page s alert (record d { form = some form })))

  -- The metadata of a form: an empty text is `{}`.
  unfoldable pub form_metadata : Text → Result MetadataError Text
  unfolding normalize_metadata
  form_metadata raw = if raw == [] then ok empty_object else normalize_metadata raw

  opened_value : Server → Option Secret → Result Text Bytes
  opened_value s none = err (codes "A value is required for new secrets.")
  opened_value s (some sec) = elim (open_row s.kek sec sec.aad) [
    | ok pt ↦ ok pt
    | err e ↦ err (codes "The existing value could not be decrypted.")
  ]

  -- The value to store: an empty one stands for the value that is there.
  unfoldable pub value_to_store : Server → Bytes → Option Secret → Result Text Bytes
  unfolding opened_value
  value_to_store s value existing = if value == [] then opened_value s existing else ok value

  -- Sealing and storing.
  unfoldable pub seal_and_store :
      Server
      → UiRequest
      → Principal
      → SecretForm
      → Text
      → Text
      → Bytes
      → Option Secret
      → Exec World UiResponse (Unit {0})
  unfolding now seal put_secret written_secret aad_secret fail_secret form_path trim_space
  seal_and_store s r p f tags meta value existing = do
    t ← now
    let path = form_path f
    let aad = aad_secret path f.description (next_version existing f.description)
    sealed ←
        seal s.kek value aad or_else λ _. fail_secret s r p f (says (codes "Encryption failed."))
    put_secret
          (written_secret existing path (trim_space f.label) tags f.description meta t aad sealed)
        or_else λ _. fail_secret s r p f (says (codes "The secret could not be stored."))

  -- A test of the fields.
  unfoldable pub fail_secret_if :
      Server → UiRequest → Principal → SecretForm → Bool → Text → Exec World UiResponse (Unit {0})
  unfolding fail_secret
  fail_secret_if s r p f true msg = fail_secret s r p f (says msg)
  fail_secret_if s r p f false msg = pure tt

  -- `handleUISecretSave` up to the audit entry; the path that was written is the result.
  unfoldable pub save_secret :
      Server → UiRequest → Principal → SecretForm → Exec World UiResponse Text
  unfolding form_path secret_form_data fail_secret fail_secret_if form_metadata get_secret
      value_to_store seal_and_store audit_append
  save_secret s r p f = do
    let path = form_path f
    let form = secret_form_data f
    fail_secret_if s r p f (path == []) (codes "A path is required, e.g. aws/prod/stripe_key.")
    tags ← lift (normalize_tags form.tags) or_else λ e. fail_secret s r p f (says_limit e)
    lift (validate_description f.description) or_else λ e. fail_secret s r p f (says_limit e)
    meta ← lift (form_metadata form.metadata) or_else λ e. fail_secret s r p f (says_limit e)
    existing ← attempt (get_secret path)
    value ← lift (value_to_store s f.value existing) or_else λ e. fail_secret s r p f (says e)
    seal_and_store s r p f tags meta value existing
    audit_append s p (codes "write") path (codes "ok")
    pure path

  saved_message : Bool → Text
  saved_message editing =
      if editing
      then codes "Changes were saved and the secret re-encrypted."
      else codes "The secret was encrypted and stored."

  -- `handleUISecretSave`.
  unfoldable pub handle_ui_secret_save : Server → UiRequest → Principal → SecretForm → UiHandler
  unfolding save_secret load_secrets_data render_page saved_message
  handle_ui_secret_save s r p f = do
    save_secret s r p f
    d ← load_secrets_data s p []
    let msg = says (saved_message (secret_form_data f).editing)
    pure (render_page r (secrets_page s (some (alert_success (codes "Secret saved") msg)) d))

  -- What handleUISecretDelete answers when the store fails.
  unfoldable pub ui_delete_failure :
      Server → UiRequest → Principal → StoreError → Exec World UiResponse (Unit {0})
  unfolding load_secrets_data render_page
  ui_delete_failure s r p not_found = do
    d ← load_secrets_data s p []
    let alert =
        alert_error (codes "Secret not found") (says (codes "It may have been deleted already."))
    raise (render_page r (secrets_page s (some alert) d))
  ui_delete_failure s r p e = raise (ui_error 500 "delete")

  -- `handleUISecretDelete`.
  unfoldable pub handle_ui_secret_delete : Server → UiRequest → Principal → Text → UiHandler
  unfolding trim_space delete_secret ui_delete_failure audit_append load_secrets_data render_page
  handle_ui_secret_delete s r p field = do
    let path = trim_space field
    fail_if (path == []) (ui_error 400 "path required")
    delete_secret path or_else ui_delete_failure s r p
    audit_append s p (codes "delete") path (codes "ok")
    d ← load_secrets_data s p []
    pure (
        render_page r
          (secrets_page s (some (alert_success (codes "Secret deleted") (says path))) d))
