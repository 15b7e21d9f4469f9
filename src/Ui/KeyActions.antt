-- ===== src/Ui/KeyActions.antt =====
-- internal/api/ui_actions.go: creating, updating and revoking a key from the console.
use scopuli.Prelude.{
  Bool, Exec, Option, Result, Text, [], codes, err, fail_if, false, if◌then◌else◌, lift, ltb,
  nat_eq, negsuc, none, ok, pos, pure, raise, some, text_eq, true, ℕ, ℤ, ◌!=◌, ◌%◌, ◌&&◌, ◌*◌, ◌++◌,
  ◌-◌, ◌==◌, ◌>>=◌, ◌>>◌, ◌^◌, ◌or_else◌, ◌or_fail◌, ◌∷◌,
}
use scopuli.Api.{Server, audit_append}
use scopuli.Api.Keys.{bad_permissions, expiry_of}
use scopuli.Auth.{Principal}
use scopuli.Env.{Env}
use scopuli.Metadata.{normalize_tags, validate_description}
use scopuli.Store.Database.{Key, StoreError, World, already_exists, now, time_now}
use scopuli.Store.Keys.{create_key, get_key_by_name, revoke_key, update_key}
use scopuli.Strings.{trim_space}
use scopuli.Strings.Decimal.{parse_int64}
use scopuli.Token.{Issued, agent_key}
use scopuli.Ui.{
  KeyFormData, Message, UiHandler, UiRequest, UiResponse, alert_error, alert_success, render_page,
  says, says_duration, says_limit, ui_error,
}
use scopuli.Ui.AuditPages.{hour}
use scopuli.Ui.KeyPages.{keys_page, load_keys_data}
use scopuli.Ui.SecretActions.{form_metadata, path_or_original}

-- The fields of the form.
pub record KeyForm : Type 0 where
  pub name : Text
  pub original_name : Text
  pub scope : Text
  pub permissions : Text
  pub expires_in : Text
  pub tags : Text
  pub description : Text
  pub metadata : Text

unfoldable pub form_name : KeyForm → Text
unfolding trim_space
form_name f = path_or_original (trim_space f.name) (trim_space f.original_name)

-- `form` of handleUIKeySave.
unfoldable pub key_form_data : KeyForm → KeyFormData
unfolding form_name trim_space
key_form_data f = record {
  editing = trim_space f.original_name != [];
  name = form_name f;
  scope = trim_space f.scope;
  permissions = f.permissions;
  expires_in = trim_space f.expires_in;
  tags = trim_space f.tags;
  description = f.description;
  metadata = trim_space f.metadata;
  alert = none;
}

-- An int64 from its bit pattern.
unfoldable pub wrap_int64 : ℕ → ℤ
wrap_int64 n = let m = n % 2 ^ 64 in if ltb m (2 ^ 63) then pos m else negsuc (2 ^ 64 - m - 1)

-- `time.Duration(days) * 24 * time.Hour` in nanoseconds, which may wrap around.
unfoldable pub days_duration : Option ℤ → Result Text ℤ
unfolding wrap_int64
days_duration none = err (codes "invalid days")
days_duration (some (negsuc n)) = err (codes "invalid days")
days_duration (some (pos n)) =
    if n == 0 then err (codes "invalid days") else ok (wrap_int64 (n * (24 * hour)))

-- The text in front of a last `d`.
unfoldable pub before_last_d : Text → Option Text
before_last_d [] = none
before_last_d (c ∷ s) = elim (before_last_d s) [
  | some front ↦ some (c ∷ front)
  | none ↦ if s == [] && c == b'd' then some [] else none
]

unfoldable pub parse_days : Option Text → Result Text ℤ
unfolding parse_int64 days_duration
parse_days none = err (codes "invalid duration")
parse_days (some front) = days_duration (parse_int64 front)

-- What handleUIKeySave sets of a key that it updates.
unfoldable pub edited_key : Key → KeyFormData → Text → Text → Option ℤ → ℕ → ℕ → Key
edited_key k form tags meta expires_at t u = record k {
  scope = form.scope;
  permissions = form.permissions;
  expires_at = expires_at;
  tags = tags;
  description = form.description;
  description_updated_at = some t;
  metadata = meta;
  metadata_updated_at = some u;
}

-- The row that handleUIKeySave stores for a new key.
unfoldable pub created_row : KeyFormData → Issued → Text → Text → Option ℤ → Key
created_row form issued tags meta expires_at = record {
  id = 0;
  name = form.name;
  hash = issued.hash_hex;
  prefix = issued.prefix;
  scope = form.scope;
  permissions = form.permissions;
  tags = tags;
  description = form.description;
  metadata = meta;
  created_at = 0;
  expires_at = expires_at;
  revoked_at = none;
  last_used_at = none;
  description_updated_at = none;
  metadata_updated_at = none;
}

abbrev create_message : Text → StoreError → Text
create_message name already_exists = codes "A key named " ++ (name ++ codes " already exists.")
create_message name e = codes "The key could not be stored."

module _ ⦃env : Env⦄ where
  -- `parseDurationLoose`.
  unfoldable pub parse_duration_loose : Text → Result Text ℤ
  unfolding before_last_d parse_days
  parse_duration_loose s = elim (env.parse_duration s) [
    | some d ↦ ok d
    | none ↦ parse_days (before_last_d s)
  ]

  -- `fail` of handleUIKeySave.
  unfoldable pub fail_key :
      {A : Type 0} → Server → UiRequest → KeyForm → Message → Exec World UiResponse A
  unfolding load_keys_data render_page key_form_data
  fail_key s r f msg = do
    d ← load_keys_data (codes "all") []
    let alert = some (alert_error (codes "Could not save key") msg)
    let form = record (key_form_data f) { alert = alert }
    raise (render_page r (keys_page s alert (record d { form = some form })))

  -- The tests of the fields, and the normalized tags and metadata.
  unfoldable pub check_key_form : Server → UiRequest → KeyForm → Exec World UiResponse (Text × Text)
  unfolding key_form_data fail_key bad_permissions form_metadata
  check_key_form s r f = do
    let form = key_form_data f
    fail_when (form.name == []) (codes "A name is required.")
    fail_when (form.scope == [])
        (codes "A scope is required, e.g. aws/*,github/* (or * for everything).")
    fail_when (bad_permissions form.permissions) (codes "Permissions must be read or manage.")
    tags ← lift (normalize_tags form.tags) or_else λ e. fail_key s r f (says_limit e)
    lift (validate_description form.description) or_else λ e. fail_key s r f (says_limit e)
    meta ← lift (form_metadata form.metadata) or_else λ e. fail_key s r f (says_limit e)
    pure (tags, meta)
    where
      fail_when : Bool → Text → Exec World UiResponse (Unit {0})
      fail_when true msg = fail_key s r f (says msg)
      fail_when false msg = pure tt

  -- The expiry of the form; an empty field is none.
  unfoldable pub form_expiry : Server → UiRequest → KeyForm → Exec World UiResponse (Option ℤ)
  unfolding key_form_data parse_duration_loose fail_key time_now expiry_of
  form_expiry s r f =
      let expires_in = (key_form_data f).expires_in in
      if expires_in == [] then pure none else (do
        d ← lift (parse_duration_loose expires_in) or_else λ e. fail_key s r f (says_duration e)
        t ← time_now
        pure (some (expiry_of t d)))

  -- The part of handleUIKeySave that updates a key.
  unfoldable pub edit_key :
      Server → UiRequest → Principal → KeyForm → Text → Text → Option ℤ → UiHandler
  unfolding trim_space get_key_by_name fail_key now update_key audit_append load_keys_data
      render_page edited_key key_form_data
  edit_key s r p f tags meta expires_at = do
    let original = trim_space f.original_name
    k ← get_key_by_name original or_else λ _. fail_key s r f (says (codes "Key not found."))
    t ← now
    u ← now
    update_key (edited_key k (key_form_data f) tags meta expires_at t u) or_else λ _.
        fail_key s r f (says (codes "The key could not be updated."))
    audit_append s p (codes "key.update") original (codes "ok")
    d ← load_keys_data (codes "all") []
    pure
        (render_page r (keys_page s (some (alert_success (codes "Key updated") (says original))) d))

  -- The part of handleUIKeySave that creates a key.
  unfoldable pub make_key :
      Server → UiRequest → Principal → KeyForm → Text → Text → Option ℤ → UiHandler
  unfolding agent_key create_key fail_key audit_append load_keys_data render_page created_row
      key_form_data
  make_key s r p f tags meta expires_at = do
    let form = key_form_data f
    issued ← agent_key or_else λ _. fail_key s r f (says (codes "Key generation failed."))
    create_key (created_row form issued tags meta expires_at) or_else λ e.
        fail_key s r f (says (create_message form.name e))
    audit_append s p (codes "key.create") form.name (codes "ok")
    d ← load_keys_data (codes "all") []
    let msg = form.name ++ codes " — copy the token from the dialog, it is shown once."
    let shown = record d { new_key = issued.token }
    pure (render_page r (keys_page s (some (alert_success (codes "Key created") (says msg))) shown))

  -- `handleUIKeySave`.
  unfoldable pub handle_ui_key_save : Server → UiRequest → Principal → KeyForm → UiHandler
  unfolding check_key_form form_expiry edit_key make_key key_form_data
  handle_ui_key_save s r p f = do
    checked ← check_key_form s r f
    expires_at ← form_expiry s r f
    if (key_form_data f).editing
        then edit_key s r p f checked.0 checked.1 expires_at
        else make_key s r p f checked.0 checked.1 expires_at

  -- `handleUIKeyRevoke`.
  unfoldable pub handle_ui_key_revoke : Server → UiRequest → Principal → Text → UiHandler
  unfolding trim_space get_key_by_name load_keys_data render_page revoke_key audit_append
  handle_ui_key_revoke s r p field = do
    let name = trim_space field
    fail_if (name == []) (ui_error 400 "name required")
    k ← get_key_by_name name or_else λ _. not_there
    revoke_key k.id or_fail λ _. ui_error 500 "revoke"
    audit_append s p (codes "key.revoke") name (codes "ok")
    d ← load_keys_data (codes "all") []
    let msg = says (name ++ codes " can no longer authenticate.")
    pure (render_page r (keys_page s (some (alert_success (codes "Key revoked") msg)) d))
    where
      not_there : {A : Type 0} → Exec World UiResponse A
      not_there = do
        d ← load_keys_data (codes "all") []
        let alert = alert_error (codes "Key not found") (says (codes "It may have been deleted."))
        raise (render_page r (keys_page s (some alert) d))
