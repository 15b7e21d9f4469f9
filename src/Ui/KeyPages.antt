-- ===== src/Ui/KeyPages.antt =====
-- internal/api/ui_pages.go: the pages of the keys.
use scopuli.Prelude.{
  Bool, Exec, List, Option, Text, [], attempt, codes, elem, fail_if, false, if◌then◌else◌,
  is_positive, nat_eq, none, not, pos, pure, some, text_eq, true, ℕ, ℤ, ◌!=◌, ◌&&◌, ◌++◌, ◌==◌,
  ◌>>=◌, ◌>>◌, ◌∷◌,
}
use scopuli.Api.{Server, integer_or_zero, split_csv}
use scopuli.Auth.{is_expired}
use scopuli.Env.{Env}
use scopuli.Store.Database.{Key, World, now}
use scopuli.Store.Keys.{get_key_by_name, is_some, key_by_id, list_keys, search_keys}
use scopuli.Strings.{trim_space}
use scopuli.Ui.{
  Alert, KeyFormData, KeysData, RelTime, UiHandler, UiKeyRow, UiPage, UiRequest, alert_error,
  at_no_time, key_form, of_keys, rel_time, render_page, rendered, says, ui_error, ui_set,
}

-- `row` of loadKeysData, at a time in milliseconds.
unfoldable pub ui_key_row : Key → ℕ → RelTime → RelTime → UiKeyRow
unfolding split_csv is_expired
ui_key_row k t expires last_used = record {
  name = k.name;
  prefix = k.prefix;
  scope = k.scope;
  permissions = k.permissions;
  tags = split_csv k.tags;
  description = k.description;
  is_revoked = is_some k.revoked_at;
  has_expired = not (is_some k.revoked_at) && is_expired k.expires_at t;
  permission_badge =
      if k.permissions == codes "manage"
      then (codes "muted", codes "manage")
      else ([], codes "read");
  expires = expires;
  last_used = last_used;
}

-- The tests of the loop that skip a key.
unfoldable pub key_is_shown : Text → Text → List Text → Key → Bool
key_is_shown status q found k =
    not (status == codes "active" && is_some k.revoked_at)
    && not (status == codes "revoked" && not (is_some k.revoked_at))
    && not (q != [] && not (elem k.name found))

-- `status` of handleUIKeys.
unfoldable pub key_status : Text → Text
key_status t = if t != codes "active" && t != codes "revoked" then codes "all" else t

abbrev pub empty_key_form : KeyFormData
empty_key_form = record {
  editing = false;
  name = [];
  scope = [];
  permissions = codes "read";
  expires_in = [];
  tags = [];
  description = [];
  metadata = [];
  alert = none;
}

-- The form of handleUIKeyForm after the lookup of its name.
unfoldable pub key_form_of : Option Key → KeyFormData
key_form_of none = record empty_key_form {
  alert = some (alert_error (codes "Key not found") (says (codes "It may have been deleted.")));
}
key_form_of (some k) = record {
  editing = true;
  name = k.name;
  scope = k.scope;
  permissions = k.permissions;
  expires_in = [];
  tags = k.tags;
  description = k.description;
  metadata = k.metadata;
  alert = none;
}

abbrev pub keys_page : Server → Option Alert → KeysData → UiPage
keys_page s alert d = record {
  active = codes "keys";
  operator_name = s.operator_name;
  alert = alert;
  contents = of_keys d;
}

abbrev name_of_row : Option Key → List Text
name_of_row none = []
name_of_row (some k) = k.name ∷ []

abbrev pub keys_data : Text → Text → List UiKeyRow → KeysData
keys_data status q rows = record {
  status = status;
  query = q;
  form = none;
  new_key = [];
  keys = rows;
}

abbrev used_at : Option ℕ → ℤ
used_at none = pos 0
used_at (some t) = pos t

module _ ⦃env : Env⦄ where
  -- The time of a column, or that it is not set.
  unfoldable pub column_time : {E : Type 0} → ℤ → Exec World E RelTime
  unfolding rel_time
  column_time ms = if is_positive ms then rel_time ms else pure at_no_time

  -- The loop of loadKeysData.
  unfoldable pub ui_key_rows :
      {E : Type 0} → Text → Text → List Text → ℕ → List Key → Exec World E (List UiKeyRow)
  unfolding ui_key_row key_is_shown column_time
  ui_key_rows status q found t [] = pure []
  ui_key_rows status q found t (k ∷ keys) =
      let rest = ui_key_rows status q found t keys in
      if key_is_shown status q found k
      then (do
        expires ← column_time (integer_or_zero k.expires_at)
        last_used ← column_time (used_at k.last_used_at)
        rows ← rest
        pure (ui_key_row k t expires last_used ∷ rows))
      else rest

  -- The loop of loadKeysData over the numbers that were found.
  unfoldable pub found_names : {E : Type 0} → List ℕ → Exec World E (List Text)
  unfolding key_by_id
  found_names [] = pure []
  found_names (i ∷ ids) = do
    row ← attempt (key_by_id i)
    names ← found_names ids
    pure (name_of_row row ++ names)

  searched_names : {E : Type 0} → Option (List ℕ) → Exec World E (List Text)
  unfolding found_names
  searched_names none = pure []
  searched_names (some ids) = found_names ids

  rows_of_keys : {E : Type 0} → Text → Text → Option (List Key) → Exec World E (List UiKeyRow)
  unfolding search_keys searched_names now ui_key_rows
  rows_of_keys status q none = pure []
  rows_of_keys status q (some keys) = do
    found ←
        (if q != []
          then (do ids ← attempt (search_keys q (pos 50)); searched_names ids)
          else pure [])
    t ← now
    ui_key_rows status q found t keys

  -- `loadKeysData`.
  unfoldable pub load_keys_data : {E : Type 0} → Text → Text → Exec World E KeysData
  unfolding list_keys rows_of_keys
  load_keys_data status q = do
    keys ← attempt (list_keys true)
    rows ← rows_of_keys status q keys
    pure (keys_data status q rows)

  -- `handleUIKeys`.
  unfoldable pub handle_ui_keys : Server → UiRequest → Text → Text → UiHandler
  unfolding key_status trim_space load_keys_data render_page
  handle_ui_keys s r status q = do
    d ← load_keys_data (key_status status) (trim_space q)
    pure (render_page r (keys_page s none d))

  -- `handleUIKeyForm`.
  unfoldable pub handle_ui_key_form : Text → UiHandler
  unfolding ui_set get_key_by_name key_form_of
  handle_ui_key_form name = do
    fail_if (not (ui_set (codes "keys"))) (ui_error 500 "template parse")
    form ←
        (if name == []
          then pure empty_key_form
          else (do row ← attempt (get_key_by_name name); pure (key_form_of row)))
    pure (rendered (key_form form))
