-- ===== src/Ui/Routes.antt =====
-- internal/api/server.go: the routes below /ui, and the middleware in front of each.
pub mod Guarded
use scopuli.Prelude.{Bool, Text, false, raise, true, ℤ}
use scopuli.Api.{Server}
use scopuli.Audit.{Logger}
use scopuli.Auth.{Principal}
use scopuli.Env.{Env}
use scopuli.Ui.{UiHandler, UiRequest, ui_error}
use scopuli.Ui.AuditPages.{handle_ui_audit, handle_ui_audit_older, handle_ui_dashboard}
use scopuli.Ui.KeyActions.{KeyForm, handle_ui_key_revoke, handle_ui_key_save}
use scopuli.Ui.KeyPages.{handle_ui_key_form, handle_ui_keys}
use scopuli.Ui.SecretActions.{SecretForm, handle_ui_secret_delete, handle_ui_secret_save}
use scopuli.Ui.SecretPages.{handle_ui_secret_form, handle_ui_secret_value, handle_ui_secrets}
use scopuli.Ui.Session.{
  handle_ui_login, handle_ui_login_page, handle_ui_logout, require_ui_hx, require_ui_session,
}

-- A request of the console, with what its handler reads of the URL or of the form.
pub data UiCall : Type 0 where
  get_login get_dashboard post_logout : UiCall
  post_login : Text → UiCall
  get_secrets get_secret_form get_secret_value : Text → UiCall
  get_keys : Text → Text → UiCall
  get_key_form : Text → UiCall
  get_audit : Text → Text → Text → UiCall
  get_audit_older : ℤ → Text → Text → Text → UiCall
  post_secret : SecretForm → UiCall
  post_secret_delete : Text → UiCall
  post_key : KeyForm → UiCall
  post_key_revoke : Text → UiCall

-- The routes in the group of requireUIHX.
unfoldable pub is_mutation : UiCall → Bool
is_mutation (post_secret f) = true
is_mutation (post_secret_delete f) = true
is_mutation (post_key f) = true
is_mutation (post_key_revoke f) = true
is_mutation post_logout = true
is_mutation c = false

module _ ⦃env : Env⦄ (s : Server) (l : Logger) (r : UiRequest) where
  -- What runs behind requireUISession.
  unfoldable pub ui_handler : UiCall → Principal → UiHandler
  unfolding handle_ui_dashboard handle_ui_secrets handle_ui_secret_form handle_ui_secret_value
      handle_ui_keys handle_ui_key_form handle_ui_audit handle_ui_audit_older handle_ui_secret_save
      handle_ui_secret_delete handle_ui_key_save handle_ui_key_revoke require_ui_hx
  ui_handler get_dashboard p = handle_ui_dashboard s l r
  ui_handler (get_secrets q) p = handle_ui_secrets s r p q
  ui_handler (get_secret_form path) p = handle_ui_secret_form path
  ui_handler (get_secret_value url) p = handle_ui_secret_value s p url
  ui_handler (get_keys status q) p = handle_ui_keys s r status q
  ui_handler (get_key_form name) p = handle_ui_key_form name
  ui_handler (get_audit since k action) p = handle_ui_audit s l r since k action
  ui_handler (get_audit_older before since k action) p = handle_ui_audit_older before since k action
  ui_handler (post_secret f) p = require_ui_hx r (handle_ui_secret_save s r p f)
  ui_handler (post_secret_delete f) p = require_ui_hx r (handle_ui_secret_delete s r p f)
  ui_handler (post_key f) p = require_ui_hx r (handle_ui_key_save s r p f)
  ui_handler (post_key_revoke f) p = require_ui_hx r (handle_ui_key_revoke s r p f)
  ui_handler post_logout p = require_ui_hx r handle_ui_logout
  ui_handler c p = raise (ui_error 404 "not found")

  -- The routes below /ui.
  unfoldable pub ui_route : UiCall → UiHandler
  unfolding handle_ui_login_page handle_ui_login require_ui_session ui_handler
  ui_route get_login = handle_ui_login_page s r
  ui_route (post_login field) = handle_ui_login s r field
  ui_route c = require_ui_session s r (ui_handler c)
