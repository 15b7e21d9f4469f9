-- ===== src/Ui.antt =====
-- internal/api/ui.go and ui_assets.go: requests of the web console, its answers, and how pages are
-- rendered. A template and its data stand for the document.
pub mod EndsAs
pub mod Session
pub mod AuditPages
pub mod SecretPages
pub mod KeyPages
pub mod SecretActions
pub mod KeyActions
pub mod Routes
use scopuli.Prelude.{
  Bool, Bytes, Exec, List, Option, Result, String, Text, [], codes, elem, err, if◌then◌else◌, leb,
  ltb, nat_eq, negsuc, ok, pos, pure, text_eq, ℕ, ℤ, ◌&&◌, ◌*◌, ◌-◌, ◌/◌, ◌==◌, ◌>>=◌, ◌>>◌, ◌||◌,
  ◌∷◌,
}
use scopuli.Api.{broken_at}
use scopuli.Api.Keys.{new_key}
use scopuli.Auth.{Credentials}
use scopuli.Env.{Env}
use scopuli.Metadata.{MetadataError}
use scopuli.Store.Database.{World, next_id, time_now}

-- What an alert says: a text, or the error of a package.
pub data Message : Type 0 where
  says : Text → Message
  says_limit : MetadataError → Message
  says_duration : Text → Message

-- `uiAlert`, of a kind "error" or "success".
pub data Alert : Type 0 where
  alert_error alert_success : Text → Message → Alert

-- What `relTime` returns.
pub data RelTime : Type 0 where
  dash just_now at_no_time : RelTime
  minutes_ago hours_ago : ℕ → RelTime
  on_date : ℤ → RelTime

-- `uiAuditRow`.
pub record UiAuditRow : Type 0 where
  pub id : ℕ
  pub ts : ℕ
  pub actor_kind : Text
  pub actor : Text
  pub action : Text
  pub path : Text
  pub result_badge : Text × Text

-- `dashboardData`.
pub record DashboardData : Type 0 where
  pub secrets : ℕ
  pub active_keys : ℕ
  pub revoked_keys : ℕ
  pub audit_24h : ℕ
  pub recent : List UiAuditRow

-- `uiSecretRow`.
pub record UiSecretRow : Type 0 where
  pub id : Text
  pub path : Text
  pub label : Text
  pub tags : List Text
  pub description : Text
  pub version : ℕ
  pub updated_at : ℕ
  pub preview : Bytes

-- `secretFormData`.
pub record SecretFormData : Type 0 where
  pub editing : Bool
  pub path : Text
  pub label : Text
  pub tags : Text
  pub description : Text
  pub metadata : Text
  pub alert : Option Alert

-- `secretsData`; the form is there if ShowForm is set.
pub record SecretsData : Type 0 where
  pub query : Text
  pub count : ℕ
  pub form : Option SecretFormData
  pub secrets : List UiSecretRow

-- `uiKeyRow`.
pub record UiKeyRow : Type 0 where
  pub name : Text
  pub prefix : Text
  pub scope : Text
  pub permissions : Text
  pub tags : List Text
  pub description : Text
  pub is_revoked : Bool
  pub has_expired : Bool
  pub permission_badge : Text × Text
  pub expires : RelTime
  pub last_used : RelTime

-- `keyFormData`.
pub record KeyFormData : Type 0 where
  pub editing : Bool
  pub name : Text
  pub scope : Text
  pub permissions : Text
  pub expires_in : Text
  pub tags : Text
  pub description : Text
  pub metadata : Text
  pub alert : Option Alert

-- `keysData`; the form is there if ShowForm is set.
pub record KeysData : Type 0 where
  pub status : Text
  pub query : Text
  pub form : Option KeyFormData
  pub new_key : Text
  pub keys : List UiKeyRow

-- `auditPageData`.
pub record AuditPageData : Type 0 where
  pub is_verified : Bool
  pub broken_at : ℕ
  pub total : ℕ
  pub since : Text
  pub filter_key : Text
  pub action : Text
  pub rows : List UiAuditRow
  pub has_more : Bool
  pub next_id : ℕ

-- `loginData`.
pub record LoginData : Type 0 where
  pub token : Text
  pub alert : Option Alert

pub data PageData : Type 0 where
  of_dashboard : DashboardData → PageData
  of_secrets : SecretsData → PageData
  of_keys : KeysData → PageData
  of_audit : AuditPageData → PageData

-- `uiPage`; its title goes with `active`.
pub record UiPage : Type 0 where
  pub active : Text
  pub operator_name : Text
  pub alert : Option Alert
  pub contents : PageData

-- The body of an answer: a JSON error, or a template with its data.
pub data UiBody : Type 0 where
  nothing : UiBody
  json_error : Text → UiBody
  full_page page_fragment : UiPage → UiBody
  login_page login_card : LoginData → UiBody
  secret_form : SecretFormData → UiBody
  key_form : KeyFormData → UiBody
  reveal_value : Bytes → UiBody
  audit_older : AuditPageData → UiBody

-- The header `Location` or `HX-Redirect`.
pub data Redirect : Type 0 where
  stay : Redirect
  location hx_redirect : Text → Redirect

-- What `Set-Cookie` does to the session cookie.
pub data CookieChange : Type 0 where
  keep_cookie clear_cookie : CookieChange
  set_cookie : Text → CookieChange

pub record UiResponse : Type 0 where
  pub status : ℕ
  pub redirect : Redirect
  pub cookie : CookieChange
  pub body : UiBody

-- What the handlers share of a request: `HX-Request: true`, the session cookie, and the headers that
-- Authenticate reads.
pub record UiRequest : Type 0 where
  pub is_htmx : Bool
  pub session : Option Text
  pub credentials : Credentials

abbrev pub UiHandler : Type 0
UiHandler = Exec World UiResponse UiResponse

abbrev pub ui_answer : Result UiResponse UiResponse × World → UiResponse × World
ui_answer (ok r, w) = (r, w)
ui_answer (err r, w) = (r, w)

abbrev pub ui_serve : UiHandler → World → UiResponse × World
ui_serve h w = ui_answer (h w)

-- `writeErr`.
abbrev pub ui_error : ℕ → String → UiResponse
ui_error status msg = record {
  status = status;
  redirect = stay;
  cookie = keep_cookie;
  body = json_error (codes msg);
}

abbrev pub rendered : UiBody → UiResponse
rendered b = record { status = 200; redirect = stay; cookie = keep_cookie; body = b }

-- `uiPages`.
abbrev pub ui_pages : List Text
ui_pages = codes "dashboard" ∷ codes "secrets" ∷ codes "keys" ∷ codes "audit" ∷ codes "login" ∷ []

module _ ⦃env : Env⦄ where
  -- `uiSet`: whether the templates of a page are there.
  unfoldable pub ui_set : Text → Bool
  ui_set page = env.templates_parse && elem page ui_pages

  -- Rendering fails if the templates of the page are not there.
  unfoldable pub render : Text → UiBody → UiResponse
  unfolding ui_set
  render page body = if ui_set page then rendered body else ui_error 500 "template parse"

  -- `renderPage`.
  unfoldable pub render_page : UiRequest → UiPage → UiResponse
  unfolding render
  render_page r page = render page.active (if r.is_htmx then page_fragment page else full_page page)

  -- `renderLogin`.
  unfoldable pub render_login : UiRequest → LoginData → UiResponse
  unfolding render
  render_login r d = render (codes "login") (if r.is_htmx then login_card d else login_page d)

  -- `relTime`: the time is read for a time after 1970 only. A date stands for its milliseconds.
  unfoldable pub rel_time : {E : Type 0} → ℤ → Exec World E RelTime
  unfolding time_now
  rel_time (negsuc n) = pure dash
  rel_time (pos ms) = if ms == 0 then pure dash else (do
    t ← time_now
    let d = t - ms * 1000000
    pure (
        if ltb d (60 * 1000000000)
        then just_now
        else if ltb d (3600 * 1000000000)
        then minutes_ago (d / (60 * 1000000000))
        else if ltb d (48 * 3600 * 1000000000)
        then hours_ago (d / (3600 * 1000000000))
        else on_date (pos ms)))

-- `badgeForResult`.
unfoldable pub badge_for_result : Text → Text × Text
badge_for_result r =
    if r == codes "ok" then (codes "muted", codes "ok") else (codes "destructive", r)

-- `cssID`.
unfoldable pub css_id : Text → Text
css_id [] = []
css_id (c ∷ s) =
    let rest = css_id s in
    if (leb b'a' c && leb c b'z')
      || (leb b'A' c && leb c b'Z')
      || (leb b'0' c && leb c b'9')
      || c == b'-'
      || c == b'_'
    then c ∷ rest
    else b'-' ∷ rest
