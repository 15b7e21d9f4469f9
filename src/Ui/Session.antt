-- ===== src/Ui/Session.antt =====
-- internal/api/ui_session.go: the signed session cookie, the middleware of the console, login, logout.
pub mod Cookie
pub mod Expiry
pub mod Admission
pub mod Login
use scopuli.Prelude.{
  Bool, Bytes, Exec, Option, Text, [], codes, fail_if, false, if◌then◌else◌, lt_ℕ, nat_eq, none,
  not, pure, some, text_eq, text_of_utf8, utf8, ℕ, ℤ, ◌!=◌, ◌&&◌, ◌*◌, ◌++◌, ◌+◌, ◌/◌, ◌==◌, ◌>>=◌,
  ◌>>◌, ◌or_fail◌, ◌∷◌,
}
use scopuli.Api.{Server}
use scopuli.Audit.{bytes_equal}
use scopuli.Auth.{AuthError, Principal, authenticate, is_operator, unauthenticated}
use scopuli.Env.{Env}
use scopuli.Store.Database.{World, time_now}
use scopuli.Store.Keys.{is_some}
use scopuli.Strings.{cut, trim_space}
use scopuli.Strings.Decimal.{decimal, parse_int64}
use scopuli.Ui.{
  UiHandler, UiRequest, UiResponse, alert_error, clear_cookie, hx_redirect, keep_cookie, location,
  nothing, render_login, says, set_cookie, ui_error,
}

-- `uiSessionLifetime`, in seconds.
abbrev pub ui_session_lifetime : ℕ
ui_session_lifetime = 30 * 24 * 3600

-- The text that is signed: `v1|<expiry>|<token>`.
unfoldable pub session_payload : ℕ → Text → Text
unfolding decimal
session_payload exp token = codes "v1" ++ b'|' ∷ (decimal exp ++ b'|' ∷ token)

-- `strings.SplitN(s, sep, 3)` when it has three parts.
unfoldable pub split_three : ℕ → Text → Option (Text × Text × Text)
unfolding cut
split_three sep s = elim (cut sep s) [
  | none ↦ none
  | some (first, rest) ↦ elim (cut sep rest) [
    | none ↦ none
    | some (second, third) ↦ some (first, second, third)
  ]
]

abbrev pub token_until : Option ℤ → ℕ → Text → Text
token_until none time token = []
token_until (some exp) time token = if lt_ℕ exp time then [] else token

unfoldable pub token_of_fields : ℕ → Option (Text × Text × Text) → Text
unfolding parse_int64
token_of_fields time none = []
token_of_fields time (some (version, expiry, token)) =
    if version != codes "v1" then [] else token_until (parse_int64 expiry) time token

-- What a payload says at a time: its token, or the empty text.
unfoldable pub session_token : ℕ → Text → Text
unfolding split_three token_of_fields
session_token time payload = token_of_fields time (split_three b'|' payload)

unfoldable pub field_is_time : Option (Text × Text × Text) → Bool
unfolding parse_int64
field_is_time none = false
field_is_time (some (version, expiry, token)) =
    version == codes "v1" && is_some (parse_int64 expiry)

-- Whether verifyUICookie reads the clock.
unfoldable pub has_expiry_field : Text → Bool
unfolding split_three field_is_time
has_expiry_field payload = field_is_time (split_three b'|' payload)

abbrev pub to_login : UiRequest → Text → UiResponse
to_login r url = record {
  status = if r.is_htmx then 401 else 302;
  redirect = if r.is_htmx then hx_redirect url else location url;
  cookie = keep_cookie;
  body = nothing;
}

module _ ⦃env : Env⦄ where
  -- `UISessionKey`.
  unfoldable pub ui_session_key : Bytes → Bytes
  ui_session_key kek = env.hmac_sha256 kek (codes "scopuli:ui-session:v1")

  -- The value of the cookie for a payload.
  unfoldable pub sign_payload : Bytes → Bytes → Text
  sign_payload session_key payload =
      env.base64url payload ++ b'.' ∷ env.base64url (env.hmac_sha256 session_key payload)

  -- `issueUICookie`.
  unfoldable pub issue_ui_cookie : {E : Type 0} → Server → Text → Exec World E Text
  unfolding time_now session_payload sign_payload
  issue_ui_cookie s token = do
    t ← time_now
    pure (
        sign_payload s.session_key
          (utf8 (session_payload (t / 1000000000 + ui_session_lifetime) token)))

  -- The payload of a cookie whose signature holds.
  unfoldable pub signed_payload : Bytes → Text → Option Text
  unfolding cut bytes_equal text_of_utf8
  signed_payload session_key value = elim (cut b'.' value) [
    | none ↦ none
    | some (front, back) ↦ elim (env.base64url_decode front) [
      | none ↦ none
      | some payload ↦ elim (env.base64url_decode back) [
        | none ↦ none
        | some sig ↦
            if bytes_equal sig (env.hmac_sha256 session_key payload)
            then some (text_of_utf8 payload)
            else none
      ]
    ]
  ]

  -- The token of a payload, or the empty text.
  unfoldable pub unexpired_token : {E : Type 0} → Option Text → Exec World E Text
  unfolding time_now session_token has_expiry_field
  unexpired_token none = pure []
  unexpired_token (some payload) =
      if has_expiry_field payload
      then (do t ← time_now; pure (session_token (t / 1000000000) payload))
      else pure []

  -- `verifyUICookie`.
  unfoldable pub verify_ui_cookie : {E : Type 0} → Server → UiRequest → Exec World E Text
  unfolding signed_payload unexpired_token
  verify_ui_cookie s r = if s.session_key == [] then pure [] else (elim r.session [
    | none ↦ pure []
    | some value ↦ unexpired_token (signed_payload s.session_key value)
  ])

  -- The operator of a token, as Authenticate finds it.
  unfoldable pub authenticate_token : UiRequest → Text → Exec World AuthError Principal
  unfolding authenticate
  authenticate_token r token = authenticate (record r.credentials { operator_header = token })

  -- `p.Kind != "operator"` after Authenticate.
  unfoldable pub operator_of : UiRequest → Text → Exec World AuthError Principal
  unfolding authenticate_token
  operator_of r token = do
    p ← authenticate_token r token
    fail_if (not (is_operator p.kind)) unauthenticated
    pure p

  -- `requireUISession`.
  unfoldable pub require_ui_session : Server → UiRequest → (Principal → UiHandler) → UiHandler
  unfolding verify_ui_cookie operator_of
  require_ui_session s r next = do
    token ← verify_ui_cookie s r
    fail_if (token == []) (to_login r (codes "/ui/login"))
    p ← operator_of r token or_fail λ _. record (to_login r (codes "/ui/login")) {
      cookie = clear_cookie;
    }
    next p

  -- `handleUILoginPage`.
  unfoldable pub handle_ui_login_page : Server → UiRequest → UiHandler
  unfolding verify_ui_cookie render_login
  handle_ui_login_page s r = do
    token ← verify_ui_cookie s r
    pure (
        if token == [] then render_login r (record { token = []; alert = none }) else record {
          status = 302;
          redirect = location (codes "/ui/");
          cookie = keep_cookie;
          body = nothing;
        })

  -- `handleUILogin`, of the form's field.
  unfoldable pub handle_ui_login : Server → UiRequest → Text → UiHandler
  unfolding trim_space operator_of issue_ui_cookie render_login
  handle_ui_login s r field = do
    let token = trim_space field
    fail_if (token == []) (
        render_login r (record {
          token = [];
          alert = some (
              alert_error (codes "Master key required")
                (says (codes "Enter the operator token to unlock the console.")));
        }))
    operator_of r token or_fail λ _. render_login r (record {
      token = token;
      alert = some (
          alert_error (codes "Invalid master key") (
            says (
              codes
                "No operator token matches. Check for typos, or rotate the token if it was lost.")));
    })
    value ← issue_ui_cookie s token
    pure (record {
      status = if r.is_htmx then 204 else 302;
      redirect = if r.is_htmx then hx_redirect (codes "/ui/") else location (codes "/ui/");
      cookie = set_cookie value;
      body = nothing;
    })

-- `requireUIHX`.
unfoldable pub require_ui_hx : UiRequest → UiHandler → UiHandler
require_ui_hx r next = do fail_if (not r.is_htmx) (ui_error 403 "ui mutations require htmx"); next

-- `handleUILogout`.
abbrev pub handle_ui_logout : UiHandler
handle_ui_logout = pure (record {
  status = 204;
  redirect = hx_redirect (codes "/ui/login");
  cookie = clear_cookie;
  body = nothing;
})
