-- ===== src/Ui/Routes/Guarded.antt =====
-- Nobody but an operator with a session changes a table through the console.
use scopuli.Prelude.{Bool-cases, Text, arith, false, inl, inr, refl, true, ◌∙◌, ◌≡◌, ◌⊎◌}
use scopuli.Api.{Server}
use scopuli.Audit.{Logger}
use scopuli.Auth.{Principal, authenticate, operator_principal}
use scopuli.Env.{Env}
use scopuli.Store.Database.{Operator, World, statement}
use scopuli.Store.Operators.{get_operator_by_hash}
use scopuli.Ui.{UiHandler, UiRequest, UiResponse, ui_serve}
use scopuli.Ui.KeyActions.{handle_ui_key_revoke, handle_ui_key_save}
use scopuli.Ui.Routes.{
  UiCall, get_login, is_mutation, post_key, post_key_revoke, post_login, post_logout, post_secret,
  post_secret_delete, ui_handler, ui_route,
}
use scopuli.Ui.SecretActions.{handle_ui_secret_delete, handle_ui_secret_save}
use scopuli.Ui.Session.{
  authenticate_token, handle_ui_login, handle_ui_login_page, handle_ui_logout, issue_ui_cookie,
  operator_of, require_ui_hx, require_ui_session,
}
use scopuli.Ui.Session.Admission.{Session, away, require_ui_session-Session, verify_ui_cookie-cases}

module _ ⦃env : Env⦄ where
  -- The tables stay, or the request has an operator's session and, for a mutation, htmx's header.
  abbrev pub Guarded : Server → Logger → UiRequest → UiCall → World → Type 0
  Guarded s l r c w =
      ((ui_serve (ui_route s l r c) w).1.db ≡ w.db)
      ⊎ ((token : Text) × (op : Operator) × Session s r w token op
          × (is_mutation c ≡ true → r.is_htmx ≡ true))

  handle_ui_login_page-db :
      (s : Server) (r : UiRequest) (w : World) → (ui_serve (handle_ui_login_page s r) w).1.db ≡ w.db
  unfolding handle_ui_login_page
  handle_ui_login_page-db s r w =
      let (token, v, run, same, why) = verify_ui_cookie-cases {E = UiResponse} s r w in rw run same

  handle_ui_login-db :
      (s : Server) (r : UiRequest) (field : Text) (w : World)
      → (ui_serve (handle_ui_login s r field) w).1.db ≡ w.db
  unfolding handle_ui_login operator_of authenticate_token authenticate get_operator_by_hash
      statement issue_ui_cookie
  handle_ui_login-db s r field w = ground arith

  require_ui_hx-db :
      (r : UiRequest) (h : UiHandler) (w : World)
      → r.is_htmx ≡ false
      → (ui_serve (require_ui_hx r h) w).1.db ≡ w.db
  unfolding require_ui_hx
  require_ui_hx-db r h w e = rw e refl

  -- Without the header, a mutation does nothing behind requireUISession.
  mutation-db :
      (s : Server) (l : Logger) (r : UiRequest) (c : UiCall) (p : Principal) (w : World)
      → is_mutation c ≡ true
      → r.is_htmx ≡ false
      → (ui_serve (ui_handler s l r c p) w).1.db ≡ w.db
  unfolding ui_handler is_mutation
  mutation-db s l r (post_secret f) p w m e = require_ui_hx-db r (handle_ui_secret_save s r p f) w e
  mutation-db s l r (post_secret_delete f) p w m e =
      require_ui_hx-db r (handle_ui_secret_delete s r p f) w e
  mutation-db s l r (post_key f) p w m e = require_ui_hx-db r (handle_ui_key_save s r p f) w e
  mutation-db s l r (post_key_revoke f) p w m e =
      require_ui_hx-db r (handle_ui_key_revoke s r p f) w e
  mutation-db s l r post_logout p w m e = require_ui_hx-db r handle_ui_logout w e
  mutation-db s l r c p w m e = absurd (cc)

  behind_session :
      (s : Server) (l : Logger) (r : UiRequest) (c : UiCall) (w : World)
      → ui_route s l r c ≡ require_ui_session s r (ui_handler s l r c)
      → Guarded s l r c w
  behind_session s l r c w e = elim (require_ui_session-Session s r (ui_handler s l r c) w) [
    | inl away ↦ inl (rw (e, away.answer) away.same)
    | inr (token, op, v, session, run, same) ↦ elim (Bool-cases r.is_htmx) [
      | inl h ↦ inr (token, op, session, λ m. h)
      | inr h ↦ elim (Bool-cases (is_mutation c)) [
        | inr m ↦ inr (token, op, session, λ n. absurd (cc))
        | inl m ↦ inl (rw (e, run) (mutation-db s l r c (operator_principal op) v m h ∙ same))
      ]
    ]
  ]

  -- Whatever is sent to a route of the console, either no table changes, or the request carries a
  -- session cookie that is signed, not expired and of a token with the digest of an operator's row,
  -- and, if the route is one of the mutations, the header of htmx.
  pub ui_route-Guarded :
      (s : Server) (l : Logger) (r : UiRequest) (c : UiCall) (w : World) → Guarded s l r c w
  ui_route-Guarded s l r get_login w = inl (unfold ui_route in handle_ui_login_page-db s r w)
  ui_route-Guarded s l r (post_login field) w =
      inl (unfold ui_route in handle_ui_login-db s r field w)
  ui_route-Guarded s l r c w = behind_session s l r c w (unfold ui_route in refl)
