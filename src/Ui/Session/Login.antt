-- ===== src/Ui/Session/Login.antt =====
-- After a login, the console is open until the cookie expires.
use scopuli.Prelude.{
  Text, [], ap, arith, continue_ok, false, if◌then◌else◌, ltb, map_err, nat_eq, ok, refl, some, suc,
  text_eq, utf8, ℕ, ◌+◌, ◌/◌, ◌<◌, ◌==◌, ◌^◌, ◌∙◌, ◌≡◌, ◌≤◌,
}
use scopuli.Api.{Server}
use scopuli.Auth.{Principal, authenticate, operator_principal}
use scopuli.Env.{Env, IsBase64}
use scopuli.Store.Database.{Operator, World, statement}
use scopuli.Store.Operators.{get_operator_by_hash, operator_hashed}
use scopuli.Store.Secrets.Healthy.{NoFaults, after_event}
use scopuli.Strings.{trim_space}
use scopuli.Token.{hash_hex}
use scopuli.Ui.{UiHandler, UiRequest, UiResponse, set_cookie, ui_serve}
use scopuli.Ui.Session.{
  authenticate_token, handle_ui_login, issue_ui_cookie, operator_of, require_ui_session,
  session_payload, sign_payload, ui_session_lifetime, verify_ui_cookie,
}
use scopuli.Ui.Session.Admission.{away, past_cookie, verify_ui_cookie-cases}
use scopuli.Ui.Session.Cookie.{verify-issue}

module _ ⦃env : Env⦄ where
  -- The second up to which a cookie made at an event counts.
  abbrev pub expiry_at : ℕ → ℕ
  expiry_at event = env.time_at event / 1000000000 + ui_session_lifetime

  -- The cookie of a login: the lookup of the operator is the first event, the clock the second.
  abbrev login_cookie : Server → Text → World → Text
  login_cookie s token w =
      sign_payload s.session_key (utf8 (session_payload (expiry_at (suc w.events)) token))

  operator_of_healthy :
      (r : UiRequest) (token : Text) (op : Operator) (w : World)
      → NoFaults
      → (token == []) ≡ false
      → operator_hashed (hash_hex token) w.db.operators ≡ some op
      → operator_of r token w ≡ (ok (operator_principal op), after_event w)
  unfolding operator_of authenticate_token authenticate get_operator_by_hash statement
  operator_of_healthy r token op w f e h = rw (e, f w.events, h) refl

  login_healthy :
      (s : Server) (r : UiRequest) (field : Text) (op : Operator) (w : World)
      → NoFaults
      → (trim_space field == []) ≡ false
      → operator_hashed (hash_hex (trim_space field)) w.db.operators ≡ some op
      → (ui_serve (handle_ui_login s r field) w).0.cookie
        ≡ set_cookie (login_cookie s (trim_space field) w)
  unfolding handle_ui_login operator_of authenticate_token authenticate get_operator_by_hash
      statement issue_ui_cookie
  login_healthy s r field op w f e h = rw (e, f w.events, h) refl

  still_read :
      (E : Type 0) (s : Server) (r : UiRequest) (value token : Text) (v : World) {read : Text}
      {u : World} {expiry : ℕ}
      → verify_ui_cookie {E = E} s (record r { session = some value }) v ≡ (ok read, u)
      → (verify_ui_cookie {E = E} s (record r { session = some value }) v).0
        ≡ ok (if ltb expiry (env.time_at v.events / 1000000000) then [] else token)
      → env.time_at v.events / 1000000000 ≤ expiry
      → read ≡ token
  still_read E s r value token v run found alive = ground (arith, ap (λ x. x.0) run, found)

  -- If no statement fails, and the token of a login, white space around it aside, is not empty and
  -- has the digest of an operator's row, then the answer sets a cookie; and any later request that
  -- carries this cookie, while a row has the digest and the clock is at most thirty days past the
  -- login, gets past requireUISession as the operator of that row, on unchanged tables. This rests
  -- on the laws of base64, a session key that is not empty, and an expiry that fits in an int64.
  pub require_ui_session-login :
      (s : Server) (r later : UiRequest) (next : Principal → UiHandler) (field : Text)
      (op now_op : Operator) (w v : World)
      → NoFaults
      → IsBase64 env
      → (s.session_key == []) ≡ false
      → (trim_space field == []) ≡ false
      → operator_hashed (hash_hex (trim_space field)) w.db.operators ≡ some op
      → operator_hashed (hash_hex (trim_space field)) v.db.operators ≡ some now_op
      → expiry_at (suc w.events) < 2 ^ 63
      → env.time_at v.events / 1000000000 ≤ expiry_at (suc w.events)
      → (value : Text) × ((ui_serve (handle_ui_login s r field) w).0.cookie ≡ set_cookie value)
        × ((u : World) × (require_ui_session s (record later { session = some value }) next v
              ≡ next (operator_principal now_op) u)
            × (u.db ≡ v.db))
  require_ui_session-login s r later next field op now_op w v f b k e h g fits alive =
      let token = trim_space field in
      let value = login_cookie s token w in
      let again = record later { session = some value } in
      let (read, u, run, same, why) = verify_ui_cookie-cases {E = UiResponse} s again v in
      let is_token : read ≡ token =
        still_read UiResponse s later value token v run
          (verify-issue UiResponse UiResponse s later token value (after_event w) v b k fits
            (unfold issue_ui_cookie in refl))
          alive in
      (
        value,
        login_healthy s r field op w f e h,
        (
          after_event u,
          past_cookie s again next v u run (rw is_token e)
              ∙ continue_ok _ next (
                  ap (map_err (away again)) (
                    operator_of_healthy again read now_op u f (rw is_token e)
                      (rw (is_token, same) g))),
          same,
        ),
      )
