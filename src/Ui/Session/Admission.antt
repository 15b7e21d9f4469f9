-- ===== src/Ui/Session/Admission.antt =====
-- Who gets past requireUISession.
use scopuli.Prelude.{
  Bool-cases, Bytes, List, Option, Option-cases, Text, [], ap, codes, continue, continue_err,
  continue_ok, err, false, inl, inr, map_err, nat_eq, none, ok, refl, some, subst, text_beq,
  text_eq, text_of_utf8, ℕ, ◌/◌, ◌==◌, ◌∙◌, ◌∷◌, ◌≡◌, ◌≢◌, ◌⊎◌,
}
use scopuli.Api.{Server}
use scopuli.Audit.{bytes_equal}
use scopuli.Audit.Chain.{bytes_equal_iff}
use scopuli.Auth.{AuthError, Principal, authenticate, operator_principal}
use scopuli.Env.{Env}
use scopuli.Store.Database.{Operator, World, statement}
use scopuli.Store.Operators.{get_operator_by_hash, operator_hashed}
use scopuli.Store.Secrets.Vault.{run}
use scopuli.Strings.{cut}
use scopuli.Token.{hash_hex}
use scopuli.Ui.{CookieChange, UiHandler, UiRequest, UiResponse, clear_cookie, keep_cookie}
use scopuli.Ui.Session.{
  authenticate_token, has_expiry_field, operator_of, require_ui_session, session_token,
  signed_payload, to_login, unexpired_token, verify_ui_cookie,
}
use scopuli.Ui.Session.Expiry.{Unexpired, session_token-Unexpired}

module _ ⦃env : Env⦄ where
  -- The payload stands in the cookie, with its signature under the key.
  pub record Signed (session_key : Bytes) (value payload : Text) : Type 0 where
    pub front : Text
    pub back : Text
    pub bytes : Bytes
    pub parts : cut b'.' value ≡ some (front, back)
    pub decoded : env.base64url_decode front ≡ some bytes
    pub is_mac : env.base64url_decode back ≡ some (env.hmac_sha256 session_key bytes)
    pub is_payload : payload ≡ text_of_utf8 bytes

  -- What a session that was admitted rests on.
  pub record Session (s : Server) (r : UiRequest) (w : World) (token : Text) (op : Operator)
      : Type 0 where
    pub has_key : s.session_key ≢ []
    pub value : Text
    pub payload : Text
    pub has_cookie : r.session ≡ some value
    pub signed : Signed s.session_key value payload
    pub unexpired : Unexpired payload token (env.time_at w.events / 1000000000)
    pub has_token : token ≢ []
    pub has_row : operator_hashed (hash_hex token) w.db.operators ≡ some op

  signed_payload-Signed :
      (session_key : Bytes) (value payload : Text)
      → signed_payload session_key value ≡ some payload
      → Signed session_key value payload
  unfolding signed_payload
  signed_payload-Signed session_key value payload h = elim (Option-cases (cut b'.' value)) [
    | inl e ↦ absurd (none_ne_some (rw (signed_payload, e) at h))
    | inr ((front, back), e) ↦ elim (Option-cases (env.base64url_decode front)) [
      | inl f ↦ absurd (none_ne_some (rw (signed_payload, e, f) at h))
      | inr (bytes, f) ↦ elim (Option-cases (env.base64url_decode back)) [
        | inl g ↦ absurd (none_ne_some (rw (signed_payload, e, f, g) at h))
        | inr (sig, g) ↦ elim (Bool-cases (bytes_equal sig (env.hmac_sha256 session_key bytes))) [
          | inr b ↦ absurd (none_ne_some (rw (signed_payload, e, f, g, b) at h))
          | inl b ↦ record {
            front = front;
            back = back;
            bytes = bytes;
            parts = e;
            decoded = f;
            is_mac = g ∙ ap some ((bytes_equal_iff sig _).0 b);
            is_payload =
                let q : some (text_of_utf8 bytes) ≡ some payload =
                  rw (signed_payload, e, f, g, b) at h in
                cc;
          }
        ]
      ]
    ]
  ]
    where
      none_ne_some : {A : Type 0} {a : A} → none ≢ some a
      none_ne_some e = cc

  operator_of-cases :
      (r : UiRequest) (token : Text) (w : World)
      → (token == []) ≡ false
      → ((e : AuthError) × (v : World) × (operator_of r token w ≡ (err e, v)) × (v.db ≡ w.db))
        ⊎ ((op : Operator) × (v : World) × (operator_hashed (hash_hex token) w.db.operators
              ≡ some op)
            × (operator_of r token w ≡ (ok (operator_principal op), v))
            × (v.db ≡ w.db))
  unfolding operator_of authenticate_token authenticate get_operator_by_hash statement
  operator_of-cases r token w h = elim (Bool-cases (env.fault_at w.events)) [
    | inl e ↦ rw (h, e) (inl (_, _, refl, refl))
    | inr e ↦ elim (Option-cases (operator_hashed (hash_hex token) w.db.operators)) [
      | inl f ↦ rw (h, e, f) (inl (_, _, refl, refl))
      | inr (op, f) ↦ rw (h, e, f) (inr (op, _, refl, refl, refl))
    ]
  ]

  -- The cookie that verifyUICookie took the token from.
  pub record Verified (s : Server) (r : UiRequest) (w : World) (token : Text) : Type 0 where
    value : Text
    payload : Text
    has_cookie : r.session ≡ some value
    signed : signed_payload s.session_key value ≡ some payload
    unexpired : session_token (env.time_at w.events / 1000000000) payload ≡ token

  unexpired_token-cases :
      {E : Type 0} (o : Option Text) (w : World)
      → (token : Text) × (v : World) × (unexpired_token {E = E} o w ≡ (ok token, v))
        × (v.db ≡ w.db)
        × ((token ≡ [])
            ⊎ ((payload : Text) × (o ≡ some payload)
                × (session_token (env.time_at w.events / 1000000000) payload ≡ token)))
  unfolding unexpired_token
  unexpired_token-cases none w = (_, _, refl, refl, inl refl)
  unexpired_token-cases (some payload) w = elim (Bool-cases (has_expiry_field payload)) [
    | inl e ↦ rw e (_, _, refl, refl, inr (payload, refl, refl))
    | inr e ↦ rw e (_, _, refl, refl, inl refl)
  ]

  pub verify_ui_cookie-cases :
      {E : Type 0} (s : Server) (r : UiRequest) (w : World)
      → (token : Text) × (v : World) × (verify_ui_cookie {E = E} s r w ≡ (ok token, v))
        × (v.db ≡ w.db)
        × ((token ≡ []) ⊎ ((s.session_key == []) ≡ false) × Verified s r w token)
  unfolding verify_ui_cookie
  verify_ui_cookie-cases s r w = elim (Bool-cases (s.session_key == [])) [
    | inl e ↦ rw e (_, _, refl, refl, inl refl)
    | inr e ↦ elim (Option-cases r.session) [
      | inl f ↦ rw (e, f) (_, _, refl, refl, inl refl)
      | inr (value, f) ↦
          let (token, v, run, same, why) =
            unexpired_token-cases (signed_payload s.session_key value) w in
          rw (e, f)
            (
              token,
              v,
              run,
              same,
              elim why [
                | inl h ↦ inl h
                | inr (payload, m, u) ↦ inr (
                  refl,
                  record {
                    value = value;
                    payload = payload;
                    has_cookie = refl;
                    signed = m;
                    unexpired = u;
                  },
                )
              ],
            )
    ]
  ]

  abbrev pub away : UiRequest → AuthError → UiResponse
  away r e = record (to_login r (codes "/ui/login")) { cookie = clear_cookie }

  pub past_cookie :
      (s : Server) (r : UiRequest) (next : Principal → UiHandler) (w v : World) {token : Text}
      → verify_ui_cookie {E = UiResponse} s r w ≡ (ok token, v)
      → (token == []) ≡ false
      → require_ui_session s r next w ≡ continue (map_err (away r) (operator_of r token v)) next
  unfolding require_ui_session
  past_cookie s r next w v run e = rw (run, e) refl

  not_empty : (t : List ℕ) → (t == []) ≡ false → t ≢ []
  unfolding text_beq
  not_empty [] e h = cc
  not_empty (c ∷ t) e h = cc

  Verified-Session :
      (s : Server) (r : UiRequest) (w v : World) (token : Text) (op : Operator)
      → v.db ≡ w.db
      → (token == []) ≡ false
      → operator_hashed (hash_hex token) v.db.operators ≡ some op
      → (token ≡ []) ⊎ ((s.session_key == []) ≡ false) × Verified s r w token
      → Session s r w token op
  Verified-Session s r w v token op same e f (inl h) = absurd (not_empty token e h)
  Verified-Session s r w v token op same e f (inr (k, c)) = record {
    has_key = not_empty s.session_key k;
    value = c.value;
    payload = c.payload;
    has_cookie = c.has_cookie;
    signed = signed_payload-Signed s.session_key c.value c.payload c.signed;
    unexpired = session_token-Unexpired _ c.payload token c.unexpired (not_empty token e);
    has_token = not_empty token e;
    has_row = subst (λ db. operator_hashed (hash_hex token) db.operators ≡ some op) same f;
  }

  -- Redirected to the login page, with the tables as they were.
  pub record SentAway (s : Server) (r : UiRequest) (next : Principal → UiHandler) (w : World)
      : Type 0 where
    pub cookie : CookieChange
    pub after : World
    pub answer :
        require_ui_session s r next w
        ≡ (err (record (to_login r (codes "/ui/login")) { cookie = cookie }), after)
    pub same : after.db ≡ w.db

  -- A request gets past requireUISession only if it carries a cookie whose signature holds under the
  -- session key, which is not empty, whose payload is `v1`, an expiry that is not before the second of
  -- the check, and a token, and the token has the digest of an operator's row: then the handler runs
  -- as that operator, on unchanged tables. Any other request is redirected to the login page, and no
  -- table changes.
  pub require_ui_session-Session :
      (s : Server) (r : UiRequest) (next : Principal → UiHandler) (w : World)
      → SentAway s r next w
        ⊎ ((token : Text) × (op : Operator) × (v : World) × Session s r w token op
            × (require_ui_session s r next w ≡ next (operator_principal op) v)
            × (v.db ≡ w.db))
  unfolding require_ui_session
  require_ui_session-Session s r next w =
      let (token, v, run, same, why) = verify_ui_cookie-cases {E = UiResponse} s r w in
      elim (Bool-cases (token == [])) [
        | inl e ↦
            inl (record { cookie = keep_cookie; after = v; answer = rw (run, e) refl; same = same })
        | inr e ↦ elim (operator_of-cases r token v e) [
          | inl (x, u, o, d) ↦ inl (record {
            cookie = clear_cookie;
            after = u;
            answer = past_cookie s r next w v run e ∙ continue_err _ next (ap (map_err (away r)) o);
            same = d ∙ same;
          })
          | inr (op, u, f, o, d) ↦ inr (
            token,
            op,
            u,
            Verified-Session s r w v token op same e f why,
            past_cookie s r next w v run e ∙ continue_ok _ next (ap (map_err (away r)) o),
            d ∙ same,
          )
        ]
      ]
