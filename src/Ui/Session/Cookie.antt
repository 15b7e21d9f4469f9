-- ===== src/Ui/Session/Cookie.antt =====
-- What the session cookie carries, read back, until it expires.
use scopuli.Prelude.{
  All, Bytes, Text, [], ap, arith, codes, false, if◌then◌else◌, inr, ltb, nat_eq, ok, refl, some,
  subst, text_beq, text_eq, text_of_utf8-utf8, true, utf8, ℕ, ◌+◌, ◌/◌, ◌<◌, ◌==◌, ◌^◌, ◌∷◌, ◌≡◌,
  ◌⊎◌,
}
use scopuli.Api.{Server}
use scopuli.Audit.{bytes_equal}
use scopuli.Env.{Env, IsBase64}
use scopuli.Store.Database.{World}
use scopuli.Strings.{cut}
use scopuli.Strings.Decimal.{decimal}
use scopuli.Strings.Decimal.RoundTrip.{IsDigit, decimal-IsDigit, parse_int64-decimal}
use scopuli.Strings.Laws.{Without, cut-append}
use scopuli.Ui.{UiRequest}
use scopuli.Ui.Session.{
  field_is_time, has_expiry_field, issue_ui_cookie, session_payload, session_token, sign_payload,
  signed_payload, split_three, token_of_fields, ui_session_lifetime, unexpired_token,
  verify_ui_cookie,
}

digits-Without : (sep : ℕ) (t : Text) → sep < b'0' ⊎ b'9' < sep → All IsDigit t → Without sep t
digits-Without sep [] h d = tt
digits-Without sep (c ∷ t) h (d, ds) = (ground arith, digits-Without sep t h ds)

split_three-payload :
    (exp : ℕ) (token : Text)
    → split_three b'|' (session_payload exp token) ≡ some (codes "v1", decimal exp, token)
unfolding split_three session_payload cut
split_three-payload exp token =
    rw
      (
        split_three,
        cut-append b'|' (decimal exp) token
            (digits-Without b'|' (decimal exp) (inr (omega arith)) (decimal-IsDigit exp)),
      )
      refl

-- A payload reads as its token until the time is past its expiry.
pub session_token-payload :
    (time exp : ℕ) (token : Text)
    → exp < 2 ^ 63
    → session_token time (session_payload exp token) ≡ (if ltb exp time then [] else token)
unfolding session_token token_of_fields text_beq
session_token-payload time exp token h =
    rw (split_three-payload exp token, parse_int64-decimal exp h) refl

has_expiry_field-payload :
    (exp : ℕ) (token : Text) → exp < 2 ^ 63 → has_expiry_field (session_payload exp token) ≡ true
unfolding has_expiry_field field_is_time text_beq
has_expiry_field-payload exp token h =
    rw (split_three-payload exp token, parse_int64-decimal exp h) refl

pub bytes_equal_refl : (b : Bytes) → bytes_equal b b ≡ true
unfolding bytes_equal
bytes_equal_refl [] = refl
bytes_equal_refl (x ∷ b) = ground (arith, bytes_equal_refl b)

module _ ⦃env : Env⦄ where
  -- The signature of a payload holds.
  signed_payload-sign_payload :
      (session_key : Bytes) (t : Text)
      → IsBase64 env
      → signed_payload session_key (sign_payload session_key (utf8 t)) ≡ some t
  unfolding signed_payload sign_payload
  signed_payload-sign_payload session_key t b =
      rw
        (
          signed_payload,
          cut-append b'.' (env.base64url (utf8 t))
              (env.base64url (env.hmac_sha256 session_key (utf8 t))) (b.no_stop (utf8 t)),
          b.decode-encode (utf8 t),
          b.decode-encode (env.hmac_sha256 session_key (utf8 t)),
          bytes_equal_refl (env.hmac_sha256 session_key (utf8 t)),
          text_of_utf8-utf8 t,
        )
        refl

  -- A cookie that issueUICookie made under a key that is not empty is verified, in any later or
  -- earlier world, to the token it was made for, until the clock is more than thirty days past the
  -- second in which it was made, and to the empty text from then on. This rests on the laws of
  -- base64, and on an expiry that fits in an int64.
  pub verify-issue :
      (E F : Type 0) (s : Server) (r : UiRequest) (token value : Text) (w v : World)
      → IsBase64 env
      → (s.session_key == []) ≡ false
      → env.time_at w.events / 1000000000 + ui_session_lifetime < 2 ^ 63
      → (issue_ui_cookie {E = E} s token w).0 ≡ ok value
      → (verify_ui_cookie {E = F} s (record r { session = some value }) v).0
        ≡ ok (
            if ltb
              (env.time_at w.events / 1000000000 + ui_session_lifetime)
              (env.time_at v.events / 1000000000)
            then []
            else token)
  unfolding verify_ui_cookie issue_ui_cookie unexpired_token
  verify-issue E F s r token value w v b k h e =
      let exp = env.time_at w.events / 1000000000 + ui_session_lifetime in
      let payload = session_payload exp token in
      let made : sign_payload s.session_key (utf8 payload) ≡ value = ground (arith, e) in
      let read : signed_payload s.session_key value ≡ some payload =
        subst (λ c. signed_payload s.session_key c ≡ some payload) made
          (signed_payload-sign_payload s.session_key payload b) in
      rw (k, read, has_expiry_field-payload exp token h)
        (ap ok (session_token-payload (env.time_at v.events / 1000000000) exp token h))
