-- ===== src/Api/Guards.antt =====
-- Who may do what: the tests that the handlers under /api/secrets make before they act.
use scopuli.Prelude.{
  Bool-cases, Text, arith, codes, continue-ok, continue_err, err, false, inl, inr, ok, refl, some,
  true, ◌≡◌,
}
use scopuli.Api.{Response, Server, audit_append, can_access_secret, error_response, serve}
use scopuli.Api.Effects.{SameTables, audit_append-SameTables, audit_append_ok}
use scopuli.Api.SecretReads.{handle_get_secret}
use scopuli.Api.Secrets.{check_scope, refuse}
use scopuli.Auth.{Principal}
use scopuli.Env.{Env}
use scopuli.Store.Database.{World}

module _ ⦃env : Env⦄ where
  -- The world after an audit entry.
  abbrev pub audited : Server → Principal → Text → Text → Text → World → World
  audited s p action path result w = (audit_append {E = Response} s p action path result w).1

  refuse-403 :
      (s : Server) (p : Principal) (path : Text) (w : World)
      → refuse s p path w ≡ (
        err (error_response 403 "out of scope"),
        audited s p (codes "denied:out_of_scope") path (codes "denied") w,
      )
  unfolding refuse
  refuse-403 s p path w = continue-ok _ _ (audit_append_ok s p _ path _ w)

  pub check_scope_denied :
      (s : Server) (p : Principal) (path : Text) (w : World)
      → can_access_secret (some p) path ≡ false
      → check_scope s p path w ≡ (
        err (error_response 403 "out of scope"),
        audited s p (codes "denied:out_of_scope") path (codes "denied") w,
      )
  unfolding check_scope
  check_scope_denied s p path w h = rw h (refuse-403 s p path w)

  pub check_scope_allowed :
      (s : Server) (p : Principal) (path : Text) (w : World)
      → can_access_secret (some p) path ≡ true
      → check_scope s p path w ≡ (ok tt, w)
  unfolding check_scope
  check_scope_allowed s p path w h = rw h

  denied_get :
      (s : Server) (p : Principal) (path : Text) (w : World)
      → can_access_secret (some p) path ≡ false
      → handle_get_secret s p path w ≡ (
        err (error_response 403 "out of scope"),
        audited s p (codes "denied:out_of_scope") path (codes "denied") w,
      )
  unfolding handle_get_secret
  denied_get s p path w h = continue_err _ _ (check_scope_denied s p path w h)

  -- A principal whose scope does not admit the path is answered 403 whether or not there is such a
  -- secret, and nothing but the audit log changes.
  pub handle_get_secret_denied :
      (s : Server) (p : Principal) (path : Text) (w : World)
      → can_access_secret (some p) path ≡ false
      → ((serve (handle_get_secret s p path) w).0 ≡ error_response 403 "out of scope")
        × SameTables (serve (handle_get_secret s p path) w).1.db w.db
  handle_get_secret_denied s p path w h =
      rw (denied_get s p path w h) (refl, audit_append-SameTables Response s p _ path _ w)

  pub get_inside :
      (s : Server) (p : Principal) (path : Text) (w : World) (r : Response)
      → (handle_get_secret s p path w).0 ≡ ok r
      → can_access_secret (some p) path ≡ true
  get_inside s p path w r h = elim (Bool-cases (can_access_secret (some p) path)) [
    | inl e ↦ e
    | inr e ↦ absurd (ground (arith, denied_get s p path w e))
  ]
