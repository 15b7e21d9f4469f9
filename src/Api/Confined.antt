-- ===== src/Api/Confined.antt =====
-- What the handlers under /api/secrets leave of the secrets that a principal has no access to.
pub mod Writes
pub mod Delete
use scopuli.Prelude.{
  Bool-cases, Bytes, Option, Text, [], ap, arith, attempt, codes, fail_if, false, inl, inr, lift,
  nat_eq, ok, refl, some, text_eq, true, ◌==◌, ◌or_fail◌, ◌≡◌, ◌≢◌,
}
use scopuli.Api.{Response, Server, audit_append, bad_limits, can_access_secret, error_response}
use scopuli.Api.Effects.{audit_append-SameTables}
use scopuli.Api.Guards.{check_scope_allowed, check_scope_denied}
use scopuli.Api.Keeps.{
  Keeps, Keeps-attempt, Keeps-bind, Keeps-fail_if, Keeps-lift, Keeps-or_fail, Keeps-then,
}
use scopuli.Api.Secrets.{
  PutSecretReq, check_scope, encrypt_and_put, handle_put_secret, next_version, request_metadata,
  written_secret,
}
use scopuli.Auth.{Principal, is_read_only}
use scopuli.Crypto.{aad_secret, seal}
use scopuli.Crypto.RoundTrip.{db-seal}
use scopuli.Env.{Env}
use scopuli.Metadata.{normalize_tags, validate_description}
use scopuli.Store.Database.{Secret, World, now}
use scopuli.Store.Secrets.{get_secret, put_secret, secret_at}
use scopuli.Store.Secrets.Frame.{put_secret_frame}
use scopuli.Store.Secrets.Put.{db-get_secret}
use scopuli.Strings.{join}

-- What GetSecret finds under a path.
abbrev pub found_at : Text → World → Option Secret
found_at q w = secret_at q w.db.secrets

module _ ⦃env : Env⦄ where
  pub Keeps-audit :
      (E : Type 0) (q : Text) (s : Server) (p : Principal) (a path r : Text)
      → Keeps (found_at q) (audit_append {E = E} s p a path r)
  Keeps-audit E q s p a path r = record {
    kept = λ w. ap (secret_at q) (audit_append-SameTables E s p a path r w).secrets;
  }

  pub Keeps-get_secret : (q path : Text) → Keeps (found_at q) (get_secret path)
  Keeps-get_secret q path = record {
    kept = λ w. ap (λ d. secret_at q d.secrets) (db-get_secret path w);
  }

  pub Keeps-seal : (q : Text) (kek plain aad : Bytes) → Keeps (found_at q) (seal kek plain aad)
  Keeps-seal q kek plain aad = record {
    kept = λ w. ap (λ d. secret_at q d.secrets) (db-seal kek plain aad w);
  }

  pub Keeps-now : (q : Text) (E : Type 0) → Keeps (found_at q) (now {E = E})
  Keeps-now q E = record { kept = λ w. unfold now in refl }

  Keeps-check_scope :
      (q : Text) (s : Server) (p : Principal) (path : Text)
      → Keeps (found_at q) (check_scope s p path)
  Keeps-check_scope q s p path = record {
    kept = λ w. elim (Bool-cases (can_access_secret (some p) path)) [
      | inl e ↦ rw (check_scope_allowed s p path w e)
      | inr e ↦ rw (check_scope_denied s p path w e) ((Keeps-audit Response q s p _ path _).kept w)
    ];
  }

  encrypt_and_put-Keeps :
      (q : Text) (s : Server) (path label tags desc meta : Text) (value : Bytes)
      (old : Option Secret)
      → path ≢ q
      → Keeps (found_at q) (encrypt_and_put s path label tags desc meta value old)
  unfolding encrypt_and_put
  encrypt_and_put-Keeps q s path label tags desc meta value old n =
      let aad = aad_secret path desc (next_version old desc) in
      Keeps-bind _ now _ (Keeps-now q Response) (λ t.
        Keeps-bind _ (seal s.kek value aad or_fail λ _. error_response 500 "encrypt failed") _
          (Keeps-or_fail _ (seal s.kek value aad) _ (Keeps-seal q s.kek value aad))
          (λ sealed.
            let row = written_secret old path label tags desc meta t aad sealed in
            Keeps-or_fail _ (put_secret row) (λ _. error_response 500 "store")
              (record { kept = λ w. put_secret_frame row q w (unfold written_secret in n) })))

  check_scope-ok :
      (s : Server) (p : Principal) (path : Text) (w : World) (u : Unit {0})
      → (check_scope s p path w).0 ≡ ok u
      → can_access_secret (some p) path ≡ true
  check_scope-ok s p path w u h = elim (Bool-cases (can_access_secret (some p) path)) [
    | inl e ↦ e
    | inr e ↦ absurd (ground (arith, check_scope_denied s p path w e))
  ]

  pub other_path :
      (p : Principal) (path q : Text)
      → can_access_secret (some p) path ≡ true
      → can_access_secret (some p) q ≡ false
      → path ≢ q
  other_path p path q h k e = ground (arith, ap (can_access_secret (some p)) e)

  pub put_request-Keeps :
      (s : Server) (p : Principal) (req : PutSecretReq) (q : Text)
      → can_access_secret (some p) q ≡ false
      → Keeps (found_at q) (handle_put_secret s p (some req))
  unfolding handle_put_secret
  put_request-Keeps s p req q h =
      Keeps-bind _ (fail_if (is_read_only p) _) _ (Keeps-fail_if _ _ _) (λ _.
        Keeps-bind _ (fail_if (req.path == []) _) _ (Keeps-fail_if _ _ _) (λ _.
          Keeps-then _ (check_scope s p req.path) _ (Keeps-check_scope q s p req.path) (λ w u e.
            let n = other_path p req.path q (check_scope-ok s p req.path w u e) h in
            Keeps-bind _ (lift (normalize_tags (join b',' req.tags)) or_fail bad_limits) _
              (Keeps-or_fail _ _ _ (Keeps-lift _ _))
              (λ tags.
                Keeps-bind _ (lift (validate_description req.description) or_fail bad_limits) _
                  (Keeps-or_fail _ _ _ (Keeps-lift _ _))
                  (λ _.
                    Keeps-bind _ (lift (request_metadata req.metadata) or_fail bad_limits) _
                      (Keeps-or_fail _ _ _ (Keeps-lift _ _))
                      (λ meta.
                        Keeps-bind _ (attempt (get_secret req.path)) _
                          (Keeps-attempt _ Response _ (Keeps-get_secret q req.path))
                          (λ old.
                            Keeps-bind _
                              (encrypt_and_put s req.path req.label tags req.description meta
                                req.value old)
                              _
                              (encrypt_and_put-Keeps q s req.path req.label tags req.description
                                meta req.value old n)
                              (λ _.
                                Keeps-bind _
                                  (audit_append s p (codes "write") req.path (codes "ok")) _
                                  (Keeps-audit Response q s p _ _ _)
                                  (λ _. record { kept = λ w. refl })))))))))
