-- ===== src/Api/Intact/Requests.antt =====
-- A server that handles one request after another keeps the log that Verify accepts.
use scopuli.Prelude.{
  Bytes, List, Option, Text, [], ap, attempt, codes, fail_if, if◌then◌else◌, lift, nat_eq, not,
  of_option, pure, some, text_eq, ℕ, ◌!=◌, ◌&&◌, ◌==◌, ◌or_fail◌, ◌∷◌, ◌≡◌,
}
use scopuli.Api.{
  Handler, Response, Server, audit_append, bad_limits, can_access_secret, error_response,
  no_content, open_row, serve,
}
use scopuli.Api.Annotate.{
  AnnotateReq, annotated, handle_annotate_secret, store_annotated, text_or, validate_optional,
}
use scopuli.Api.Intact.{
  audit_append-IsIntact, check_scope-IsIntact, delete-IsIntact, get-IsIntact, get_secret-IsIntact,
  log-put_secret, same_log,
}
use scopuli.Api.Keeps.{world-answer}
use scopuli.Api.Preserves.{
  Preserves, Preserves-attempt, Preserves-bind, Preserves-fail_if, Preserves-if, Preserves-lift,
  Preserves-or_fail,
}
use scopuli.Api.SecretReads.{handle_delete_secret, handle_get_secret}
use scopuli.Api.Secrets.{
  PutSecretReq, bump, check_scope, encrypt_and_put, handle_put_secret, next_version,
  request_metadata, written_secret,
}
use scopuli.Audit.{Logger}
use scopuli.Audit.Chain.{IsIntact}
use scopuli.Auth.{Principal, is_read_only}
use scopuli.Crypto.{aad_secret, seal}
use scopuli.Crypto.RoundTrip.{db-seal}
use scopuli.Env.{Env}
use scopuli.Metadata.{merge_metadata, merge_tags, normalize_tags, validate_description}
use scopuli.Store.Database.{Secret, World, now}
use scopuli.Store.Secrets.{get_secret, put_secret}
use scopuli.Strings.{join}

-- A request to one of the routes for one secret.
pub data Request : Type 0 where
  get_request : Text → Request
  put_request : Option PutSecretReq → Request
  delete_request : Text → Request
  annotate_request : Text → Option AnnotateReq → Request

module _ ⦃env : Env⦄ where
  seal_step : (l : Logger) (kek plain aad : Bytes) → Preserves (IsIntact l) (seal kek plain aad)
  seal_step l kek plain aad = record {
    preserved = λ w i.
        same_log l (seal kek plain aad w).1 w (ap (λ d. d.audit) (db-seal kek plain aad w)) i;
  }

  put_secret_step : (l : Logger) (sec : Secret) → Preserves (IsIntact l) (put_secret sec)
  put_secret_step l sec = record {
    preserved = λ w i. same_log l (put_secret sec w).1 w (log-put_secret sec w) i;
  }

  now_step : (l : Logger) → Preserves (IsIntact l) (now {E = Response})
  now_step l = record { preserved = λ w i. unfold now in i }

  encrypt_and_put-IsIntact :
      (l : Logger) (s : Server) (path label tags desc meta : Text) (value : Bytes)
      (old : Option Secret)
      → Preserves (IsIntact l) (encrypt_and_put s path label tags desc meta value old)
  unfolding encrypt_and_put
  encrypt_and_put-IsIntact l s path label tags desc meta value old =
      let aad = aad_secret path desc (next_version old desc) in
      Preserves-bind _ now _ (now_step l) (λ t.
        Preserves-bind _ (seal s.kek value aad or_fail λ _. error_response 500 "encrypt failed") _
          (Preserves-or_fail _ (seal s.kek value aad) _ (seal_step l s.kek value aad))
          (λ sealed.
            let row = written_secret old path label tags desc meta t aad sealed in
            Preserves-or_fail _ (put_secret row) (λ _. error_response 500 "store")
              (put_secret_step l row)))

  put-IsIntact :
      (s : Server) (l : Logger) (p : Principal) (body : Option PutSecretReq)
      → s.audit ≡ some l
      → Preserves (IsIntact l) (handle_put_secret s p body)
  unfolding handle_put_secret
  put-IsIntact s l p body h =
      Preserves-bind _ (fail_if (is_read_only p) _) _ (Preserves-fail_if _ _ _) (λ _.
        Preserves-bind _ (lift (of_option (error_response 400 "bad json") body)) _
          (Preserves-lift _ _)
          (λ req. Preserves-bind _ (fail_if (req.path == []) _) _ (Preserves-fail_if _ _ _) (λ _.
            Preserves-bind _ (check_scope s p req.path) _ (check_scope-IsIntact s l p req.path h)
              (λ _.
                Preserves-bind _ (lift (normalize_tags (join b',' req.tags)) or_fail bad_limits) _
                  (Preserves-or_fail _ _ _ (Preserves-lift _ _))
                  (λ tags.
                    Preserves-bind _
                      (lift (validate_description req.description) or_fail bad_limits) _
                      (Preserves-or_fail _ _ _ (Preserves-lift _ _))
                      (λ _.
                        Preserves-bind _ (lift (request_metadata req.metadata) or_fail bad_limits) _
                          (Preserves-or_fail _ _ _ (Preserves-lift _ _))
                          (λ meta.
                            Preserves-bind _ (attempt (get_secret req.path)) _
                              (Preserves-attempt _ Response _ (get_secret-IsIntact l req.path))
                              (λ old.
                                Preserves-bind _
                                  (encrypt_and_put s req.path req.label tags req.description meta
                                    req.value old)
                                  _
                                  (encrypt_and_put-IsIntact l s req.path req.label tags
                                    req.description meta req.value old)
                                  (λ _.
                                    Preserves-bind _
                                      (audit_append s p (codes "write") req.path (codes "ok")) _
                                      (audit_append-IsIntact Response s l p (codes "write") req.path
                                        (codes "ok") h)
                                      (λ _. record { preserved = λ w i. i }))))))))))

  store_annotated-IsIntact :
      (s : Server) (l : Logger) (p : Principal) (path : Text) (sec : Secret) (tags desc meta : Text)
      (t : ℕ)
      → s.audit ≡ some l
      → Preserves (IsIntact l) (store_annotated s p path sec tags desc meta t)
  unfolding store_annotated
  store_annotated-IsIntact s l p path sec tags desc meta t h =
      let version = if desc != sec.description then bump sec.version else sec.version in
      let aad = aad_secret sec.path desc version in
      Preserves-bind _
        (lift (open_row s.kek sec sec.aad) or_fail λ _. error_response 500 "decrypt failed") _
        (Preserves-or_fail _ _ _ (Preserves-lift _ _))
        (λ plain.
          Preserves-bind _ (seal s.kek plain aad or_fail λ _. error_response 500 "encrypt failed") _
            (Preserves-or_fail _ (seal s.kek plain aad) _ (seal_step l s.kek plain aad))
            (λ sealed.
              let row = annotated sec tags desc meta version t aad sealed in
              Preserves-bind _ (put_secret row or_fail λ _. error_response 500 "store") _
                (Preserves-or_fail _ (put_secret row) _ (put_secret_step l row))
                (λ _.
                  Preserves-bind _ (audit_append s p (codes "secret.annotate") path (codes "ok")) _
                    (audit_append-IsIntact Response s l p (codes "secret.annotate") path
                      (codes "ok") h)
                    (λ _. record { preserved = λ w i. i }))))

  annotate-IsIntact :
      (s : Server) (l : Logger) (p : Principal) (path : Text) (body : Option AnnotateReq)
      → s.audit ≡ some l
      → Preserves (IsIntact l) (handle_annotate_secret s p path body)
  unfolding handle_annotate_secret
  annotate-IsIntact s l p path body h =
      Preserves-bind _ (fail_if (is_read_only p) _) _ (Preserves-fail_if _ _ _) (λ _.
        Preserves-bind _ (fail_if (path == []) _) _ (Preserves-fail_if _ _ _) (λ _.
          Preserves-bind _ (fail_if (not (can_access_secret (some p) path)) _) _
            (Preserves-fail_if _ _ _)
            (λ _.
              Preserves-bind _ (lift (of_option (error_response 400 "bad json") body)) _
                (Preserves-lift _ _)
                (λ req.
                  Preserves-bind _ (get_secret path or_fail λ _. error_response 404 "not found") _
                    (Preserves-or_fail _ _ _ (get_secret-IsIntact l path))
                    (λ sec. Preserves-bind _ now _ (now_step l) (λ t.
                      Preserves-bind _
                        (lift (merge_tags sec.tags req.add_tags req.remove_tags) or_fail bad_limits)
                        _ (Preserves-or_fail _ _ _ (Preserves-lift _ _))
                        (λ tags.
                          Preserves-bind _
                            (lift (merge_metadata sec.metadata req.set_metadata req.unset_metadata)
                              or_fail bad_limits)
                            _ (Preserves-or_fail _ _ _ (Preserves-lift _ _))
                            (λ meta.
                              Preserves-bind _
                                (lift (validate_optional req.description) or_fail bad_limits) _
                                (Preserves-or_fail _ _ _ (Preserves-lift _ _))
                                (λ _.
                                  let desc = text_or req.description sec.description in
                                  Preserves-if _
                                    (desc == sec.description
                                      && meta == sec.metadata
                                      && tags == sec.tags)
                                    (pure no_content)
                                    (store_annotated s p path sec tags desc meta t)
                                    (record { preserved = λ w i. i })
                                    (store_annotated-IsIntact s l p path sec tags desc meta t
                                      h))))))))))

  -- The handler of a request.
  abbrev pub handler : Server → Principal → Request → Handler
  handler s p (get_request path) = handle_get_secret s p path
  handler s p (put_request body) = handle_put_secret s p body
  handler s p (delete_request path) = handle_delete_secret s p path
  handler s p (annotate_request path body) = handle_annotate_secret s p path body

  -- The world after requests by principals, one after another.
  abbrev pub serve_all : Server → List (Principal × Request) → World → World
  serve_all s [] w = w
  serve_all s ((p, r) ∷ requests) w = serve_all s requests (serve (handler s p r) w).1

  handler-IsIntact :
      (s : Server) (l : Logger) (p : Principal) (r : Request)
      → s.audit ≡ some l
      → Preserves (IsIntact l) (handler s p r)
  handler-IsIntact s l p (get_request path) h = get-IsIntact s l p path h
  handler-IsIntact s l p (put_request body) h = put-IsIntact s l p body h
  handler-IsIntact s l p (delete_request path) h = delete-IsIntact s l p path h
  handler-IsIntact s l p (annotate_request path body) h = annotate-IsIntact s l p path body h

  -- Through any sequence of requests to read, write, delete or annotate secrets, by any principals,
  -- and whichever of them are refused or fail, the log stays one that Verify accepts.
  pub serve_all-IsIntact :
      (s : Server) (l : Logger) (requests : List (Principal × Request)) (w : World)
      → s.audit ≡ some l
      → IsIntact l w
      → IsIntact l (serve_all s requests w)
  serve_all-IsIntact s l [] w h i = i
  serve_all-IsIntact s l ((p, r) ∷ requests) w h i =
      serve_all-IsIntact s l requests (serve (handler s p r) w).1 h (
        same_log l (serve (handler s p r) w).1 (handler s p r w).1
          (world-answer (λ v. v.db.audit) (handler s p r w))
          ((handler-IsIntact s l p r h).preserved w i))
