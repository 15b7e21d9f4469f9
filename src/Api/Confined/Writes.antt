-- ===== src/Api/Confined/Writes.antt =====
-- Writing and annotating are confined to the principal's scope.
use scopuli.Prelude.{
  Option, Result-cases, Text, [], ap, arith, codes, fail_if, false, if◌then◌else◌, inl, inr, lift,
  map_err, nat_eq, none, not, of_option, ok, pure, refl, some, text_eq, ℕ, ◌!=◌, ◌&&◌, ◌==◌,
  ◌or_fail◌, ◌∙◌, ◌≡◌, ◌≢◌,
}
use scopuli.Api.{
  Response, Server, audit_append, bad_limits, can_access_secret, error_response, no_content,
  open_row, serve,
}
use scopuli.Api.Annotate.{
  AnnotateReq, annotated, handle_annotate_secret, store_annotated, text_or, validate_optional,
}
use scopuli.Api.Confined.{
  Keeps-audit, Keeps-get_secret, Keeps-now, Keeps-seal, found_at, other_path, put_request-Keeps,
}
use scopuli.Api.Keeps.{
  Keeps, Keeps-bind, Keeps-fail_if, Keeps-if, Keeps-lift, Keeps-or_fail, Keeps-then, world-answer,
}
use scopuli.Api.Secrets.{PutSecretReq, bump, handle_put_secret}
use scopuli.Auth.{Principal, is_read_only}
use scopuli.Crypto.{aad_secret, seal}
use scopuli.Env.{Env}
use scopuli.Metadata.{merge_metadata, merge_tags}
use scopuli.Store.Database.{Secret, StoreError, World, now}
use scopuli.Store.Secrets.{get_secret, put_secret}
use scopuli.Store.Secrets.Frame.{put_secret_frame}
use scopuli.Store.Secrets.Put.{get_secret-row}
use scopuli.Store.Secrets.Rows.{secret_at-path}

module _ ⦃env : Env⦄ where
  -- A write changes nothing that is stored under a path outside the principal's scope: neither when
  -- it is carried out, nor when it is refused, nor when it fails halfway.
  pub handle_put_secret_confined :
      (s : Server) (p : Principal) (body : Option PutSecretReq) (q : Text) (w : World)
      → can_access_secret (some p) q ≡ false
      → found_at q (serve (handle_put_secret s p body) w).1 ≡ found_at q w
  handle_put_secret_confined s p none q w h = unfold handle_put_secret in ground arith
  handle_put_secret_confined s p (some req) q w h =
      world-answer (found_at q) _ ∙ (put_request-Keeps s p req q h).kept w

  pub fetched_path :
      (path : Text) (sec : Secret) (v : World) (e : StoreError → Response)
      → ((get_secret path or_fail e) v).0 ≡ ok sec
      → sec.path ≡ path
  fetched_path path sec v e h = elim (Result-cases (get_secret path v).0) [
    | inl (r, f) ↦
        secret_at-path path v.db.secrets sec
          (get_secret-row path v sec (f ∙ ground (arith, ap (λ o. (map_err e (o, v)).0) f)))
    | inr (x, f) ↦ absurd (ground arith)
  ]

  fetched_outside :
      (p : Principal) (path q : Text) (w v : World) (u : Unit {0}) (sec : Secret)
      → can_access_secret (some p) q ≡ false
      → (fail_if {S = World}
          (not (can_access_secret (some p) path))
          (error_response 403 "out of scope")
          w).0
        ≡ ok u
      → ((get_secret path or_fail λ _. error_response 404 "not found") v).0 ≡ ok sec
      → sec.path ≢ q
  fetched_outside p path q w v u sec h e f =
      rw (fetched_path path sec v _ f) (other_path p path q (ground arith) h)

  store_annotated-Keeps :
      (s : Server) (p : Principal) (path q : Text) (sec : Secret) (tags desc meta : Text) (t : ℕ)
      → sec.path ≢ q
      → Keeps (found_at q) (store_annotated s p path sec tags desc meta t)
  unfolding store_annotated
  store_annotated-Keeps s p path q sec tags desc meta t n =
      let version = if desc != sec.description then bump sec.version else sec.version in
      let aad = aad_secret sec.path desc version in
      Keeps-bind _
        (lift (open_row s.kek sec sec.aad) or_fail λ _. error_response 500 "decrypt failed") _
        (Keeps-or_fail _ _ _ (Keeps-lift _ _))
        (λ plain.
          Keeps-bind _ (seal s.kek plain aad or_fail λ _. error_response 500 "encrypt failed") _
            (Keeps-or_fail _ (seal s.kek plain aad) _ (Keeps-seal q s.kek plain aad))
            (λ sealed.
              let row = annotated sec tags desc meta version t aad sealed in
              Keeps-bind _ (put_secret row or_fail λ _. error_response 500 "store") _
                (Keeps-or_fail _ (put_secret row) _
                  (record { kept = λ w. put_secret_frame row q w (unfold annotated in n) }))
                (λ _.
                  Keeps-bind _ (audit_append s p (codes "secret.annotate") path (codes "ok")) _
                    (Keeps-audit Response q s p _ _ _) (λ _. record { kept = λ w. refl }))))

  annotate-Keeps :
      (s : Server) (p : Principal) (path q : Text) (body : Option AnnotateReq)
      → can_access_secret (some p) q ≡ false
      → Keeps (found_at q) (handle_annotate_secret s p path body)
  unfolding handle_annotate_secret
  annotate-Keeps s p path q body h =
      Keeps-bind _ (fail_if (is_read_only p) _) _ (Keeps-fail_if _ _ _) (λ _.
        Keeps-bind _ (fail_if (path == []) _) _ (Keeps-fail_if _ _ _) (λ _.
          Keeps-then _ (fail_if (not (can_access_secret (some p) path)) _) _ (Keeps-fail_if _ _ _)
            (λ w u e.
              Keeps-bind _ (lift (of_option (error_response 400 "bad json") body)) _
                (Keeps-lift _ _)
                (λ req.
                  Keeps-then _ (get_secret path or_fail λ _. error_response 404 "not found") _
                    (Keeps-or_fail _ _ _ (Keeps-get_secret q path))
                    (λ v sec f. Keeps-bind _ now _ (Keeps-now q Response) (λ t.
                      Keeps-bind _
                        (lift (merge_tags sec.tags req.add_tags req.remove_tags) or_fail bad_limits)
                        _ (Keeps-or_fail _ _ _ (Keeps-lift _ _))
                        (λ tags.
                          Keeps-bind _
                            (lift (merge_metadata sec.metadata req.set_metadata req.unset_metadata)
                              or_fail bad_limits)
                            _ (Keeps-or_fail _ _ _ (Keeps-lift _ _))
                            (λ meta.
                              Keeps-bind _
                                (lift (validate_optional req.description) or_fail bad_limits) _
                                (Keeps-or_fail _ _ _ (Keeps-lift _ _))
                                (λ _.
                                  let desc = text_or req.description sec.description in
                                  Keeps-if _
                                    (desc == sec.description
                                      && meta == sec.metadata
                                      && tags == sec.tags)
                                    (pure no_content)
                                    (store_annotated s p path sec tags desc meta t)
                                    (record { kept = λ w. refl })
                                    (store_annotated-Keeps s p path q sec tags desc meta t
                                      (fetched_outside p path q w v u sec h e f)))))))))))

  -- An annotation changes nothing that is stored under a path outside the principal's scope: neither
  -- when it is carried out, nor when it is refused, nor when it fails halfway.
  pub handle_annotate_secret_confined :
      (s : Server) (p : Principal) (path : Text) (body : Option AnnotateReq) (q : Text) (w : World)
      → can_access_secret (some p) q ≡ false
      → found_at q (serve (handle_annotate_secret s p path body) w).1 ≡ found_at q w
  handle_annotate_secret_confined s p path body q w h =
      world-answer (found_at q) _ ∙ (annotate-Keeps s p path q body h).kept w
