-- ===== src/Api/Revocation/Handlers.antt =====
-- internal/api/server.go: the handlers that create, change and revoke keys leave a revoked key revoked.
use scopuli.Prelude.{
  Option, Text, [], arith, codes, fail_if, lift, nat_eq, none, not, of_option, pure, refl, some,
  text_eq, ℤ, ◌==◌, ◌or_fail◌, ◌||◌,
}
use scopuli.Api.{Server, audit_append, bad_limits, error_response, no_content}
use scopuli.Api.Annotate.{validate_optional}
use scopuli.Api.Keys.{
  CreateKeyReq, bad_permissions, bad_permissions_response, create_failure, handle_create_key,
  handle_revoke_key, new_key, read_expiry,
}
use scopuli.Api.Preserves.{
  Preserves, Preserves-bind, Preserves-fail_if, Preserves-lift, Preserves-or_fail,
}
use scopuli.Api.Revocation.Kept.{
  Stays, audit-Stays, create_key-Stays, get_key-Stays, now-Stays, revoke_key-Stays, same_keys,
  update_key-Stays,
}
use scopuli.Api.Secrets.{request_metadata}
use scopuli.Api.UpdateKey.{
  UpdateKeyReq, bad_optional_permissions, handle_update_key, update_expiry, updated_key,
}
use scopuli.Auth.{Principal, is_operator}
use scopuli.Env.{Env}
use scopuli.Metadata.{merge_metadata, merge_tags, normalize_tags, validate_description}
use scopuli.Store.Database.{now, random, time_now}
use scopuli.Store.Keys.{create_key, get_key_by_name, revoke_key, update_key}
use scopuli.Strings.{join}
use scopuli.Token.{agent_key}

module _ ⦃env : Env⦄ (hash : Text) where
  agent_key-Stays : Preserves (Stays hash) agent_key
  unfolding agent_key random
  agent_key-Stays = same_keys hash agent_key λ w. ground arith

  read_expiry-Stays : (expires_in : Text) → Preserves (Stays hash) (read_expiry expires_in)
  unfolding read_expiry time_now
  read_expiry-Stays expires_in = same_keys hash (read_expiry expires_in) λ w. ground arith

  update_expiry-Stays :
      (old : Option ℤ) (expires_in : Option Text)
      → Preserves (Stays hash) (update_expiry old expires_in)
  unfolding update_expiry time_now
  update_expiry-Stays old none = same_keys hash (update_expiry old none) λ w. refl
  update_expiry-Stays old (some t) = same_keys hash (update_expiry old (some t)) λ w. ground arith

  pub handle_create_key-Stays :
      (s : Server) (p : Principal) (body : Option CreateKeyReq)
      → Preserves (Stays hash) (handle_create_key s p body)
  unfolding handle_create_key
  handle_create_key-Stays s p body =
      Preserves-bind (Stays hash) (fail_if (not (is_operator p.kind)) _) _
        (Preserves-fail_if (Stays hash) _ _)
        λ _.
          Preserves-bind (Stays hash) (lift (of_option (error_response 400 "bad json") body)) _
            (Preserves-lift (Stays hash) _)
            λ req.
              Preserves-bind (Stays hash) (fail_if (req.name == [] || req.scope == []) _) _
                (Preserves-fail_if (Stays hash) _ _)
                λ _.
                  Preserves-bind (Stays hash) (fail_if (bad_permissions req.permissions) _) _
                    (Preserves-fail_if (Stays hash) _ _)
                    λ _.
                      Preserves-bind (Stays hash)
                        (agent_key or_fail λ _. error_response 500 "key gen") _
                        (Preserves-or_fail (Stays hash) agent_key _ agent_key-Stays)
                        λ issued.
                          Preserves-bind (Stays hash)
                            (lift (normalize_tags (join b',' req.tags)) or_fail bad_limits) _
                            (Preserves-or_fail (Stays hash) _ _ (Preserves-lift (Stays hash) _))
                            λ tags.
                              Preserves-bind (Stays hash)
                                (lift (validate_description req.description) or_fail bad_limits) _
                                (Preserves-or_fail (Stays hash) _ _ (Preserves-lift (Stays hash) _))
                                λ _.
                                  Preserves-bind (Stays hash)
                                    (lift (request_metadata req.metadata) or_fail bad_limits) _
                                    (Preserves-or_fail (Stays hash) _ _
                                      (Preserves-lift (Stays hash) _))
                                    λ meta.
                                      Preserves-bind (Stays hash) (read_expiry req.expires_in) _
                                        (read_expiry-Stays req.expires_in)
                                        λ expires_at.
                                          let k = new_key req issued tags meta expires_at in
                                          Preserves-bind (Stays hash)
                                            (create_key k or_fail create_failure) _
                                            (Preserves-or_fail (Stays hash) (create_key k)
                                              create_failure (create_key-Stays hash k))
                                            λ _.
                                              Preserves-bind (Stays hash)
                                                (audit_append s p (codes "key.create") req.name
                                                  (codes "ok"))
                                                _
                                                (audit-Stays hash s p (codes "key.create") req.name
                                                  (codes "ok"))
                                                λ _. record { preserved = λ w i. i }

  pub handle_update_key-Stays :
      (s : Server) (p : Principal) (name : Text) (body : Option UpdateKeyReq)
      → Preserves (Stays hash) (handle_update_key s p name body)
  unfolding handle_update_key
  handle_update_key-Stays s p name body =
      Preserves-bind (Stays hash) (fail_if (not (is_operator p.kind)) _) _
        (Preserves-fail_if (Stays hash) _ _)
        λ _.
          Preserves-bind (Stays hash)
            (get_key_by_name name or_fail λ _. error_response 404 "not found") _
            (Preserves-or_fail (Stays hash) (get_key_by_name name) _ (get_key-Stays hash name))
            λ k.
              Preserves-bind (Stays hash) (lift (of_option (error_response 400 "bad json") body)) _
                (Preserves-lift (Stays hash) _)
                λ req. Preserves-bind (Stays hash) now _ (now-Stays hash) λ t.
                  Preserves-bind (Stays hash)
                    (fail_if (bad_optional_permissions req.permissions) bad_permissions_response) _
                    (Preserves-fail_if (Stays hash) _ _)
                    λ _.
                      Preserves-bind (Stays hash) (update_expiry k.expires_at req.expires_in) _
                        (update_expiry-Stays k.expires_at req.expires_in)
                        λ expires_at.
                          Preserves-bind (Stays hash)
                            (lift (merge_tags k.tags req.add_tags req.remove_tags)
                              or_fail bad_limits)
                            _ (Preserves-or_fail (Stays hash) _ _ (Preserves-lift (Stays hash) _))
                            λ tags.
                              Preserves-bind (Stays hash)
                                (lift (validate_optional req.description) or_fail bad_limits) _
                                (Preserves-or_fail (Stays hash) _ _ (Preserves-lift (Stays hash) _))
                                λ _.
                                  Preserves-bind (Stays hash)
                                    (lift (
                                        merge_metadata k.metadata req.set_metadata
                                          req.unset_metadata)
                                      or_fail bad_limits)
                                    _
                                    (Preserves-or_fail (Stays hash) _ _
                                      (Preserves-lift (Stays hash) _))
                                    λ meta.
                                      let row = updated_key k req expires_at tags meta t in
                                      Preserves-bind (Stays hash)
                                        (update_key row or_fail λ _. error_response 500 "update") _
                                        (Preserves-or_fail (Stays hash) (update_key row) _
                                          (update_key-Stays hash row))
                                        λ _.
                                          Preserves-bind (Stays hash)
                                            (audit_append s p (codes "key.update") name
                                              (codes "ok"))
                                            (λ u. pure no_content)
                                            (audit-Stays hash s p (codes "key.update") name
                                              (codes "ok"))
                                            λ _. record { preserved = λ w i. i }

  pub handle_revoke_key-Stays :
      (s : Server) (p : Principal) (name : Text)
      → Preserves (Stays hash) (handle_revoke_key s p name)
  unfolding handle_revoke_key
  handle_revoke_key-Stays s p name =
      Preserves-bind (Stays hash) (fail_if (not (is_operator p.kind)) _) _
        (Preserves-fail_if (Stays hash) _ _)
        λ _.
          Preserves-bind (Stays hash)
            (get_key_by_name name or_fail λ _. error_response 404 "not found") _
            (Preserves-or_fail (Stays hash) (get_key_by_name name) _ (get_key-Stays hash name))
            λ k.
              Preserves-bind (Stays hash) (revoke_key k.id or_fail λ _. error_response 500 "revoke")
                _ (Preserves-or_fail (Stays hash) (revoke_key k.id) _ (revoke_key-Stays hash k.id))
                λ _.
                  Preserves-bind (Stays hash)
                    (audit_append s p (codes "key.revoke") name (codes "ok")) (λ u. pure no_content)
                    (audit-Stays hash s p (codes "key.revoke") name (codes "ok"))
                    λ _. record { preserved = λ w i. i }
