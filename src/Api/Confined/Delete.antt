-- ===== src/Api/Confined/Delete.antt =====
-- Deleting is confined to the principal's scope.
use scopuli.Prelude.{
  Bool-cases, Result-cases, Text, arith, codes, false, inl, inr, pure, refl, some, text_beq_iff,
  ◌>>◌, ◌or_fail◌, ◌∙◌, ◌≡◌, ◌≢◌,
}
use scopuli.Api.{Response, Server, audit_append, can_access_secret, no_content, serve}
use scopuli.Api.Confined.{Keeps-audit, found_at, other_path}
use scopuli.Api.Keeps.{Keeps-bind, world-answer}
use scopuli.Api.SecretReads.{delete_failure, handle_delete_secret}
use scopuli.Auth.{Principal, is_read_only}
use scopuli.Env.{Env}
use scopuli.Store.Database.{World}
use scopuli.Store.Secrets.{delete_secret}
use scopuli.Store.Secrets.Delete.{delete_secret_either}
use scopuli.Store.Secrets.Invariant.{secret_at-delete_secret_row}
use scopuli.Store.Secrets.Rows.{Unique}

module _ ⦃env : Env⦄ where
  delete_secret_frame :
      (path q : Text) (w : World)
      → Unique w.db.secrets
      → path ≢ q
      → found_at q (delete_secret path w).1 ≡ found_at q w
  delete_secret_frame path q w u n = elim (delete_secret_either path w) [
    | inl e ↦ rw e
    | inr (r, f, e) ↦ rw e (
        secret_at-delete_secret_row path q w.db.secrets r u f ∙ ground (arith, text_beq_iff path q))
  ]

  delete_tail :
      (s : Server) (p : Principal) (path q : Text) (w : World)
      → found_at q (delete_secret path w).1 ≡ found_at q w
      → found_at q
          (((delete_secret path or_fail delete_failure)
              >> (audit_append s p (codes "delete") path (codes "ok") >> pure no_content))
            w).1
        ≡ found_at q w
  delete_tail s p path q w h = elim (Result-cases (delete_secret path w).0) [
    | inl (u, e) ↦ rw e (
        (Keeps-bind (found_at q) (audit_append s p (codes "delete") path (codes "ok"))
            (λ _. pure no_content) (Keeps-audit Response q s p _ _ _)
            (λ _. record { kept = λ w. refl })).kept
          (delete_secret path w).1
        ∙ h)
    | inr (x, e) ↦ rw e h
  ]

  -- While paths and numbers are unique, a deletion changes nothing that is stored under a path
  -- outside the principal's scope, whether it is carried out, refused, or fails halfway.
  pub handle_delete_secret_confined :
      (s : Server) (p : Principal) (path q : Text) (w : World)
      → Unique w.db.secrets
      → can_access_secret (some p) q ≡ false
      → found_at q (serve (handle_delete_secret s p path) w).1 ≡ found_at q w
  unfolding handle_delete_secret
  handle_delete_secret_confined s p path q w u h = elim (Bool-cases (is_read_only p)) [
    | inl e ↦ rw e
    | inr e ↦ elim (Bool-cases (can_access_secret (some p) path)) [
      | inr f ↦ rw (e, f)
      | inl f ↦
          world-answer (found_at q) (handle_delete_secret s p path w)
          ∙ rw (e, f)
              (delete_tail s p path q w (delete_secret_frame path q w u (other_path p path q f h)))
    ]
  ]
