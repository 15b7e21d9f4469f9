-- ===== src/Api/Intact.antt =====
-- The handlers for one secret keep the log that Verify accepts.
pub mod Requests
use scopuli.Prelude.{
  Bool-cases, Result-cases, Text, ap, arith, codes, fail_if, inl, inr, not, some, ℕ, ◌or_fail◌, ◌∙◌,
  ◌≡◌,
}
use scopuli.Api.{
  Response, Server, aad_of, append_entry, audit_append, can_access_secret, error_response, open_row,
}
use scopuli.Api.Effects.{append_entry-some}
use scopuli.Api.Guards.{check_scope_allowed, check_scope_denied}
use scopuli.Api.Preserves.{Preserves, Preserves-bind, Preserves-fail_if, Preserves-or_fail}
use scopuli.Api.SecretReads.{delete_failure, handle_delete_secret, handle_get_secret, reveal_row}
use scopuli.Api.Secrets.{check_scope}
use scopuli.Audit.{Entry, Logger, verify_rows, zero_hash}
use scopuli.Audit.Chain.{IsIntact, append-IsIntact}
use scopuli.Auth.{Principal, is_read_only, kind_text}
use scopuli.Env.{Env}
use scopuli.Store.Database.{Secret, World, now}
use scopuli.Store.Secrets.{delete_secret, get_secret, put_secret}
use scopuli.Store.Secrets.Put.{db-get_secret}

module _ ⦃env : Env⦄ where
  append_entry-IsIntact :
      (E : Type 0) (l : Logger) (e : Entry)
      → Preserves (IsIntact l) (append_entry {E = E} (some l) e)
  append_entry-IsIntact E l e = record {
    preserved = λ w i. rw (append_entry-some E l e w) (append-IsIntact l e w i);
  }

  -- The entry of `auditAppend` at a time.
  abbrev entry_at : Principal → Text → Text → Text → ℕ → Entry
  entry_at p action path result t = record {
    id = 0;
    ts = t;
    actor_kind = kind_text p.kind;
    actor_id = p.id;
    action = action;
    path = path;
    result = result;
  }

  pub audit_append-IsIntact :
      (E : Type 0) (s : Server) (l : Logger) (p : Principal) (a path r : Text)
      → s.audit ≡ some l
      → Preserves (IsIntact l) (audit_append {E = E} s p a path r)
  unfolding audit_append
  audit_append-IsIntact E s l p a path r h = rw h (
      Preserves-bind _ now _ (record { preserved = λ w i. unfold now in i })
        (λ t. append_entry-IsIntact E l (entry_at p a path r t)))

  pub same_log : (l : Logger) (v w : World) → v.db.audit ≡ w.db.audit → IsIntact l w → IsIntact l v
  same_log l v w e i = ap (verify_rows l zero_hash) e ∙ i

  pub get_secret-IsIntact : (l : Logger) (path : Text) → Preserves (IsIntact l) (get_secret path)
  get_secret-IsIntact l path = record {
    preserved =
        λ w i. same_log l (get_secret path w).1 w (ap (λ d. d.audit) (db-get_secret path w)) i;
  }

  pub log-put_secret : (sec : Secret) (w : World) → (put_secret sec w).1.db.audit ≡ w.db.audit
  unfolding put_secret
  log-put_secret sec w = ground arith

  log-delete_secret : (path : Text) (w : World) → (delete_secret path w).1.db.audit ≡ w.db.audit
  unfolding delete_secret
  log-delete_secret path w = ground arith

  pub check_scope-IsIntact :
      (s : Server) (l : Logger) (p : Principal) (path : Text)
      → s.audit ≡ some l
      → Preserves (IsIntact l) (check_scope s p path)
  check_scope-IsIntact s l p path h = record {
    preserved = λ w i. elim (Bool-cases (can_access_secret (some p) path)) [
      | inl e ↦ rw (check_scope_allowed s p path w e) i
      | inr e ↦ rw (check_scope_denied s p path w e) (
          (audit_append-IsIntact Response s l p (codes "denied:out_of_scope") path (codes "denied")
              h).preserved
            w i)
    ];
  }

  reveal_row-IsIntact :
      (s : Server) (l : Logger) (p : Principal) (path : Text) (sec : Secret)
      → s.audit ≡ some l
      → Preserves (IsIntact l) (reveal_row s p path sec)
  unfolding reveal_row
  reveal_row-IsIntact s l p path sec h = elim (Result-cases (open_row s.kek sec (aad_of sec))) [
    | inl (pt, e) ↦
        rw (reveal_row, e)
          (Preserves-bind _ (audit_append s p (codes "read") path (codes "ok")) _
            (audit_append-IsIntact Response s l p _ path _ h)
            (λ _. record { preserved = λ w i. i }))
    | inr (x, e) ↦
        rw (reveal_row, e)
          (Preserves-bind _ (audit_append s p (codes "error:decrypt_failed") path (codes "error")) _
            (audit_append-IsIntact Response s l p _ path _ h)
            (λ _. record { preserved = λ w i. i }))
  ]

  pub get-IsIntact :
      (s : Server) (l : Logger) (p : Principal) (path : Text)
      → s.audit ≡ some l
      → Preserves (IsIntact l) (handle_get_secret s p path)
  unfolding handle_get_secret
  get-IsIntact s l p path h =
      Preserves-bind _ (check_scope s p path) _ (check_scope-IsIntact s l p path h) (λ _.
        Preserves-bind _ (get_secret path or_fail λ _. error_response 404 "not found") _
          (Preserves-or_fail _ _ _ (get_secret-IsIntact l path))
          (λ sec. reveal_row-IsIntact s l p path sec h))

  pub delete-IsIntact :
      (s : Server) (l : Logger) (p : Principal) (path : Text)
      → s.audit ≡ some l
      → Preserves (IsIntact l) (handle_delete_secret s p path)
  unfolding handle_delete_secret
  delete-IsIntact s l p path h =
      Preserves-bind _ (fail_if (is_read_only p) _) _ (Preserves-fail_if _ _ _) (λ _.
        Preserves-bind _ (fail_if (not (can_access_secret (some p) path)) _) _
          (Preserves-fail_if _ _ _)
          (λ _.
            Preserves-bind _ (delete_secret path or_fail delete_failure) _
              (Preserves-or_fail _ (delete_secret path) _ (record {
                preserved =
                    λ w i. same_log l (delete_secret path w).1 w (log-delete_secret path w) i;
              }))
              (λ _.
                Preserves-bind _ (audit_append s p (codes "delete") path (codes "ok")) _
                  (audit_append-IsIntact Response s l p _ path _ h)
                  (λ _. record { preserved = λ w i. i }))))
