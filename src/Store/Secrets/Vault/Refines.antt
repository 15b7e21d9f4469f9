-- ===== src/Store/Secrets/Vault/Refines.antt =====
-- PutSecret, DeleteSecret and GetSecret are the operations of a map.
use scopuli.Prelude.{
  Bool-cases, List, Option, Option-cases, Text, [], ap, ap₂, fun_ext, inl, inr, none, refl, some,
  subst, sym, text_beq, ℕ, ◌∷◌, ◌≡◌,
}
use scopuli.Env.{Env}
use scopuli.Store.Database.{Secret, World}
use scopuli.Store.Secrets.{delete_secret, get_secret, put_secret, secret_at}
use scopuli.Store.Secrets.Delete.{
  delete_secret-Unique, delete_secret_total, deleted_at, put_secret-Unique,
}
use scopuli.Store.Secrets.Healthy.{NoFaults}
use scopuli.Store.Secrets.Put.{
  db-get_secret, get_secret_total, put_secret_total, secret_at-put_secret, with_times,
}
use scopuli.Store.Secrets.Rows.{Unique, stored_as}
use scopuli.Store.Secrets.Vault.{
  Call, contents_at, contents_of, delete_call, done_or_missing, found_or_missing, get_call,
  on_table, on_vault, put_call, read_reply, replay, run, update_vault, view, written_reply,
}

contents-stored_as :
    (new : ℕ) (sec : Secret) (o : Option Secret)
    → contents_of (stored_as new sec o) ≡ contents_of sec
contents-stored_as new sec none = refl
contents-stored_as new sec (some r) = refl

module _ ⦃env : Env⦄ where
  put_view :
      (sec : Secret) (w : World)
      → NoFaults
      → view (put_secret sec w).1 ≡ update_vault sec.path (some (contents_of sec)) (view w)
  unfolding update_vault
  put_view sec w f = fun_ext λ q.
      rw (secret_at-put_secret sec w q (put_secret_total sec w f))
        (elim (Bool-cases (text_beq sec.path q)) [
          | inl e ↦
              rw e (
                ap some (contents-stored_as _ (with_times sec w) (secret_at sec.path w.db.secrets)))
          | inr e ↦ rw e refl
        ])

  delete_view :
      (path : Text) (w : World)
      → NoFaults
      → Unique w.db.secrets
      → view (delete_secret path w).1 ≡ update_vault path none (view w)
  unfolding update_vault
  delete_view path w f u = fun_ext λ q.
      rw (deleted_at path q w f u)
        (elim (Bool-cases (text_beq path q)) [ inl e ↦ rw e refl | inr e ↦ rw e refl ])

  deleted_reply :
      (path : Text) (w : World)
      → NoFaults
      → written_reply (delete_secret path w).0 ≡ done_or_missing (view w path)
  deleted_reply path w f =
      rw (delete_secret_total path w f) (elim (Option-cases (secret_at path w.db.secrets)) [
        | inl e ↦ rw e refl
        | inr (r, e) ↦ rw e refl
      ])

  read_view :
      (path : Text) (w : World)
      → NoFaults
      → read_reply (get_secret path w).0 ≡ found_or_missing (view w path)
  read_view path w f =
      rw (get_secret_total path w f) (elim (Option-cases (secret_at path w.db.secrets)) [
        | inl e ↦ rw e refl
        | inr (r, e) ↦ rw e refl
      ])

  -- One call: the same reply, the same view afterwards, and the rows stay unique.
  on_table_refines :
      (c : Call) (w : World)
      → NoFaults
      → Unique w.db.secrets
      → ((on_table c w).0 ≡ (on_vault c (view w)).0)
        × (view (on_table c w).1 ≡ (on_vault c (view w)).1)
        × Unique (on_table c w).1.db.secrets
  unfolding on_table on_vault
  on_table_refines (put_call sec) w f u =
      (rw (put_secret_total sec w f) refl, put_view sec w f, put_secret-Unique sec w u)
  on_table_refines (delete_call path) w f u =
      (deleted_reply path w f, delete_view path w f u, delete_secret-Unique path w u)
  on_table_refines (get_call path) w f u = (
    read_view path w f,
    ap (λ tables q. contents_at (secret_at q tables.secrets)) (db-get_secret path w),
    subst (λ tables. Unique tables.secrets) (sym (db-get_secret path w)) u,
  )

  -- If the engine does not fail, then any sequence of PutSecret, DeleteSecret and GetSecret, from a
  -- table with unique paths and numbers, gives the replies that the same sequence gives on a map from
  -- paths to contents, and the table then reads as that map. The contents are the label, ciphertext,
  -- nonce, additional data, tags, description, metadata and version of a row.
  pub run_refines :
      (calls : List Call) (w : World)
      → NoFaults
      → Unique w.db.secrets
      → ((run calls w).0 ≡ (replay calls (view w)).0)
        × (view (run calls w).1 ≡ (replay calls (view w)).1)
  unfolding run replay
  run_refines [] w f u = (refl, refl)
  run_refines (c ∷ calls) w f u =
      let (reply, after, unique) = on_table_refines c w f u in
      let (replies, end) = run_refines calls (on_table c w).1 f unique in
      (ap₂ (λ x xs. x ∷ xs) reply (rw after at replies), rw after at end)
