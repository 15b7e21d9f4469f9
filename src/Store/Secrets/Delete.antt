-- ===== src/Store/Secrets/Delete.antt =====
-- PutSecret and DeleteSecret keep the table's paths and numbers unique; what DeleteSecret deletes.
use scopuli.Prelude.{
  Bool-cases, List, Option-cases, Text, ap, arith, err, if◌then◌else◌, inl, inr, nat_eq, none,
  of_option, ok, some, subst, suc, sym, text_beq, text_beq_iff, text_eq, ◌==◌, ◌∙◌, ◌≡◌, ◌⊎◌,
}
use scopuli.Env.{Env}
use scopuli.Store.Database.{Secret, World, not_found}
use scopuli.Store.Keys.{is_some}
use scopuli.Store.Secrets.{delete_secret, delete_secret_row, get_secret, put_secret, secret_at}
use scopuli.Store.Secrets.Frame.{put_secret_either}
use scopuli.Store.Secrets.Healthy.{NoFaults}
use scopuli.Store.Secrets.Invariant.{
  delete-Unique, ids-next_id, secret_at-delete_secret_row, upsert-Unique,
}
use scopuli.Store.Secrets.Put.{get_secret_total, with_times}
use scopuli.Store.Secrets.Rows.{Unique}

module _ ⦃env : Env⦄ where
  pub delete_secret_either :
      (path : Text) (w : World)
      → ((delete_secret path w).1.db.secrets ≡ w.db.secrets)
        ⊎ ((r : Secret) × (secret_at path w.db.secrets ≡ some r)
            × ((delete_secret path w).1.db.secrets ≡ delete_secret_row r.id w.db.secrets))
  delete_secret_either path w = elim (Option-cases (secret_at path w.db.secrets)) [
    | inl e ↦ inl (unfold delete_secret in ground arith)
    | inr (r, e) ↦ elim (Bool-cases (env.fault_at w.events)) [
      | inl f ↦ inl (unfold delete_secret in ground arith)
      | inr f ↦ elim (Bool-cases (env.fault_at (suc w.events))) [
        | inl g ↦ inl (unfold delete_secret in ground arith)
        | inr g ↦ inr (r, e, unfold delete_secret in ground arith)
      ]
    ]
  ]

  pub put_secret-Unique :
      (sec : Secret) (w : World) → Unique w.db.secrets → Unique (put_secret sec w).1.db.secrets
  put_secret-Unique sec w u = elim (put_secret_either sec w) [
    | inl e ↦ rw e u
    | inr e ↦ rw e (upsert-Unique _ (with_times sec w) w.db.secrets (ids-next_id w.db.secrets) u)
  ]

  pub delete_secret-Unique :
      (path : Text) (w : World) → Unique w.db.secrets → Unique (delete_secret path w).1.db.secrets
  delete_secret-Unique path w u = elim (delete_secret_either path w) [
    | inl e ↦ rw e u
    | inr (r, f, e) ↦ rw e (delete-Unique r.id w.db.secrets u)
  ]

  -- Whether they succeed or fail, PutSecret and DeleteSecret keep paths and numbers unique.
  pub writes-Unique :
      (sec : Secret) (path : Text) (w : World)
      → Unique w.db.secrets
      → Unique (put_secret sec w).1.db.secrets × Unique (delete_secret path w).1.db.secrets
  writes-Unique sec path w u = (put_secret-Unique sec w u, delete_secret-Unique path w u)

  nothing_at :
      (path q : Text) (rows : List Secret)
      → secret_at path rows ≡ none
      → secret_at q rows ≡ (if path == q then none else secret_at q rows)
  nothing_at path q rows e = elim (Bool-cases (text_beq path q)) [
    | inl b ↦ rw b (ap (λ t. secret_at t rows) (sym ((text_beq_iff path q).0 b)) ∙ e)
    | inr b ↦ rw b
  ]

  deleted_none :
      (path : Text) (w : World)
      → NoFaults
      → secret_at path w.db.secrets ≡ none
      → (delete_secret path w).1.db.secrets ≡ w.db.secrets
  unfolding delete_secret
  deleted_none path w f e = ground (arith, f w.events)

  deleted_rows :
      (path : Text) (w : World) (r : Secret)
      → NoFaults
      → secret_at path w.db.secrets ≡ some r
      → (delete_secret path w).1.db.secrets ≡ delete_secret_row r.id w.db.secrets
  unfolding delete_secret
  deleted_rows path w r f e = ground (arith, f w.events, f (suc w.events), f (suc (suc w.events)))

  pub delete_secret_total :
      (path : Text) (w : World)
      → NoFaults
      → (delete_secret path w).0
        ≡ (if is_some (secret_at path w.db.secrets) then ok tt else err not_found)
  unfolding delete_secret
  delete_secret_total path w f = elim (Option-cases (secret_at path w.db.secrets)) [
    | inl e ↦ ground (arith, f w.events)
    | inr (r, e) ↦ ground (arith, f w.events, f (suc w.events), f (suc (suc w.events)))
  ]

  pub deleted_at :
      (path q : Text) (w : World)
      → NoFaults
      → Unique w.db.secrets
      → secret_at q (delete_secret path w).1.db.secrets
        ≡ (if path == q then none else secret_at q w.db.secrets)
  deleted_at path q w f u = elim (Option-cases (secret_at path w.db.secrets)) [
    | inl e ↦
        subst (λ rows. secret_at q rows ≡ (if path == q then none else secret_at q w.db.secrets))
          (sym (deleted_none path w f e)) (nothing_at path q w.db.secrets e)
    | inr (r, e) ↦
        subst (λ rows. secret_at q rows ≡ (if path == q then none else secret_at q w.db.secrets))
          (sym (deleted_rows path w r f e)) (secret_at-delete_secret_row path q w.db.secrets r u e)
  ]

  -- If the engine does not fail, DeleteSecret succeeds exactly if GetSecret finds the path, and then
  -- GetSecret finds nothing under it, and under every other path what it found before.
  pub get-delete_secret :
      (path q : Text) (w : World)
      → NoFaults
      → Unique w.db.secrets
      → ((delete_secret path w).0
          ≡ (if is_some (secret_at path w.db.secrets) then ok tt else err not_found))
        × ((get_secret q (delete_secret path w).1).0
            ≡ of_option not_found (if path == q then none else secret_at q w.db.secrets))
  get-delete_secret path q w f u = (
    delete_secret_total path w f,
    get_secret_total q _ f ∙ ap (of_option not_found) (deleted_at path q w f u),
  )
