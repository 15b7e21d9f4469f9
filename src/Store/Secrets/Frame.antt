-- ===== src/Store/Secrets/Frame.antt =====
-- What PutSecret and DeleteSecret leave of the rows of other paths, whatever they return.
use scopuli.Prelude.{Text, arith, inl, inr, text_beq_iff, ◌∙◌, ◌≡◌, ◌≢◌, ◌⊎◌}
use scopuli.Env.{Env}
use scopuli.Store.Database.{Secret, World, next_id}
use scopuli.Store.Secrets.{put_secret, secret_at, secret_ids}
use scopuli.Store.Secrets.Put.{put_rows, with_times}
use scopuli.Store.Secrets.Rows.{secret_at-upsert_secret}

module _ ⦃env : Env⦄ where
  pub put_secret_either :
      (sec : Secret) (w : World)
      → ((put_secret sec w).1.db.secrets ≡ w.db.secrets)
        ⊎ ((put_secret sec w).1.db.secrets ≡ put_rows sec w)
  unfolding put_secret
  put_secret_either sec w = ground arith

  -- PutSecret, also where it fails halfway, leaves what GetSecret finds under every other path.
  pub put_secret_frame :
      (sec : Secret) (q : Text) (w : World)
      → sec.path ≢ q
      → secret_at q (put_secret sec w).1.db.secrets ≡ secret_at q w.db.secrets
  put_secret_frame sec q w n = elim (put_secret_either sec w) [
    | inl e ↦ rw e
    | inr e ↦ rw e (
        secret_at-upsert_secret (next_id (secret_ids w.db.secrets)) (with_times sec w) w.db.secrets
          q
        ∙ ground (arith, text_beq_iff sec.path q))
  ]
