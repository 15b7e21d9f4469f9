-- ===== src/Store/Secrets/Put.antt =====
-- PutSecret and DeleteSecret as seen through GetSecret.
use scopuli.Prelude.{
  List, Option, Option-cases, Text, ap, arith, false, if◌then◌else◌, inl, inr, nat_eq, of_option,
  ok, some, suc, text_beq_iff, text_eq, ℕ, ◌/◌, ◌==◌, ◌∙◌, ◌≡◌,
}
use scopuli.Env.{Env}
use scopuli.Store.Database.{Secret, World, next_id, not_found}
use scopuli.Store.Secrets.{get_secret, put_secret, secret_at, secret_ids, upsert_secret}
use scopuli.Store.Secrets.Rows.{secret_at-upsert_secret, stored_as}

module _ ⦃env : Env⦄ where
  -- The secret with the times that PutSecret sets.
  abbrev pub with_times : Secret → World → Secret
  with_times sec w =
      let t = env.time_at w.events / 1000000 in
      record sec { updated_at = t; created_at = if sec.created_at == 0 then t else sec.created_at }

  -- The tables after PutSecret.
  abbrev pub put_rows : Secret → World → List Secret
  put_rows sec w = upsert_secret (next_id (secret_ids w.db.secrets)) (with_times sec w) w.db.secrets

  put_secret_rows :
      (sec : Secret) (w : World) {u : Unit {0}}
      → (put_secret sec w).0 ≡ ok u
      → (put_secret sec w).1.db.secrets ≡ put_rows sec w
  unfolding put_secret
  put_secret_rows sec w h = ground arith

  pub get_secret-row :
      (q : Text) (w : World) (r : Secret)
      → (get_secret q w).0 ≡ ok r
      → secret_at q w.db.secrets ≡ some r
  unfolding get_secret
  get_secret-row q w r h = elim (Option-cases (secret_at q w.db.secrets)) [
    | inl e ↦ absurd (ground arith)
    | inr (s, e) ↦ ground arith
  ]

  pub db-get_secret : (q : Text) (w : World) → (get_secret q w).1.db ≡ w.db
  unfolding get_secret
  db-get_secret q w = ground arith

  pub get_secret_total :
      (q : Text) (w : World)
      → ((n : ℕ) → env.fault_at n ≡ false)
      → (get_secret q w).0 ≡ of_option not_found (secret_at q w.db.secrets)
  unfolding get_secret
  get_secret_total q w f = ground (arith, f w.events)

  -- What GetSecret finds after PutSecret.
  abbrev pub after_put : Secret → World → Text → Option Secret
  after_put sec w q =
      let rows = w.db.secrets in
      if sec.path == q
      then some (stored_as (next_id (secret_ids rows)) (with_times sec w) (secret_at sec.path rows))
      else secret_at q rows

  pub secret_at-put_secret :
      (sec : Secret) (w : World) (q : Text) {u : Unit {0}}
      → (put_secret sec w).0 ≡ ok u
      → secret_at q (put_secret sec w).1.db.secrets ≡ after_put sec w q
  secret_at-put_secret sec w q h =
      rw (put_secret_rows sec w h) (secret_at-upsert_secret _ (with_times sec w) w.db.secrets q)

  pub put_secret_total :
      (sec : Secret) (w : World) → ((n : ℕ) → env.fault_at n ≡ false) → (put_secret sec w).0 ≡ ok tt
  unfolding put_secret
  put_secret_total sec w f =
      let e = w.events in
      ground (
        arith,
        f (suc e),
        f (suc (suc e)),
        f (suc (suc (suc e))),
        f (suc (suc (suc (suc e)))),
        f (suc (suc (suc (suc (suc e))))),
        f (suc (suc (suc (suc (suc (suc e)))))),
        secret_at-upsert_secret (next_id (secret_ids w.db.secrets)) (with_times sec w) w.db.secrets
            sec.path,
        text_beq_iff sec.path sec.path,
      )

  -- If the engine does not fail, PutSecret succeeds, and GetSecret then finds under its path the
  -- columns that were given, with the time of the call as updated_at, and the number and the creation
  -- time of the row that was there; where there was none, a new number, and the time of the call if
  -- no creation time was given. Under every other path it finds what it found before.
  pub get-put_secret :
      (sec : Secret) (w : World) (q : Text)
      → ((n : ℕ) → env.fault_at n ≡ false)
      → ((put_secret sec w).0 ≡ ok tt)
        × ((get_secret q (put_secret sec w).1).0 ≡ of_option not_found (after_put sec w q))
  get-put_secret sec w q f = (
    put_secret_total sec w f,
    get_secret_total q _ f
        ∙ ap (of_option not_found) (secret_at-put_secret sec w q (put_secret_total sec w f)),
  )
