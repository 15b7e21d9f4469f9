-- ===== src/Store/Secrets/Healthy.antt =====
-- The methods on secrets while the database engine does not fail.
use scopuli.Prelude.{
  List, Option-cases, Text, ap, attempt, false, inl, inr, of_option, ok, refl, suc, ℕ, ◌≡◌,
}
use scopuli.Env.{Env}
use scopuli.Store.Database.{Secret, World, not_found}
use scopuli.Store.Secrets.{get_secret, put_secret, secret_at}
use scopuli.Store.Secrets.Put.{put_secret_total}
use scopuli.Store.Secrets.Rows.{secret_at-path, stored_as}

module _ ⦃env : Env⦄ where
  abbrev pub NoFaults : Type 0
  NoFaults = (n : ℕ) → env.fault_at n ≡ false

  -- The world after one more event.
  abbrev pub after_event : World → World
  after_event w = record w { events = suc w.events }

  pub get_secret_healthy :
      (q : Text) (w : World)
      → NoFaults
      → get_secret q w ≡ (of_option not_found (secret_at q w.db.secrets), after_event w)
  unfolding get_secret
  get_secret_healthy q w f = elim (Option-cases (secret_at q w.db.secrets)) [
    | inl e ↦ rw (f w.events, e)
    | inr (r, e) ↦ rw (f w.events, e)
  ]

  pub attempt-get_secret :
      {E : Type 0} (q : Text) (w : World)
      → NoFaults
      → attempt {F = E} (get_secret q) w ≡ (ok (secret_at q w.db.secrets), after_event w)
  attempt-get_secret q w f = elim (Option-cases (secret_at q w.db.secrets)) [
    | inl e ↦ rw (get_secret_healthy q w f, e)
    | inr (r, e) ↦ rw (get_secret_healthy q w f, e)
  ]

  pub put_secret_healthy :
      (sec : Secret) (w : World) → NoFaults → put_secret sec w ≡ (ok tt, (put_secret sec w).1)
  put_secret_healthy sec w f = ap (λ r. (r, (put_secret sec w).1)) (put_secret_total sec w f)

  -- The row that PutSecret leaves has the path that was asked for and the new contents.
  pub stored_as-contents :
      (new : ℕ) (sec : Secret) (rows : List Secret)
      → let r = stored_as new sec (secret_at sec.path rows) in
        (r.path ≡ sec.path)
        × (r.ciphertext ≡ sec.ciphertext)
        × (r.nonce ≡ sec.nonce)
        × (r.description ≡ sec.description)
        × (r.version ≡ sec.version)
        × (r.label ≡ sec.label)
        × (r.tags ≡ sec.tags)
        × (r.metadata ≡ sec.metadata)
  stored_as-contents new sec rows = elim (Option-cases (secret_at sec.path rows)) [
    | inl e ↦ rw e (refl, refl, refl, refl, refl, refl, refl, refl)
    | inr (r, e) ↦ rw e (secret_at-path sec.path rows r e, refl, refl, refl, refl, refl, refl, refl)
  ]
