-- ===== src/Api/Revocation.antt =====
-- A key that was revoked is no longer let in.
pub mod Kept
pub mod Handlers
pub mod Later
use scopuli.Prelude.{
  Bool-cases, List, Text, [], ap, arith, codes, continue-ok, continue_ok, err, fail_if_not, inl,
  inr, map_err_ok, not, ok, refl, some, subst, suc, text_beq, text_beq_iff, true, ℕ, ◌/◌, ◌∙◌, ◌∷◌,
  ◌≡◌, ◌≢◌,
}
use scopuli.Api.{Response, Server, no_content, serve}
use scopuli.Api.Effects.{audit_append-SameTables, audit_append_ok}
use scopuli.Api.Guards.{audited}
use scopuli.Api.Keys.{handle_revoke_key}
use scopuli.Auth.{Credentials, Principal, authenticate, is_operator, revoked}
use scopuli.Env.{Env}
use scopuli.Store.Database.{Key, World}
use scopuli.Store.Keys.{get_key_by_name, key_hashed, key_named, revoke_key, update_keys}
use scopuli.Store.Secrets.Healthy.{NoFaults, after_event}
use scopuli.Token.{hash_hex}

updated_first :
    (hash : Text) (f : Key → Key) (rows : List Key) (r : Key)
    → ((j : Key) → (f j).hash ≡ j.hash)
    → text_beq r.hash hash ≡ true
    → key_hashed hash (update_keys r.id f (r ∷ rows)) ≡ some (f r)
unfolding key_hashed update_keys
updated_first hash f rows r same e = ground (arith, ap (λ h. text_beq h hash) (same r))

-- The row with a digest, after an update of that row that keeps the digest.
key_hashed-update_keys :
    (hash : Text) (f : Key → Key) (rows : List Key) (k : Key)
    → ((j : Key) → (f j).hash ≡ j.hash)
    → key_hashed hash rows ≡ some k
    → key_hashed hash (update_keys k.id f rows) ≡ some (f k)
unfolding key_hashed update_keys
key_hashed-update_keys hash f [] k same h = absurd (ground arith)
key_hashed-update_keys hash f (r ∷ rows) k same h = elim (Bool-cases (text_beq r.hash hash)) [
  | inl e ↦
      let first : r ≡ k = ground arith in
      subst (λ j. key_hashed hash (update_keys j.id f (r ∷ rows)) ≡ some (f j)) first
        (updated_first hash f rows r same e)
  | inr e ↦
      let rest = key_hashed-update_keys hash f rows k same (ground arith) in
      ground (arith, rest, same r, ap (λ h. text_beq h hash) (same r))
]

module _ ⦃env : Env⦄ where
  revoke_key_healthy :
      (k : Key) (hash : Text) (w : World)
      → NoFaults
      → key_hashed hash w.db.keys ≡ some k
      → ((revoke_key k.id w).0 ≡ ok tt)
        × ((t : ℕ) × (key_hashed hash (revoke_key k.id w).1.db.keys
              ≡ some (record k { revoked_at = some t })))
  unfolding revoke_key
  revoke_key_healthy k hash w f h = (
    ground (arith, f (suc w.events)),
    (
      env.time_at w.events / 1000000,
      rw (f (suc w.events)) (
          key_hashed-update_keys hash
            (λ j. record j { revoked_at = some (env.time_at w.events / 1000000) }) w.db.keys k
            (λ j. refl) h),
    ),
  )

  pub authenticate_revoked :
      (c : Credentials) (k : Key) (t : ℕ) (w : World)
      → NoFaults
      → c.operator_header ≡ []
      → c.key_header ≢ []
      → key_hashed (hash_hex c.key_header) w.db.keys ≡ some k
      → k.revoked_at ≡ some t
      → (authenticate c w).0 ≡ err revoked
  unfolding authenticate
  authenticate_revoked c k t w f o n h e =
      ground (arith, f w.events, text_beq_iff c.operator_header [], text_beq_iff c.key_header [])

  get_key_healthy :
      (name : Text) (k : Key) (w : World)
      → NoFaults
      → key_named name w.db.keys ≡ some k
      → get_key_by_name name w ≡ (ok k, after_event w)
  unfolding get_key_by_name
  get_key_healthy name k w f h = rw (f w.events, h)

  revoke_answer :
      (s : Server) (p : Principal) (name : Text) (k : Key) (w : World)
      → NoFaults
      → is_operator p.kind ≡ true
      → key_named name w.db.keys ≡ some k
      → (revoke_key k.id (after_event w)).0 ≡ ok tt
      → handle_revoke_key s p name w ≡ (
        ok no_content,
        audited s p (codes "key.revoke") name (codes "ok") (revoke_key k.id (after_event w)).1,
      )
  unfolding handle_revoke_key
  revoke_answer s p name k w f o h r =
      continue_ok _ _ (fail_if_not {b = not (is_operator p.kind)} _ w (ground arith))
      ∙ continue_ok _ _ (map_err_ok _ (get_key_healthy name k w f h))
      ∙ continue_ok _ _ (map_err_ok _ (ap (λ x. (x, (revoke_key k.id (after_event w)).1)) r))
      ∙ continue-ok _ _ (audit_append_ok s p (codes "key.revoke") name (codes "ok") _)

  -- What handleRevokeKey answers, and the row that then has the digest.
  pub handle_revoke_key_total :
      (s : Server) (p : Principal) (name hash : Text) (k : Key) (w : World)
      → NoFaults
      → is_operator p.kind ≡ true
      → key_named name w.db.keys ≡ some k
      → key_hashed hash w.db.keys ≡ some k
      → let (r, v) = serve (handle_revoke_key s p name) w in
        (r ≡ no_content)
        × ((t : ℕ) × (key_hashed hash v.db.keys ≡ some (record k { revoked_at = some t })))
  handle_revoke_key_total s p name hash k w f o named hashed =
      let (r, (t, e)) = revoke_key_healthy k hash (after_event w) f hashed in
      let v = (revoke_key k.id (after_event w)).1 in
      let same = audit_append-SameTables Response s p (codes "key.revoke") name (codes "ok") v in
      rw (revoke_answer s p name k w f o named r) (refl, (t, ap (key_hashed hash) same.keys ∙ e))
