-- ===== src/Api/RoundTrip.antt =====
-- What handlePutSecret stores, handleGetSecret answers.
use scopuli.Prelude.{
  Bytes, Option, Text, [], ap, arith, codes, continue-ok, continue_ok, fail_if_not, false, length,
  lift_ok, map_err_ok, of_option, ok, refl, some, take-append-drop, text_beq, text_beq_iff, true, ℕ,
  ◌++◌, ◌/◌, ◌∙◌, ◌≡◌, ◌≢◌,
}
use scopuli.Api.{
  Response, SecretView, Server, aad_of, answer, can_access_secret, no_content, ok_response,
  open_row, secret_view, serve,
}
use scopuli.Api.Effects.{SameTables, audit_append-SameTables, audit_append_ok}
use scopuli.Api.Guards.{audited, check_scope_allowed}
use scopuli.Api.SecretReads.{handle_get_secret, reveal_row, view_secret}
use scopuli.Api.Secrets.{
  PutSecretReq, encrypt_and_put, handle_put_secret, next_version, request_metadata, written_secret,
}
use scopuli.Auth.{Principal, is_read_only}
use scopuli.Crypto.{aad_secret, seal}
use scopuli.Crypto.RoundTrip.{open-seal, seal_total}
use scopuli.Env.{Delivers, Env, FillsRandom, IsGcm}
use scopuli.Examples.World.{reader}
use scopuli.Metadata.{normalize_tags, validate_description}
use scopuli.Store.Database.{Secret, World, next_id, not_found}
use scopuli.Store.Secrets.{put_secret, secret_at, secret_ids}
use scopuli.Store.Secrets.Healthy.{
  NoFaults, after_event, attempt-get_secret, get_secret_healthy, put_secret_healthy,
  stored_as-contents,
}
use scopuli.Store.Secrets.Put.{put_secret_total, secret_at-put_secret, with_times}
use scopuli.Store.Secrets.Rows.{secret_at-path, stored_as}
use scopuli.Strings.{join}

-- What the tests of handlePutSecret demand of a request, and what they make of it.
pub record Accepted ⦃env : Env⦄ (p : Principal) (req : PutSecretReq) (tags meta : Text)
    : Type 0 where
  pub may_write : is_read_only p ≡ false
  pub in_scope : can_access_secret (some p) req.path ≡ true
  pub has_path : req.path ≢ []
  pub good_tags : normalize_tags (join b',' req.tags) ≡ ok tags
  pub good_description : validate_description req.description ≡ ok tt
  pub good_metadata : request_metadata req.metadata ≡ ok meta

module _ ⦃env : Env⦄ where
  -- The row under the path opens to the value, and has the description.
  pub record Holds (s : Server) (path description : Text) (value : Bytes) (w : World) : Type 0 where
    pub row : Secret
    pub found : secret_at path w.db.secrets ≡ some row
    pub opens : open_row s.kek row (aad_of row) ≡ ok value
    pub described : row.description ≡ description

  -- The row that a write makes of a request.
  abbrev row_of : Option Secret → PutSecretReq → Text → Text → ℕ → Bytes → Secret
  row_of existing req tags meta t sealed =
      written_secret existing req.path req.label tags req.description meta t
        (aad_secret req.path req.description (next_version existing req.description)) sealed

  abbrev aad_for : Option Secret → PutSecretReq → Bytes
  aad_for existing req = aad_secret req.path req.description (next_version existing req.description)

  put_row-Holds :
      (s : Server) (existing : Option Secret) (req : PutSecretReq) (tags meta : Text) (t : ℕ)
      (sealed : Bytes) (w v : World)
      → NoFaults
      → IsGcm env
      → FillsRandom env
      → (seal s.kek req.value (aad_for existing req) w).0 ≡ ok sealed
      → Holds s req.path req.description req.value
          (put_secret (row_of existing req tags meta t sealed) v).1
  unfolding written_secret
  put_row-Holds s existing req tags meta t sealed w v f gcm fills h =
      let row = row_of existing req tags meta t sealed in
      let new = next_id (secret_ids v.db.secrets) in
      let (p, c, n, d, e, _, _, _) = stored_as-contents new (with_times row v) v.db.secrets in
      record {
        row = stored_as new (with_times row v) (secret_at req.path v.db.secrets);
        found =
            secret_at-put_secret row v req.path (put_secret_total row v f)
            ∙ rw ((text_beq_iff req.path req.path).1 refl);
        opens =
            rw (p, c, n, d, e, take-append-drop 12 sealed)
              (open-seal s.kek req.value _ w sealed fills gcm h).0;
        described = d;
      }

  encrypt_and_put-Holds :
      (s : Server) (existing : Option Secret) (req : PutSecretReq) (tags meta : Text) (w : World)
      → NoFaults
      → Delivers
      → IsGcm env
      → FillsRandom env
      → length s.kek ≡ 32
      → (v : World) × (encrypt_and_put s req.path req.label tags req.description meta req.value
            existing w
          ≡ (ok tt, v))
        × Holds s req.path req.description req.value v
  unfolding encrypt_and_put
  encrypt_and_put-Holds s existing req tags meta w f d gcm fills k =
      let w1 = after_event w in
      let (nonce, e) = d w1.events 12 in
      let t = env.time_at w.events / 1000000 in
      let sealed = nonce ++ env.gcm_seal s.kek nonce req.value (aad_for existing req) in
      let h = seal_total s.kek req.value (aad_for existing req) nonce w1 k e in
      let row = row_of existing req tags meta t sealed in
      (
        (put_secret row (after_event w1)).1,
        continue_ok _ _ (map_err_ok _ h) ∙ map_err_ok _ (put_secret_healthy row (after_event w1) f),
        put_row-Holds s existing req tags meta t sealed w1 (after_event w1) f gcm fills
            (ap (λ r. r.0) h),
      )

  -- handlePutSecret on a request that it accepts.
  put-Accepted :
      (s : Server) (p : Principal) (req : PutSecretReq) (tags meta : Text) (w : World)
      → Accepted p req tags meta
      → NoFaults
      → Delivers
      → IsGcm env
      → FillsRandom env
      → length s.kek ≡ 32
      → (v : World) × (handle_put_secret s p (some req) w
          ≡ (ok no_content, audited s p (codes "write") req.path (codes "ok") v))
        × Holds s req.path req.description req.value v
  unfolding handle_put_secret
  put-Accepted s p req tags meta w a f d gcm fills k =
      let existing = secret_at req.path w.db.secrets in
      let (v, e, holds) =
        encrypt_and_put-Holds s existing req tags meta (after_event w) f d gcm fills k in
      (
        v,
        continue_ok _ _ (fail_if_not _ w a.may_write)
            ∙ continue_ok _ _ (
                fail_if_not {b = text_beq req.path []} _ w
                  (ground (arith, text_beq_iff req.path [], a.has_path)))
            ∙ continue_ok _ _ (check_scope_allowed s p req.path w a.in_scope)
            ∙ continue_ok _ _ (lift_ok w _ a.good_tags)
            ∙ continue_ok _ _ (lift_ok w _ a.good_description)
            ∙ continue_ok _ _ (lift_ok w _ a.good_metadata)
            ∙ continue_ok _ _ (attempt-get_secret req.path w f)
            ∙ continue_ok _ _ e
            ∙ continue-ok _ _ (audit_append_ok s p (codes "write") req.path (codes "ok") v),
        holds,
      )

  Holds-SameTables :
      (s : Server) (path description : Text) (value : Bytes) (v w : World)
      → SameTables v.db w.db
      → Holds s path description value w
      → Holds s path description value v
  Holds-SameTables s path description value v w same h = record {
    row = h.row;
    found = ap (secret_at path) same.secrets ∙ h.found;
    opens = h.opens;
    described = h.described;
  }

  pub revealed :
      (s : Server) (p : Principal) (path : Text) (row : Secret) (value : Bytes) (w : World)
      → open_row s.kek row (aad_of row) ≡ ok value
      → reveal_row s p path row w ≡ (
        ok (ok_response (secret_view (view_secret row value))),
        audited s p (codes "read") path (codes "ok") w,
      )
  unfolding reveal_row
  revealed s p path row value w h =
      rw (reveal_row, h) (continue-ok _ _ (audit_append_ok s p (codes "read") path (codes "ok") w))

  -- handleGetSecret on a row that opens.
  pub handle_get_secret-Holds :
      (s : Server) (p : Principal) (path description : Text) (value : Bytes) (w : World)
      → can_access_secret (some p) path ≡ true
      → NoFaults
      → (h : Holds s path description value w)
      → handle_get_secret s p path w ≡ (
        ok (ok_response (secret_view (view_secret h.row value))),
        audited s p (codes "read") path (codes "ok") (after_event w),
      )
  unfolding handle_get_secret
  handle_get_secret-Holds s p path description value w c f h =
      continue_ok _ _ (check_scope_allowed s p path w c)
      ∙ continue_ok _ _ (
          map_err_ok _ (
            get_secret_healthy path w f ∙ ap (λ o. (of_option not_found o, after_event w)) h.found))
      ∙ revealed s p path h.row value (after_event w) h.opens

  -- While the database engine does not fail and the random source delivers, under a key of 32 bytes
  -- and the laws of AES-GCM and of the random source, a write that passes the tests of
  -- handlePutSecret is answered 204, and after it a principal whose scope admits the path is answered
  -- 200 with the path, the value and the description that were written.
  pub get-put :
      (s : Server) (p reader : Principal) (req : PutSecretReq) (tags meta : Text) (w : World)
      → Accepted p req tags meta
      → can_access_secret (some reader) req.path ≡ true
      → NoFaults
      → Delivers
      → IsGcm env
      → FillsRandom env
      → length s.kek ≡ 32
      → let (r, v) = serve (handle_put_secret s p (some req)) w in
        (r ≡ no_content)
        × ((view : SecretView) × ((serve (handle_get_secret s reader req.path) v).0
              ≡ ok_response (secret_view view))
            × (view.path ≡ req.path)
            × (view.value ≡ req.value)
            × (view.description ≡ req.description))
  get-put s p reader req tags meta w a c f d gcm fills k =
      let (v, e, holds) = put-Accepted s p req tags meta w a f d gcm fills k in
      let u = audited s p (codes "write") req.path (codes "ok") v in
      let same = audit_append-SameTables Response s p (codes "write") req.path (codes "ok") v in
      let h = Holds-SameTables s req.path req.description req.value u v same holds in
      rw e (
        refl,
        (
          view_secret h.row req.value,
          ap (λ r. (answer r).0)
              (handle_get_secret-Holds s reader req.path req.description req.value u c f h),
          unfold view_secret in secret_at-path req.path u.db.secrets h.row h.found,
          unfold view_secret in refl,
          unfold view_secret in h.described,
        ),
      )
