-- ===== src/Api/Authority.antt =====
-- internal/api/server.go: what a successful read has shown.
use scopuli.Prelude.{
  Bool-cases, Bytes, Option-cases, Result-cases, Text, [], ap, arith, codes, continue-ok,
  continue_err, continue_ok, drop, err, inl, inr, length, ltb, map_err, map_err_ok, nat_eq, ok,
  raise, refl, some, subst, suc, sym, take, text_eq, true, utf8, zero, ℕ, ≡_of_same, ◌!=◌, ◌%◌,
  ◌++◌, ◌/◌, ◌^◌, ◌∙◌, ◌∷◌, ◌≡◌,
}
use scopuli.Api.{
  Response, SecretView, Server, aad_of, can_access_secret, error_response, ok_response, open_row,
  secret_view,
}
use scopuli.Api.Effects.{audit_append_ok}
use scopuli.Api.Guards.{check_scope_allowed, get_inside}
use scopuli.Api.RoundTrip.{revealed}
use scopuli.Api.SecretReads.{handle_get_secret, reveal_row, view_secret}
use scopuli.Auth.{Principal}
use scopuli.Crypto.{CryptoError, aad_bytes, aad_secret, open_sealed, put_uint64}
use scopuli.Env.{Env}
use scopuli.Store.Database.{Secret, StoreError, World}
use scopuli.Store.Secrets.{get_secret, secret_at}
use scopuli.Store.Secrets.Put.{get_secret-row}
use scopuli.Store.Secrets.Rows.{secret_at-path}

module _ ⦃env : Env⦄ where
  -- The bytes of a number, the most significant first.
  abbrev pub big_endian : ℕ → ℕ → Bytes
  big_endian zero n = []
  big_endian (suc k) n = (n / 256 ^ k % 256) ∷ big_endian k n

  put_uint64-big_endian : (n : ℕ) → put_uint64 n ≡ big_endian 8 n
  unfolding put_uint64
  put_uint64-big_endian n = let last : n / 1 ≡ n = omega arith in rw last

  -- The additional data of a row.
  abbrev data_of : Secret → Bytes
  data_of row =
      env.sha256 (utf8 row.path ++ 0 ∷ (utf8 row.description ++ 0 ∷ big_endian 8 row.version))

  aad_of-data_of : (row : Secret) → aad_of row ≡ data_of row
  unfolding aad_secret aad_bytes
  aad_of-data_of row =
      ap (λ b. env.sha256 (utf8 row.path ++ 0 ∷ (utf8 row.description ++ 0 ∷ b)))
        (put_uint64-big_endian row.version)

  -- AES-GCM opens the row under the key, with the digest of its path, description and version.
  pub record Authentic (kek : Bytes) (row : Secret) (value : Bytes) : Type 0 where
    pub key_length : length kek ≡ 32
    pub opens :
        env.gcm_open kek
          (take 12 (row.nonce ++ row.ciphertext))
          (drop 12 (row.nonce ++ row.ciphertext))
          (data_of row)
        ≡ some value

  -- What an answer to a read shows.
  pub record Disclosed (s : Server) (p : Principal) (path : Text) (w : World) (r : Response)
      : Type 0 where
    pub in_scope : can_access_secret (some p) path ≡ true
    pub row : Secret
    pub value : Bytes
    pub view : SecretView
    pub found : secret_at path w.db.secrets ≡ some row
    pub authentic : Authentic s.kek row value
    pub answer : r ≡ ok_response (secret_view view)
    pub shows_path : view.path ≡ path
    pub shows_value : view.value ≡ value
    pub shows_description : view.description ≡ row.description
    pub shows_metadata : view.metadata ≡ row.metadata
    pub shows_version : view.version ≡ row.version

  open_row-Authentic :
      (kek : Bytes) (row : Secret) (value : Bytes)
      → open_row kek row (aad_of row) ≡ ok value
      → Authentic kek row value
  unfolding open_sealed
  open_row-Authentic kek row value h =
      let nonce = take 12 (row.nonce ++ row.ciphertext) in
      let Opens : Bytes → Type 0 =
        λ aad. env.gcm_open kek nonce (drop 12 (row.nonce ++ row.ciphertext)) aad ≡ some value in
      let sealed = drop 12 (row.nonce ++ row.ciphertext) in
      elim (Bool-cases (length kek != 32)) [
        | inl e ↦ absurd (cc (rw e at h))
        | inr e ↦ elim (Bool-cases (ltb (length (row.nonce ++ row.ciphertext)) 28)) [
          | inl f ↦ absurd (cc (rw (e, f) at h))
          | inr f ↦ elim (Option-cases (env.gcm_open kek nonce sealed (aad_of row))) [
            | inl g ↦ absurd (cc (rw (e, f, g) at h))
            | inr (plain, g) ↦
                let same : plain ≡ value = cc (rw (e, f, g) at h) in
                record {
                  key_length = ≡_of_same (length kek) 32 e;
                  opens = subst Opens (aad_of-data_of row) (g ∙ ap some same);
                }
          ]
        ]
      ]

  reveal_failed :
      (s : Server) (p : Principal) (path : Text) (row : Secret) (v : World) (x : CryptoError)
      → open_row s.kek row (aad_of row) ≡ err x
      → (reveal_row s p path row v).0 ≡ err (error_response 500 "decrypt failed")
  unfolding reveal_row
  reveal_failed s p path row v x e =
      rw (reveal_row, e)
        (ap (λ o. o.0)
          (continue-ok _ (λ _. raise (error_response 500 "decrypt failed"))
            (audit_append_ok s p (codes "error:decrypt_failed") path (codes "error") v)))

  revealed_row :
      (s : Server) (p : Principal) (path : Text) (row : Secret) (w v : World) (r : Response)
      → can_access_secret (some p) path ≡ true
      → secret_at path w.db.secrets ≡ some row
      → (reveal_row s p path row v).0 ≡ ok r
      → Disclosed s p path w r
  revealed_row s p path row w v r c f h = elim (Result-cases (open_row s.kek row (aad_of row))) [
    | inr (x, e) ↦ absurd (ground (arith, reveal_failed s p path row v x e, h))
    | inl (value, e) ↦ record {
      in_scope = c;
      row = row;
      value = value;
      view = view_secret row value;
      found = f;
      authentic = open_row-Authentic s.kek row value e;
      answer = ground (arith, ap (λ o. o.0) (revealed s p path row value v e), h);
      shows_path = unfold view_secret in secret_at-path path w.db.secrets row f;
      shows_value = unfold view_secret in refl;
      shows_description = unfold view_secret in refl;
      shows_metadata = unfold view_secret in refl;
      shows_version = unfold view_secret in refl;
    }
  ]

  get_found :
      (s : Server) (p : Principal) (path : Text) (w : World) (sec : Secret)
      → can_access_secret (some p) path ≡ true
      → (get_secret path w).0 ≡ ok sec
      → handle_get_secret s p path w ≡ reveal_row s p path sec (get_secret path w).1
  unfolding handle_get_secret
  get_found s p path w sec c e =
      continue_ok _ _ (check_scope_allowed s p path w c)
      ∙ continue_ok _ _ (map_err_ok _ (ap (λ o. (o, (get_secret path w).1)) e))

  get_missing :
      (s : Server) (p : Principal) (path : Text) (w : World) (x : StoreError)
      → can_access_secret (some p) path ≡ true
      → (get_secret path w).0 ≡ err x
      → (handle_get_secret s p path w).0 ≡ err (error_response 404 "not found")
  unfolding handle_get_secret
  get_missing s p path w x c e =
      ap (λ o. o.0)
        (continue_ok _ _ (check_scope_allowed s p path w c)
          ∙ continue_err _ _ (
              ap (λ o. map_err (λ _. error_response 404 "not found") (o, (get_secret path w).1)) e))

  -- Where handleGetSecret succeeds, the principal's scope admits the path, and there is a row under
  -- that path which AES-GCM opens under the server's key of 32 bytes, with the first twelve stored
  -- bytes as nonce and the digest of the path, description and version of the row as additional data.
  -- The answer shows the path, what the row opens to, and the row's description, metadata and version.
  pub handle_get_secret-Disclosed :
      (s : Server) (p : Principal) (path : Text) (w : World) (r : Response)
      → (handle_get_secret s p path w).0 ≡ ok r
      → Disclosed s p path w r
  handle_get_secret-Disclosed s p path w r h =
      let c = get_inside s p path w r h in
      elim (Result-cases (get_secret path w).0) [
        | inl (sec, e) ↦
            revealed_row s p path sec w (get_secret path w).1 r c (get_secret-row path w sec e)
              (sym (ap (λ o. o.0) (get_found s p path w sec c e)) ∙ h)
        | inr (x, e) ↦ absurd (ground (arith, get_missing s p path w x c e, h))
      ]
