-- ===== src/Crypto/RoundTrip.antt =====
-- What Seal returns, Open opens.
use scopuli.Prelude.{
  Bytes, Option-cases, ap, arith, drop-append_of, inl, inr, length, length-append, ok, some, suc,
  take-append_of, ◌++◌, ◌+◌, ◌≡◌,
}
use scopuli.Crypto.{nonce_size, open_sealed, seal}
use scopuli.Env.{Env, FillsRandom, IsGcm}
use scopuli.Store.Database.{World}

module _ ⦃env : Env⦄ where
  -- What a successful Seal returned, and that it leaves the database alone.
  pub record Sealed (kek plaintext aad sealed : Bytes) : Type 0 where
    pub nonce : Bytes
    pub long_key : length kek ≡ 32
    pub long_nonce : length nonce ≡ nonce_size
    pub parts : sealed ≡ nonce ++ env.gcm_seal kek nonce plaintext aad

  pub seal-Sealed :
      (kek plaintext aad : Bytes) (w : World) (sealed : Bytes)
      → FillsRandom env
      → (seal kek plaintext aad w).0 ≡ ok sealed
      → Sealed kek plaintext aad sealed
  unfolding seal
  seal-Sealed kek plaintext aad w sealed fills h =
      elim (Option-cases (env.random_at w.events nonce_size)) [
        | inl e ↦ absurd (ground arith)
        | inr (nonce, e) ↦ record {
          nonce = nonce;
          long_key = ground arith;
          long_nonce = fills.length-random w.events nonce_size nonce e;
          parts = ground arith;
        }
      ]

  pub db-seal : (kek plaintext aad : Bytes) (w : World) → (seal kek plaintext aad w).1.db ≡ w.db
  unfolding seal
  db-seal kek plaintext aad w = ground arith

  open-Sealed :
      (kek plaintext aad sealed : Bytes)
      → IsGcm env
      → Sealed kek plaintext aad sealed
      → open_sealed kek sealed aad ≡ ok plaintext
  unfolding open_sealed
  open-Sealed kek plaintext aad sealed gcm s =
      let ct = env.gcm_seal kek s.nonce plaintext aad in
      rw s.parts (
        ground (
          arith,
          s.long_key,
          take-append_of 12 s.nonce ct s.long_nonce,
          drop-append_of 12 s.nonce ct s.long_nonce,
          length-append s.nonce ct,
          gcm.length-seal kek s.nonce plaintext aad,
          gcm.open-seal kek s.nonce plaintext aad,
          s.long_nonce,
        ))

  -- Under the laws of AES-GCM and of the random source, what Seal returns opens, under the same key
  -- and additional data, to the plaintext, and is 28 bytes longer than it.
  pub open-seal :
      (kek plaintext aad : Bytes) (w : World) (sealed : Bytes)
      → FillsRandom env
      → IsGcm env
      → (seal kek plaintext aad w).0 ≡ ok sealed
      → (open_sealed kek sealed aad ≡ ok plaintext) × (length sealed ≡ length plaintext + 28)
  open-seal kek plaintext aad w sealed fills gcm h =
      let s = seal-Sealed kek plaintext aad w sealed fills h in
      let ct = env.gcm_seal kek s.nonce plaintext aad in
      (
        open-Sealed kek plaintext aad sealed gcm s,
        omega (
          arith,
          ap length s.parts,
          length-append s.nonce ct,
          s.long_nonce,
          gcm.length-seal kek s.nonce plaintext aad,
        ),
      )

  -- Seal succeeds whenever the key has 32 bytes and the random source delivers.
  pub seal_total :
      (kek plaintext aad nonce : Bytes) (w : World)
      → length kek ≡ 32
      → env.random_at w.events nonce_size ≡ some nonce
      → seal kek plaintext aad w
        ≡ (ok (nonce ++ env.gcm_seal kek nonce plaintext aad), record w { events = suc w.events })
  unfolding seal
  seal_total kek plaintext aad nonce w n e = rw (n, e)
