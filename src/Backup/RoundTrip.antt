-- ===== src/Backup/RoundTrip.antt =====
-- What Snapshot writes, Restore gives back.
use scopuli.Prelude.{
  Bytes, Text, [], append_assoc, arith, continue_ok, drop-append_of, false, length, length-append,
  nat_eq, ok, refl, some, suc, take-append_of, text_beq, text_eq, utf8, ℕ, ◌++◌, ◌==◌, ◌∙◌, ◌∷◌,
  ◌≡◌,
}
use scopuli.Backup.{
  Streams, derive_key, draw, iterations, key_len, magic, memory_kib, nonce_len, parallel, read_all,
  read_all_or, read_full, read_full_or, restore, restore_from, salt_len, snapshot, version, write,
  write_or,
}
use scopuli.Env.{NoIoFaults, Delivers, Env, FillsRandom, IsArgon, IsChacha}
use scopuli.Store.Database.{World}

module _ ⦃env : Env⦄ where
  -- The bundle of a file under a salt and a nonce.
  abbrev header_of : Bytes → Bytes → Bytes
  header_of salt nonce = magic ++ version ∷ (salt ++ nonce)

  abbrev bundle : Text → Bytes → Bytes → Bytes → Bytes
  bundle passphrase salt nonce plain =
      header_of salt nonce ++ env.chacha_seal (derive_key passphrase salt) nonce plain magic

  length-derive_key :
      (passphrase : Text) (salt : Bytes) → IsArgon env → length (derive_key passphrase salt) ≡ 32
  unfolding derive_key
  length-derive_key passphrase salt argon =
      argon.length-argon2id (utf8 passphrase) salt iterations memory_kib parallel key_len

  snapshot_total :
      (passphrase : Text) (salt nonce : Bytes) (f : Streams)
      → (passphrase == []) ≡ false
      → IsArgon env
      → NoIoFaults
      → env.random_at f.world.events salt_len ≡ some salt
      → env.random_at (suc (suc f.world.events)) nonce_len ≡ some nonce
      → ((snapshot passphrase f).0 ≡ ok tt)
        × ((snapshot passphrase f).1.target ≡ f.target ++ bundle passphrase salt nonce f.source)
  unfolding snapshot draw read_all read_all_or write write_or
  snapshot_total passphrase salt nonce f p argon io es en =
      rw
        (
          p,
          es,
          io.never (suc f.world.events),
          length-derive_key passphrase salt argon,
          en,
          io.never (suc (suc (suc f.world.events))),
          io.never (suc (suc (suc (suc f.world.events)))),
        )
        (refl, append_assoc f.target (header_of salt nonce) _)

  read_full_total :
      (n : ℕ) (w : World) (front back : Bytes)
      → NoIoFaults
      → length front ≡ n
      → read_full n (record { world = w; source = front ++ back; target = [] }) ≡ (
        ok front,
        record { world = record w { events = suc w.events }; source = back; target = [] },
      )
  unfolding read_full read_full_or
  read_full_total n w front back io h =
      rw (io.never w.events, take-append_of n front back h, drop-append_of n front back h)
        (ground (arith, length-append front back))

  restore_from-header :
      (passphrase : Text) (salt nonce plain : Bytes) (w : World)
      → IsArgon env
      → IsChacha env
      → NoIoFaults
      → length salt ≡ salt_len
      → (v : World) × (restore_from passphrase (header_of salt nonce) (record {
        world = w;
        source = env.chacha_seal (derive_key passphrase salt) nonce plain magic;
        target = [];
      })
          ≡ (ok tt, record { world = v; source = []; target = plain }))
  unfolding restore_from read_all read_all_or write write_or text_beq
  restore_from-header passphrase salt nonce plain w argon chacha io hs = (
    record w { events = suc (suc w.events) },
    rw
        (
          take-append_of 16 salt nonce hs,
          drop-append_of 16 salt nonce hs,
          length-derive_key passphrase salt argon,
          io.never w.events,
          chacha.open-seal (derive_key passphrase salt) nonce plain magic,
          io.never (suc w.events),
        )
        refl,
  )

  restore-bundle :
      (passphrase : Text) (salt nonce plain : Bytes) (w : World)
      → (passphrase == []) ≡ false
      → IsArgon env
      → IsChacha env
      → NoIoFaults
      → length salt ≡ salt_len
      → length nonce ≡ nonce_len
      → (v : World) × (restore passphrase
            (record { world = w; source = bundle passphrase salt nonce plain; target = [] })
          ≡ (ok tt, record { world = v; source = []; target = plain }))
  unfolding restore
  restore-bundle passphrase salt nonce plain w p argon chacha io hs hn =
      let sealed = env.chacha_seal (derive_key passphrase salt) nonce plain magic in
      let long : length (header_of salt nonce) ≡ 33 = omega (arith, length-append salt nonce) in
      let (v, opened) =
        restore_from-header passphrase salt nonce plain (record w { events = suc w.events }) argon
          chacha io hs in
      (
        v,
        rw p (
            continue_ok _ (restore_from passphrase)
              (read_full_total 33 w (header_of salt nonce) sealed io long)
            ∙ opened),
      )

  -- If the passphrase is not empty, the random source delivers, and no call of a reader or of a
  -- writer fails, then Snapshot into an empty target succeeds, and Restore of what it wrote, with
  -- the same passphrase, succeeds and writes the bytes that Snapshot read. This rests on the laws of
  -- ChaCha20-Poly1305, of Argon2id and of the random source.
  pub restore-snapshot :
      (passphrase : Text) (f : Streams) (w : World)
      → (passphrase == []) ≡ false
      → f.target ≡ []
      → IsArgon env
      → IsChacha env
      → FillsRandom env
      → Delivers
      → NoIoFaults
      → ((snapshot passphrase f).0 ≡ ok tt)
        × ((v : World) × (restore passphrase
                (record { world = w; source = (snapshot passphrase f).1.target; target = [] })
              ≡ (ok tt, record { world = v; source = []; target = f.source })))
  restore-snapshot passphrase f w p e argon chacha fills d io =
      let (salt, es) = d f.world.events salt_len in
      let (nonce, en) = d (suc (suc f.world.events)) nonce_len in
      let (done, written) = snapshot_total passphrase salt nonce f p argon io es en in
      let (v, opened) =
        restore-bundle passphrase salt nonce f.source w p argon chacha io
          (fills.length-random _ _ _ es) (fills.length-random _ _ _ en) in
      (done, (v, rw (written, e) opened))
