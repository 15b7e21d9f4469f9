-- ===== src/Backup/Refusals.antt =====
-- What Restore writes when it fails.
use scopuli.Prelude.{
  Bool-cases, Bytes, Option, Option-cases, Result, Text, [], drop, err, inl, inr, length, lift, ltb,
  nat_eq, none, of_option, ok, refl, some, take, take_all, text_eq, ℕ, ≡_of_same, ◌!=◌, ◌++◌, ◌==◌,
  ◌>>=◌, ◌∷◌, ◌≡◌, ◌≢◌, ◌⊎◌,
}
use scopuli.Backup.{
  BackupError, Streams, derive_key, magic, not_authentic, read_all, read_all_or, read_full,
  read_full_or, restore, restore_from, salt_len, version, write, write_or,
}
use scopuli.Env.{Env}

module _ ⦃env : Env⦄ where
  -- What `Open` returns for what stands behind a header.
  abbrev pub opened : Text → Bytes → Bytes → Option Bytes
  opened passphrase header sealed =
      env.chacha_open (derive_key passphrase (take salt_len (drop 5 header))) (drop 21 header)
        sealed magic

  -- A bundle with the header of this program, behind which the rest was sealed under the passphrase.
  pub record Authentic (passphrase : Text) (bundle plain : Bytes) : Type 0 where
    pub is_magic : take 4 (take 33 bundle) ≡ magic
    pub is_version : take 1 (drop 4 (take 33 bundle)) ≡ version ∷ []
    pub opens : opened passphrase (take 33 bundle) (drop 33 bundle) ≡ some plain

  err_ne_ok : {e : BackupError} {u : Unit {0}} → err e ≢ ok u
  err_ne_ok h = cc

  -- Writing puts the front of the bytes behind the target, and all of them if it succeeds.
  write_front :
      (b : Bytes) (f : Streams)
      → (n : ℕ) × ((write b f).1.target ≡ f.target ++ take n b)
        × ((write b f).0 ≡ ok tt → take n b ≡ b)
  unfolding write write_or
  write_front b f = elim (Option-cases (env.io_fault_at f.world.events)) [
    | inl e ↦ (length b, rw (e, take_all b) refl, λ _. take_all b)
    | inr (k, e) ↦ (k, rw e refl, λ h. absurd (err_ne_ok (rw e at h)))
  ]

  -- What was opened is written.
  write_opened :
      (o : Option Bytes) (f : Streams)
      → (((lift (of_option not_authentic o) >>= write) f).1.target ≡ f.target)
        ⊎ ((plain : Bytes) × (n : ℕ) × (o ≡ some plain)
            × (((lift (of_option not_authentic o) >>= write) f).1.target ≡ f.target ++ take n plain)
            × (((lift (of_option not_authentic o) >>= write) f).0 ≡ ok tt → take n plain ≡ plain))
  write_opened none f = inl refl
  write_opened (some plain) f =
      let (n, front, whole) = write_front plain f in inr (plain, n, refl, front, whole)

  -- What is left to prove of a call from the header on.
  abbrev Outcome : Text → Bytes → Bytes → Streams → Result BackupError (Unit {0}) × Streams → Type 0
  Outcome passphrase header source f r =
      (r.1.target ≡ f.target)
      ⊎ ((plain : Bytes) × (n : ℕ) × (take 4 header ≡ magic)
          × (take 1 (drop 4 header) ≡ version ∷ [])
          × (opened passphrase header source ≡ some plain)
          × (r.1.target ≡ f.target ++ take n plain)
          × (r.0 ≡ ok tt → take n plain ≡ plain))

  restore_from-Outcome :
      (passphrase : Text) (header : Bytes) (f : Streams)
      → Outcome passphrase header f.source f (restore_from passphrase header f)
  unfolding restore_from read_all read_all_or
  restore_from-Outcome passphrase header f = elim (Bool-cases (take 4 header != magic)) [
    | inl e ↦ rw e (inl refl)
    | inr em ↦ elim (Bool-cases (take 1 (drop 4 header) != version ∷ [])) [
      | inl e ↦ rw (em, e) (inl refl)
      | inr ev ↦
          elim (Bool-cases (length (derive_key passphrase (take salt_len (drop 5 header))) != 32)) [
            | inl e ↦ rw (em, ev, e) (inl refl)
            | inr ek ↦ elim (Option-cases (env.io_fault_at f.world.events)) [
              | inr (k, e) ↦ rw (em, ev, ek, e) (inl refl)
              | inl ei ↦
                  rw (em, ev, ek, ei)
                    (elim (write_opened (opened passphrase header f.source) _) [
                      | inl h ↦ inl h
                      | inr (plain, n, h, front, whole) ↦ inr (
                        plain,
                        n,
                        ≡_of_same (take 4 header) magic em,
                        ≡_of_same (take 1 (drop 4 header)) (version ∷ []) ev,
                        h,
                        front,
                        whole,
                      )
                    ])
            ]
          ]
    ]
  ]

  -- Restore writes nothing, or the bundle was one of this program's, was authenticated under the
  -- passphrase, and what was written is the front of its plaintext, all of it if Restore succeeded.
  pub restore-Authentic :
      (passphrase : Text) (f : Streams)
      → ((restore passphrase f).1.target ≡ f.target)
        ⊎ ((plain : Bytes) × (n : ℕ) × Authentic passphrase f.source plain
            × ((restore passphrase f).1.target ≡ f.target ++ take n plain)
            × ((restore passphrase f).0 ≡ ok tt → take n plain ≡ plain))
  unfolding restore read_full read_full_or
  restore-Authentic passphrase f = elim (Bool-cases (passphrase == [])) [
    | inl e ↦ rw e (inl refl)
    | inr ep ↦ elim (Option-cases (env.io_fault_at f.world.events)) [
      | inr (k, e) ↦ rw (ep, e) (inl refl)
      | inl ei ↦ elim (Bool-cases (ltb (length f.source) 33)) [
        | inl e ↦ rw (ep, ei, e) (inl refl)
        | inr el ↦
            rw (ep, ei, el)
              (elim (restore_from-Outcome passphrase (take 33 f.source) _) [
                | inl h ↦ inl h
                | inr (plain, n, m, v, o, front, whole) ↦
                    inr (plain, n, record { is_magic = m; is_version = v; opens = o }, front, whole)
              ])
      ]
    ]
  ]
