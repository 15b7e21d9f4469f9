-- ===== src/Api/Revocation/Kept.antt =====
-- internal/store/keys.go: the methods on keys leave a revoked key revoked.
use scopuli.Prelude.{
  Bool, Bool-cases, Exec, List, Option-cases, Text, [], ap, arith, false, if◌then◌else◌, inl, inr,
  lift, nat_beq, of_option, pure, refl, some, text_beq, true, ℕ, ◌++◌, ◌∙◌, ◌∷◌, ◌≡◌,
}
use scopuli.Api.{Response, Server, audit_append}
use scopuli.Api.Effects.{audit_append-SameTables}
use scopuli.Api.Preserves.{Preserves, Preserves-bind, Preserves-lift}
use scopuli.Auth.{Principal}
use scopuli.Env.{Env}
use scopuli.Store.Database.{Database, Key, World, already_exists, now, statement}
use scopuli.Store.Keys.{
  assign_key, create_key, get_key_by_name, insert_key, is_some, key_hashed, key_named, revoke_key,
  sync_key_fts, update_key, update_keys,
}

-- The first row with the digest is of a revoked key.
pub revoked_in : Text → List Key → Bool
revoked_in hash [] = false
revoked_in hash (r ∷ rows) =
    let rest = revoked_in hash rows in if text_beq r.hash hash then is_some r.revoked_at else rest

revoked_in-append :
    (hash : Text) (rows more : List Key)
    → revoked_in hash rows ≡ true
    → revoked_in hash (rows ++ more) ≡ true
unfolding revoked_in
revoked_in-append hash [] more h = absurd (cc)
revoked_in-append hash (r ∷ rows) more h = ground (arith, revoked_in-append hash rows more)

revoked_in-update_keys :
    (hash : Text) (i : ℕ) (f : Key → Key) (rows : List Key)
    → ((j : Key) → (f j).hash ≡ j.hash)
    → ((j : Key) → is_some j.revoked_at ≡ true → is_some (f j).revoked_at ≡ true)
    → revoked_in hash rows ≡ true
    → revoked_in hash (update_keys i f rows) ≡ true
unfolding revoked_in update_keys
revoked_in-update_keys hash i f [] same keeps h = absurd (cc)
revoked_in-update_keys hash i f (r ∷ rows) same keeps h =
    let rest = revoked_in-update_keys hash i f rows same keeps in
    elim (Bool-cases (nat_beq r.id i)) [
      | inr e ↦ rw e (ground (arith, rest))
      | inl e ↦ rw (e, same r) (ground (arith, rest, keeps r))
    ]

pub revoked_in-key_hashed :
    (hash : Text) (rows : List Key)
    → revoked_in hash rows ≡ true
    → (k : Key) × (t : ℕ) × (key_hashed hash rows ≡ some k) × (k.revoked_at ≡ some t)
unfolding revoked_in key_hashed
revoked_in-key_hashed hash [] h = absurd (cc)
revoked_in-key_hashed hash (r ∷ rows) h = elim (Bool-cases (text_beq r.hash hash)) [
  | inr e ↦ rw e (revoked_in-key_hashed hash rows (rw e at h))
  | inl e ↦ elim (Option-cases r.revoked_at) [
    | inl n ↦ absurd (cc (rw (e, n) at h))
    | inr (t, n) ↦ rw e (r, t, refl, n)
  ]
]

pub key_hashed-revoked_in :
    (hash : Text) (rows : List Key) (k : Key) (t : ℕ)
    → key_hashed hash rows ≡ some k
    → k.revoked_at ≡ some t
    → revoked_in hash rows ≡ true
unfolding revoked_in key_hashed
key_hashed-revoked_in hash [] k t h n = absurd (cc)
key_hashed-revoked_in hash (r ∷ rows) k t h n = elim (Bool-cases (text_beq r.hash hash)) [
  | inr e ↦ rw e (key_hashed-revoked_in hash rows k t (rw e at h) n)
  | inl e ↦
      let same : r ≡ k = ground arith in rw (e, ap (λ j. is_some j.revoked_at) same ∙ ap is_some n)
]

module _ ⦃env : Env⦄ (hash : Text) where
  abbrev pub Stays : World → Type 0
  Stays w = revoked_in hash w.db.keys ≡ true

  -- A method that leaves the keys alone.
  pub same_keys :
      {E A : Type 0} (m : Exec World E A)
      → ((w : World) → (m w).1.db.keys ≡ w.db.keys)
      → Preserves Stays m
  same_keys m same = record { preserved = λ w i. ap (revoked_in hash) (same w) ∙ i }

  pub statement-Stays :
      {A : Type 0} (f : Database → A × Database)
      → ((db : Database) → revoked_in hash db.keys ≡ true → revoked_in hash (f db).1.keys ≡ true)
      → Preserves Stays (statement f)
  unfolding statement
  statement-Stays f h = record {
    preserved = λ w i. elim (Bool-cases (env.fault_at w.events)) [
      | inl e ↦ rw e i
      | inr e ↦ rw e (h w.db i)
    ];
  }

  pub sync_key_fts-Stays : (k : Key) → Preserves Stays (sync_key_fts k)
  unfolding sync_key_fts
  sync_key_fts-Stays k = same_keys (sync_key_fts k) λ w. ground arith

  pub now-Stays : {E : Type 0} → Preserves Stays (now {E = E})
  unfolding now
  now-Stays = same_keys now λ w. refl

  pub insert_key-Stays :
      (k : Key) (db : Database)
      → revoked_in hash db.keys ≡ true
      → revoked_in hash (insert_key k db).1.keys ≡ true
  unfolding insert_key
  insert_key-Stays k db h = elim (Option-cases (key_named k.name db.keys)) [
    | inl e ↦ rw (insert_key, e) (revoked_in-append hash db.keys _ h)
    | inr (j, e) ↦ rw (insert_key, e) h
  ]

  pub create_key-Stays : (k : Key) → Preserves Stays (create_key k)
  unfolding create_key
  create_key-Stays k = Preserves-bind Stays now _ now-Stays λ t.
      let stamped = record k { created_at = t } in
      Preserves-bind Stays (statement (insert_key stamped)) _
        (statement-Stays (insert_key stamped) (insert_key-Stays stamped))
        λ inserted.
          Preserves-bind Stays (lift (of_option already_exists inserted)) _ (Preserves-lift Stays _)
            λ i.
              let stored = record k { id = i; created_at = t } in
              Preserves-bind Stays (sync_key_fts stored) (λ u. pure stored)
                (sync_key_fts-Stays stored) λ u. record { preserved = λ w s. s }

  pub update_key-Stays : (k : Key) → Preserves Stays (update_key k)
  unfolding update_key
  update_key-Stays k =
      Preserves-bind Stays
        (statement (λ db. (tt {0}, record db { keys = update_keys k.id (assign_key k) db.keys }))) _
        (statement-Stays _
          λ db. revoked_in-update_keys hash k.id (assign_key k) db.keys (λ j. refl) (λ j r. r))
        λ _. sync_key_fts-Stays k

  pub revoke_key-Stays : (i : ℕ) → Preserves Stays (revoke_key i)
  unfolding revoke_key
  revoke_key-Stays i = Preserves-bind Stays now _ now-Stays λ t.
      let stamp : Key → Key = λ k. record k { revoked_at = some t } in
      statement-Stays (λ db. (tt {0}, record db { keys = update_keys i stamp db.keys }))
        λ db. revoked_in-update_keys hash i stamp db.keys (λ j. refl) (λ j r. refl)

  pub get_key-Stays : (name : Text) → Preserves Stays (get_key_by_name name)
  unfolding get_key_by_name
  get_key-Stays name =
      Preserves-bind Stays (statement (λ db. (key_named name db.keys, db))) _
        (statement-Stays _ λ db h. h) λ row. Preserves-lift Stays _

  pub audit-Stays :
      (s : Server) (p : Principal) (action path result : Text)
      → Preserves Stays (audit_append {E = Response} s p action path result)
  audit-Stays s p action path result =
      same_keys _ λ w. (audit_append-SameTables Response s p action path result w).keys
