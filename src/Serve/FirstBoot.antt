-- ===== src/Serve/FirstBoot.antt =====
-- cmd/scopuli/serve.go: the operator of a first boot.
use scopuli.Prelude.{
  Bool-cases, Bytes, List, Text, [], ap, false, inl, inr, nat_eq, none, ok, refl, some, suc,
  text_beq, text_eq, ℕ, ◌/◌, ◌==◌, ◌∙◌, ◌∷◌, ◌≡◌,
}
use scopuli.Auth.{authenticate, operator_principal}
use scopuli.Env.{Delivers, Env}
use scopuli.Serve.{bootstrap_first_boot, primary}
use scopuli.Store.Database.{Database, Operator, World, next_id}
use scopuli.Store.Operators.{
  create_operator, first_boot_done, get_operator_by_hash, insert_operator, is_fresh,
  mark_first_boot_done, meta_at, operator_hashed, operator_named, replace_meta, set_meta,
}
use scopuli.Store.Secrets.Healthy.{NoFaults}
use scopuli.Token.{Issued, hash_hex, operator_token, operator_token_body_bytes, operator_token_of}

meta_at-replace_meta :
    (k : Text) (v : Bytes) (rows : List (Text × Bytes)) → meta_at k (replace_meta k v rows) ≡ some v
unfolding meta_at replace_meta
meta_at-replace_meta k v [] = rw (text_eq.same_refl k)
meta_at-replace_meta k v ((j, w) ∷ rows) = elim (Bool-cases (j == k)) [
  | inl e ↦ rw (e, text_eq.same_refl k)
  | inr e ↦ rw (e, meta_at-replace_meta k v rows, e)
]

insert_operator_first :
    (o : Operator) (db : Database)
    → db.operators ≡ []
    → insert_operator o db
      ≡ (some 1, record db { operators = record o { id = 1; last_used_at = none } ∷ [] })
unfolding insert_operator operator_named next_id
insert_operator_first o db e = rw (insert_operator, e, e)

module _ ⦃env : Env⦄ where
  -- What a first boot puts into the database.
  abbrev first_operator : Issued → ℕ → Operator
  first_operator issued t = record {
    id = 1;
    name = primary;
    hash = issued.hash_hex;
    prefix = issued.prefix;
    created_at = t;
    last_used_at = none;
  }

  abbrev booted_db : Database → Issued → ℕ → Database
  booted_db db issued t = record db {
    operators = first_operator issued t ∷ [];
    meta = replace_meta first_boot_done (1 ∷ []) db.meta;
  }

  bootstrap_total :
      (w : World) (body : Bytes)
      → NoFaults
      → env.random_at w.events operator_token_body_bytes ≡ some body
      → w.db.operators ≡ []
      → let issued = operator_token_of body in
        let t = env.time_at (suc w.events) / 1000000 in
        bootstrap_first_boot w ≡ (
          ok issued.token,
          record { db = booted_db w.db issued t; events = suc (suc (suc (suc w.events))) },
        )
  unfolding bootstrap_first_boot operator_token create_operator mark_first_boot_done set_meta
  bootstrap_total w body h r e =
      let n = w.events in
      let issued = operator_token_of body in
      let row : Operator = record (first_operator issued (env.time_at (suc n) / 1000000)) {
        id = 0;
      } in
      rw (r, h (suc (suc n)), insert_operator_first row w.db e, h (suc (suc (suc n))))

  is_fresh-booted_db :
      (u : World) (db : Database) (issued : Issued) (t : ℕ)
      → NoFaults
      → u.db ≡ booted_db db issued t
      → (is_fresh u).0 ≡ ok false
  unfolding is_fresh
  is_fresh-booted_db u db issued t h e =
      rw (h u.events, e, meta_at-replace_meta first_boot_done (1 ∷ []) db.meta)

  authenticate-booted_db :
      (u : World) (db : Database) (body : Bytes) (t : ℕ) (key_header : Text)
      → NoFaults
      → u.db ≡ booted_db db (operator_token_of body) t
      → (authenticate
          (record { operator_header = (operator_token_of body).token; key_header = key_header })
          u).0
        ≡ ok (operator_principal (first_operator (operator_token_of body) t))
  unfolding authenticate operator_token_of get_operator_by_hash operator_hashed text_beq
  authenticate-booted_db u db body t key_header h e =
      rw (h u.events, e, text_eq.same_refl (hash_hex (operator_token_of body).token))

  -- While the engine and the random source work, a first boot on a database without operators prints
  -- a token. From then on the database is not fresh, and in every world with that database a request
  -- with the token is that of the operator `primary`.
  pub authenticate-bootstrap_first_boot :
      (w : World)
      → NoFaults
      → Delivers
      → w.db.operators ≡ []
      → (tok : Text) × (op : Operator) × ((bootstrap_first_boot w).0 ≡ ok tok)
        × (op.name ≡ primary)
        × ((u : World)
            → u.db ≡ (bootstrap_first_boot w).1.db
            → ((is_fresh u).0 ≡ ok false)
              × ((key_header : Text)
                  → (authenticate (record { operator_header = tok; key_header = key_header }) u).0
                    ≡ ok (operator_principal op)))
  authenticate-bootstrap_first_boot w h g e =
      let (body, r) = g w.events operator_token_body_bytes in
      let issued = operator_token_of body in
      let t = env.time_at (suc w.events) / 1000000 in
      let run = bootstrap_total w body h r e in
      (
        issued.token,
        first_operator issued t,
        ap (λ x. x.0) run,
        refl,
        λ u same.
            let db = same ∙ ap (λ x. x.1.db) run in
            (
              is_fresh-booted_db u w.db issued t h db,
              λ key_header. authenticate-booted_db u w.db body t key_header h db,
            ),
      )
