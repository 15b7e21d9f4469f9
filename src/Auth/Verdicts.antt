-- ===== src/Auth/Verdicts.antt =====
-- Whom Authenticate lets in.
use scopuli.Prelude.{
  Bool-cases, List, Option-cases, Text, [], arith, codes, false, inl, inr, keep, none, ok, pos,
  refl, some, subst, suc, text_beq, text_beq_iff, true, ℕ, ◌/◌, ◌<◌, ◌↔◌, ◌∙◌, ◌≡◌, ◌≢◌, ◌≤◌,
}
use scopuli.Auth.{
  Credentials, Principal, admit_key, authenticate, is_expired, key, key_principal, needs_time,
  operator, operator_principal,
}
use scopuli.Auth.Scopes.{nonempty, parse_scope-split}
use scopuli.Env.{Env}
use scopuli.Store.Database.{Key, Operator, World}
use scopuli.Store.Keys.{key_hashed}
use scopuli.Store.Operators.{operator_hashed}
use scopuli.Strings.{split}
use scopuli.Token.{hash_hex}

-- A row of the table has the digest.
abbrev pub KeyAt : Text → List Key → Key → Type 0
KeyAt hash rows k = key_hashed hash rows ≡ some k

-- The principal of a key, and why the key counts at a time, in milliseconds. A key expires only if it
-- has a positive expiry.
pub record LiveKey (k : Key) (t : ℕ) (p : Principal) : Type 0 where
  pub not_revoked : k.revoked_at ≡ none
  pub not_expired : (e : ℕ) → k.expires_at ≡ some (pos e) → 0 < e → t ≤ e
  pub kind : p.kind ≡ key
  pub id : p.id ≡ k.id
  pub name : p.name ≡ k.name
  pub patterns : p.scope ≡ keep nonempty (split b',' k.scope)
  pub may_write : (p.has_write ≡ true) ↔ (k.permissions ≡ codes "manage")

-- The principal of an operator.
pub record OperatorOf (op : Operator) (p : Principal) : Type 0 where
  pub kind : p.kind ≡ operator
  pub id : p.id ≡ op.id
  pub name : p.name ≡ op.name
  pub may_write : p.has_write ≡ true

operator_principal-OperatorOf : (op : Operator) → OperatorOf op (operator_principal op)
operator_principal-OperatorOf op = record { kind = refl; id = refl; name = refl; may_write = refl }

in_time : (e t : ℕ) → is_expired (some (pos e)) t ≡ false → 0 < e → t ≤ e
unfolding is_expired
in_time e t h p = ground arith

key_principal-LiveKey :
    (k : Key) (t : ℕ)
    → k.revoked_at ≡ none
    → is_expired k.expires_at t ≡ false
    → LiveKey k t (key_principal k)
key_principal-LiveKey k t r x = record {
  not_revoked = r;
  not_expired = λ e h p. in_time e t (rw h at x) p;
  kind = refl;
  id = refl;
  name = refl;
  patterns = parse_scope-split k.scope;
  may_write = text_beq_iff k.permissions (codes "manage");
}

admit_key-LiveKey : (k : Key) (t : ℕ) (p : Principal) → admit_key k t ≡ ok p → LiveKey k t p
unfolding admit_key
admit_key-LiveKey k t p h =
    let is_it : key_principal k ≡ p = ground arith in
    subst (LiveKey k t) is_it (key_principal-LiveKey k t (ground arith) (ground arith))

-- Where the clock is not read, no time would have made a difference.
admit_key-any_time : (k : Key) (t u : ℕ) → needs_time k ≡ false → admit_key k t ≡ admit_key k u
unfolding needs_time is_expired admit_key
admit_key-any_time k t u n = ground arith

module _ ⦃env : Env⦄ where
  -- The milliseconds at the event behind the lookup of the token.
  abbrev pub time_of_check : World → ℕ
  time_of_check w = env.time_at (suc w.events) / 1000000

  -- How a principal may have come to be let in.
  pub data Admitted (c : Credentials) (w : World) (p : Principal) : Type 0 where
    as_operator :
        (op : Operator)
        → c.operator_header ≢ []
        → operator_hashed (hash_hex c.operator_header) w.db.operators ≡ some op
        → OperatorOf op p
        → Admitted c w p
    as_key :
        (k : Key)
        → c.operator_header ≡ []
        → key_hashed (hash_hex c.key_header) w.db.keys ≡ some k
        → LiveKey k (time_of_check w) p
        → Admitted c w p

  admitted_key :
      (c : Credentials) (w : World) (p : Principal) (k : Key)
      → c.operator_header ≡ []
      → c.key_header ≢ []
      → key_hashed (hash_hex c.key_header) w.db.keys ≡ some k
      → (authenticate c w).0 ≡ ok p
      → LiveKey k (time_of_check w) p
  unfolding authenticate
  admitted_key c w p k o n e h = elim (Bool-cases (needs_time k)) [
    | inl t ↦
        admit_key-LiveKey k (time_of_check w) p
          (ground (arith, text_beq_iff c.operator_header [], text_beq_iff c.key_header []))
    | inr t ↦
        let admitted : admit_key k 0 ≡ ok p =
          ground (arith, text_beq_iff c.operator_header [], text_beq_iff c.key_header []) in
        admit_key-LiveKey k (time_of_check w) p
          (admit_key-any_time k (time_of_check w) 0 t ∙ admitted)
  ]

  -- Authenticate lets in only an operator whose row has the digest of the token that was sent, or,
  -- where no operator token was sent, a key whose row has the digest, is not revoked, and whose
  -- expiry, if it is positive, is not before the time of the check. The principal has the number and
  -- the name of the row; an operator may write, and a key may exactly if its permissions are
  -- `manage`, on the patterns that are the parts of its scope.
  pub authenticate-Admitted :
      (c : Credentials) (w : World) (p : Principal) → (authenticate c w).0 ≡ ok p → Admitted c w p
  authenticate-Admitted c w p h = elim (Bool-cases (text_beq c.operator_header [])) [
    | inr e ↦ elim (Option-cases (operator_hashed (hash_hex c.operator_header) w.db.operators)) [
      | inl n ↦ absurd (unfold authenticate in ground arith)
      | inr (op, f) ↦
          let is_it : operator_principal op ≡ p = unfold authenticate in ground arith in
          as_operator op (ground (arith, text_beq_iff c.operator_header [])) f
            (subst (OperatorOf op) is_it (operator_principal-OperatorOf op))
    ]
    | inl e ↦ elim (Bool-cases (text_beq c.key_header [])) [
      | inl n ↦ absurd (unfold authenticate in ground arith)
      | inr n ↦ elim (Option-cases (key_hashed (hash_hex c.key_header) w.db.keys)) [
        | inl m ↦ absurd (unfold authenticate in ground arith)
        | inr (k, f) ↦
            let o = (text_beq_iff c.operator_header []).0 e in
            as_key k o f (admitted_key c w p k o (ground (arith, text_beq_iff c.key_header [])) f h)
      ]
    ]
  ]
