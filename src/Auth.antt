-- ===== src/Auth.antt =====
-- internal/auth/auth.go: who a request comes from.
pub mod Scopes
pub mod Verdicts
use scopuli.Prelude.{
  Bool, Exec, List, Option, Result, Text, [], codes, err, false, if◌then◌else◌, is_positive, lift,
  lt_ℕ, nat_eq, none, not, ok, pure, raise, some, text_eq, true, ℕ, ℤ, ◌!=◌, ◌&&◌, ◌++◌, ◌==◌,
  ◌>>=◌, ◌>>◌, ◌or_fail◌, ◌∷◌,
}
use scopuli.Env.{Env}
use scopuli.Store.Database.{Key, Operator, StoreError, World, now}
use scopuli.Store.Keys.{get_key_by_hash, is_some}
use scopuli.Store.Operators.{get_operator_by_hash}
use scopuli.Token.{hash_hex}

-- `Kind`, the text "operator" or "key".
pub data Kind : Type 0 where
  operator key : Kind

unfoldable pub kind_text : Kind → Text
kind_text operator = codes "operator"
kind_text key = codes "key"

pub record Principal : Type 0 where
  pub kind : Kind
  pub id : ℕ
  pub name : Text
  pub scope : List Text
  pub has_read : Bool
  pub has_write : Bool

abbrev pub is_key : Kind → Bool
is_key operator = false
is_key key = true

abbrev pub is_operator : Kind → Bool
is_operator operator = true
is_operator key = false

-- `IsReadOnly`.
unfoldable pub is_read_only : Principal → Bool
is_read_only p = is_key p.kind && not p.has_write

-- `ErrUnauthenticated`, `ErrRevoked`, `ErrExpired`, or an error of the store.
pub data AuthError : Type 0 where
  unauthenticated revoked expired : AuthError
  lookup_failed : StoreError → AuthError

-- The headers `X-Scopuli-Operator` and `X-Scopuli-Key`; an absent one is empty.
pub record Credentials : Type 0 where
  pub operator_header : Text
  pub key_header : Text

-- The loop of `parseScope`: the characters of the current part, then the text that is left.
unfoldable pub parse_scope_from : Text → Text → List Text
parse_scope_from cur [] = if cur == [] then [] else cur ∷ []
parse_scope_from cur (r ∷ csv) =
    let ended = parse_scope_from [] csv in
    let longer = parse_scope_from (cur ++ r ∷ []) csv in
    if r == b',' then (if cur == [] then ended else cur ∷ ended) else longer

-- `parseScope`.
unfoldable pub parse_scope : Text → List Text
unfolding parse_scope_from
parse_scope csv = parse_scope_from [] csv

-- `k.ExpiresAt.Valid && k.ExpiresAt.Int64 > 0`
abbrev pub has_expiry : Option ℤ → Bool
has_expiry none = false
has_expiry (some e) = is_positive e

-- `k.ExpiresAt.Valid && k.ExpiresAt.Int64 > 0 && k.ExpiresAt.Int64 < nowMs()`
unfoldable pub is_expired : Option ℤ → ℕ → Bool
is_expired none t = false
is_expired (some e) t = is_positive e && lt_ℕ e t

abbrev pub operator_principal : Operator → Principal
operator_principal op = record {
  kind = operator;
  id = op.id;
  name = op.name;
  scope = [];
  has_read = true;
  has_write = true;
}

abbrev pub key_principal : Key → Principal
key_principal k = record {
  kind = key;
  id = k.id;
  name = k.name;
  scope = parse_scope k.scope;
  has_read = true;
  has_write = k.permissions == codes "manage";
}

-- Whether Authenticate reads the clock for a key.
unfoldable pub needs_time : Key → Bool
needs_time k = not (is_some k.revoked_at) && has_expiry k.expires_at

-- What becomes of a key that was found, at a time.
unfoldable pub admit_key : Key → ℕ → Result AuthError Principal
unfolding is_expired
admit_key k t =
    if is_some k.revoked_at
    then err revoked
    else if is_expired k.expires_at t
    then err expired
    else ok (key_principal k)

module _ ⦃env : Env⦄ where
  -- `Authenticate`.
  unfoldable pub authenticate : Credentials → Exec World AuthError Principal
  unfolding get_operator_by_hash get_key_by_hash now admit_key needs_time
  authenticate c =
      if c.operator_header != []
      then (do
        op ← get_operator_by_hash (hash_hex c.operator_header) or_fail lookup_failed
        pure (operator_principal op))
      else if c.key_header != []
      then (do
        k ← get_key_by_hash (hash_hex c.key_header) or_fail lookup_failed
        t ← (if needs_time k then now else pure 0)
        lift (admit_key k t))
      else raise unauthenticated
