-- ===== src/Api/Operator.antt =====
-- internal/api/server.go: the audit handlers and handleRotateOperator.
use scopuli.Prelude.{
  Bytes, Exec, List, Option, Text, [], attempt, codes, drop, fail_if, if◌then◌else◌, lift, nat_eq,
  none, of_option, pure, some, take, text_eq, ℕ, ℤ, ◌==◌, ◌>>=◌, ◌>>◌, ◌or_fail◌, ◌∷◌,
}
use scopuli.Api.{
  Handler, Response, Server, aad_of, audit_append, broken_at, entries, error_response,
  new_operator_token, ok_response, open_row, verified,
}
use scopuli.Audit.{Logger, Verdict, broken, intact, list_entries, verify}
use scopuli.Auth.{Principal}
use scopuli.Crypto.{default_kdf_params, derive_kek, nonce_size, seal}
use scopuli.Env.{Env}
use scopuli.Store.Database.{Operator, Secret, World}
use scopuli.Store.Keys.{get_key_by_name}
use scopuli.Store.Operators.{get_meta, get_operator_by_name, update_operator_hash}
use scopuli.Store.Secrets.{get_secret, list_secret_paths, put_secret}
use scopuli.Token.{Issued, operator_token}

abbrev verdict_response : Verdict → Response
verdict_response intact = ok_response verified
verdict_response (broken i expected got) = record { status = 207; body = broken_at i expected got }

-- The row with what was sealed; its additional data stay as they are.
abbrev pub resealed : Secret → Bytes → Secret
resealed sec sealed = record sec {
  nonce = take nonce_size sealed;
  ciphertext = drop nonce_size sealed;
}

-- The values that OperatorToken leaves when it fails.
abbrev issued_or_empty : Option Issued → Issued
issued_or_empty none = record { token = []; hash_hex = []; prefix = [] }
issued_or_empty (some i) = i

module _ ⦃env : Env⦄ where
  -- The number of the key by whose name the log is filtered; no name is no filter.
  unfoldable pub audit_key : Text → Exec World Response ℕ
  unfolding get_key_by_name
  audit_key name =
      if name == []
      then pure 0
      else (do k ← get_key_by_name name or_fail λ _. error_response 404 "no such key"; pure k.id)

  -- `handleListAudit`, of the parsed query.
  unfoldable pub handle_list_audit : Logger → ℤ → Text → ℤ → Handler
  unfolding audit_key list_entries
  handle_list_audit l since key_name limit = do
    key_id ← audit_key key_name
    found ← list_entries since key_id limit or_fail λ _. error_response 500 "list"
    pure (ok_response (entries found))

  -- `handleVerifyAudit`.
  unfoldable pub handle_verify_audit : Logger → Handler
  unfolding verify
  handle_verify_audit l = do
    verdict ← verify l or_fail λ _. error_response 500 "verify"
    pure (verdict_response verdict)

  -- One round of the loop of handleRotateOperator.
  unfoldable pub rotate_row : Bytes → Bytes → Secret → Exec World Response (Unit {0})
  unfolding seal put_secret
  rotate_row old_kek new_kek sec = do
    pt ← lift (open_row old_kek sec sec.aad) or_fail λ _. error_response 500 "decrypt during rotate"
    sealed ← seal new_kek pt (aad_of sec) or_fail λ _. error_response 500 "encrypt during rotate"
    put_secret (resealed sec sealed) or_fail λ _. error_response 500 "store during rotate"

  unfoldable pub rotate_found : Bytes → Bytes → Option Secret → Exec World Response (Unit {0})
  unfolding rotate_row
  rotate_found old_kek new_kek none = pure tt
  rotate_found old_kek new_kek (some sec) = rotate_row old_kek new_kek sec

  -- The loop.
  unfoldable pub rotate_rows : Bytes → Bytes → List Text → Exec World Response (Unit {0})
  unfolding get_secret rotate_found
  rotate_rows old_kek new_kek [] = pure tt
  rotate_rows old_kek new_kek (path ∷ paths) = do
    row ← attempt (get_secret path)
    rotate_found old_kek new_kek row
    rotate_rows old_kek new_kek paths

  update_found : {E : Type 0} → Option Operator → Issued → Exec World E (Unit {0})
  unfolding update_operator_hash
  update_found none i = pure tt
  update_found (some op) i = attempt (update_operator_hash op.id i.hash_hex i.prefix) >> pure tt

  -- What follows the loop: a new token, and its digest in the operator's row, if that is found.
  unfoldable pub replace_token : Server → Exec World Response Text
  unfolding operator_token get_operator_by_name update_found
  replace_token s = do
    made ← attempt operator_token
    op ← attempt (get_operator_by_name s.operator_name)
    update_found op (issued_or_empty made)
    pure (issued_or_empty made).token

  -- `handleRotateOperator`.
  unfoldable pub handle_rotate_operator : Server → Principal → Option Text → Handler
  unfolding get_meta list_secret_paths rotate_rows replace_token audit_append derive_kek
  handle_rotate_operator s p body = do
    new_password ← lift (of_option (error_response 400 "bad json") body)
    fail_if (new_password == []) (error_response 400 "new_master_password required")
    salt ← get_meta (codes "kdf_salt") or_fail λ _. error_response 500 "missing kdf_salt"
    fail_if (salt == []) (error_response 500 "missing kdf_salt")
    new_kek ← lift (derive_kek new_password salt default_kdf_params) or_fail λ _.
        error_response 500 "panic"
    paths ← list_secret_paths [] or_fail λ _. error_response 500 "list"
    rotate_rows s.kek new_kek paths
    tok ← replace_token s
    audit_append s p (codes "operator.rotate") [] (codes "ok")
    pure (ok_response (new_operator_token tok))
