-- ===== src/Serve.antt =====
-- cmd/scopuli/serve.go: runServe up to the server that it hands to net/http, and bootstrapFirstBoot.
pub mod FirstBoot
use scopuli.Prelude.{
  Bool, Bytes, Exec, Option, Result, Text, [], attempt, codes, err, fail_if, false, if◌then◌else◌,
  lift, nat_eq, none, ok, pure, some, text_eq, true, ℕ, ◌==◌, ◌>>=◌, ◌>>◌, ◌or_fail◌, ◌∷◌,
}
use scopuli.Api.{Server}
use scopuli.Audit.{Logger, Verdict, broken, intact, verify}
use scopuli.Env.{Env}
use scopuli.Store.Database.{StoreError, World, now, time_now}
use scopuli.Store.Opening.{Disk, OpenError}
use scopuli.Store.Operators.{create_operator, get_meta, is_fresh, mark_first_boot_done, set_meta}
use scopuli.Store.Startup.{open_with_master_password}
use scopuli.Token.{audit_hmac_key, operator_token}
use scopuli.Ui.Session.{ui_session_key}

-- Why the daemon does not start.
pub data ServeError : Type 0 where
  no_password no_token hmac_panic : ServeError
  not_opened : OpenError → ServeError
  not_stored : StoreError → ServeError
  chain_broken : ℕ → ServeError

-- The server, and the operator token that a first boot prints.
pub record Booted : Type 0 where
  pub server : Server
  pub printed : Option Text

abbrev pub primary : Text
primary = codes "primary"

-- The salt that stands in for one that is missing: the bytes from 0 to 15.
abbrev pub default_hmac_salt : Bytes
default_hmac_salt = 0 ∷ 1 ∷ 2 ∷ 3 ∷ 4 ∷ 5 ∷ 6 ∷ 7 ∷ 8 ∷ 9 ∷ 10 ∷ 11 ∷ 12 ∷ 13 ∷ 14 ∷ 15 ∷ []

-- A salt, unless `err != nil || len(hmacSalt) == 0`.
unfoldable pub stored_salt : Option Bytes → Option Bytes
stored_salt none = none
stored_salt (some b) = if b == [] then none else some b

-- The `id` with which `!ok` is reported.
unfoldable pub broken_at : Option Verdict → Option ℕ
broken_at none = some 0
broken_at (some intact) = none
broken_at (some (broken i want got)) = some i

module _ ⦃env : Env⦄ where
  -- `bootstrapFirstBoot`. The token that it prints is the result.
  unfoldable pub bootstrap_first_boot : Exec World ServeError Text
  unfolding operator_token now create_operator mark_first_boot_done
  bootstrap_first_boot = do
    issued ← operator_token or_fail λ _. no_token
    t ← now
    create_operator (record {
      id = 0;
      name = primary;
      hash = issued.hash_hex;
      prefix = issued.prefix;
      created_at = t;
      last_used_at = none;
    })
        or_fail not_stored
    mark_first_boot_done or_fail not_stored
    pure issued.token

  -- The salt of the audit key: what `meta` has, or the default, which is then put there.
  unfoldable pub salt_or_default : Option Bytes → Exec World ServeError Bytes
  unfolding set_meta
  salt_or_default (some b) = pure b
  salt_or_default none = do
    attempt (set_meta (codes "hmac_key_salt") default_hmac_salt)
    pure default_hmac_salt

  -- The part for a database without first_boot_done.
  unfoldable pub boot_if_fresh : Logger → Bool → Exec World ServeError (Option Text)
  unfolding bootstrap_first_boot verify broken_at
  boot_if_fresh l false = pure none
  boot_if_fresh l true = do
    tok ← bootstrap_first_boot
    verdict ← attempt (verify l)
    lift (elim (broken_at verdict) [ none ↦ ok (some tok) | some i ↦ err (chain_broken i) ])

  -- What runServe does with the open database and its key.
  unfoldable pub boot : Text → Bytes → Exec World ServeError Booted
  unfolding get_meta salt_or_default stored_salt audit_hmac_key is_fresh boot_if_fresh time_now
      ui_session_key
  boot master_password kek = do
    salt_row ← attempt (get_meta (codes "hmac_key_salt"))
    hmac_salt ← salt_or_default (stored_salt salt_row)
    hmac_key ← lift (audit_hmac_key master_password hmac_salt) or_fail λ _. hmac_panic
    let logger : Logger = record { hmac_key = hmac_key }
    fresh ← is_fresh or_fail not_stored
    printed ← boot_if_fresh logger fresh
    started_at ← time_now
    pure (record {
      server = record {
        audit = some logger;
        kek = kek;
        operator_name = primary;
        session_key = ui_session_key kek;
      };
      printed = printed;
    })

  in_world : {A : Type 0} → Disk → Result ServeError A × World → Result ServeError A × Disk
  in_world d (r, w) = (r, record d { world = w })

  -- `runServe`.
  unfoldable pub run_serve : Text → Exec Disk ServeError Booted
  unfolding open_with_master_password boot in_world
  run_serve master_password = do
    fail_if (master_password == []) no_password
    kek ← open_with_master_password master_password or_fail not_opened
    λ d. in_world d (boot master_password kek d.world)
