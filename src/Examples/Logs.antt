-- ===== src/Examples/Logs.antt =====
-- The audit log and Authenticate.
use scopuli.Prelude.{
  All, Text, [], ap, arith, codes, length, map, none, ok, pos, refl, some, text_beq, utf8, ◌++◌,
  ◌<◌, ◌∙◌, ◌∷◌, ◌≡◌, ◌⊎◌,
}
use scopuli.Audit.{
  Entry, append, canonical_json, chained, intact, last_hash, verify_rows, zero_hash,
}
use scopuli.Audit.Chain.{
  IsIntact, Records, RowHolds, added_intact, append-IsIntact, append_total, tip,
}
use scopuli.Audit.Tamper.{Collision, broken_id, first_broken, recorded, tamper_evident}
use scopuli.Auth.{Credentials, authenticate, key_principal}
use scopuli.Auth.Verdicts.{Admitted, authenticate-Admitted}
use scopuli.Examples.World.{
  demo-IsJson, demo-IsSha, demo_env, demo_logger, demo_no_faults, empty_world,
}
use scopuli.Store.Database.{AuditRow, Key, World}
use scopuli.Store.Keys.{key_hashed}
use scopuli.Token.{hash_hex}

abbrev entry : Text → Entry
entry action = record {
  id = 0;
  ts = 17;
  actor_kind = codes "key";
  actor_id = 1;
  action = action;
  path = codes "prod/a";
  result = codes "ok";
}

-- The worlds after the first and the second entry.
abbrev one_entry : World
one_entry = (append demo_logger (entry (codes "read")) empty_world).1

abbrev first_row : AuditRow
first_row = chained demo_logger (entry (codes "read")) zero_hash 1

first_intact : verify_rows demo_logger zero_hash (first_row ∷ []) ≡ intact
unfolding last_hash
first_intact = added_intact demo_logger (entry (codes "read")) [] 1 (unfold verify_rows in refl)

append-IsIntact_example : IsIntact demo_logger one_entry
append-IsIntact_example =
    append-IsIntact demo_logger (entry (codes "read")) empty_world (unfold verify_rows in refl)

append_total_example :
    (r : AuditRow) × ((append demo_logger (entry (codes "read")) empty_world).0 ≡ ok r.id)
    × ((append demo_logger (entry (codes "read")) empty_world).1.db
        ≡ record empty_world.db { audit = [] ++ r ∷ [] })
    × Records (entry (codes "read")) r
    × RowHolds demo_logger zero_hash r
    × All (λ i. i < r.id) []
append_total_example =
    append_total demo_logger (entry (codes "read")) empty_world demo_no_faults refl

-- A log with another action, and with the same hash at its end.
abbrev second_row : AuditRow
second_row = chained demo_logger (entry (codes "write")) zero_hash 1

second_intact : verify_rows demo_logger zero_hash (second_row ∷ []) ≡ intact
unfolding last_hash
second_intact = added_intact demo_logger (entry (codes "write")) [] 1 (unfold verify_rows in refl)

same_tip : tip zero_hash (first_row ∷ []) ≡ tip zero_hash (second_row ∷ [])
unfolding chained
same_tip = refl

tamper_evident_example :
    (map recorded (first_row ∷ []) ≡ map recorded (second_row ∷ [])) ⊎ Collision
tamper_evident_example =
    tamper_evident demo_logger (first_row ∷ []) (second_row ∷ []) demo-IsSha demo-IsJson
      first_intact second_intact refl same_tip

-- The row with another result.
abbrev forged : AuditRow
forged = record first_row { id = 2; prev_hash = [] }

forged_fails : ¬ RowHolds demo_logger (tip zero_hash (first_row ∷ [])) forged
unfolding chained
forged_fails h = omega (
  arith,
  ap length h.prev ∙ demo-IsSha.length-sha256 (zero_hash ++ canonical_json (entry (codes "read"))),
)

first_broken_example :
    broken_id (verify_rows demo_logger zero_hash ((first_row ∷ []) ++ forged ∷ [])) ≡ some 2
first_broken_example =
    first_broken demo_logger zero_hash (first_row ∷ []) forged [] first_intact forged_fails

abbrev stored_key : Key
stored_key = record {
  id = 3;
  name = codes "ci";
  hash = hash_hex (codes "sk_live_1");
  prefix = [];
  scope = codes "prod/*";
  permissions = codes "read";
  tags = [];
  description = [];
  metadata = [];
  created_at = 1;
  expires_at = some (pos 5000);
  revoked_at = none;
  last_used_at = none;
  description_updated_at = none;
  metadata_updated_at = none;
}

abbrev with_key : World
with_key = record empty_world { db = record empty_world.db { keys = stored_key ∷ [] } }

abbrev with_token : Credentials
with_token = record { operator_header = []; key_header = codes "sk_live_1" }

let_in : (authenticate with_token with_key).0 ≡ ok (key_principal stored_key)
unfolding authenticate text_beq key_hashed hash_hex utf8
let_in = refl

authenticate-Admitted_example : Admitted with_token with_key (key_principal stored_key)
authenticate-Admitted_example =
    authenticate-Admitted with_token with_key (key_principal stored_key) let_in
