-- ===== src/Examples/Access.antt =====
-- Reads, searches and keys.
use scopuli.Prelude.{
  All, List, Text, [], codes, err, none, ok, refl, replicate, some, text_beq, true, utf8, ℕ, ◌++◌,
  ◌∷◌, ◌≡◌,
}
use scopuli.Api.{
  FoundSecret, Response, can_access_secret, found_secrets, no_content, ok_response, secret_view,
  serve,
}
use scopuli.Api.Authority.{Disclosed, handle_get_secret-Disclosed}
use scopuli.Api.Finding.{handle_search_secrets-in_scope}
use scopuli.Api.Intact.Requests.{
  Request, delete_request, get_request, put_request, serve_all, serve_all-IsIntact,
}
use scopuli.Api.Keys.{handle_revoke_key}
use scopuli.Api.Revocation.Later.{
  KeyRequest, authenticate-handle_revoke_key, create_request, serve_keys, update_request,
}
use scopuli.Auth.{Principal}
use scopuli.Api.SecretReads.{found_secret, handle_get_secret, handle_search_secrets, view_secret}
use scopuli.Audit.{verify_rows}
use scopuli.Audit.Chain.{IsIntact}
use scopuli.Auth.{Credentials, Principal, authenticate, operator, revoked}
use scopuli.Crypto.{open_sealed}
use scopuli.Examples.World.{demo_env, demo_logger, demo_no_faults, demo_server, empty_world, writer}
use scopuli.Scope.{any_match, scope_match, segments}
use scopuli.Scope.Glob.{path_match}
use scopuli.Store.Database.{Key, Secret, World}
use scopuli.Store.Keys.{key_hashed, key_named}
use scopuli.Store.Secrets.{clamp_limit, row_with_id, secret_at}
use scopuli.Strings.{split, trim}
use scopuli.Token.{hash_hex}

abbrev secret_row : Text → ℕ → Secret
secret_row path id = record {
  id = id;
  path = path;
  label = none;
  ciphertext = codes "hunter2" ++ replicate 16 0;
  nonce = replicate 12 0;
  aad = [];
  tags = codes "db";
  description = [];
  metadata = codes "{}";
  created_at = 5;
  updated_at = 5;
  description_updated_at = none;
  metadata_updated_at = none;
  version = 2;
}

abbrev token_key : Key
token_key = record {
  id = 3;
  name = codes "ci";
  hash = hash_hex (codes "sk_live_1");
  prefix = [];
  scope = codes "prod/*";
  permissions = codes "read";
  tags = [];
  description = [];
  metadata = [];
  created_at = 1;
  expires_at = none;
  revoked_at = none;
  last_used_at = none;
  description_updated_at = none;
  metadata_updated_at = none;
}

-- Two secrets, indexed, and a key.
abbrev filled : World
filled = record empty_world {
  db = record empty_world.db {
    secrets = secret_row (codes "prod/db") 1 ∷ secret_row (codes "dev/db") 2 ∷ [];
    keys = token_key ∷ [];
    secrets_fts = (1, codes "prod/db", [], []) ∷ (2, codes "dev/db", [], []) ∷ [];
  };
}

abbrev operator_here : Principal
operator_here = record writer { kind = operator; id = 1; name = codes "root"; scope = [] }

abbrev sent : Credentials
sent = record { operator_header = []; key_header = codes "sk_live_1" }

named : key_named (codes "ci") filled.db.keys ≡ some token_key
unfolding key_named text_beq
named = refl

hashed : key_hashed (hash_hex sent.key_header) filled.db.keys ≡ some token_key
unfolding key_hashed text_beq hash_hex utf8
hashed = refl

-- The operator then tries to change the key, and to create one of its name.
abbrev later_requests : List (Principal × KeyRequest)
later_requests =
    (
      operator_here,
      update_request (codes "ci") (
          some (record {
            scope = some (codes "*");
            permissions = none;
            expires_in = none;
            add_tags = [];
            remove_tags = [];
            description = none;
            set_metadata = [];
            unset_metadata = [];
          })),
    )
    ∷ (operator_here, create_request none)
    ∷ []

authenticate-handle_revoke_key_example :
    ((serve (handle_revoke_key demo_server operator_here (codes "ci")) filled).0 ≡ no_content)
    × ((authenticate sent (
          serve_keys demo_server later_requests
            (serve (handle_revoke_key demo_server operator_here (codes "ci")) filled).1)).0
        ≡ err revoked)
authenticate-handle_revoke_key_example =
    authenticate-handle_revoke_key demo_server operator_here (codes "ci") token_key sent
      later_requests filled demo_no_faults refl named hashed refl (λ e. cc)

abbrev shown_secret : Response
shown_secret =
    ok_response (secret_view (view_secret (secret_row (codes "prod/db") 1) (codes "hunter2")))

reads_one : (handle_get_secret demo_server writer (codes "prod/db") filled).0 ≡ ok shown_secret
unfolding handle_get_secret can_access_secret any_match scope_match segments split trim text_beq
    path_match secret_at open_sealed
reads_one = refl

handle_get_secret-Disclosed_example :
    Disclosed demo_server writer (codes "prod/db") filled shown_secret
handle_get_secret-Disclosed_example =
    handle_get_secret-Disclosed demo_server writer (codes "prod/db") filled shown_secret reads_one

abbrev found_one : Response
found_one = ok_response (found_secrets (found_secret (secret_row (codes "prod/db") 1) ∷ []))

finds_one : (handle_search_secrets demo_server writer (codes "db") filled).0 ≡ ok found_one
unfolding handle_search_secrets text_beq clamp_limit row_with_id can_access_secret any_match
    scope_match segments split trim path_match
finds_one = refl

handle_search_secrets-in_scope_example :
    (items : List FoundSecret) × (found_one ≡ ok_response (found_secrets items))
    × All (λ item. can_access_secret (some writer) item.path ≡ true) items
handle_search_secrets-in_scope_example =
    handle_search_secrets-in_scope demo_server writer (codes "db") filled found_one finds_one

-- A read out of scope, a body that is not JSON, and a deletion.
abbrev three_requests : List (Principal × Request)
three_requests =
    (writer, get_request (codes "dev/db"))
    ∷ (writer, put_request none)
    ∷ (writer, delete_request (codes "prod/db"))
    ∷ []

serve_all-IsIntact_example : IsIntact demo_logger (serve_all demo_server three_requests filled)
serve_all-IsIntact_example =
    serve_all-IsIntact demo_server demo_logger three_requests filled refl
      (unfold verify_rows in refl)
