-- ===== src/Api/Revocation/Later.antt =====
-- A key that was revoked stays so, whatever is asked of the keys afterwards.
use scopuli.Prelude.{List, Option, Text, [], ap, err, refl, some, true, ◌∙◌, ◌∷◌, ◌≡◌, ◌≢◌}
use scopuli.Api.{Handler, Server, no_content, serve}
use scopuli.Api.Keeps.{world-answer}
use scopuli.Api.Keys.{CreateKeyReq, handle_create_key, handle_revoke_key}
use scopuli.Api.Preserves.{Preserves}
use scopuli.Api.Revocation.{authenticate_revoked, handle_revoke_key_total}
use scopuli.Api.Revocation.Handlers.{
  handle_create_key-Stays, handle_revoke_key-Stays, handle_update_key-Stays,
}
use scopuli.Api.Revocation.Kept.{Stays, key_hashed-revoked_in, revoked_in, revoked_in-key_hashed}
use scopuli.Api.UpdateKey.{UpdateKeyReq, handle_update_key}
use scopuli.Auth.{Credentials, Principal, authenticate, is_operator, revoked}
use scopuli.Env.{Env}
use scopuli.Store.Database.{Key, World}
use scopuli.Store.Keys.{key_hashed, key_named}
use scopuli.Store.Secrets.Healthy.{NoFaults}
use scopuli.Token.{hash_hex}

-- A request to create, change or revoke a key.
pub data KeyRequest : Type 0 where
  create_request : Option CreateKeyReq → KeyRequest
  update_request : Text → Option UpdateKeyReq → KeyRequest
  revoke_request : Text → KeyRequest

module _ ⦃env : Env⦄ where
  abbrev pub key_handler : Server → Principal → KeyRequest → Handler
  key_handler s p (create_request body) = handle_create_key s p body
  key_handler s p (update_request name body) = handle_update_key s p name body
  key_handler s p (revoke_request name) = handle_revoke_key s p name

  -- The world after requests by principals, one after another.
  abbrev pub serve_keys : Server → List (Principal × KeyRequest) → World → World
  serve_keys s [] w = w
  serve_keys s ((p, r) ∷ requests) w = serve_keys s requests (serve (key_handler s p r) w).1

  key_handler-Stays :
      (hash : Text) (s : Server) (p : Principal) (r : KeyRequest)
      → Preserves (Stays hash) (key_handler s p r)
  key_handler-Stays hash s p (create_request body) = handle_create_key-Stays hash s p body
  key_handler-Stays hash s p (update_request name body) = handle_update_key-Stays hash s p name body
  key_handler-Stays hash s p (revoke_request name) = handle_revoke_key-Stays hash s p name

  serve_keys-Stays :
      (hash : Text) (s : Server) (requests : List (Principal × KeyRequest)) (w : World)
      → Stays hash w
      → Stays hash (serve_keys s requests w)
  serve_keys-Stays hash s [] w h = h
  serve_keys-Stays hash s ((p, r) ∷ requests) w h =
      let m = key_handler s p r in
      serve_keys-Stays hash s requests (serve m w).1 (
        ap (revoked_in hash) (world-answer (λ v. v.db.keys) (m w))
        ∙ (key_handler-Stays hash s p r).preserved w h)

  -- While the engine does not fail, an operator that revokes a key is answered 204. After that, and
  -- after any further requests to create, change or revoke keys, by any principals and whatever is
  -- answered to them, a request that brings the key's token, and no operator token, is refused as
  -- revoked. The key is the one that both its name and its token's digest find.
  pub authenticate-handle_revoke_key :
      (s : Server) (p : Principal) (name : Text) (k : Key) (c : Credentials)
      (later : List (Principal × KeyRequest)) (w : World)
      → NoFaults
      → is_operator p.kind ≡ true
      → key_named name w.db.keys ≡ some k
      → key_hashed (hash_hex c.key_header) w.db.keys ≡ some k
      → c.operator_header ≡ []
      → c.key_header ≢ []
      → let (r, v) = serve (handle_revoke_key s p name) w in
        (r ≡ no_content) × ((authenticate c (serve_keys s later v)).0 ≡ err revoked)
  authenticate-handle_revoke_key s p name k c later w f o named hashed h n =
      let hash = hash_hex c.key_header in
      let v = (serve (handle_revoke_key s p name) w).1 in
      let (r, (t, e)) = handle_revoke_key_total s p name hash k w f o named hashed in
      let stays =
        serve_keys-Stays hash s later v (key_hashed-revoked_in hash v.db.keys _ t e refl) in
      let (j, u, g, x) = revoked_in-key_hashed hash (serve_keys s later v).db.keys stays in
      (r, authenticate_revoked c j u (serve_keys s later v) f h n g x)
