-- ===== src/Examples/Console.antt =====
-- Backups and the web console.
use scopuli.Prelude.{
  Bytes, Text, [], arith, codes, false, nat_eq, none, ok, pure, refl, replicate, some, take,
  text_beq, text_eq, true, utf8, ℕ, ◌++◌, ◌==◌, ◌∷◌, ◌≡◌, ◌⊎◌,
}
use scopuli.Api.{Server}
use scopuli.Auth.{Principal, operator_principal}
use scopuli.Backup.{Streams, restore, snapshot}
use scopuli.Backup.Refusals.{Authentic, restore-Authentic}
use scopuli.Backup.RoundTrip.{restore-snapshot}
use scopuli.Env.{NoIoFaults}
use scopuli.Examples.World.{
  demo-FillsRandom, demo-IsArgon, demo-IsBase64, demo-IsChacha, demo_delivers, demo_env,
  demo_logger, demo_no_faults, demo_server, empty_world,
}
use scopuli.Store.Database.{Operator, World}
use scopuli.Store.Operators.{operator_hashed}
use scopuli.Strings.{trim_space}
use scopuli.Token.{hash_hex}
use scopuli.Ui.{UiHandler, UiRequest, UiResponse, nothing, rendered, set_cookie, ui_serve}
use scopuli.Ui.Routes.{post_key_revoke}
use scopuli.Ui.Routes.Guarded.{Guarded, ui_route-Guarded}
use scopuli.Ui.Session.{handle_ui_login, require_ui_session, session_payload, sign_payload}
use scopuli.Ui.Session.Admission.{SentAway, Session, require_ui_session-Session}
use scopuli.Ui.Session.Login.{require_ui_session-login}

abbrev passphrase : Text
passphrase = codes "correct horse"

-- The file to back up.
abbrev files : Streams
files = record { world = empty_world; source = 1 ∷ 2 ∷ 3 ∷ []; target = [] }

demo-NoIoFaults : NoIoFaults
demo-NoIoFaults = record { never = λ event. refl }

restore-snapshot_example :
    ((snapshot passphrase files).0 ≡ ok tt)
    × ((v : World) × (restore passphrase (record {
      world = empty_world;
      source = (snapshot passphrase files).1.target;
      target = [];
    })
          ≡ (ok tt, record { world = v; source = []; target = 1 ∷ 2 ∷ 3 ∷ [] })))
restore-snapshot_example =
    restore-snapshot passphrase files empty_world (unfold text_beq in refl) refl demo-IsArgon
      demo-IsChacha demo-FillsRandom demo_delivers demo-NoIoFaults

-- What Snapshot wrote for the file.
abbrev bundled : Streams
bundled = record {
  world = empty_world;
  source = (snapshot passphrase files).1.target;
  target = 9 ∷ [];
}

restore-Authentic_example :
    ((restore passphrase bundled).1.target ≡ 9 ∷ [])
    ⊎ ((plain : Bytes) × (n : ℕ) × Authentic passphrase bundled.source plain
        × ((restore passphrase bundled).1.target ≡ (9 ∷ []) ++ take n plain)
        × ((restore passphrase bundled).0 ≡ ok tt → take n plain ≡ plain))
restore-Authentic_example = restore-Authentic passphrase bundled

abbrev console_server : Server
console_server = record demo_server { session_key = replicate 32 5 }

abbrev token : Text
token = codes "scot_live_abc"

-- The operator whose token that is.
abbrev root : Operator
root = record {
  id = 1;
  name = codes "root";
  hash = hash_hex (codes "scot_live_abc");
  prefix = codes "scot_live_abc";
  created_at = 0;
  last_used_at = none;
}

abbrev console_world : World
console_world = record empty_world { db = record empty_world.db { operators = root ∷ [] } }

abbrev visitor : UiRequest
visitor = record {
  is_htmx = true;
  session = none;
  credentials = record { operator_header = []; key_header = [] };
}

abbrev show_operator : Principal → UiHandler
show_operator p = pure (rendered nothing)

abbrev login_answer : UiResponse
login_answer =
    (ui_serve (handle_ui_login console_server visitor (codes " scot_live_abc ")) console_world).0

has_key : (console_server.session_key == []) ≡ false
unfolding text_beq
has_key = refl

has_token : (trim_space (codes " scot_live_abc ") == []) ≡ false
unfolding text_beq trim_space
has_token = refl

is_root : operator_hashed (hash_hex (trim_space (codes " scot_live_abc "))) (root ∷ []) ≡ some root
unfolding operator_hashed hash_hex trim_space text_beq utf8
is_root = refl

require_ui_session-login_example :
    (value : Text) × (login_answer.cookie ≡ set_cookie value)
    × ((u : World) × (require_ui_session console_server
            (record visitor { session = some value })
            show_operator
            console_world
          ≡ show_operator (operator_principal root) u)
        × (u.db ≡ console_world.db))
require_ui_session-login_example =
    require_ui_session-login console_server visitor visitor show_operator (codes " scot_live_abc ")
      root root console_world console_world demo_no_faults demo-IsBase64 has_key has_token is_root
      is_root (omega arith) (omega arith)

-- The visitor with the cookie of a login.
abbrev signed_in : UiRequest
signed_in = record visitor {
  session = some (
      sign_payload console_server.session_key
        (utf8 (session_payload 4000000000 (codes "scot_live_abc"))));
}

require_ui_session-Session_example :
    SentAway console_server signed_in show_operator console_world
    ⊎ ((t : Text) × (op : Operator) × (v : World) × Session console_server signed_in console_world t
          op
        × (require_ui_session console_server signed_in show_operator console_world
            ≡ show_operator (operator_principal op) v)
        × (v.db ≡ console_world.db))
require_ui_session-Session_example =
    require_ui_session-Session console_server signed_in show_operator console_world

ui_route-Guarded_example :
    Guarded console_server demo_logger visitor (post_key_revoke (codes "ci")) console_world
ui_route-Guarded_example =
    ui_route-Guarded console_server demo_logger visitor (post_key_revoke (codes "ci")) console_world
