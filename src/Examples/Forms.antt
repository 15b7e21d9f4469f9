-- ===== src/Examples/Forms.antt =====
-- The console beside the API: the secrets form and the audit page.
use scopuli.Prelude.{
  List, Text, [], arith, codes, false, map, nat_eq, none, ok, pos, refl, some, take, text_beq,
  text_eq, true, utf8, ℕ, ◌++◌, ◌+◌, ◌==◌, ◌∷◌, ◌≡◌,
}
use scopuli.Api.{can_access_secret, no_content}
use scopuli.Api.Secrets.{handle_put_secret, request_metadata}
use scopuli.Audit.{Entry, entry_of, query_entries}
use scopuli.Auth.{Principal, is_read_only, operator}
use scopuli.Examples.World.{demo_env, demo_no_faults, demo_server, empty_world, writer}
use scopuli.Metadata.{normalize_tags, validate_description}
use scopuli.Store.Database.{AuditRow, World}
use scopuli.Store.Secrets.{clamp_limit, secret_at, upsert_secret}
use scopuli.Strings.{join, trim_space}
use scopuli.Ui.{UiRequest}
use scopuli.Ui.AuditPages.{last_id}
use scopuli.Ui.AuditPages.Paging.{Ascends, matching, query_entries-older}
use scopuli.Ui.SecretActions.{SecretForm, form_metadata, form_path, save_secret}
use scopuli.Ui.SecretActions.SameAsApi.{request_of, save_secret-handle_put_secret}

abbrev form : SecretForm
form = record {
  path = codes "prod/a";
  original_path = [];
  value = 1 ∷ 2 ∷ [];
  label = [];
  tags = [];
  description = codes "first";
  metadata = [];
}

abbrev admin : Principal
admin = record writer { kind = operator }

abbrev form_visitor : UiRequest
form_visitor = record {
  is_htmx = true;
  session = none;
  credentials = record { operator_header = []; key_header = [] };
}

has_value : (form.value == []) ≡ false
unfolding text_beq
has_value = refl

same_tags : normalize_tags (join b',' []) ≡ normalize_tags (trim_space form.tags)
unfolding trim_space join
same_tags = refl

same_metadata : request_metadata none ≡ form_metadata (trim_space form.metadata)
unfolding form_metadata request_metadata text_beq trim_space
same_metadata = refl

is_put :
    (handle_put_secret demo_server admin (some (request_of form [] none)) empty_world).0
    ≡ ok no_content
unfolding handle_put_secret is_read_only text_beq form_path can_access_secret normalize_tags join
    validate_description utf8 secret_at upsert_secret
is_put = refl

save_secret-handle_put_secret_example :
    (path : Text) × (save_secret demo_server form_visitor admin form empty_world ≡ (
      ok path,
      (handle_put_secret demo_server admin (some (request_of form [] none)) empty_world).1,
    ))
save_secret-handle_put_secret_example =
    save_secret-handle_put_secret demo_server form_visitor admin form [] none empty_world no_content
      refl has_value same_tags same_metadata is_put

abbrev entry_row : ℕ → AuditRow
entry_row i = record {
  id = i;
  ts = i;
  actor_kind = codes "key";
  actor_id = 3;
  action = codes "read";
  path = none;
  result = codes "ok";
  prev_hash = [];
  hash = [];
  hmac = [];
}

abbrev three_entries : World
three_entries = record empty_world {
  db = record empty_world.db { audit = entry_row 1 ∷ entry_row 2 ∷ entry_row 3 ∷ [] };
}

three_entries-Ascends : Ascends three_entries.db.audit
three_entries-Ascends = (
  omega arith,
  (omega arith, (omega arith, tt)),
  (omega arith, (omega arith, tt), (omega arith, tt, tt)),
)

first_page :
    (query_entries (pos 0) (pos 0) 0 [] (pos 2) three_entries).0
    ≡ ok (entry_of (entry_row 3) ∷ entry_of (entry_row 2) ∷ [])
unfolding query_entries clamp_limit text_beq
first_page = refl

query_entries-older_example :
    (older : List Entry) × ((query_entries
        (pos (last_id (entry_of (entry_row 3) ∷ entry_of (entry_row 2) ∷ [])))
        (pos 0)
        0
        []
        (pos 2)
        three_entries).0
      ≡ ok older)
    × ((entry_of (entry_row 3) ∷ entry_of (entry_row 2) ∷ []) ++ older
        ≡ map entry_of (
            take
              (clamp_limit (pos 2) 100 + clamp_limit (pos 2) 100)
              (matching (pos 0) (pos 0) 0 [] three_entries.db.audit)))
query_entries-older_example =
    query_entries-older (pos 0) (pos 0) (pos 2) 0 [] three_entries three_entries
      (entry_of (entry_row 3)) (entry_of (entry_row 2) ∷ []) demo_no_faults three_entries-Ascends
      refl first_page
