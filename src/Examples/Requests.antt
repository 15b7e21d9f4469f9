-- ===== src/Examples/Requests.antt =====
-- Requests to the handlers under /api/secrets.
use scopuli.Prelude.{
  All, List, Text, [], codes, false, none, ok, refl, replicate, some, text_beq, true, utf8, ℕ, ◌++◌,
  ◌∷◌, ◌≡◌,
}
use scopuli.Api.{
  Response, SecretItem, SecretView, can_access_secret, error_response, no_content, ok_response,
  secret_items, secret_view, serve,
}
use scopuli.Api.Annotate.{AnnotateReq, handle_annotate_secret}
use scopuli.Api.Confined.{found_at}
use scopuli.Api.Confined.Delete.{handle_delete_secret_confined}
use scopuli.Api.Confined.Writes.{handle_annotate_secret_confined, handle_put_secret_confined}
use scopuli.Api.Effects.{SameTables}
use scopuli.Api.Guards.{handle_get_secret_denied}
use scopuli.Api.Listing.{Shown, handle_list_secrets-Shown}
use scopuli.Api.RoundTrip.{Accepted, get-put}
use scopuli.Api.SecretReads.{handle_delete_secret, handle_get_secret, handle_list_secrets}
use scopuli.Api.Secrets.{PutSecretReq, handle_put_secret, request_metadata}
use scopuli.Auth.{is_read_only}
use scopuli.Crypto.{open_sealed}
use scopuli.Env.{str}
use scopuli.Examples.World.{
  demo-FillsRandom, demo-IsGcm, demo_delivers, demo_env, demo_no_faults, demo_server, empty_world,
  reader, writer,
}
use scopuli.Metadata.{normalize_tags, validate_description}
use scopuli.Scope.{any_match, scope_match, segments}
use scopuli.Scope.Glob.{path_match}
use scopuli.Store.Database.{Secret, World}
use scopuli.Store.Secrets.{path_is_listed, secret_at, sort_texts}
use scopuli.Store.Secrets.Rows.{Unique}
use scopuli.Strings.{join, split, text_lt, trim, trim_space}

abbrev request : PutSecretReq
request = record {
  path = codes "prod/db";
  value = codes "hunter2";
  label = codes "database";
  tags = codes "db" ∷ codes " prod" ∷ [];
  description = codes "the password";
  metadata = some ((codes "team", codes "core") ∷ []);
}

writer_sees : can_access_secret (some writer) (codes "prod/db") ≡ true
unfolding can_access_secret any_match scope_match segments split trim text_beq path_match
writer_sees = refl

reader_sees : can_access_secret (some reader) (codes "prod/db") ≡ true
unfolding can_access_secret any_match scope_match segments split trim text_beq path_match
reader_sees = refl

writer_hidden : can_access_secret (some writer) (codes "dev/db") ≡ false
unfolding can_access_secret any_match scope_match segments split trim text_beq path_match
writer_hidden = refl

abbrev team : Text
team = demo_env.marshal ((codes "team", str (codes "core")) ∷ [])

good_tags_example : normalize_tags (join b',' request.tags) ≡ ok (codes "db,prod")
unfolding normalize_tags text_beq join split trim_space utf8
good_tags_example = refl

good_description_example : validate_description request.description ≡ ok tt
unfolding validate_description utf8
good_description_example = refl

good_metadata_example : request_metadata request.metadata ≡ ok team
unfolding request_metadata text_beq trim_space utf8
good_metadata_example = refl

writer_writes : is_read_only writer ≡ false
unfolding is_read_only
writer_writes = refl

reader_reads : is_read_only reader ≡ true
unfolding is_read_only
reader_reads = refl

accepted : Accepted writer request (codes "db,prod") team
accepted = record {
  may_write = writer_writes;
  in_scope = writer_sees;
  has_path = λ e. cc;
  good_tags = good_tags_example;
  good_description = good_description_example;
  good_metadata = good_metadata_example;
}

get-put_example :
    ((serve (handle_put_secret demo_server writer (some request)) empty_world).0 ≡ no_content)
    × ((view : SecretView) × ((serve
            (handle_get_secret demo_server reader request.path)
            (serve (handle_put_secret demo_server writer (some request)) empty_world).1).0
          ≡ ok_response (secret_view view))
        × (view.path ≡ request.path)
        × (view.value ≡ request.value)
        × (view.description ≡ request.description))
get-put_example =
    get-put demo_server writer reader request (codes "db,prod") team empty_world accepted
      reader_sees demo_no_faults demo_delivers demo-IsGcm demo-FillsRandom refl

handle_get_secret_denied_example :
    ((serve (handle_get_secret demo_server writer (codes "dev/db")) empty_world).0
      ≡ error_response 403 "out of scope")
    × SameTables
        (serve (handle_get_secret demo_server writer (codes "dev/db")) empty_world).1.db
        empty_world.db
handle_get_secret_denied_example =
    handle_get_secret_denied demo_server writer (codes "dev/db") empty_world writer_hidden

abbrev annotation : AnnotateReq
annotation = record {
  add_tags = codes "x" ∷ [];
  remove_tags = [];
  description = some (codes "new");
  set_metadata = [];
  unset_metadata = [];
}

abbrev after_write : World
after_write = (serve (handle_put_secret demo_server writer (some request)) empty_world).1

handle_put_secret_confined_example :
    found_at (codes "dev/db") after_write ≡ found_at (codes "dev/db") empty_world
handle_put_secret_confined_example =
    handle_put_secret_confined demo_server writer (some request) (codes "dev/db") empty_world
      writer_hidden

handle_annotate_secret_confined_example :
    found_at
      (codes "dev/db")
      (serve
        (handle_annotate_secret demo_server writer (codes "prod/db") (some annotation))
        after_write).1
    ≡ found_at (codes "dev/db") after_write
handle_annotate_secret_confined_example =
    handle_annotate_secret_confined demo_server writer (codes "prod/db") (some annotation)
      (codes "dev/db") after_write writer_hidden

abbrev row : Text → ℕ → Secret
row path id = record {
  id = id;
  path = path;
  label = none;
  ciphertext = [];
  nonce = [];
  aad = [];
  tags = [];
  description = [];
  metadata = codes "{}";
  created_at = 5;
  updated_at = 5;
  description_updated_at = none;
  metadata_updated_at = none;
  version = 2;
}

abbrev two_rows : World
two_rows = record empty_world {
  db = record empty_world.db { secrets = row (codes "prod/db") 1 ∷ row (codes "dev/db") 2 ∷ [] };
}

two_rows-Unique : Unique two_rows.db.secrets
two_rows-Unique = (((λ e. cc, λ e. cc), tt), (tt, tt))

handle_delete_secret_confined_example :
    found_at
      (codes "dev/db")
      (serve (handle_delete_secret demo_server writer (codes "prod/db")) two_rows).1
    ≡ found_at (codes "dev/db") two_rows
handle_delete_secret_confined_example =
    handle_delete_secret_confined demo_server writer (codes "prod/db") (codes "dev/db") two_rows
      two_rows-Unique writer_hidden

-- A secret that can be opened, and one that the writer may not see.
abbrev readable : World
readable = record empty_world {
  db = record empty_world.db {
    secrets =
        record (row (codes "prod/db") 1) {
          nonce = replicate 12 0;
          ciphertext = codes "hunter2" ++ replicate 16 0;
        }
        ∷ row (codes "dev/db") 2
        ∷ [];
  };
}

abbrev listed : Response
listed = ok_response (
    secret_items (
      record {
        path = codes "prod/db";
        label = [];
        tags = [];
        description = [];
        value_preview = codes "***";
        value = [];
      }
      ∷ []))

lists_one : (handle_list_secrets demo_server writer [] false readable).0 ≡ ok listed
unfolding handle_list_secrets sort_texts path_is_listed text_beq text_lt can_access_secret any_match
    scope_match segments split trim path_match secret_at open_sealed
lists_one = refl

handle_list_secrets-Shown_example :
    (items : List SecretItem) × (listed ≡ ok_response (secret_items items))
    × All (Shown writer false) items
handle_list_secrets-Shown_example =
    handle_list_secrets-Shown demo_server writer [] false readable listed lists_one
