-- ===== src/Examples/Tables.antt =====
-- The secrets table, the cipher, and metadata.
use scopuli.Prelude.{
  Bytes, Text, [], codes, length, none, of_option, ok, refl, replicate, some, text_beq, ℕ, ◌++◌,
  ◌+◌, ◌∷◌, ◌≡◌, ◌⊎◌,
}
use scopuli.Crypto.{open_sealed, seal}
use scopuli.Crypto.RoundTrip.{open-seal}
use scopuli.Metadata.{set_all, delete_all}
use scopuli.Metadata.GoMap.{map_set}
use scopuli.Prelude.{utf8}
use scopuli.Env.{Any, TextMap, str}
use scopuli.Examples.World.{
  demo-FillsRandom, demo-IsGcm, demo_env, demo_kek, demo_no_faults, empty_world,
}
use scopuli.Metadata.{empty_object, merge_metadata}
use scopuli.Metadata.Limits.{ObjectFits, merge_metadata-ObjectFits}
use scopuli.Store.Database.{Secret, World, not_found}
use scopuli.Store.Secrets.{delete_secret, get_secret, put_secret}
use scopuli.Store.Secrets.Delete.{writes-Unique}
use scopuli.Store.Secrets.Put.{after_put, get-put_secret}
use scopuli.Store.Secrets.Rows.{Unique}
use scopuli.Strings.{trim_space}

abbrev row : Text → ℕ → Secret
row path id = record {
  id = id;
  path = path;
  label = none;
  ciphertext = [];
  nonce = [];
  aad = [];
  tags = [];
  description = [];
  metadata = codes "{}";
  created_at = 5;
  updated_at = 5;
  description_updated_at = some 5;
  metadata_updated_at = none;
  version = 2;
}

abbrev two_rows : World
two_rows = record empty_world {
  db = record empty_world.db { secrets = row (codes "prod/a") 1 ∷ row (codes "dev/b") 2 ∷ [] };
}

two_rows-Unique : Unique two_rows.db.secrets
two_rows-Unique = (((λ e. cc, λ e. cc), tt), (tt, tt))

get-put_secret_example :
    ((put_secret (row (codes "dev/b") 0) two_rows).0 ≡ ok tt)
    × ((get_secret (codes "dev/b") (put_secret (row (codes "dev/b") 0) two_rows).1).0
        ≡ of_option not_found (after_put (row (codes "dev/b") 0) two_rows (codes "dev/b")))
get-put_secret_example =
    get-put_secret (row (codes "dev/b") 0) two_rows (codes "dev/b") demo_no_faults

writes-Unique_example :
    Unique (put_secret (row (codes "new") 0) two_rows).1.db.secrets
    × Unique (delete_secret (codes "prod/a") two_rows).1.db.secrets
writes-Unique_example =
    writes-Unique (row (codes "new") 0) (codes "prod/a") two_rows two_rows-Unique

abbrev plaintext : Bytes
plaintext = 1 ∷ 2 ∷ 3 ∷ []

abbrev sealed_once : Bytes
sealed_once = replicate 12 0 ++ plaintext ++ replicate 16 0

sealed_it : (seal demo_kek plaintext (4 ∷ []) empty_world).0 ≡ ok sealed_once
unfolding seal
sealed_it = refl

open-seal_example :
    (open_sealed demo_kek sealed_once (4 ∷ []) ≡ ok plaintext)
    × (length sealed_once ≡ length plaintext + 28)
open-seal_example =
    open-seal demo_kek plaintext (4 ∷ []) empty_world sealed_once demo-FillsRandom demo-IsGcm
      sealed_it

abbrev team : Text
team = demo_env.marshal ((codes "team", str (codes "core")) ∷ [])

merged_metadata : merge_metadata [] ((codes "team", codes "core") ∷ []) [] ≡ ok team
unfolding merge_metadata text_beq trim_space set_all map_set delete_all utf8
merged_metadata = refl

merge_metadata-ObjectFits_example :
    (m : TextMap Any) × ObjectFits m × ((team ≡ empty_object) ⊎ (team ≡ demo_env.marshal m))
merge_metadata-ObjectFits_example =
    merge_metadata-ObjectFits [] team ((codes "team", codes "core") ∷ []) [] merged_metadata
