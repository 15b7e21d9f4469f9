-- ===== src/Store/Secrets/Rows.antt =====
-- Laws of the rows of the secrets table.
use scopuli.Prelude.{
  All, List, Option, Text, [], arith, if◌then◌else◌, nat_eq, none, refl, some, text_beq_iff,
  text_eq, ℕ, ◌==◌, ◌∷◌, ◌≡◌, ◌≢◌,
}
use scopuli.Store.Database.{Secret}
use scopuli.Store.Secrets.{secret_at, upsert_secret}

-- What an upsert leaves at the path of the secret, column by column.
abbrev pub stored_as : ℕ → Secret → Option Secret → Secret
stored_as new sec none = record sec { id = new }
stored_as new sec (some r) = record {
  id = r.id;
  path = r.path;
  label = sec.label;
  ciphertext = sec.ciphertext;
  nonce = sec.nonce;
  aad = sec.aad;
  tags = sec.tags;
  description = sec.description;
  metadata = sec.metadata;
  created_at = r.created_at;
  updated_at = sec.updated_at;
  description_updated_at = sec.description_updated_at;
  metadata_updated_at = sec.metadata_updated_at;
  version = sec.version;
}

pub secret_at-upsert_secret :
    (new : ℕ) (sec : Secret) (rows : List Secret) (q : Text)
    → secret_at q (upsert_secret new sec rows) ≡ (
        if sec.path == q
        then some (stored_as new sec (secret_at sec.path rows))
        else secret_at q rows)
unfolding secret_at upsert_secret
secret_at-upsert_secret new sec [] q = refl
secret_at-upsert_secret new sec (r ∷ rows) q = ground (
  arith,
  secret_at-upsert_secret new sec rows q,
  text_beq_iff r.path sec.path,
  text_beq_iff r.path q,
  text_beq_iff sec.path q,
)

-- No two rows have one path, and none has the number or the path of another.
abbrev pub Unique : List Secret → Type 0
Unique [] = Unit
Unique (r ∷ rows) = All (λ s. (s.path ≢ r.path) × (s.id ≢ r.id)) rows × Unique rows

pub secret_at-path :
    (q : Text) (rows : List Secret) (r : Secret) → secret_at q rows ≡ some r → r.path ≡ q
unfolding secret_at
secret_at-path q [] r h = cc
secret_at-path q (s ∷ rows) r h = ground (arith, secret_at-path q rows r, text_beq_iff s.path q)
