-- ===== src/Store/Secrets/Vault.antt =====
-- The secrets table as its callers see it: a map from paths to contents, with no numbers, times or
-- order of rows.
pub mod Refines
use scopuli.Prelude.{
  Bytes, List, Option, Result, Text, [], err, if◌then◌else◌, nat_eq, none, ok, some, text_eq, ℕ,
  ◌==◌, ◌∷◌,
}
use scopuli.Env.{Env}
use scopuli.Store.Database.{Secret, StoreError, World, not_found}
use scopuli.Store.Secrets.{delete_secret, get_secret, put_secret, secret_at}

-- What a caller reads of a secret.
pub record Contents : Type 0 where
  pub label : Option Text
  pub ciphertext : Bytes
  pub nonce : Bytes
  pub aad : Bytes
  pub tags : Text
  pub description : Text
  pub metadata : Text
  pub version : ℕ

abbrev pub contents_of : Secret → Contents
contents_of sec = record {
  label = sec.label;
  ciphertext = sec.ciphertext;
  nonce = sec.nonce;
  aad = sec.aad;
  tags = sec.tags;
  description = sec.description;
  metadata = sec.metadata;
  version = sec.version;
}

abbrev pub Vault : Type 0
Vault = Text → Option Contents

pub data Call : Type 0 where
  put_call : Secret → Call
  delete_call get_call : Text → Call

pub data Reply : Type 0 where
  done missing broken_down : Reply
  found : Contents → Reply

-- The calls on a map.
unfoldable pub update_vault : Text → Option Contents → Vault → Vault
update_vault path c v q = if path == q then c else v q

abbrev pub found_or_missing : Option Contents → Reply
found_or_missing none = missing
found_or_missing (some c) = found c

abbrev pub done_or_missing : Option Contents → Reply
done_or_missing none = missing
done_or_missing (some c) = done

unfoldable pub on_vault : Call → Vault → Reply × Vault
unfolding update_vault
on_vault (put_call sec) v = (done, update_vault sec.path (some (contents_of sec)) v)
on_vault (delete_call path) v = (done_or_missing (v path), update_vault path none v)
on_vault (get_call path) v = (found_or_missing (v path), v)

unfoldable pub replay : List Call → Vault → List Reply × Vault
unfolding on_vault
replay [] v = ([], v)
replay (c ∷ calls) v =
    let here = on_vault c v in let rest = replay calls here.1 in (here.0 ∷ rest.0, rest.1)

abbrev pub written_reply : Result StoreError (Unit {0}) → Reply
written_reply (ok u) = done
written_reply (err not_found) = missing
written_reply (err e) = broken_down

abbrev pub read_reply : Result StoreError Secret → Reply
read_reply (ok sec) = found (contents_of sec)
read_reply (err not_found) = missing
read_reply (err e) = broken_down

abbrev pub contents_at : Option Secret → Option Contents
contents_at none = none
contents_at (some sec) = some (contents_of sec)

-- What a world holds for its callers.
abbrev pub view : World → Vault
view w q = contents_at (secret_at q w.db.secrets)

module _ ⦃env : Env⦄ where
  -- The calls on the table.
  unfoldable pub on_table : Call → World → Reply × World
  unfolding put_secret delete_secret get_secret
  on_table (put_call sec) w = (written_reply (put_secret sec w).0, (put_secret sec w).1)
  on_table (delete_call path) w = (written_reply (delete_secret path w).0, (delete_secret path w).1)
  on_table (get_call path) w = (read_reply (get_secret path w).0, (get_secret path w).1)

  unfoldable pub run : List Call → World → List Reply × World
  unfolding on_table
  run [] w = ([], w)
  run (c ∷ calls) w =
      let here = on_table c w in let rest = run calls here.1 in (here.0 ∷ rest.0, rest.1)
