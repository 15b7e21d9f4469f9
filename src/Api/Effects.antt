-- ===== src/Api/Effects.antt =====
-- What the helpers of the handlers do to the state: auditing never fails and touches one table only.
use scopuli.Prelude.{
  Bool-cases, Option, Text, arith, continue-ignore, inl, inr, none, ok, refl, some, ◌≡◌,
}
use scopuli.Api.{Server, append_entry, audit_append}
use scopuli.Audit.{Entry, Logger, append}
use scopuli.Auth.{Principal}
use scopuli.Env.{Env}
use scopuli.Store.Database.{Database, World}
use scopuli.Store.Keys.{is_some}

-- Everything but the audit log.
pub record SameTables (a b : Database) : Type 0 where
  pub meta : a.meta ≡ b.meta
  pub operators : a.operators ≡ b.operators
  pub secrets : a.secrets ≡ b.secrets
  pub keys : a.keys ≡ b.keys
  pub secrets_fts : a.secrets_fts ≡ b.secrets_fts
  pub keys_fts : a.keys_fts ≡ b.keys_fts

pub SameTables-refl : (a : Database) → SameTables a a
SameTables-refl a = record {
  meta = refl;
  operators = refl;
  secrets = refl;
  keys = refl;
  secrets_fts = refl;
  keys_fts = refl;
}

module _ ⦃env : Env⦄ where
  append-SameTables : (l : Logger) (e : Entry) (w : World) → SameTables (append l e w).1.db w.db
  unfolding append
  append-SameTables l e w = ground arith

  pub append_entry-some :
      (E : Type 0) (l : Logger) (e : Entry) (w : World)
      → append_entry {E = E} (some l) e w ≡ (ok tt, (append l e w).1)
  unfolding append_entry
  append_entry-some E l e w = continue-ignore (append l e w)

  append_entry_ok :
      {E : Type 0} (l : Option Logger) (e : Entry) (w : World)
      → (append_entry {E = E} l e w).0 ≡ ok tt
  append_entry_ok none e w = unfold append_entry in refl
  append_entry_ok {E} (some l) e w = rw (append_entry-some E l e w)

  append_entry-SameTables :
      (E : Type 0) (l : Option Logger) (e : Entry) (w : World)
      → SameTables (append_entry {E = E} l e w).1.db w.db
  append_entry-SameTables E none e w = unfold append_entry in SameTables-refl w.db
  append_entry-SameTables E (some l) e w = rw (append_entry-some E l e w) (append-SameTables l e w)

  pub audit_append_ok :
      {E : Type 0} (s : Server) (p : Principal) (a path r : Text) (w : World)
      → (audit_append {E = E} s p a path r w).0 ≡ ok tt
  unfolding audit_append
  audit_append_ok s p a path r w = elim (Bool-cases (is_some s.audit)) [
    | inl e ↦ rw e (append_entry_ok s.audit _ _)
    | inr e ↦ rw e
  ]

  pub audit_append-SameTables :
      (E : Type 0) (s : Server) (p : Principal) (a path r : Text) (w : World)
      → SameTables (audit_append {E = E} s p a path r w).1.db w.db
  unfolding audit_append
  audit_append-SameTables E s p a path r w = elim (Bool-cases (is_some s.audit)) [
    | inl e ↦ rw e (append_entry-SameTables E s.audit _ _)
    | inr e ↦ rw e (SameTables-refl w.db)
  ]
