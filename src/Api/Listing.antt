-- ===== src/Api/Listing.antt =====
-- What handleListSecrets shows of the secrets.
use scopuli.Prelude.{
  All, All-append, Bool, Bool-cases, Bytes, Exec, List, Option, Result-cases, Text, [], arith,
  attempt, codes, false, inl, inr, length, length-append, length-take-le, none, ok, pure, refl,
  some, subst, take, true, ◌++◌, ◌>>=◌, ◌or_fail◌, ◌∷◌, ◌≡◌, ◌≤◌,
}
use scopuli.Api.{
  Response, SecretItem, Server, aad_of, audit_append, can_access_secret, error_response,
  mask_secret_value, ok_response, open_row, secret_items,
}
use scopuli.Api.SecretReads.{handle_list_secrets, list_action, list_row, list_rows, secret_item}
use scopuli.Auth.{Principal}
use scopuli.Env.{Env}
use scopuli.Store.Database.{Secret, World}
use scopuli.Store.Secrets.{get_secret, list_secret_paths}
use scopuli.Store.Secrets.Put.{get_secret-row}
use scopuli.Store.Secrets.Rows.{secret_at-path}

-- Whatever the method returns has the property.
pub record Yields {E A : Type 0} (P : A → Type 0) (m : Exec World E A) : Type 0 where
  pub yielded : (w : World) (a : A) → (m w).0 ≡ ok a → P a

pub Yields-bind :
    {E A B : Type 0} (Q : A → Type 0) (P : B → Type 0) (m : Exec World E A) (f : A → Exec World E B)
    → Yields Q m
    → ((a : A) → Q a → Yields P (f a))
    → Yields P (m >>= f)
Yields-bind Q P m f h k = record {
  yielded = λ w b e. elim (Result-cases (m w).0) [
    | inl (a, g) ↦ (k a (h.yielded w a g)).yielded (m w).1 b (rw g at e)
    | inr (x, g) ↦ absurd (cc (rw g at e))
  ];
}

pub Yields-pure :
    {A : Type 0} (E : Type 0) (P : A → Type 0) (a : A) → P a → Yields P (pure {E = E} a)
Yields-pure E P a h = record { yielded = λ w b e. subst P (ground (arith, e)) h }

pub Yields-any : {E A : Type 0} (m : Exec World E A) → Yields (λ _. Unit {0}) m
Yields-any m = record { yielded = λ w a e. tt }

-- The item is of a secret in scope, and shows its value only where that was asked for.
pub record Shown (p : Principal) (reveal : Bool) (item : SecretItem) : Type 0 where
  pub in_scope : can_access_secret (some p) item.path ≡ true
  pub hidden : reveal ≡ false → item.value ≡ []
  pub masked : length item.value_preview ≤ 9

-- A row that was found has the path that was asked for.
abbrev HasPath : Text → Option Secret → Type 0
HasPath path none = Unit
HasPath path (some sec) = sec.path ≡ path

length-mask_secret_value : (v : Bytes) → length (mask_secret_value v) ≤ 9
unfolding mask_secret_value
length-mask_secret_value v =
    ground (arith, length-append (take 6 v) (codes "***"), length-take-le 6 v)

secret_item-Shown :
    (p : Principal) (reveal : Bool) (sec : Secret) (pt : Bytes)
    → can_access_secret (some p) sec.path ≡ true
    → Shown p reveal (secret_item reveal sec pt)
unfolding secret_item
secret_item-Shown p true sec pt h = record { in_scope = h; hidden = λ e. cc; masked = omega arith }
secret_item-Shown p false sec pt h = record {
  in_scope = h;
  hidden = λ e. refl;
  masked = length-mask_secret_value pt;
}

module _ ⦃env : Env⦄ where
  get_secret-HasPath :
      (E : Type 0) (path : Text) → Yields (HasPath path) (attempt {F = E} (get_secret path))
  get_secret-HasPath E path = record {
    yielded = λ w o e. elim (Result-cases (get_secret path w).0) [
      | inl (sec, f) ↦
          let same : some sec ≡ o = ground (arith, rw f at e) in
          subst (HasPath path) same
            (secret_at-path path w.db.secrets sec (get_secret-row path w sec f))
      | inr (x, f) ↦ let same : none ≡ o = ground (arith, rw f at e) in subst (HasPath path) same tt
    ];
  }

  list_row-Shown :
      (E : Type 0) (s : Server) (p : Principal) (reveal : Bool) (path : Text) (row : Option Secret)
      → can_access_secret (some p) path ≡ true
      → HasPath path row
      → Yields (All (Shown p reveal)) (list_row {E = E} s p reveal path row)
  unfolding list_row
  list_row-Shown E s p reveal path none h e = Yields-pure E _ [] tt
  list_row-Shown E s p reveal path (some sec) h e =
      elim (Result-cases (open_row s.kek sec (aad_of sec))) [
        | inl (pt, f) ↦
            rw (list_row, f)
              (Yields-pure E (All (Shown p reveal)) (secret_item reveal sec pt ∷ [])
                (secret_item-Shown p reveal sec pt (rw e h), tt))
        | inr (x, f) ↦
            rw (list_row, f)
              (Yields-bind _ _ (audit_append s p _ path _) _ (Yields-any _)
                (λ _ _. Yields-pure E _ [] tt))
      ]

  list_rows-Shown :
      (E : Type 0) (s : Server) (p : Principal) (reveal : Bool) (paths : List Text)
      → Yields (All (Shown p reveal)) (list_rows {E = E} s p reveal paths)
  unfolding list_rows
  list_rows-Shown E s p reveal [] = Yields-pure E _ [] tt
  list_rows-Shown E s p reveal (path ∷ paths) =
      elim (Bool-cases (can_access_secret (some p) path)) [
        | inr e ↦ rw e (list_rows-Shown E s p reveal paths)
        | inl e ↦ rw e (
            Yields-bind _ _ (attempt (get_secret path)) _ (get_secret-HasPath E path) (λ row h.
              Yields-bind _ _ (list_row s p reveal path row) _
                (list_row-Shown E s p reveal path row e h)
                (λ item k.
                  Yields-bind _ _ (list_rows s p reveal paths) _
                    (list_rows-Shown E s p reveal paths)
                    (λ items l. Yields-pure E _ (item ++ items) (All-append _ item items k l)))))
      ]

  -- Every item that GET /api/secrets answers is of a secret that the principal's scope admits; unless
  -- the values were asked for it has no value, and its preview is never longer than nine bytes.
  pub handle_list_secrets-Shown :
      (s : Server) (p : Principal) (prefix : Text) (reveal : Bool) (w : World) (r : Response)
      → (handle_list_secrets s p prefix reveal w).0 ≡ ok r
      → (items : List SecretItem) × (r ≡ ok_response (secret_items items))
        × All (Shown p reveal) items
  unfolding handle_list_secrets
  handle_list_secrets-Shown s p prefix reveal w r h =
      (Yields-bind (λ _. Unit)
          (λ r.
            (items : List SecretItem) × (r ≡ ok_response (secret_items items))
            × All (Shown p reveal) items)
          (list_secret_paths prefix or_fail λ _. error_response 500 "list") _ (Yields-any _)
          (λ paths _.
            Yields-bind (All (Shown p reveal)) _ (list_rows s p reveal paths) _
              (list_rows-Shown Response s p reveal paths)
              (λ items k.
                Yields-bind (λ _. Unit) _ (audit_append s p (list_action reveal) [] (codes "ok")) _
                  (Yields-any _)
                  (λ _ _.
                    Yields-pure Response _ (ok_response (secret_items items))
                      (items, refl, k))))).yielded
        w r h
