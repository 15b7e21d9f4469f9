-- ===== src/Api/Finding.antt =====
-- What handleSearchSecrets shows of the secrets.
use scopuli.Prelude.{
  All, All-append, Bool-cases, List, Option, Text, [], attempt, codes, fail_if, inl, inr, nat_eq,
  none, ok, pos, refl, some, text_eq, true, ℕ, ◌++◌, ◌==◌, ◌or_fail◌, ◌∷◌, ◌≡◌,
}
use scopuli.Api.{
  FoundSecret, Response, Server, audit_append, can_access_secret, error_response, found_secrets,
  ok_response,
}
use scopuli.Api.Listing.{Yields, Yields-any, Yields-bind, Yields-pure}
use scopuli.Api.SecretReads.{handle_search_secrets, search_rows, visible}
use scopuli.Auth.{Principal}
use scopuli.Env.{Env}
use scopuli.Store.Database.{Secret, World}
use scopuli.Store.Secrets.{search_secrets, secret_by_id}

visible-in_scope :
    (p : Principal) (row : Option Secret)
    → All (λ item. can_access_secret (some p) item.path ≡ true) (visible p row)
unfolding visible
visible-in_scope p none = tt
visible-in_scope p (some sec) = elim (Bool-cases (can_access_secret (some p) sec.path)) [
  | inl e ↦ rw e (e, tt)
  | inr e ↦ rw e tt
]

module _ ⦃env : Env⦄ where
  search_rows-in_scope :
      (E : Type 0) (p : Principal) (ids : List ℕ)
      → Yields
          (All (λ item. can_access_secret (some p) item.path ≡ true))
          (search_rows {E = E} p ids)
  unfolding search_rows
  search_rows-in_scope E p [] = Yields-pure E _ [] tt
  search_rows-in_scope E p (i ∷ ids) =
      Yields-bind (λ _. Unit) _ (attempt (secret_by_id i)) _ (Yields-any _)
        (λ row _. Yields-bind _ _ (search_rows p ids) _ (search_rows-in_scope E p ids) (λ items h.
          Yields-pure E _ (visible p row ++ items)
            (All-append _ (visible p row) items (visible-in_scope p row) h)))

  abbrev Found : Principal → Response → Type 0
  Found p r =
      (items : List FoundSecret) × (r ≡ ok_response (found_secrets items))
      × All (λ item. can_access_secret (some p) item.path ≡ true) items

  -- Whatever the full-text index finds, every item that GET /api/secrets/search answers is of a
  -- secret that the principal's scope admits.
  pub handle_search_secrets-in_scope :
      (s : Server) (p : Principal) (q : Text) (w : World) (r : Response)
      → (handle_search_secrets s p q w).0 ≡ ok r
      → (items : List FoundSecret) × (r ≡ ok_response (found_secrets items))
        × All (λ item. can_access_secret (some p) item.path ≡ true) items
  unfolding handle_search_secrets
  handle_search_secrets-in_scope s p q w r h =
      (Yields-bind (λ _. Unit) (Found p) (fail_if (q == []) _) _ (Yields-any _)
          (λ _ _.
            Yields-bind (λ _. Unit) (Found p)
              (search_secrets q (pos 50) or_fail λ _. error_response 400 "search") _ (Yields-any _)
              (λ ids _.
                Yields-bind _ (Found p) (search_rows p ids) _ (search_rows-in_scope Response p ids)
                  (λ items k.
                    Yields-bind (λ _. Unit) (Found p)
                      (audit_append s p (codes "search") q (codes "ok")) _ (Yields-any _)
                      (λ _ _.
                        Yields-pure Response (Found p) (ok_response (found_secrets items))
                          (items, refl, k)))))).yielded
        w r h
