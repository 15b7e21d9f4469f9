-- ===== src/Ui/Session/Expiry.antt =====
-- internal/api/ui_session.go: what verifyUICookie has established of a payload.
use scopuli.Prelude.{
  Bool-cases, Option-cases, Text, [], ap, ap₂, arith, codes, inl, inr, ltb, nat_eq, negsuc, pos,
  refl, some, sym, text_eq, ℕ, ℤ, ≡_of_same, ◌!=◌, ◌++◌, ◌∙◌, ◌∷◌, ◌≡◌, ◌≢◌, ◌≤◌,
}
use scopuli.Strings.{cut}
use scopuli.Strings.Decimal.{parse_int64}
use scopuli.Strings.Laws.{cut-join}
use scopuli.Ui.Session.{session_token, split_three, token_of_fields, token_until}

-- The payload is `v1|<expiry>|<token>`, where the expiry is a decimal numeral, and the second in
-- which it is checked is not past it.
pub record Unexpired (payload token : Text) (second : ℕ) : Type 0 where
  pub expiry : Text
  pub until : ℕ
  pub written : payload ≡ codes "v1" ++ b'|' ∷ (expiry ++ b'|' ∷ token)
  pub is_numeral : parse_int64 expiry ≡ some (pos until)
  pub not_past : second ≤ until

token_until-in_time :
    (exp : ℤ) (second : ℕ) (last token : Text)
    → token_until (some exp) second last ≡ token
    → token ≢ []
    → (until : ℕ) × (exp ≡ pos until) × (second ≤ until) × (last ≡ token)
token_until-in_time (negsuc e) second last token h n = absurd (n (sym h))
token_until-in_time (pos e) second last token h n = elim (Bool-cases (ltb e second)) [
  | inl b ↦ absurd (n (sym (rw b at h)))
  | inr b ↦ (e, refl, ground arith, rw b at h)
]

fields-Unexpired :
    (second : ℕ) (payload version expiry last token : Text)
    → token_of_fields second (some (version, expiry, last)) ≡ token
    → token ≢ []
    → payload ≡ version ++ b'|' ∷ (expiry ++ b'|' ∷ last)
    → Unexpired payload token second
unfolding token_of_fields
fields-Unexpired second payload version expiry last token h n w =
    elim (Bool-cases (version != codes "v1")) [
      | inl e ↦ absurd (n (sym (rw (token_of_fields, e) at h)))
      | inr e ↦ elim (Option-cases (parse_int64 expiry)) [
        | inl f ↦ absurd (n (sym (rw (token_of_fields, e, f) at h)))
        | inr (exp, f) ↦
            let (u, same, late, whole) =
              token_until-in_time exp second last token (rw (token_of_fields, e, f) at h) n in
            record {
              expiry = expiry;
              until = u;
              written =
                  w
                  ∙ ap₂ (λ x y. x ++ b'|' ∷ (expiry ++ b'|' ∷ y)) (≡_of_same version (codes "v1") e)
                      whole;
              is_numeral = f ∙ ap some same;
              not_past = late;
            }
      ]
    ]

pub session_token-Unexpired :
    (second : ℕ) (payload token : Text)
    → session_token second payload ≡ token
    → token ≢ []
    → Unexpired payload token second
unfolding session_token split_three
session_token-Unexpired second payload token h n = elim (Option-cases (cut b'|' payload)) [
  | inl e ↦ absurd (n (sym (rw (session_token, split_three, e) at h)))
  | inr ((version, rest), e) ↦ elim (Option-cases (cut b'|' rest)) [
    | inl f ↦ absurd (n (sym (rw (session_token, split_three, e, f) at h)))
    | inr ((expiry, last), f) ↦
        let fields : token_of_fields second (some (version, expiry, last)) ≡ token =
          rw (session_token, split_three, e, f) at h in
        fields-Unexpired second payload version expiry last token fields n (
          cut-join b'|' payload version rest e
          ∙ ap (λ r. version ++ b'|' ∷ r) (cut-join b'|' rest expiry last f))
  ]
]
