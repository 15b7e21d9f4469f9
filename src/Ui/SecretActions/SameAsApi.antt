-- ===== src/Ui/SecretActions/SameAsApi.antt =====
-- Saving a secret in the console writes what the REST API writes.
use scopuli.Prelude.{
  Bool, Bool-cases, Bytes, Exec, List, Option, Text, [], ap, attempt, codes, fail_if, false, inl,
  inr, lift, nat_eq, none, ok, pure, refl, some, text_eq, true, ◌==◌, ◌>>=◌, ◌>>◌, ◌or_else◌,
  ◌or_fail◌, ◌≡◌,
}
use scopuli.Api.{
  Handler, Response, Server, append_entry, audit_append, bad_limits, can_access_secret,
  error_response, no_content,
}
use scopuli.Api.Effects.{append_entry-some}
use scopuli.Api.Secrets.{
  PutSecretReq, check_scope, encrypt_and_put, handle_put_secret, next_version, request_metadata,
  written_secret,
}
use scopuli.Audit.{Entry, Logger}
use scopuli.Auth.{Principal, is_read_only, operator}
use scopuli.Crypto.{aad_secret, seal}
use scopuli.Env.{Env, TextMap}
use scopuli.Metadata.{normalize_tags, validate_description}
use scopuli.Store.Database.{Secret, World, now}
use scopuli.Store.Keys.{is_some}
use scopuli.Store.Secrets.{get_secret, put_secret}
use scopuli.Store.Secrets.Healthy.{after_event}
use scopuli.Strings.{join, trim_space}
use scopuli.Ui.{UiRequest, UiResponse, says, says_limit}
use scopuli.Ui.EndsAs.{
  Agrees, Agrees-attempt, Agrees-unit, EndsAs, EndsAs-bind, EndsAs-error, EndsAs-last, EndsAs-left,
  EndsAs-lift, EndsAs-pure, EndsAs-right,
}
use scopuli.Ui.SecretActions.{
  SecretForm, fail_secret, fail_secret_if, form_metadata, form_path, save_secret, seal_and_store,
  secret_form_data, value_to_store,
}

module _ ⦃env : Env⦄ where
  Agrees-now : (F G : Type 0) → Agrees (now {E = F}) (now {E = G})
  unfolding now
  Agrees-now F G = record { agree = λ w a e. ap (λ y. (ok y, after_event w)) (cc) }

  append_entry_state :
      (F G : Type 0) (l : Option Logger) (e : Entry) (w : World)
      → append_entry {E = G} l e w ≡ (ok tt, (append_entry {E = F} l e w).1)
  append_entry_state F G none e w = unfold append_entry in refl
  append_entry_state F G (some l) e w =
      rw (append_entry-some F l e w, append_entry-some G l e w) refl

  audit_append_state :
      (F G : Type 0) (s : Server) (p : Principal) (a path r : Text) (w : World)
      → audit_append {E = G} s p a path r w ≡ (ok tt, (audit_append {E = F} s p a path r w).1)
  unfolding audit_append
  audit_append_state F G s p a path r w = elim (Bool-cases (is_some s.audit)) [
    | inl e ↦ rw e (append_entry_state F G s.audit _ _)
    | inr e ↦ rw e refl
  ]

  Agrees-audit_append :
      (F G : Type 0) (s : Server) (p : Principal) (a path r : Text)
      → Agrees (audit_append {E = F} s p a path r) (audit_append {E = G} s p a path r)
  Agrees-audit_append F G s p a path r = record {
    agree = λ w u e. audit_append_state F G s p a path r w;
  }

  -- Encrypting and storing in the two handlers.
  seal_and_store_agrees :
      (s : Server) (r : UiRequest) (p : Principal) (f : SecretForm) (tags meta : Text)
      (value : Bytes) (existing : Option Secret)
      → EndsAs
          (encrypt_and_put s
            (form_path f)
            (trim_space f.label)
            tags
            f.description
            meta
            value
            existing)
          (seal_and_store s r p f tags meta value existing)
  unfolding encrypt_and_put seal_and_store
  seal_and_store_agrees s r p f tags meta value existing =
      EndsAs-bind now now _ _ (Agrees-now Response UiResponse) λ t.
        let sealing =
          seal s.kek value
            (aad_secret (form_path f) f.description (next_version existing f.description)) in
        EndsAs-error sealing (λ _. error_response 500 "encrypt failed")
          (λ _. fail_secret s r p f (says (codes "Encryption failed."))) _ _
          λ sealed.
            EndsAs-last
              (put_secret (
                written_secret existing (form_path f) (trim_space f.label) tags f.description meta t
                  (aad_secret (form_path f) f.description (next_version existing f.description))
                  sealed))
              (λ _. error_response 500 "store")
              (λ _. fail_secret s r p f (says (codes "The secret could not be stored.")))

  Agrees-empty_path :
      (s : Server) (r : UiRequest) (p : Principal) (f : SecretForm) (b : Bool) (msg : Text)
      → Agrees (fail_if b (error_response 400 "path required")) (fail_secret_if s r p f b msg)
  unfolding fail_secret_if
  Agrees-empty_path s r p f true msg = record { agree = λ w a e. absurd (cc) }
  Agrees-empty_path s r p f false msg = record { agree = λ w a e. refl }

  -- The request of the REST API with the fields of a form.
  abbrev pub request_of : SecretForm → List Text → Option (TextMap Text) → PutSecretReq
  request_of f tags metadata = record {
    path = form_path f;
    value = f.value;
    label = trim_space f.label;
    tags = tags;
    description = f.description;
    metadata = metadata;
  }

  stored :
      (s : Server) (r : UiRequest) (p : Principal) (f : SecretForm) (tags meta : Text)
      (existing : Option Secret)
      → EndsAs
          (do
            encrypt_and_put s
                (form_path f)
                (trim_space f.label)
                tags
                f.description
                meta
                f.value
                existing
            audit_append s p (codes "write") (form_path f) (codes "ok")
            pure no_content)
          (do
            seal_and_store s r p f tags meta f.value existing
            audit_append s p (codes "write") (form_path f) (codes "ok")
            pure (form_path f))
  stored s r p f tags meta existing =
      EndsAs-bind _ _ _ _
        (Agrees-unit _ _ (seal_and_store_agrees s r p f tags meta f.value existing))
        λ _.
          EndsAs-bind _ _ _ _
            (Agrees-audit_append Response UiResponse s p (codes "write") (form_path f) (codes "ok"))
            λ _. EndsAs-pure no_content (form_path f)

  -- What follows the tags in the two handlers.
  put_after_tags : Server → Principal → SecretForm → Text → Option (TextMap Text) → Handler
  put_after_tags s p f tags metadata = do
    lift (validate_description f.description) or_fail bad_limits
    meta ← lift (request_metadata metadata) or_fail bad_limits
    existing ← attempt (get_secret (form_path f))
    encrypt_and_put s (form_path f) (trim_space f.label) tags f.description meta f.value existing
    audit_append s p (codes "write") (form_path f) (codes "ok")
    pure no_content

  save_after_tags : Server → UiRequest → Principal → SecretForm → Text → Exec World UiResponse Text
  save_after_tags s r p f tags = do
    lift (validate_description f.description) or_else λ e. fail_secret s r p f (says_limit e)
    meta ←
        lift (form_metadata (trim_space f.metadata)) or_else λ e. fail_secret s r p f (says_limit e)
    existing ← attempt (get_secret (form_path f))
    value ← lift (value_to_store s f.value existing) or_else λ e. fail_secret s r p f (says e)
    seal_and_store s r p f tags meta value existing
    audit_append s p (codes "write") (form_path f) (codes "ok")
    pure (form_path f)

  after_tags :
      (s : Server) (r : UiRequest) (p : Principal) (f : SecretForm) (tags : Text)
      (metadata : Option (TextMap Text))
      → (f.value == []) ≡ false
      → request_metadata metadata ≡ form_metadata (trim_space f.metadata)
      → EndsAs (put_after_tags s p f tags metadata) (save_after_tags s r p f tags)
  unfolding put_after_tags save_after_tags value_to_store
  after_tags s r p f tags metadata v m =
      EndsAs-lift (validate_description f.description) (validate_description f.description)
        bad_limits (λ e. fail_secret s r p f (says_limit e)) _ _ refl
        λ _.
          EndsAs-lift (request_metadata metadata) (form_metadata (trim_space f.metadata)) bad_limits
            (λ e. fail_secret s r p f (says_limit e)) _ _ m
            λ meta.
              EndsAs-bind (attempt (get_secret (form_path f))) (attempt (get_secret (form_path f)))
                _ _ (Agrees-attempt Response UiResponse (get_secret (form_path f)))
                λ existing.
                  EndsAs-right _
                    (lift (value_to_store s f.value existing) or_else λ e.
                      fail_secret s r p f (says e))
                    f.value _ (λ w. rw v refl) (stored s r p f tags meta existing)

  check_scope_operator :
      (s : Server) (p : Principal) (path : Text) (w : World)
      → p.kind ≡ operator
      → check_scope s p path w ≡ (ok tt, w)
  unfolding check_scope can_access_secret
  check_scope_operator s p path w o = rw o refl

  save_secret_agrees :
      (s : Server) (r : UiRequest) (p : Principal) (f : SecretForm) (tags : List Text)
      (metadata : Option (TextMap Text))
      → p.kind ≡ operator
      → (f.value == []) ≡ false
      → normalize_tags (join b',' tags) ≡ normalize_tags (trim_space f.tags)
      → request_metadata metadata ≡ form_metadata (trim_space f.metadata)
      → EndsAs (handle_put_secret s p (some (request_of f tags metadata))) (save_secret s r p f)
  unfolding handle_put_secret save_secret put_after_tags save_after_tags is_read_only
      secret_form_data
  save_secret_agrees s r p f tags metadata o v t m =
      let path = form_path f in
      EndsAs-left (fail_if (is_read_only p) (error_response 403 "read-only key")) tt _ _
        (λ w. rw (is_read_only, o) refl)
        (EndsAs-bind (fail_if (path == []) (error_response 400 "path required"))
          (fail_secret_if s r p f (path == [])
            (codes "A path is required, e.g. aws/prod/stripe_key."))
          _ _ (Agrees-empty_path s r p f (path == []) _)
          λ _.
            EndsAs-left (check_scope s p path) tt
              (λ _. lift (normalize_tags (join b',' tags)) or_fail bad_limits >>= λ out.
                put_after_tags s p f out metadata)
              _ (λ w. check_scope_operator s p path w o)
              (EndsAs-lift (normalize_tags (join b',' tags)) (normalize_tags (trim_space f.tags))
                bad_limits (λ e. fail_secret s r p f (says_limit e)) _ _ t
                λ out. after_tags s r p f out metadata v m))

  -- If handlePutSecret accepts an operator's request, then handleUISecretSave, for a form that is not
  -- without a value and whose path (the original path where that is empty) and label, both trimmed,
  -- description and value are those of the request, and whose tags and metadata normalize to the same, writes exactly what
  -- handlePutSecret writes, audit entry included, before it renders the page again.
  pub save_secret-handle_put_secret :
      (s : Server) (r : UiRequest) (p : Principal) (f : SecretForm) (tags : List Text)
      (metadata : Option (TextMap Text)) (w : World) (a : Response)
      → p.kind ≡ operator
      → (f.value == []) ≡ false
      → normalize_tags (join b',' tags) ≡ normalize_tags (trim_space f.tags)
      → request_metadata metadata ≡ form_metadata (trim_space f.metadata)
      → (handle_put_secret s p (some (request_of f tags metadata)) w).0 ≡ ok a
      → (path : Text) × (save_secret s r p f w
          ≡ (ok path, (handle_put_secret s p (some (request_of f tags metadata)) w).1))
  save_secret-handle_put_secret s r p f tags metadata w a o v t m e =
      (save_secret_agrees s r p f tags metadata o v t m).ends w a e
