-- ===== src/Ui/EndsAs.antt =====
-- Two methods that do the same whenever the first succeeds, though they answer errors in two ways.
use scopuli.Prelude.{
  Exec, Option, Result, Result-cases, ap, attempt, continue-ok, continue_ok, err, ignore, inl, inr,
  lift, map_err, ok, pure, recover, refl, subst, sym, ◌>>=◌, ◌or_else◌, ◌or_fail◌, ◌∙◌, ◌≡◌,
}
use scopuli.Store.Database.{World}
use scopuli.Store.Secrets.Vault.{run}

-- Whenever the first method succeeds, the second does, with the same value and the same state.
pub record Agrees {E F A : Type 0} (m : Exec World E A) (n : Exec World F A) : Type 0 where
  pub agree : (w : World) (a : A) → (m w).0 ≡ ok a → n w ≡ (ok a, (m w).1)

-- The same without the value.
pub record EndsAs {E F A B : Type 0} (m : Exec World E A) (n : Exec World F B) : Type 0 where
  pub ends : (w : World) (a : A) → (m w).0 ≡ ok a → (b : B) × (n w ≡ (ok b, (m w).1))

pub EndsAs-bind :
    {E F A B C : Type 0} (m : Exec World E A) (n : Exec World F A) (f : A → Exec World E B)
    (g : A → Exec World F C)
    → Agrees m n
    → ((a : A) → EndsAs (f a) (g a))
    → EndsAs (m >>= f) (n >>= g)
EndsAs-bind m n f g h k = record {
  ends = λ w b e. elim (Result-cases (m w).0) [
    | inr (x, q) ↦ absurd (cc (rw q at e))
    | inl (a, q) ↦
        let (c, run) = (k a).ends (m w).1 b (rw q at e) in
        (
          c,
          continue_ok (n w) g (h.agree w a q)
              ∙ run
              ∙ ap (λ v. (ok c, v)) (sym (ap (λ r. r.1) (continue-ok (m w) f q))),
        )
  ];
}

pub EndsAs-pure : {E F A B : Type 0} (a : A) (b : B) → EndsAs (pure {E = E} a) (pure {E = F} b)
EndsAs-pure a b = record { ends = λ w x e. (b, refl) }

-- An error is answered in two ways.
error_agrees :
    {E F G A : Type 0} (r : Result E A × World) (f : E → F) (g : E → Exec World G A) (a : A)
    → (map_err f r).0 ≡ ok a
    → recover r g ≡ (ok a, (map_err f r).1)
error_agrees (ok x, v) f g a e = ap (λ y. (ok y, v)) (cc)
error_agrees (err x, v) f g a e = absurd (cc)

Agrees-error :
    {E F G A : Type 0} (m : Exec World E A) (f : E → F) (g : E → Exec World G A)
    → Agrees (m or_fail f) (m or_else g)
Agrees-error m f g = record { agree = λ w a e. error_agrees (m w) f g a e }

pub EndsAs-error :
    {E F G A B C : Type 0} (m : Exec World E A) (f : E → F) (g : E → Exec World G A)
    (k : A → Exec World F B) (l : A → Exec World G C)
    → ((a : A) → EndsAs (k a) (l a))
    → EndsAs (m or_fail f >>= k) (m or_else g >>= l)
EndsAs-error m f g k l h = EndsAs-bind (m or_fail f) (m or_else g) k l (Agrees-error m f g) h

pub EndsAs-last :
    {E F G A : Type 0} (m : Exec World E A) (f : E → F) (g : E → Exec World G A)
    → EndsAs (m or_fail f) (m or_else g)
EndsAs-last m f g = record { ends = λ w a e. (a, error_agrees (m w) f g a e) }

-- A step that changes nothing, on either side.
pub EndsAs-left :
    {E F A B C : Type 0} (m : Exec World E A) (a : A) (k : A → Exec World E B) (n : Exec World F C)
    → ((w : World) → m w ≡ (ok a, w))
    → EndsAs (k a) n
    → EndsAs (m >>= k) n
EndsAs-left m a k n h same = record {
  ends = λ w b e. let (c, run) = same.ends w b (rw (h w) at e) in (c, rw (h w) run);
}

pub EndsAs-right :
    {E F A B C : Type 0} (m : Exec World E A) (n : Exec World F B) (b : B) (k : B → Exec World F C)
    → ((w : World) → n w ≡ (ok b, w))
    → EndsAs m (k b)
    → EndsAs m (n >>= k)
EndsAs-right m n b k h same = record {
  ends = λ w a e. let (c, run) = same.ends w a e in (c, rw (h w) run);
}

pub EndsAs-lift :
    {E F G A B C : Type 0} (x y : Result E A) (f : E → F) (g : E → Exec World G A)
    (k : A → Exec World F B) (l : A → Exec World G C)
    → x ≡ y
    → ((a : A) → EndsAs (k a) (l a))
    → EndsAs (lift x or_fail f >>= k) (lift y or_else g >>= l)
EndsAs-lift x y f g k l e h =
    subst (λ z. EndsAs (lift x or_fail f >>= k) (lift z or_else g >>= l)) e
      (EndsAs-error (lift x) f g k l h)

-- With no value to compare, ending alike is agreeing.
pub Agrees-unit :
    {E F : Type 0} (m : Exec World E (Unit {0})) (n : Exec World F (Unit {0}))
    → EndsAs m n
    → Agrees m n
Agrees-unit m n h = record { agree = λ w a e. (h.ends w a e).1 }

attempt_agrees :
    {E F G A : Type 0} (r : Result E A × World) (a : Option A)
    → (ignore {F = F} r).0 ≡ ok a
    → ignore {F = G} r ≡ (ok a, (ignore {F = F} r).1)
attempt_agrees (ok x, v) a e = ap (λ y. (ok y, v)) (cc)
attempt_agrees (err x, v) a e = ap (λ y. (ok y, v)) (cc)

pub Agrees-attempt :
    (F G : Type 0) {E A : Type 0} (m : Exec World E A)
    → Agrees (attempt {F = F} m) (attempt {F = G} m)
Agrees-attempt F G m = record { agree = λ w a e. attempt_agrees (m w) a e }
