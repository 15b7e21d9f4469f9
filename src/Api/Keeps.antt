-- ===== src/Api/Keeps.antt =====
-- Methods that keep a part of the state whatever they return, and what they are composed of.
use scopuli.Prelude.{
  Bool, Exec, Result, Result-cases, attempt, err, fail_if, false, if◌then◌else◌, inl, inr, lift, ok,
  refl, true, ◌>>=◌, ◌or_fail◌, ◌∙◌, ◌≡◌,
}
use scopuli.Api.{Response, answer}
use scopuli.Store.Database.{World}

module _ {X : Type 0} (view : World → X) where
  -- The method keeps what `view` shows, whether it succeeds or fails.
  pub record Keeps {E A : Type 0} (m : Exec World E A) : Type 0 where
    pub kept : (w : World) → view (m w).1 ≡ view w

  pub Keeps-bind :
      {E A B : Type 0} (m : Exec World E A) (f : A → Exec World E B)
      → Keeps m
      → ((a : A) → Keeps (f a))
      → Keeps (m >>= f)
  Keeps-bind m f h k = record {
    kept = λ w. elim (Result-cases (m w).0) [
      | inl (a, e) ↦ rw e ((k a).kept (m w).1 ∙ h.kept w)
      | inr (x, e) ↦ rw e (h.kept w)
    ];
  }

  pub Keeps-or_fail :
      {E F A : Type 0} (m : Exec World E A) (f : E → F) → Keeps m → Keeps (m or_fail f)
  Keeps-or_fail m f h = record {
    kept = λ w. elim (Result-cases (m w).0) [
      | inl (a, e) ↦ rw e (h.kept w)
      | inr (x, e) ↦ rw e (h.kept w)
    ];
  }

  pub Keeps-attempt :
      {E A : Type 0} (F : Type 0) (m : Exec World E A) → Keeps m → Keeps (attempt {F = F} m)
  Keeps-attempt F m h = record {
    kept = λ w. elim (Result-cases (m w).0) [
      | inl (a, e) ↦ rw e (h.kept w)
      | inr (x, e) ↦ rw e (h.kept w)
    ];
  }

  pub Keeps-lift : {E A : Type 0} (r : Result E A) → Keeps (lift r)
  Keeps-lift r = record { kept = λ w. refl }

  pub Keeps-fail_if : {E : Type 0} (b : Bool) (e : E) → Keeps (fail_if b e)
  Keeps-fail_if true e = record { kept = λ w. refl }
  Keeps-fail_if false e = record { kept = λ w. refl }

  pub Keeps-if :
      {E A : Type 0} (b : Bool) (m n : Exec World E A)
      → Keeps m
      → Keeps n
      → Keeps (if b then m else n)
  Keeps-if true m n h k = h
  Keeps-if false m n h k = k

  -- The rest runs only behind a step that succeeded.
  pub Keeps-then :
      {E A B : Type 0} (m : Exec World E A) (f : A → Exec World E B)
      → Keeps m
      → ((w : World) (a : A) → (m w).0 ≡ ok a → Keeps (f a))
      → Keeps (m >>= f)
  Keeps-then m f h k = record {
    kept = λ w. elim (Result-cases (m w).0) [
      | inl (a, e) ↦ rw e ((k w a e).kept (m w).1 ∙ h.kept w)
      | inr (x, e) ↦ rw e (h.kept w)
    ];
  }

pub world-answer :
    {X : Type 0} (view : World → X) (r : Result Response Response × World)
    → view (answer r).1 ≡ view r.1
world-answer view (ok a, w) = refl
world-answer view (err e, w) = refl
