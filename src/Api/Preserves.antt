-- ===== src/Api/Preserves.antt =====
-- Methods that preserve an invariant of the state whatever they return.
use scopuli.Prelude.{
  Bool, Exec, Result, Result-cases, attempt, fail_if, false, if◌then◌else◌, inl, inr, lift, true,
  ◌>>=◌, ◌or_fail◌,
}
use scopuli.Store.Database.{World}

module _ (I : World → Type 0) where
  -- The method takes a state with the invariant to one with it, whether it succeeds or fails.
  pub record Preserves {E A : Type 0} (m : Exec World E A) : Type 0 where
    pub preserved : (w : World) → I w → I (m w).1

  pub Preserves-bind :
      {E A B : Type 0} (m : Exec World E A) (f : A → Exec World E B)
      → Preserves m
      → ((a : A) → Preserves (f a))
      → Preserves (m >>= f)
  Preserves-bind m f h k = record {
    preserved = λ w i. elim (Result-cases (m w).0) [
      | inl (a, e) ↦ rw e ((k a).preserved (m w).1 (h.preserved w i))
      | inr (x, e) ↦ rw e (h.preserved w i)
    ];
  }

  pub Preserves-or_fail :
      {E F A : Type 0} (m : Exec World E A) (f : E → F) → Preserves m → Preserves (m or_fail f)
  Preserves-or_fail m f h = record {
    preserved = λ w i. elim (Result-cases (m w).0) [
      | inl (a, e) ↦ rw e (h.preserved w i)
      | inr (x, e) ↦ rw e (h.preserved w i)
    ];
  }

  pub Preserves-attempt :
      {E A : Type 0} (F : Type 0) (m : Exec World E A) → Preserves m → Preserves (attempt {F = F} m)
  Preserves-attempt F m h = record {
    preserved = λ w i. elim (Result-cases (m w).0) [
      | inl (a, e) ↦ rw e (h.preserved w i)
      | inr (x, e) ↦ rw e (h.preserved w i)
    ];
  }

  pub Preserves-lift : {E A : Type 0} (r : Result E A) → Preserves (lift r)
  Preserves-lift r = record { preserved = λ w i. i }

  pub Preserves-fail_if : {E : Type 0} (b : Bool) (e : E) → Preserves (fail_if b e)
  Preserves-fail_if true e = record { preserved = λ w i. i }
  Preserves-fail_if false e = record { preserved = λ w i. i }

  pub Preserves-if :
      {E A : Type 0} (b : Bool) (m n : Exec World E A)
      → Preserves m
      → Preserves n
      → Preserves (if b then m else n)
  Preserves-if true m n h k = h
  Preserves-if false m n h k = k
