-- ===== src/Prelude/Outcome.antt =====
-- Go's pair of a value and an error, and methods that change a state and may return an error.
-- What was written before the error stays written, so the state comes back beside it too.
use mathlib.Core.Path.{◌≡◌, refl}
use mathlib.Core.Logic.{◌⊎◌, inl, inr}
use mathlib.Core.Option.{Option, none, some}
use mathlib.Core.Bool.{Bool, true, false}

pub data Result {ℓ} (E A : Type ℓ) : Type ℓ where
  ok : A → Result E A
  err : E → Result E A

abbrev pub Exec {ℓ} : Type ℓ → Type ℓ → Type ℓ → Type ℓ
Exec S E A = S → Result E A × S

abbrev pub of_option {ℓ} : {E A : Type ℓ} → E → Option A → Result E A
of_option e none = err e
of_option e (some a) = ok a

module _ {ℓ} {S E A : Type ℓ} where
  abbrev pub pure : A → Exec S E A
  pure a s = (ok a, s)

  abbrev pub raise : E → Exec S E A
  raise e s = (err e, s)

  abbrev pub lift : Result E A → Exec S E A
  lift r s = (r, s)

  abbrev pub gets : (S → A) → Exec S E A
  gets f s = (ok (f s), s)

module _ {ℓ} {S E A B : Type ℓ} where
  abbrev pub continue : Result E A × S → (A → Exec S E B) → Result E B × S
  continue (ok a, s) f = f a s
  continue (err e, s) f = (err e, s)

  infixl 10 ◌>>=◌ ◌>>◌
  abbrev pub ◌>>=◌ : Exec S E A → (A → Exec S E B) → Exec S E B
  ◌>>=◌ m f s = continue (m s) f

  abbrev pub ◌>>◌ : Exec S E A → Exec S E B → Exec S E B
  m >> n = m >>= λ _. n

module _ {ℓ} {S E F A : Type ℓ} where
  abbrev pub map_err : (E → F) → Result E A × S → Result F A × S
  map_err f (ok a, s) = (ok a, s)
  map_err f (err e, s) = (err (f e), s)

  -- `if err != nil { return f(err) }`
  infixl 12 ◌or_fail◌
  abbrev pub ◌or_fail◌ : Exec S E A → (E → F) → Exec S F A
  ◌or_fail◌ m f s = map_err f (m s)

  -- `if err != nil { f(err); return }`, where `f` is a method too
  abbrev pub recover : Result E A × S → (E → Exec S F A) → Result F A × S
  recover (ok a, s) f = (ok a, s)
  recover (err e, s) f = f e s

  infixl 12 ◌or_else◌
  abbrev pub ◌or_else◌ : Exec S E A → (E → Exec S F A) → Exec S F A
  ◌or_else◌ m f s = recover (m s) f

  abbrev pub ignore : Result E A × S → Result F (Option A) × S
  ignore (ok a, s) = (ok (some a), s)
  ignore (err e, s) = (ok none, s)

  -- `v, _ := m`
  abbrev pub attempt : Exec S E A → Exec S F (Option A)
  attempt m s = ignore (m s)

module _ {ℓ} {S E : Type ℓ} where
  -- `if b { return e }`
  abbrev pub fail_if : Bool → E → Exec S E (Unit {ℓ})
  fail_if true e s = (err e, s)
  fail_if false e s = (ok tt, s)

pub Result-cases {ℓ} :
    {E A : Type ℓ} (r : Result E A) → ((a : A) × (r ≡ ok a)) ⊎ ((e : E) × (r ≡ err e))
Result-cases (ok a) = inl (a, refl)
Result-cases (err e) = inr (e, refl)

-- What is left of a method whose value and error are dropped.
pub continue-ignore {ℓ} :
    {S E F A : Type ℓ} (r : Result E A × S)
    → continue (ignore {F = F} r) (λ _ s. (ok (tt {ℓ}), s)) ≡ (ok (tt {ℓ}), r.1)
continue-ignore (ok a, s) = refl
continue-ignore (err e, s) = refl

-- A step that succeeds hands on its value and its state, and one that fails ends the method.
pub continue-ok {ℓ} :
    {S E A B : Type ℓ} (r : Result E A × S) (f : A → Exec S E B) {a : A}
    → r.0 ≡ ok a
    → continue r f ≡ f a r.1
continue-ok r f h = rw h

pub continue_ok {ℓ} :
    {S E A B : Type ℓ} (r : Result E A × S) (f : A → Exec S E B) {a : A} {s : S}
    → r ≡ (ok a, s)
    → continue r f ≡ f a s
continue_ok r f h = rw h

pub continue_err {ℓ} :
    {S E A B : Type ℓ} (r : Result E A × S) (f : A → Exec S E B) {e : E} {s : S}
    → r ≡ (err e, s)
    → continue r f ≡ (err e, s)
continue_err r f h = rw h

pub map_err_ok {ℓ} :
    {S E F A : Type ℓ} {r : Result E A × S} {a : A} {s : S} (f : E → F)
    → r ≡ (ok a, s)
    → map_err f r ≡ (ok a, s)
map_err_ok f h = rw h

pub lift_ok {ℓ} :
    {S E F A : Type ℓ} {r : Result E A} {a : A} (s : S) (f : E → F)
    → r ≡ ok a
    → map_err f (lift r s) ≡ (ok a, s)
lift_ok s f h = rw h

pub fail_if_not {ℓ} :
    {S E : Type ℓ} {b : Bool} (e : E) (s : S) → b ≡ false → fail_if b e s ≡ (ok (tt {ℓ}), s)
fail_if_not e s h = rw h
