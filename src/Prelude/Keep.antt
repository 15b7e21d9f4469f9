-- ===== src/Prelude/Keep.antt =====
-- Filtering a list by a Boolean test, in order and backwards.
use Prim.Native.Nat.{ℕ, zero, suc, ◌+◌}
use mathlib.Core.Path.{◌≡◌, refl, ap}
use mathlib.Core.Logic.{inl, inr}
use mathlib.Core.Bool.{Bool, true, ◌&&◌}
use mathlib.Core.List.{List, [], ◌∷◌, ◌++◌, append-nil, reverse, reverse-cons}
use native.Mathlib.Omega.{arith}
use scopuli.Prelude.Tests.{Bool-cases}
use scopuli.Prelude.Lists.{All, All-append, drop, keep, take}

module _ {ℓ} {A : Type ℓ} where
  pub keep-append : (p : A → Bool) (xs ys : List A) → keep p (xs ++ ys) ≡ keep p xs ++ keep p ys
  keep-append p [] ys = refl
  keep-append p (x ∷ xs) ys = elim (Bool-cases (p x)) [
    | inl e ↦ rw e (ap (λ r. x ∷ r) (keep-append p xs ys))
    | inr e ↦ rw e (keep-append p xs ys)
  ]

  pub keep-reverse : (p : A → Bool) (xs : List A) → keep p (reverse xs) ≡ reverse (keep p xs)
  keep-reverse p [] = refl
  keep-reverse p (x ∷ xs) =
      rw (reverse-cons x xs, keep-append p (reverse xs) (x ∷ []), keep-reverse p xs)
        (elim (Bool-cases (p x)) [
          | inl e ↦ rw (e, reverse-cons x (keep p xs)) refl
          | inr e ↦ rw (e, append-nil) refl
        ])

  pub keep-and : (p q : A → Bool) (xs : List A) → keep (λ x. p x && q x) xs ≡ keep q (keep p xs)
  keep-and p q [] = refl
  keep-and p q (x ∷ xs) = elim (Bool-cases (p x)) [
    | inl e ↦ rw e (rw (keep-and p q xs) refl)
    | inr e ↦ rw e (keep-and p q xs)
  ]

  -- What every element passes leaves the list, and what none passes leaves nothing.
  pub keep-All : (p : A → Bool) (xs : List A) → All (λ x. p x ≡ true) xs → keep p xs ≡ xs
  keep-All p [] h = refl
  keep-All p (x ∷ xs) (h, hs) = rw h (ap (λ r. x ∷ r) (keep-All p xs hs))

  pub All-keep {κ} : (P : A → Type κ) (p : A → Bool) (xs : List A) → All P xs → All P (keep p xs)
  All-keep P p [] h = tt
  All-keep P p (x ∷ xs) (h, hs) = elim (Bool-cases (p x)) [
    | inl e ↦ rw e (h, All-keep P p xs hs)
    | inr e ↦ rw e (All-keep P p xs hs)
  ]

  pub All-reverse {κ} : (P : A → Type κ) (xs : List A) → All P xs → All P (reverse xs)
  All-reverse P [] h = tt
  All-reverse P (x ∷ xs) (h, hs) =
      rw (reverse-cons x xs) (All-append P (reverse xs) (x ∷ []) (All-reverse P xs hs) (h, tt))

  pub All-kept : (p : A → Bool) (xs : List A) → All (λ x. p x ≡ true) (keep p xs)
  All-kept p [] = tt
  All-kept p (x ∷ xs) = elim (Bool-cases (p x)) [
    | inl e ↦ rw e (e, All-kept p xs)
    | inr e ↦ rw e (All-kept p xs)
  ]

  -- A test that implies another needs no help from it.
  pub keep_stronger :
      (p q : A → Bool) (xs : List A)
      → ((x : A) → p x ≡ true → q x ≡ true)
      → keep p (keep q xs) ≡ keep p xs
  keep_stronger p q [] h = refl
  keep_stronger p q (x ∷ xs) h = elim (Bool-cases (p x)) [
    | inl e ↦ rw (e, h x e) (rw e (ap (λ r. x ∷ r) (keep_stronger p q xs h)))
    | inr e ↦ rw e (elim (Bool-cases (q x)) [
      | inl f ↦ rw f (rw e (keep_stronger p q xs h))
      | inr f ↦ rw f (keep_stronger p q xs h)
    ])
  ]

  -- Tests that agree keep the same.
  pub keep_same : (p q : A → Bool) (xs : List A) → ((x : A) → p x ≡ q x) → keep p xs ≡ keep q xs
  keep_same p q [] h = refl
  keep_same p q (x ∷ xs) h = rw (h x, keep_same p q xs h)

  take_nil : (k : ℕ) → ◌≡◌ {A = List A} (take k []) []
  take_nil zero = refl
  take_nil (suc k) = refl

  pub take_more :
      (n k m : ℕ) (xs : List A) → m ≡ n + k → take n xs ++ take k (drop n xs) ≡ take m xs
  take_more zero k m xs e = ap (λ j. take j xs) (omega arith)
  take_more (suc n) k zero xs e = absurd (omega arith)
  take_more (suc n) k (suc m) [] e = take_nil k
  take_more (suc n) k (suc m) (x ∷ xs) e = ap (λ r. x ∷ r) (take_more n k m xs (omega arith))
