-- ===== src/Store/Secrets/Invariant.antt =====
-- Paths and numbers of the secrets table stay unique, and what DeleteSecret takes away.
use scopuli.Prelude.{
  All, Bool, Bool-cases, List, Text, [], ap, arith, if◌then◌else◌, inl, inr, keep, nat_eq, none,
  refl, some, subst, text_beq, text_beq_iff, text_eq, ℕ, ◌!=◌, ◌<◌, ◌==◌, ◌∷◌, ◌≡◌, ◌≢◌, ◌≤◌,
}
use scopuli.Store.Database.{Secret, next_id}
use scopuli.Store.Secrets.{delete_secret_row, secret_at, secret_ids, upsert_secret}
use scopuli.Store.Secrets.Rows.{Unique}

-- Neither the path nor the number of a row is that of `r`.
abbrev Apart : Secret → Secret → Type 0
Apart r s = (s.path ≢ r.path) × (s.id ≢ r.id)

-- Every number is below the one that a new row gets.
pub ids-next_id : (rows : List Secret) → All (λ s. s.id < next_id (secret_ids rows)) rows
ids-next_id rows = below rows (next_id (secret_ids rows)) (omega arith)
  where
    below : (rows : List Secret) (n : ℕ) → next_id (secret_ids rows) ≤ n → All (λ s. s.id < n) rows
    below [] n h = tt
    below (r ∷ rows) n h =
        (unfold next_id in ground arith, below rows n (unfold next_id in ground arith))

upsert-Apart :
    (new : ℕ) (sec r : Secret) (rows : List Secret)
    → r.path ≢ sec.path
    → r.id ≢ new
    → All (Apart r) rows
    → All (Apart r) (upsert_secret new sec rows)
unfolding upsert_secret
upsert-Apart new sec r [] p i h = (ground arith, tt)
upsert-Apart new sec r (s ∷ rows) p i (a, h) = elim (Bool-cases (text_beq s.path sec.path)) [
  | inl e ↦ rw e (a, h)
  | inr e ↦ rw e (a, upsert-Apart new sec r rows p i h)
]

pub upsert-Unique :
    (new : ℕ) (sec : Secret) (rows : List Secret)
    → All (λ s. s.id < new) rows
    → Unique rows
    → Unique (upsert_secret new sec rows)
unfolding upsert_secret
upsert-Unique new sec [] b u = (tt, tt)
upsert-Unique new sec (r ∷ rows) (b, bs) (a, u) = elim (Bool-cases (text_beq r.path sec.path)) [
  | inl e ↦ rw e (a, u)
  | inr e ↦ rw e (
    upsert-Apart new sec r rows (ground (arith, text_beq_iff r.path sec.path)) (omega arith) a,
    upsert-Unique new sec rows bs u,
  )
]

All-keep :
    (P : Secret → Type 0) (f : Secret → Bool) (rows : List Secret)
    → All P rows
    → All P (keep f rows)
All-keep P f [] h = tt
All-keep P f (r ∷ rows) (a, h) = elim (Bool-cases (f r)) [
  | inl e ↦ rw e (a, All-keep P f rows h)
  | inr e ↦ rw e (All-keep P f rows h)
]

pub delete-Unique : (i : ℕ) (rows : List Secret) → Unique rows → Unique (delete_secret_row i rows)
unfolding delete_secret_row
delete-Unique i [] u = tt
delete-Unique i (r ∷ rows) (a, u) = elim (Bool-cases (r.id != i)) [
  | inl e ↦ rw e (All-keep (Apart r) (λ s. s.id != i) rows a, delete-Unique i rows u)
  | inr e ↦ rw e (delete-Unique i rows u)
]

All-secret_at :
    (P : Secret → Type 0) (q : Text) (rows : List Secret) (r : Secret)
    → All P rows
    → secret_at q rows ≡ some r
    → P r
unfolding secret_at
All-secret_at P q [] r h e = absurd (ground arith)
All-secret_at P q (s ∷ rows) r (a, h) e = elim (Bool-cases (text_beq s.path q)) [
  | inl b ↦ subst P (ground arith) a
  | inr b ↦ All-secret_at P q rows r h (ground arith)
]

-- No row is left of a path that all rows are apart from.
secret_at-Apart :
    (r : Secret) (rows : List Secret) → All (Apart r) rows → secret_at r.path rows ≡ none
unfolding secret_at
secret_at-Apart r [] h = refl
secret_at-Apart r (s ∷ rows) (a, h) =
    ground (arith, secret_at-Apart r rows h, text_beq_iff s.path r.path)

keep-Apart :
    (r : Secret) (rows : List Secret) → All (Apart r) rows → delete_secret_row r.id rows ≡ rows
unfolding delete_secret_row
keep-Apart r [] h = refl
keep-Apart r (s ∷ rows) (a, h) = ground (arith, keep-Apart r rows h)

deleted_head :
    (s : Secret) (q : Text) (rows : List Secret)
    → All (Apart s) rows
    → secret_at q (delete_secret_row s.id (s ∷ rows))
      ≡ (if s.path == q then none else secret_at q (s ∷ rows))
unfolding secret_at delete_secret_row
deleted_head s q rows a = elim (Bool-cases (text_beq s.path q)) [
  | inl b ↦ ground (
    arith,
    ap (secret_at q) (keep-Apart s rows a),
    b,
    ap (λ t. secret_at t rows) ((text_beq_iff s.path q).0 b),
    secret_at-Apart s rows a,
  )
  | inr b ↦ ground (arith, ap (secret_at q) (keep-Apart s rows a), b)
]

pub secret_at-delete_secret_row :
    (path q : Text) (rows : List Secret) (r : Secret)
    → Unique rows
    → secret_at path rows ≡ some r
    → secret_at q (delete_secret_row r.id rows) ≡ (if path == q then none else secret_at q rows)
unfolding secret_at delete_secret_row
secret_at-delete_secret_row path q [] r u e = absurd (ground arith)
secret_at-delete_secret_row path q (s ∷ rows) r (a, u) e =
    elim (Bool-cases (text_beq s.path path)) [
      | inl b ↦
          let same : s ≡ r = ground arith in
          subst
            (λ t.
              secret_at q (delete_secret_row t.id (s ∷ rows))
              ≡ (if path == q then none else secret_at q (s ∷ rows)))
            same
            (subst
              (λ t.
                secret_at q (delete_secret_row s.id (s ∷ rows))
                ≡ (if t == q then none else secret_at q (s ∷ rows)))
              ((text_beq_iff s.path path).0 b) (deleted_head s q rows a))
      | inr b ↦
          let found : secret_at path rows ≡ some r = ground arith in
          let apart = All-secret_at (Apart s) path rows r a found in
          ground (
            arith,
            secret_at-delete_secret_row path q rows r u found,
            apart,
            text_beq_iff s.path q,
            text_beq_iff path q,
            text_beq_iff s.path path,
          )
    ]
