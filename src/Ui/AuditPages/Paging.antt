-- ===== src/Ui/AuditPages/Paging.antt =====
-- The pages of the audit log: the older page goes on where the one before it stopped.
use mathlib.Core.List.{cons-ne-nil, map-append, reverse, reverse-cons}
use scopuli.Prelude.{
  All, All-append, All-keep, All-kept, All-reverse, Bool, Bool-cases, List, Text, [], ap, arith,
  drop, inl, inr, keep, keep-and, keep-reverse, keep-All, keep_same, keep_stronger, ltb, map,
  negsuc, ok, pos, refl, subst, suc, sym, take, take_more, true, zero, ℕ, ℤ, ◌++◌, ◌+◌, ◌<◌, ◌∙◌,
  ◌∷◌, ◌≡◌, ◌≢◌, ◌⊎◌,
}
use scopuli.Audit.{Entry, audit_filters, before_matches, entry_of, query_entries}
use scopuli.Env.{Env}
use scopuli.Store.Database.{AuditRow, World}
use scopuli.Store.Secrets.{clamp_limit}
use scopuli.Store.Secrets.Healthy.{NoFaults}
use scopuli.Ui.AuditPages.{last_id}

-- Numbers are positive and go up from row to row.
abbrev pub Ascends : List AuditRow → Type 0
Ascends [] = Unit
Ascends (r ∷ rows) = (0 < r.id) × All (λ s. r.id < s.id) rows × Ascends rows

-- Numbers are positive and go down from row to row.
abbrev Descends : List AuditRow → Type 0
Descends [] = Unit
Descends (r ∷ rows) = (0 < r.id) × All (λ s. s.id < r.id) rows × Descends rows

Descends-snoc :
    (rows : List AuditRow) (r : AuditRow)
    → 0 < r.id
    → All (λ s. r.id < s.id) rows
    → Descends rows
    → Descends (rows ++ r ∷ [])
Descends-snoc [] r h b d = (h, tt, tt)
Descends-snoc (s ∷ rows) r h (b, bs) (p, low, d) =
    (p, All-append (λ t. t.id < s.id) rows (r ∷ []) low (b, tt), Descends-snoc rows r h bs d)

Descends-reverse : (rows : List AuditRow) → Ascends rows → Descends (reverse rows)
Descends-reverse [] h = tt
Descends-reverse (r ∷ rows) (p, low, h) = rw (reverse-cons r rows) (
    Descends-snoc (reverse rows) r p (All-reverse (λ s. r.id < s.id) rows low)
      (Descends-reverse rows h))

Descends-keep :
    (p : AuditRow → Bool) (rows : List AuditRow) → Descends rows → Descends (keep p rows)
Descends-keep p [] h = tt
Descends-keep p (r ∷ rows) (h, low, d) = elim (Bool-cases (p r)) [
  | inl e ↦ rw e (h, All-keep (λ s. s.id < r.id) p rows low, Descends-keep p rows d)
  | inr e ↦ rw e (Descends-keep p rows d)
]

-- What holds of every number holds of the last one on a page that is not empty.
last_id-All :
    (P : ℕ → Type 0) (m : ℕ) (r : AuditRow) (rows : List AuditRow)
    → All (λ s. P s.id) (r ∷ rows)
    → P (last_id (map entry_of (take (suc m) (r ∷ rows))))
unfolding last_id entry_of
last_id-All P zero r rows (h, hs) = h
last_id-All P (suc m) r [] (h, hs) = h
last_id-All P (suc m) r (s ∷ rows) (h, hs) = last_id-All P m s rows hs

ltb-All :
    (n : ℕ) (rows : List AuditRow) → All (λ s. s.id < n) rows → All (λ s. ltb s.id n ≡ true) rows
ltb-All n [] h = tt
ltb-All n (r ∷ rows) (h, hs) = (ground arith, ltb-All n rows hs)

-- Behind the last row of a page are the rows that the page left out.
keep_older :
    (m : ℕ) (rows : List AuditRow)
    → Descends rows
    → keep (λ r. ltb r.id (last_id (map entry_of (take (suc m) rows)))) rows ≡ drop (suc m) rows
unfolding last_id entry_of
keep_older m [] h = refl
keep_older zero (r ∷ rows) (h, low, d) =
    ground (arith, keep-All (λ s. ltb s.id r.id) rows (ltb-All r.id rows low))
keep_older (suc m) (r ∷ []) h = ground arith
keep_older (suc m) (r ∷ s ∷ rows) (h, low, d) =
    ground (arith, last_id-All (λ i. i < r.id) m s rows low, keep_older m (s ∷ rows) d)

-- A test of the number passes every smaller one.
before_smaller :
    (before : ℤ) (r : AuditRow)
    → before_matches before r ≡ true
    → (x : AuditRow) → ltb x.id r.id ≡ true
    → before_matches before x ≡ true
unfolding before_matches
before_smaller (pos n) r h x e = ground arith
before_smaller (negsuc n) r h x e = refl

before-All :
    (before : ℤ) (rows : List AuditRow)
    → All (λ r. before_matches before r ≡ true) rows
    → All (λ r. (x : AuditRow) → ltb x.id r.id ≡ true → before_matches before x ≡ true) rows
before-All before [] h = tt
before-All before (r ∷ rows) (h, hs) = (before_smaller before r h, before-All before rows hs)

Descends-positive : (rows : List AuditRow) → Descends rows → All (λ r. 0 < r.id) rows
Descends-positive [] d = tt
Descends-positive (r ∷ rows) (h, low, d) = (h, Descends-positive rows d)

-- The entries that a query can show, the newest first.
abbrev pub matching : ℤ → ℤ → ℕ → Text → List AuditRow → List AuditRow
matching before since key_id action rows =
    keep (before_matches before) (reverse (keep (audit_filters since key_id action) rows))

-- The rows before the last one of a page are those that the page left out.
matching-older :
    (before since : ℤ) (key_id m : ℕ) (action : Text) (rows : List AuditRow) (r : AuditRow)
    (rest : List AuditRow)
    → Ascends rows
    → matching before since key_id action rows ≡ r ∷ rest
    → matching (pos (last_id (map entry_of (take (suc m) (r ∷ rest))))) since key_id action rows
      ≡ drop (suc m) (r ∷ rest)
unfolding before_matches
matching-older before since key_id m action rows r rest up e =
    let newest = reverse (keep (audit_filters since key_id action) rows) in
    let i = last_id (map entry_of (take (suc m) (r ∷ rest))) in
    let down : Descends newest =
      subst Descends (keep-reverse (audit_filters since key_id action) rows) (
        Descends-keep (audit_filters since key_id action) (reverse rows)
          (Descends-reverse rows up)) in
    let below : Descends (r ∷ rest) =
      subst Descends e (Descends-keep (before_matches before) newest down) in
    let positive : 0 < i = last_id-All (λ j. 0 < j) m r rest (Descends-positive (r ∷ rest) below) in
    let passes =
      last_id-All (λ j. (x : AuditRow) → ltb x.id j ≡ true → before_matches before x ≡ true) m r
        rest
        (before-All before (r ∷ rest) (
          subst (All (λ s. before_matches before s ≡ true)) e
            (All-kept (before_matches before) newest))) in
    keep_same (before_matches (pos i)) (λ x. ltb x.id i) newest (λ x. ground arith)
    ∙ sym (keep_stronger (λ x. ltb x.id i) (before_matches before) newest passes)
    ∙ ap (keep (λ x. ltb x.id i)) e
    ∙ keep_older m (r ∷ rest) below

clamp_limit-suc : (limit : ℤ) → (m : ℕ) × (clamp_limit limit 100 ≡ suc m)
unfolding clamp_limit
clamp_limit-suc (pos zero) = (99, refl)
clamp_limit-suc (pos (suc n)) = elim (Bool-cases (ltb 1000 (suc n))) [
  | inl e ↦ (99, ground arith)
  | inr e ↦ (n, ground arith)
]
clamp_limit-suc (negsuc n) = (99, refl)

List-cases :
    (rows : List AuditRow)
    → (rows ≡ []) ⊎ ((r : AuditRow) × (rest : List AuditRow) × (rows ≡ r ∷ rest))
List-cases [] = inl refl
List-cases (r ∷ rest) = inr (r, rest, refl)

no_page :
    (e : Entry) (es : List Entry) (n : ℕ) {rows : List AuditRow}
    → rows ≡ []
    → map entry_of (take n rows) ≢ e ∷ es
no_page e es zero h k = cc
no_page e es (suc n) h k = cons-ne-nil e es (sym (rw h at k))

older_rows :
    (before since : ℤ) (key_id : ℕ) (action : Text) (rows : List AuditRow) (n m : ℕ) (r : AuditRow)
    (rest : List AuditRow) (e : Entry) (es : List Entry)
    → Ascends rows
    → n ≡ suc m
    → matching before since key_id action rows ≡ r ∷ rest
    → map entry_of (take n (matching before since key_id action rows)) ≡ e ∷ es
    → matching (pos (last_id (e ∷ es))) since key_id action rows
      ≡ drop n (matching before since key_id action rows)
older_rows before since key_id action rows n m r rest e es up c k page =
    subst
      (λ shown.
        matching (pos (last_id shown)) since key_id action rows
        ≡ drop n (matching before since key_id action rows))
      page (rw (c, k) (matching-older before since key_id m action rows r rest up k))

pages_join :
    (n : ℕ) (rows : List AuditRow)
    → map entry_of (take n rows) ++ map entry_of (take n (drop n rows))
      ≡ map entry_of (take (n + n) rows)
pages_join n rows =
    sym (map-append entry_of (take n rows) (take n (drop n rows)))
    ∙ ap (map entry_of) (take_more n n (n + n) rows refl)

module _ ⦃env : Env⦄ where
  query_entries_total :
      (before since limit : ℤ) (key_id : ℕ) (action : Text) (w : World)
      → NoFaults
      → (query_entries before since key_id action limit w).0
        ≡ ok (
            map entry_of
              (take (clamp_limit limit 100) (matching before since key_id action w.db.audit)))
  unfolding query_entries
  query_entries_total before since limit key_id action w f =
      rw
        (
          f w.events,
          keep-and (audit_filters since key_id action) (before_matches before) w.db.audit,
          keep-reverse (before_matches before)
              (keep (audit_filters since key_id action) w.db.audit),
        )
        refl

  -- If the engine does not fail and the numbers in the log are positive and go up, then after a page
  -- of Query that is not empty, Query with the number of its last entry as `before`, on the same log, returns
  -- the entries that follow it: the two pages together are what one page of twice the size shows.
  pub query_entries-older :
      (before since limit : ℤ) (key_id : ℕ) (action : Text) (w v : World) (e : Entry)
      (es : List Entry)
      → NoFaults
      → Ascends w.db.audit
      → v.db.audit ≡ w.db.audit
      → (query_entries before since key_id action limit w).0 ≡ ok (e ∷ es)
      → (older : List Entry) × ((query_entries
            (pos (last_id (e ∷ es)))
            since
            key_id
            action
            limit
            v).0
          ≡ ok older)
        × ((e ∷ es) ++ older
            ≡ map entry_of (
                take
                  (clamp_limit limit 100 + clamp_limit limit 100)
                  (matching before since key_id action w.db.audit)))
  query_entries-older before since limit key_id action w v e es f up same h =
      let (m, c) = clamp_limit-suc limit in
      let shown : map entry_of
            (take (clamp_limit limit 100) (matching before since key_id action w.db.audit))
          ≡ e ∷ es =
        ground (arith, query_entries_total before since limit key_id action w f) in
      elim (List-cases (matching before since key_id action w.db.audit)) [
        | inl n ↦ absurd (no_page e es _ n shown)
        | inr (r, rest, k) ↦
            let next = map entry_of (
              take (clamp_limit limit 100)
                (drop (clamp_limit limit 100) (matching before since key_id action w.db.audit))) in
            (
              next,
              query_entries_total (pos (last_id (e ∷ es))) since limit key_id action v f
                  ∙ ap (λ rows. ok (map entry_of (take (clamp_limit limit 100) rows)))
                      (ap (matching (pos (last_id (e ∷ es))) since key_id action) same
                        ∙ older_rows before since key_id action w.db.audit _ m r rest e es up c k
                            shown),
              ap (λ front. front ++ next) (sym shown)
                  ∙ pages_join (clamp_limit limit 100)
                      (matching before since key_id action w.db.audit),
            )
      ]
