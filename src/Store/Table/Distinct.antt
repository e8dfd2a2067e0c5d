-- ===== src/Store/Table/Distinct.antt =====
-- A UNIQUE constraint and a primary key as predicates on the rows, and what keeps them.
use skybeam_mail.Prelude.{
  ℕ, ◌+◌, ◌≤◌, ◌<◌, ◌≡◌, refl, ◌∙◌, Bool, false, List, [], ◌∷◌, ◌++◌, arith, any, All, All-append,
  All-map, ◌==◌, Bool-cases, inl, inr,
}
use skybeam_mail.Store.Table.{update, delete, upsert}
use skybeam_mail.Store.Table.Laws.{any-update, any-append}

module _ {ℓ} {R : Type ℓ} (same : R → R → Bool) where
  -- No two rows are the same in the columns that `same` compares.
  abbrev pub Distinct : List R → Type 0
  Distinct [] = Unit {0}
  Distinct (r ∷ rows) = (any (same r) rows ≡ false) × Distinct rows

  -- A change of rows that leaves those columns alone.
  abbrev pub KeepsColumns : (R → R) → Type ℓ
  KeepsColumns f = (r s : R) → (same (f r) s ≡ same r s) × (same s (f r) ≡ same s r)

  any-left :
      (f : R → R)
      → KeepsColumns f
      → (r : R) (rows : List R) → any (same (f r)) rows ≡ any (same r) rows
  any-left f k r [] = refl
  any-left f k r (s ∷ rows) = rw ((k r s).0, any-left f k r rows) refl

  pub update-Distinct :
      (p : R → Bool) (f : R → R) (rows : List R)
      → KeepsColumns f
      → Distinct rows
      → Distinct (update p f rows)
  unfolding update
  update-Distinct p f [] k h = tt
  update-Distinct p f (r ∷ rows) k (q, h) =
      let kept = any-update p (same r) f rows (λ s. (k s r).1) ∙ q in
      elim (Bool-cases (p r)) [
        | inl hit ↦ rw hit (any-left f k r (update p f rows) ∙ kept, update-Distinct p f rows k h)
        | inr miss ↦ rw miss (kept, update-Distinct p f rows k h)
      ]

  pub snoc-Distinct :
      (new : R) (rows : List R)
      → any (λ r. same r new) rows ≡ false
      → Distinct rows
      → Distinct (rows ++ new ∷ [])
  snoc-Distinct new [] e h = (refl, tt)
  snoc-Distinct new (r ∷ rows) e (q, h) =
      (any-append (same r) rows (new ∷ []) ∙ ground arith, snoc-Distinct new rows (ground arith) h)

  any-deleted :
      (p q : R → Bool) (rows : List R) → any q rows ≡ false → any q (delete p rows) ≡ false
  unfolding delete
  any-deleted p q [] e = refl
  any-deleted p q (r ∷ rows) e = ground (arith, any-deleted p q rows)

  pub delete-Distinct : (p : R → Bool) (rows : List R) → Distinct rows → Distinct (delete p rows)
  unfolding delete
  delete-Distinct p [] h = tt
  delete-Distinct p (r ∷ rows) (q, h) = elim (Bool-cases (p r)) [
    | inl hit ↦ rw hit (delete-Distinct p rows h)
    | inr miss ↦ rw miss (any-deleted p (same r) rows q, delete-Distinct p rows h)
  ]

  -- An upsert whose test is the one for the columns of the new row.
  pub upsert-Distinct :
      (p : R → Bool) (new : R) (f : R → R) (rows : List R)
      → ((r : R) → same r new ≡ p r)
      → KeepsColumns f
      → Distinct rows
      → Distinct (upsert p new f rows)
  unfolding upsert
  upsert-Distinct p new f rows e k h = elim (Bool-cases (any p rows)) [
    | inl old ↦ rw old (update-Distinct p f rows k h)
    | inr fresh ↦ rw fresh (snoc-Distinct new rows (any-same p new rows e ∙ fresh) h)
  ]
    where
      any-same :
          (p : R → Bool) (new : R) (rows : List R)
          → ((r : R) → same r new ≡ p r)
          → any (λ r. same r new) rows ≡ any p rows
      any-same p new [] e = refl
      any-same p new (r ∷ rows) e = rw (e r, any-same p new rows e) refl

-- A primary key whose values are drawn: they are distinct, and the next one is above them all.
module _ {ℓ} {R : Type ℓ} (key : R → ℕ) where
  abbrev pub same_number : R → R → Bool
  same_number r s = key s == key r

  abbrev pub IsDrawn : ℕ → List R → Type 0
  IsDrawn next rows = Distinct same_number rows × All (λ r. key r < next) rows

  pub later-IsDrawn : (m n : ℕ) (rows : List R) → m ≤ n → IsDrawn m rows → IsDrawn n rows
  later-IsDrawn m n rows le (d, b) =
      (d, All-map (λ r. key r < m) (λ r. key r < n) rows (λ r l. omega arith) b)

  unused :
      (n : ℕ) (new : R) (rows : List R)
      → key new ≡ n
      → All (λ r. key r < n) rows
      → any (λ r. same_number r new) rows ≡ false
  unused n new [] e b = refl
  unused n new (r ∷ rows) e (l, b) = ground (arith, unused n new rows e b)

  pub snoc-IsDrawn :
      (n : ℕ) (new : R) (rows : List R)
      → key new ≡ n
      → IsDrawn n rows
      → IsDrawn (n + 1) (rows ++ new ∷ [])
  snoc-IsDrawn n new rows e (d, b) = (
    snoc-Distinct same_number new rows (unused n new rows e b) d,
    All-append _ rows (new ∷ [])
        (All-map (λ r. key r < n) (λ r. key r < n + 1) rows (λ r l. omega arith) b)
        (omega arith, tt),
  )

  update_below :
      (p : R → Bool) (f : R → R) (n : ℕ) (rows : List R)
      → ((r : R) → key (f r) ≡ key r)
      → All (λ r. key r < n) rows
      → All (λ r. key r < n) (update p f rows)
  unfolding update
  update_below p f n [] k b = tt
  update_below p f n (r ∷ rows) k (l, b) = elim (Bool-cases (p r)) [
    | inl hit ↦ rw (hit, k r) (l, update_below p f n rows k b)
    | inr miss ↦ rw miss (l, update_below p f n rows k b)
  ]

  delete_below :
      (p : R → Bool) (n : ℕ) (rows : List R)
      → All (λ r. key r < n) rows
      → All (λ r. key r < n) (delete p rows)
  unfolding delete
  delete_below p n [] b = tt
  delete_below p n (r ∷ rows) (l, b) = elim (Bool-cases (p r)) [
    | inl hit ↦ rw hit (delete_below p n rows b)
    | inr miss ↦ rw miss (l, delete_below p n rows b)
  ]

  pub update-IsDrawn :
      (p : R → Bool) (f : R → R) (n : ℕ) (rows : List R)
      → ((r : R) → key (f r) ≡ key r)
      → IsDrawn n rows
      → IsDrawn n (update p f rows)
  update-IsDrawn p f n rows k (d, b) = (
    update-Distinct same_number p f rows (λ r s. (rw (k r) refl, rw (k r) refl)) d,
    update_below p f n rows k b,
  )

  pub delete-IsDrawn :
      (p : R → Bool) (n : ℕ) (rows : List R) → IsDrawn n rows → IsDrawn n (delete p rows)
  delete-IsDrawn p n rows (d, b) = (delete-Distinct same_number p rows d, delete_below p n rows b)

  pub upsert-IsDrawn :
      (n : ℕ) (p : R → Bool) (new : R) (f : R → R) (rows : List R)
      → key new ≡ n
      → ((r : R) → key (f r) ≡ key r)
      → IsDrawn n rows
      → IsDrawn (n + 1) (upsert p new f rows)
  unfolding upsert
  upsert-IsDrawn n p new f rows e k h = elim (Bool-cases (any p rows)) [
    | inl old ↦
        rw old
          (later-IsDrawn n (n + 1) (update p f rows) (omega arith) (update-IsDrawn p f n rows k h))
    | inr fresh ↦ rw fresh (snoc-IsDrawn n new rows e h)
  ]
