-- ===== src/Store/Table/Order.antt =====
-- ORDER BY: the rows are those of the table, and they stand in order.
use mathlib.Core.List.{Permᴰ}
use mathlib.Core.List.Permᴰ
use mathlib.Core.Path.{subst}
use skybeam_mail.Prelude.{
  suc, ◌≡◌, refl, sym, ap, ◌∙◌, Bool, true, false, ◌&&◌, List, [], ◌∷◌, arith, any, All, All-map,
  length, Bool-cases, inl, inr,
}
use skybeam_mail.Store.Table.{place, order_by}
use skybeam_mail.Store.Table.Distinct.{Distinct}
use skybeam_mail.Store.Table.Picks.{All-place}

module _ {ℓ} {R : Type ℓ} (before : R → R → Bool) where
  -- No row stands behind one that it comes before.
  abbrev pub IsOrdered : List R → Type ℓ
  IsOrdered [] = Unit
  IsOrdered (r ∷ rows) = All (λ s. before r s ≡ true) rows × IsOrdered rows

  place-Perm : (r : R) (rows : List R) → Permᴰ (place before r rows) (r ∷ rows)
  unfolding place
  place-Perm r [] = Permᴰ.refl (r ∷ [])
  place-Perm r (s ∷ rows) = elim (Bool-cases (before r s)) [
    | inl first ↦ rw first (Permᴰ.refl (r ∷ s ∷ rows))
    | inr later ↦
        rw later (Permᴰ.trans (Permᴰ.cons refl (place-Perm r rows)) (Permᴰ.swap refl refl))
  ]

  pub order_by-Perm : (rows : List R) → Permᴰ (order_by before rows) rows
  unfolding order_by
  order_by-Perm [] = Permᴰ.nil
  order_by-Perm (r ∷ rows) =
      Permᴰ.trans (place-Perm r (order_by before rows)) (Permᴰ.cons refl (order_by-Perm rows))

  length-place : (r : R) (rows : List R) → length (place before r rows) ≡ suc (length rows)
  unfolding place
  length-place r [] = refl
  length-place r (s ∷ rows) = ground (arith, length-place r rows)

  pub length-order_by : (rows : List R) → length (order_by before rows) ≡ length rows
  unfolding order_by
  length-order_by [] = refl
  length-order_by (r ∷ rows) = length-place r (order_by before rows) ∙ ap suc (length-order_by rows)

  module _ (total : (r s : R) → before r s ≡ false → before s r ≡ true)
      (steps : (r s t : R) → before r s ≡ true → before s t ≡ true → before r t ≡ true) where
    place-IsOrdered : (r : R) (rows : List R) → IsOrdered rows → IsOrdered (place before r rows)
    unfolding place
    place-IsOrdered r [] h = (tt, tt)
    place-IsOrdered r (s ∷ rows) (q, h) = elim (Bool-cases (before r s)) [
      | inl first ↦
          rw first (
            (first, All-map _ (λ t. before r t ≡ true) rows (λ t p. steps r s t first p) q),
            (q, h),
          )
      | inr later ↦ rw later (
        All-place (λ t. before s t ≡ true) before r rows (total r s later) q,
        place-IsOrdered r rows h,
      )
    ]

    pub order_by-IsOrdered : (rows : List R) → IsOrdered (order_by before rows)
    unfolding order_by
    order_by-IsOrdered [] = tt
    order_by-IsOrdered (r ∷ rows) =
        place-IsOrdered r (order_by before rows) (order_by-IsOrdered rows)

-- A test of some row does not depend on the order.
pub any-Perm {ℓ} : {R : Type ℓ} (p : R → Bool) (xs ys : List R) → Permᴰ xs ys → any p xs ≡ any p ys
any-Perm p [] [] Permᴰ.nil = refl
any-Perm p (x ∷ xs) (y ∷ ys) (Permᴰ.cons e d) = rw (e, any-Perm p xs ys d) refl
any-Perm p (x ∷ y ∷ xs) (x' ∷ y' ∷ ys) (Permᴰ.swap e f) = rw (e, f) (ground arith)
any-Perm p xs ys (Permᴰ.trans {l₂ = zs} d e) = any-Perm p xs zs d ∙ any-Perm p zs ys e

-- Rows that an order puts in one place only are put there from wherever they come.
-- Either may come before the other.
abbrev pub tied {ℓ} : {R : Type ℓ} (before : R → R → Bool) → R → R → Bool
tied before r s = before r s && before s r

module _ {ℓ} {R : Type ℓ} (before : R → R → Bool)
    (total : (r s : R) → before r s ≡ false → before s r ≡ true)
    (steps : (r s t : R) → before r s ≡ true → before s t ≡ true → before r t ≡ true) where
  place-place :
      (r s : R) (rows : List R)
      → tied before r s ≡ false
      → place before r (place before s rows) ≡ place before s (place before r rows)
  unfolding place
  place-place r s [] e = ground (arith, total r s, total s r)
  place-place r s (x ∷ rows) e = ground (
    arith,
    total r s,
    total s r,
    total r x,
    total s x,
    steps r x s,
    steps s x r,
    place-place r s rows,
  )

  -- Two neighbours in the other order.
  swapped :
      (x y : R) (xs : List R)
      → Distinct (tied before) (x ∷ y ∷ xs)
      → (order_by before (x ∷ y ∷ xs) ≡ order_by before (y ∷ x ∷ xs))
        × Distinct (tied before) (y ∷ x ∷ xs)
  unfolding order_by
  swapped x y xs (q, (p, h)) =
      (place-place x y (order_by before xs) (ground arith), (ground arith, (ground arith, h)))

  pub order_by-untied :
      (xs ys : List R)
      → Permᴰ xs ys
      → Distinct (tied before) xs
      → (order_by before xs ≡ order_by before ys) × Distinct (tied before) ys
  unfolding order_by
  order_by-untied [] [] Permᴰ.nil h = (refl, tt)
  order_by-untied (x ∷ xs) (y ∷ ys) (Permᴰ.cons e d) (q, h) =
      let (same, h') = order_by-untied xs ys d h in
      rw (sym e) (ap (place before x) same, (sym (any-Perm (tied before x) xs ys d) ∙ q, h'))
  order_by-untied (x ∷ y ∷ xs) (x' ∷ y' ∷ ys) (Permᴰ.swap e f) h =
      let sorted = order_by before (x ∷ y ∷ xs) in
      subst (λ a. (sorted ≡ order_by before (a ∷ y' ∷ ys)) × Distinct (tied before) (a ∷ y' ∷ ys)) f
        (subst (λ b. (sorted ≡ order_by before (y ∷ b ∷ ys)) × Distinct (tied before) (y ∷ b ∷ ys))
          e (swapped x y xs h))
  order_by-untied xs ys (Permᴰ.trans {l₂ = zs} d e) h =
      let (first, h') = order_by-untied xs zs d h in
      let (second, h'') = order_by-untied zs ys e h' in (first ∙ second, h'')
