-- ===== src/Store/Table/Picks.antt =====
-- What every row of a result satisfies.
use skybeam_mail.Prelude.{
  ℕ, zero, suc, ◌≡◌, refl, Bool, true, false, ◌&&◌, List, [], ◌∷◌, ◌++◌, arith, any, All, take,
  drop, Bool-cases, inl, inr,
}
use skybeam_mail.Store.Table.{select, update, upsert, place, order_by}

module _ {ℓ κ} {R : Type ℓ} (P : R → Type κ) where
  pub All-select :
      (p : R → Bool) (rows : List R) → ((r : R) → p r ≡ true → P r) → All P (select p rows)
  unfolding select
  All-select p [] h = tt
  All-select p (r ∷ rows) h = elim (Bool-cases (p r)) [
    | inl hit ↦ rw hit (h r hit, All-select p rows h)
    | inr miss ↦ rw miss (All-select p rows h)
  ]

  pub All-place :
      (b : R → R → Bool) (r : R) (rows : List R) → P r → All P rows → All P (place b r rows)
  unfolding place
  All-place b r [] p h = (p, tt)
  All-place b r (s ∷ rows) p (q, h) = elim (Bool-cases (b r s)) [
    | inl first ↦ rw first (p, (q, h))
    | inr later ↦ rw later (q, All-place b r rows p h)
  ]

  pub All-order_by : (b : R → R → Bool) (rows : List R) → All P rows → All P (order_by b rows)
  unfolding order_by
  All-order_by b [] h = tt
  All-order_by b (r ∷ rows) (p, h) = All-place b r (order_by b rows) p (All-order_by b rows h)

  pub All-drop : (n : ℕ) (rows : List R) → All P rows → All P (drop n rows)
  All-drop zero rows h = h
  All-drop (suc n) [] h = tt
  All-drop (suc n) (r ∷ rows) (p, h) = All-drop n rows h

  pub All-take : (n : ℕ) (rows : List R) → All P rows → All P (take n rows)
  All-take zero rows h = tt
  All-take (suc n) [] h = tt
  All-take (suc n) (r ∷ rows) (p, h) = (p, All-take n rows h)

  All-select_updated :
      (p : R → Bool) (f : R → R) (rows : List R)
      → ((r : R) → p (f r) ≡ p r)
      → ((r : R) → P (f r))
      → All P (select p (update p f rows))
  unfolding select update
  All-select_updated p f [] h k = tt
  All-select_updated p f (r ∷ rows) h k = elim (Bool-cases (p r)) [
    | inl hit ↦ rw (hit, h r, hit) (k r, All-select_updated p f rows h k)
    | inr miss ↦ rw (miss, miss) (All-select_updated p f rows h k)
  ]

  All-select_inserted :
      (p : R → Bool) (new : R) (rows : List R)
      → any p rows ≡ false
      → P new
      → All P (select p (rows ++ new ∷ []))
  unfolding select
  All-select_inserted p new [] e k = elim (Bool-cases (p new)) [
    | inl hit ↦ rw hit (k, tt)
    | inr miss ↦ rw miss tt
  ]
  All-select_inserted p new (r ∷ rows) e k = elim (Bool-cases (p r)) [
    | inl hit ↦ let bad : true ≡ false = rw hit at e in cc
    | inr miss ↦ rw miss (All-select_inserted p new rows (rw miss at e) k)
  ]

  -- The rows that an upsert meets or inserts.
  pub All-select_upserted :
      (p : R → Bool) (new : R) (f : R → R) (rows : List R)
      → ((r : R) → p (f r) ≡ p r)
      → P new
      → ((r : R) → P (f r))
      → All P (select p (upsert p new f rows))
  unfolding upsert
  All-select_upserted p new f rows h k l = elim (Bool-cases (any p rows)) [
    | inl there ↦ rw there (All-select_updated p f rows h l)
    | inr absent ↦ rw absent (All-select_inserted p new rows absent k)
  ]

  All-select_kept :
      (p : R → Bool) (f : R → R) (rows : List R)
      → ((r : R) → p (f r) ≡ p r)
      → ((r : R) → P r → P (f r))
      → All P (select p rows)
      → All P (select p (update p f rows))
  unfolding select update
  All-select_kept p f [] h k a = tt
  All-select_kept p f (r ∷ rows) h k a = elim (Bool-cases (p r)) [
    | inl hit ↦
        let (q, b) : P r × All P (select p rows) = rw hit at a in
        rw (hit, h r, hit) (k r q, All-select_kept p f rows h k b)
    | inr miss ↦
        let b : All P (select p rows) = rw miss at a in
        rw (miss, miss) (All-select_kept p f rows h k b)
  ]

  -- The same where the update keeps a property that the rows had before.
  pub All-select_touched :
      (p : R → Bool) (new : R) (f : R → R) (rows : List R)
      → ((r : R) → p (f r) ≡ p r)
      → P new
      → ((r : R) → P r → P (f r))
      → All P (select p rows)
      → All P (select p (upsert p new f rows))
  unfolding upsert
  All-select_touched p new f rows h k l a = elim (Bool-cases (any p rows)) [
    | inl there ↦ rw there (All-select_kept p f rows h l a)
    | inr absent ↦ rw absent (All-select_inserted p new rows absent k)
  ]

module _ {ℓ} {R : Type ℓ} where
  -- An update that reaches no row of a selection, and brings none into it.
  pub select-update_none :
      (p q : R → Bool) (f : R → R) (rows : List R)
      → any (λ r. p r && q r) rows ≡ false
      → ((r : R) → q (f r) ≡ q r)
      → select q (update p f rows) ≡ select q rows
  unfolding select update
  select-update_none p q f [] e h = refl
  select-update_none p q f (r ∷ rows) e h = ground (arith, h r, select-update_none p q f rows)
