-- ===== src/Store/Table/Laws.antt =====
-- What the statements do to the rows that a test picks.
use skybeam_mail.Prelude.{
  ◌≡◌, ◌⊎◌, if◌then◌else◌, refl, Bool, true, false, ◌||◌, none, some, List, [], ◌∷◌, ◌++◌,
  append-nil, arith, any, Bool-cases, inl, inr,
}
use skybeam_mail.Store.Table.{select, find, update, delete, upsert}

module _ {ℓ} {R : Type ℓ} where
  pub any-append : (q : R → Bool) (xs ys : List R) → any q (xs ++ ys) ≡ (any q xs || any q ys)
  any-append q [] ys = refl
  any-append q (x ∷ xs) ys = ground (arith, any-append q xs ys)

  -- An update that leaves a test alone leaves its answer alone.
  pub any-update :
      (p q : R → Bool) (f : R → R) (xs : List R)
      → ((r : R) → q (f r) ≡ q r)
      → any q (update p f xs) ≡ any q xs
  unfolding update
  any-update p q f [] h = refl
  any-update p q f (x ∷ xs) h = ground (arith, h x, any-update p q f xs h)

  pub select-append :
      (q : R → Bool) (xs ys : List R) → select q (xs ++ ys) ≡ select q xs ++ select q ys
  unfolding select
  select-append q [] ys = refl
  select-append q (x ∷ xs) ys = ground (arith, select-append q xs ys)

  -- An update of rows that a test does not pick, and that it does not pick afterwards either.
  pub select-update :
      (p q : R → Bool) (f : R → R) (xs : List R)
      → ((r : R) → p r ≡ true → (q r ≡ false) × (q (f r) ≡ false))
      → select q (update p f xs) ≡ select q xs
  unfolding select update
  select-update p q f [] h = refl
  select-update p q f (x ∷ xs) h = ground (arith, h x, select-update p q f xs h)

  pub select-upsert :
      (p q : R → Bool) (new : R) (f : R → R) (xs : List R)
      → q new ≡ false
      → ((r : R) → p r ≡ true → (q r ≡ false) × (q (f r) ≡ false))
      → select q (upsert p new f xs) ≡ select q xs
  unfolding upsert
  select-upsert p q new f xs hn h = elim (Bool-cases (any p xs)) [
    | inl old ↦ rw old (select-update p q f xs h)
    | inr fresh ↦
        rw (fresh, select-append q xs (new ∷ []))
          (unfold select in rw hn (append-nil (select q xs)))
  ]

  -- After an upsert there is a row with the key.
  pub any-upsert_self :
      (p : R → Bool) (new : R) (f : R → R) (xs : List R)
      → p new ≡ true
      → ((r : R) → p (f r) ≡ p r)
      → any p (upsert p new f xs) ≡ true
  unfolding upsert
  any-upsert_self p new f xs hn h = elim (Bool-cases (any p xs)) [
    | inl old ↦ rw (old, any-update p p f xs h) old
    | inr fresh ↦ rw (fresh, any-append p xs (new ∷ []), fresh, hn)
  ]

  -- An upsert loses no row with another key.
  pub any-upsert :
      (p q : R → Bool) (new : R) (f : R → R) (xs : List R)
      → ((r : R) → q (f r) ≡ q r)
      → any q xs ≡ true
      → any q (upsert p new f xs) ≡ true
  unfolding upsert
  any-upsert p q new f xs h e = elim (Bool-cases (any p xs)) [
    | inl old ↦ rw (old, any-update p q f xs h) e
    | inr fresh ↦ rw (fresh, any-append q xs (new ∷ []), e)
  ]

  pub any-weaken :
      (p q : R → Bool) (xs : List R)
      → ((r : R) → p r ≡ true → q r ≡ true)
      → any q xs ≡ false
      → any p xs ≡ false
  any-weaken p q [] h e = refl
  any-weaken p q (x ∷ xs) h e = ground (arith, h x, any-weaken p q xs h)

  pub find-append_new :
      (p : R → Bool) (xs : List R) (r : R)
      → any p xs ≡ false
      → p r ≡ true
      → find p (xs ++ r ∷ []) ≡ some r
  unfolding find
  find-append_new p [] r e h = rw h
  find-append_new p (x ∷ xs) r e h = ground (arith, find-append_new p xs r)

  pub find-append_old :
      (p : R → Bool) (xs ys : List R) (r : R) → find p xs ≡ some r → find p (xs ++ ys) ≡ some r
  unfolding find
  find-append_old p [] ys r e = cc
  find-append_old p (x ∷ xs) ys r e = ground (arith, find-append_old p xs ys r)

  -- After an update that leaves the test alone, the row that was found is found as the update left it.
  pub find-update :
      (q p : R → Bool) (f : R → R) (xs : List R) (r : R)
      → ((s : R) → p (f s) ≡ p s)
      → find p xs ≡ some r
      → find p (update q f xs) ≡ some (if q r then f r else r)
  unfolding find update
  find-update q p f [] r h e = cc
  find-update q p f (x ∷ xs) r h e = elim (Bool-cases (p x)) [
    | inl hit ↦ let same : x ≡ r = ground arith in ground (arith, h x)
    | inr miss ↦ ground (arith, h x, find-update q p f xs r h)
  ]

  pub find-upsert :
      (q p : R → Bool) (new : R) (f : R → R) (xs : List R) (r : R)
      → ((s : R) → p (f s) ≡ p s)
      → find p xs ≡ some r
      → (find p (upsert q new f xs) ≡ some r) ⊎ (find p (upsert q new f xs) ≡ some (f r))
  unfolding upsert
  find-upsert q p new f xs r h e =
      ground (arith, find-append_old p xs (new ∷ []) r e, find-update q p f xs r h e)

  -- What is found passes the test, and any test that it passes finds some row.
  pub find-some : (p : R → Bool) (xs : List R) (r : R) → find p xs ≡ some r → p r ≡ true
  unfolding find
  find-some p [] r e = cc
  find-some p (x ∷ xs) r e = elim (Bool-cases (p x)) [
    | inl hit ↦ let same : x ≡ r = ground arith in rw same at hit
    | inr miss ↦ find-some p xs r (ground arith)
  ]

  pub any_of_find :
      (p q : R → Bool) (xs : List R) (r : R) → find p xs ≡ some r → q r ≡ true → any q xs ≡ true
  unfolding find
  any_of_find p q [] r e h = cc
  any_of_find p q (x ∷ xs) r e h = elim (Bool-cases (p x)) [
    | inl hit ↦ let same : x ≡ r = ground arith in rw (same, h)
    | inr miss ↦ ground (arith, any_of_find p q xs r)
  ]

  pub find-delete : (p : R → Bool) (xs : List R) → find p (delete p xs) ≡ none
  unfolding find delete
  find-delete p [] = refl
  find-delete p (x ∷ xs) = ground (arith, find-delete p xs)

  pub any-delete : (p : R → Bool) (xs : List R) → any p (delete p xs) ≡ false
  unfolding delete
  any-delete p [] = refl
  any-delete p (x ∷ xs) = ground (arith, any-delete p xs)

  pub select-delete_other :
      (p q : R → Bool) (xs : List R)
      → ((r : R) → p r ≡ true → q r ≡ false)
      → select q (delete p xs) ≡ select q xs
  unfolding select delete
  select-delete_other p q [] h = refl
  select-delete_other p q (x ∷ xs) h = ground (arith, h x, select-delete_other p q xs h)

  pub find-delete_other :
      (p q : R → Bool) (xs : List R)
      → ((r : R) → p r ≡ true → q r ≡ false)
      → find q (delete p xs) ≡ find q xs
  unfolding find delete
  find-delete_other p q [] h = refl
  find-delete_other p q (x ∷ xs) h = ground (arith, h x, find-delete_other p q xs h)
