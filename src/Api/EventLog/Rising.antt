-- ===== src/Api/EventLog/Rising.antt =====
-- internal/api/handlers/events.go, List: rows whose ids rise, and what a page of them leaves.
use skybeam_mail.Prelude.{
  ℕ, zero, suc, ◌≡◌, ◌<◌, ◌≤◌, refl, ap, Bool, true, false, List, [], ◌∷◌, ◌++◌, leb, map, take,
  drop, length, All, arith, Bool-cases, inl, inr,
}
use skybeam_mail.Prelude.Int.{pos}
use skybeam_mail.Events.Writer.Log.{IsNumbered}
use skybeam_mail.Store.Rows.{EventRow}
use skybeam_mail.Store.Table.{select, order_by, place}
use skybeam_mail.Api.EventLog.{is_after, last_id}

-- The ids rise.
abbrev pub IsRising : List EventRow → Type 0
IsRising [] = Unit {0}
IsRising (r ∷ rows) = All (λ s. r.id < s.id) rows × IsRising rows

pub IsNumbered-IsRising : (n : ℕ) (rows : List EventRow) → IsNumbered n rows → IsRising rows
IsNumbered-IsRising n [] h = tt
IsNumbered-IsRising n (r ∷ rows) (p, q, h) = (q, IsNumbered-IsRising n rows h)

-- A selection of rows whose ids rise.
All-selected :
    (p : EventRow → Bool) (n : ℕ) (rows : List EventRow)
    → All (λ s. n < s.id) rows
    → All (λ s. n < s.id) (select p rows)
unfolding select
All-selected p n [] h = tt
All-selected p n (r ∷ rows) (q, h) = elim (Bool-cases (p r)) [
  | inl hit ↦ rw hit (q, All-selected p n rows h)
  | inr miss ↦ rw miss (All-selected p n rows h)
]

pub select-IsRising :
    (p : EventRow → Bool) (rows : List EventRow) → IsRising rows → IsRising (select p rows)
unfolding select
select-IsRising p [] h = tt
select-IsRising p (r ∷ rows) (q, h) = elim (Bool-cases (p r)) [
  | inl hit ↦ rw hit (All-selected p r.id rows q, select-IsRising p rows h)
  | inr miss ↦ rw miss (select-IsRising p rows h)
]

-- ORDER BY id leaves such rows as they are.
place-least :
    (r : EventRow) (rows : List EventRow)
    → All (λ s. r.id < s.id) rows
    → place (λ a b. leb a.id b.id) r rows ≡ r ∷ rows
unfolding place
place-least r [] h = refl
place-least r (s ∷ rows) (q, h) = ground arith

pub order_by-IsRising :
    (rows : List EventRow) → IsRising rows → order_by (λ a b. leb a.id b.id) rows ≡ rows
unfolding order_by
order_by-IsRising [] h = refl
order_by-IsRising (r ∷ rows) (q, h) = rw (order_by-IsRising rows h) (place-least r rows q)

pub select-select :
    (p q : EventRow → Bool) (rows : List EventRow)
    → ((r : EventRow) → p r ≡ true → q r ≡ true)
    → select p (select q rows) ≡ select p rows
unfolding select
select-select p q [] h = refl
select-select p q (r ∷ rows) h = elim (Bool-cases (q r)) [
  | inl hit ↦ rw hit (ground (arith, select-select p q rows h))
  | inr miss ↦ rw miss (elim (Bool-cases (p r)) [
    | inl both ↦ let bad : false ≡ true = rw miss at (h r both) in cc
    | inr off ↦ rw off (select-select p q rows h)
  ])
]

module _ (account : ℕ) where
  -- Rows of the account, with ids above a number.
  abbrev Above : ℕ → List EventRow → Type 0
  Above n = All (λ s. (s.account_id ≡ account) × (n < s.id))

  pub is_after-Above :
      (n : ℕ) (r : EventRow)
      → is_after account (pos n) r ≡ true
      → (r.account_id ≡ account) × (n < r.id)
  unfolding is_after
  is_after-Above n r e = (ground arith, ground arith)

  pub Above-is_after :
      (n : ℕ) (r : EventRow) → r.account_id ≡ account → n < r.id → is_after account (pos n) r ≡ true
  unfolding is_after
  Above-is_after n r e h = ground arith

  at-last : (r : EventRow) → is_after account (pos r.id) r ≡ false
  unfolding is_after
  at-last r = ground arith

  behind : (n : ℕ) (r : EventRow) → r.id < n → is_after account (pos n) r ≡ false
  unfolding is_after
  behind n r h = ground arith

  select-Above :
      (n : ℕ) (rows : List EventRow)
      → All (λ s. n < s.id) rows
      → All (λ s. s.account_id ≡ account) rows
      → select (is_after account (pos n)) rows ≡ rows
  unfolding select
  select-Above n [] h k = refl
  select-Above n (r ∷ rows) (p, h) (q, k) =
      rw (Above-is_after n r q p) (ap (λ t. r ∷ t) (select-Above n rows h k))

  -- The last id of a page is above what is below the page.
  pub last_id-above :
      (n l : ℕ) (r : EventRow) (rows : List EventRow)
      → n < r.id
      → All (λ s. n < s.id) rows
      → n < last_id r (take l rows)
  unfolding last_id
  last_id-above n zero r rows p h = p
  last_id-above n (suc l) r [] p h = p
  last_id-above n (suc l) r (s ∷ rows) p (q, h) = last_id-above n l s rows q h

  -- What comes after the last id of a page is what the page left.
  pub select-rest :
      (l : ℕ) (r : EventRow) (rows : List EventRow)
      → IsRising (r ∷ rows)
      → All (λ s. s.account_id ≡ account) (r ∷ rows)
      → select (is_after account (pos (last_id r (take l rows)))) (r ∷ rows) ≡ drop l rows
  unfolding select last_id
  select-rest zero r rows (q, h) (o, k) = rw (at-last r) (select-Above r.id rows q k)
  select-rest (suc l) r [] (q, h) (o, k) = rw (at-last r) refl
  select-rest (suc l) r (s ∷ rows) ((q, q'), h) (o, k) =
      rw (behind (last_id s (take l rows)) r (last_id-above r.id l s rows q q'))
        (select-rest l s rows h k)

pub take-drop : (l : ℕ) (rows : List EventRow) → take l rows ++ drop l rows ≡ rows
take-drop zero rows = refl
take-drop (suc l) [] = refl
take-drop (suc l) (r ∷ rows) = ap (λ t. r ∷ t) (take-drop l rows)

pub length-drop-le : (l : ℕ) (rows : List EventRow) → length (drop l rows) ≤ length rows
length-drop-le zero rows = omega arith
length-drop-le (suc l) [] = omega arith
length-drop-le (suc l) (r ∷ rows) = omega (arith, length-drop-le l rows)

pub map-append :
    (f : EventRow → EventRow) (xs ys : List EventRow) → map f (xs ++ ys) ≡ map f xs ++ map f ys
map-append f [] ys = refl
map-append f (x ∷ xs) ys = ap (λ t. f x ∷ t) (map-append f xs ys)
