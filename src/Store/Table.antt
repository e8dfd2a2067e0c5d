-- ===== src/Store/Table.antt =====
-- The statements on a table as functions on its list of rows, with the `WHERE` clause as a test.
pub mod Laws
pub mod Picks
pub mod Distinct
pub mod Order
use skybeam_mail.Prelude.{ℕ, suc, Bool, Option, none, some, List, [], ◌∷◌, ◌++◌, if◌then◌else◌, any}

module _ {ℓ} {R : Type ℓ} where
  -- SELECT … WHERE p
  unfoldable pub select : (R → Bool) → List R → List R
  select p [] = []
  select p (r ∷ rows) = if p r then r ∷ select p rows else select p rows

  -- SELECT … WHERE p, for a query that reads one row
  unfoldable pub find : (R → Bool) → List R → Option R
  find p [] = none
  find p (r ∷ rows) = if p r then some r else find p rows

  -- UPDATE … SET f WHERE p
  unfoldable pub update : (R → Bool) → (R → R) → List R → List R
  update p f [] = []
  update p f (r ∷ rows) = (if p r then f r else r) ∷ update p f rows

  -- DELETE … WHERE p
  unfoldable pub delete : (R → Bool) → List R → List R
  delete p [] = []
  delete p (r ∷ rows) = if p r then delete p rows else r ∷ delete p rows

  -- INSERT … ON CONFLICT (the columns that p compares) DO UPDATE SET f
  unfoldable pub upsert : (R → Bool) → R → (R → R) → List R → List R
  upsert p new f rows = if any p rows then update p f rows else rows ++ new ∷ []

  -- SELECT COUNT(*) … WHERE p
  unfoldable pub count : (R → Bool) → List R → ℕ
  count p [] = 0
  count p (r ∷ rows) = if p r then suc (count p rows) else count p rows

-- ORDER BY, as an insertion sort; rows that tie keep the order in which they were inserted.
module _ {ℓ} {R : Type ℓ} (before : R → R → Bool) where
  unfoldable pub place : R → List R → List R
  place r [] = r ∷ []
  place r (s ∷ rows) = if before r s then r ∷ s ∷ rows else s ∷ place r rows

  unfoldable pub order_by : List R → List R
  unfolding place
  order_by [] = []
  order_by (r ∷ rows) = place r (order_by rows)
