-- ===== src/Table.antt =====
-- The forms of SQL statement that apps/server-rust/src/db.rs sends to SQLite, over a table as the
-- list of its rows in the order of insertion (the rowid), with the tests of the WHERE clauses.
pub mod Laws
pub mod Keys
pub mod Rows
pub mod Members
pub mod Sorted
pub mod Updates
use blackglass_server.Base.{
  ℕ, suc, ◌+◌, Bool, true, false, not, ◌||◌, Option, none, some, List, [], ◌∷◌, if◌then◌else◌, max,
}

module _ {ℓ} {A : Type ℓ} where
  -- SELECT * FROM xs WHERE p
  unfoldable pub select : (A → Bool) → List A → List A
  select p [] = []
  select p (x ∷ xs) = let rest = select p xs in if p x then x ∷ rest else rest

  -- DELETE FROM xs WHERE p
  unfoldable pub delete : (A → Bool) → List A → List A
  delete p [] = []
  delete p (x ∷ xs) = let rest = delete p xs in if p x then rest else x ∷ rest

  -- UPDATE xs SET f WHERE p
  unfoldable pub update : (A → Bool) → (A → A) → List A → List A
  update p f [] = []
  update p f (x ∷ xs) = (if p x then f x else x) ∷ update p f xs

  -- SELECT COUNT(*) FROM xs WHERE p; also the number of rows that an UPDATE or a DELETE changes
  unfoldable pub count : (A → Bool) → List A → ℕ
  count p [] = 0
  count p (x ∷ xs) = let rest = count p xs in if p x then suc rest else rest

  -- EXISTS(SELECT 1 FROM xs WHERE p)
  unfoldable pub exists : (A → Bool) → List A → Bool
  exists p [] = false
  exists p (x ∷ xs) = p x || exists p xs

  -- query_row(SELECT * FROM xs WHERE p).optional()
  unfoldable pub find : (A → Bool) → List A → Option A
  find p [] = none
  find p (x ∷ xs) = let rest = find p xs in if p x then some x else rest

  -- SELECT COALESCE(SUM(f),0) FROM xs
  unfoldable pub sum_of : (A → ℕ) → List A → ℕ
  sum_of f [] = 0
  sum_of f (x ∷ xs) = f x + sum_of f xs

  -- SELECT COALESCE(MAX(f),0) FROM xs
  unfoldable pub max_of : (A → ℕ) → List A → ℕ
  max_of f [] = 0
  max_of f (x ∷ xs) = max (f x) (max_of f xs)

  unfoldable pub insert_by : (A → A → Bool) → A → List A → List A
  insert_by le x [] = x ∷ []
  insert_by le x (y ∷ ys) = let rest = insert_by le x ys in if le x y then x ∷ y ∷ ys else y ∷ rest

  -- SELECT * FROM xs ORDER BY the order `le`, rows that it does not tell apart by rowid
  unfoldable pub order_by : (A → A → Bool) → List A → List A
  unfolding insert_by
  order_by le [] = []
  order_by le (x ∷ xs) = insert_by le x (order_by le xs)
