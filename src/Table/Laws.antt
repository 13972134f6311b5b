-- ===== src/Table/Laws.antt =====
-- What the statements do to the number of rows, to a count, to a sum and to what holds of all rows.
use blackglass_server.Base.{
  ℕ, suc, ◌+◌, ◌≤◌, ◌≡◌, refl, Bool, true, false, none, some, List, [], ◌∷◌, ◌++◌, All, length,
  arith, if◌then◌else◌,
}
use blackglass_server.Table.{
  select, delete, update, count, exists, find, sum_of, insert_by, order_by,
}

module _ {ℓ} {A : Type ℓ} where
  pub length-delete : (p : A → Bool) (xs : List A) → length (delete p xs) ≤ length xs
  unfolding delete
  length-delete p [] = omega arith
  length-delete p (x ∷ xs) = ground (arith, length-delete p xs)

  pub length-delete-count :
      (p : A → Bool) (xs : List A) → length (delete p xs) + count p xs ≡ length xs
  unfolding delete count
  length-delete-count p [] = omega arith
  length-delete-count p (x ∷ xs) = ground (arith, length-delete-count p xs)

  pub length-update : (p : A → Bool) (f : A → A) (xs : List A) → length (update p f xs) ≡ length xs
  unfolding update
  length-update p f [] = refl
  length-update p f (x ∷ xs) = omega (arith, length-update p f xs)

  pub count-le-length : (p : A → Bool) (xs : List A) → count p xs ≤ length xs
  unfolding count
  count-le-length p [] = omega arith
  count-le-length p (x ∷ xs) = ground (arith, count-le-length p xs)

  pub length-order_by : (le : A → A → Bool) (xs : List A) → length (order_by le xs) ≡ length xs
  unfolding order_by
  length-order_by le [] = refl
  length-order_by le (x ∷ xs) = omega (arith, length-order_by le xs, inserted x (order_by le xs))
    where
      inserted : (x : A) (ys : List A) → length (insert_by le x ys) ≡ suc (length ys)
      inserted x [] = refl
      inserted x (y ∷ ys) = ground (arith, inserted x ys)

  pub count-append : (p : A → Bool) (xs ys : List A) → count p (xs ++ ys) ≡ count p xs + count p ys
  unfolding count
  count-append p [] ys = omega arith
  count-append p (x ∷ xs) ys = ground (arith, count-append p xs ys)

  pub count-delete : (p q : A → Bool) (xs : List A) → count q (delete p xs) ≤ count q xs
  unfolding count delete
  count-delete p q [] = omega arith
  count-delete p q (x ∷ xs) = ground (arith, count-delete p q xs)

  -- Deleting rows that `q` does not hold of leaves the count of `q` alone.
  pub count-delete_eq :
      (p q : A → Bool) (xs : List A)
      → ((x : A) → p x ≡ true → q x ≡ false)
      → count q (delete p xs) ≡ count q xs
  unfolding count delete
  count-delete_eq p q [] h = refl
  count-delete_eq p q (x ∷ xs) h = ground (arith, h x, count-delete_eq p q xs h)

  -- An update after which a changed row satisfies `q` only if it did before raises no count.
  pub count-update_le :
      (p q : A → Bool) (f : A → A) (xs : List A)
      → ((x : A) → p x ≡ true → q (f x) ≡ true → q x ≡ true)
      → count q (update p f xs) ≤ count q xs
  unfolding count update
  count-update_le p q f [] h = omega arith
  count-update_le p q f (x ∷ xs) h = ground (arith, h x, count-update_le p q f xs h)

  -- The other way round, it lowers none.
  pub count-update_ge :
      (p q : A → Bool) (f : A → A) (xs : List A)
      → ((x : A) → p x ≡ true → q x ≡ true → q (f x) ≡ true)
      → count q xs ≤ count q (update p f xs)
  unfolding count update
  count-update_ge p q f [] h = omega arith
  count-update_ge p q f (x ∷ xs) h = ground (arith, h x, count-update_ge p q f xs h)

  -- Whatever the update, a count falls by no more than the number of changed rows.
  pub count-update_drop :
      (p q : A → Bool) (f : A → A) (xs : List A) → count q xs ≤ count q (update p f xs) + count p xs
  unfolding count update
  count-update_drop p q f [] = omega arith
  count-update_drop p q f (x ∷ xs) = ground (arith, count-update_drop p q f xs)

  pub sum_of-append : (f : A → ℕ) (xs ys : List A) → sum_of f (xs ++ ys) ≡ sum_of f xs + sum_of f ys
  unfolding sum_of
  sum_of-append f [] ys = omega arith
  sum_of-append f (x ∷ xs) ys = omega (arith, sum_of-append f xs ys)

  -- What a DELETE removes and what it keeps add up to the whole.
  pub sum_of-delete :
      (f : A → ℕ) (p : A → Bool) (xs : List A)
      → sum_of f (select p xs) + sum_of f (delete p xs) ≡ sum_of f xs
  unfolding sum_of select delete
  sum_of-delete f p [] = omega arith
  sum_of-delete f p (x ∷ xs) = ground (arith, sum_of-delete f p xs)

  pub sum_of-select_le :
      (f : A → ℕ) (p : A → Bool) (xs : List A) → sum_of f (select p xs) ≤ sum_of f xs
  sum_of-select_le f p xs = omega (arith, sum_of-delete f p xs)

  pub select-append :
      (p : A → Bool) (xs ys : List A) → select p (xs ++ ys) ≡ select p xs ++ select p ys
  unfolding select
  select-append p [] ys = refl
  select-append p (x ∷ xs) ys = ground (arith, select-append p xs ys)

  pub find-append :
      (p : A → Bool) (xs ys : List A)
      → find p (xs ++ ys) ≡ elim (find p xs) [ some x ↦ some x | none ↦ find p ys ]
  unfolding find
  find-append p [] ys = refl
  find-append p (x ∷ xs) ys = ground (arith, find-append p xs ys)

  pub exists-append_right :
      (p : A → Bool) (xs : List A) (y : A) → p y ≡ true → exists p (xs ++ y ∷ []) ≡ true
  unfolding exists
  exists-append_right p [] y h = ground arith
  exists-append_right p (x ∷ xs) y h = ground (arith, exists-append_right p xs y h)

  -- A row that a query returns passed its test.
  pub find-eq-some : (p : A → Bool) (xs : List A) (x : A) → find p xs ≡ some x → p x ≡ true
  unfolding find
  find-eq-some p [] x h = cc
  find-eq-some p (y ∷ ys) x h = ground (arith, find-eq-some p ys x)

  pub exists-of_find :
      (p q : A → Bool) (xs : List A) (x : A) → find p xs ≡ some x → q x ≡ true → exists q xs ≡ true
  unfolding find exists
  exists-of_find p q [] x h k = cc
  exists-of_find p q (y ∷ ys) x h k = ground (arith, exists-of_find p q ys x)

module _ {ℓ κ} {A : Type ℓ} (P : A → Type κ) where
  pub All-delete : (p : A → Bool) (xs : List A) → All P xs → All P (delete p xs)
  unfolding delete
  All-delete p [] h = tt
  All-delete p (x ∷ xs) (h, hs) = ground (arith, All-delete p xs hs)

  pub All-select : (p : A → Bool) (xs : List A) → All P xs → All P (select p xs)
  unfolding select
  All-select p [] h = tt
  All-select p (x ∷ xs) (h, hs) = ground (arith, All-select p xs hs)

  pub All-update :
      (p : A → Bool) (f : A → A) (xs : List A)
      → ((x : A) → p x ≡ true → P x → P (f x))
      → All P xs
      → All P (update p f xs)
  unfolding update
  All-update p f [] k h = tt
  All-update p f (x ∷ xs) k (h, hs) = (changed (p x) refl, All-update p f xs k hs)
    where
      changed : (b : Bool) → p x ≡ b → P (if b then f x else x)
      changed true e = k x e h
      changed false e = h

  pub All-find : (p : A → Bool) (xs : List A) (x : A) → All P xs → find p xs ≡ some x → P x
  unfolding find
  All-find p [] x h e = cc
  All-find p (y ∷ ys) x (h, hs) e = ground (arith, All-find p ys x hs)

module _ {ℓ} {A : Type ℓ} where
  -- Deleting rows that a query would not return leaves its answer alone.
  pub find-delete :
      (p q : A → Bool) (xs : List A)
      → ((x : A) → p x ≡ true → q x ≡ false)
      → find q (delete p xs) ≡ find q xs
  unfolding find delete
  find-delete p q [] h = refl
  find-delete p q (x ∷ xs) h = ground (arith, h x, find-delete p q xs h)
