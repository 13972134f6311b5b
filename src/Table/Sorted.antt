-- ===== src/Table/Sorted.antt =====
-- Rows through ORDER BY and LIMIT, keys of rows that are members, and a DELETE of rows that a query
-- does not read.
use blackglass_server.Base.{
  length, ℕ, zero, suc, ◌≡◌, ◌≤◌, ◌⊎◌, inl, inr, refl, ap, Bool, true, false, none, some, List, [],
  ◌∷◌, All, arith, take, Eq, ◌==◌,
}
use blackglass_server.Table.{select, delete, count, find, insert_by, order_by}
use blackglass_server.Table.Keys.{IsFresh, IsKeyed}
use blackglass_server.Table.Members.{In}

module _ {A : Type 0} where
  pub take-In : (n : ℕ) (x : A) (xs : List A) → In x (take n xs) → In x xs
  take-In zero x xs i = absurd i
  take-In (suc n) x [] i = absurd i
  take-In (suc n) x (y ∷ ys) (inl e) = inl e
  take-In (suc n) x (y ∷ ys) (inr i) = inr (take-In n x ys i)

  insert_by-In :
      (le : A → A → Bool) (x y : A) (ys : List A) → In x (insert_by le y ys) → (x ≡ y) ⊎ In x ys
  unfolding insert_by
  insert_by-In le x y [] i = i
  insert_by-In le x y (z ∷ zs) i = ground (arith, insert_by-In le x y zs)

  pub order_by-In : (le : A → A → Bool) (x : A) (xs : List A) → In x (order_by le xs) → In x xs
  unfolding order_by
  order_by-In le x [] i = i
  order_by-In le x (y ∷ ys) i =
      ground (arith, insert_by-In le x y (order_by le ys) i, order_by-In le x ys)

  pub All-In {κ} : (P : A → Type κ) (xs : List A) → ((x : A) → In x xs → P x) → All P xs
  All-In P [] h = tt
  All-In P (x ∷ xs) h = (h x (inl refl), All-In P xs λ y i. h y (inr i))

  pub In_of_All {κ} : (P : A → Type κ) (x : A) (xs : List A) → All P xs → In x xs → P x
  In_of_All P x [] h i = absurd i
  In_of_All P x (y ∷ ys) (h, hs) (inl e) = rw e h
  In_of_All P x (y ∷ ys) (h, hs) (inr i) = In_of_All P x ys hs i

  pub find-In : (q : A → Bool) (x : A) (xs : List A) → find q xs ≡ some x → In x xs
  unfolding find
  find-In q x [] e = cc
  find-In q x (y ∷ ys) e = ground (arith, find-In q x ys)

  -- A row that a DELETE removes is not one that the query reads.
  pub find-delete_unread :
      (p q : A → Bool) (xs : List A)
      → All (λ x. p x ≡ true → q x ≡ false) xs
      → find q (delete p xs) ≡ find q xs
  unfolding find delete
  find-delete_unread p q [] h = refl
  find-delete_unread p q (x ∷ xs) (h, hs) = ground (arith, find-delete_unread p q xs hs)

  pub count-delete_unread :
      (p q : A → Bool) (xs : List A)
      → All (λ x. p x ≡ true → q x ≡ false) xs
      → count q (delete p xs) ≡ count q xs
  unfolding count delete
  count-delete_unread p q [] h = refl
  count-delete_unread p q (x ∷ xs) (h, hs) = ground (arith, count-delete_unread p q xs hs)

  pub count-find-none : (q : A → Bool) (xs : List A) → find q xs ≡ none → count q xs ≡ 0
  unfolding count find
  count-find-none q [] e = refl
  count-find-none q (x ∷ xs) e = ground (arith, count-find-none q xs)

  pub find_of_count_zero : (q : A → Bool) (xs : List A) → count q xs ≡ 0 → find q xs ≡ none
  unfolding count find
  find_of_count_zero q [] e = refl
  find_of_count_zero q (x ∷ xs) e = ground (arith, find_of_count_zero q xs)

module _ {A : Type 0} {K : Type 0} ⦃e : Eq K⦄ (key : A → K) where
  fresh-In : (k : K) (x : A) (xs : List A) → IsFresh key k xs → In x xs → (key x == k) ≡ false
  fresh-In k x xs h i = In_of_All (λ y. (key y == k) ≡ false) x xs h i

  -- Rows with the same key are one row.
  pub keyed_same :
      (x y : A) (xs : List A) → IsKeyed key xs → In x xs → In y xs → (key x == key y) ≡ true → x ≡ y
  keyed_same x y [] h i j s = absurd i
  keyed_same x y (z ∷ zs) (h, hs) (inl i) (inl j) s = cc
  keyed_same x y (z ∷ zs) (h, hs) (inr i) (inr j) s = keyed_same x y zs hs i j s
  keyed_same x y (z ∷ zs) (h, hs) (inl i) (inr j) s = ground (
    arith,
    fresh-In (key z) y zs h j,
    ap key i,
    e.beq_iff (key x) (key y),
    e.beq_iff (key y) (key z),
  )
  keyed_same x y (z ∷ zs) (h, hs) (inr i) (inl j) s = ground (
    arith,
    fresh-In (key z) x zs h i,
    ap key j,
    e.beq_iff (key x) (key y),
    e.beq_iff (key x) (key z),
  )

module _ {ℓ} {A : Type ℓ} where
  pub length-select_le : (p : A → Bool) (xs : List A) → length (select p xs) ≤ length xs
  unfolding select
  length-select_le p [] = omega arith
  length-select_le p (x ∷ xs) = ground (arith, length-select_le p xs)
