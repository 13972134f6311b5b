-- ===== src/Table/Updates.antt =====
-- UPDATEs of rows that a query does not read, or reads before them only, and counts of found rows.
use blackglass_server.Base.{
  ◌≢◌, ◌+◌, ◌≤◌, ◌≡◌, refl, Bool, true, false, none, some, List, [], ◌∷◌, All, arith, nat_eq,
  text_eq,
}
use blackglass_server.Table.{update, count, find}

module _ {A : Type 0} where
  -- An update of rows that a query reads neither before nor after it.
  pub find-update_unread :
      (p q : A → Bool) (f : A → A) (xs : List A)
      → All (λ x. p x ≡ true → (q x ≡ false) × (q (f x) ≡ false)) xs
      → find q (update p f xs) ≡ find q xs
  unfolding find update
  find-update_unread p q f [] h = refl
  find-update_unread p q f (x ∷ xs) (h, hs) = ground (arith, find-update_unread p q f xs hs)

  -- An update that takes rows out of a count.
  pub count-update_out :
      (p q : A → Bool) (f : A → A) (xs : List A)
      → All (λ x. p x ≡ true → (q x ≡ true) × (q (f x) ≡ false)) xs
      → count q (update p f xs) + count p xs ≡ count q xs
  unfolding count update
  count-update_out p q f [] h = refl
  count-update_out p q f (x ∷ xs) (h, hs) = ground (arith, count-update_out p q f xs hs)

  pub count_of_find : (p : A → Bool) (x : A) (xs : List A) → find p xs ≡ some x → 1 ≤ count p xs
  unfolding count find
  count_of_find p x [] e = cc
  count_of_find p x (y ∷ ys) e = ground (arith, count_of_find p x ys)

  pub count_mono :
      (p q : A → Bool) (xs : List A) → ((x : A) → p x ≡ true → q x ≡ true) → count p xs ≤ count q xs
  unfolding count
  count_mono p q [] h = omega arith
  count_mono p q (x ∷ xs) h = ground (arith, h x, count_mono p q xs h)

  pub find_not_none :
      (p q : A → Bool) (xs : List A) (x : A) → find p xs ≡ some x → q x ≡ true → find q xs ≢ none
  unfolding find
  find_not_none p q [] x e h = cc
  find_not_none p q (y ∷ ys) x e h = ground (arith, find_not_none p q ys x)
