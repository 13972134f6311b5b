-- ===== src/Table/Rows.antt =====
-- What an UPDATE and an INSERT do to the answers of later queries.
use blackglass_server.Base.{
  ℕ, ◌≡◌, refl, Bool, true, false, Option, none, some, List, [], ◌∷◌, ◌++◌, All, arith,
  if◌then◌else◌, max, Bool-cases, inl, inr,
}
use blackglass_server.Table.{update, exists, find, max_of}

module _ {ℓ} {A : Type ℓ} where
  abbrev pub changed : (A → Bool) → (A → A) → Option A → Option A
  changed p f none = none
  changed p f (some x) = some (if p x then f x else x)

  -- An update that no query sees but in its answer.
  pub find-update :
      (p q : A → Bool) (f : A → A) (xs : List A)
      → ((x : A) → q (f x) ≡ q x)
      → find q (update p f xs) ≡ changed p f (find q xs)
  unfolding find update
  find-update p q f [] h = refl
  find-update p q f (x ∷ xs) h = ground (arith, h x, find-update p q f xs h)

  pub exists-update :
      (p q : A → Bool) (f : A → A) (xs : List A)
      → ((x : A) → q (f x) ≡ q x)
      → exists q (update p f xs) ≡ exists q xs
  unfolding exists update
  exists-update p q f [] h = refl
  exists-update p q f (x ∷ xs) h = ground (arith, h x, exists-update p q f xs h)

  pub find_of_exists :
      (q : A → Bool) (xs : List A) → exists q xs ≡ true → (x : A) × (find q xs ≡ some x)
  unfolding exists find
  find_of_exists q [] h = cc
  find_of_exists q (x ∷ xs) h = elim (Bool-cases (q x)) [
    | inl e ↦ (x, rw e refl)
    | inr e ↦ let (y, found) = find_of_exists q xs (rw e at h) in (y, rw e found)
  ]

  -- A row with a fresh key is found where it was appended.
  pub find-append_new :
      (q : A → Bool) (xs : List A) (y : A)
      → All (λ x. q x ≡ false) xs
      → q y ≡ true
      → find q (xs ++ y ∷ []) ≡ some y
  unfolding find
  find-append_new q [] y h e = rw e
  find-append_new q (x ∷ xs) y (h, hs) e = rw h (find-append_new q xs y hs e)

  pub max_of-append :
      (f : A → ℕ) (xs ys : List A) → max_of f (xs ++ ys) ≡ max (max_of f xs) (max_of f ys)
  unfolding max_of
  max_of-append f [] ys = omega arith
  max_of-append f (x ∷ xs) ys = omega (arith, max_of-append f xs ys)
