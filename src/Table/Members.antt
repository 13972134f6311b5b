-- ===== src/Table/Members.antt =====
-- Rows as members of a table: what a query finds, keeps and takes the maximum of.
use blackglass_server.Base.{
  ℕ, ◌≤◌, ◌≡◌, ◌⊎◌, inl, inr, refl, Bool, true, false, not, ◌&&◌, List, [], ◌∷◌, arith, Bool-cases,
  sym, leb,
}
use blackglass_server.Table.{select, delete, exists, max_of}

pub bool_ext : (a b : Bool) → (a ≡ true → b ≡ true) → (b ≡ true → a ≡ true) → a ≡ b
bool_ext true b f g = sym (f refl)
bool_ext false true f g = g refl
bool_ext false false f g = refl

module _ {A : Type 0} where
  abbrev pub In : A → List A → Type 0
  In x [] = ⊥
  In x (y ∷ ys) = (x ≡ y) ⊎ In x ys

module _ {A : Type 0} where
  pub exists_witness :
      (q : A → Bool) (xs : List A) → exists q xs ≡ true → (x : A) × In x xs × (q x ≡ true)
  unfolding exists
  exists_witness q [] h = cc
  exists_witness q (x ∷ xs) h = elim (Bool-cases (q x)) [
    | inl e ↦ (x, inl refl, e)
    | inr e ↦ let (y, there, holds) = exists_witness q xs (rw e at h) in (y, inr there, holds)
  ]

  pub exists_intro :
      (q : A → Bool) (x : A) (xs : List A) → In x xs → q x ≡ true → exists q xs ≡ true
  unfolding exists
  exists_intro q x [] i h = absurd i
  exists_intro q x (y ∷ ys) (inl e) h = rw (← e, h) refl
  exists_intro q x (y ∷ ys) (inr i) h = ground (arith, exists_intro q x ys i h)

  pub In-select : (p : A → Bool) (x : A) (xs : List A) → In x xs → p x ≡ true → In x (select p xs)
  unfolding select
  In-select p x [] i h = i
  In-select p x (y ∷ ys) (inl e) h = rw (← e, h) (inl refl)
  In-select p x (y ∷ ys) (inr i) h = ground (arith, In-select p x ys i h)

  pub select-In : (p : A → Bool) (x : A) (xs : List A) → In x (select p xs) → In x xs × (p x ≡ true)
  unfolding select
  select-In p x [] i = absurd i
  select-In p x (y ∷ ys) i = ground (arith, select-In p x ys)

  pub In-delete : (p : A → Bool) (x : A) (xs : List A) → In x xs → p x ≡ false → In x (delete p xs)
  unfolding delete
  In-delete p x [] i h = i
  In-delete p x (y ∷ ys) (inl e) h = rw (← e, h) (inl refl)
  In-delete p x (y ∷ ys) (inr i) h = ground (arith, In-delete p x ys i h)

  pub delete-In :
      (p : A → Bool) (x : A) (xs : List A) → In x (delete p xs) → In x xs × (p x ≡ false)
  unfolding delete
  delete-In p x [] i = absurd i
  delete-In p x (y ∷ ys) i = ground (arith, delete-In p x ys)

  -- Selecting from what a DELETE has left is deleting from what was selected.
  pub select-delete_comm :
      (p q r : A → Bool) (xs : List A)
      → ((x : A) → r x ≡ (q x && p x))
      → select q (delete r xs) ≡ delete p (select q xs)
  unfolding select delete
  select-delete_comm p q r [] h = refl
  select-delete_comm p q r (x ∷ xs) h = ground (arith, h x, select-delete_comm p q r xs h)

  pub select-delete_eq :
      (p q : A → Bool) (xs : List A)
      → ((x : A) → p x ≡ true → q x ≡ false)
      → select q (delete p xs) ≡ select q xs
  unfolding select delete
  select-delete_eq p q [] h = refl
  select-delete_eq p q (x ∷ xs) h = ground (arith, h x, select-delete_eq p q xs h)

  pub delete-not : (p : A → Bool) (xs : List A) → delete (λ x. not (p x)) xs ≡ select p xs
  unfolding select delete
  delete-not p [] = refl
  delete-not p (x ∷ xs) = ground (arith, delete-not p xs)

  module _ (f : A → ℕ) where
    pub le-max_of : (x : A) (xs : List A) → In x xs → f x ≤ max_of f xs
    unfolding max_of
    le-max_of x [] i = absurd i
    le-max_of x (y ∷ ys) (inl e) = rw e (omega arith)
    le-max_of x (y ∷ ys) (inr i) = omega (arith, le-max_of x ys i)

    -- The maximum of a table with a row is that of some row.
    pub max_of_witness : (x : A) (xs : List A) → In x xs → (y : A) × In y xs × (f y ≡ max_of f xs)
    unfolding max_of
    max_of_witness x [] i = absurd i
    max_of_witness x (y ∷ []) i = (y, inl refl, omega arith)
    max_of_witness x (y ∷ z ∷ zs) i =
        let (w, there, e) = max_of_witness z (z ∷ zs) (inl refl) in
        elim (Bool-cases (leb (f y) (max_of f (z ∷ zs)))) [
          | inl below ↦ (w, inr there, ground arith)
          | inr above ↦ (y, inl refl, ground arith)
        ]

    pub max_of-le : (m : ℕ) (xs : List A) → ((x : A) → In x xs → f x ≤ m) → max_of f xs ≤ m
    unfolding max_of
    max_of-le m [] h = omega arith
    max_of-le m (x ∷ xs) h = omega (arith, h x (inl refl), max_of-le m xs (λ y i. h y (inr i)))
