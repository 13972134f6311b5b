-- ===== src/Table/Keys.antt =====
-- Primary keys: a column that tells all rows apart.
use mathlib.Core.Path.{subst}
use blackglass_server.Base.{
  ◌≤◌, ◌≡◌, refl, ap, Bool, true, false, some, List, [], ◌∷◌, ◌++◌, All, All-append, arith,
  if◌then◌else◌, Eq, ◌==◌, Bool-cases, inl, inr,
}
use blackglass_server.Table.{delete, update, count, exists, find}
use blackglass_server.Table.Laws.{All-delete, All-update}

module _ {ℓ} {A : Type ℓ} {K : Type 0} ⦃e : Eq K⦄ (key : A → K) where
  abbrev pub IsFresh : K → List A → Type 0
  IsFresh k = All (λ x. (key x == k) ≡ false)

  abbrev pub IsKeyed : List A → Type 0
  IsKeyed [] = Unit
  IsKeyed (x ∷ xs) = IsFresh (key x) xs × IsKeyed xs

module _ {ℓ} {A : Type ℓ} {K : Type 0} ⦃e : Eq K⦄ (key : A → K) where
  pub count-fresh : (k : K) (xs : List A) → IsFresh key k xs → count (λ x. key x == k) xs ≡ 0
  unfolding count
  count-fresh k [] h = refl
  count-fresh k (x ∷ xs) (h, hs) = ground (arith, count-fresh k xs hs)

  -- At most one row has a given key.
  pub count-keyed : (k : K) (xs : List A) → IsKeyed key xs → count (λ x. key x == k) xs ≤ 1
  unfolding count
  count-keyed k [] h = omega arith
  count-keyed k (x ∷ xs) (h, hs) =
      ground (arith, count-keyed k xs hs, count-fresh (key x) xs h, e.beq_iff (key x) k)

  pub IsFresh-exists :
      (k : K) (xs : List A) → exists (λ x. key x == k) xs ≡ false → IsFresh key k xs
  unfolding exists
  IsFresh-exists k [] h = tt
  IsFresh-exists k (x ∷ xs) h = ground (arith, IsFresh-exists k xs)

  not_eq_sym : (a b : K) → (a == b) ≡ false → (b == a) ≡ false
  not_eq_sym a b h = ground (arith, e.beq_iff a b, e.beq_iff b a)

  -- An INSERT of a fresh key keeps the keys apart.
  pub IsKeyed-append :
      (xs : List A) (y : A) → IsKeyed key xs → IsFresh key (key y) xs → IsKeyed key (xs ++ y ∷ [])
  IsKeyed-append [] y h f = (tt, tt)
  IsKeyed-append (x ∷ xs) y (h, hs) (f, fs) =
      (All-append _ xs (y ∷ []) h (not_eq_sym (key x) (key y) f, tt), IsKeyed-append xs y hs fs)

  pub IsKeyed-delete : (p : A → Bool) (xs : List A) → IsKeyed key xs → IsKeyed key (delete p xs)
  unfolding delete
  IsKeyed-delete p [] h = tt
  IsKeyed-delete p (x ∷ xs) (h, hs) =
      ground (arith, IsKeyed-delete p xs hs, All-delete (λ y. (key y == key x) ≡ false) p xs h)

  -- An UPDATE that leaves the key column alone keeps them apart too.
  pub IsKeyed-update :
      (p : A → Bool) (f : A → A) (xs : List A)
      → ((x : A) → key (f x) ≡ key x)
      → IsKeyed key xs
      → IsKeyed key (update p f xs)
  unfolding update
  IsKeyed-update p f [] k h = tt
  IsKeyed-update p f (x ∷ xs) k (h, hs) = (subst_key (p x), IsKeyed-update p f xs k hs)
    where
      subst_key : (b : Bool) → IsFresh key (key (if b then f x else x)) (update p f xs)
      subst_key true =
          rw (k x) (All-update (λ y. (key y == key x) ≡ false) p f xs (λ y _ q. rw (k y) q) h)
      subst_key false = All-update (λ y. (key y == key x) ≡ false) p f xs (λ y _ q. rw (k y) q) h

  fresh_ne :
      (k : K) (x : A) (xs : List A) → IsFresh key k xs → All (λ y. (key y == k) ≡ true → y ≡ x) xs
  fresh_ne k x [] h = tt
  fresh_ne k x (y ∷ ys) (h, hs) = (λ t. cc, fresh_ne k x ys hs)

  -- With distinct keys the row that is found is the only one with its key.
  pub found_is_only :
      (k : K) (xs : List A) (x : A)
      → IsKeyed key xs
      → find (λ y. key y == k) xs ≡ some x
      → All (λ y. (key y == k) ≡ true → y ≡ x) xs
  unfolding find
  found_is_only k [] x h e = tt
  found_is_only k (y ∷ ys) x (h, hs) found = elim (Bool-cases (key y == k)) [
    | inl here ↦
        let same : y ≡ x = ground arith in
        (
          λ _. same,
          fresh_ne k x ys (subst (λ j. IsFresh key j ys) ((e.beq_iff (key y) k).0 here) h),
        )
    | inr there ↦ (λ t. cc, found_is_only k ys x hs (ground arith))
  ]

  -- Updating the one row with a key lowers no count that this row is not part of.
  pub count-update_found :
      (k : K) (q : A → Bool) (f : A → A) (xs : List A) (x : A)
      → q x ≡ false
      → All (λ y. (key y == k) ≡ true → y ≡ x) xs
      → count q xs ≤ count q (update (λ y. key y == k) f xs)
  unfolding count update
  count-update_found k q f [] x n h = omega arith
  count-update_found k q f (y ∷ ys) x n (h, hs) = elim (Bool-cases (key y == k)) [
    | inl here ↦ rw here (ground (arith, h here, count-update_found k q f ys x n hs, ap q (h here)))
    | inr there ↦ rw there (ground (arith, count-update_found k q f ys x n hs))
  ]
