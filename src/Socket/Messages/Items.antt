-- ===== src/Socket/Messages/Items.antt =====
-- The items of a response: whether they fit, in pages or in one list.
use blackglass_server.Base.{
  ℕ, ◌+◌, ◌≤◌, ◌≡◌, refl, sym, ap, ◌∙◌, Bool, true, false, Option, none, some, List, [], ◌∷◌, ◌++◌,
  arith, ltb, ltb→ge, Bool-cases, inl, inr, if◌then◌else◌, nat_eq, text_eq,
}
use blackglass_server.Revisions.{Revision}
use blackglass_server.Socket.Messages.{fit_items, max_large_response_bytes}

-- The bytes of items with commas between them.
unfoldable pub joined_size : (Revision → ℕ) → Bool → List Revision → ℕ
joined_size encoded first [] = 0
joined_size encoded first (r ∷ rs) =
    (if first then 0 else 1) + encoded r + joined_size encoded false rs

abbrev pub keep : Option (Bool × ℕ) → List Revision → Option (List Revision)
keep none all = none
keep (some _) all = some all

module _ (encoded : Revision → ℕ) where
  abbrev after_fit : Option (Bool × ℕ) → List Revision → Option (Bool × ℕ)
  after_fit none rs = none
  after_fit (some (first, bytes)) rs = fit_items encoded first bytes rs

  fit_items-append :
      (first : Bool) (bytes : ℕ) (xs ys : List Revision)
      → fit_items encoded first bytes (xs ++ ys) ≡ after_fit (fit_items encoded first bytes xs) ys
  unfolding fit_items
  fit_items-append first bytes [] ys = refl
  fit_items-append first bytes (x ∷ xs) ys =
      at_limit _ _ (ltb max_large_response_bytes (bytes + (if first then 0 else 1) + encoded x + 2))
        (fit_items-append false (bytes + (if first then 0 else 1) + encoded x) xs ys)
    where
      at_limit :
          (a b : Option (Bool × ℕ)) (over : Bool)
          → a ≡ after_fit b ys
          → (if over then none else a) ≡ after_fit (if over then none else b) ys
      at_limit a b true h = refl
      at_limit a b false h = h

  -- All rows fit exactly if their bytes do.
  pub fit_items-joined_size :
      (first : Bool) (bytes : ℕ) (rs all : List Revision)
      → bytes + 2 ≤ max_large_response_bytes
      → keep (fit_items encoded first bytes rs) all ≡ (
          if ltb max_large_response_bytes (bytes + joined_size encoded first rs + 2)
          then none
          else some all)
  unfolding fit_items joined_size
  fit_items-joined_size first bytes [] all le = ground arith
  fit_items-joined_size first bytes (r ∷ rs) all le =
      elim (Bool-cases
        (ltb max_large_response_bytes (bytes + (if first then 0 else 1) + encoded r + 2))) [
          | inl e ↦ ground arith
          | inr e ↦ ground (
            arith,
            fit_items-joined_size false (bytes + (if first then 0 else 1) + encoded r) rs all
                (omega (arith, ltb→ge _ _ e)),
          )
        ]

  joins :
      (o : Option (Bool × ℕ)) (rows rest : List Revision)
      → (elim (keep o rest) [ none ↦ none | some more ↦ some (rows ++ more) ])
        ≡ keep o (rows ++ rest)
  joins none rows rest = refl
  joins (some x) rows rest = refl

  short_page :
      (fitted : Option (Bool × ℕ)) (rows : List Revision)
      → (elim fitted [ none ↦ none | some (later, total) ↦ some rows ]) ≡ keep fitted rows
  short_page none rows = refl
  short_page (some x) rows = refl

  full_page :
      (fitted : Option (Bool × ℕ)) (rows rest : List Revision)
      (next : Bool → ℕ → Option (List Revision))
      → ((later : Bool) (total : ℕ)
          → next later total ≡ keep (fit_items encoded later total rest) rest)
      → (elim fitted [
        | none ↦ none
        | some (later, total) ↦ elim (next later total) [
          | none ↦ none
          | some more ↦ some (rows ++ more)
        ]
      ])
        ≡ keep (after_fit fitted rest) (rows ++ rest)
  full_page none rows rest next h = refl
  full_page (some (later, total)) rows rest next h =
      ap (λ (o : Option (List Revision)). elim o [ none ↦ none | some more ↦ some (rows ++ more) ])
        (h later total)
      ∙ joins (fit_items encoded later total rest) rows rest

  -- One round, by whether its page is full.
  pub collect_round :
      (full : Bool) (first : Bool) (bytes : ℕ) (rows all : List Revision)
      (next : Bool → ℕ → Option (List Revision))
      → (full ≡ true → all ≡ rows)
      → (full ≡ false
          → (rest : List Revision) × (all ≡ rows ++ rest)
            × ((later : Bool) (total : ℕ)
                → next later total ≡ keep (fit_items encoded later total rest) rest))
      → (elim (fit_items encoded first bytes rows) [
        | none ↦ none
        | some (later, total) ↦
            if full
            then some rows
            else elim (next later total) [ none ↦ none | some more ↦ some (rows ++ more) ]
      ])
        ≡ keep (fit_items encoded first bytes all) all
  collect_round true first bytes rows all next short long =
      short_page (fit_items encoded first bytes rows) rows
      ∙ ap (λ l. keep (fit_items encoded first bytes l) l) (sym (short refl))
  collect_round false first bytes rows all next short long =
      let (rest, whole, later) = long refl in
      full_page (fit_items encoded first bytes rows) rows rest next later
      ∙ ap (λ o. keep o (rows ++ rest)) (sym (fit_items-append first bytes rows rest))
      ∙ ap (λ l. keep (fit_items encoded first bytes l) l) (sym whole)
