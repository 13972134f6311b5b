-- ===== src/Auth/Trimming.antt =====
-- `trim_matches` of ASCII white space: what it takes away, and what it leaves.
use blackglass_server.Base.{
  ℕ, ◌≡◌, refl, ap, ◌&&◌, ◌∙◌, true, false, [], ◌∷◌, length, all, arith, ◌++◌, false, Text, ◌==◌,
  nat_eq, Bool-cases, inl, inr,
}
use blackglass_server.Auth.{trim_start, trim_end, trim_ascii, is_ascii_whitespace, is_printable}

pub printable_is_no_space : (b : ℕ) → is_printable b ≡ true → is_ascii_whitespace b ≡ false
printable_is_no_space b h = ground arith

pub trim_start_of_printable : (s : Text) → all is_printable s ≡ true → trim_start s ≡ s
unfolding trim_start
trim_start_of_printable [] h = refl
trim_start_of_printable (b ∷ s) h = elim (Bool-cases (is_printable b)) [
  | inl p ↦ rw (printable_is_no_space b p)
  | inr n ↦ ground arith
]

pub trim_end_of_printable : (s : Text) → all is_printable s ≡ true → trim_end s ≡ s
unfolding trim_end
trim_end_of_printable [] h = refl
trim_end_of_printable (b ∷ s) h = elim (Bool-cases (is_printable b)) [
  | inl p ↦
      rw (printable_is_no_space b p) (ap (λ t. b ∷ t) (trim_end_of_printable s (ground arith)))
  | inr n ↦ ground arith
]

pub trim_ascii_of_printable : (s : Text) → all is_printable s ≡ true → trim_ascii s ≡ s
unfolding trim_ascii
trim_ascii_of_printable s h = rw (trim_start_of_printable s h) (trim_end_of_printable s h)

-- White space around a text.
pub trim_start-space :
    (before s : Text)
    → all is_ascii_whitespace before ≡ true
    → trim_start (before ++ s) ≡ trim_start s
unfolding trim_start
trim_start-space [] s h = refl
trim_start-space (b ∷ before) s h = ground (arith, trim_start-space before s)

pub trim_end_of_space : (s : Text) → all is_ascii_whitespace s ≡ true → trim_end s ≡ []
unfolding trim_end
trim_end_of_space [] h = refl
trim_end_of_space (b ∷ s) h = ground (arith, trim_end_of_space s)

pub trim_end-space :
    (s after : Text)
    → all is_printable s ≡ true
    → all is_ascii_whitespace after ≡ true
    → trim_end (s ++ after) ≡ s
unfolding trim_end
trim_end-space [] after h k = trim_end_of_space after k
trim_end-space (b ∷ s) after h k = elim (Bool-cases (is_printable b)) [
  | inl p ↦
      rw (printable_is_no_space b p) (ap (λ t. b ∷ t) (trim_end-space s after (ground arith) k))
  | inr n ↦ ground arith
]

pub trim_start_at : (b : ℕ) (s : Text) → is_printable b ≡ true → trim_start (b ∷ s) ≡ b ∷ s
unfolding trim_start
trim_start_at b s p = rw (printable_is_no_space b p) refl

pub empty_of : (t : Text) → (length t == 0) ≡ true → t ≡ []
empty_of [] h = refl
empty_of (b ∷ t) h = absurd (ground arith)

-- What is trimmed away is white space.
pub trim_start-parts :
    (s : Text)
    → (before : Text) × (all is_ascii_whitespace before ≡ true) × (s ≡ before ++ trim_start s)
unfolding trim_start
trim_start-parts [] = ([], refl, refl)
trim_start-parts (b ∷ s) =
    let (before, h, e) = trim_start-parts s in
    elim (Bool-cases (is_ascii_whitespace b)) [
      | inl space ↦ (b ∷ before, ground (arith, h, space), rw space (ap (λ t. b ∷ t) e))
      | inr other ↦ ([], refl, rw other refl)
    ]

pub trim_end-parts :
    (s : Text) → (after : Text) × (all is_ascii_whitespace after ≡ true) × (s ≡ trim_end s ++ after)
unfolding trim_end
trim_end-parts [] = ([], refl, refl)
trim_end-parts (b ∷ s) =
    let (after, h, e) = trim_end-parts s in
    elim (Bool-cases (is_ascii_whitespace b && length (trim_end s) == 0)) [
      | inl blank ↦ (
        b ∷ after,
        ground (arith, h, blank),
        rw blank (
            ap (λ t. b ∷ t)
              (e ∙ ap (λ t. t ++ after) (empty_of (trim_end s) (ground (arith, blank))))),
      )
      | inr other ↦ (after, h, rw other (ap (λ t. b ∷ t) e))
    ]
