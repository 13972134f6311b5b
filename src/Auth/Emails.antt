-- ===== src/Auth/Emails.antt =====
-- Which texts are accepted as email addresses, and their canonical forms.
use blackglass_server.Base.{
  chains, ℕ, ◌+◌, ◌≡◌, refl, ap, ap₂, sym, subst, ◌∙◌, true, false, ◌||◌, [], ◌∷◌, length, all,
  arith, within, ◌-◌, ◌++◌, ◌⊎◌, Bool, false, Text, ok, ltb, ◌==◌, nat_eq, Bool-cases, inl, inr,
}
use blackglass_server.Auth.{
  CanonicalEmail, canonicalize_email, trim_start, trim_end, trim_ascii, is_ascii_whitespace,
  is_printable, lower, to_ascii_lowercase, separators, one_separator, max_email_bytes,
}
use blackglass_server.Auth.Trimming.{
  trim_ascii_of_printable, trim_start-space, trim_end-space, trim_start_at, trim_start-parts,
  trim_end-parts,
}

lower-printable : (b : ℕ) → is_printable b ≡ true → is_printable (lower b) ≡ true
lower-printable b h = ground arith

lower-lower : (b : ℕ) → lower (lower b) ≡ lower b
lower-lower b = ground arith

lower_separator : (b : ℕ) → (lower b == b'@') ≡ (b == b'@')
lower_separator b = ground arith

length-lowercase : (s : Text) → length (to_ascii_lowercase s) ≡ length s
unfolding to_ascii_lowercase
length-lowercase [] = refl
length-lowercase (b ∷ s) = omega (arith, length-lowercase s)

lowercase-printable :
    (s : Text) → all is_printable s ≡ true → all is_printable (to_ascii_lowercase s) ≡ true
unfolding to_ascii_lowercase
lowercase-printable [] h = refl
lowercase-printable (b ∷ s) h = elim (Bool-cases (is_printable b)) [
  | inl p ↦ rw (lower-printable b p) (lowercase-printable s (rw p at h))
  | inr n ↦ ground arith
]

lowercase-lowercase : (s : Text) → to_ascii_lowercase (to_ascii_lowercase s) ≡ to_ascii_lowercase s
unfolding to_ascii_lowercase
lowercase-lowercase [] = refl
lowercase-lowercase (b ∷ s) = ap₂ (λ c t. c ∷ t) (lower-lower b) (lowercase-lowercase s)

separators-lowercase : (i : ℕ) (s : Text) → separators i (to_ascii_lowercase s) ≡ separators i s
unfolding separators to_ascii_lowercase
separators-lowercase i [] = refl
separators-lowercase i (b ∷ s) = rw (lower_separator b, separators-lowercase (i + 1) s)

-- What the four tests on the trimmed text say together.
abbrev pub IsAddress : Text → Type 0
IsAddress s =
    ((length s == 0 || ltb max_email_bytes (length s)) ≡ false)
    × (all is_printable s ≡ true)
    × (one_separator (length s) (separators 0 s) ≡ true)

IsAddress-lowercase : (s : Text) → IsAddress s → IsAddress (to_ascii_lowercase s)
IsAddress-lowercase s (a, b, c) = (
  rw (length-lowercase s) a,
  lowercase-printable s b,
  rw (length-lowercase s, separators-lowercase 0 s) c,
)

accepted :
    (display : Text) (value : Text)
    → trim_ascii value ≡ display
    → IsAddress display
    → canonicalize_email value
      ≡ ok (record { display = display; canonical = to_ascii_lowercase display })
accepted display value t (a, b, c) = unfold canonicalize_email chains in rw (t, a, b, c)

-- An accepted address passed the tests, and its canonical form is the lower case of its display form.
pub canonicalize_email-eq-ok :
    (value : Text) (e : CanonicalEmail)
    → canonicalize_email value ≡ ok e
    → IsAddress e.display × (e.canonical ≡ to_ascii_lowercase e.display)
unfolding canonicalize_email chains
canonicalize_email-eq-ok value e h = ground arith

-- The same text but for letters in capitals in the first.
abbrev pub IsLowerCaseOf : Text → Text → Type 0
IsLowerCaseOf [] [] = Unit
IsLowerCaseOf (c ∷ cs) (b ∷ bs) =
    (within b'A' b'Z' c ≡ false)
    × ((b ≡ c) ⊎ ((within b'A' b'Z' b ≡ true) × (c ≡ b + (b'a' - b'A'))))
    × IsLowerCaseOf cs bs
IsLowerCaseOf _ _ = ⊥

lowercase-IsLowerCaseOf : (s : Text) → IsLowerCaseOf (to_ascii_lowercase s) s
unfolding to_ascii_lowercase
lowercase-IsLowerCaseOf [] = tt
lowercase-IsLowerCaseOf (b ∷ s) =
    (ground arith, lowered (within b'A' b'Z' b) refl, lowercase-IsLowerCaseOf s)
  where
    lowered :
        (u : Bool)
        → within b'A' b'Z' b ≡ u
        → (b ≡ lower b) ⊎ ((within b'A' b'Z' b ≡ true) × (lower b ≡ b + (b'a' - b'A')))
    lowered true e = inr (e, rw e refl)
    lowered false e = inl (rw e refl)

trims :
    (before display after : Text)
    → all is_ascii_whitespace before ≡ true
    → all is_ascii_whitespace after ≡ true
    → IsAddress display
    → trim_ascii (before ++ (display ++ after)) ≡ display
unfolding trim_ascii
trims before [] after h k (a, p, o) = cc
trims before (b ∷ s) after h k (a, p, o) =
    ap trim_end
      (trim_start-space before (b ∷ s ++ after) h ∙ trim_start_at b (s ++ after) (ground arith))
    ∙ trim_end-space (b ∷ s) after p k

-- Where an address is accepted, both its display form and its canonical form are accepted in turn,
-- with the same canonical form: canonicalising is idempotent.
canonicalize_email_idempotent :
    (value : Text) (e : CanonicalEmail)
    → canonicalize_email value ≡ ok e
    → (canonicalize_email e.display ≡ ok e)
      × (canonicalize_email e.canonical
          ≡ ok (record { display = e.canonical; canonical = e.canonical }))
canonicalize_email_idempotent value e h =
    let (a, c) = canonicalize_email-eq-ok value e h in
    let printable = IsAddress-lowercase e.display a in
    (
      accepted e.display e.display (trim_ascii_of_printable e.display a.1) a
          ∙ ap (λ k. ok (record { display = e.display; canonical = k })) (sym c),
      rw c (
          accepted (to_ascii_lowercase e.display) (to_ascii_lowercase e.display)
            (trim_ascii_of_printable (to_ascii_lowercase e.display) printable.1) printable
          ∙ ap (λ k. ok (record { display = to_ascii_lowercase e.display; canonical = k }))
              (lowercase-lowercase e.display)),
    )

-- A text that is an address between white space.
abbrev pub IsSpaced : Text → Text → Type 0
IsSpaced value display =
    (before after : Text) × (value ≡ before ++ (display ++ after))
    × (all is_ascii_whitespace before ≡ true)
    × (all is_ascii_whitespace after ≡ true)
    × IsAddress display

trimmed_parts : (value : Text) → IsAddress (trim_ascii value) → IsSpaced value (trim_ascii value)
unfolding trim_ascii
trimmed_parts value a =
    let (before, h, e) = trim_start-parts value in
    let (after, k, f) = trim_end-parts (trim_start value) in
    (before, after, e ∙ ap (λ t. before ++ t) f, h, k, a)

display_of :
    (value : Text) (e : CanonicalEmail)
    → canonicalize_email value ≡ ok e
    → trim_ascii value ≡ e.display
unfolding canonicalize_email chains
display_of value e h = ground arith

spaces_out :
    (value : Text) (e : CanonicalEmail) → canonicalize_email value ≡ ok e → IsSpaced value e.display
spaces_out value e h =
    let (a, _) = canonicalize_email-eq-ok value e h in
    let same = display_of value e h in
    subst (IsSpaced value) same (trimmed_parts value (subst IsAddress (sym same) a))

-- A text is accepted exactly if it is an address between white space, where an address has 1 to 254
-- bytes, all printable, and exactly one separator, at neither edge. Both directions, for one text of
-- that form and one that is accepted: the display form is the address and the canonical form is the
-- address with each capital letter as its small letter, and both are accepted in turn, with the same
-- canonical form.
pub canonicalize_email-IsSpaced :
    (spaced display : Text)
    → IsSpaced spaced display
    → (value : Text) (found : CanonicalEmail) → canonicalize_email value ≡ ok found
    → ((e : CanonicalEmail) × (canonicalize_email spaced ≡ ok e) × (e.display ≡ display))
      × IsSpaced value found.display
      × IsLowerCaseOf found.canonical found.display
      × (canonicalize_email found.display ≡ ok found)
      × (canonicalize_email found.canonical
          ≡ ok (record { display = found.canonical; canonical = found.canonical }))
canonicalize_email-IsSpaced spaced display (before, after, split, h, k, a) value found is_ok =
    let trimmed : trim_ascii spaced ≡ display =
      ap trim_ascii split ∙ trims before display after h k a in
    let (again, folded) = canonicalize_email_idempotent value found is_ok in
    let (_, lowered) = canonicalize_email-eq-ok value found is_ok in
    (
      (
        record { display = display; canonical = to_ascii_lowercase display },
        accepted display spaced trimmed a,
        refl,
      ),
      spaces_out value found is_ok,
      subst (λ c. IsLowerCaseOf c found.display) (sym lowered)
          (lowercase-IsLowerCaseOf found.display),
      again,
      folded,
    )
