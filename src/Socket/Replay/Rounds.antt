-- ===== src/Socket/Replay/Rounds.antt =====
-- One round of a replay, by what its checks find, and the rounds that follow it.
use blackglass_server.Base.{
  ℕ, suc, ◌+◌, ◌≤◌, ◌<◌, ◌≡◌, ◌≢◌, refl, sym, ap, subst, ◌∙◌, true, false, List, [], ◌∷◌, ◌++◌,
  length, arith, ltb, ltb→lt, ltb→ge, ◌==◌, eq_of, length-append, Bool-cases, inl, inr, ◌⊎◌,
  if◌then◌else◌, Option, none, some, nat_eq, text_eq,
}
use blackglass_server.Revisions.{Revision}
use blackglass_server.Socket.Replay.{
  Gate, go, shutdown, revoked, Ending, ready, stopped, closed, unfinished, send_page, finish,
  replay_page_size,
}

-- The checks from step `n` on passed, one at least for each of `count`, up to the step `last`.
pub record Reaches (gate : ℕ → Gate) (n count last : ℕ) : Type 0 where
  pub far : n + count ≤ last
  pub passed : (i : ℕ) → n ≤ i → i < last → gate i ≡ go

-- The revisions sent from step `n` on and the end, against all that should be sent: what ends the
-- replay is what the last check found, and all checks before it passed.
pub IsReplayed : (ℕ → Gate) → ℕ → List Revision → ℕ → List Revision × Ending → Type 0
IsReplayed gate n all version (sent, ready v) =
    (sent ≡ all)
    × (v ≡ version)
    × ((last : ℕ) × Reaches gate n (suc (length sent)) last × (gate last ≢ revoked))
IsReplayed gate n all version (sent, stopped) =
    ((rest : List Revision) × (all ≡ sent ++ rest))
    × ((last : ℕ) × Reaches gate n (length sent) last × (gate last ≡ shutdown))
IsReplayed gate n all version (sent, closed) =
    ((rest : List Revision) × (all ≡ sent ++ rest))
    × ((last : ℕ) × Reaches gate n (length sent) last × (gate last ≡ revoked))
IsReplayed gate n all version (sent, unfinished) = ⊥

none_passed : (gate : ℕ → Gate) (n : ℕ) → Reaches gate n 0 n
none_passed gate n = record { far = omega arith; passed = λ i le lt. absurd (omega arith) }

passes :
    (gate : ℕ → Gate) (n count last : ℕ)
    → gate n ≡ go
    → Reaches gate (suc n) count last
    → Reaches gate n (suc count) last
passes gate n count last e h = record {
  far = omega (arith, h.far);
  passed = λ i le lt. elim (Bool-cases (i == n)) [
    | inl here ↦ subst (λ k. gate k ≡ go) (sym (eq_of i n here)) e
    | inr later ↦ h.passed i (ground (arith, later)) lt
  ];
}

follows :
    (gate : ℕ → Gate) (n k count more last : ℕ)
    → Reaches gate n count k
    → Reaches gate k more last
    → Reaches gate n (count + more) last
follows gate n k count more last h g = record {
  far = omega (arith, h.far, g.far);
  passed = λ i le lt. elim (Bool-cases (ltb i k)) [
    | inl before ↦ h.passed i le (ltb→lt i k before)
    | inr after ↦ g.passed i (ltb→ge i k after) lt
  ];
}

fewer :
    (gate : ℕ → Gate) (n count less last : ℕ)
    → less ≤ count
    → Reaches gate n count last
    → Reaches gate n less last
fewer gate n count less last le h = record { far = omega (arith, le, h.far); passed = h.passed }

-- One page from step `n` on: all of it and the next step, or a first part and the reason.
abbrev pub IsSent : (ℕ → Gate) → ℕ → List Revision → ℕ × List Revision × Option Ending → Type 0
IsSent gate n rs (m, sent, none) = (sent ≡ rs) × Reaches gate n (length sent) m
IsSent gate n rs (m, sent, some e) =
    ((rest : List Revision) × (rs ≡ sent ++ rest))
    × Reaches gate n (length sent) m
    × (((e ≡ stopped) × (gate m ≡ shutdown)) ⊎ ((e ≡ closed) × (gate m ≡ revoked)))

cons-IsSent :
    (gate : ℕ → Gate) (n : ℕ) (r : Revision) (rs : List Revision) (m : ℕ) (sent : List Revision)
    (end : Option Ending)
    → gate n ≡ go
    → IsSent gate (suc n) rs (m, sent, end)
    → IsSent gate n (r ∷ rs) (m, r ∷ sent, end)
cons-IsSent gate n r rs m sent none e (h, p) = (ap (λ xs. r ∷ xs) h, passes gate n _ m e p)
cons-IsSent gate n r rs m sent (some x) e ((rest, h), p, k) =
    ((rest, ap (λ xs. r ∷ xs) h), passes gate n _ m e p, k)

pub sends : (gate : ℕ → Gate) (n : ℕ) (rs : List Revision) → IsSent gate n rs (send_page gate n rs)
unfolding send_page
sends gate n [] = (refl, none_passed gate n)
sends gate n (r ∷ rs) = at_gate (gate n) refl (sends gate (suc n) rs)
  where
    at_gate :
        (g : Gate)
        → gate n ≡ g
        → IsSent gate (suc n) rs (send_page gate (suc n) rs)
        → (let (m, sent, end) = send_page gate (suc n) rs in
            IsSent gate n (r ∷ rs) (elim g [
              | go ↦ (m, r ∷ sent, end)
              | shutdown ↦ (n, [], some stopped)
              | revoked ↦ (n, [], some closed)
            ]))
    at_gate go e h =
        let (m, sent, end) = send_page gate (suc n) rs in cons-IsSent gate n r rs m sent end e h
    at_gate shutdown e h = ((r ∷ rs, refl), none_passed gate n, inl (refl, e))
    at_gate revoked e h = ((r ∷ rs, refl), none_passed gate n, inr (refl, e))

append_assoc : (xs ys zs : List Revision) → xs ++ ys ++ zs ≡ xs ++ (ys ++ zs)
append_assoc [] ys zs = refl
append_assoc (x ∷ xs) ys zs = ap (λ l. x ∷ l) (append_assoc xs ys zs)

append_nil : (xs : List Revision) → xs ++ [] ≡ xs
append_nil [] = refl
append_nil (x ∷ xs) = ap (λ l. x ∷ l) (append_nil xs)

module _ (gate : ℕ → Gate) where
  finishes :
      (n m : ℕ) (g : Gate) (all : List Revision) (version : ℕ)
      → gate m ≡ g
      → Reaches gate n (suc (length all)) m
      → IsReplayed gate n all version (all, finish g version)
  unfolding IsReplayed
  finishes n m go all version e p = (refl, refl, (m, p, λ k. cc))
  finishes n m shutdown all version e p = (refl, refl, (m, p, λ k. cc))
  finishes n m revoked all version e p =
      (([], sym (append_nil all)), (m, fewer gate n _ _ m (omega arith) p, e))

  -- A later page's outcome, behind the pages sent before it.
  prefixed :
      (n m : ℕ) (rows all later : List Revision) (ending : Ending) (version : ℕ)
      → Reaches gate n (suc (length rows)) m
      → IsReplayed gate m all version (later, ending)
      → IsReplayed gate n (rows ++ all) version (rows ++ later, ending)
  unfolding IsReplayed
  prefixed n m rows all later (ready v) version p (h, k, (last, q, e)) = (
    ap (λ l. rows ++ l) h,
    k,
    (
      last,
      fewer gate n _ _ last (omega (arith, length-append rows later))
          (follows gate n m _ _ last p q),
      e,
    ),
  )
  prefixed n m rows all later stopped version p ((rest, h), (last, q, e)) = (
    (rest, ap (λ l. rows ++ l) h ∙ sym (append_assoc rows later rest)),
    (
      last,
      fewer gate n _ _ last (omega (arith, length-append rows later))
          (follows gate n m _ _ last p q),
      e,
    ),
  )
  prefixed n m rows all later closed version p ((rest, h), (last, q, e)) = (
    (rest, ap (λ l. rows ++ l) h ∙ sym (append_assoc rows later rest)),
    (
      last,
      fewer gate n _ _ last (omega (arith, length-append rows later))
          (follows gate n m _ _ last p q),
      e,
    ),
  )
  prefixed n m rows all later unfinished version p h = h

  -- One round of the loop, by what its first check finds.
  pub round :
      (n m : ℕ) (g : Gate) (rows sent : List Revision) (end : Option Ending)
      (all later : List Revision) (ending : Ending) (version : ℕ)
      → gate n ≡ g
      → IsSent gate (suc n) rows (m, sent, end)
      → ((rest : List Revision) × (all ≡ rows ++ rest))
      → (ltb (length rows) replay_page_size ≡ true → all ≡ rows)
      → (ltb (length rows) replay_page_size ≡ false
          → (rest : List Revision) × (all ≡ rows ++ rest)
            × IsReplayed gate m rest version (later, ending))
      → IsReplayed gate n all version (elim g [
        | shutdown ↦ ([], stopped)
        | revoked ↦ ([], closed)
        | go ↦ elim end [
          | some e ↦ (sent, e)
          | none ↦
              if ltb (length rows) replay_page_size
              then (sent, finish (gate m) version)
              else (sent ++ later, ending)
        ]
      ])
  unfolding IsReplayed
  round n m shutdown rows sent end all later ending version e h p short long =
      ((all, refl), (n, none_passed gate n, e))
  round n m revoked rows sent end all later ending version e h p short long =
      ((all, refl), (n, none_passed gate n, e))
  round n m go rows sent (some x) all later ending version e ((part, h), q, k) (rest, p) short
        long =
      let split : all ≡ sent ++ (part ++ rest) =
        p ∙ ap (λ l. l ++ rest) h ∙ append_assoc sent part rest in
      let reached = fewer gate n _ (length sent) m (omega arith) (passes gate n _ m e q) in
      elim k [
        | inl (a, b) ↦ rw a ((part ++ rest, split), (m, reached, b))
        | inr (a, b) ↦ rw a ((part ++ rest, split), (m, reached, b))
      ]
  round n m go rows sent none all later ending version e (h, q) p short long =
      let reached : Reaches gate n (suc (length rows)) m =
        subst (λ l. Reaches gate n (suc (length l)) m) h (passes gate n _ m e q) in
      elim (Bool-cases (ltb (length rows) replay_page_size)) [
        | inl s ↦ rw s (
            subst (λ x. IsReplayed gate n all version (x, finish (gate m) version))
              (short s ∙ sym h)
              (finishes n m (gate m) all version refl
                (subst (λ l. Reaches gate n (suc (length l)) m) (sym (short s)) reached)))
        | inr l ↦
            let (rest, w, r) = long l in
            rw l (
              subst (λ x. IsReplayed gate n all version (x ++ later, ending)) (sym h)
                (subst (λ x. IsReplayed gate n x version (rows ++ later, ending)) (sym w)
                  (prefixed n m rows rest later ending version reached r)))
      ]
