-- ===== src/Socket/Pull/Pieces.antt =====
-- The pieces of a download are its content, cut in order.
use blackglass_server.Base.{
  ℕ, zero, suc, ◌+◌, ◌-◌, ◌*◌, ◌≤◌, min, ◌≡◌, ◌≢◌, ◌⊎◌, refl, sym, ap, subst, ◌∙◌, List, [], ◌∷◌,
  ◌++◌, All, arith, take, drop, length, length-take, take-drop, ltb, Bool-cases, inl, inr, ok,
}
use blackglass_server.Database.{Db}
use blackglass_server.Revisions.{piece_size}
use blackglass_server.Revisions.Reads.{content_chunk}
use blackglass_server.Socket.Replay.{Gate, go, shutdown, revoked}
use blackglass_server.Socket.Pull.{
  Served, served, interrupted, refused, out_of_fuel, failed, pull_pieces, send_piece,
}

abbrev pub concat : List (List ℕ) → List ℕ
concat [] = []
concat (xs ∷ xss) = xs ++ concat xss

abbrev pub IsPieces : List (List ℕ) → Type 0
IsPieces = All (λ xs. length xs ≤ piece_size)

-- The three checks of a piece let it pass: the first finds nothing, the others no ended session.
abbrev pub IsPassed : (ℕ → Gate) → ℕ → Type 0
IsPassed gate n = (gate n ≡ go) × (gate (n + 1) ≢ revoked) × (gate (n + 2) ≢ revoked)

-- What the checks from step `n` on have found when the pieces were sent and the download ended so: the
-- first check of the next piece a shutdown, or one of the three an ended session.
abbrev pub AreChecked : (ℕ → Gate) → ℕ → List (List ℕ) → Type 0
AreChecked gate n [] = Unit
AreChecked gate n (piece ∷ pieces) = IsPassed gate n × AreChecked gate (n + 3) pieces

abbrev pub AreInterrupted : (ℕ → Gate) → ℕ → List (List ℕ) → Type 0
AreInterrupted gate n [] = gate n ≡ shutdown
AreInterrupted gate n (piece ∷ pieces) = IsPassed gate n × AreInterrupted gate (n + 3) pieces

abbrev pub AreRefused : (ℕ → Gate) → ℕ → List (List ℕ) → Type 0
AreRefused gate n [] = (gate n ≡ revoked) ⊎ ((gate n ≡ go) × (gate (n + 1) ≡ revoked))
AreRefused gate n (piece ∷ pieces) =
    (((pieces ≡ []) × (gate n ≡ go) × (gate (n + 2) ≡ revoked)))
    ⊎ (IsPassed gate n × AreRefused gate (n + 3) pieces)

-- The pieces sent from step `n` on, against the content from the offset on.
unfoldable pub IsServed : (ℕ → Gate) → ℕ → List ℕ → List (List ℕ) × Served → Type 0
IsServed gate n content (pieces, served) =
    IsPieces pieces × (concat pieces ≡ content) × AreChecked gate n pieces
IsServed gate n content (pieces, interrupted) =
    IsPieces pieces
    × ((rest : List ℕ) × (concat pieces ++ rest ≡ content))
    × AreInterrupted gate n pieces
IsServed gate n content (pieces, refused) =
    IsPieces pieces
    × ((rest : List ℕ) × (concat pieces ++ rest ≡ content))
    × AreRefused gate n pieces
IsServed gate n content (pieces, failed e) = ⊥
IsServed gate n content (pieces, out_of_fuel) = ⊥

append_assoc : (xs ys zs : List ℕ) → xs ++ ys ++ zs ≡ xs ++ (ys ++ zs)
append_assoc [] ys zs = refl
append_assoc (x ∷ xs) ys zs = ap (λ l. x ∷ l) (append_assoc xs ys zs)

append_nil : (xs : List ℕ) → xs ++ [] ≡ xs
append_nil [] = refl
append_nil (x ∷ xs) = ap (λ l. x ∷ l) (append_nil xs)

drop_nil : (n : ℕ) → drop {A = ℕ} n [] ≡ []
drop_nil zero = refl
drop_nil (suc n) = refl

next_sum : (m n : ℕ) → suc (m + n) ≡ suc m + n
next_sum m n = omega arith

pub drop-drop : (n m : ℕ) (xs : List ℕ) → drop n (drop m xs) ≡ drop (m + n) xs
drop-drop n zero xs = ap (λ k. drop k xs) (ground arith)
drop-drop n (suc m) [] = drop_nil n ∙ sym (drop_nil (suc m + n))
drop-drop n (suc m) (x ∷ xs) = drop-drop n m xs ∙ ap (λ k. drop k (x ∷ xs)) (next_sum m n)

nil_of : (n : ℕ) (xs : List ℕ) → length xs ≤ n → drop n xs ≡ []
nil_of zero [] h = refl
nil_of zero (x ∷ xs) h = absurd (omega arith)
nil_of (suc n) [] h = refl
nil_of (suc n) (x ∷ xs) h = nil_of n xs (omega arith)

module _ (gate : ℕ → Gate) (n : ℕ) where
  -- A piece before the pieces that follow.
  with_piece :
      (content chunk : List ℕ) (rest : List (List ℕ)) (end : Served) (left : List ℕ)
      → length chunk ≤ piece_size
      → chunk ++ left ≡ content
      → IsPassed gate n
      → IsServed gate (n + 3) left (rest, end)
      → IsServed gate n content (chunk ∷ rest, end)
  unfolding IsServed
  with_piece content chunk rest served left small e passed (p, h, c) =
      ((small, p), ap (λ l. chunk ++ l) h ∙ e, (passed, c))
  with_piece content chunk rest interrupted left small e passed (p, (more, h), c) = (
    (small, p),
    (more, append_assoc chunk (concat rest) more ∙ ap (λ l. chunk ++ l) h ∙ e),
    (passed, c),
  )
  with_piece content chunk rest refused left small e passed (p, (more, h), c) = (
    (small, p),
    (more, append_assoc chunk (concat rest) more ∙ ap (λ l. chunk ++ l) h ∙ e),
    inr (passed, c),
  )
  with_piece content chunk rest (failed x) left small e passed h = h
  with_piece content chunk rest out_of_fuel left small e passed h = h

  -- One piece, by what the three checks of its round find.
  piece-IsServed :
      (g g' g'' : Gate) (content chunk : List ℕ) (rest : List (List ℕ) × Served) (left : List ℕ)
      → gate n ≡ g
      → gate (n + 1) ≡ g'
      → gate (n + 2) ≡ g''
      → length chunk ≤ piece_size
      → chunk ++ left ≡ content
      → IsServed gate (n + 3) left rest
      → IsServed gate n content (send_piece g g' g'' (ok chunk) rest)
  unfolding IsServed send_piece
  piece-IsServed shutdown g' g'' content chunk rest left a b c small e h = (tt, (content, refl), a)
  piece-IsServed revoked g' g'' content chunk rest left a b c small e h =
      (tt, (content, refl), inl a)
  piece-IsServed go revoked g'' content chunk rest left a b c small e h =
      (tt, (content, refl), inr (a, b))
  piece-IsServed go go revoked content chunk rest left a b c small e h =
      ((small, tt), (left, ap (λ l. l ++ left) (append_nil chunk) ∙ e), inl (refl, a, c))
  piece-IsServed go shutdown revoked content chunk rest left a b c small e h =
      ((small, tt), (left, ap (λ l. l ++ left) (append_nil chunk) ∙ e), inl (refl, a, c))
  piece-IsServed go go go content chunk (rest, end) left a b c small e h =
      with_piece content chunk rest end left small e (a, λ k. cc, λ k. cc) h
  piece-IsServed go go shutdown content chunk (rest, end) left a b c small e h =
      with_piece content chunk rest end left small e (a, λ k. cc, λ k. cc) h
  piece-IsServed go shutdown go content chunk (rest, end) left a b c small e h =
      with_piece content chunk rest end left small e (a, λ k. cc, λ k. cc) h
  piece-IsServed go shutdown shutdown content chunk (rest, end) left a b c small e h =
      with_piece content chunk rest end left small e (a, λ k. cc, λ k. cc) h

module _ (gate : ℕ → Gate) (db_at : ℕ → Db) (uid : ℕ) (content : List ℕ)
    (reads : (n offset len : ℕ)
      → len ≤ piece_size
      → offset + len ≤ length content
      → content_chunk uid offset len (db_at n) ≡ ok (take len (drop offset content))) where
  -- Whatever the checks find, with fuel for the pieces that are left.
  pub pieces-IsServed :
      (fuel n offset : ℕ)
      → offset ≤ length content
      → length content + piece_size ≤ offset + fuel * piece_size
      → IsServed gate n
          (drop offset content)
          (pull_pieces fuel gate db_at uid (length content) n offset)
  unfolding pull_pieces
  pieces-IsServed zero n offset le enough = absurd (omega arith)
  pieces-IsServed (suc fuel) n offset le enough =
      let len = min (length content - offset) piece_size in
      elim (Bool-cases (ltb offset (length content))) [
        | inl more ↦
            let fit : offset + len ≤ length content = ground arith in
            let left : length content + piece_size ≤ offset + len + fuel * piece_size =
              ground arith in
            let rest = pull_pieces fuel gate db_at uid (length content) (n + 3) (offset + len) in
            rw more (
              subst
                (λ c.
                  IsServed gate n (drop offset content)
                    (send_piece (gate n) (gate (n + 1)) (gate (n + 2)) c rest))
                (sym (reads n offset len (omega arith) fit))
                (piece-IsServed gate n (gate n) (gate (n + 1)) (gate (n + 2)) (drop offset content)
                  (take len (drop offset content)) rest (drop (offset + len) content) refl refl refl
                  (omega (arith, length-take len (drop offset content)))
                  (ap (λ l. take len (drop offset content) ++ l)
                      (sym (drop-drop len offset content))
                    ∙ take-drop len (drop offset content))
                  (pieces-IsServed fuel (n + 3) (offset + len) fit left)))
        | inr end ↦
            rw (end, nil_of offset content (ground arith)) (unfold IsServed in (tt, refl, tt))
      ]
