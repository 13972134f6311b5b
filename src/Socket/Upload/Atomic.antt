-- ===== src/Socket/Upload/Atomic.antt =====
-- An upload piece by piece is one commit of the pieces put together.
use blackglass_server.Base.{
  ℕ, suc, ◌+◌, ◌≤◌, ◌<◌, ◌≡◌, refl, sym, ap, ◌∙◌, true, false, List, [], ◌∷◌, ◌++◌, map, length,
  length-append, arith, some, ltb, ◌||◌, ◌==◌, nat_eq,
}
use blackglass_server.Revisions.{Revision, NewRevision, piece_size}
use blackglass_server.Socket.Pull.Pieces.{concat, IsPieces}
use blackglass_server.Socket.Session.{Config, Pending, Session, AppState, Answer, next}
use blackglass_server.Socket.Upload.{upload_chunk, stage_piece, finish_upload}

append_assoc : (xs ys zs : List ℕ) → xs ++ ys ++ zs ≡ xs ++ (ys ++ zs)
append_assoc [] ys zs = refl
append_assoc (x ∷ xs) ys zs = ap (λ l. x ∷ l) (append_assoc xs ys zs)

append_nil : (xs : List ℕ) → xs ++ [] ≡ xs
append_nil [] = refl
append_nil (x ∷ xs) = ap (λ l. x ∷ l) (append_nil xs)

-- The upload with further pieces written.
abbrev pub staged : Pending → List (List ℕ) → Pending
staged p [] = p
staged p (c ∷ cs) =
    staged (record p { file = p.file ++ c; pieces = suc p.pieces; bytes = p.bytes + length c }) cs

-- `next` for each piece but the last, and the answer of the commit.
abbrev pub answered : List (List ℕ) → Answer × Session × AppState → List Answer × Session × AppState
answered cs (answer, session, s) = (map (λ _. next) cs ++ answer ∷ [], session, s)

module _ (config : Config) (notice_size : NewRevision → ℕ) (event_size : Revision → ℕ)
    (now ts : ℕ) where
  -- One piece after the other, without a shutdown between them.
  abbrev pub upload_all : List (List ℕ) → Session → AppState → List Answer × Session × AppState
  upload_all [] session s = ([], session, s)
  upload_all (c ∷ cs) session s =
      let (answer, session', s') =
        upload_chunk config notice_size event_size now ts false c session s in
      let (answers, last, final) = upload_all cs session' s' in (answer ∷ answers, last, final)

  last_piece :
      (c : List ℕ) (session : Session) (p : Pending) (s : AppState)
      → session.pending ≡ some p
      → length c ≤ piece_size
      → suc p.pieces ≡ p.revision.pieces
      → p.bytes + length c ≡ p.revision.size
      → upload_chunk config notice_size event_size now ts false c session s
        ≡ finish_upload config notice_size event_size now ts session (staged p (c ∷ [])) s
  unfolding upload_chunk stage_piece
  last_piece c session p s there small pieces bytes =
      let small' : ltb piece_size (length c) ≡ false = ground arith in
      let fits : (ltb p.revision.pieces (suc p.pieces) || ltb p.revision.size (p.bytes + length c))
          ≡ false =
        ground arith in
      let last : ltb (suc p.pieces) p.revision.pieces ≡ false = ground arith in
      let whole : (p.bytes + length c == p.revision.size) ≡ true = ground arith in
      rw (there, small', fits, last, whole) refl

  next_piece :
      (c : List ℕ) (session : Session) (p : Pending) (s : AppState)
      → session.pending ≡ some p
      → length c ≤ piece_size
      → suc p.pieces < p.revision.pieces
      → p.bytes + length c ≤ p.revision.size
      → upload_chunk config notice_size event_size now ts false c session s
        ≡ (next, record session { pending = some (staged p (c ∷ [])) }, s)
  unfolding upload_chunk stage_piece
  next_piece c session p s there small pieces bytes =
      let small' : ltb piece_size (length c) ≡ false = ground arith in
      let fits : (ltb p.revision.pieces (suc p.pieces) || ltb p.revision.size (p.bytes + length c))
          ≡ false =
        ground arith in
      let more : ltb (suc p.pieces) p.revision.pieces ≡ true = ground arith in
      rw (there, small', fits, more) refl

  -- The answers and the state behind a first answer.
  abbrev behind : List (List ℕ) → Answer × Session × AppState → List Answer × Session × AppState
  behind cs (answer, session, s) =
      let (answers, last, final) = upload_all cs session s in (answer ∷ answers, last, final)

  pub uploads_all :
      (c : List ℕ) (cs : List (List ℕ)) (session : Session) (p : Pending) (s : AppState)
      → session.pending ≡ some p
      → p.pieces + suc (length cs) ≡ p.revision.pieces
      → p.bytes + (length c + length (concat cs)) ≡ p.revision.size
      → IsPieces (c ∷ cs)
      → upload_all (c ∷ cs) session s
        ≡ answered cs
            (finish_upload config notice_size event_size now ts session (staged p (c ∷ cs)) s)
  unfolding finish_upload
  uploads_all c [] session p s there pieces bytes (small, _) =
      ap (behind [])
        (last_piece c session p s there small (omega (arith, pieces)) (omega (arith, bytes)))
  uploads_all c (d ∷ cs) session p s there pieces bytes (small, smalls) =
      ap (behind (d ∷ cs)) (
        next_piece c session p s there small (omega (arith, pieces))
          (omega (arith, bytes, length-append d (concat cs))))
      ∙ ap (λ (answers, last, final). (next ∷ answers, last, final))
          (uploads_all d cs (record session { pending = some (staged p (c ∷ [])) })
            (staged p (c ∷ [])) s refl (omega (arith, pieces))
            (omega (arith, bytes, length-append d (concat cs))) smalls)

  -- What is staged in the end.
  pub staged-file : (p : Pending) (cs : List (List ℕ)) → (staged p cs).file ≡ p.file ++ concat cs
  staged-file p [] = sym (append_nil p.file)
  staged-file p (c ∷ cs) =
      staged-file
        (record p { file = p.file ++ c; pieces = suc p.pieces; bytes = p.bytes + length c }) cs
      ∙ append_assoc p.file c (concat cs)

  pub staged-permits :
      (p : Pending) (cs : List (List ℕ))
      → ((staged p cs).revision ≡ p.revision)
        × ((staged p cs).storage_reservation ≡ p.storage_reservation)
        × ((staged p cs).user_upload_permit ≡ p.user_upload_permit)
  staged-permits p [] = (refl, refl, refl)
  staged-permits p (c ∷ cs) =
      staged-permits
        (record p { file = p.file ++ c; pieces = suc p.pieces; bytes = p.bytes + length c }) cs
