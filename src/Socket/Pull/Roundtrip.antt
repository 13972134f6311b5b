-- ===== src/Socket/Pull/Roundtrip.antt =====
-- What was uploaded is what is downloaded.
use blackglass_server.Base.{
  ℕ, ◌+◌, ◌≤◌, ◌<◌, ◌≡◌, ◌≢◌, refl, sym, ap, subst, ◌∙◌, List, [], ◌∷◌, ◌++◌, map, All, All-map,
  arith, take, drop, length, true, false, ok, Option, none, some, Text, chains, OnOk, OnOk-ok,
  OnOk-ensure, OnOk-bind, ◌==◌, nat_eq, text_eq, ==_refl,
}
use blackglass_server.Table.{find}
use blackglass_server.Table.Rows.{find-append_new}
use blackglass_server.Database.{Db, RevisionRow, RevisionContent, insert_revision}
use blackglass_server.Revisions.{
  NewRevision, Revision, row_of, piece_size, pieces_for, add_file_revision, refresh_vault,
  revision_row,
}
use blackglass_server.Revisions.Commit.{IsIssuedUids, below_next, found_new, ok_injective}
use blackglass_server.Revisions.Reads.{PullInfo, pull_info, content_chunk, external_content}
use blackglass_server.Socket.Replay.{Gate, go, shutdown, revoked}
use blackglass_server.Socket.Pull.{
  Frame, not_found, header, binary, Served, served, interrupted, refused, failed, out_of_fuel, pull,
  pull_found, pull_pieces,
}
use blackglass_server.Socket.Pull.Pieces.{
  IsServed, concat, IsPieces, AreChecked, AreInterrupted, AreRefused, pieces-IsServed,
}

-- The same row and the same content under the uid; other rows may come and go.
abbrev pub IsKept : ℕ → Db → Db → Type 0
IsKept uid db later =
    (find (λ (r : RevisionRow). r.uid == uid) later.revisions
      ≡ find (λ (r : RevisionRow). r.uid == uid) db.revisions)
    × (find (λ (c : RevisionContent). c.uid == uid) later.revision_content
        ≡ find (λ (c : RevisionContent). c.uid == uid) db.revision_content)

-- The sequence has handed out every uid of the contents.
abbrev pub IsIssuedContents : Db → Type 0
IsIssuedContents db =
    All (λ (c : RevisionContent). c.uid ≤ db.revisions_sequence) db.revision_content

-- A header, and pieces of `content` up to `rest`.
abbrev IsSent : List ℕ → List ℕ → ℕ → Text → List Frame → List (List ℕ) → Type 0
IsSent content rest pieces hash frames chunks =
    (frames ≡ header (length content) pieces false hash ∷ map binary chunks)
    × IsPieces chunks
    × (concat chunks ++ rest ≡ content)

-- A download of `content` as the client sees it: the header, then pieces whose concatenation is the
-- content, or a first part of it if the next check found a shutdown or the end of the session, before
-- the header too; no error. The checks before it passed.
unfoldable pub IsPulled : (ℕ → Gate) → List ℕ → ℕ → Text → List Frame × Served → Type 0
IsPulled gate content pieces hash (frames, served) =
    (chunks : List (List ℕ)) × IsSent content [] pieces hash frames chunks
    × (gate 0 ≢ revoked)
    × AreChecked gate 1 chunks
IsPulled gate content pieces hash (frames, interrupted) =
    (chunks : List (List ℕ)) × (rest : List ℕ) × IsSent content rest pieces hash frames chunks
    × (gate 0 ≢ revoked)
    × AreInterrupted gate 1 chunks
IsPulled gate content pieces hash ([], refused) = gate 0 ≡ revoked
IsPulled gate content pieces hash (f ∷ frames, refused) =
    (chunks : List (List ℕ)) × (rest : List ℕ) × IsSent content rest pieces hash (f ∷ frames) chunks
    × (gate 0 ≢ revoked)
    × AreRefused gate 1 chunks
IsPulled gate content pieces hash (frames, failed e) = ⊥
IsPulled gate content pieces hash (frames, out_of_fuel) = ⊥

append_nil : (xs : List ℕ) → xs ++ [] ≡ xs
append_nil [] = refl
append_nil (x ∷ xs) = ap (λ l. x ∷ l) (append_nil xs)

under_header :
    (gate : ℕ → Gate) (content : List ℕ) (pieces : ℕ) (hash : Text) (chunks : List (List ℕ))
    (end : Served)
    → gate 0 ≢ revoked
    → IsServed gate 1 content (chunks, end)
    → IsPulled gate content pieces hash
        (header (length content) pieces false hash ∷ map binary chunks, end)
unfolding IsServed IsPulled
under_header gate content pieces hash chunks served active (p, e, c) =
    (chunks, (refl, p, append_nil (concat chunks) ∙ e), active, c)
under_header gate content pieces hash chunks interrupted active (p, (rest, e), c) =
    (chunks, rest, (refl, p, e), active, c)
under_header gate content pieces hash chunks refused active (p, (rest, e), c) =
    (chunks, rest, (refl, p, e), active, c)
under_header gate content pieces hash chunks (failed x) active h = h
under_header gate content pieces hash chunks out_of_fuel active h = h

-- A row of a file and its content, as they are found.
record IsFile (vault : Text) (hash : Text) (uid : ℕ) (content : List ℕ) (db : Db) : Type 0 where
  row : RevisionRow
  found : find (λ (r : RevisionRow). r.uid == uid) db.revisions ≡ some row
  stored :
      find (λ (c : RevisionContent). c.uid == uid) db.revision_content
      ≡ some (record { uid = uid; content = content })
  sized : row.size ≡ length content
  counted : row.pieces ≡ pieces_for (length content)
  hashed : row.hash ≡ hash
  in_vault : row.vault_id ≡ vault
  plain : (row.folder ≡ false) × (row.deleted ≡ false) × (row.content ≡ none)

reads_chunk :
    (vault hash : Text) (uid : ℕ) (content : List ℕ) (db later : Db)
    → IsFile vault hash uid content db
    → IsKept uid db later
    → (offset len : ℕ) → len ≤ piece_size
    → offset + len ≤ length content
    → content_chunk uid offset len later ≡ ok (take len (drop offset content))
unfolding content_chunk external_content chains
reads_chunk vault hash uid content db later f (rows, contents) offset len small fit =
    ground (arith, f.found, f.stored, f.sized, f.plain, rows, contents)

abbrev file_info : Text → Text → List ℕ → PullInfo
file_info vault hash content = record {
  vault_id = vault;
  hash = hash;
  size = length content;
  pieces = pieces_for (length content);
  folder = false;
  deleted = false;
  has_content = true;
}

finds_info :
    (vault hash : Text) (uid : ℕ) (content : List ℕ) (db later : Db)
    → IsFile vault hash uid content db
    → IsKept uid db later
    → pull_info uid later ≡ some (file_info vault hash content)
unfolding pull_info external_content
finds_info vault hash uid content db later f (rows, contents) =
    ground
      (arith, f.found, f.stored, f.sized, f.counted, f.hashed, f.in_vault, f.plain, rows, contents)

-- What follows the look-up, by what the first check finds.
found_pulls :
    (fuel : ℕ) (gate : ℕ → Gate) (db_at : ℕ → Db) (vault hash : Text) (uid : ℕ) (content : List ℕ)
    → IsServed gate 1 content (pull_pieces fuel gate db_at uid (length content) 1 0)
    → IsPulled gate content
        (pieces_for (length content))
        hash
        (pull_found fuel gate db_at (some vault) uid (file_info vault hash content))
unfolding pull_found
found_pulls fuel gate db_at vault hash uid content sent =
    rw (==_refl vault)
      (at_gate (gate 0) refl (pull_pieces fuel gate db_at uid (length content) 1 0) sent)
  where
    at_gate :
        (g : Gate)
        → gate 0 ≡ g
        → (out : List (List ℕ) × Served) → IsServed gate 1 content out
        → IsPulled gate content (pieces_for (length content)) hash (elim g [
          | revoked ↦ ([], refused)
          | _ ↦ (
            header (length content) (pieces_for (length content)) false hash ∷ map binary out.0,
            out.1,
          )
        ])
    at_gate revoked e out h = unfold IsPulled in e
    at_gate go e (chunks, end) h = under_header gate content _ hash chunks end (λ k. cc) h
    at_gate shutdown e (chunks, end) h = under_header gate content _ hash chunks end (λ k. cc) h

content_below_next :
    (n : ℕ) (contents : List RevisionContent)
    → All (λ (c : RevisionContent). c.uid ≤ n) contents
    → All (λ (c : RevisionContent). (c.uid == n + 1) ≡ false) contents
content_below_next n contents h =
    All-map (λ (c : RevisionContent). c.uid ≤ n) (λ c le. ground arith) contents h

module _ (r : NewRevision) (token_hash : Option Text) (global_limit owner_limit auth_now ts : ℕ)
    (db : Db) (issued : IsIssuedUids db) (contents : IsIssuedContents db) where
  stored-IsFile :
      (staged : List ℕ)
      → OnOk
          (λ out.
            IsFile r.vault_id r.hash out.0.uid staged out.1
            × (pieces_for (length staged) ≡ r.pieces))
          (add_file_revision r token_hash staged global_limit owner_limit auth_now ts db)
  unfolding add_file_revision
  stored-IsFile staged =
      let P = λ (out : Revision × Db).
        IsFile r.vault_id r.hash out.0.uid staged out.1 × (pieces_for (length staged) ≡ r.pieces) in
      let blob : RevisionContent = record { uid = db.revisions_sequence + 1; content = staged } in
      OnOk-ensure P _ _ _ λ valid. OnOk-bind P _ _ λ _ admitted. OnOk-ensure P _ _ _ λ _.
        OnOk-ensure P _ _ _ λ whole. OnOk-bind P _ _ λ stored e. OnOk-ok P _ (
          let same : stored ≡ revision_row (row_of r ts (db.revisions_sequence + 1)) =
            ok_injective (sym e ∙ found_new r ts db (db.revision_content ++ blob ∷ []) issued) in
          rw same (
            unfold refresh_vault insert_revision in
            (
              record {
                row = row_of r ts (db.revisions_sequence + 1);
                found =
                    find-append_new (λ (x : RevisionRow). x.uid == db.revisions_sequence + 1)
                      db.revisions (row_of r ts (db.revisions_sequence + 1))
                      (below_next db.revisions_sequence db.revisions issued)
                      (==_refl (db.revisions_sequence + 1));
                stored =
                    find-append_new (λ (c : RevisionContent). c.uid == db.revisions_sequence + 1)
                      db.revision_content blob
                      (content_below_next db.revisions_sequence db.revision_content contents)
                      (==_refl (db.revisions_sequence + 1));
                sized = ground arith;
                counted = ground arith;
                hashed = refl;
                in_vault = refl;
                plain = (ground arith, ground arith, refl);
              },
              ground arith,
            )))

  -- With every uid of the tables issued by the sequence: once an upload of `staged` has succeeded, a
  -- client of the vault that downloads the new revision, from any later databases that keep its row and its
  -- content, is sent the header with the declared size, pieces and hash and then, in pieces within the
  -- piece size, exactly the bytes that were uploaded, if the checks of every piece pass; only a first
  -- part of them where the next check finds a shutdown (before the piece) or the end of the session,
  -- and nothing where the session has ended before the header. With more fuel than pieces it ends,
  -- and without an error.
  pub upload_pull :
      (staged : List ℕ) (stored : Revision) (db' : Db)
      → add_file_revision r token_hash staged global_limit owner_limit auth_now ts db
        ≡ ok (stored, db')
      → (fuel : ℕ) (gate : ℕ → Gate) (db_at : ℕ → Db) → ((n : ℕ) → IsKept stored.uid db' (db_at n))
      → r.pieces < fuel
      → IsPulled gate staged r.pieces r.hash
          (pull fuel gate db_at (some r.vault_id) (some stored.uid))
  unfolding pull
  upload_pull staged stored db' e fuel gate db_at kept enough =
      let (f, counted) = (stored-IsFile staged).at (stored, db') e in
      let sent =
        pieces-IsServed gate db_at stored.uid staged
          (λ n. reads_chunk r.vault_id r.hash stored.uid staged db' (db_at n) f (kept n)) fuel 1 0
          (omega arith) (omega (arith, counted)) in
      subst
        (λ o. IsPulled gate staged r.pieces r.hash (elim o [
          | none ↦ (not_found ∷ [], served)
          | some info ↦ pull_found fuel gate db_at (some r.vault_id) stored.uid info
        ]))
        (sym (finds_info r.vault_id r.hash stored.uid staged db' (db_at 0) f (kept 0)))
        (subst
          (λ n. IsPulled gate staged n r.hash (
            pull_found fuel gate db_at (some r.vault_id) stored.uid
              (file_info r.vault_id r.hash staged)))
          counted (found_pulls fuel gate db_at r.vault_id r.hash stored.uid staged sent))
