-- ===== src/Socket/Upload/Staging.antt =====
-- What an upload stages on disk is within the bytes that were reserved for it, whatever the client sends.
use blackglass_server.Base.{
  ℕ, ◌≤◌, ◌≡◌, refl, sym, Bool, true, false, ◌||◌, List, length, length-append, arith, Option, none,
  some, Outcome, ok, err, OnOk, OnOk-ensure, OnOk-require, OnOk-ok, ltb, is_some, ◌==◌, nat_eq,
  if◌then◌else◌,
}
use blackglass_server.Revisions.{
  Revision, NewRevision, pieces_for, max_event_bytes, stored_ciphertext_size,
  owner_stored_ciphertext_size,
}
use blackglass_server.Limits.Storage.{StorageReservation, ReservationState, try_reserve}
use blackglass_server.Limits.Concurrency.{UserConcurrencyEntry, UserConcurrencyPermit}
use blackglass_server.Socket.Session.{
  Config, Pending, Session, AppState, Answer, upload_in_progress, upload_capacity, missing_owner,
  closed_unexpected, invalid_metadata, metadata_too_large,
}
use blackglass_server.Socket.Upload.{
  Push, parse_push, max_ciphertext_size, begin_push, accept_push, grant_upload, admit_upload,
  commit_empty, stage_piece, upload_chunk, discard_pending_upload,
}

-- The upload's revision was admitted, its bytes are reserved, and the staging file holds no more.
pub record IsStaged (config : Config) (p : Pending) : Type 0 where
  pub reserved : p.storage_reservation.bytes ≡ p.revision.size
  pub within_count : length p.file ≤ p.bytes
  pub within_size : length p.file ≤ p.revision.size
  pub sized : p.revision.size ≤ max_ciphertext_size config
  pub counted : p.revision.pieces ≡ pieces_for p.revision.size

-- Nothing is in flight, or an upload that is as above.
pub IsStaging : Config → Session → Type 0
IsStaging config session = (p : Pending) → session.pending ≡ some p → IsStaged config p

parsed_sizes :
    (config : Config) (session : Session) (push : Push)
    → OnOk
        (λ r. (r.size ≤ max_ciphertext_size config) × (r.pieces ≡ pieces_for r.size))
        (parse_push config session push)
unfolding parse_push
parsed_sizes config session push =
    let P =
      λ (r : NewRevision). (r.size ≤ max_ciphertext_size config) × (r.pieces ≡ pieces_for r.size) in
    OnOk-require P _ _ _ λ _ _. OnOk-require P _ _ _ λ _ _. OnOk-require P _ _ _ λ _ _.
      OnOk-require P _ _ _ λ _ _. OnOk-require P _ _ _ λ _ _. OnOk-require P _ _ _ λ _ _.
        OnOk-require P _ _ _ λ _ _. OnOk-require P _ _ _ λ _ _. OnOk-require P _ _ _ λ _ _.
          OnOk-require P _ _ _ λ _ _. OnOk-ensure P _ _ _ λ small.
            OnOk-require P _ _ _
              λ _ _. OnOk-ensure P _ _ _ λ counted. OnOk-ok P _ (ground arith, ground arith)

reserved_bytes :
    (global_used owner_used owner size global_limit owner_limit : ℕ) (state : ReservationState)
    (r : StorageReservation)
    → (try_reserve global_used owner_used owner size global_limit owner_limit state).0 ≡ some r
    → r.bytes ≡ size
unfolding try_reserve
reserved_bytes global_used owner_used owner size global_limit owner_limit state r e = ground arith

module _ (config : Config) (notice_size : NewRevision → ℕ) (event_size : Revision → ℕ)
    (now ts : ℕ) where
  grant-IsStaging :
      (session : Session) (r : NewRevision) (s : AppState)
      (permit : Option UserConcurrencyPermit × List (ℕ × UserConcurrencyEntry))
      (reservation : Option StorageReservation × ReservationState)
      → r.size ≤ max_ciphertext_size config
      → r.pieces ≡ pieces_for r.size
      → ((x : StorageReservation) → reservation.0 ≡ some x → x.bytes ≡ r.size)
      → IsStaging config session
      → IsStaging config
          (grant_upload config notice_size event_size now ts session r s permit reservation).1
  unfolding grant_upload IsStaging
  grant-IsStaging session r s (none, users) reservation small counted b h = h
  grant-IsStaging session r s (some u, users) (none, state) small counted b h = h
  grant-IsStaging session r s (some u, users) (some x, state) small counted b h =
      λ p e. ground (arith, b x refl)

  -- `IsStaging` of the session after a handler; a record, so that a goal determines the handler.
  record IsStagingAfter (out : Answer × Session × AppState) : Type 0 where
    staging : IsStaging config out.1

  if-IsStagingAfter :
      (b : Bool) (x y : Answer × Session × AppState)
      → IsStaging config x.1
      → IsStagingAfter y
      → IsStagingAfter (if b then x else y)
  if-IsStagingAfter true x y h k = record { staging = h }
  if-IsStagingAfter false x y h k = k

  owned-IsStaging :
      (session : Session) (r : NewRevision) (s : AppState) (o : Option ℕ)
      → r.size ≤ max_ciphertext_size config
      → r.pieces ≡ pieces_for r.size
      → IsStaging config session
      → IsStaging config
          (elim o as (λ _. Answer × Session × AppState) [
            | none ↦ (missing_owner, session, s)
            | some owner ↦ admit_upload config notice_size event_size now ts session r owner s
          ]).1
  unfolding admit_upload
  owned-IsStaging session r s none small counted h = h
  owned-IsStaging session r s (some owner) small counted h =
      grant-IsStaging session r s _ _ small counted
        (reserved_bytes (stored_ciphertext_size s.db) (owner_stored_ciphertext_size owner s.db)
          owner r.size config.storage_quota_bytes config.storage_quota_bytes_per_owner
          s.storage_reservations)
        h

  accept-IsStaging :
      (session : Session) (r : NewRevision) (s : AppState)
      → r.size ≤ max_ciphertext_size config
      → r.pieces ≡ pieces_for r.size
      → IsStaging config session
      → IsStagingAfter (accept_push config notice_size event_size now ts session r s)
  unfolding accept_push
  accept-IsStaging session r s small counted h =
      let (answer, s') = commit_empty config notice_size event_size now ts session r s in
      let owned : Answer × Session × AppState = elim session.vault_owner_user_id [
        | none ↦ (missing_owner, session, s)
        | some owner ↦ admit_upload config notice_size event_size now ts session r owner s
      ] in
      let room = s.uploads == 0 in
      let empty = r.folder || r.deleted || r.pieces == 0 in
      let full : Answer × Session × AppState = (upload_capacity, session, s) in
      let done : Answer × Session × AppState = (answer, session, s') in
      if-IsStagingAfter (ltb max_event_bytes (notice_size r)) (metadata_too_large, session, s)
        (if empty then done else if room then full else owned) h
        (if-IsStagingAfter empty done (if room then full else owned) h (
          if-IsStagingAfter room full owned h (record {
            staging = owned-IsStaging session r s session.vault_owner_user_id small counted h;
          })))

  pub push-IsStaging :
      (session : Session) (push : Push) (s : AppState)
      → IsStaging config session
      → IsStaging config (begin_push config notice_size event_size now ts session push s).1
  unfolding begin_push
  push-IsStaging session push s h =
      (if-IsStagingAfter (is_some session.pending) (upload_in_progress, session, s) _ h
        (parsed (parse_push config session push) (parsed_sizes config session push).at)).staging
    where
      parsed :
          (o : Outcome NewRevision)
          → ((r : NewRevision)
              → o ≡ ok r
              → (r.size ≤ max_ciphertext_size config) × (r.pieces ≡ pieces_for r.size))
          → IsStagingAfter (elim o as (λ _. Answer × Session × AppState) [
            | err e ↦ (invalid_metadata, session, s)
            | ok r ↦ accept_push config notice_size event_size now ts session r s
          ])
      parsed (err e) sizes = record { staging = h }
      parsed (ok r) sizes = accept-IsStaging session r s (sizes r refl).0 (sizes r refl).1 h

  piece-IsStaging :
      (stopping : Bool) (chunk : List ℕ) (session : Session) (p : Pending) (s : AppState)
      → session.pending ≡ some p
      → IsStaging config session
      → IsStaging config
          (stage_piece config notice_size event_size now ts stopping chunk session p s).1
  unfolding stage_piece IsStaging
  piece-IsStaging stopping chunk session p s there h =
      ground (arith, h p there, length-append p.file chunk)

  pub chunk-IsStaging :
      (stopping : Bool) (chunk : List ℕ) (session : Session) (s : AppState)
      → IsStaging config session
      → IsStaging config
          (upload_chunk config notice_size event_size now ts stopping chunk session s).1
  unfolding upload_chunk
  chunk-IsStaging stopping chunk session s h = at_pending session.pending refl
    where
      at_pending :
          (o : Option Pending)
          → o ≡ session.pending
          → IsStaging config
              (elim o as (λ _. Answer × Session × AppState) [
                | none ↦ (closed_unexpected, session, s)
                | some p ↦
                    stage_piece config notice_size event_size now ts stopping chunk session p s
              ]).1
      at_pending none e = h
      at_pending (some p) e = piece-IsStaging stopping chunk session p s (sym e) h

  pub discard-IsStaging :
      (session : Session) (s : AppState)
      → IsStaging config session
      → IsStaging config (discard_pending_upload config notice_size event_size now ts session s).0
  unfolding discard_pending_upload IsStaging
  discard-IsStaging session s h = ground (arith, h)

-- What can happen to a session: a push, a piece and a discard, at any state of the server and the
-- clock, since other connections act in between.
pub data Step (config : Config) (notice_size : NewRevision → ℕ) (event_size : Revision → ℕ)
    : Session → Session → Type 0 where
  pushes :
      {session : Session} (now ts : ℕ) (push : Push) (s : AppState)
      → Step config notice_size event_size session
          (begin_push config notice_size event_size now ts session push s).1
  sends :
      {session : Session} (now ts : ℕ) (stopping : Bool) (chunk : List ℕ) (s : AppState)
      → Step config notice_size event_size session
          (upload_chunk config notice_size event_size now ts stopping chunk session s).1
  discards :
      {session : Session} (now ts : ℕ) (s : AppState)
      → Step config notice_size event_size session
          (discard_pending_upload config notice_size event_size now ts session s).0

pub data Reachable (config : Config) (notice_size : NewRevision → ℕ) (event_size : Revision → ℕ)
    : Session → Type 0 where
  start :
      (session : Session) → session.pending ≡ none → Reachable config notice_size event_size session
  step :
      {session session' : Session}
      → Reachable config notice_size event_size session
      → Step config notice_size event_size session session'
      → Reachable config notice_size event_size session'

-- In every state of a session that began with no upload in flight, whatever pushes and pieces the
-- client sent and in whatever order, an upload in flight declares no more than the configured maximum,
-- its declared bytes are reserved, and its staging file holds at most as many bytes as are reserved.
pub Reachable-IsStaging :
    (config : Config) (notice_size : NewRevision → ℕ) (event_size : Revision → ℕ)
    (session : Session)
    → Reachable config notice_size event_size session
    → IsStaging config session
unfolding IsStaging
Reachable-IsStaging config notice_size event_size session (start _ e) = λ p q. absurd (none_ne e q)
  where
    none_ne : {p : Pending} → session.pending ≡ none → session.pending ≡ some p → ⊥
    none_ne e q = cc
Reachable-IsStaging config notice_size event_size session (step before taken) =
    by_step taken (Reachable-IsStaging config notice_size event_size _ before)
  where
    by_step :
        {a b : Session}
        → Step config notice_size event_size a b
        → IsStaging config a
        → IsStaging config b
    by_step (pushes now ts push s) h =
        push-IsStaging config notice_size event_size now ts _ push s h
    by_step (sends now ts stopping chunk s) h =
        chunk-IsStaging config notice_size event_size now ts stopping chunk _ s h
    by_step (discards now ts s) h = discard-IsStaging config notice_size event_size now ts _ s h
