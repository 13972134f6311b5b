-- ===== src/Socket/Upload/Granted.antt =====
-- What `begin_push` has done when it answers `next`.
use blackglass_server.Base.{
  ℕ, suc, ◌≡◌, refl, ap, subst, Bool, true, false, ◌||◌, List, [], arith, Option, none, some,
  Outcome, ok, err, Error, ltb, is_some, ◌==◌, nat_eq, if◌then◌else◌, Option-cases, inl, inr,
}
use blackglass_server.Database.{Db}
use blackglass_server.Revisions.{
  Revision, NewRevision, max_event_bytes, stored_ciphertext_size, owner_stored_ciphertext_size,
}
use blackglass_server.Limits.Storage.{StorageReservation, ReservationState, try_reserve}
use blackglass_server.Limits.Concurrency.{
  try_acquire, upload, UserConcurrencyEntry, UserConcurrencyPermit,
}
use blackglass_server.Socket.Session.{
  Config, Pending, Session, AppState, Answer, next, upload_in_progress, quota_rejected,
  upload_capacity, missing_owner, invalid_metadata, metadata_too_large, publish_committed,
}
use blackglass_server.Socket.Upload.{
  Push, parse_push, begin_push, accept_push, grant_upload, admit_upload, commit_empty, settle,
  refused_by,
}

-- The admission of an upload: its permits are taken, and nothing is staged.
pub record IsGranted (config : Config) (session : Session) (r : NewRevision) (s : AppState)
    (session' : Session) (s' : AppState) : Type 0 where
  pub idle : session.pending ≡ none
  pub admitted : Pending
  pub pending : session' ≡ record session { pending = some admitted }
  pub fresh :
      (admitted.revision ≡ r) × (admitted.file ≡ []) × (admitted.pieces ≡ 0) × (admitted.bytes ≡ 0)
  pub acquired :
      try_acquire r.user_id upload config.max_concurrent_uploads_per_user s.user_concurrency
      ≡ (some admitted.user_upload_permit, s'.user_concurrency)
  pub owner : ℕ
  pub reserved :
      try_reserve
        (stored_ciphertext_size s.db)
        (owner_stored_ciphertext_size owner s.db)
        owner
        r.size
        config.storage_quota_bytes
        config.storage_quota_bytes_per_owner
        s.storage_reservations
      ≡ (some admitted.storage_reservation, s'.storage_reservations)
  pub permits : s.uploads ≡ suc s'.uploads
  pub unchanged : (s'.db ≡ s.db) × (s'.events ≡ s.events)
  pub not_empty : (r.folder || r.deleted || r.pieces == 0) ≡ false

-- `P` holds after a handler if it answers `next`. A record, so that a goal determines the handler.
pub record OnNext (P : Session → AppState → Type 0) (out : Answer × Session × AppState)
    : Type 0 where
  pub at : out.0 ≡ next → P out.1 out.2

module _ (P : Session → AppState → Type 0) where
  no_next :
      (a : Answer) (session : Session) (s : AppState) → (a ≡ next → ⊥) → OnNext P (a, session, s)
  no_next a session s h = record { at = λ e. absurd (h e) }

  if-OnNext :
      (b : Bool) (x y : Answer × Session × AppState)
      → (b ≡ true → OnNext P x)
      → (b ≡ false → OnNext P y)
      → OnNext P (if b then x else y)
  if-OnNext true x y h k = h refl
  if-OnNext false x y h k = k refl

refused_ne : (e : Error) → refused_by quota_rejected e ≡ next → ⊥
refused_ne e h = ground arith

settled_ne :
    (event_size : Revision → ℕ) (conditional : Bool) (o : Outcome (Revision × Db)) (s : AppState)
    → (settle event_size quota_rejected conditional o s).0 ≡ next
    → ⊥
unfolding settle publish_committed
settled_ne event_size conditional (err e) s h = refused_ne e h
settled_ne event_size conditional (ok (stored, db)) s h = ground arith

module _ (config : Config) (notice_size : NewRevision → ℕ) (event_size : Revision → ℕ)
    (now ts : ℕ) where
  abbrev Goal : Session → NewRevision → AppState → Session → AppState → Type 0
  Goal session r s session' s' = IsGranted config session r s session' s'

  admits :
      (session : Session) (r : NewRevision) (owner : ℕ) (s : AppState)
      → session.pending ≡ none
      → (r.folder || r.deleted || r.pieces == 0) ≡ false
      → (s.uploads == 0) ≡ false
      → OnNext
          (Goal session r s)
          (admit_upload config notice_size event_size now ts session r owner s)
  unfolding admit_upload
  admits session r owner s idle full room =
      granted
        (try_acquire r.user_id upload config.max_concurrent_uploads_per_user s.user_concurrency)
        (try_reserve (stored_ciphertext_size s.db) (owner_stored_ciphertext_size owner s.db) owner
          r.size config.storage_quota_bytes config.storage_quota_bytes_per_owner
          s.storage_reservations)
        refl refl
    where
      granted :
          (a : Option UserConcurrencyPermit × List (ℕ × UserConcurrencyEntry))
          (b : Option StorageReservation × ReservationState)
          → try_acquire r.user_id upload config.max_concurrent_uploads_per_user s.user_concurrency
            ≡ a
          → try_reserve
              (stored_ciphertext_size s.db)
              (owner_stored_ciphertext_size owner s.db)
              owner
              r.size
              config.storage_quota_bytes
              config.storage_quota_bytes_per_owner
              s.storage_reservations
            ≡ b
          → OnNext
              (Goal session r s)
              (grant_upload config notice_size event_size now ts session r s a b)
      granted (none, users) b e k = unfold grant_upload in no_next _ _ session _ (λ q. cc)
      granted (some u, users) (none, state) e k =
          unfold grant_upload in no_next _ _ session _ (λ q. cc)
      granted (some u, users) (some x, state) e k =
          unfold grant_upload in
          record {
            at = λ _. record {
              idle = idle;
              admitted = _;
              pending = refl;
              fresh = (refl, refl, refl, refl);
              acquired = e;
              owner = owner;
              reserved = k;
              permits = ground arith;
              unchanged = (refl, refl);
              not_empty = full;
            };
          }

  owner_admits :
      (session : Session) (r : NewRevision) (s : AppState) (o : Option ℕ)
      → session.pending ≡ none
      → (r.folder || r.deleted || r.pieces == 0) ≡ false
      → (s.uploads == 0) ≡ false
      → OnNext (Goal session r s) (elim o [
        | none ↦ (missing_owner, session, s)
        | some owner ↦ admit_upload config notice_size event_size now ts session r owner s
      ])
  owner_admits session r s none idle full room = no_next _ _ session _ (λ q. cc)
  owner_admits session r s (some owner) idle full room = admits session r owner s idle full room

  accepts :
      (session : Session) (r : NewRevision) (s : AppState)
      → session.pending ≡ none
      → OnNext (Goal session r s) (accept_push config notice_size event_size now ts session r s)
  unfolding accept_push commit_empty
  accepts session r s idle =
      let P = Goal session r s in
      let (answer, s') = commit_empty config notice_size event_size now ts session r s in
      let owned : Answer × Session × AppState = elim session.vault_owner_user_id [
        | none ↦ (missing_owner, session, s)
        | some owner ↦ admit_upload config notice_size event_size now ts session r owner s
      ] in
      let room = s.uploads == 0 in
      let empty = r.folder || r.deleted || r.pieces == 0 in
      let full : Answer × Session × AppState = (upload_capacity, session, s) in
      let done : Answer × Session × AppState = (answer, session, s') in
      if-OnNext P (ltb max_event_bytes (notice_size r)) (metadata_too_large, session, s)
        (if empty then done else if room then full else owned)
        (λ _. no_next P _ session _ (λ q. cc))
        λ _.
          if-OnNext P empty done (if room then full else owned)
            (λ _. no_next P _ session _ (settled_ne event_size _ _ s))
            λ filled.
              if-OnNext P room full owned (λ _. no_next P _ session _ (λ q. cc))
                λ some_left.
                  owner_admits session r s session.vault_owner_user_id idle filled some_left

  IsBegun : Session → Push → AppState → Session → AppState → Type 0
  IsBegun session push s session' s' =
      (r : NewRevision) × (parse_push config session push ≡ ok r)
      × IsGranted config session r s session' s'

  parsed :
      (session : Session) (push : Push) (s : AppState) (o : Outcome NewRevision)
      → session.pending ≡ none
      → parse_push config session push ≡ o
      → OnNext (IsBegun session push s) (elim o [
        | err e ↦ (invalid_metadata, session, s)
        | ok r ↦ accept_push config notice_size event_size now ts session r s
      ])
  unfolding IsBegun
  parsed session push s (err x) idle e = no_next _ _ session _ (λ q. cc)
  parsed session push s (ok r) idle e = record { at = λ q. (r, e, (accepts session r s idle).at q) }

  pub begin_push-IsGranted :
      (session : Session) (push : Push) (s s' : AppState) (session' : Session)
      → begin_push config notice_size event_size now ts session push s ≡ (next, session', s')
      → (r : NewRevision) × (parse_push config session push ≡ ok r)
        × IsGranted config session r s session' s'
  unfolding begin_push IsBegun
  begin_push-IsGranted session push s s' session' e = elim (Option-cases session.pending) [
    | inl idle ↦
        subst (λ out. IsBegun session push s out.1 out.2) e
          ((if-OnNext (IsBegun session push s) (is_some session.pending)
              (upload_in_progress, session, s) _ (λ _. no_next _ _ session _ (λ q. cc))
              (λ _. parsed session push s (parse_push config session push) idle refl)).at
            (ap (λ out. out.0) e))
    | inr (p, busy) ↦ absurd (ground (arith, busy, e))
  ]
