-- ===== src/Socket/Upload/Balance.antt =====
-- An upload from its push to its last piece: one commit of the content, and every permit given back.
use blackglass_server.Base.{
  ℕ, suc, ◌+◌, ◌≡◌, refl, sym, ap, ◌∙◌, Bool, List, [], ◌∷◌, ◌++◌, map, length, length-append,
  arith, none, some, Outcome, ok, err, is_some, if◌then◌else◌, nat_eq,
}
use blackglass_server.Database.{Db}
use blackglass_server.Revisions.{
  Revision, NewRevision, add_file_revision, stored_ciphertext_size, owner_stored_ciphertext_size,
}
use blackglass_server.Limits.Storage.{
  StorageReservation, ReservationState, try_reserve, release, reserved, reserved_for_owner,
}
use blackglass_server.Limits.Storage.Counts.{release-owner, is_of}
use blackglass_server.Limits.Concurrency.{
  UserConcurrencyEntry, UserConcurrencyKind, UserConcurrencyPermit, upload, try_acquire,
  drop_permit,
}
use blackglass_server.Limits.Concurrency.Bounds.{open_of, open_of-acquire, open_of-drop}
use blackglass_server.Limits.Map.{get, get-put, or_default}
use blackglass_server.Socket.Pull.Pieces.{concat, IsPieces}
use blackglass_server.Socket.Session.{
  Config, Pending, Session, AppState, Answer, next, closed_quota, publish_committed,
}
use blackglass_server.Socket.Upload.{Push, parse_push, begin_push, finish_upload, settle}
use blackglass_server.Socket.Upload.Atomic.{
  upload_all, uploads_all, answered, staged, staged-file, staged-permits,
}
use blackglass_server.Socket.Upload.Granted.{begin_push-IsGranted}

-- Acquired and dropped, the counters are as before.
acquire_drop :
    (user_id limit : ℕ) (permit : UserConcurrencyPermit)
    (entries entries' : List (ℕ × UserConcurrencyEntry))
    → try_acquire user_id upload limit entries ≡ (some permit, entries')
    → (user : ℕ) (kind : UserConcurrencyKind)
    → open_of user kind (drop_permit permit entries') ≡ open_of user kind entries
acquire_drop user_id limit permit entries entries' e user kind = omega (
  arith,
  open_of-acquire user_id upload limit entries entries' permit e user kind,
  open_of-drop permit entries' user kind,
)

reserve_release :
    (global_used owner_used owner size global_limit owner_limit : ℕ)
    (state state' : ReservationState) (r : StorageReservation)
    → try_reserve global_used owner_used owner size global_limit owner_limit state
      ≡ (some r, state')
    → (reserved (release r state') ≡ reserved state)
      × ((o : ℕ) → reserved_for_owner o (release r state') ≡ reserved_for_owner o state)
unfolding try_reserve reserved
reserve_release global_used owner_used owner size global_limit owner_limit state state' r e = (
  unfold release in ground arith,
  λ o.
      let grown : reserved_for_owner o state'
          ≡ reserved_for_owner o state + (if is_of o r then r.bytes else 0) =
        unfold reserved_for_owner in
        ground (
          arith,
          get-put owner o (or_default 0 (get owner state.owner_bytes) + size) state.owner_bytes,
        ) in
      omega (arith, grown, release-owner o r state'),
)

-- A commit changes the database and the events only, and reads nothing else.
settles :
    (event_size : Revision → ℕ) (refusal : Answer) (conditional : Bool)
    (o : Outcome (Revision × Db)) (s t : AppState)
    → t.db ≡ s.db
    → t.events ≡ s.events
    → let out = settle event_size refusal conditional o t in
      let spec = settle event_size refusal conditional o s in
      (out.0 ≡ spec.0)
      × (out.1.db ≡ spec.1.db)
      × (out.1.events ≡ spec.1.events)
      × (out.1.uploads ≡ t.uploads)
      × (out.1.user_concurrency ≡ t.user_concurrency)
      × (out.1.storage_reservations ≡ t.storage_reservations)
unfolding settle publish_committed
settles event_size refusal conditional (err e) s t same events =
    (refl, same, events, refl, refl, refl)
settles event_size refusal conditional (ok (stored, db)) s t same events =
    ground (arith, same, events)

-- One commit of the content at the state before the push: what the upload in pieces amounts to.
abbrev pub at_once :
    Config → (Revision → ℕ) → ℕ → ℕ → Session → NewRevision → List ℕ → AppState → Answer × AppState
at_once config event_size now ts session r content s =
    settle event_size closed_quota (is_some r.expected_version)
      (add_file_revision r (some session.token_hash) content config.storage_quota_bytes
        config.storage_quota_bytes_per_owner now ts s.db)
      s

-- After the last piece: the answers, the database and the events of that one commit, and the session
-- and the limits as they were.
pub record IsUploaded (session : Session) (cs : List (List ℕ)) (s : AppState)
    (spec : Answer × AppState) (out : List Answer × Session × AppState) : Type 0 where
  pub answers : out.0 ≡ map (λ _. next) cs ++ spec.0 ∷ []
  pub db : out.2.db ≡ spec.1.db
  pub events : out.2.events ≡ spec.1.events
  pub idle : out.1 ≡ session
  pub uploads : out.2.uploads ≡ s.uploads
  pub open_as_before :
      (user : ℕ) (kind : UserConcurrencyKind)
      → open_of user kind out.2.user_concurrency ≡ open_of user kind s.user_concurrency
  pub reserved_as_before :
      (reserved out.2.storage_reservations ≡ reserved s.storage_reservations)
      × ((o : ℕ)
          → reserved_for_owner o out.2.storage_reservations
            ≡ reserved_for_owner o s.storage_reservations)

module _ (config : Config) (notice_size : NewRevision → ℕ) (event_size : Revision → ℕ)
    (now ts : ℕ) where
  -- The last piece of an upload that was granted.
  finishes :
      (session : Session) (r : NewRevision) (s s' : AppState) (first p : Pending) (content : List ℕ)
      (cs : List (List ℕ))
      → session.pending ≡ none
      → p.revision ≡ r
      → p.file ≡ content
      → try_acquire r.user_id upload config.max_concurrent_uploads_per_user s.user_concurrency
        ≡ (some p.user_upload_permit, s'.user_concurrency)
      → (owner : ℕ)
      → try_reserve
          (stored_ciphertext_size s.db)
          (owner_stored_ciphertext_size owner s.db)
          owner
          r.size
          config.storage_quota_bytes
          config.storage_quota_bytes_per_owner
          s.storage_reservations
        ≡ (some p.storage_reservation, s'.storage_reservations)
      → s.uploads ≡ suc s'.uploads
      → s'.db ≡ s.db
      → s'.events ≡ s.events
      → IsUploaded session cs s (at_once config event_size now ts session r content s) (
          answered cs (
            finish_upload config notice_size event_size now ts
              (record session { pending = some first })
              p
              s'))
  unfolding finish_upload
  finishes session r s s' first p content cs idle same file acquired owner reserves permits db
        events =
      let o =
        add_file_revision p.revision (some session.token_hash) p.file config.storage_quota_bytes
          config.storage_quota_bytes_per_owner now ts s'.db in
      let conditional = is_some p.revision.expected_version in
      let spec : settle event_size closed_quota conditional o s
          ≡ at_once config event_size now ts session r content s =
        rw (same, file, db) refl in
      let (answer, the_db, the_events, uploads, users, bytes) =
        settles event_size closed_quota conditional o s s' db events in
      record {
        answers = ap (λ a. map (λ _. next) cs ++ a ∷ []) (answer ∙ ap (λ x. x.0) spec);
        db = the_db ∙ ap (λ x. x.1.db) spec;
        events = the_events ∙ ap (λ x. x.1.events) spec;
        idle = ap (λ q. record session { pending = q }) (sym idle);
        uploads = omega (arith, uploads, permits);
        open_as_before = λ user kind. rw users (
            acquire_drop r.user_id config.max_concurrent_uploads_per_user p.user_upload_permit
              s.user_concurrency s'.user_concurrency acquired user kind);
        reserved_as_before = rw bytes (
            reserve_release _ _ owner r.size _ _ s.storage_reservations s'.storage_reservations
              p.storage_reservation reserves);
      }

  -- A push that `begin_push` answers by `next`, and then all its pieces, as many as declared, each
  -- within the piece size and the declared bytes together: each piece but the last is answered by `next`, and
  -- the last answer, the database and the events are those of one `add_file_revision` of the pieces put
  -- together at the state before the push; the session has no upload any more, and the upload permits,
  -- the counters of every account and the reserved bytes, in all and of every owner, are as before.
  pub push_upload :
      (session session' : Session) (push : Push) (r : NewRevision) (s s' : AppState) (c : List ℕ)
      (cs : List (List ℕ))
      → parse_push config session push ≡ ok r
      → begin_push config notice_size event_size now ts session push s ≡ (next, session', s')
      → suc (length cs) ≡ r.pieces
      → length (concat (c ∷ cs)) ≡ r.size
      → IsPieces (c ∷ cs)
      → IsUploaded session cs s
          (at_once config event_size now ts session r (concat (c ∷ cs)) s)
          (upload_all config notice_size event_size now ts (c ∷ cs) session' s')
  push_upload session session' push r s s' c cs parsed begun pieces bytes small =
      let (q, parsed_q, g) =
        begin_push-IsGranted config notice_size event_size now ts session push s s' session'
          begun in
      let same : q ≡ r = cc in
      let p = g.admitted in
      let (revision, file, no_pieces, no_bytes) = g.fresh in
      let all =
        uploads_all config notice_size event_size now ts c cs session' p s'
          (ap (λ x. x.pending) g.pending) (rw (no_pieces, revision, same) (omega (arith, pieces)))
          (rw (no_bytes, revision, same) (omega (arith, bytes, length-append c (concat cs))))
          small in
      let (kept, reservation, permit) =
        staged-permits config notice_size event_size now ts p (c ∷ cs) in
      rw (all, g.pending)
        (finishes session r s s' p (staged p (c ∷ cs)) (concat (c ∷ cs)) cs g.idle
          (kept ∙ revision ∙ same)
          (staged-file config notice_size event_size now ts p (c ∷ cs)
            ∙ ap (λ f. f ++ concat (c ∷ cs)) file)
          (rw (permit, ← same) g.acquired) g.owner (rw (reservation, ← same) g.reserved) g.permits
          g.unchanged.0 g.unchanged.1)
