-- ===== src/Socket/Upload.antt =====
-- `begin_push`, `upload_chunk` and `discard_pending_upload` of apps/server-rust/src/server.rs: a push of
-- metadata, the pieces of its content, and the end of an upload that is not completed. The
-- commit-order lock makes each of them one step of the state. `now` and `ts` are the clock's.
pub mod Staging
pub mod Atomic
pub mod Granted
pub mod Balance
use blackglass_server.Base.{
  ℕ, suc, ◌+◌, ◌-◌, ◌/◌, Bool, true, false, not, ◌&&◌, ◌||◌, Option, none, some, List, [], ◌∷◌,
  ◌++◌, Text, ltb, leb, length, is_some, is_none, ◌==◌, nat_eq, if◌then◌else◌, Error, Outcome, ok,
  err, storage_quota_exceeded, conditional_write_conflict, bad_metadata, ◌>>=◌, ◌>>◌, ensure,
  require,
}
use blackglass_server.Limits.Storage.{ReservationState, StorageReservation, try_reserve, release}
use blackglass_server.Limits.Concurrency.{
  try_acquire, drop_permit, upload, UserConcurrencyEntry, UserConcurrencyPermit,
}
use blackglass_server.Revisions.{
  Revision, NewRevision, piece_size, pieces_for, max_event_bytes, add_empty_revision,
  add_file_revision, stored_ciphertext_size, owner_stored_ciphertext_size,
}
use blackglass_server.Database.{Db}
use blackglass_server.Sessions.{i64_max}
use blackglass_server.Socket.Session.{
  Config, Pending, Session, Event, AppState, Answer, next, upload_in_progress, invalid_metadata,
  metadata_too_large, upload_capacity, account_upload_capacity, quota_rejected, conflict, committed,
  closed_unexpected, closed_piece_size, closed_declared_size, closed_size_mismatch, closed_quota,
  stopped, missing_owner, failed, publish_committed, published, Json, null, other, boolean, number,
  negative, string, js_safe_nonnegative, as_bool, as_text,
}

-- The fields of the message that `begin_push` reads.
pub record Push : Type 0 where
  pub path : Option Json
  pub relatedpath : Option Json
  pub extension : Option Json
  pub hash : Option Json
  pub ctime : Option Json
  pub mtime : Option Json
  pub folder : Option Json
  pub deleted : Option Json
  pub size : Option Json
  pub pieces : Option Json
  pub expected_version : Option Json

-- `as_i64().unwrap_or(0)`, then `>= 0`: nothing if it is negative, and 0 if it is no `i64`.
abbrev pub nonnegative : Option Json → Option ℕ
nonnegative (some (number n)) = some (if leb n i64_max then n else 0)
nonnegative (some (negative n)) = none
nonnegative _ = some 0

abbrev pub at_most : ℕ → Option Text → Option Text
at_most max none = none
at_most max (some t) = if leb (length t) max then some t else none

-- `bounded`: neither empty nor longer than `max`.
abbrev pub bounded : ℕ → Option Text → Option Text
bounded max none = none
bounded max (some []) = none
bounded max (some (c ∷ t)) = if leb (length (c ∷ t)) max then some (c ∷ t) else none

-- Absent or null, or a text within the bound; nothing if it is neither.
abbrev pub related : Option Json → Option (Option Text)
related none = some none
related (some null) = some none
related (some (string t)) = if leb (length t) 16384 then some (some t) else none
related (some _) = none

-- Absent, or a version.
abbrev pub expected : Option Json → Option (Option ℕ)
expected none = some none
expected (some j) = elim (js_safe_nonnegative (some j)) [ none ↦ none | some n ↦ some (some n) ]

abbrev pub aes_gcm_wire_overhead_bytes : ℕ
aes_gcm_wire_overhead_bytes = 28

abbrev pub max_ciphertext_size : Config → ℕ
max_ciphertext_size config = config.per_file_max + aes_gcm_wire_overhead_bytes

-- The checks `valid`, and the revision that the message describes.
unfoldable pub parse_push : Config → Session → Push → Outcome NewRevision
parse_push config session push = do
  size ← require (nonnegative push.size) bad_metadata
  pieces ← require (nonnegative push.pieces) bad_metadata
  path ← require (bounded 16384 (as_text push.path)) bad_metadata
  relatedpath ← require (related push.relatedpath) bad_metadata
  extension ← require (at_most 256 (as_text push.extension)) bad_metadata
  hash ← require (at_most 4096 (as_text push.hash)) bad_metadata
  ctime ← require (js_safe_nonnegative push.ctime) bad_metadata
  mtime ← require (js_safe_nonnegative push.mtime) bad_metadata
  folder ← require (as_bool push.folder) bad_metadata
  deleted ← require (as_bool push.deleted) bad_metadata
  ensure (leb size (max_ciphertext_size config)) bad_metadata
  expected_version ← require (expected push.expected_version) bad_metadata
  ensure (pieces == pieces_for size) bad_metadata
  ok (record {
    vault_id = session.vault;
    path = path;
    relatedpath = relatedpath;
    extension = extension;
    hash = hash;
    ctime = ctime;
    mtime = mtime;
    folder = folder;
    deleted = deleted;
    size = size;
    pieces = pieces;
    device = session.device;
    user_id = session.user_id;
    expected_version = expected_version;
  })

-- How a commit's error is answered: `refusal` where a quota refused it.
abbrev pub refused_by : Answer → Error → Answer
refused_by refusal storage_quota_exceeded = refusal
refused_by refusal conditional_write_conflict = conflict
refused_by refusal e = failed e

-- What a commit of the database becomes: published, or answered as its error.
unfoldable pub settle :
    (Revision → ℕ) → Answer → Bool → Outcome (Revision × Db) → AppState → Answer × AppState
unfolding publish_committed
settle event_size refusal conditional (err e) s = (refused_by refusal e, s)
settle event_size refusal conditional (ok (stored, db)) s =
    published conditional (publish_committed event_size stored (record s { db = db }))

module _ (config : Config) (notice_size : NewRevision → ℕ) (event_size : Revision → ℕ)
    (now ts : ℕ) where
  unfoldable pub commit_empty : Session → NewRevision → AppState → Answer × AppState
  commit_empty session r s =
      settle event_size quota_rejected (is_some r.expected_version)
        (add_empty_revision r (some session.token_hash) config.storage_quota_bytes
          config.storage_quota_bytes_per_owner now ts s.db)
        s

  -- The permits in their order: the server's, the account's, and the bytes. Those already taken are
  -- given back where a later one is refused; the account's entry of an upload refused is kept.
  unfoldable pub grant_upload :
      Session
      → NewRevision
      → AppState
      → Option UserConcurrencyPermit × List (ℕ × UserConcurrencyEntry)
      → Option StorageReservation × ReservationState
      → Answer × Session × AppState
  grant_upload session r s (none, users) _ =
      (account_upload_capacity, session, record s { user_concurrency = users })
  grant_upload session r s (some permit, users) (none, _) =
      (quota_rejected, session, record s { user_concurrency = drop_permit permit users })
  grant_upload session r s (some permit, users) (some reservation, reservations) = (
    next,
    record session {
      pending = some (record {
        revision = r;
        file = [];
        pieces = 0;
        bytes = 0;
        storage_reservation = reservation;
        user_upload_permit = permit;
      });
    },
    record s {
      uploads = s.uploads - 1;
      user_concurrency = users;
      storage_reservations = reservations;
    },
  )

  unfoldable pub admit_upload : Session → NewRevision → ℕ → AppState → Answer × Session × AppState
  unfolding grant_upload
  admit_upload session r owner s =
      grant_upload session r s
        (try_acquire r.user_id upload config.max_concurrent_uploads_per_user s.user_concurrency)
        (try_reserve (stored_ciphertext_size s.db) (owner_stored_ciphertext_size owner s.db) owner
          r.size config.storage_quota_bytes config.storage_quota_bytes_per_owner
          s.storage_reservations)

  -- The branches after the metadata was found valid.
  unfoldable pub accept_push : Session → NewRevision → AppState → Answer × Session × AppState
  unfolding commit_empty admit_upload
  accept_push session r s =
      if ltb max_event_bytes (notice_size r)
      then (metadata_too_large, session, s)
      else if r.folder || r.deleted || r.pieces == 0
      then (let (answer, s') = commit_empty session r s in (answer, session, s'))
      else if s.uploads == 0
      then (upload_capacity, session, s)
      else elim session.vault_owner_user_id [
        | none ↦ (missing_owner, session, s)
        | some owner ↦ admit_upload session r owner s
      ]

  unfoldable pub begin_push : Session → Push → AppState → Answer × Session × AppState
  unfolding accept_push
  begin_push session push s =
      if is_some session.pending
      then (upload_in_progress, session, s)
      else elim (parse_push config session push) [
        | err e ↦ (invalid_metadata, session, s)
        | ok r ↦ accept_push session r s
      ]

  -- The permits of an upload, given back.
  abbrev pub give_back : Pending → AppState → AppState
  give_back p s = record s {
    uploads = s.uploads + 1;
    user_concurrency = drop_permit p.user_upload_permit s.user_concurrency;
    storage_reservations = release p.storage_reservation s.storage_reservations;
  }

  -- From `session.pending.take()` on: the commit of the staged file.
  unfoldable pub finish_upload : Session → Pending → AppState → Answer × Session × AppState
  finish_upload session p s =
      let (answer, s') =
        settle event_size closed_quota (is_some p.revision.expected_version)
          (add_file_revision p.revision (some session.token_hash) p.file config.storage_quota_bytes
            config.storage_quota_bytes_per_owner now ts s.db)
          s in
      (answer, record session { pending = none }, give_back p s')

  -- A piece, for an upload that is there; `stopping` is a shutdown before the piece could be written.
  unfoldable pub stage_piece :
      Bool → List ℕ → Session → Pending → AppState → Answer × Session × AppState
  unfolding finish_upload
  stage_piece stopping chunk session p s =
      let counted : Pending = record p { pieces = suc p.pieces; bytes = p.bytes + length chunk } in
      let written : Pending = record counted { file = p.file ++ chunk } in
      if ltb piece_size (length chunk)
      then (closed_piece_size, session, s)
      else if ltb p.revision.pieces counted.pieces || ltb p.revision.size counted.bytes
      then (closed_declared_size, record session { pending = some counted }, s)
      else if stopping
      then (stopped, record session { pending = some counted }, s)
      else if ltb counted.pieces p.revision.pieces
      then (next, record session { pending = some written }, s)
      else if not (counted.bytes == p.revision.size)
      then (closed_size_mismatch, record session { pending = some written }, s)
      else finish_upload session written s

  unfoldable pub upload_chunk : Bool → List ℕ → Session → AppState → Answer × Session × AppState
  unfolding stage_piece
  upload_chunk stopping chunk session s = elim session.pending [
    | none ↦ (closed_unexpected, session, s)
    | some p ↦ stage_piece stopping chunk session p s
  ]

  unfoldable pub discard_pending_upload : Session → AppState → Session × AppState
  discard_pending_upload session s = elim session.pending [
    | none ↦ (session, s)
    | some p ↦ (record session { pending = none }, give_back p s)
  ]
