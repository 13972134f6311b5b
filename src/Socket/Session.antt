-- ===== src/Socket/Session.antt =====
-- What the handlers of an authenticated websocket share (apps/server-rust/src/server.rs): the
-- session, the upload in flight, the parts of `AppState` that they change, and their answers.
-- `init` sets the fields of the session together, so they are no options here but for the owner's.
use blackglass_server.Base.{
  ℕ, Bool, false, Option, none, some, List, [], ◌∷◌, ◌++◌, Text, ltb, leb, if◌then◌else◌, Error,
}
use blackglass_server.Database.{Db, max_js_safe_integer}
use blackglass_server.Settings.{ControlConfig}
use blackglass_server.Limits.Storage.{ReservationState, StorageReservation}
use blackglass_server.Limits.Concurrency.{UserConcurrencyEntry, UserConcurrencyPermit}
use blackglass_server.Revisions.{Revision, NewRevision, max_event_bytes}

pub record Config : Type 0 where
  pub per_file_max : ℕ
  pub storage_quota_bytes : ℕ
  pub storage_quota_bytes_per_owner : ℕ
  pub max_concurrent_uploads_per_user : ℕ
  pub max_ws_connections_per_user : ℕ
  pub control : ControlConfig

-- The staging file is its bytes; its path and the idle deadline are left out.
pub record Pending : Type 0 where
  pub revision : NewRevision
  pub file : List ℕ
  pub pieces : ℕ
  pub bytes : ℕ
  pub storage_reservation : StorageReservation
  pub user_upload_permit : UserConcurrencyPermit

pub record Session : Type 0 where
  pub token_hash : Text
  pub user_id : ℕ
  pub vault : Text
  pub vault_owner_user_id : Option ℕ
  pub device : Text
  pub user_connection_permit : UserConcurrencyPermit
  pub pending : Option Pending

pub record Event : Type 0 where
  pub uid : ℕ
  pub vault : Text
  pub notice : Option Revision
  pub invalidated : Bool

-- `uploads` counts the permits that are left; `events` are those sent, the newest last.
pub record AppState : Type 0 where
  pub db : Db
  pub uploads : ℕ
  pub user_concurrency : List (ℕ × UserConcurrencyEntry)
  pub storage_reservations : ReservationState
  pub events : List Event

-- The answers: JSON messages, and what ends the connection (`closed_*`, `failed`, `stopped`).
pub data Answer : Type 0 where
  next upload_in_progress invalid_metadata metadata_too_large : Answer
  upload_capacity account_upload_capacity quota_rejected conflict revision_not_found : Answer
  committed : (event : Event) (conditional : Bool) → Answer
  closed_unexpected closed_piece_size closed_declared_size closed_size_mismatch : Answer
  closed_quota closed_revoked stopped missing_owner event_too_large : Answer
  failed : Error → Answer

-- `publish_committed`: the row is in the database already. `event_size` is what serde_json writes.
unfoldable pub publish_committed : (Revision → ℕ) → Revision → AppState → Option Event × AppState
publish_committed event_size r s =
    let event : Event = record {
      uid = r.uid;
      vault = r.vault_id;
      notice = some r;
      invalidated = false;
    } in
    if ltb max_event_bytes (event_size r)
    then (none, s)
    else (some event, record s { events = s.events ++ event ∷ [] })

-- The answer to a commit that was published, or could not be.
abbrev pub published : Bool → Option Event × AppState → Answer × AppState
published conditional (none, s) = (event_too_large, s)
published conditional (some event, s) = (committed event conditional, s)

-- A JSON value, as far as the handlers tell them apart; a `number` may be beyond the range of an
-- `i64`, a `negative` is within it.
pub data Json : Type 0 where
  null other : Json
  boolean : Bool → Json
  number : ℕ → Json
  negative : ℕ → Json
  string : Text → Json

abbrev pub js_safe_nonnegative : Option Json → Option ℕ
js_safe_nonnegative (some (number n)) = if leb n max_js_safe_integer then some n else none
js_safe_nonnegative _ = none

abbrev pub as_bool : Option Json → Option Bool
as_bool (some (boolean b)) = some b
as_bool _ = none

abbrev pub as_text : Option Json → Option Text
as_text (some (string t)) = some t
as_text _ = none
