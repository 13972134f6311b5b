-- ===== src/Tests/Socket.antt =====
-- A replay, a download, an upload and an acknowledgement on Alice's vault.
use blackglass_server.Base.{
  ℕ, ◌≡◌, refl, true, false, none, some, List, [], ◌∷◌, ◌&&◌, text, chains, nat_eq, text_eq,
  text_beq, arith, inl, inr,
}
use blackglass_server.Table.{select, update, exists, find, sum_of}
use blackglass_server.Database.{Db, insert_revision}
use blackglass_server.Access.{vault_access, authorize_mutation}
use blackglass_server.Sessions.{authorize_account_mutation}
use blackglass_server.Limits.Concurrency.{connection, try_acquire, count_of, set_count}
use blackglass_server.Limits.Storage.{no_reservations, try_reserve, reserved_for_owner}
use blackglass_server.Limits.Map.{get, put}
use blackglass_server.Revisions.{
  NewRevision, Revision, add_file_revision, admit_revision, check_expected_version,
  enforce_storage_quotas, refresh_vault, revision_at, revision_row, stored_ciphertext_size,
  owner_stored_ciphertext_size,
}
use blackglass_server.Socket.Replay.{go, replay, replay_page}
use blackglass_server.Socket.Replay.Rounds.{IsReplayed}
use blackglass_server.Socket.Replay.Commits.{with_later, is_owed, replay-IsReplayed}
use blackglass_server.Socket.Replay.Pages.{is_after}
use blackglass_server.Socket.Pull.{pull}
use blackglass_server.Socket.Pull.Roundtrip.{IsPulled, upload_pull}
use blackglass_server.Socket.Session.{
  Config, Session, Event, AppState, Answer, boolean, number, string,
}
use blackglass_server.Socket.Upload.{
  Push, parse_push, begin_push, accept_push, admit_upload, grant_upload, upload_chunk,
}
use blackglass_server.Socket.Upload.Staging.{
  IsStaging, start, step, pushes, sends, Reachable-IsStaging,
}
use blackglass_server.Socket.Upload.Atomic.{upload_all}
use blackglass_server.Socket.Upload.Balance.{IsUploaded, at_once, push_upload}
use blackglass_server.Socket.Acknowledge.{
  Received, event, acknowledge_commit, receive, send_event, own_event, acknowledged,
}
use blackglass_server.Socket.Acknowledge.Order.{
  IsInOrder, of_vault, acknowledge_commit-IsInOrder, acknowledge_commit_answers,
}
use mathlib.Core.List.{map}
use blackglass_server.Tests.Data.{db, note, hash_1, value}

abbrev no_later : ℕ → List blackglass_server.Database.RevisionRow
no_later n = []

replay_example :
    IsReplayed
      (λ _. go)
      0
      (map revision_row
        (select (λ r. is_owed false (text "v1") 2 db.revisions r && is_after 0 r) db.revisions))
      2
      (replay 3 (λ _. go) (replay_page false (text "v1") 2 (with_later db no_later)) 2 0 0)
replay_example =
    replay-IsReplayed false (text "v1") 2 db no_later (λ _. go) 3 0 ((omega arith, tt), (tt, tt))
      (λ n. tt) (omega arith)

abbrev file : NewRevision
file = record {
  vault_id = text "v1";
  path = text "a";
  relatedpath = none;
  extension = [];
  hash = [];
  ctime = 1;
  mtime = 1;
  folder = false;
  deleted = false;
  size = 2;
  pieces = 1;
  device = text "d";
  user_id = 1;
  expected_version = some 2;
}

abbrev two_bytes : List ℕ
two_bytes = 8 ∷ 9 ∷ []

abbrev file_pushed : Revision × Db
file_pushed =
    value (revision_row note, db) (add_file_revision file (some hash_1) two_bytes 100 50 5 6 db)

pull_example :
    IsPulled
      (λ _. go)
      two_bytes
      1
      []
      (pull 2 (λ _. go) (λ _. file_pushed.1) (some (text "v1")) (some file_pushed.0.uid))
unfolding add_file_revision admit_revision authorize_mutation authorize_account_mutation
    vault_access check_expected_version enforce_storage_quotas stored_ciphertext_size
    owner_stored_ciphertext_size insert_revision revision_at refresh_vault exists find update
    text_beq chains sum_of select
pull_example =
    upload_pull file (some hash_1) 100 50 5 6 db (ground arith) tt two_bytes file_pushed.0
      file_pushed.1 refl 2 (λ _. go) (λ _. file_pushed.1) (λ n. (refl, refl)) (omega arith)

abbrev pub config : Config
config = record {
  per_file_max = 10;
  storage_quota_bytes = 100;
  storage_quota_bytes_per_owner = 50;
  max_concurrent_uploads_per_user = 2;
  max_ws_connections_per_user = 2;
  control = blackglass_server.Tests.Control.config;
}

abbrev pub session : Session
session = record {
  token_hash = hash_1;
  user_id = 1;
  vault = text "v1";
  vault_owner_user_id = some 1;
  device = text "d";
  user_connection_permit = record { user_id = 1; kind = connection };
  pending = none;
}

abbrev push : Push
push = record {
  path = some (string (text "a"));
  relatedpath = none;
  extension = some (string []);
  hash = some (string []);
  ctime = some (number 1);
  mtime = some (number 1);
  folder = some (boolean false);
  deleted = some (boolean false);
  size = some (number 2);
  pieces = some (number 1);
  expected_version = some (number 2);
}

abbrev pub server : AppState
server = record {
  db = db;
  uploads = 4;
  user_concurrency = [];
  storage_reservations = no_reservations;
  events = [];
}

abbrev small : Revision → ℕ
small r = 10

abbrev begun : Answer × Session × AppState
begun = begin_push config (λ _. 10) small 5 6 session push server

staging_example :
    IsStaging config (upload_chunk config (λ _. 10) small 5 6 true two_bytes begun.1 begun.2).1
staging_example =
    Reachable-IsStaging config (λ _. 10) small
      (upload_chunk config (λ _. 10) small 5 6 true two_bytes begun.1 begun.2).1
      (step (step (start session refl) (pushes 5 6 push server)) (sends 5 6 true two_bytes begun.2))

push_upload_example :
    IsUploaded session [] server
      (at_once config small 5 6 session file two_bytes server)
      (upload_all config (λ _. 10) small 5 6 (two_bytes ∷ []) begun.1 begun.2)
unfolding begin_push parse_push accept_push admit_upload grant_upload try_acquire try_reserve get
    put count_of set_count reserved_for_owner owner_stored_ciphertext_size stored_ciphertext_size
    sum_of select exists text_beq chains
push_upload_example =
    push_upload config (λ _. 10) small 5 6 session begun.1 push file server begun.2 two_bytes []
      refl refl (omega arith) (omega arith) (omega arith, tt)

abbrev own : Event
own = record { uid = 3; vault = text "v1"; notice = none; invalidated = false }

abbrev stream : List Received
stream =
    event (record own { uid = 9; vault = text "v2" })
    ∷ event (record own { uid = 2 })
    ∷ event own
    ∷ []

acknowledged_example :
    IsInOrder (acknowledge_commit false (λ _. go) stream own).0 (of_vault (text "v1") stream) own
unfolding acknowledge_commit receive send_event own_event text_beq
acknowledged_example = acknowledge_commit-IsInOrder (λ _. go) false stream own refl

answers_example : (acknowledge_commit false (λ _. go) stream own).1 ≡ acknowledged
unfolding text_beq
answers_example =
    acknowledge_commit_answers (λ _. go) stream own (λ _. refl)
      (inr (inl (refl, inr (inr (refl, omega arith, inl (refl, refl, refl))))))
