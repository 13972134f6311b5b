-- ===== src/Socket/Messages.antt =====
-- `handle_message` of apps/server-rust/src/server.rs for the operations of a client, and the handlers
-- `history`, `deleted` and `restore`. `init` up to its replay is Init, `pull` is Download; the replay and
-- `acknowledge_commit` are modelled beside it, and write nothing. An error of the database ends the
-- connection. The list of live connections is left out.
pub mod Guard
pub mod Items
pub mod Deleted
use blackglass_server.Base.{
  ℕ, zero, suc, ◌+◌, ◌-◌, ◌*◌, Bool, true, false, not, ◌&&◌, ◌||◌, Option, none, some, List, [],
  ◌∷◌, ◌++◌, map, take, Text, ◌==◌, nat_eq, text_eq, ltb, leb, length, if◌then◌else◌, Error,
  Outcome, ok, err, storage_quota_exceeded, notice_too_large, require, vault_unavailable,
}
use blackglass_server.Table.{select, exists}
use blackglass_server.Database.{Db, User, RevisionRow, VaultRow, max_users}
use blackglass_server.Limits.Storage.{reserved, reserved_for_owner, effective_storage_limit}
use blackglass_server.Sessions.{valid_session_for_vault}
use blackglass_server.Revisions.{
  Revision, NewRevision, vault_size, stored_ciphertext_size, stored_ciphertext_size_for_vault_owner,
  in_vault,
}
use blackglass_server.Revisions.Reads.{history, list_deleted_page}
use blackglass_server.Revisions.Restore.{restore_revision, purge}
use blackglass_server.Socket.Session.{
  Config, Session, Event, AppState, Answer, failed, committed, event_too_large, publish_committed,
  published,
}
use blackglass_server.Socket.Replay.{last_uid}
use blackglass_server.Socket.Pull.{Frame, Served}
use blackglass_server.Socket.Init.{InitRequest, InitAnswer, init}
use blackglass_server.Socket.Download.{download}
use blackglass_server.Socket.Upload.{Push, begin_push, upload_chunk, bounded}

abbrev pub max_text_bytes : ℕ
max_text_bytes = 64 * 1024

abbrev pub max_large_response_bytes : ℕ
max_large_response_bytes = 8 * 1024 * 1024

abbrev pub deleted_page_size : ℕ
deleted_page_size = 64

-- The owner of the vault and the authors of its revisions.
unfoldable pub usernames_for_vault : Text → Db → List (ℕ × Text)
usernames_for_vault vault db =
    let owns =
      λ (u : User). exists (λ (v : VaultRow). v.id == vault && v.owner_user_id == u.id) db.vaults in
    let wrote = λ (u : User).
      exists (λ (r : RevisionRow). in_vault vault r && r.user_id == u.id) db.revisions in
    map (λ (u : User). (u.id, u.name)) (take max_users (select (λ u. owns u || wrote u) db.users))

-- The operations of a text message, with the fields that they read.
pub data Operation : Type 0 where
  ping capabilities size usernames purge_history other : Operation
  initialise : InitRequest → Operation
  push : Push → Operation
  pull : (uid : Option ℕ) → Operation
  deleted : (suppress : Bool) → Operation
  list_history : (path : Option Text) → (last : Option ℕ) → Operation
  restore : (uid : Option ℕ) → Operation

-- A text has its length, and is an operation unless serde_json refuses it.
pub data Message : Type 0 where
  json : (bytes : ℕ) → Option Operation → Message
  binary : List ℕ → Message
  close_frame : Message
  ping_frame : Message
  pong_frame : Message

pub data Reply : Type 0 where
  nothing done pong invalid_json unsupported not_found : Reply
  closed_too_large closed_unauthenticated closed_revoked : Reply
  can_push : Reply
  admission : InitAnswer → Reply
  sizes : (size limit vault_bytes : ℕ) → Reply
  names : List (ℕ × Text) → Reply
  uploading : Answer → Reply
  downloaded : List Frame → Served → Reply
  items : List Revision → (more : Bool) → Reply
  removed_items : List Revision → Reply
  too_large restore_too_large invalid_path quota_refused : Reply
  database_error : Error → Reply

-- An error that no answer stands for ends the connection.
abbrev pub or_error {ℓ} :
    {A : Type ℓ} → Outcome A → (A → Reply × AppState) → AppState → Reply × AppState
or_error (ok a) f s = f a
or_error (err e) f s = (database_error e, s)

-- Whether the response has room for the items, and its length then; `first` has no comma before it.
unfoldable pub fit_items : (Revision → ℕ) → Bool → ℕ → List Revision → Option (Bool × ℕ)
fit_items encoded first bytes [] = some (first, bytes)
fit_items encoded first bytes (r ∷ rs) =
    let grown = bytes + (if first then 0 else 1) + encoded r in
    let rest = fit_items encoded false grown rs in
    if ltb max_large_response_bytes (grown + 2) then none else rest

-- `deleted`: the pages of deletions, on fuel; nothing if the response would be too large. `encoded` is
-- the length of an item as JSON.
unfoldable pub collect_deleted :
    ℕ → (Revision → ℕ) → Text → Bool → ℕ → Bool → ℕ → Db → Option (List Revision)
unfolding fit_items last_uid
collect_deleted zero encoded vault suppress after first bytes db = some []
collect_deleted (suc fuel) encoded vault suppress after first bytes db =
    let page = list_deleted_page vault suppress after deleted_page_size db in
    elim (fit_items encoded first bytes page) [
      | none ↦ none
      | some (later, total) ↦
          let rest =
            collect_deleted fuel encoded vault suppress (last_uid after page) later total db in
          if ltb (length page) deleted_page_size
          then some page
          else elim rest [ none ↦ none | some more ↦ some (page ++ more) ]
    ]

-- What the handlers are given beside the state: the clocks (`clock` and `stops` at the later steps of a
-- handler that reads them again), SHA-256 of a token, whether the session is still active after
-- the database was read, whether a shutdown comes before a piece is written, and serde_json's lengths.
pub record Context : Type 0 where
  pub now : ℕ
  pub ts : ℕ
  pub clock : ℕ → ℕ
  pub stops : ℕ → Bool
  pub hash_of : Text → Text
  pub still_active : Bool
  pub stopping : Bool
  pub fuel : ℕ
  pub notice_size : NewRevision → ℕ
  pub event_size : Revision → ℕ
  pub item_size : Revision → ℕ
  pub items_size : List Revision → Bool → ℕ

module _ (config : Config) (c : Context) where
  abbrev pub if_active : Reply → AppState → Reply × AppState
  if_active reply s = if c.still_active then (reply, s) else (closed_revoked, s)

  unfoldable pub size_reply : Session → AppState → Reply × AppState
  size_reply session s = elim session.vault_owner_user_id [
    | none ↦ (database_error vault_unavailable, s)
    | some owner ↦
        or_error
          (require (stored_ciphertext_size_for_vault_owner session.vault s.db) vault_unavailable)
          (λ used.
            if_active
              (sizes used
                (effective_storage_limit used (stored_ciphertext_size s.db)
                  (reserved_for_owner owner s.storage_reservations)
                  (reserved s.storage_reservations) config.storage_quota_bytes_per_owner
                  config.storage_quota_bytes)
                (vault_size session.vault s.db))
              s)
          s
  ]

  unfoldable pub history_reply : Session → Option Text → Option ℕ → AppState → Reply × AppState
  history_reply session path last s = elim (bounded 16384 path) [
    | none ↦ (invalid_path, s)
    | some p ↦
        let found = history session.vault p last 101 s.db in
        let shown = take 100 found in
        let more = ltb 100 (length found) in
        if_active
          (if ltb max_large_response_bytes (c.items_size shown more)
            then too_large
            else items shown more)
          s
  ]

  unfoldable pub deleted_reply : Session → Bool → AppState → Reply × AppState
  unfolding collect_deleted
  deleted_reply session suppress s =
      elim (collect_deleted c.fuel c.item_size session.vault suppress 0 true 10 s.db) [
        | none ↦ (too_large, s)
        | some found ↦ if_active (removed_items found) s
      ]

  abbrev pub restored : Outcome (Option Revision × Db) → AppState → Reply × AppState
  restored (err notice_too_large) s = (restore_too_large, s)
  restored (err storage_quota_exceeded) s = (quota_refused, s)
  restored (err e) s = (database_error e, s)
  restored (ok (none, db)) s = (not_found, record s { db = db })
  restored (ok (some r, db)) s =
      let (answer, s') =
        published false (publish_committed c.event_size r (record s { db = db })) in
      (uploading answer, s')

  -- The quotas that are left beside the bytes of the uploads in flight.
  unfoldable pub restore_reply : Session → Option ℕ → AppState → Reply × AppState
  restore_reply session none s = (not_found, s)
  restore_reply session (some uid) s = elim session.vault_owner_user_id [
    | none ↦ (database_error vault_unavailable, s)
    | some owner ↦
        restored
          (restore_revision c.event_size session.user_id (some session.token_hash) session.vault uid
            session.device
            (
              config.storage_quota_bytes - reserved s.storage_reservations,
              config.storage_quota_bytes_per_owner
                  - reserved_for_owner owner s.storage_reservations,
            )
            c.now c.ts s.db)
          s
  ]

  unfoldable pub operate : Session → Operation → AppState → Reply × Session × AppState
  unfolding size_reply history_reply deleted_reply restore_reply usernames_for_vault download
  operate session ping s = (pong, session, s)
  operate session capabilities s = (can_push, session, s)
  operate session size s = let (reply, s') = size_reply session s in (reply, session, s')
  operate session usernames s =
      let (reply, s') = if_active (names (usernames_for_vault session.vault s.db)) s in
      (reply, session, s')
  operate session (push p) s =
      let (answer, session', s') =
        begin_push config c.notice_size c.event_size c.now c.ts session p s in
      (uploading answer, session', s')
  operate session (pull uid) s =
      let ((frames, end), db) = download config c.clock c.stops session uid s.db in
      (downloaded frames end, session, record s { db = db })
  operate session (deleted suppress) s =
      let (reply, s') = deleted_reply session suppress s in (reply, session, s')
  operate session (list_history path last) s =
      let (reply, s') = history_reply session path last s in (reply, session, s')
  operate session (restore uid) s =
      let (reply, s') = restore_reply session uid s in (reply, session, s')
  operate session purge_history s =
      let (reply, s') =
        or_error (purge session.user_id (some session.token_hash) session.vault c.now s.db)
          (λ db. (done, record s { db = db })) s in
      (reply, session, s')
  operate session (initialise r) s = (unsupported, session, s)
  operate session other s = (unsupported, session, s)

  abbrev pub session_active : Session → AppState → Bool
  session_active session s = valid_session_for_vault session.token_hash session.vault c.now s.db

  -- For a connection that is authenticated.
  unfoldable pub handle_authenticated : Session → Message → AppState → Reply × Session × AppState
  unfolding operate
  handle_authenticated session (json bytes operation) s =
      if ltb max_text_bytes bytes then (closed_too_large, session, s) else elim operation [
        | none ↦ (invalid_json, session, s)
        | some op ↦
            if session_active session s then operate session op s else (closed_revoked, session, s)
      ]
  handle_authenticated session (binary chunk) s =
      let (answer, session', s') =
        upload_chunk config c.notice_size c.event_size c.now c.ts c.stopping chunk session s in
      if session_active session s
      then (uploading answer, session', s')
      else (closed_unauthenticated, session, s)
  handle_authenticated session close_frame s = (nothing, session, s)
  handle_authenticated session ping_frame s =
      if session_active session s then (pong, session, s) else (closed_unauthenticated, session, s)
  handle_authenticated session pong_frame s = (nothing, session, s)

  -- Before `init` has succeeded.
  unfoldable pub handle_new : Message → AppState → Reply × Option Session × AppState
  unfolding init
  handle_new (json bytes operation) s =
      if ltb max_text_bytes bytes then (closed_too_large, none, s) else elim operation [
        | some (initialise r) ↦
            let (answer, connection, s') = init config c.hash_of c.now (c.clock 0) r s in
            (admission answer, connection, s')
        | _ ↦ (closed_unauthenticated, none, s)
      ]
  handle_new close_frame s = (nothing, none, s)
  handle_new _ s = (closed_unauthenticated, none, s)

  unfoldable pub handle_message :
      Option Session → Message → AppState → Reply × Option Session × AppState
  unfolding handle_new handle_authenticated
  handle_message none message s = handle_new message s
  handle_message (some session) message s =
      let (reply, session', s') = handle_authenticated session message s in
      (reply, some session', s')
