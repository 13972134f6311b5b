-- ===== src/Lib.antt =====
-- blackglass-server is a self-hosted synchronisation server: accounts with sessions own vaults, share
-- them with collaborators, and push revisions of encrypted files to them over a websocket. One SQLite
-- connection behind a mutex (apps/server-rust/src/db.rs) carries all durable state; the process
-- (apps/server-rust/src/server.rs) adds the handlers of its control API and of its websockets, and
-- counters in memory that bound what clients may have open.
--
-- The database is the record `Database.Db`, a list of rows for each table in the order of the rowids.
-- Each statement of SQL is one of the forms of `Table`; cascades, keys and the two temporary triggers
-- are written out in `Database` and where rows are inserted. A method of `Db` in db.rs is a function
-- of the same name from a database to an `Outcome`: `ok` with the new database, or the error that the
-- code raises. A transaction that raises or returns early is rolled back, so an error carries no
-- database. A handler of server.rs is a function from the state that it reads and changes to an answer
-- or a reply, the state after it, and the events that it publishes. The clock is an argument (`now`);
-- where the code reads it twice there are two. Numbers are natural: ids, times and sizes are not
-- negative in the tables, and the guards against negative arguments have no counterpart. Texts are
-- lists of UTF-8 bytes.
--
--   Base, Table          shared names, `Outcome` with its chains, statements of SQL and their laws
--   Auth                 apps/server-rust/src/auth.rs: addresses, names and the policy on hashes
--   Database             the tables, cascades and triggers of apps/server-rust/src/db.rs
--   Accounts             `create_user` to `revoke_user_sessions` of db.rs
--   Sessions             `issue_session_for_user` to `revoke_all_sessions` of db.rs
--   Access               `vault_access` and `authorize_mutation` of db.rs
--   Sharing              `list_shares_for_owner` to `remove_collaborator_for_session` of db.rs
--   Vaults               `create_vault_internal` to `migrate_vault_internal` of db.rs, retirement
--   Revisions            pushes, restores, purges and reads of db.rs; Revisions/Success: which pushes
--                        succeed
--   SignIn               `authenticate_credentials`, `register_user` and what follows them, of
--                        server.rs
--   Control              `authorized_control` of server.rs: State, Vaults and Shares (the handlers),
--                        Dispatch, and Safety and Reach (what they promise)
--   Settings             the settings of apps/server-rust/src/config.rs that both of these read
--   Socket               a websocket of server.rs: Session (its state), Init (`init` up to its replay),
--                        Replay (the rest of it), Messages (`handle_message`), Upload (`begin_push` to
--                        `discard_pending_upload`), Pull (`pull`), Download (`pull` with the renewals
--                        that it writes), Acknowledge (`acknowledge_commit`)
--   Live                 `LiveRegistry` of apps/server-rust/src/admin.rs: the websockets that are open
--   Limits               `SourceLimits`, `ShareInviteLimits`, `StorageReservations` and
--                        `UserConcurrency` of server.rs; Limits/Admin: `AdminAuthFailures` of admin.rs
--   Tests                runs at small inputs
--
-- Sharing, Vaults and Revisions go through Sessions (`authorize_account_mutation`) and Access. Control
-- calls Sessions, Vaults and Sharing, and its events close the websockets; Socket calls Revisions,
-- holds permits of Limits, and sends each of its own commits through Acknowledge. The counters of
-- Limits are systems of steps: each operation holds the mutex, so a run of the server is a sequence of
-- them in any order.
--
-- Loops over rows are recursion on lists. Three loops run on fuel. The replay asks for pages of 16
-- rows until one is not full, and the list of deleted files for pages of 64: each full page moves the
-- cursor past its rows, so more fuel than rows is enough. A download cuts pieces of a fixed positive
-- size: more fuel than pieces is enough. Pull reads any database and any result of the checks at each
-- step; Download runs the same rounds on one state, with as many as the size allows for.
--
-- The random token, SHA-256 and keyed digests, the parser and the verification of password hashes and
-- the size of an encoded notice are arguments. Not modelled:
--   - `socket_loop`: the choice between the client's frames, the events and the clock is the runtime's;
--     the replay and the handlers that it calls are modelled
--   - HTTP: routes, pages, headers, JSON; and sends that fail or time out, and idle deadlines
--   - metrics, configuration (apps/server-rust/src/config.rs), migration, verification and backup of
--     the database file, publication (publish.rs) and the command line (main.rs)
pub mod Base
pub mod Table
pub mod Auth
pub mod Database
pub mod Accounts
pub mod Sessions
pub mod Settings
pub mod Access
pub mod Revisions
pub mod Limits
pub mod Sharing
pub mod Vaults
pub mod Live
pub mod Socket
pub mod Control
pub mod SignIn
pub mod Tests
