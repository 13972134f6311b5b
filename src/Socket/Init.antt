-- ===== src/Socket/Init.antt =====
-- `init` of apps/server-rust/src/server.rs up to its replay: who may join a vault. The replay that follows
-- is modelled in Replay. Metrics and the list of live connections are left out; SHA-256 is `hash_of`.
pub mod Admitted
use blackglass_server.Base.{
  ℕ, Bool, true, false, not, ◌&&◌, ◌||◌, Option, none, some, List, Text, text, ◌==◌, nat_eq,
  text_eq, ltb, length, all, within, is_none, Error, Outcome, ok, err, if◌then◌else◌,
}
use blackglass_server.Database.{Db}
use blackglass_server.Sessions.{AuthContext, auth_context_hash, renew_session_for_vault}
use blackglass_server.Access.{VaultAccess, owner, collaborator}
use blackglass_server.Vaults.{Vault, find_authorized_vault, vault_owner_user_id}
use blackglass_server.Revisions.{current_version}
use blackglass_server.Settings.{sharing_allowed_for_owner}
use blackglass_server.Limits.Concurrency.{
  UserConcurrencyEntry, UserConcurrencyPermit, connection, try_acquire,
}
use blackglass_server.Socket.Session.{Config, Session, AppState, Json, js_safe_nonnegative}
use blackglass_server.Socket.Upload.{bounded}

-- The fields of the message that `init` reads; absent texts are empty, `encryption_version` is absent
-- where it is no `i64` or is negative, which no vault's is.
pub record InitRequest : Type 0 where
  pub token : Text
  pub id : Text
  pub keyhash : Option Text
  pub encryption_version : Option ℕ
  pub version : Option Json
  pub device : Option Text
  pub initial : Bool

-- `unauthenticated` leaves the connection open; what follows it up to `ahead_of_server` closes it.
pub data InitAnswer : Type 0 where
  unauthenticated vault_not_found invalid_version connection_capacity ahead_of_server : InitAnswer
  joined : (user_id per_file_max cursor ready_version : ℕ) → InitAnswer
  init_failed : Error → InitAnswer

abbrev is_lower_hex : ℕ → Bool
is_lower_hex b = within b'0' b'9' b || within b'a' b'f' b

abbrev has_session_shape : Text → Bool
has_session_shape token = length token == 64 && all is_lower_hex token

abbrev same_text : Option Text → Option Text → Bool
same_text none none = true
same_text (some a) (some b) = a == b
same_text _ _ = false

abbrev same_number : Option ℕ → ℕ → Bool
same_number none n = false
same_number (some m) n = m == n

abbrev client_version : Option Json → Option ℕ
client_version none = some 0
client_version (some j) = js_safe_nonnegative (some j)

abbrev unknown_device : Text
unknown_device = text "Unknown device"

abbrev or_unknown : Option Text → Text
or_unknown none = unknown_device
or_unknown (some t) = t

abbrev device_of : Option Text → Text
device_of device = or_unknown (bounded 256 (some (or_unknown device)))

-- `access` is a collaborator's, and the owner does not share.
abbrev is_unshared : Config → VaultAccess → Option ℕ → Bool
is_unshared config (owner u v) holder = false
is_unshared config (collaborator u v uid) none = true
is_unshared config (collaborator u v uid) (some holder) =
    not (sharing_allowed_for_owner config.control holder)

module _ (config : Config) (hash_of : Text → Text) (now renewed_at : ℕ) where
  -- Once the connection is counted: the session, and where the replay starts. The code reads the owner
  -- together with the vault; what is written since is in sessions and counters, which it does not read.
  unfoldable pub start_session :
      InitRequest
      → AuthContext
      → Vault
      → ℕ
      → UserConcurrencyPermit
      → AppState
      → InitAnswer × Option Session × AppState
  start_session r context v version permit s =
      let session : Session = record {
        token_hash = context.token_hash;
        user_id = context.user_id;
        vault = v.id;
        vault_owner_user_id = vault_owner_user_id r.id s.db;
        device = device_of r.device;
        user_connection_permit = permit;
        pending = none;
      } in
      let ready_version = current_version v.id s.db in
      let cursor = if r.initial then 0 else version in
      if not r.initial && ltb ready_version version
      then (ahead_of_server, some session, s)
      else (joined context.user_id config.per_file_max cursor ready_version, some session, s)

  abbrev counted :
      InitRequest
      → AuthContext
      → Vault
      → ℕ
      → AppState
      → Option UserConcurrencyPermit × List (ℕ × UserConcurrencyEntry)
      → InitAnswer × Option Session × AppState
  counted r context v version s (none, entries) =
      (connection_capacity, none, record s { user_concurrency = entries })
  counted r context v version s (some permit, entries) =
      start_session r context v version permit (record s { user_concurrency = entries })

  abbrev versioned :
      InitRequest
      → AuthContext
      → Vault
      → AppState
      → Option ℕ
      → InitAnswer × Option Session × AppState
  versioned r context v s none = (invalid_version, none, s)
  versioned r context v s (some version) =
      counted r context v version s (
        try_acquire context.user_id connection config.max_ws_connections_per_user
          s.user_concurrency)

  abbrev renewed :
      InitRequest
      → AuthContext
      → Vault
      → AppState
      → Option Bool × Db
      → InitAnswer × Option Session × AppState
  renewed r context v s (none, db) = (unauthenticated, none, record s { db = db })
  renewed r context v s (some _, db) =
      versioned r context v (record s { db = db }) (client_version r.version)

  -- For a token that authenticates, by the vault that its user may open.
  abbrev opened :
      InitRequest
      → AuthContext
      → AppState
      → Outcome (Option (Vault × VaultAccess))
      → InitAnswer × Option Session × AppState
  opened r context s (err e) = (init_failed e, none, s)
  opened r context s (ok none) = (vault_not_found, none, s)
  opened r context s (ok (some (v, access))) =
      if is_unshared config access (vault_owner_user_id r.id s.db)
      then (vault_not_found, none, s)
      else (if not (same_text r.keyhash v.keyhash)
            || not (same_number r.encryption_version v.encryption_version)
          then (unauthenticated, none, s)
          else renewed r context v s (
              renew_session_for_vault context.token_hash v.id config.control.session_ttl renewed_at
                s.db))

  abbrev identified :
      InitRequest → Option AuthContext → AppState → InitAnswer × Option Session × AppState
  identified r none s = (unauthenticated, none, s)
  identified r (some context) s =
      opened r context s (find_authorized_vault context.user_id r.id s.db)

  unfoldable pub init : InitRequest → AppState → InitAnswer × Option Session × AppState
  unfolding start_session
  init r s =
      identified r
        (if has_session_shape r.token then auth_context_hash (hash_of r.token) now s.db else none) s
