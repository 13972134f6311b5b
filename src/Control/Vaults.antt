-- ===== src/Control/Vaults.antt =====
-- The handlers of vaults: create, access, migrate, rename and delete.
use blackglass_server.Base.{
  ℕ, Bool, true, false, not, ◌&&◌, ◌||◌, Option, none, some, [], ◌∷◌, ◌++◌, Text, text, leb, length,
  is_some, is_none, ◌==◌, nat_eq, text_eq, Outcome, ok, err, vault_limit_reached, if◌then◌else◌,
}
use blackglass_server.Database.{Db}
use blackglass_server.Access.{VaultAccess, owner, collaborator}
use blackglass_server.Vaults.{
  Vault, create_vault, find_owned_vault, find_authorized_vault, vault_owner_user_id,
  bind_managed_keyhash_for_session, rename_vault_for_session, delete_vault, migrate_vault,
}
use blackglass_server.Live.{cancel_vault}
use blackglass_server.Control.State.{
  ControlConfig, sharing_allowed_for_owner, Env, ControlState, invalid_request, name_required,
  unsupported_version, invalid_credentials, vault_limit, unable_to_access, unable_to_migrate,
  already_version_3, unable_to_rename, unable_to_delete, sharing_unavailable, internal, Response,
  done, vault, refused, VaultCreate, VaultAccessRequest, VaultMigrate, VaultRename,
}

pub record VaultCredentials : Type 0 where
  pub keyhash : Option Text
  pub salt : Option Text
  pub password : Option Text

abbrev pub is_credential : Text → Bool
is_credential t = not (length t == 0) && leb (length t) 4096

unfoldable pub vault_credentials : Env → Option Text → Option Text → Option VaultCredentials
vault_credentials env none none =
    some (record {
      keyhash = none;
      salt = some env.managed_salt;
      password = some env.managed_password;
    })
vault_credentials env (some keyhash) (some salt) =
    if is_credential keyhash && is_credential salt
    then some (record { keyhash = some keyhash; salt = some salt; password = none })
    else none
vault_credentials env _ _ = none

-- A trimmed name that is neither empty nor longer than 256 bytes.
abbrev pub vault_name : Env → Option Text → Option Text
vault_name env none = none
vault_name env (some name) =
    let trimmed = env.trim name in
    if not (length trimmed == 0) && leb (length trimmed) 256 then some trimmed else none

unfoldable pub invalidate_vault : Text → ControlState → ControlState
invalidate_vault id s = record s {
  live = cancel_vault id s.live;
  events = s.events ++ record { uid = 0; vault = id; notice = none; invalidated = true } ∷ [];
}

module _ (config : ControlConfig) (env : Env) (user_id : ℕ) (token_hash : Text) where
  abbrev pub new_vault : Text → VaultCredentials → ℕ → Vault
  new_vault name credentials version = record {
    id = env.fresh_id;
    name = name;
    keyhash = credentials.keyhash;
    salt = credentials.salt;
    host = config.public_data_host;
    region = text "Blackglass Server";
    encryption_version = version;
    size = 0;
    created = env.now_ms;
    password = credentials.password;
  }

  abbrev pub created : Vault → Outcome Db → ControlState → Response × ControlState
  created v (err vault_limit_reached) s = (refused vault_limit, s)
  created v (err e) s = (refused (internal e), s)
  created v (ok db) s = (vault v, record s { db = db })

  unfoldable pub handle_create : Option VaultCreate → ControlState → Response × ControlState
  handle_create none s = (refused invalid_request, s)
  handle_create (some r) s = elim (vault_name env r.name) [
    | none ↦ (refused name_required, s)
    | some name ↦ elim r.encryption_version [
      | none ↦ (refused unsupported_version, s)
      | some version ↦
          if not (leb version 3)
          then (refused unsupported_version, s)
          else elim (vault_credentials env r.keyhash r.salt) [
            | none ↦ (refused invalid_credentials, s)
            | some credentials ↦
                let v = new_vault name credentials version in
                created v (create_vault user_id (some token_hash) v env.now s.db) s
          ]
    ]
  ]

  -- The comparison at the end: the key hash is the vault's.
  abbrev pub key_checked : Option Text → Option Text → ControlState → Response × ControlState
  key_checked none none s = (done, s)
  key_checked (some a) (some b) s = if a == b then (done, s) else (refused unable_to_access, s)
  key_checked _ _ s = (refused unable_to_access, s)

  -- A managed vault takes the key hash of the first client that derives it.
  unfoldable pub bind_and_check :
      VaultAccessRequest → Vault → ControlState → Response × ControlState
  bind_and_check r v s =
      if is_some v.password && is_none v.keyhash
      then elim r.keyhash [
        | none ↦ (refused unable_to_access, s)
        | some requested ↦
            if not (is_credential requested)
            then (refused unable_to_access, s)
            else elim (bind_managed_keyhash_for_session user_id token_hash v.id requested env.now
                s.db) [
                  | err e ↦ (refused (internal e), s)
                  | ok (bound, db) ↦ key_checked (some requested) bound (record s { db = db })
                ]
      ]
      else key_checked r.keyhash v.keyhash s

  abbrev pub same_host : Option Text → Text → Bool
  same_host none host = false
  same_host (some h) host = h == host

  abbrev pub same_version : Option ℕ → ℕ → Bool
  same_version none version = false
  same_version (some n) version = n == version

  abbrev pub checked_access : VaultAccessRequest → Vault → ControlState → Response × ControlState
  checked_access r v s =
      if not (same_host r.host v.host)
        || not (same_version r.encryption_version v.encryption_version)
      then (refused unable_to_access, s)
      else bind_and_check r v s

  abbrev pub sharing_checked :
      Option ℕ → VaultAccessRequest → Vault → ControlState → Response × ControlState
  sharing_checked none r v s = (refused unable_to_access, s)
  sharing_checked (some o) r v s =
      if not (sharing_allowed_for_owner config o)
      then (refused sharing_unavailable, s)
      else checked_access r v s

  abbrev pub with_access :
      VaultAccessRequest → Text → Vault → VaultAccess → ControlState → Response × ControlState
  with_access r id v (owner _ _) s = checked_access r v s
  with_access r id v (collaborator _ _ _) s = sharing_checked (vault_owner_user_id id s.db) r v s

  unfoldable pub handle_access : Option VaultAccessRequest → ControlState → Response × ControlState
  unfolding bind_and_check
  handle_access none s = (refused unable_to_access, s)
  handle_access (some r) s = elim r.vault_uid [
    | none ↦ (refused unable_to_access, s)
    | some id ↦ elim (find_authorized_vault user_id id s.db) [
      | err e ↦ (refused (internal e), s)
      | ok none ↦ (refused unable_to_access, s)
      | ok (some (v, access)) ↦ with_access r id v access s
    ]
  ]

  abbrev pub replacement_of : Vault → VaultCredentials → Vault
  replacement_of source credentials = new_vault source.name credentials 3

  abbrev pub migrated : Text → Vault → Outcome (Bool × Db) → ControlState → Response × ControlState
  migrated id v (err e) s = (refused (internal e), s)
  migrated id v (ok (false, db)) s = (refused unable_to_migrate, record s { db = db })
  migrated id v (ok (true, db)) s = (vault v, invalidate_vault id (record s { db = db }))

  unfoldable pub handle_migrate : Option VaultMigrate → ControlState → Response × ControlState
  unfolding invalidate_vault
  handle_migrate none s = (refused unable_to_migrate, s)
  handle_migrate (some r) s = elim r.vault_uid [
    | none ↦ (refused unable_to_migrate, s)
    | some id ↦
        if not (same_version r.encryption_version 3)
        then (refused unsupported_version, s)
        else elim (vault_credentials env r.keyhash r.salt) [
          | none ↦ (refused invalid_credentials, s)
          | some credentials ↦ elim (find_owned_vault user_id id s.db) [
            | none ↦ (refused unable_to_migrate, s)
            | some source ↦
                if leb 3 source.encryption_version
                then (refused already_version_3, s)
                else (let v = replacement_of source credentials in
                    migrated id v
                      (migrate_vault user_id (some token_hash) id v env.now env.now_ms s.db) s)
          ]
        ]
  ]

  abbrev pub renamed : Outcome (Bool × Db) → ControlState → Response × ControlState
  renamed (err e) s = (refused (internal e), s)
  renamed (ok (false, db)) s = (refused unable_to_rename, record s { db = db })
  renamed (ok (true, db)) s = (done, record s { db = db })

  unfoldable pub handle_rename : Option VaultRename → ControlState → Response × ControlState
  handle_rename none s = (refused unable_to_rename, s)
  handle_rename (some r) s = elim r.vault_uid [
    | none ↦ (refused unable_to_rename, s)
    | some id ↦ elim (vault_name env r.name) [
      | none ↦ (refused unable_to_rename, s)
      | some name ↦ renamed (rename_vault_for_session user_id token_hash id name env.now s.db) s
    ]
  ]

  abbrev pub deleted : Text → Outcome (Bool × Db) → ControlState → Response × ControlState
  deleted id (err e) s = (refused (internal e), s)
  deleted id (ok (false, db)) s = (refused unable_to_delete, record s { db = db })
  deleted id (ok (true, db)) s = (done, invalidate_vault id (record s { db = db }))

  -- `unwrap_or_default`: without a vault the id is empty.
  abbrev pub id_or_empty : Option Text → Text
  id_or_empty none = []
  id_or_empty (some id) = id

  unfoldable pub handle_delete : Option (Option Text) → ControlState → Response × ControlState
  unfolding invalidate_vault
  handle_delete none s = (refused unable_to_delete, s)
  handle_delete (some vault_uid) s =
      let id = id_or_empty vault_uid in
      deleted id (delete_vault user_id (some token_hash) id env.now env.now_ms s.db) s
