-- ===== src/Control/State.antt =====
-- What the handlers of the control API read and change, their requests and answers. A request is what
-- serde_json makes of the body, `none` where it refuses it.
use blackglass_server.Base.{ℕ, Option, List, Text, Error, nat_eq}
use blackglass_server.Database.{Db}
use blackglass_server.Sharing.{VaultShareItem}
use blackglass_server.Vaults.{Vault, SharedVault}
use blackglass_server.Live.{LiveEntry}
use blackglass_server.Limits.Invites.{ShareInviteAttempt}
use blackglass_server.Socket.Session.{Event}
pub use blackglass_server.Settings.{ControlConfig}
unfoldable pub use blackglass_server.Settings.{sharing_allowed_for_owner}

-- The clocks (seconds, a second reading in one operation, milliseconds, and the monotonic one), the source address, what the random
-- generator yields, and other crates' functions: SHA-256 of a token, the digest of an invitation's
-- target, and `str::trim`.
pub record Env : Type 0 where
  pub now : ℕ
  pub now_again : ℕ
  pub now_ms : ℕ
  pub instant : ℕ
  pub source : ℕ
  pub fresh_id : Text
  pub managed_password : Text
  pub managed_salt : Text
  pub hash_of : Text → Text
  pub digest_of : Text → ℕ
  pub trim : Text → Text

pub record ControlState : Type 0 where
  pub db : Db
  pub live : List LiveEntry
  pub invite_attempts : List ShareInviteAttempt
  pub events : List Event

pub data Refusal : Type 0 where
  not_logged_in sharing_unavailable unable_to_list unable_to_invite user_unavailable : Refusal
  invite_rate_limited collaborator_limit sharing_capacity unable_to_remove invalid_request : Refusal
  name_required unsupported_version invalid_credentials vault_limit unable_to_access : Refusal
  unable_to_migrate already_version_3 unable_to_rename unable_to_delete unavailable unknown_path :
      Refusal
  internal : Error → Refusal

pub data Response : Type 0 where
  done subscription regions : Response
  account : (email name : Text) → Response
  vaults : List Vault → List SharedVault → Response
  vault : Vault → Response
  share : VaultShareItem → Response
  shares : List VaultShareItem → Response
  refused : Refusal → Response

pub record VaultCreate : Type 0 where
  pub name : Option Text
  pub keyhash : Option Text
  pub salt : Option Text
  pub encryption_version : Option ℕ

pub record VaultAccessRequest : Type 0 where
  pub vault_uid : Option Text
  pub keyhash : Option Text
  pub host : Option Text
  pub encryption_version : Option ℕ

pub record VaultMigrate : Type 0 where
  pub vault_uid : Option Text
  pub keyhash : Option Text
  pub salt : Option Text
  pub encryption_version : Option ℕ

pub record VaultRename : Type 0 where
  pub vault_uid : Option Text
  pub name : Option Text

pub record VaultShareInviteRequest : Type 0 where
  pub vault_uid : Option Text
  pub email : Option Text

pub record VaultShareRemoveRequest : Type 0 where
  pub vault_uid : Option Text
  pub share_uid : Option ℕ

-- The path and the body. `unavailable_path` stands for the routes that this server refuses.
pub data Request : Type 0 where
  user_signout user_info subscription_list unavailable_path vault_regions vault_list other_path :
      Request
  vault_create : Option VaultCreate → Request
  vault_access : Option VaultAccessRequest → Request
  vault_migrate : Option VaultMigrate → Request
  vault_rename : Option VaultRename → Request
  vault_delete : Option (Option Text) → Request
  share_list : Option (Option Text) → Request
  share_invite : Option VaultShareInviteRequest → Request
  share_remove : Option VaultShareRemoveRequest → Request
