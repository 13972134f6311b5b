-- ===== src/Database.antt =====
-- The tables of schema version 7 that apps/server-rust/src/db.rs creates and writes (migrations 1,
-- 2, 4 to 7), as one record: each table is the list of its rows in the order of their rowids, and
-- `*_sequence` is its row of `sqlite_sequence`. `usage` is the temporary table
-- `blackglass_runtime_storage_usage` that two triggers keep.
pub mod Triggers
use blackglass_server.Base.{
  ℕ, ◌+◌, ◌-◌, ◌*◌, Bool, true, false, not, ◌&&◌, ◌||◌, Option, none, some, List, [], ◌∷◌, ◌++◌,
  Text, ◌==◌, nat_eq, text_eq, is_none, ltb, ◌^◌, Eq, ◌≡◌, ◌↔◌, arith,
}
use blackglass_server.Table.{select, delete, find, exists, sum_of}

abbrev pub max_js_safe_integer : ℕ
max_js_safe_integer = 9007199254740991

abbrev pub max_vaults : ℕ
max_vaults = 100

abbrev pub max_users : ℕ
max_users = 256

abbrev pub max_retired_vaults : ℕ
max_retired_vaults = 8192

abbrev pub max_retired_vaults_per_owner : ℕ
max_retired_vaults_per_owner = 512

abbrev pub max_sessions : ℕ
max_sessions = 1024

abbrev pub max_sessions_per_user : ℕ
max_sessions_per_user = 64

abbrev pub max_active_collaborators_per_vault : ℕ
max_active_collaborators_per_vault = 20

abbrev pub max_revoked_memberships_per_vault : ℕ
max_revoked_memberships_per_vault = 64

abbrev pub max_memberships : ℕ
max_memberships = 8192

pub data Status : Type 0 where
  active disabled : Status

pub data Role : Type 0 where
  admin user : Role

pub record User : Type 0 where
  pub id : ℕ
  pub email_canonical : Text
  pub email : Text
  pub name : Text
  pub password_hash : Text
  pub status : Status
  pub role : Role
  pub created_at : ℕ
  pub updated_at : ℕ

pub record ServerSettings : Type 0 where
  pub self_registration_enabled : Bool
  pub updated_at : ℕ
  pub updated_by : ℕ

pub record SessionRow : Type 0 where
  pub token_hash : Text
  pub user_id : ℕ
  pub created_at : ℕ
  pub expires_at : ℕ
  pub revoked_at : Option ℕ

-- `Vault` of model.rs with the columns `version` and `owner_user_id`.
pub record VaultRow : Type 0 where
  pub id : Text
  pub name : Text
  pub keyhash : Option Text
  pub salt : Option Text
  pub host : Text
  pub region : Text
  pub encryption_version : ℕ
  pub size : ℕ
  pub created : ℕ
  pub password : Option Text
  pub version : ℕ
  pub owner_user_id : ℕ

pub record Membership : Type 0 where
  pub id : ℕ
  pub vault_id : Text
  pub user_id : ℕ
  pub invited_by_user_id : ℕ
  pub accepted_at : ℕ
  pub created_at : ℕ
  pub revoked_at : Option ℕ

pub record RetiredVault : Type 0 where
  pub id : Text
  pub owner_user_id : ℕ
  pub retired_at : ℕ

-- `content` is the inline blob of the rows that the first schema wrote.
pub record RevisionRow : Type 0 where
  pub uid : ℕ
  pub vault_id : Text
  pub path : Text
  pub relatedpath : Option Text
  pub extension : Text
  pub hash : Text
  pub ctime : ℕ
  pub mtime : ℕ
  pub folder : Bool
  pub deleted : Bool
  pub size : ℕ
  pub pieces : ℕ
  pub content : Option (List ℕ)
  pub device : Text
  pub user_id : ℕ
  pub ts : ℕ

pub record RevisionContent : Type 0 where
  pub uid : ℕ
  pub content : List ℕ

pub record Db : Type 0 where
  pub users : List User
  pub users_sequence : ℕ
  pub settings : ServerSettings
  pub sessions : List SessionRow
  pub vaults : List VaultRow
  pub memberships : List Membership
  pub memberships_sequence : ℕ
  pub retired_vaults : List RetiredVault
  pub revisions : List RevisionRow
  pub revisions_sequence : ℕ
  pub revision_content : List RevisionContent
  pub usage : ℕ

abbrev pub is_active : User → Bool
is_active u = elim u.status [ active ↦ true | disabled ↦ false ]

abbrev pub is_admin : User → Bool
is_admin u = elim u.role [ admin ↦ true | user ↦ false ]

abbrev pub is_active_admin : User → Bool
is_active_admin u = is_admin u && is_active u

-- id=k AND status='active'
abbrev pub is_active_user : ℕ → User → Bool
is_active_user k u = u.id == k && is_active u

-- token_hash=h AND expires_at>now AND revoked_at IS NULL
abbrev pub is_live : Text → ℕ → SessionRow → Bool
is_live h now s = s.token_hash == h && ltb now s.expires_at && is_none s.revoked_at

abbrev pub is_active_member : Text → ℕ → Membership → Bool
is_active_member vault user_id m =
    m.vault_id == vault && m.user_id == user_id && is_none m.revoked_at

-- id=vault AND owner_user_id=user_id
abbrev pub is_owned : Text → ℕ → VaultRow → Bool
is_owned vault user_id v = v.id == vault && v.owner_user_id == user_id

-- ON DELETE CASCADE of revision_content.uid
abbrev without_row : List RevisionRow → RevisionContent → Bool
without_row revs c = not (exists (λ r. r.uid == c.uid) revs)

-- DELETE FROM revisions WHERE p: the contents go with their rows, and the trigger
-- `blackglass_runtime_storage_delete` takes the size of each row off the usage.
unfoldable pub delete_revisions : (RevisionRow → Bool) → Db → Db
delete_revisions p db =
    let kept = delete p db.revisions in
    record db {
      revisions = kept;
      revision_content = delete (without_row kept) db.revision_content;
      usage = db.usage - sum_of (λ r. r.size) (select p db.revisions);
    }

-- INSERT INTO revisions: AUTOINCREMENT takes the next number of the sequence, and the trigger
-- `blackglass_runtime_storage_insert` adds the size to the usage. Returns last_insert_rowid().
unfoldable pub insert_revision : (ℕ → RevisionRow) → Db → ℕ × Db
insert_revision row db =
    let uid = db.revisions_sequence + 1 in
    let r = row uid in
    (
      uid,
      record db {
        revisions = db.revisions ++ r ∷ [];
        revisions_sequence = uid;
        usage = db.usage + r.size;
      },
    )

-- DELETE FROM vaults WHERE p: memberships and revisions go by ON DELETE CASCADE.
unfoldable pub delete_vaults : (VaultRow → Bool) → Db → Db
unfolding delete_revisions
delete_vaults p db =
    let gone = select p db.vaults in
    let db' = delete_revisions (λ r. exists (λ v. v.id == r.vault_id) gone) db in
    record db' {
      vaults = delete p db.vaults;
      memberships = delete (λ m. exists (λ v. v.id == m.vault_id) gone) db.memberships;
    }

-- initialize_runtime_storage_usage: the triggers start from the sum of what is stored.
unfoldable pub initialize_runtime_storage_usage : Db → Db
initialize_runtime_storage_usage db = record db { usage = sum_of (λ r. r.size) db.revisions }
