-- ===== src/Vaults.antt =====
-- Vaults (apps/server-rust/src/db.rs `create_vault_internal`, the queries for them,
-- `bind_managed_keyhash_for_session` to `migrate_vault_internal`, `retire_vault_identity`). A
-- transaction that raises or returns early is rolled back; `now` is what `now_ms()` reads.
pub mod Deletion
pub mod Creation
use blackglass_server.Base.{
  ℕ, ◌+◌, ◌-◌, Bool, true, false, not, ◌&&◌, ◌||◌, Option, none, some, List, [], ◌∷◌, ◌++◌, map,
  take, drop, Text, ◌==◌, nat_eq, text_eq, is_none, is_some, ltb, leb, length, Outcome, ok, ◌>>=◌,
  ◌>>◌, ensure, require, branch, vault_limit_reached, retired_limit_reached, constraint, no_rows,
  if◌then◌else◌,
}
use blackglass_server.Table.{select, delete, update, count, exists, find, order_by}
use blackglass_server.Database.{
  Db, User, VaultRow, Membership, RetiredVault, is_owned, is_active, is_active_user, max_vaults,
  max_memberships, max_retired_vaults, max_retired_vaults_per_owner, delete_vaults,
}
use blackglass_server.Access.{VaultAccess, vault_access}
use blackglass_server.Sessions.{authorize_account_mutation}
use blackglass_server.Sharing.{is_active_in, by_creation}

pub record Vault : Type 0 where
  pub id : Text
  pub name : Text
  pub keyhash : Option Text
  pub salt : Option Text
  pub host : Text
  pub region : Text
  pub encryption_version : ℕ
  pub size : ℕ
  pub created : ℕ
  pub password : Option Text

abbrev pub vault_row : VaultRow → Vault
vault_row v = record {
  id = v.id;
  name = v.name;
  keyhash = v.keyhash;
  salt = v.salt;
  host = v.host;
  region = v.region;
  encryption_version = v.encryption_version;
  size = v.size;
  created = v.created;
  password = v.password;
}

abbrev pub new_row : ℕ → Vault → VaultRow
new_row user_id v = record {
  id = v.id;
  name = v.name;
  keyhash = v.keyhash;
  salt = v.salt;
  host = v.host;
  region = v.region;
  encryption_version = v.encryption_version;
  size = v.size;
  created = v.created;
  password = v.password;
  version = 0;
  owner_user_id = user_id;
}

-- INSERT INTO vaults: the id is the primary key.
unfoldable pub insert_vault : ℕ → Vault → Db → Outcome Db
insert_vault user_id vault db = do
  ensure (not (exists (λ v. v.id == vault.id) db.vaults)) constraint
  ok (record db { vaults = db.vaults ++ new_row user_id vault ∷ [] })

unfoldable pub create_vault : ℕ → Option Text → Vault → ℕ → Db → Outcome Db
unfolding insert_vault
create_vault user_id token_hash vault now db = do
  authorize_account_mutation token_hash user_id now db
  ensure (ltb (length db.vaults) max_vaults) vault_limit_reached
  ensure (ltb (count (λ v. v.owner_user_id == user_id) db.vaults) max_vaults) vault_limit_reached
  insert_vault user_id vault db

-- The binary collation of texts.
unfoldable pub text_leb : Text → Text → Bool
text_leb [] t = true
text_leb (a ∷ s) [] = false
text_leb (a ∷ s) (b ∷ t) = ltb a b || (a == b && text_leb s t)

abbrev by_age : VaultRow → VaultRow → Bool
by_age v w = ltb v.created w.created || (v.created == w.created && text_leb v.id w.id)

unfoldable pub list_vaults_for_user : ℕ → Db → List Vault
unfolding text_leb
list_vaults_for_user user_id db =
    map vault_row
      (take max_vaults (order_by by_age (select (λ v. v.owner_user_id == user_id) db.vaults)))

pub record SharedVault : Type 0 where
  pub vault : Vault
  pub share_uid : ℕ
  pub owner_user_id : ℕ

abbrev shared_vault : Membership → Option VaultRow → List SharedVault
shared_vault m none = []
shared_vault m (some v) =
    record { vault = vault_row v; share_uid = m.id; owner_user_id = v.owner_user_id } ∷ []

abbrev shared_vaults : List VaultRow → List Membership → List SharedVault
shared_vaults vaults [] = []
shared_vaults vaults (m ∷ ms) =
    shared_vault m (find (λ v. v.id == m.vault_id) vaults) ++ shared_vaults vaults ms

-- The JOIN with the active user keeps all of the user's memberships or none.
unfoldable pub list_shared_vaults_for_user : ℕ → Db → List SharedVault
list_shared_vaults_for_user user_id db =
    if exists (is_active_user user_id) db.users
    then take max_memberships (
        shared_vaults db.vaults (
          order_by by_creation (
            select (λ (m : Membership). m.user_id == user_id && is_none m.revoked_at)
              db.memberships)))
    else []

abbrev as_vault : Option VaultRow → Option Vault
as_vault none = none
as_vault (some v) = some (vault_row v)

unfoldable pub find_owned_vault : ℕ → Text → Db → Option Vault
find_owned_vault user_id id db = as_vault (find (is_owned id user_id) db.vaults)

unfoldable pub find_authorized_vault : ℕ → Text → Db → Outcome (Option (Vault × VaultAccess))
find_authorized_vault user_id id db = elim (vault_access user_id id db) [
  | none ↦ ok none
  | some access ↦ do
    v ← require (find (λ v. v.id == id) db.vaults) no_rows
    ok (some (vault_row v, access))
]

abbrev owner_of : Option VaultRow → Option ℕ
owner_of none = none
owner_of (some v) = some v.owner_user_id

unfoldable pub vault_owner_user_id : Text → Db → Option ℕ
vault_owner_user_id id db = owner_of (find (λ v. v.id == id) db.vaults)

abbrev awaits_keyhash : Text → ℕ → VaultRow → Bool
awaits_keyhash id user_id v = is_owned id user_id v && is_some v.password && is_none v.keyhash

abbrev keyhash_of : Option VaultRow → Option Text
keyhash_of none = none
keyhash_of (some v) = v.keyhash

-- Returns the key hash that the vault has then.
unfoldable pub bind_managed_keyhash_for_session :
    ℕ → Text → Text → Text → ℕ → Db → Outcome (Option Text × Db)
bind_managed_keyhash_for_session user_id token_hash id keyhash now db = do
  authorize_account_mutation (some token_hash) user_id now db
  let vaults' =
      update (awaits_keyhash id user_id) (λ v. record v { keyhash = some keyhash }) db.vaults
  ok (keyhash_of (find (is_owned id user_id) vaults'), record db { vaults = vaults' })

unfoldable pub rename_vault_for_session : ℕ → Text → Text → Text → ℕ → Db → Outcome (Bool × Db)
rename_vault_for_session user_id token_hash id name now db = do
  authorize_account_mutation (some token_hash) user_id now db
  ok (
    count (is_owned id user_id) db.vaults == 1,
    record db { vaults = update (is_owned id user_id) (λ v. record v { name = name }) db.vaults },
  )

abbrev newest_first : RetiredVault → RetiredVault → Bool
newest_first r s =
    ltb s.retired_at r.retired_at || (r.retired_at == s.retired_at && text_leb s.id r.id)

-- The oldest markers of an owner go before the new one comes, so that they stay within the maximum.
unfoldable pub retire_vault_identity : Text → ℕ → Db → Outcome Db
unfolding text_leb
retire_vault_identity id retired_at db = do
  v ← require (find (λ v. v.id == id) db.vaults) no_rows
  let owner = v.owner_user_id
  let of_owner = select (λ (r : RetiredVault). r.owner_user_id == owner) db.retired_vaults
  let surplus = drop (max_retired_vaults_per_owner - 1) (order_by newest_first of_owner)
  let kept =
      delete
        (λ (r : RetiredVault).
          r.owner_user_id == owner && exists (λ (s : RetiredVault). s.id == r.id) surplus)
        db.retired_vaults
  ensure (ltb (length kept) max_retired_vaults) retired_limit_reached
  let marker : RetiredVault = record { id = id; owner_user_id = owner; retired_at = retired_at }
  ok (record db { retired_vaults = delete (λ (r : RetiredVault). r.id == id) kept ++ marker ∷ [] })

unfoldable pub delete_vault : ℕ → Option Text → Text → ℕ → ℕ → Db → Outcome (Bool × Db)
unfolding retire_vault_identity delete_vaults
delete_vault user_id token_hash id auth_now now db = do
  authorize_account_mutation token_hash user_id auth_now db
  branch (not (exists (is_owned id user_id) db.vaults)) (ok (false, db)) do
    retired ← retire_vault_identity id now db
    ok (true, delete_vaults (is_owned id user_id) retired)

unfoldable pub migrate_vault : ℕ → Option Text → Text → Vault → ℕ → ℕ → Db → Outcome (Bool × Db)
unfolding insert_vault retire_vault_identity delete_vaults
migrate_vault user_id token_hash source_id replacement auth_now now db = do
  authorize_account_mutation token_hash user_id auth_now db
  branch (not (exists (is_owned source_id user_id) db.vaults)) (ok (false, db)) do
    inserted ← insert_vault user_id replacement db
    let moved =
        update (is_active_in source_id) (λ m. record m { vault_id = replacement.id })
          inserted.memberships
    retired ← retire_vault_identity source_id now (record inserted { memberships = moved })
    ok (true, delete_vaults (is_owned source_id user_id) retired)

unfoldable pub is_retired_vault : Text → Db → Bool
is_retired_vault vault db = exists (λ (r : RetiredVault). r.id == vault) db.retired_vaults

unfoldable pub is_retired_vault_for_user : ℕ → Text → Db → Bool
is_retired_vault_for_user user_id vault db =
    exists (λ (r : RetiredVault). r.id == vault && r.owner_user_id == user_id) db.retired_vaults
