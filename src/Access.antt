-- ===== src/Access.antt =====
-- Who may act on a vault (apps/server-rust/src/db.rs `vault_access`, `authorize_mutation`, and
-- `VaultAccess` of model.rs).
use blackglass_server.Base.{
  ℕ, Option, none, some, Text, ◌==◌, nat_eq, text_eq, is_some, Outcome, ◌>>◌, ensure, if◌then◌else◌,
  mutation_unauthorized,
}
use blackglass_server.Table.{find}
use blackglass_server.Database.{Db, Membership, is_active_member}
use blackglass_server.Sessions.{authorize_account_mutation}

pub data VaultAccess : Type 0 where
  owner : (user_id : ℕ) (vault_id : Text) → VaultAccess
  collaborator : (user_id : ℕ) (vault_id : Text) (share_uid : ℕ) → VaultAccess

abbrev as_member : ℕ → Text → Option Membership → Option VaultAccess
as_member user_id vault none = none
as_member user_id vault (some m) = some (collaborator user_id vault m.id)

unfoldable pub vault_access : ℕ → Text → Db → Option VaultAccess
vault_access user_id vault db = elim (find (λ v. v.id == vault) db.vaults) [
  | none ↦ none
  | some v ↦
      if v.owner_user_id == user_id
      then some (owner user_id vault)
      else as_member user_id vault (find (is_active_member vault user_id) db.memberships)
]

unfoldable pub authorize_mutation : Option Text → ℕ → Text → ℕ → Db → Outcome (Unit {0})
authorize_mutation token_hash user_id vault now db = do
  authorize_account_mutation token_hash user_id now db
  ensure (is_some (vault_access user_id vault db)) mutation_unauthorized
