-- ===== src/Sharing.antt =====
-- Sharing a vault (apps/server-rust/src/db.rs, `list_shares_for_owner` to
-- `remove_collaborator_for_session`). A transaction that raises is rolled back; `now` is what
-- `now_ms()` reads.
pub mod Prune
pub mod Index
pub mod Grants
pub mod Revocation
pub mod Removal
use blackglass_server.Base.{
  ℕ, suc, ◌+◌, ◌-◌, Bool, true, false, not, ◌&&◌, ◌||◌, Option, none, some, List, [], ◌∷◌, ◌++◌,
  map, take, Text, ◌==◌, nat_eq, text_eq, is_none, is_some, ltb, leb, length, Outcome, ok, err,
  ◌>>=◌, ◌>>◌, ensure, require, branch, if◌then◌else◌, sharing_vault_unavailable,
  sharing_user_unavailable, collaborator_limit_reached, membership_capacity_reached,
  membership_sequence_exhausted, constraint,
}
use blackglass_server.Table.{select, delete, update, count, exists, find, order_by}
use blackglass_server.Auth.{CanonicalEmail, canonicalize_email}
use blackglass_server.Database.{
  Db, User, VaultRow, Membership, is_active, is_owned, is_active_member, max_js_safe_integer,
  max_active_collaborators_per_vault, max_revoked_memberships_per_vault, max_memberships,
}
use blackglass_server.Sessions.{authorize_account_mutation}

pub record VaultShareItem : Type 0 where
  pub uid : ℕ
  pub email : Text
  pub name : Option Text
  pub accepted : Bool

-- vault_id=vault AND revoked_at IS NULL
abbrev pub is_active_in : Text → Membership → Bool
is_active_in vault m = m.vault_id == vault && is_none m.revoked_at

-- vault_id=vault AND revoked_at IS NOT NULL
abbrev pub is_revoked_in : Text → Membership → Bool
is_revoked_in vault m = m.vault_id == vault && is_some m.revoked_at

-- ORDER BY a,b of two numbers
abbrev pub pair_leb : ℕ → ℕ → ℕ → ℕ → Bool
pair_leb a b c d = ltb a c || (a == c && leb b d)

abbrev pub by_creation : Membership → Membership → Bool
by_creation m n = pair_leb m.created_at m.id n.created_at n.id

abbrev revoked_time : Option ℕ → ℕ
revoked_time none = 0
revoked_time (some t) = t

abbrev pub by_revocation : Membership → Membership → Bool
by_revocation m n = pair_leb (revoked_time m.revoked_at) m.id (revoked_time n.revoked_at) n.id

-- A row of the JOIN on users
abbrev share_item : Membership → Option User → List VaultShareItem
share_item m none = []
share_item m (some u) =
    record { uid = m.id; email = u.email; name = some u.name; accepted = true } ∷ []

abbrev share_items : List User → List Membership → List VaultShareItem
share_items users [] = []
share_items users (m ∷ ms) =
    share_item m (find (λ (u : User). u.id == m.user_id) users) ++ share_items users ms

unfoldable pub list_shares_for_owner : ℕ → Text → Db → Option (List VaultShareItem)
list_shares_for_owner owner_user_id vault db =
    if not (exists (is_owned vault owner_user_id) db.vaults)
    then none
    else some (
        take max_active_collaborators_per_vault (
          share_items db.users (order_by by_creation (select (is_active_in vault) db.memberships))))

-- The oldest revoked memberships of the vault, so many that one more is within the maximum.
unfoldable pub oldest_revoked : Text → List Membership → List Membership
oldest_revoked vault memberships =
    take (suc (count (is_revoked_in vault) memberships) - max_revoked_memberships_per_vault)
      (order_by by_revocation (select (is_revoked_in vault) memberships))

unfoldable pub prune_revoked : Text → List Membership → List Membership
unfolding oldest_revoked
prune_revoked vault memberships =
    delete
      (λ (m : Membership).
        exists (λ (o : Membership). o.id == m.id) (oldest_revoked vault memberships))
      memberships

-- INSERT INTO memberships: AUTOINCREMENT takes the next number of the sequence, and the unique
-- index `memberships_active_vault_user` refuses a second active row of the user in the vault.
unfoldable pub insert_membership : ℕ → Text → ℕ → ℕ → Db → Outcome (ℕ × Db)
insert_membership owner_user_id vault user_id now db = do
  ensure (not (exists (is_active_member vault user_id) db.memberships)) constraint
  let id = db.memberships_sequence + 1
  let row : Membership = record {
    id = id;
    vault_id = vault;
    user_id = user_id;
    invited_by_user_id = owner_user_id;
    accepted_at = now;
    created_at = now;
    revoked_at = none;
  }
  ok (id, record db { memberships = db.memberships ++ row ∷ []; memberships_sequence = id })

abbrev item : ℕ → User → VaultShareItem
item uid target = record {
  uid = uid;
  email = target.email;
  name = some target.name;
  accepted = true;
}

abbrev pub has_active_email : Text → User → Bool
has_active_email canonical u = u.email_canonical == canonical && is_active u

-- The memberships that the statements before the INSERT leave, once there is room.
unfoldable pub admit_member : ℕ → Text → User → ℕ → Db → Outcome (VaultShareItem × Db)
unfolding prune_revoked insert_membership
admit_member owner_user_id vault target now db = do
  ensure (ltb (count (is_active_in vault) db.memberships) max_active_collaborators_per_vault)
      collaborator_limit_reached
  let kept = prune_revoked vault db.memberships
  ensure (ltb (length kept) max_memberships) membership_capacity_reached
  ensure (ltb db.memberships_sequence max_js_safe_integer) membership_sequence_exhausted
  (uid, db') ←
      insert_membership owner_user_id vault target.id now (record db { memberships = kept })
  ok (item uid target, db')

abbrev again_or_new : Option Membership → ℕ → Text → User → ℕ → Db → Outcome (VaultShareItem × Db)
again_or_new (some m) owner_user_id vault target now db = ok (item m.id target, db)
again_or_new none owner_user_id vault target now db = admit_member owner_user_id vault target now db

-- `now` authorizes, and `created` is the clock of the INSERT.
unfoldable pub invite_collaborator_for_session :
    ℕ → Text → Text → Text → ℕ → ℕ → Db → Outcome (VaultShareItem × Db)
unfolding admit_member
invite_collaborator_for_session owner_user_id token_hash vault target_email now created db = do
  email ← canonicalize_email target_email
  authorize_account_mutation (some token_hash) owner_user_id now db
  ensure (exists (is_owned vault owner_user_id) db.vaults) sharing_vault_unavailable
  target ← require (find (has_active_email email.canonical) db.users) sharing_user_unavailable
  ensure (not (target.id == owner_user_id)) sharing_user_unavailable
  again_or_new (find (is_active_member vault target.id) db.memberships) owner_user_id vault target
      created db

-- id=uid AND vault_id=vault AND revoked_at IS NULL
abbrev pub is_share : ℕ → Text → Membership → Bool
is_share uid vault m = m.id == uid && m.vault_id == vault && is_none m.revoked_at

abbrev pub revoke_membership : ℕ → Membership → Membership
revoke_membership now m = record m { revoked_at = some now }

-- The row of the JOIN of the membership with its vault.
abbrev pub share_with_owner : ℕ → Text → Db → Option (ℕ × ℕ)
share_with_owner uid vault db = elim (find (is_share uid vault) db.memberships) [
  | none ↦ none
  | some m ↦ elim (find (λ (v : VaultRow). v.id == m.vault_id) db.vaults) [
    | none ↦ none
    | some v ↦ some (v.owner_user_id, m.user_id)
  ]
]

abbrev remove_share : Option (ℕ × ℕ) → ℕ → Text → ℕ → ℕ → Db → Option ℕ × Db
remove_share none acting_user_id vault uid now db = (none, db)
remove_share (some (owner, collaborator)) acting_user_id vault uid now db =
    if not (acting_user_id == owner) && not (acting_user_id == collaborator) then (none, db) else (
      if count (is_share uid vault) db.memberships == 1 then some collaborator else none,
      record db {
        memberships = update (is_share uid vault) (revoke_membership now) db.memberships;
      },
    )

-- Returns the user whose membership it has revoked.
unfoldable pub remove_collaborator_for_session :
    ℕ → Text → Text → ℕ → ℕ → Db → Outcome (Option ℕ × Db)
remove_collaborator_for_session acting_user_id token_hash vault share_uid now db = do
  authorize_account_mutation (some token_hash) acting_user_id now db
  ok (remove_share (share_with_owner share_uid vault db) acting_user_id vault share_uid now db)
