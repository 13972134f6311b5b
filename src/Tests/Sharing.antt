-- ===== src/Tests/Sharing.antt =====
-- Alice invites Bob to her vault, and Bob leaves it.
use blackglass_server.Base.{
  ◌++◌, zero, suc, List, ◌∷◌, ℕ, ◌≡◌, refl, false, Option, none, [], text, chains, nat_eq, text_eq,
  text_beq, arith, ◌==◌, ◌&&◌, some,
}
use blackglass_server.Table.{select, delete, update, count, exists, find}
use blackglass_server.Table.Keys.{IsKeyed}
use blackglass_server.Auth.{canonicalize_email}
use blackglass_server.Database.{Db, Membership, max_revoked_memberships_per_vault}
use blackglass_server.Access.{collaborator, vault_access}
use blackglass_server.Sessions.{authorize_account_mutation}
use blackglass_server.Sharing.{
  is_revoked_in, VaultShareItem, invite_collaborator_for_session, remove_collaborator_for_session,
  prune_revoked, oldest_revoked, insert_membership, admit_member,
}
use blackglass_server.Sharing.Index.{IsShared}
use blackglass_server.Sharing.Grants.{IsInvited, vault_id_of, invite_collaborator-IsInvited}
use blackglass_server.Sharing.Removal.{IsRemovalResult, remove_collaborator-IsRemovalResult}
use blackglass_server.Sharing.Removal.{IsRemoved}
use blackglass_server.Vaults.{vault_owner_user_id}
use blackglass_server.Live.{register}
use blackglass_server.Live.Registry.{IsEnded}
use blackglass_server.Control.State.{
  ControlState, VaultShareRemoveRequest, sharing_allowed_for_owner,
}
use blackglass_server.Control.Shares.{handle_share_remove}
use blackglass_server.Control.Reach.{share-IsRemoved}
use blackglass_server.Tests.Control.{config, env}
use blackglass_server.Tests.Data.{db, hash_1, hash_2, value}

shared : IsShared db
unfolding count
shared = record {
  keyed = tt;
  numbered = tt;
  single = λ v u. omega arith;
  few = λ v. omega arith;
  bounded = omega arith;
}

vaults-IsKeyed : IsKeyed vault_id_of db.vaults
unfolding text_beq
vaults-IsKeyed = ((refl, tt), (tt, tt))

abbrev no_item : VaultShareItem
no_item = record { uid = 0; email = []; name = none; accepted = false }

abbrev invited : VaultShareItem × Db
invited =
    value (no_item, db)
      (invite_collaborator_for_session 1 hash_1 (text "v1") (text "bob@example.com") 5 6 db)

invite_example : IsInvited 1 (text "v1") (text "bob@example.com") db invited.0 invited.1
unfolding invite_collaborator_for_session canonicalize_email authorize_account_mutation exists find
    admit_member prune_revoked oldest_revoked insert_membership select delete count text_beq chains
invite_example =
    invite_collaborator-IsInvited 1 hash_1 (text "v1") (text "bob@example.com") 5 6 db invited.1
      invited.0 shared vaults-IsKeyed refl

-- The invited account opens the vault.
bob_may_open : vault_access 2 (text "v1") invited.1 ≡ some (collaborator 2 (text "v1") 1)
unfolding invite_collaborator_for_session canonicalize_email authorize_account_mutation exists find
    admit_member prune_revoked oldest_revoked insert_membership select delete count text_beq chains
    vault_access
bob_may_open = refl

abbrev left : Option ℕ × Db
left = value (none, db) (remove_collaborator_for_session 2 hash_2 (text "v1") 1 6 invited.1)

remove_example : IsRemovalResult 2 1 (text "v1") invited.1 left.0 left.1
unfolding invite_collaborator_for_session remove_collaborator_for_session canonicalize_email
    authorize_account_mutation exists find admit_member prune_revoked oldest_revoked
    insert_membership select delete update count text_beq chains
remove_example =
    remove_collaborator-IsRemovalResult 2 1 6 hash_2 (text "v1") invited.1 left.1 left.0
      invite_example.granted.shared refl

abbrev before_removal : ControlState
before_removal = record {
  db = invited.1;
  live = (register 4 (text "c2") 3 2 hash_2 (text "v1") (text "d") 0 []).1;
  invite_attempts = [];
  events = [];
}

abbrev removal : VaultShareRemoveRequest
removal = record { vault_uid = some (text "v1"); share_uid = some 1 }

abbrev after_removal : ControlState
after_removal = (handle_share_remove config env 1 hash_1 (some removal) before_removal).1

share-IsRemoved_example :
    (uid user : ℕ) × (some 1 ≡ some uid)
    × IsRemoved 1 uid (text "v1") invited.1 user after_removal.db
    × IsEnded (λ u v _. (u == user) && (v == text "v1")) after_removal.live
unfolding invite_collaborator_for_session remove_collaborator_for_session canonicalize_email
    authorize_account_mutation exists find admit_member prune_revoked oldest_revoked
    insert_membership select delete update count text_beq chains handle_share_remove
    sharing_allowed_for_owner vault_owner_user_id
share-IsRemoved_example =
    share-IsRemoved config env 1 hash_1 removal (text "v1") before_removal after_removal
      invite_example.granted.shared refl refl

bob_is_removed : left.0 ≡ some 2
unfolding invite_collaborator_for_session remove_collaborator_for_session canonicalize_email
    authorize_account_mutation exists find admit_member prune_revoked oldest_revoked
    insert_membership select delete update count text_beq chains
bob_is_removed = refl

-- Memberships of the accounts `3` on, revoked one after the other.
abbrev past : ℕ → List Membership
past zero = []
past (suc n) =
    record {
      id = suc n;
      vault_id = text "v1";
      user_id = suc (suc (suc n));
      invited_by_user_id = 1;
      accepted_at = 1;
      created_at = 1;
      revoked_at = some 2;
    }
    ∷ past n

abbrev bobs : Membership
bobs = record {
  id = 65;
  vault_id = text "v1";
  user_id = 2;
  invited_by_user_id = 1;
  accepted_at = 1;
  created_at = 1;
  revoked_at = none;
}

-- As many revoked memberships of the vault as the verification of the file accepts, and Bob's.
abbrev crowded : Db
crowded = record db { memberships = past 64 ++ bobs ∷ []; memberships_sequence = 65 }

abbrev one_more : Option ℕ × Db
one_more = value (none, db) (remove_collaborator_for_session 2 hash_2 (text "v1") 65 6 crowded)

-- A removal does not prune: once Bob leaves, the revoked memberships are past their maximum.
past_the_maximum :
    (count (is_revoked_in (text "v1")) crowded.memberships ≡ max_revoked_memberships_per_vault)
    × (count (is_revoked_in (text "v1")) one_more.1.memberships
        ≡ suc max_revoked_memberships_per_vault)
unfolding remove_collaborator_for_session authorize_account_mutation exists find update count
    text_beq chains
past_the_maximum = (refl, refl)
