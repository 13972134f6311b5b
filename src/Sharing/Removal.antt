-- ===== src/Sharing/Removal.antt =====
-- A removal takes the membership it names, from the hands of the owner or the collaborator only.
use blackglass_server.Base.{
  ◌≢◌, ℕ, ◌≡◌, ◌⊎◌, inl, inr, refl, true, ◌&&◌, Option, none, some, arith, Text, ◌==◌, nat_eq,
  text_eq, OnOk, OnOk-ok, OnOk-bind, Bool-cases, ok,
}
use blackglass_server.Table.{count, find}
use blackglass_server.Table.Updates.{count_of_find, count_mono}
use blackglass_server.Table.Keys.{count-keyed}
use blackglass_server.Database.{Db, Membership, VaultRow}
use blackglass_server.Access.{owner, vault_access}
use blackglass_server.Sharing.{
  is_share, share_with_owner, remove_share, remove_collaborator_for_session,
}
use blackglass_server.Sharing.Prune.{id_of}
use blackglass_server.Sharing.Index.{IsShared}
use blackglass_server.Sharing.Grants.{vault_access-same}
use blackglass_server.Sharing.Revocation.{
  share_ended, after_revocation, revocation-IsShared, membership_gone, membership_kept,
  share_with_owner-rows, access_gone,
}

-- The collaborator `user_id` is removed: the active membership `uid` of the vault was theirs and is
-- active no more, and no access is left to the vault but an owner's.
pub record IsRemoved (acting_user_id uid : ℕ) (vault : Text) (db : Db) (user_id : ℕ) (db' : Db)
    : Type 0 where
  pub membership : Membership
  pub named : find (is_share uid vault) db.memberships ≡ some membership
  pub theirs : membership.user_id ≡ user_id
  pub ended : find (is_share uid vault) db'.memberships ≡ none
  pub by_right :
      (acting_user_id ≡ user_id)
      ⊎ (find (λ (v : VaultRow). v.id == vault && v.owner_user_id == acting_user_id) db.vaults
          ≢ none)
  pub gone :
      (vault_access user_id vault db' ≡ none)
      ⊎ (vault_access user_id vault db' ≡ some (owner user_id vault))
  pub others :
      (v : Text) (u : ℕ)
      → ((v ≡ vault) × (u ≡ user_id)) ⊎ (vault_access u v db' ≡ vault_access u v db)
  pub shared : IsShared db'

-- A removal that names nobody leaves the database as it was.
unfoldable pub IsRemovalResult : ℕ → ℕ → Text → Db → Option ℕ → Db → Type 0
IsRemovalResult acting_user_id uid vault db none db' = db' ≡ db
IsRemovalResult acting_user_id uid vault db (some user_id) db' =
    IsRemoved acting_user_id uid vault db user_id db'

removal-IsRemoved :
    (acting uid now : ℕ) (vault : Text) (db : Db) (user_id holder : ℕ) (m : Membership)
    → IsShared db
    → find (is_share uid vault) db.memberships ≡ some m
    → m.user_id ≡ user_id
    → find (λ (v : VaultRow). v.id == vault && v.owner_user_id == holder) db.vaults ≢ none
    → (acting ≡ user_id) ⊎ (acting ≡ holder)
    → IsRemoved acting uid vault db user_id (after_revocation now uid vault db)
removal-IsRemoved acting uid now vault db user_id holder m h found named held right =
    let after = after_revocation now uid vault db in
    record {
      membership = m;
      named = found;
      theirs = named;
      ended = share_ended now uid vault db.memberships;
      by_right = elim right [ inl self ↦ inl self | inr own ↦ inr (rw own held) ];
      gone =
          access_gone user_id vault after
            (rw (← named) (membership_gone now uid vault db m h found));
      others = λ w u. elim (membership_kept now uid vault db m h found w u) [
        | inl here ↦ inl (ground (arith, here))
        | inr kept ↦ inr (vault_access-same w u db after refl kept)
      ];
      shared = revocation-IsShared now uid vault db h;
    }

remove_share-IsRemoved :
    (acting_user_id uid now : ℕ) (vault : Text) (db : Db)
    → IsShared db
    → (row : Option (ℕ × ℕ)) → share_with_owner uid vault db ≡ row
    → let out = remove_share row acting_user_id vault uid now db in
      IsRemovalResult acting_user_id uid vault db out.0 out.1
unfolding IsRemovalResult
remove_share-IsRemoved acting uid now vault db h none e = refl
remove_share-IsRemoved acting uid now vault db h (some (holder, user_id)) e =
    let (m, found, named, held) = share_with_owner-rows uid vault db holder user_id e in
    let one : (count (is_share uid vault) db.memberships == 1) ≡ true = ground (
      arith,
      count_of_find (is_share uid vault) m db.memberships found,
      count_mono (is_share uid vault) (λ (x : Membership). x.id == uid) db.memberships
          (λ x s. ground arith),
      count-keyed id_of uid db.memberships h.keyed,
    ) in
    let removed : (acting ≡ user_id) ⊎ (acting ≡ holder)
        → IsRemoved acting uid vault db user_id (after_revocation now uid vault db) =
      λ right.
        removal-IsRemoved acting uid now vault db user_id holder m h found named held right in
    elim (Bool-cases (acting == holder)) [
      | inl own ↦ rw (own, one) (removed (inr (ground arith)))
      | inr not_own ↦ elim (Bool-cases (acting == user_id)) [
        | inl self ↦ rw (not_own, self, one) (removed (inl (ground arith)))
        | inr other ↦ rw (not_own, other) refl
      ]
    ]

-- With well-formed memberships, a removal either names nobody and changes nothing, or it is by the
-- collaborator that it returns or by the owner of the vault, the active membership of the vault
-- under the id given was that collaborator's and is active no more, it leaves them no access to the
-- vault but an owner's and every other pair of a user and a vault the access it had, and it keeps
-- the memberships well formed.
pub remove_collaborator-IsRemovalResult :
    (acting_user_id share_uid now : ℕ) (token_hash vault : Text) (db db' : Db) (result : Option ℕ)
    → IsShared db
    → remove_collaborator_for_session acting_user_id token_hash vault share_uid now db
      ≡ ok (result, db')
    → IsRemovalResult acting_user_id share_uid vault db result db'
remove_collaborator-IsRemovalResult acting share_uid now token_hash vault db db' result h e =
    removed.at (result, db') e
  where
    P : Option ℕ × Db → Type 0
    P out = IsRemovalResult acting share_uid vault db out.0 out.1

    removed : OnOk P (remove_collaborator_for_session acting token_hash vault share_uid now db)
    removed =
        unfold remove_collaborator_for_session in
        OnOk-bind P _ _
          λ _ _. OnOk-ok P _ (remove_share-IsRemoved acting share_uid now vault db h _ refl)
