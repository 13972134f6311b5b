-- ===== src/Sharing/Revocation.antt =====
-- The UPDATE that revokes a membership: the row that it changes, and the rows that it leaves.
use blackglass_server.Base.{
  All-map, ◌≢◌, ℕ, ◌≤◌, ◌≡◌, ◌⊎◌, inl, inr, refl, ap, true, false, ◌&&◌, none, some, List, [], ◌∷◌,
  All, arith, Text, ◌==◌, nat_eq, text_eq, text_beq_iff, Option-cases, Bool-cases,
}
use blackglass_server.Table.{update, find}
use blackglass_server.Table.Laws.{find-eq-some, length-update, All-update, count-update_le}
use blackglass_server.Table.Updates.{
  find-update_unread, count-update_out, count_of_find, find_not_none,
}
use blackglass_server.Table.Keys.{IsKeyed-update}
use blackglass_server.Table.Sorted.{keyed_same, find-In, All-In, find_of_count_zero}
use blackglass_server.Database.{Db, Membership, VaultRow, is_active_member}
use blackglass_server.Access.{owner, vault_access}
use blackglass_server.Sharing.{is_active_in, is_share, revoke_membership, share_with_owner}
use blackglass_server.Sharing.Prune.{id_of}
use blackglass_server.Sharing.Index.{IsShared}

-- The rows that the UPDATE changes are the one that the query has found.
pub share_is_only :
    (uid : ℕ) (vault : Text) (db : Db) (m : Membership)
    → IsShared db
    → find (is_share uid vault) db.memberships ≡ some m
    → All (λ n. is_share uid vault n ≡ true → n ≡ m) db.memberships
share_is_only uid vault db m h found =
    All-In (λ n. is_share uid vault n ≡ true → n ≡ m) db.memberships
      λ n i s.
        keyed_same id_of n m db.memberships h.keyed i
          (find-In (is_share uid vault) m db.memberships found)
          (ground (arith, find-eq-some (is_share uid vault) db.memberships m found))

pub share_ended :
    (now uid : ℕ) (vault : Text) (ms : List Membership)
    → find (is_share uid vault) (update (is_share uid vault) (revoke_membership now) ms) ≡ none
unfolding find update
share_ended now uid vault [] = refl
share_ended now uid vault (m ∷ ms) = ground (arith, share_ended now uid vault ms)

abbrev pub after_revocation : ℕ → ℕ → Text → Db → Db
after_revocation now uid vault db = record db {
  memberships = update (is_share uid vault) (revoke_membership now) db.memberships;
}

pub revocation-IsShared :
    (now uid : ℕ) (vault : Text) (db : Db)
    → IsShared db
    → IsShared (after_revocation now uid vault db)
revocation-IsShared now uid vault db h = record {
  keyed =
      IsKeyed-update id_of (is_share uid vault) (revoke_membership now) db.memberships (λ m. refl)
        h.keyed;
  numbered =
      All-update (λ (m : Membership). m.id ≤ db.memberships_sequence) (is_share uid vault)
        (revoke_membership now) db.memberships (λ m _ below. below) h.numbered;
  single = λ v u. omega (
    arith,
    h.single v u,
    count-update_le (is_share uid vault) (is_active_member v u) (revoke_membership now)
        db.memberships (λ m s t. ground arith),
  );
  few = λ v. omega (
    arith,
    h.few v,
    count-update_le (is_share uid vault) (is_active_in v) (revoke_membership now) db.memberships
        (λ m s t. ground arith),
  );
  bounded =
      omega (
        arith,
        h.bounded,
        length-update (is_share uid vault) (revoke_membership now) db.memberships,
      );
}

pub membership_gone :
    (now uid : ℕ) (vault : Text) (db : Db) (m : Membership)
    → IsShared db
    → find (is_share uid vault) db.memberships ≡ some m
    → find (is_active_member vault m.user_id) (after_revocation now uid vault db).memberships ≡ none
membership_gone now uid vault db m h found =
    let p = is_share uid vault in
    let q = is_active_member vault m.user_id in
    let only = share_is_only uid vault db m h found in
    let reads : All (λ x. p x ≡ true → (q x ≡ true) × (q (revoke_membership now x) ≡ false))
        db.memberships =
      All-map (λ x. p x ≡ true → x ≡ m)
        (λ x same s. ground (arith, ap (λ (y : Membership). y.user_id) (same s), s)) db.memberships
        only in
    find_of_count_zero q (after_revocation now uid vault db).memberships (
      omega (
        arith,
        count-update_out p q (revoke_membership now) db.memberships reads,
        h.single vault m.user_id,
        count_of_find p m db.memberships found,
      ))

pub membership_kept :
    (now uid : ℕ) (vault : Text) (db : Db) (m : Membership)
    → IsShared db
    → find (is_share uid vault) db.memberships ≡ some m
    → (w : Text) (u : ℕ)
    → ((w ≡ vault) × (u ≡ m.user_id))
      ⊎ (find (is_active_member w u) (after_revocation now uid vault db).memberships
          ≡ find (is_active_member w u) db.memberships)
membership_kept now uid vault db m h found w u = elim (Bool-cases (vault == w && m.user_id == u)) [
  | inl here ↦ inl (ground (arith, text_beq_iff vault w))
  | inr other ↦ inr (
      find-update_unread (is_share uid vault) (is_active_member w u) (revoke_membership now)
        db.memberships
        (All-map (λ x. is_share uid vault x ≡ true → x ≡ m)
          (λ x same s.
            ground (
              arith,
              ap (λ (y : Membership). y.user_id) (same s),
              s,
              text_beq_iff x.vault_id vault,
            ))
          db.memberships (share_is_only uid vault db m h found)))
]

-- What the row of the JOIN says.
pub share_with_owner-rows :
    (uid : ℕ) (vault : Text) (db : Db) (holder user_id : ℕ)
    → share_with_owner uid vault db ≡ some (holder, user_id)
    → (m : Membership) × (find (is_share uid vault) db.memberships ≡ some m)
      × (m.user_id ≡ user_id)
      × (find (λ (v : VaultRow). v.id == vault && v.owner_user_id == holder) db.vaults ≢ none)
share_with_owner-rows uid vault db holder user_id e =
    elim (Option-cases (find (is_share uid vault) db.memberships)) [
      | inl absent ↦ absurd (ground (arith, absent))
      | inr (m, found) ↦
          elim (Option-cases (find (λ (v : VaultRow). v.id == m.vault_id) db.vaults)) [
            | inl absent ↦ absurd (ground (arith, found, absent))
            | inr (v, row) ↦
                let s = find-eq-some (is_share uid vault) db.memberships m found in
                (
                  m,
                  found,
                  ground (arith, found, row),
                  λ none_there.
                      find_not_none (λ (v : VaultRow). v.id == m.vault_id)
                        (λ (v : VaultRow). v.id == vault && v.owner_user_id == holder) db.vaults v
                        row
                        (ground (
                          arith,
                          found,
                          row,
                          find-eq-some (λ (v : VaultRow). v.id == m.vault_id) db.vaults v row,
                          text_beq_iff m.vault_id vault,
                          text_beq_iff v.id vault,
                          text_beq_iff v.id m.vault_id,
                          s,
                        ))
                        none_there,
                )
          ]
    ]

pub access_gone :
    (user_id : ℕ) (vault : Text) (db : Db)
    → find (is_active_member vault user_id) db.memberships ≡ none
    → (vault_access user_id vault db ≡ none)
      ⊎ (vault_access user_id vault db ≡ some (owner user_id vault))
unfolding vault_access
access_gone user_id vault db absent =
    elim (Option-cases (find (λ (v : VaultRow). v.id == vault) db.vaults)) [
      | inl e ↦ inl (ground (arith, e))
      | inr (v, e) ↦ elim (Bool-cases (v.owner_user_id == user_id)) [
        | inl own ↦ inr (ground (arith, e))
        | inr other ↦ inl (ground (arith, e, absent))
      ]
    ]
