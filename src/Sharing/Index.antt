-- ===== src/Sharing/Index.antt =====
-- The invariant of the memberships: ids that tell rows apart and are within the sequence, at most one
-- active row of a user in a vault (the index `memberships_active_vault_user`), and the capacities.
use blackglass_server.Base.{
  ℕ, suc, ◌+◌, ◌≤◌, ◌≡◌, refl, true, none, List, [], ◌∷◌, ◌++◌, All, All-append, All-map, arith,
  Text, nat_eq, text_eq, is_none, length, length-append, ltb→lt, ◌<◌, text_beq_iff, OnOk, OnOk-ok,
  OnOk-ensure, OnOk-bind,
}
use blackglass_server.Table.{count, find}
use blackglass_server.Table.Laws.{count-append}
use blackglass_server.Table.Keys.{IsKeyed, IsFresh, IsKeyed-append}
use blackglass_server.Table.Sorted.{count-find-none}
use blackglass_server.Database.{
  Db, Membership, User, is_active_member, max_active_collaborators_per_vault, max_memberships,
}
use blackglass_server.Sharing.{
  VaultShareItem, is_active_in, prune_revoked, insert_membership, admit_member,
}
use blackglass_server.Sharing.Prune.{
  id_of, count-prune_revoked, count_member-prune_revoked, IsKeyed-prune_revoked, All-prune_revoked,
}

pub record IsShared (db : Db) : Type 0 where
  pub keyed : IsKeyed id_of db.memberships
  pub numbered : All (λ m. m.id ≤ db.memberships_sequence) db.memberships
  pub single :
      (vault : Text) (user_id : ℕ) → count (is_active_member vault user_id) db.memberships ≤ 1
  pub few :
      (vault : Text)
      → count (is_active_in vault) db.memberships ≤ max_active_collaborators_per_vault
  pub bounded : length db.memberships ≤ max_memberships

-- The row that an INSERT appends, with the next number of the sequence.
pub record IsInserted (vault : Text) (user_id : ℕ) (db : Db) (uid : ℕ) (db' : Db) : Type 0 where
  pub row : Membership
  pub rows : db'.memberships ≡ db.memberships ++ row ∷ []
  pub id_eq : row.id ≡ uid
  pub next : uid ≡ suc db.memberships_sequence
  pub sequence : db'.memberships_sequence ≡ uid
  pub vault_eq : row.vault_id ≡ vault
  pub user_eq : row.user_id ≡ user_id
  pub active : is_none row.revoked_at ≡ true
  pub vaults : db'.vaults ≡ db.vaults

insert_membership-IsInserted :
    (owner_user_id : ℕ) (vault : Text) (user_id now : ℕ) (db : Db)
    → OnOk
        (λ (out : ℕ × Db). IsInserted vault user_id db out.0 out.1)
        (insert_membership owner_user_id vault user_id now db)
unfolding insert_membership
insert_membership-IsInserted owner_user_id vault user_id now db =
    let P = λ (out : ℕ × Db). IsInserted vault user_id db out.0 out.1 in
    OnOk-ensure P _ _ _ λ _. OnOk-ok P _ record {
      row = record {
        id = db.memberships_sequence + 1;
        vault_id = vault;
        user_id = user_id;
        invited_by_user_id = owner_user_id;
        accepted_at = now;
        created_at = now;
        revoked_at = none;
      };
      rows = refl;
      id_eq = refl;
      next = omega arith;
      sequence = refl;
      vault_eq = refl;
      user_eq = refl;
      active = refl;
      vaults = refl;
    }

-- A new member of a vault that has room for one, inserted into the memberships that are kept.
pub record IsAdded (vault : Text) (user_id : ℕ) (db : Db) (uid : ℕ) (db' : Db) : Type 0 where
  pub inserted :
      IsInserted vault user_id
        (record db { memberships = prune_revoked vault db.memberships })
        uid
        db'
  pub room : count (is_active_in vault) db.memberships < max_active_collaborators_per_vault
  pub capacity : length (prune_revoked vault db.memberships) < max_memberships

pub admit_member-IsAdded :
    (owner_user_id : ℕ) (vault : Text) (target : User) (now : ℕ) (db : Db)
    → OnOk
        (λ (out : VaultShareItem × Db). IsAdded vault target.id db out.0.uid out.1)
        (admit_member owner_user_id vault target now db)
unfolding admit_member
admit_member-IsAdded owner_user_id vault target now db =
    let P = λ (out : VaultShareItem × Db). IsAdded vault target.id db out.0.uid out.1 in
    let db' = record db { memberships = prune_revoked vault db.memberships } in
    OnOk-ensure P _ _ _ λ room. OnOk-ensure P _ _ _ λ capacity. OnOk-ensure P _ _ _ λ _.
      OnOk-bind P _ _ λ a e. OnOk-ok P _ record {
        inserted = (insert_membership-IsInserted owner_user_id vault target.id now db').at a e;
        room = ltb→lt _ _ room;
        capacity = ltb→lt _ _ capacity;
      }

numbered-IsFresh :
    (n : ℕ) (ms : List Membership) → All (λ m. m.id ≤ n) ms → IsFresh id_of (suc n) ms
numbered-IsFresh n [] h = tt
numbered-IsFresh n (m ∷ ms) (h, hs) = (ground arith, numbered-IsFresh n ms hs)

-- The invariant survives a new member where the user has no active membership of the vault.
pub IsAdded-IsShared :
    (vault : Text) (user_id : ℕ) (db : Db) (uid : ℕ) (db' : Db)
    → IsShared db
    → find (is_active_member vault user_id) db.memberships ≡ none
    → IsAdded vault user_id db uid db'
    → IsShared db'
unfolding count
IsAdded-IsShared vault user_id db uid db' h absent a =
    let ins = a.inserted in
    let kept = prune_revoked vault db.memberships in
    let P = λ (m : Membership). m.id ≤ db.memberships_sequence in
    let below = All-prune_revoked P vault db.memberships h.numbered in
    record {
      keyed = rw ins.rows (
          IsKeyed-append id_of kept ins.row (IsKeyed-prune_revoked vault db.memberships h.keyed)
            (rw (ins.id_eq, ins.next) (numbered-IsFresh db.memberships_sequence kept below)));
      numbered = rw ins.rows (
          All-append (λ m. m.id ≤ db'.memberships_sequence) kept (ins.row ∷ [])
            (All-map P (λ m q. omega (arith, q, ins.next, ins.sequence)) kept below)
            (omega (arith, ins.id_eq, ins.sequence), tt));
      single = λ v u. rw ins.rows (single_after v u ins.row ins.vault_eq ins.user_eq);
      few = λ v. rw ins.rows (few_after v ins.row ins.vault_eq);
      bounded = rw ins.rows (omega (arith, length-append kept (ins.row ∷ []), a.capacity));
    }
  where
    single_after :
        (v : Text) (u : ℕ) (row : Membership)
        → row.vault_id ≡ vault
        → row.user_id ≡ user_id
        → count (is_active_member v u) (prune_revoked vault db.memberships ++ row ∷ []) ≤ 1
    single_after v u row e f = ground (
      arith,
      count-append (is_active_member v u) (prune_revoked vault db.memberships) (row ∷ []),
      count_member-prune_revoked vault v u db.memberships h.keyed,
      h.single v u,
      text_beq_iff row.vault_id v,
      count-find-none (is_active_member vault user_id) db.memberships absent,
    )

    few_after :
        (v : Text) (row : Membership)
        → row.vault_id ≡ vault
        → count (is_active_in v) (prune_revoked vault db.memberships ++ row ∷ [])
          ≤ max_active_collaborators_per_vault
    few_after v row e = ground (
      arith,
      count-append (is_active_in v) (prune_revoked vault db.memberships) (row ∷ []),
      count-prune_revoked vault v db.memberships h.keyed,
      h.few v,
      text_beq_iff row.vault_id v,
      a.room,
    )
