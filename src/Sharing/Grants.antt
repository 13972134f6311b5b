-- ===== src/Sharing/Grants.antt =====
-- An invitation gives the invited account access to the vault, and no other account anything.
use blackglass_server.Base.{
  ℕ, ◌≡◌, ◌⊎◌, inl, inr, refl, ap, true, false, Option, none, some, [], ◌∷◌, arith, Text, ◌==◌,
  nat_eq, text_eq, text_beq_iff, if◌then◌else◌, OnOk, OnOk-ok, OnOk-ensure, OnOk-bind, OnOk-require,
  Option-cases, Bool-cases, ok,
}
use blackglass_server.Table.{exists, find}
use blackglass_server.Table.Laws.{find-append, find-eq-some}
use blackglass_server.Table.Keys.{IsKeyed}
use blackglass_server.Table.Members.{exists_witness, exists_intro}
use blackglass_server.Table.Sorted.{keyed_same, find-In}
use blackglass_server.Table.Rows.{find_of_exists}
use blackglass_server.Database.{Db, Membership, User, VaultRow, is_active_member, is_owned}
use blackglass_server.Auth.{CanonicalEmail, canonicalize_email}
use blackglass_server.Access.{collaborator, vault_access}
use blackglass_server.Sharing.{
  VaultShareItem, again_or_new, has_active_email, prune_revoked, invite_collaborator_for_session,
}
use blackglass_server.Sharing.Prune.{find-prune_revoked}
use blackglass_server.Sharing.Index.{
  IsShared, IsAdded, IsInserted, admit_member-IsAdded, IsAdded-IsShared,
}

abbrev pub vault_id_of : VaultRow → Text
vault_id_of v = v.id

-- `target` holds the membership `uid` of the vault; all other accounts have the access they had.
pub record IsGranted (owner_user_id : ℕ) (vault : Text) (db : Db) (uid : ℕ) (db' : Db)
    (target : User) : Type 0 where
  pub access : vault_access target.id vault db' ≡ some (collaborator target.id vault uid)
  pub others :
      (v : Text) (u : ℕ)
      → ((v ≡ vault) × (u ≡ target.id)) ⊎ (vault_access u v db' ≡ vault_access u v db)
  pub shared : IsShared db'

-- The owner of an owned vault is the one its row names.
pub owner_of_row :
    (vault : Text) (owner_user_id : ℕ) (db : Db)
    → IsKeyed vault_id_of db.vaults
    → exists (is_owned vault owner_user_id) db.vaults ≡ true
    → (v : VaultRow) × (find (λ (w : VaultRow). w.id == vault) db.vaults ≡ some v)
      × (v.owner_user_id ≡ owner_user_id)
owner_of_row vault owner_user_id db keyed owned =
    let (w, there, h) = exists_witness (is_owned vault owner_user_id) db.vaults owned in
    let (v, found) =
      find_of_exists (λ (w : VaultRow). w.id == vault) db.vaults
        (exists_intro (λ (w : VaultRow). w.id == vault) w db.vaults there (ground arith)) in
    let here = find-eq-some (λ (w : VaultRow). w.id == vault) db.vaults v found in
    let i = find-In (λ (w : VaultRow). w.id == vault) v db.vaults found in
    let same =
      keyed_same vault_id_of v w db.vaults keyed i there (
        ground (arith, text_beq_iff v.id w.id, text_beq_iff v.id vault, text_beq_iff w.id vault)) in
    (v, found, ground (arith, ap (λ (x : VaultRow). x.owner_user_id) same))

access_of_member :
    (vault : Text) (owner_user_id user_id : ℕ) (db : Db) (v : VaultRow) (m : Membership)
    → find (λ (w : VaultRow). w.id == vault) db.vaults ≡ some v
    → v.owner_user_id ≡ owner_user_id
    → (user_id == owner_user_id) ≡ false
    → find (is_active_member vault user_id) db.memberships ≡ some m
    → vault_access user_id vault db ≡ some (collaborator user_id vault m.id)
unfolding vault_access
access_of_member vault owner_user_id user_id db v m found e n member = ground (arith, found, member)

-- Access reads the vaults and the active memberships only.
pub vault_access-same :
    (v : Text) (u : ℕ) (db db' : Db)
    → db'.vaults ≡ db.vaults
    → find (is_active_member v u) db'.memberships ≡ find (is_active_member v u) db.memberships
    → vault_access u v db' ≡ vault_access u v db
unfolding vault_access
vault_access-same v u db db' e f = ground (
  arith,
  f,
  ap (find (λ (w : VaultRow). w.id == v)) e,
  Option-cases (find (λ (w : VaultRow). w.id == v) db.vaults),
)

-- What the query for an active membership returns once a row is inserted.
found_after :
    (w : Text) (u : ℕ) (vault : Text) (user_id : ℕ) (db : Db) (uid : ℕ) (db' : Db)
    → IsShared db
    → (ins : IsInserted vault user_id
        (record db { memberships = prune_revoked vault db.memberships })
        uid
        db')
    → find (is_active_member w u) db'.memberships
      ≡ elim (find (is_active_member w u) db.memberships) [
        | some m ↦ some m
        | none ↦ if is_active_member w u ins.row then some ins.row else none
      ]
unfolding find
found_after w u vault user_id db uid db' h ins =
    rw
      (
        ins.rows,
        find-append (is_active_member w u) (prune_revoked vault db.memberships) (ins.row ∷ []),
        find-prune_revoked vault w u db.memberships h.keyed,
      )
      refl

IsAdded-IsGranted :
    (vault : Text) (owner_user_id : ℕ) (target : User) (db : Db) (uid : ℕ) (db' : Db)
    → IsShared db
    → IsKeyed vault_id_of db.vaults
    → exists (is_owned vault owner_user_id) db.vaults ≡ true
    → (target.id == owner_user_id) ≡ false
    → find (is_active_member vault target.id) db.memberships ≡ none
    → IsAdded vault target.id db uid db'
    → IsGranted owner_user_id vault db uid db' target
IsAdded-IsGranted vault owner_user_id target db uid db' h keyed owned n absent a =
    let ins = a.inserted in
    let (v, found, e) = owner_of_row vault owner_user_id db keyed owned in
    let member : find (is_active_member vault target.id) db'.memberships ≡ some ins.row = ground (
      arith,
      found_after vault target.id vault target.id db uid db' h ins,
      absent,
      ins.vault_eq,
      ins.user_eq,
      ins.active,
      text_beq_iff ins.row.vault_id vault,
    ) in
    record {
      access = rw (← ins.id_eq) (
          access_of_member vault owner_user_id target.id db' v ins.row (rw ins.vaults found) e n
            member);
      others = λ w u. elim (Bool-cases (is_active_member w u ins.row)) [
        | inl here ↦
            inl (ground (arith, ins.vault_eq, ins.user_eq, text_beq_iff ins.row.vault_id w))
        | inr other ↦ inr (
            vault_access-same w u db db' ins.vaults (
              ground (
                arith,
                found_after w u vault target.id db uid db' h ins,
                other,
                Option-cases (find (is_active_member w u) db.memberships),
              )))
      ];
      shared = IsAdded-IsShared vault target.id db uid db' h absent a;
    }

-- What a successful invitation does: an account that the email names, other than the owner's, has
-- the membership `uid`, which the item reports.
pub record IsInvited (owner_user_id : ℕ) (vault target_email : Text) (db : Db)
    (item : VaultShareItem) (db' : Db) : Type 0 where
  pub target : User
  pub email : CanonicalEmail
  pub parsed : canonicalize_email target_email ≡ ok email
  pub named : find (has_active_email email.canonical) db.users ≡ some target
  pub not_owner : (target.id == owner_user_id) ≡ false
  pub owned : exists (is_owned vault owner_user_id) db.vaults ≡ true
  pub granted : IsGranted owner_user_id vault db item.uid db' target

again-IsGranted :
    (vault : Text) (owner_user_id : ℕ) (target : User) (db : Db) (m : Membership)
    → IsShared db
    → IsKeyed vault_id_of db.vaults
    → exists (is_owned vault owner_user_id) db.vaults ≡ true
    → (target.id == owner_user_id) ≡ false
    → find (is_active_member vault target.id) db.memberships ≡ some m
    → IsGranted owner_user_id vault db m.id db target
again-IsGranted vault owner_user_id target db m h keyed owned n member =
    let (v, found, e) = owner_of_row vault owner_user_id db keyed owned in
    record {
      access = access_of_member vault owner_user_id target.id db v m found e n member;
      others = λ w u. inr refl;
      shared = h;
    }

-- Where the memberships are well formed and the vault ids are keys, an invitation that succeeds is by
-- the vault's owner; the active account that the email names, which is not the owner's, can then
-- open the vault under the reported membership; every other pair of an account and a vault has the
-- access it had; and the memberships stay well formed, within 20 active ones of the vault.
pub invite_collaborator-IsInvited :
    (owner_user_id : ℕ) (token_hash vault target_email : Text) (now created : ℕ) (db db' : Db)
    (item : VaultShareItem)
    → IsShared db
    → IsKeyed vault_id_of db.vaults
    → invite_collaborator_for_session owner_user_id token_hash vault target_email now created db
      ≡ ok (item, db')
    → IsInvited owner_user_id vault target_email db item db'
invite_collaborator-IsInvited owner_user_id token_hash vault target_email now created db db' item h
      keyed e =
    invited.at (item, db') e
  where
    P : VaultShareItem × Db → Type 0
    P out = IsInvited owner_user_id vault target_email db out.0 out.1

    given :
        (email : CanonicalEmail) (target : User)
        → canonicalize_email target_email ≡ ok email
        → exists (is_owned vault owner_user_id) db.vaults ≡ true
        → find (has_active_email email.canonical) db.users ≡ some target
        → (target.id == owner_user_id) ≡ false
        → (o : Option Membership) → find (is_active_member vault target.id) db.memberships ≡ o
        → OnOk P (again_or_new o owner_user_id vault target created db)
    given email target parsed owned named n (some m) member = OnOk-ok P _ record {
      target = target;
      email = email;
      parsed = parsed;
      named = named;
      not_owner = n;
      owned = owned;
      granted = again-IsGranted vault owner_user_id target db m h keyed owned n member;
    }
    given email target parsed owned named n none absent = record {
      at = λ out f. record {
        target = target;
        email = email;
        parsed = parsed;
        named = named;
        not_owner = n;
        owned = owned;
        granted =
            IsAdded-IsGranted vault owner_user_id target db out.0.uid out.1 h keyed owned n absent
              ((admit_member-IsAdded owner_user_id vault target created db).at out f);
      };
    }

    invited :
        OnOk P (
          invite_collaborator_for_session owner_user_id token_hash vault target_email now created
            db)
    invited =
        unfold invite_collaborator_for_session in
        OnOk-bind P _ _ λ email parsed. OnOk-bind P _ _ λ _ _. OnOk-ensure P _ _ _ λ owned.
          OnOk-require P _ _ _ λ target named.
            OnOk-ensure P _ _ _
              λ n. given email target parsed owned named (ground (arith, n)) _ refl
