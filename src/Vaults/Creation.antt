-- ===== src/Vaults/Creation.antt =====
-- A created vault is its creator's, under a new id, and within the number of vaults.
use blackglass_server.Base.{
  ℕ, ◌≤◌, ◌≡◌, ◌⊎◌, inl, inr, refl, Bool, true, false, Option, none, some, List, [], ◌∷◌, ◌++◌,
  arith, Text, ◌==◌, nat_eq, text_eq, text_beq_iff, ==_refl, ltb, length, length-append, OnOk,
  OnOk-ok, OnOk-ensure, OnOk-bind, Bool-cases, Option-cases, ok,
}
use blackglass_server.Table.{exists, find}
use blackglass_server.Table.Laws.{find-append}
use blackglass_server.Table.Keys.{IsKeyed, IsKeyed-append, IsFresh-exists}
use blackglass_server.Database.{Db, VaultRow, max_vaults}
use blackglass_server.Access.{owner, vault_access}
use blackglass_server.Vaults.{Vault, new_row, create_vault}
use blackglass_server.Vaults.Deletion.{id_of}

-- The creator owns the new vault; access to other ids, the stored revisions and the accounts stay.
pub record IsCreated (user_id : ℕ) (vault : Vault) (db db' : Db) : Type 0 where
  pub access : vault_access user_id vault.id db' ≡ some (owner user_id vault.id)
  pub others : (v : Text) (u : ℕ) → (v ≡ vault.id) ⊎ (vault_access u v db' ≡ vault_access u v db)
  pub keyed : IsKeyed id_of db'.vaults
  pub capacity : length db'.vaults ≤ max_vaults
  pub rows : db'.vaults ≡ db.vaults ++ new_row user_id vault ∷ []
  pub fresh : exists (λ (v : VaultRow). v.id == vault.id) db.vaults ≡ false
  pub unchanged :
      (db'.revisions ≡ db.revisions) × (db'.users ≡ db.users) × (db'.memberships ≡ db.memberships)

find-not_exists :
    (q : VaultRow → Bool) (vs : List VaultRow) → exists q vs ≡ false → find q vs ≡ none
unfolding exists find
find-not_exists q [] e = refl
find-not_exists q (v ∷ vs) e = ground (arith, find-not_exists q vs)

created :
    (user_id : ℕ) (vault : Vault) (db : Db)
    → IsKeyed id_of db.vaults
    → ltb (length db.vaults) max_vaults ≡ true
    → exists (λ (v : VaultRow). v.id == vault.id) db.vaults ≡ false
    → IsCreated user_id vault db (record db { vaults = db.vaults ++ new_row user_id vault ∷ [] })
unfolding vault_access find
created user_id vault db keyed room fresh =
    let row = new_row user_id vault in
    let is_id = λ (i : Text) (v : VaultRow). v.id == i in
    record {
      access = ground (
        arith,
        find-append (is_id vault.id) db.vaults (row ∷ []),
        find-not_exists (is_id vault.id) db.vaults fresh,
        ==_refl vault.id,
      );
      others = λ v u. elim (Bool-cases (vault.id == v)) [
        | inl same ↦ inl (ground (arith, text_beq_iff vault.id v))
        | inr differs ↦ inr (
            ground (
              arith,
              find-append (is_id v) db.vaults (row ∷ []),
              differs,
              Option-cases (find (is_id v) db.vaults),
            ))
      ];
      keyed =
          IsKeyed-append id_of db.vaults row keyed (IsFresh-exists id_of vault.id db.vaults fresh);
      capacity = ground (arith, length-append db.vaults (row ∷ []), room);
      rows = refl;
      fresh = fresh;
      unchanged = (refl, refl, refl);
    }

-- With vault ids as keys, a creation that succeeds appends the vault under an id that no vault had,
-- keeps the ids keys and the vaults at most 100, makes its creator the owner, leaves the access to
-- every other id as it was, and changes no revision, account or membership.
pub create_vault-IsCreated :
    (user_id : ℕ) (token_hash : Option Text) (vault : Vault) (now : ℕ) (db db' : Db)
    → IsKeyed id_of db.vaults
    → create_vault user_id token_hash vault now db ≡ ok db'
    → IsCreated user_id vault db db'
create_vault-IsCreated user_id token_hash vault now db db' keyed e = creates.at db' e
  where
    P : Db → Type 0
    P = IsCreated user_id vault db

    creates : OnOk P (create_vault user_id token_hash vault now db)
    creates =
        unfold create_vault in
        OnOk-bind P _ _ λ _ _. OnOk-ensure P _ _ _ λ room. OnOk-ensure P _ _ _ λ _.
          OnOk-ensure P _ _ _
            λ fresh. OnOk-ok P _ (created user_id vault db keyed room (ground (arith, fresh)))
