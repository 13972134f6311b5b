-- ===== src/Tests/Vaults.antt =====
-- Alice deletes or migrates her vault, and Bob creates one.
use blackglass_server.Base.{
  ◌≡◌, refl, Bool, true, false, some, [], text, chains, nat_eq, text_eq, text_beq,
}
use blackglass_server.Table.{count, select, delete, exists, find, sum_of}
use blackglass_server.Table.Keys.{IsKeyed}
use blackglass_server.Database.{Db, delete_vaults, delete_revisions}
use blackglass_server.Sessions.{authorize_account_mutation}
use blackglass_server.Vaults.{
  create_vault, Vault, insert_vault, delete_vault, migrate_vault, retire_vault_identity,
  is_retired_vault, vault_row,
}
use blackglass_server.Vaults.Deletion.{id_of, IsDeletion, delete_vault-IsDeletion}
use blackglass_server.Vaults.Creation.{IsCreated, create_vault-IsCreated}
use blackglass_server.Tests.Data.{hash_2, db, vault, hash_1, value}

ids-IsKeyed : IsKeyed id_of db.vaults
unfolding text_beq
ids-IsKeyed = ((refl, tt), (tt, tt))

abbrev deleted : Bool × Db
deleted = value (false, db) (delete_vault 1 (some hash_1) (text "v1") 5 6 db)

delete_example : IsDeletion 1 (text "v1") db true deleted.1
unfolding delete_vault retire_vault_identity authorize_account_mutation exists find text_beq chains
    select delete sum_of
delete_example =
    delete_vault-IsDeletion (text "v1") 1 db ids-IsKeyed refl (some hash_1) 5 6 deleted.1 true refl

no_revisions_left : deleted.1.revisions ≡ []
unfolding delete_vault retire_vault_identity authorize_account_mutation exists find text_beq chains
    select delete sum_of delete_vaults delete_revisions
no_revisions_left = refl

abbrev copy : Vault
copy = record (vault_row vault) { id = text "v3" }

abbrev migrated : Bool × Db
migrated = value (false, db) (migrate_vault 1 (some hash_1) (text "v1") copy 5 6 db)

old_is_retired : is_retired_vault (text "v1") migrated.1 ≡ true
unfolding migrate_vault insert_vault retire_vault_identity authorize_account_mutation exists find
    text_beq chains select delete sum_of delete_vaults delete_revisions is_retired_vault
old_is_retired = refl

abbrev with_copy : Db
with_copy = value db (create_vault 2 (some hash_2) copy 5 db)

create_example : IsCreated 2 copy db with_copy
unfolding create_vault insert_vault authorize_account_mutation exists count text_beq chains
create_example = create_vault-IsCreated 2 (some hash_2) copy 5 db with_copy ids-IsKeyed refl
