-- ===== src/Tests/Revisions.antt =====
-- Pushes to Alice's vault, and the purge of its history.
use blackglass_server.Base.{
  ◌≡◌, refl, true, false, none, some, List, [], ◌∷◌, text, err, chains, ltb, nat_eq, text_eq,
  text_beq, arith, conditional_write_conflict, storage_quota_exceeded, ok, inl, inr, ℕ,
}
use blackglass_server.Table.{select, delete, update, exists, find, sum_of, max_of}
use blackglass_server.Database.{Db, delete_revisions, insert_revision}
use blackglass_server.Access.{vault_access, authorize_mutation}
use blackglass_server.Sessions.{authorize_account_mutation}
use blackglass_server.Revisions.{
  NewRevision, Revision, add_empty_revision, add_file_revision, add_revision, admit_revision,
  check_expected_version, enforce_storage_quotas, refresh_vault, revision_at, is_head,
  stored_ciphertext_size, owner_stored_ciphertext_size, revision_row,
}
use blackglass_server.Revisions.Commit.{IsCommitted}
use blackglass_server.Revisions.Pushes.{
  IsStored, add_empty_revision-IsCommitted, add_file_revision-IsCommitted,
}
use blackglass_server.Revisions.Restore.{purge}
use blackglass_server.Revisions.Purges.{PurgeKeeps, purge_keeps}
use blackglass_server.Revisions.Success.{push_succeeds, push_conflicts, push_over_quota}
use blackglass_server.Tests.Data.{db, note, vault, hash_1, value}

-- Metadata of a folder, pushed against version 2.
abbrev folder : NewRevision
folder = record {
  vault_id = text "v1";
  path = text "dir";
  relatedpath = none;
  extension = [];
  hash = [];
  ctime = 1;
  mtime = 1;
  folder = true;
  deleted = false;
  size = 0;
  pieces = 0;
  device = text "d";
  user_id = 1;
  expected_version = some 2;
}

abbrev file : NewRevision
file = record folder { folder = false; path = text "a"; size = 2; pieces = 1 }

abbrev folder_pushed : Revision × Db
folder_pushed =
    value (revision_row note, db) (add_empty_revision folder (some hash_1) 100 50 5 6 db)

push_folder_example : IsCommitted folder 6 100 50 db folder_pushed.0 folder_pushed.1
unfolding add_empty_revision add_revision admit_revision authorize_mutation
    authorize_account_mutation vault_access check_expected_version enforce_storage_quotas
    stored_ciphertext_size owner_stored_ciphertext_size insert_revision revision_at refresh_vault
    exists find update text_beq chains sum_of
push_folder_example =
    add_empty_revision-IsCommitted folder (some hash_1) 100 50 5 6 db refl (ground arith)
      folder_pushed.0 folder_pushed.1 refl

abbrev two_bytes : List ℕ
two_bytes = 8 ∷ 9 ∷ []

abbrev file_pushed : Revision × Db
file_pushed =
    value (revision_row note, db) (add_file_revision file (some hash_1) two_bytes 100 50 5 6 db)

push_file_example :
    IsCommitted file 6 100 50 db file_pushed.0 file_pushed.1
    × IsStored file db two_bytes file_pushed.1
unfolding add_file_revision admit_revision authorize_mutation authorize_account_mutation
    vault_access check_expected_version enforce_storage_quotas stored_ciphertext_size
    owner_stored_ciphertext_size insert_revision revision_at refresh_vault exists find update
    text_beq chains sum_of select
push_file_example =
    add_file_revision-IsCommitted file (some hash_1) 100 50 5 6 db refl (ground arith) two_bytes
      file_pushed.0 file_pushed.1 refl

stale_push :
    add_empty_revision (record folder { expected_version = some 1 }) (some hash_1) 100 50 5 6 db
    ≡ err conditional_write_conflict
unfolding add_empty_revision add_revision admit_revision authorize_mutation
    authorize_account_mutation vault_access check_expected_version exists find update text_beq
    chains
stale_push = refl

abbrev purged : Db
purged = value db (purge 1 (some hash_1) (text "v1") 5 db)

purge_example : PurgeKeeps (text "v1") db purged
unfolding purge authorize_mutation authorize_account_mutation vault_access delete_revisions
    refresh_vault exists find update text_beq chains sum_of
purge_example = purge_keeps 1 (some hash_1) (text "v1") 5 db purged refl refl

-- The first of the two versions of the note is gone.
one_left : (select (λ r. ltb 0 r.uid) purged.revisions) ≡ record note { uid = 2; size = 4 } ∷ []
unfolding purge authorize_mutation authorize_account_mutation vault_access delete_revisions
    refresh_vault exists find update text_beq chains sum_of select delete is_head max_of
one_left = refl

success_example :
    (stored : Revision) × (db' : Db) × (add_file_revision file (some hash_1) two_bytes 100 50 5 6 db
      ≡ ok (stored, db'))
unfolding authorize_mutation authorize_account_mutation vault_access exists find text_beq chains
    stored_ciphertext_size owner_stored_ciphertext_size sum_of select
success_example =
    push_succeeds file (some hash_1) 100 50 5 6 db vault refl refl two_bytes
      (refl, refl, omega arith, refl) (ground arith) (inr (refl, omega arith)) (omega arith)
      (omega arith) (omega arith) refl

conflict_example :
    add_file_revision
      (record file { expected_version = some 1 })
      (some hash_1)
      two_bytes
      100
      50
      5
      6
      db
    ≡ err conditional_write_conflict
unfolding authorize_mutation authorize_account_mutation vault_access exists find text_beq chains
conflict_example =
    push_conflicts (record file { expected_version = some 1 }) (some hash_1) 100 50 5 6 db vault
      refl refl two_bytes (refl, refl, omega arith, refl) 1 refl (omega arith) (ground arith)

over_quota_example :
    add_file_revision file (some hash_1) two_bytes 8 50 5 6 db ≡ err storage_quota_exceeded
unfolding authorize_mutation authorize_account_mutation vault_access exists find text_beq chains
    stored_ciphertext_size
over_quota_example =
    push_over_quota file (some hash_1) 8 50 5 6 db vault refl refl two_bytes
      (refl, refl, omega arith, refl) (inr (refl, omega arith)) (inl (omega arith))
