-- ===== src/Revisions/Restore.antt =====
-- Restoring a revision and purging history (apps/server-rust/src/db.rs `restore_internal`,
-- `purge_internal`, `purge_deleted_history`).
use blackglass_server.Base.{
  ℕ, Bool, false, not, ◌&&◌, Option, none, some, List, [], ◌∷◌, ◌++◌, Text, ◌==◌, nat_eq, text_eq,
  ltb, leb, length, within, Outcome, ok, ◌>>=◌, ◌>>◌, ensure, require, branch, if◌then◌else◌,
  uid_out_of_range, no_rows, staged_size_changed, notice_too_large, vault_unavailable,
}
use mathlib.Core.List.{reverse}
use blackglass_server.Table.{select, count, exists, find}
use blackglass_server.Database.{
  Db, RevisionRow, RevisionContent, max_js_safe_integer, delete_revisions, insert_revision,
}
use blackglass_server.Access.{authorize_mutation}
use blackglass_server.Revisions.{
  Revision, revision_at, in_vault, is_head, same_path, refresh_vault, enforce_storage_quotas,
  max_event_bytes,
}

-- SELECT uid ... WHERE vault_id=? AND path=? AND uid<? AND deleted=0 ORDER BY uid DESC LIMIT 1
abbrev is_earlier_live : Text → Text → ℕ → RevisionRow → Bool
is_earlier_live vault path uid r =
    r.vault_id == vault && r.path == path && ltb r.uid uid && not r.deleted

unfoldable pub restore_source : Text → RevisionRow → Db → Option RevisionRow
restore_source vault target db =
    if target.deleted
    then find (is_earlier_live vault target.path target.uid) (reverse db.revisions)
    else some target

-- INSERT INTO revisions(...) SELECT vault_id,path,NULL,...,folder,0,size,pieces,NULL,device,user,ts
abbrev pub restored_row : RevisionRow → Text → Text → ℕ → ℕ → ℕ → RevisionRow
restored_row source path device user_id ts uid = record source {
  uid = uid;
  path = path;
  relatedpath = none;
  deleted = false;
  content = none;
  device = device;
  user_id = user_id;
  ts = ts;
}

-- The blob that is copied: the row's of `revision_content`, or else the inline one.
unfoldable pub blob_of : RevisionRow → Db → Option (List ℕ)
blob_of source db = elim (find (λ (c : RevisionContent). c.uid == source.uid) db.revision_content) [
  | some c ↦ some c.content
  | none ↦ source.content
]

-- The copy into a blob of the source's size fails where the source's content has another length.
unfoldable pub copy_content : RevisionRow → ℕ → Db → Outcome Db
unfolding blob_of
copy_content source uid db = branch (source.size == 0) (ok db) do
  blob ← require (blob_of source db) no_rows
  ensure (length blob == source.size) staged_size_changed
  let copy : RevisionContent = record { uid = uid; content = blob }
  ok (record db { revision_content = db.revision_content ++ copy ∷ [] })

module _ (notice_size : Revision → ℕ) where
  unfoldable pub restore_revision :
      ℕ → Option Text → Text → ℕ → Text → ℕ × ℕ → ℕ → ℕ → Db → Outcome (Option Revision × Db)
  unfolding insert_revision refresh_vault
  restore_revision user_id token_hash vault uid device limits auth_now ts db = do
    authorize_mutation token_hash user_id vault auth_now db
    elim (find (λ r. r.uid == uid && in_vault vault r) db.revisions) [
      | none ↦ ok (none, db)
      | some target ↦ elim (restore_source vault target db) [
        | none ↦ ok (none, db)
        | some source ↦ do
          enforce_storage_quotas vault source.size limits.0 limits.1 db
          let (new_uid, inserted) =
              insert_revision (restored_row source target.path device user_id ts) db
          ensure (leb new_uid max_js_safe_integer) uid_out_of_range
          copied ← copy_content source new_uid inserted
          restored ← revision_at new_uid copied
          ensure (leb (notice_size restored) max_event_bytes) notice_too_large
          ok (some restored, refresh_vault vault new_uid copied)
      ]
    ]

-- uid NOT IN (SELECT MAX(uid) FROM revisions WHERE vault_id=? GROUP BY path)
abbrev pub is_superseded : Text → List RevisionRow → RevisionRow → Bool
is_superseded vault revs r = in_vault vault r && not (is_head (select (in_vault vault) revs) r)

unfoldable pub purge : ℕ → Option Text → Text → ℕ → Db → Outcome Db
unfolding delete_revisions refresh_vault
purge user_id token_hash vault auth_now db = do
  authorize_mutation token_hash user_id vault auth_now db
  let kept = delete_revisions (is_superseded vault db.revisions) db
  v ← require (find (λ v. v.id == vault) kept.vaults) no_rows
  ok (refresh_vault vault v.version kept)

-- The rows of a path whose head is a deletion, but for that head.
abbrev pub is_deleted_history : Text → List RevisionRow → RevisionRow → Bool
is_deleted_history vault revs r =
    let group = select (in_vault vault) revs in
    in_vault vault r
    && exists
        (λ (head : RevisionRow).
          is_head group head && head.deleted && same_path r head && not (head.uid == r.uid))
        group

-- The offline maintenance command, between its backup and its verification of the whole file.
unfoldable pub purge_deleted_history : Text → Db → Outcome (ℕ × Db)
unfolding delete_revisions refresh_vault
purge_deleted_history vault db = do
  ensure (within 1 64 (length vault)) vault_unavailable
  ensure (exists (λ v. v.id == vault) db.vaults) vault_unavailable
  let stale = is_deleted_history vault db.revisions
  let kept = delete_revisions stale db
  v ← require (find (λ v. v.id == vault) kept.vaults) no_rows
  ok (count stale db.revisions, refresh_vault vault v.version kept)
