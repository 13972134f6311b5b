-- ===== src/Revisions.antt =====
-- The revisions of a vault (apps/server-rust/src/db.rs): commits with their version check and
-- quotas, restore, purge, and the reads that serve a client. Sizes, versions and limits are natural
-- numbers, so the guards against negative ones do not fire. What writes a notice as JSON is
-- serde_json's: `notice_size` is an argument.
pub mod Restore
pub mod Reads
pub mod Heads
pub mod Commit
pub mod Pushes
pub mod Success
pub mod Purges
use blackglass_server.Base.{
  ℕ, suc, zero, ◌+◌, ◌-◌, ◌*◌, ◌/◌, ◌^◌, Bool, true, false, not, ◌&&◌, ◌||◌, Option, none, some,
  List, [], ◌∷◌, ◌++◌, map, Text, ◌==◌, nat_eq, text_eq, is_none, is_some, ltb, leb, max, min,
  length, take, drop, within, Outcome, ok, err, ◌>>=◌, ◌>>◌, ensure, require, branch, if◌then◌else◌,
  bad_write_boundary, conditional_write_conflict, vault_unavailable, storage_quota_exceeded,
  uid_out_of_range, no_rows, bad_metadata, staged_size_changed, bad_chunk_bounds,
  no_content_metadata, chunk_exceeds_size, bad_content_storage, notice_too_large,
}
use blackglass_server.Table.{select, update, exists, find, sum_of, max_of}
use blackglass_server.Database.{
  Db, VaultRow, RevisionRow, RevisionContent, max_js_safe_integer, delete_revisions,
  insert_revision,
}
use blackglass_server.Access.{authorize_mutation}

abbrev pub piece_size : ℕ
piece_size = 2 * 1024 * 1024

abbrev pub max_event_bytes : ℕ
max_event_bytes = 32 * 1024

pub record Revision : Type 0 where
  pub uid : ℕ
  pub vault_id : Text
  pub path : Text
  pub relatedpath : Option Text
  pub extension : Text
  pub hash : Text
  pub ctime : ℕ
  pub mtime : ℕ
  pub folder : Bool
  pub deleted : Bool
  pub size : ℕ
  pub pieces : ℕ
  pub device : Text
  pub user_id : ℕ
  pub ts : ℕ

pub record NewRevision : Type 0 where
  pub vault_id : Text
  pub path : Text
  pub relatedpath : Option Text
  pub extension : Text
  pub hash : Text
  pub ctime : ℕ
  pub mtime : ℕ
  pub folder : Bool
  pub deleted : Bool
  pub size : ℕ
  pub pieces : ℕ
  pub device : Text
  pub user_id : ℕ
  pub expected_version : Option ℕ

abbrev pub revision_row : RevisionRow → Revision
revision_row r = record {
  uid = r.uid;
  vault_id = r.vault_id;
  path = r.path;
  relatedpath = r.relatedpath;
  extension = r.extension;
  hash = r.hash;
  ctime = r.ctime;
  mtime = r.mtime;
  folder = r.folder;
  deleted = r.deleted;
  size = r.size;
  pieces = r.pieces;
  device = r.device;
  user_id = r.user_id;
  ts = r.ts;
}

abbrev pub in_vault : Text → RevisionRow → Bool
in_vault vault r = r.vault_id == vault

abbrev pub same_path : RevisionRow → RevisionRow → Bool
same_path r s = s.path == r.path

-- r.uid IN (SELECT MAX(uid) FROM group GROUP BY path), for the rows `group` of one vault
unfoldable pub is_head : List RevisionRow → RevisionRow → Bool
is_head group r =
    exists (λ (s : RevisionRow). max_of (λ t. t.uid) (select (same_path s) group) == r.uid) group

unfoldable pub vault_size : Text → Db → ℕ
vault_size vault db =
    let heads = is_head (select (in_vault vault) db.revisions) in
    sum_of (λ r. r.size) (select (λ r. heads r && not r.deleted && not r.folder) db.revisions)

unfoldable pub refresh_vault : Text → ℕ → Db → Db
refresh_vault vault version db =
    let size = vault_size vault db in
    record db {
      vaults =
          update (λ v. v.id == vault) (λ v. record v { size = size; version = version }) db.vaults;
    }

abbrev version_of : Option VaultRow → ℕ
version_of none = 0
version_of (some v) = v.version

unfoldable pub current_version : Text → Db → ℕ
current_version vault db = version_of (find (λ v. v.id == vault) db.vaults)

-- FROM revisions r JOIN vaults v ON v.id=r.vault_id WHERE v.owner_user_id=user_id
abbrev pub is_owned_by : Db → ℕ → RevisionRow → Bool
is_owned_by db user_id r = exists (λ v. v.id == r.vault_id && v.owner_user_id == user_id) db.vaults

unfoldable pub owner_stored_ciphertext_size : ℕ → Db → ℕ
owner_stored_ciphertext_size user_id db =
    sum_of (λ r. r.size) (select (is_owned_by db user_id) db.revisions)

unfoldable pub stored_ciphertext_size : Db → ℕ
stored_ciphertext_size db = db.usage

unfoldable pub stored_ciphertext_size_for_vault_owner : Text → Db → Option ℕ
unfolding owner_stored_ciphertext_size
stored_ciphertext_size_for_vault_owner vault db = elim (find (λ v. v.id == vault) db.vaults) [
  | none ↦ none
  | some v ↦ some (owner_stored_ciphertext_size v.owner_user_id db)
]

-- Bytes are free while nothing is added, so that an account over its quota can still delete.
unfoldable pub enforce_storage_quotas : Text → ℕ → ℕ → ℕ → Db → Outcome (Unit {0})
enforce_storage_quotas vault additional global_limit owner_limit db = do
  v ← require (find (λ v. v.id == vault) db.vaults) vault_unavailable
  let global_used = stored_ciphertext_size db
  let owner_used = owner_stored_ciphertext_size v.owner_user_id db
  branch (additional == 0) (ok tt) do
    ensure (not (global_limit == 0 || owner_limit == 0)) storage_quota_exceeded
    ensure
        (not (
          ltb global_limit global_used
          || ltb (global_limit - global_used) additional
          || ltb owner_limit owner_used
          || ltb (owner_limit - owner_used) additional))
        storage_quota_exceeded

unfoldable pub check_expected_version : Text → Option ℕ → Db → Outcome (Unit {0})
check_expected_version vault none db = ok tt
check_expected_version vault (some expected) db = do
  ensure (leb expected max_js_safe_integer) bad_write_boundary
  v ← require (find (λ v. v.id == vault) db.vaults) no_rows
  ensure (v.version == expected) conditional_write_conflict

abbrev pub row_of : NewRevision → ℕ → ℕ → RevisionRow
row_of r ts uid = record {
  uid = uid;
  vault_id = r.vault_id;
  path = r.path;
  relatedpath = r.relatedpath;
  extension = r.extension;
  hash = r.hash;
  ctime = r.ctime;
  mtime = r.mtime;
  folder = r.folder;
  deleted = r.deleted;
  size = r.size;
  pieces = r.pieces;
  content = none;
  device = r.device;
  user_id = r.user_id;
  ts = ts;
}

-- SELECT ... FROM revisions WHERE uid=?, which must find a row
unfoldable pub revision_at : ℕ → Db → Outcome Revision
revision_at uid db = do
  r ← require (find (λ (r : RevisionRow). r.uid == uid) db.revisions) no_rows
  ok (revision_row r)

-- The steps that both kinds of commit share, before the row is written.
unfoldable pub admit_revision : NewRevision → Option Text → ℕ → ℕ → ℕ → Db → Outcome (Unit {0})
admit_revision r token_hash global_limit owner_limit auth_now db = do
  authorize_mutation token_hash r.user_id r.vault_id auth_now db
  check_expected_version r.vault_id r.expected_version db
  enforce_storage_quotas r.vault_id r.size global_limit owner_limit db

-- add_revision, for a row without content
unfoldable pub add_revision :
    NewRevision → Option Text → ℕ → ℕ → ℕ → ℕ → Db → Outcome (Revision × Db)
unfolding insert_revision refresh_vault
add_revision r token_hash global_limit owner_limit auth_now ts db = do
  admit_revision r token_hash global_limit owner_limit auth_now db
  let (uid, inserted) = insert_revision (row_of r ts) db
  ensure (leb uid max_js_safe_integer) uid_out_of_range
  let db' = refresh_vault r.vault_id uid inserted
  stored ← revision_at uid db'
  ok (stored, db')

unfoldable pub add_empty_revision :
    NewRevision → Option Text → ℕ → ℕ → ℕ → ℕ → Db → Outcome (Revision × Db)
add_empty_revision r token_hash global_limit owner_limit auth_now ts db = do
  ensure (r.size == 0 && r.pieces == 0) bad_metadata
  add_revision r token_hash global_limit owner_limit auth_now ts db

abbrev pub pieces_for : ℕ → ℕ
pieces_for size = (size + piece_size - 1) / piece_size

-- `staged` is what the staging file holds. The blob has the declared size, so a copy of another
-- length fails.
unfoldable pub add_file_revision :
    NewRevision → Option Text → List ℕ → ℕ → ℕ → ℕ → ℕ → Db → Outcome (Revision × Db)
unfolding insert_revision refresh_vault
add_file_revision r token_hash staged global_limit owner_limit auth_now ts db = do
  ensure (not (r.folder || r.deleted || r.size == 0 || not (r.pieces == pieces_for r.size)))
      bad_metadata
  admit_revision r token_hash global_limit owner_limit auth_now db
  let (uid, inserted) = insert_revision (row_of r ts) db
  ensure (leb uid max_js_safe_integer) uid_out_of_range
  let blob : RevisionContent = record { uid = uid; content = staged }
  ensure (length staged == r.size) staged_size_changed
  let stored_db = record inserted { revision_content = inserted.revision_content ++ blob ∷ [] }
  let db' = refresh_vault r.vault_id uid stored_db
  stored ← revision_at uid db'
  ok (stored, db')
