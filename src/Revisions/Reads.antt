-- ===== src/Revisions/Reads.antt =====
-- The reads of apps/server-rust/src/db.rs that serve a client: pages of changes, the initial
-- snapshot, deletions, the history of a path, and the content of a revision piece by piece.
use blackglass_server.Base.{
  ℕ, ◌+◌, Bool, true, false, not, ◌&&◌, ◌||◌, Option, none, some, List, map, take, drop, Text, ◌==◌,
  nat_eq, text_eq, is_some, ltb, leb, max, min, length, Outcome, ok, ◌>>=◌, ◌>>◌, ensure, require,
  bad_chunk_bounds, no_content_metadata, chunk_exceeds_size, bad_content_storage,
}
use mathlib.Core.List.{reverse}
use blackglass_server.Table.{select, exists, find}
use blackglass_server.Database.{Db, RevisionRow, RevisionContent}
use blackglass_server.Revisions.{Revision, revision_row, in_vault, same_path, is_head, piece_size}

-- limit.clamp(1, 1024)
abbrev pub page_limit : ℕ → ℕ
page_limit limit = max 1 (min limit 1024)

-- WHERE vault_id=? AND uid>? AND uid<=? ; the rows stand in the order of their uid.
abbrev pub is_change : Text → ℕ → ℕ → RevisionRow → Bool
is_change vault after through r = in_vault vault r && ltb after r.uid && leb r.uid through

unfoldable pub list_changes_page : Text → ℕ → ℕ → ℕ → Db → List Revision
list_changes_page vault after through limit db =
    map revision_row (take (page_limit limit) (select (is_change vault after through) db.revisions))

abbrev pub is_vault_row_through : Text → ℕ → RevisionRow → Bool
is_vault_row_through vault through r = in_vault vault r && leb r.uid through

-- The rows of a vault that its state at version `through` consists of.
abbrev pub is_snapshot_row : Text → ℕ → List RevisionRow → RevisionRow → Bool
is_snapshot_row vault through revs r =
    is_head (select (is_vault_row_through vault through) revs) r && not r.deleted

unfoldable pub initial_snapshot_page : Text → ℕ → ℕ → ℕ → Db → List Revision
initial_snapshot_page vault after through limit db = map revision_row (
    take (page_limit limit)
      (select (λ r. is_snapshot_row vault through db.revisions r && ltb after r.uid) db.revisions))

-- Some live file of the vault records the path as the one that it was renamed from.
abbrev pub is_renamed_away : List RevisionRow → RevisionRow → Bool
is_renamed_away revs r =
    exists
      (λ (live : RevisionRow).
        is_head (select (in_vault r.vault_id) revs) live
        && not live.deleted
        && elim live.relatedpath [ none ↦ false | some p ↦ p == r.path ])
      revs

unfoldable pub list_deleted_page : Text → Bool → ℕ → ℕ → Db → List Revision
list_deleted_page vault suppress after limit db =
    let revs = db.revisions in
    map revision_row (
      take (page_limit limit) (
        select
          (λ r.
            is_head (select (in_vault vault) revs) r
            && r.deleted
            && ltb after r.uid
            && exists
                (λ (prior : RevisionRow).
                  in_vault r.vault_id prior
                  && same_path r prior
                  && ltb prior.uid r.uid
                  && not prior.deleted)
                revs
            && not (suppress && is_renamed_away revs r))
          revs))

abbrev before : Option ℕ → ℕ → Bool
before none uid = true
before (some last) uid = ltb uid last

unfoldable pub history : Text → Text → Option ℕ → ℕ → Db → List Revision
history vault path last limit db = map revision_row (
    take limit (
      select (λ r. in_vault vault r && r.path == path && before last r.uid) (reverse db.revisions)))

pub record PullInfo : Type 0 where
  pub vault_id : Text
  pub hash : Text
  pub size : ℕ
  pub pieces : ℕ
  pub folder : Bool
  pub deleted : Bool
  pub has_content : Bool

unfoldable pub external_content : ℕ → Db → Option (List ℕ)
external_content uid db = elim (find (λ (c : RevisionContent). c.uid == uid) db.revision_content) [
  | none ↦ none
  | some c ↦ some c.content
]

unfoldable pub pull_info : ℕ → Db → Option PullInfo
unfolding external_content
pull_info uid db = elim (find (λ (r : RevisionRow). r.uid == uid) db.revisions) [
  | none ↦ none
  | some r ↦ some (record {
    vault_id = r.vault_id;
    hash = r.hash;
    size = r.size;
    pieces = r.pieces;
    folder = r.folder;
    deleted = r.deleted;
    has_content = is_some r.content || is_some (external_content uid db);
  })
]

-- The one stored blob of a revision; both or none is an error. Columns hold blobs only.
abbrev one_blob : Option (List ℕ) → Option (List ℕ) → Option (List ℕ)
one_blob (some b) none = some b
one_blob none (some b) = some b
one_blob _ _ = none

unfoldable pub content_chunk : ℕ → ℕ → ℕ → Db → Outcome (List ℕ)
unfolding external_content
content_chunk uid offset len db = do
  ensure (leb len piece_size) bad_chunk_bounds
  r ← require (find (λ (r : RevisionRow). r.uid == uid) db.revisions) no_content_metadata
  ensure (leb (offset + len) r.size) chunk_exceeds_size
  blob ← require (one_blob (external_content uid db) r.content) bad_content_storage
  ensure (length blob == r.size) bad_content_storage
  ok (take len (drop offset blob))
