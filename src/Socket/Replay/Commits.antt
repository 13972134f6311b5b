-- ===== src/Socket/Replay/Commits.antt =====
-- The replay against the tables: what commits while it runs, beyond its version, does not show in it.
use blackglass_server.Base.{
  ℕ, ◌≤◌, ◌<◌, ◌≡◌, ap, ◌∙◌, Bool, true, false, ◌&&◌, List, ◌++◌, map, take, length, All, All-map,
  arith, Text, ◌==◌, nat_eq, text_eq,
}
use blackglass_server.Table.{select, max_of}
use blackglass_server.Table.Members.{exists_witness, select-In, max_of-le}
use blackglass_server.Table.Sorted.{length-select_le}
use blackglass_server.Database.{Db, RevisionRow}
use blackglass_server.Revisions.{revision_row, same_path, is_head}
use blackglass_server.Revisions.Reads.{
  list_changes_page, initial_snapshot_page, is_change, is_snapshot_row, is_vault_row_through,
}
use blackglass_server.Socket.Replay.{Gate, replay, replay_page, replay_page_size}
use blackglass_server.Socket.Replay.Pages.{IsAscending, is_after, select_ext, select-unread}
use blackglass_server.Socket.Replay.Rounds.{IsReplayed}
use blackglass_server.Socket.Replay.Complete.{replayed}

-- The rows of the vault up to the version, or of its state at that version.
abbrev pub is_owed : Bool → Text → ℕ → List RevisionRow → RevisionRow → Bool
is_owed true vault version revs r = is_snapshot_row vault version revs r
is_owed false vault version revs r = is_vault_row_through vault version r

-- The database after commits that the replay does not wait for.
abbrev pub with_later : Db → (ℕ → List RevisionRow) → ℕ → Db
with_later db later n = record db { revisions = db.revisions ++ later n }

-- A head of the rows up to a version is not beyond it.
head_within :
    (vault : Text) (version : ℕ) (revs : List RevisionRow) (r : RevisionRow)
    → is_head (select (is_vault_row_through vault version) revs) r ≡ true
    → r.uid ≤ version
unfolding is_head
head_within vault version revs r h =
    let group = select (is_vault_row_through vault version) revs in
    let (s, i, e) =
      exists_witness
        (λ (s : RevisionRow). max_of (λ t. t.uid) (select (same_path s) group) == r.uid) group h in
    let bound : max_of (λ (t : RevisionRow). t.uid) (select (same_path s) group) ≤ version =
      max_of-le (λ (t : RevisionRow). t.uid) version (select (same_path s) group)
        λ t j.
          let (there, _) = select-In (same_path s) t group j in
          let (_, within) = select-In (is_vault_row_through vault version) t revs there in
          ground (arith, within) in
    ground (arith, bound, e)

module _ (vault : Text) (version cursor : ℕ) (revs later : List RevisionRow)
    (above : All (λ (r : RevisionRow). version < r.uid) later) where
  changes_unread :
      select (is_change vault cursor version) (revs ++ later)
      ≡ select (λ r. is_vault_row_through vault version r && is_after cursor r) revs
  changes_unread =
      select-unread (is_change vault cursor version) revs later
        (All-map (λ (r : RevisionRow). version < r.uid) (λ r h. ground arith) later above)
      ∙ select_ext _ _ revs (λ r. ground arith)

  group_unread :
      select (is_vault_row_through vault version) (revs ++ later)
      ≡ select (is_vault_row_through vault version) revs
  group_unread =
      select-unread (is_vault_row_through vault version) revs later
        (All-map (λ (r : RevisionRow). version < r.uid) (λ r h. ground arith) later above)

  snapshot_unread :
      select
        (λ r. is_snapshot_row vault version (revs ++ later) r && is_after cursor r)
        (revs ++ later)
      ≡ select (λ r. is_snapshot_row vault version revs r && is_after cursor r) revs
  snapshot_unread = rw group_unread (
      select-unread (λ r. is_snapshot_row vault version revs r && is_after cursor r) revs later
        (All-map (λ (r : RevisionRow). version < r.uid)
          (λ r h. ground (arith, head_within vault version revs r)) later above))

-- A page read at any time is the page of the rows that were there at the start.
page_at :
    (initial : Bool) (vault : Text) (version : ℕ) (db : Db) (later : ℕ → List RevisionRow)
    → ((n : ℕ) → All (λ (r : RevisionRow). version < r.uid) (later n))
    → (n cursor : ℕ)
    → replay_page initial vault version (with_later db later) n cursor
      ≡ map revision_row (
          take replay_page_size (
            select
              (λ r. is_owed initial vault version db.revisions r && is_after cursor r)
              db.revisions))
unfolding replay_page list_changes_page initial_snapshot_page
page_at true vault version db later above n cursor =
    ap (λ rs. map revision_row (take replay_page_size rs))
      (snapshot_unread vault version cursor db.revisions (later n) (above n))
page_at false vault version db later above n cursor =
    ap (λ rs. map revision_row (take replay_page_size rs))
      (changes_unread vault version cursor db.revisions (later n) (above n))

-- With uids in ascending order, commits beyond the version only while it runs, and fuel beyond the
-- number of rows, a replay whatever its checks find ends. It ends by `ready`, which names the version,
-- only if all its checks passed but for a shutdown at the last, and then it has sent in order and once
-- each the rows after the cursor up to the version (or those of the state at the version). It ends by
-- `stopped` or `closed` only at a check that found a shutdown or an ended session after others that
-- passed, one for each row sent, and then it has sent a first part of those rows.
pub replay-IsReplayed :
    (initial : Bool) (vault : Text) (version : ℕ) (db : Db) (later : ℕ → List RevisionRow)
    (gate : ℕ → Gate) (fuel cursor : ℕ)
    → IsAscending db.revisions
    → ((n : ℕ) → All (λ (r : RevisionRow). version < r.uid) (later n))
    → length db.revisions < fuel
    → IsReplayed gate 0
        (map revision_row (
          select
            (λ r. is_owed initial vault version db.revisions r && is_after cursor r)
            db.revisions))
        version
        (replay fuel gate
          (replay_page initial vault version (with_later db later))
          version
          0
          cursor)
replay-IsReplayed initial vault version db later gate fuel cursor ascending above enough =
    replayed db.revisions (is_owed initial vault version db.revisions) ascending gate
      (replay_page initial vault version (with_later db later)) version
      (page_at initial vault version db later above) fuel 0 cursor
      (omega (
        arith,
        enough,
        length-select_le (λ r. is_owed initial vault version db.revisions r && is_after cursor r)
            db.revisions,
      ))
