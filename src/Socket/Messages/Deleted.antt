-- ===== src/Socket/Messages/Deleted.antt =====
-- The list of deleted files, page by page, against one query for all of them.
use blackglass_server.Base.{
  ℕ, zero, suc, ◌+◌, ◌<◌, ◌≡◌, refl, sym, ap, subst, ◌∙◌, Bool, true, false, not, ◌&&◌, Option,
  none, some, List, ◌++◌, map, take, drop, length, Text, arith, ltb, ltb→lt, ltb→ge, take-drop,
  length-drop, take_short, length-map, map-append, if◌then◌else◌, nat_eq, text_eq,
}
use blackglass_server.Table.{select, exists}
use blackglass_server.Table.Sorted.{length-select_le}
use blackglass_server.Database.{Db, RevisionRow}
use blackglass_server.Revisions.{Revision, revision_row, in_vault, is_head, same_path}
use blackglass_server.Revisions.Reads.{list_deleted_page, is_renamed_away}
use blackglass_server.Socket.Session.{Config, Session, AppState}
use blackglass_server.Socket.Replay.{last_uid}
use blackglass_server.Socket.Replay.Pages.{
  IsAscending, is_after, IsAscending-select, page_rest, each_is_after, select_nested, select_ext,
}
use blackglass_server.Socket.Messages.{
  Context, too_large, removed_items, fit_items, collect_deleted, deleted_reply, if_active,
  deleted_page_size, max_large_response_bytes,
}
use blackglass_server.Socket.Messages.Items.{
  joined_size, keep, fit_items-joined_size, collect_round,
}

-- The newest row of a path, a deletion of what was there before, and no rename if these are left out.
abbrev pub is_deletion : Text → Bool → List RevisionRow → RevisionRow → Bool
is_deletion vault suppress revs r =
    is_head (select (in_vault vault) revs) r
    && r.deleted
    && exists
        (λ (prior : RevisionRow).
          in_vault r.vault_id prior
          && same_path r prior
          && ltb prior.uid r.uid
          && not prior.deleted)
        revs
    && not (suppress && is_renamed_away revs r)

abbrev pub deletions : Text → Bool → List RevisionRow → ℕ → List RevisionRow
deletions vault suppress revs after =
    select (λ r. is_deletion vault suppress revs r && is_after after r) revs

module _ (encoded : Revision → ℕ) (vault : Text) (suppress : Bool) (db : Db)
    (ascending : IsAscending db.revisions) where
  abbrev missing : ℕ → List RevisionRow
  missing = deletions vault suppress db.revisions

  deleted_page :
      (after : ℕ)
      → list_deleted_page vault suppress after deleted_page_size db
        ≡ map revision_row (take deleted_page_size (missing after))
  unfolding list_deleted_page
  deleted_page after =
      ap (λ rs. map revision_row (take deleted_page_size rs))
        (select_ext _ _ db.revisions (λ r. ground arith))

  -- A round of `collect_deleted`, from its page.
  abbrev collected : ℕ → ℕ → Bool → ℕ → List Revision → Option (List Revision)
  collected fuel after first bytes rows = elim (fit_items encoded first bytes rows) [
    | none ↦ none
    | some (later, total) ↦
        let rest =
          collect_deleted fuel encoded vault suppress (last_uid after rows) later total db in
        if ltb (length rows) deleted_page_size
        then some rows
        else elim rest [ none ↦ none | some more ↦ some (rows ++ more) ]
  ]

  collects :
      (fuel after : ℕ) (first : Bool) (bytes : ℕ)
      → length (missing after) < fuel
      → collect_deleted fuel encoded vault suppress after first bytes db
        ≡ keep
            (fit_items encoded first bytes (map revision_row (missing after)))
            (map revision_row (missing after))
  unfolding collect_deleted
  collects zero after first bytes enough = absurd (omega arith)
  collects (suc fuel) after first bytes enough =
      subst
        (λ rows.
          collected fuel after first bytes rows
          ≡ keep (fit_items encoded first bytes (map revision_row (missing after)))
              (map revision_row (missing after)))
        (sym (deleted_page after))
        (let ys = missing after in
          let rows = map revision_row (take deleted_page_size ys) in
          let next = last_uid after rows in
          let counted = length-map revision_row (take deleted_page_size ys) in
          collect_round encoded (ltb (length rows) deleted_page_size) first bytes rows
            (map revision_row ys)
            (λ later total. collect_deleted fuel encoded vault suppress next later total db)
            (λ short.
              ap (map revision_row)
                (sym (take_short deleted_page_size ys (omega (arith, ltb→lt _ _ short, counted)))))
            (λ long.
              let (le, left) =
                page_rest 63 after ys (IsAscending-select _ db.revisions ascending)
                  (each_is_after (is_deletion vault suppress db.revisions) after db.revisions)
                  long in
              let same : missing next ≡ drop deleted_page_size ys =
                select_nested (is_deletion vault suppress db.revisions) after next db.revisions le
                ∙ left in
              let shorter : length (missing next) < fuel = rw same (
                omega
                  (arith, length-drop deleted_page_size ys, counted, ltb→ge _ _ long, enough)) in
              (
                map revision_row (missing next),
                ap (map revision_row) (sym (take-drop deleted_page_size ys))
                    ∙ map-append revision_row (take deleted_page_size ys)
                        (drop deleted_page_size ys)
                    ∙ ap (λ l. rows ++ map revision_row l) (sym same),
                λ later total. collects fuel next later total shorter,
              )))

-- With uids in ascending order and fuel beyond the number of rows, the list of deleted files is
-- answered with every deletion of the vault in one list, in order, or as too large exactly if the
-- items with their commas and brackets are longer than the limit, however many pages it is read in.
pub deleted_reply-IsOneQuery :
    (config : Config) (c : Context) (session : Session) (suppress : Bool) (s : AppState)
    → IsAscending s.db.revisions
    → length s.db.revisions < c.fuel
    → (let all = map revision_row (deletions session.vault suppress s.db.revisions 0) in
        deleted_reply config c session suppress s ≡ (
          if ltb max_large_response_bytes (10 + joined_size c.item_size true all + 2)
          then (too_large, s)
          else if_active config c (removed_items all) s))
unfolding deleted_reply
deleted_reply-IsOneQuery config c session suppress s ascending enough =
    let ys = deletions session.vault suppress s.db.revisions 0 in
    let all = map revision_row ys in
    let few : length ys < c.fuel = omega (arith, enough, length-select_le _ s.db.revisions) in
    ap
      (λ (o : Option (List Revision)). elim o [
        | none ↦ (too_large, s)
        | some found ↦ if_active config c (removed_items found) s
      ])
      (collects c.item_size session.vault suppress s.db ascending c.fuel 0 true 10 few
        ∙ fit_items-joined_size c.item_size true 10 all all (omega arith))
    ∙ at_limit (ltb max_large_response_bytes (10 + joined_size c.item_size true all + 2)) all
  where
    at_limit :
        (over : Bool) (all : List Revision)
        → (elim (if over then none else some all) [
          | none ↦ (too_large, s)
          | some found ↦ if_active config c (removed_items found) s
        ])
          ≡ (if over then (too_large, s) else if_active config c (removed_items all) s)
    at_limit true all = refl
    at_limit false all = refl
