-- ===== src/Revisions/Heads.antt =====
-- Purging a vault removes only superseded rows: what a client can sync from it stays as it was.
use blackglass_server.Base.{
  ℕ, ◌≤◌, ◌≡◌, refl, sym, ap, ◌∙◌, true, not, List, Text, ◌==◌, nat_eq, text_eq, ◌⊎◌, ==_refl,
  eq_of, text_beq_iff, arith, Bool-cases, inl, inr,
}
use blackglass_server.Table.{select, delete, max_of}
use blackglass_server.Table.Members.{
  In, bool_ext, exists_witness, exists_intro, In-select, select-In, In-delete, delete-In, le-max_of,
  max_of_witness, max_of-le, select-delete_comm, select-delete_eq, delete-not,
}
use blackglass_server.Database.{RevisionRow}
use blackglass_server.Revisions.{in_vault, same_path, is_head}
use blackglass_server.Revisions.Restore.{is_superseded}

abbrev uid_of : RevisionRow → ℕ
uid_of r = r.uid

module _ (group : List RevisionRow) where
  abbrev newest : RevisionRow → ℕ
  newest s = max_of uid_of (select (same_path s) group)

  abbrev pub kept : List RevisionRow
  kept = delete (λ r. not (is_head group r)) group

  same_path_refl : (r : RevisionRow) → same_path r r ≡ true
  same_path_refl r = ==_refl r.path

  -- A row that holds the number of the newest of some row's path is a head.
  is_head_of_newest : (s r : RevisionRow) → In s group → newest s ≡ r.uid → is_head group r ≡ true
  unfolding is_head
  is_head_of_newest s r i e = exists_intro _ s group i (rw e (==_refl r.uid))

  -- The newest row of a path, which is kept.
  newest_row :
      (s : RevisionRow)
      → In s group
      → (t : RevisionRow) × In t kept × (t.path ≡ s.path) × (t.uid ≡ newest s)
  newest_row s i =
      let (t, in_path, top) =
        max_of_witness uid_of s (select (same_path s) group)
          (In-select (same_path s) s group i (same_path_refl s)) in
      let (in_group, on_path) = select-In (same_path s) t group in_path in
      let head = is_head_of_newest s t i (sym top) in
      (
        t,
        In-delete (λ r. not (is_head group r)) t group in_group (ap not head),
        eq_of t.path s.path on_path,
        top,
      )

  -- So the newest of what is kept is the newest of all.
  newest-kept :
      (s : RevisionRow) → In s group → max_of uid_of (select (same_path s) kept) ≡ newest s
  newest-kept s i =
      let (t, stays, path, top) = newest_row s i in
      let on_path : same_path s t ≡ true = rw path (==_refl s.path) in
      let low : newest s ≤ max_of uid_of (select (same_path s) kept) = rw (← top) (
        le-max_of uid_of t (select (same_path s) kept)
          (In-select (same_path s) t kept stays on_path)) in
      let high : max_of uid_of (select (same_path s) kept) ≤ newest s =
        max_of-le uid_of (newest s) (select (same_path s) kept) λ x j.
          let (in_kept, on) = select-In (same_path s) x kept j in
          let (x_in, _) = delete-In (λ r. not (is_head group r)) x group in_kept in
          le-max_of uid_of x (select (same_path s) group)
            (In-select (same_path s) x group x_in on) in
      omega (arith, low, high)

  -- Purging superseded rows makes no row a head and takes none its place as head.
  pub is_head-kept : (r : RevisionRow) → is_head kept r ≡ is_head group r
  is_head-kept r = bool_ext _ _ down up
    where
      down : is_head kept r ≡ true → is_head group r ≡ true
      down h =
          unfold is_head in
          let (s, in_kept, e) = exists_witness _ kept h in
          let (i, _) = delete-In (λ r. not (is_head group r)) s group in_kept in
          exists_intro _ s group i (rw (← newest-kept s i) e)

      up : is_head group r ≡ true → is_head kept r ≡ true
      up h =
          unfold is_head in
          let (s, i, e) = exists_witness _ group h in
          let (t, stays, path, _) = newest_row s i in
          let (t_in, _) = delete-In (λ r. not (is_head group r)) t group stays in
          let same : newest t ≡ newest s =
            ap (λ (p : Text). max_of uid_of (select (λ (x : RevisionRow). x.path == p) group))
              path in
          exists_intro _ t kept stays (rw (newest-kept t t_in, same) e)

  kept-heads : kept ≡ select (is_head group) group
  kept-heads = delete-not (is_head group) group

-- The rows that are left of a vault when its superseded rows are deleted.
pub left_over :
    (vault : Text) (revs : List RevisionRow)
    → select (in_vault vault) (delete (is_superseded vault revs) revs)
      ≡ kept (select (in_vault vault) revs)
left_over vault revs =
    select-delete_comm (λ r. not (is_head (select (in_vault vault) revs) r)) (in_vault vault)
      (is_superseded vault revs) revs (λ r. refl)

-- What a client syncs from a vault, before and after: the same head rows and no other rows are left.
pub record IsPurged (vault : Text) (revs revs' : List RevisionRow) : Type 0 where
  pub only_heads :
      select (in_vault vault) revs'
      ≡ select (is_head (select (in_vault vault) revs)) (select (in_vault vault) revs)
  pub same_heads :
      (r : RevisionRow)
      → is_head (select (in_vault vault) revs') r ≡ is_head (select (in_vault vault) revs) r
  pub others_kept :
      (other : Text)
      → (other ≡ vault) ⊎ (select (in_vault other) revs' ≡ select (in_vault other) revs)

pub delete-IsPurged :
    (vault : Text) (revs : List RevisionRow)
    → IsPurged vault revs (delete (is_superseded vault revs) revs)
delete-IsPurged vault revs = record {
  only_heads = left_over vault revs ∙ kept-heads (select (in_vault vault) revs);
  same_heads = λ r. rw (left_over vault revs) (is_head-kept (select (in_vault vault) revs) r);
  others_kept = λ other. elim (Bool-cases (other == vault)) [
    | inl same ↦ inl (eq_of other vault same)
    | inr differs ↦ inr (
        select-delete_eq (is_superseded vault revs) (in_vault other) revs λ r gone. ground (
          arith,
          text_beq_iff r.vault_id vault,
          text_beq_iff r.vault_id other,
          text_beq_iff other vault,
        ))
  ];
}
