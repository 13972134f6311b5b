-- ===== src/Revisions/Purges.antt =====
-- A purge frees history and changes nothing that a client syncs.
use mathlib.Core.Path.{fun_ext}
use blackglass_server.Base.{
  ℕ, ◌≡◌, refl, ap, ◌∙◌, Option, some, Text, ◌==◌, nat_eq, text_eq, text_beq_iff, eq_of, OnOk,
  OnOk-ok, OnOk-bind, OnOk-require, ok, arith, Bool-cases, inl, inr,
}
use blackglass_server.Table.{sum_of, find}
use blackglass_server.Table.Members.{select-delete_eq}
use blackglass_server.Database.{Db, RevisionRow, VaultRow, delete_revisions}
use blackglass_server.Database.Triggers.{IsMetered, delete_revisions-IsMetered}
use blackglass_server.Revisions.{vault_size, current_version, refresh_vault}
use blackglass_server.Revisions.Commit.{current_version-refresh_self, current_version-refresh_ne}
use blackglass_server.Revisions.Restore.{purge, is_superseded}
use blackglass_server.Revisions.Heads.{IsPurged, delete-IsPurged}

module _ (vault : Text) (db : Db) where
  abbrev purged : Db
  purged = delete_revisions (is_superseded vault db.revisions) db

  same_size : vault_size vault purged ≡ vault_size vault db
  unfolding vault_size delete_revisions
  same_size = rw (fun_ext (delete-IsPurged vault db.revisions).same_heads) (
      ap (sum_of (λ (r : RevisionRow). r.size)) (
        select-delete_eq (is_superseded vault db.revisions) _ db.revisions
          (λ r gone. ground arith)))

  same_version :
      (v : VaultRow)
      → find (λ v. v.id == vault) db.vaults ≡ some v
      → (other : Text)
      → current_version other (refresh_vault vault v.version purged) ≡ current_version other db
  same_version v found other = elim (Bool-cases (other == vault)) [
    | inl same ↦ rw (eq_of other vault same) (
        current_version-refresh_self vault v.version purged v (unfold delete_revisions in found)
        ∙ (unfold current_version in rw found refl))
    | inr differs ↦
        current_version-refresh_ne vault v.version purged other
          (λ e. ground (arith, text_beq_iff other vault))
        ∙ (unfold current_version delete_revisions in refl)
  ]

  unfold_found :
      (v : VaultRow)
      → find (λ v. v.id == vault) purged.vaults ≡ some v
      → find (λ v. v.id == vault) db.vaults ≡ some v
  unfolding delete_revisions
  unfold_found v found = found

  pub record PurgeKeeps (db' : Db) : Type 0 where
    pub history : IsPurged vault db.revisions db'.revisions
    pub size : vault_size vault db' ≡ vault_size vault db
    pub version : (other : Text) → current_version other db' ≡ current_version other db
    pub metered : IsMetered db'

  module _ (version : ℕ) where
    history_after : IsPurged vault db.revisions (refresh_vault vault version purged).revisions
    unfolding refresh_vault delete_revisions
    history_after = delete-IsPurged vault db.revisions

    size_after : vault_size vault (refresh_vault vault version purged) ≡ vault_size vault db
    size_after = unfold_size ∙ same_size
      where
        unfold_size :
            vault_size vault (refresh_vault vault version purged) ≡ vault_size vault purged
        unfold_size = unfold vault_size refresh_vault in refl

    purge-IsMetered : IsMetered db → IsMetered (refresh_vault vault version purged)
    unfolding refresh_vault
    purge-IsMetered h = delete_revisions-IsMetered (is_superseded vault db.revisions) db h

  purges :
      (user_id : ℕ) (token_hash : Option Text) (auth_now : ℕ)
      → IsMetered db
      → OnOk PurgeKeeps (purge user_id token_hash vault auth_now db)
  unfolding purge
  purges user_id token_hash auth_now metered = OnOk-bind PurgeKeeps _ _ λ _ _.
      OnOk-require PurgeKeeps _ _ _ λ v found. OnOk-ok PurgeKeeps _ (record {
        history = history_after v.version;
        size = size_after v.version;
        version = same_version v (unfold_found v found);
        metered = purge-IsMetered v.version metered;
      })

-- A purge that succeeds leaves of the vault exactly the newest row of each path, and no row of
-- another vault is lost; which rows are newest, the vault's size, every vault's version and the
-- exactness of the meter are as before.
pub purge_keeps :
    (user_id : ℕ) (token_hash : Option Text) (vault : Text) (auth_now : ℕ) (db db' : Db)
    → IsMetered db
    → purge user_id token_hash vault auth_now db ≡ ok db'
    → PurgeKeeps vault db db'
purge_keeps user_id token_hash vault auth_now db db' metered e =
    (purges vault db user_id token_hash auth_now metered).at db' e
