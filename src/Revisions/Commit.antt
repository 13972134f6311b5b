-- ===== src/Revisions/Commit.antt =====
-- A commit is a compare-and-swap on the vault's version, under the quotas and with an exact meter.
use mathlib.Core.Path.{fun_ext}
use blackglass_server.Base.{
  ℕ, ◌+◌, ◌≤◌, ◌≡◌, ◌≢◌, ◌⊎◌, inl, inr, refl, sym, ◌∙◌, true, false, Option, none, some, List, [],
  ◌∷◌, ◌++◌, Text, ◌==◌, nat_eq, text_eq, ==_refl, eq_of, text_beq_iff, arith, is_some, Outcome, ok,
  chains, All, OnOk, OnOk-bind, if◌then◌else◌, Option-cases, Bool-cases,
}
use blackglass_server.Table.{select, find, sum_of}
use blackglass_server.Table.Laws.{sum_of-append, select-append, find-eq-some}
use blackglass_server.Table.Rows.{find-update, exists-update, changed, find-append_new}
use blackglass_server.Database.{Db, VaultRow, RevisionRow, insert_revision}
use blackglass_server.Database.Triggers.{IsMetered}
use blackglass_server.Access.{vault_access, authorize_mutation}
use blackglass_server.Revisions.{
  NewRevision, Revision, row_of, revision_row, revision_at, refresh_vault, current_version,
  version_of, admit_revision, check_expected_version, enforce_storage_quotas, is_owned_by,
  owner_stored_ciphertext_size, stored_ciphertext_size, vault_size,
}

-- The sequence has handed out every uid of the table.
abbrev pub IsIssuedUids : Db → Type 0
IsIssuedUids db = All (λ (r : RevisionRow). r.uid ≤ db.revisions_sequence) db.revisions

module _ (vault : Text) (version : ℕ) (db : Db) where
  pub current_version-refresh_self :
      (v : VaultRow)
      → find (λ v. v.id == vault) db.vaults ≡ some v
      → current_version vault (refresh_vault vault version db) ≡ version
  unfolding current_version refresh_vault
  current_version-refresh_self v found =
      rw find-update (
        rw found (ground (arith, find-eq-some (λ (v : VaultRow). v.id == vault) db.vaults v found)))

  pub current_version-refresh_ne :
      (other : Text)
      → other ≢ vault
      → current_version other (refresh_vault vault version db) ≡ current_version other db
  unfolding current_version refresh_vault
  current_version-refresh_ne other ne =
      rw find-update (kept (find (λ v. v.id == other) db.vaults) (find-eq-some _ db.vaults))
    where
      kept :
          (o : Option VaultRow)
          → ((v : VaultRow) → o ≡ some v → (v.id == other) ≡ true)
          → version_of (
              changed
                (λ v. v.id == vault)
                (λ v. record v { size = vault_size vault db; version = version })
                o)
            ≡ version_of o
      kept none h = refl
      kept (some v) h = ground (arith, h v refl, text_beq_iff v.id other, text_beq_iff v.id vault)

-- What the checks before a commit have established.
pub record IsAdmitted (r : NewRevision) (global_limit owner_limit : ℕ) (db : Db) : Type 0 where
  pub vault : VaultRow
  pub found : find (λ v. v.id == r.vault_id) db.vaults ≡ some vault
  pub expected : (r.expected_version ≡ none) ⊎ (r.expected_version ≡ some vault.version)
  pub room :
      (r.size ≡ 0)
      ⊎ ((stored_ciphertext_size db + r.size ≤ global_limit)
          × (owner_stored_ciphertext_size vault.owner_user_id db + r.size ≤ owner_limit))

module _ (vault : Text) (v : VaultRow) (db : Db)
    (found : find (λ v. v.id == vault) db.vaults ≡ some v) where
  checked_version :
      (expected : Option ℕ)
      → check_expected_version vault expected db ≡ ok tt
      → (expected ≡ none) ⊎ (expected ≡ some v.version)
  unfolding check_expected_version chains
  checked_version none e = inl refl
  checked_version (some n) e = inr (ground arith)

  enforced :
      (size global_limit owner_limit : ℕ)
      → enforce_storage_quotas vault size global_limit owner_limit db ≡ ok tt
      → (size ≡ 0)
        ⊎ ((stored_ciphertext_size db + size ≤ global_limit)
            × (owner_stored_ciphertext_size v.owner_user_id db + size ≤ owner_limit))
  unfolding enforce_storage_quotas chains
  enforced size global_limit owner_limit e = ground arith

access_finds :
    (user_id : ℕ) (vault : Text) (db : Db)
    → is_some (vault_access user_id vault db) ≡ true
    → (v : VaultRow) × (find (λ v. v.id == vault) db.vaults ≡ some v)
unfolding vault_access
access_finds user_id vault db e = elim (Option-cases (find (λ v. v.id == vault) db.vaults)) [
  | inl missing ↦ ground arith
  | inr there ↦ there
]

pub authorized_finds :
    (token_hash : Option Text) (user_id : ℕ) (vault : Text) (now : ℕ) (db : Db)
    → authorize_mutation token_hash user_id vault now db ≡ ok tt
    → (v : VaultRow) × (find (λ v. v.id == vault) db.vaults ≡ some v)
unfolding authorize_mutation chains
authorized_finds token_hash user_id vault now db e = access_finds user_id vault db (ground arith)

pub admit_revision-IsAdmitted :
    (r : NewRevision) (token_hash : Option Text) (global_limit owner_limit auth_now : ℕ) (db : Db)
    → OnOk
        (λ _. IsAdmitted r global_limit owner_limit db)
        (admit_revision r token_hash global_limit owner_limit auth_now db)
unfolding admit_revision
admit_revision-IsAdmitted r token_hash global_limit owner_limit auth_now db =
    let P = λ (_ : Unit {0}). IsAdmitted r global_limit owner_limit db in
    OnOk-bind P _ _ λ _ authorized. OnOk-bind P _ _ λ _ compared. record {
      at = λ _ quota.
          let (v, found) =
            authorized_finds token_hash r.user_id r.vault_id auth_now db authorized in
          record {
            vault = v;
            found = found;
            expected = checked_version r.vault_id v db found r.expected_version compared;
            room = enforced r.vault_id v db found r.size global_limit owner_limit quota;
          };
    }

-- The state after a commit of `r` that returned `stored`.
pub record IsCommitted (r : NewRevision) (ts global_limit owner_limit : ℕ) (db : Db)
    (stored : Revision) (db' : Db) : Type 0 where
  pub appended : db'.revisions ≡ db.revisions ++ row_of r ts (db.revisions_sequence + 1) ∷ []
  pub returned : stored ≡ revision_row (row_of r ts (db.revisions_sequence + 1))
  pub compared :
      (r.expected_version ≡ none) ⊎ (r.expected_version ≡ some (current_version r.vault_id db))
  pub versions :
      (v : Text)
      → current_version v db'
        ≡ (if v == r.vault_id then db.revisions_sequence + 1 else current_version v db)
  pub metered : IsMetered db'
  pub issued : IsIssuedUids db'
  pub within_global : (r.size ≡ 0) ⊎ (stored_ciphertext_size db' ≤ global_limit)
  pub within_owner :
      (r.size ≡ 0)
      ⊎ ((v : VaultRow) × (find (λ v. v.id == r.vault_id) db.vaults ≡ some v)
          × (owner_stored_ciphertext_size v.owner_user_id db' ≤ owner_limit))

pub below_next :
    (n : ℕ) (revs : List RevisionRow)
    → All (λ (r : RevisionRow). r.uid ≤ n) revs
    → All (λ (r : RevisionRow). (r.uid == n + 1) ≡ false) revs
below_next n [] h = tt
below_next n (r ∷ revs) (h, hs) = (ground arith, below_next n revs hs)

raise_bound :
    (n : ℕ) (row : RevisionRow) (revs : List RevisionRow)
    → row.uid ≡ n + 1
    → All (λ (r : RevisionRow). r.uid ≤ n) revs
    → All (λ (r : RevisionRow). r.uid ≤ n + 1) (revs ++ row ∷ [])
raise_bound n row [] e h = (omega arith, tt)
raise_bound n row (r ∷ revs) e (h, hs) = (omega arith, raise_bound n row revs e hs)

pub ok_injective : {a b : Revision} → ◌≡◌ {A = Outcome Revision} (ok a) (ok b) → a ≡ b
ok_injective h = cc

module _ (r : NewRevision) (ts : ℕ) (db : Db)
    (content : List blackglass_server.Database.RevisionContent) where
  -- The database between the INSERT and the update of the vault's row.
  abbrev pub written : Db
  written = record db {
    revisions = db.revisions ++ row_of r ts (db.revisions_sequence + 1) ∷ [];
    revisions_sequence = db.revisions_sequence + 1;
    usage = db.usage + r.size;
    revision_content = content;
  }

  abbrev pub refreshed : Db
  refreshed = refresh_vault r.vault_id (db.revisions_sequence + 1) written

  same_owned : (o : ℕ) → is_owned_by refreshed o ≡ is_owned_by db o
  unfolding refresh_vault
  same_owned o = fun_ext (λ row. exists-update _ _ _ db.vaults (λ v. refl))

  owner_size_grows :
      (o : ℕ)
      → owner_stored_ciphertext_size o refreshed ≤ owner_stored_ciphertext_size o db + r.size
  unfolding owner_stored_ciphertext_size sum_of select
  owner_size_grows o = rw (same_owned o) (
      unfold refresh_vault in
      rw
        (select-append (is_owned_by db o) db.revisions, sum_of-append (λ (r : RevisionRow). r.size))
        (ground arith))

  same_vaults : (other : Text) → current_version other written ≡ current_version other db
  unfolding current_version
  same_vaults other = refl

  versions_after :
      (v : VaultRow)
      → find (λ v. v.id == r.vault_id) db.vaults ≡ some v
      → (other : Text)
      → current_version other refreshed
        ≡ (if other == r.vault_id then db.revisions_sequence + 1 else current_version other db)
  versions_after v found other = elim (Bool-cases (other == r.vault_id)) [
    | inl same ↦
        rw (same, eq_of other r.vault_id same)
          (current_version-refresh_self r.vault_id (db.revisions_sequence + 1) written v found)
    | inr differs ↦ rw differs (
        current_version-refresh_ne r.vault_id (db.revisions_sequence + 1) written other
          (λ e. ground (arith, text_beq_iff other r.vault_id))
        ∙ same_vaults other)
  ]

  insert-IsMetered : IsMetered db → IsMetered written
  unfolding sum_of
  insert-IsMetered h = rw (sum_of-append (λ (x : RevisionRow). x.size)) (omega arith)

  pub found_new :
      IsIssuedUids db
      → revision_at (db.revisions_sequence + 1) refreshed
        ≡ ok (revision_row (row_of r ts (db.revisions_sequence + 1)))
  unfolding revision_at refresh_vault chains
  found_new issued = rw (
      find-append_new (λ (x : RevisionRow). x.uid == db.revisions_sequence + 1) db.revisions
        (row_of r ts (db.revisions_sequence + 1))
        (below_next db.revisions_sequence db.revisions issued)
        (==_refl (db.revisions_sequence + 1)))

  pub committed :
      (global_limit owner_limit : ℕ) (stored : Revision)
      → IsMetered db
      → IsIssuedUids db
      → IsAdmitted r global_limit owner_limit db
      → revision_at (db.revisions_sequence + 1) refreshed ≡ ok stored
      → IsCommitted r ts global_limit owner_limit db stored refreshed
  committed global_limit owner_limit stored metered issued a e = record {
    appended = unfold refresh_vault in refl;
    returned = ok_injective (sym e ∙ found_new issued);
    compared = unfold current_version in rw a.found a.expected;
    versions = versions_after a.vault a.found;
    metered = unfold refresh_vault in insert-IsMetered metered;
    issued = unfold refresh_vault in raise_bound db.revisions_sequence _ db.revisions refl issued;
    within_global = unfold refresh_vault stored_ciphertext_size in ground (arith, a.room);
    within_owner = ground (arith, a.room, a.found, owner_size_grows a.vault.owner_user_id);
  }
