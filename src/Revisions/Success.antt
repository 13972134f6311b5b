-- ===== src/Revisions/Success.antt =====
-- When a push of a file succeeds, and which error it raises when it does not.
use blackglass_server.Base.{
  ℕ, ◌+◌, ◌≤◌, ◌<◌, ◌≡◌, ◌≢◌, ◌⊎◌, refl, true, false, not, ◌||◌, Option, none, some, List, ◌++◌, [],
  ◌∷◌, Text, length, leb, ◌==◌, nat_eq, text_eq, arith, ok, err, chains, conditional_write_conflict,
  storage_quota_exceeded,
}
use blackglass_server.Table.{find}
use blackglass_server.Database.{Db, VaultRow, max_js_safe_integer, insert_revision}
use blackglass_server.Access.{authorize_mutation}
use blackglass_server.Revisions.{
  NewRevision, Revision, row_of, revision_row, admit_revision, check_expected_version,
  enforce_storage_quotas, stored_ciphertext_size, owner_stored_ciphertext_size, pieces_for,
  add_file_revision,
}
use blackglass_server.Revisions.Commit.{IsIssuedUids, found_new, refreshed}

-- The metadata of a file with content, and as many pieces as the size needs.
abbrev pub IsFileMetadata : NewRevision → Type 0
IsFileMetadata r =
    (r.folder ≡ false) × (r.deleted ≡ false) × (0 < r.size) × (r.pieces ≡ pieces_for r.size)

module _ (r : NewRevision) (token_hash : Option Text) (global_limit owner_limit auth_now ts : ℕ)
    (db : Db) (v : VaultRow)
    (authorized : authorize_mutation token_hash r.user_id r.vault_id auth_now db ≡ ok tt)
    (found : find (λ v. v.id == r.vault_id) db.vaults ≡ some v) where
  abbrev Quotas : Type 0
  Quotas =
      (stored_ciphertext_size db + r.size ≤ global_limit)
      × (owner_stored_ciphertext_size v.owner_user_id db + r.size ≤ owner_limit)

  version_holds :
      (e : Option ℕ)
      → (e ≡ none) ⊎ ((e ≡ some v.version) × (v.version ≤ max_js_safe_integer))
      → check_expected_version r.vault_id e db ≡ ok tt
  unfolding check_expected_version chains
  version_holds none h = refl
  version_holds (some n) h = ground (arith, found, h)

  version_fails :
      (n : ℕ)
      → n ≤ max_js_safe_integer
      → n ≢ v.version
      → check_expected_version r.vault_id (some n) db ≡ err conditional_write_conflict
  unfolding check_expected_version chains
  version_fails n small other = ground (arith, found, small, other)

  quotas_hold :
      0 < r.size
      → Quotas
      → enforce_storage_quotas r.vault_id r.size global_limit owner_limit db ≡ ok tt
  unfolding enforce_storage_quotas chains
  quotas_hold some_bytes (g, o) = ground (arith, found, some_bytes, g, o)

  quotas_fail :
      0 < r.size
      → (global_limit < stored_ciphertext_size db + r.size)
        ⊎ (owner_limit < owner_stored_ciphertext_size v.owner_user_id db + r.size)
      → enforce_storage_quotas r.vault_id r.size global_limit owner_limit db
        ≡ err storage_quota_exceeded
  unfolding enforce_storage_quotas chains
  quotas_fail some_bytes over = ground (arith, found, some_bytes, over)

  module _ (staged : List ℕ) (metadata : IsFileMetadata r) where
    metadata_holds :
        not (r.folder || r.deleted || r.size == 0 || not (r.pieces == pieces_for r.size)) ≡ true
    metadata_holds = ground (arith, metadata)

    -- An authorized push of a file with valid metadata, against the version of the vault or no version,
    -- within both quotas, with numbers left in the sequence and a staging file of the declared size,
    -- succeeds.
    pub push_succeeds :
        IsIssuedUids db
        → (r.expected_version ≡ none)
          ⊎ ((r.expected_version ≡ some v.version) × (v.version ≤ max_js_safe_integer))
        → stored_ciphertext_size db + r.size ≤ global_limit
        → owner_stored_ciphertext_size v.owner_user_id db + r.size ≤ owner_limit
        → db.revisions_sequence < max_js_safe_integer
        → length staged ≡ r.size
        → (stored : Revision) × (db' : Db) × (add_file_revision r token_hash staged global_limit
              owner_limit auth_now ts db
            ≡ ok (stored, db'))
    unfolding add_file_revision admit_revision insert_revision chains
    push_succeeds issued version global_room owner_room numbers whole =
        let admitted = version_holds r.expected_version version in
        let quotas = quotas_hold metadata.2 (global_room, owner_room) in
        let blob : blackglass_server.Database.RevisionContent = record {
          uid = db.revisions_sequence + 1;
          content = staged;
        } in
        let next : leb (db.revisions_sequence + 1) max_js_safe_integer ≡ true =
          ground (arith, numbers) in
        let same : (length staged == r.size) ≡ true = ground (arith, whole) in
        let stored = found_new r ts db (db.revision_content ++ blob ∷ []) issued in
        (
          revision_row (row_of r ts (db.revisions_sequence + 1)),
          refreshed r ts db (db.revision_content ++ blob ∷ []),
          rw (metadata_holds, authorized, admitted, quotas, next, same, stored) refl,
        )

    -- An authorized push of a file with valid metadata that expects a version that is not the vault's
    -- raises `conditional_write_conflict`, whatever the quotas and the staging file.
    pub push_conflicts :
        (n : ℕ)
        → r.expected_version ≡ some n
        → n ≤ max_js_safe_integer
        → n ≢ v.version
        → add_file_revision r token_hash staged global_limit owner_limit auth_now ts db
          ≡ err conditional_write_conflict
    unfolding add_file_revision admit_revision chains
    push_conflicts n expects small other =
        rw (metadata_holds, authorized, expects, version_fails n small other) refl

    -- An authorized push of a file with valid metadata, against the version of the vault or no version,
    -- raises `storage_quota_exceeded` if its bytes would pass the global limit or the owner's.
    pub push_over_quota :
        (r.expected_version ≡ none)
          ⊎ ((r.expected_version ≡ some v.version) × (v.version ≤ max_js_safe_integer))
        → (global_limit < stored_ciphertext_size db + r.size)
          ⊎ (owner_limit < owner_stored_ciphertext_size v.owner_user_id db + r.size)
        → add_file_revision r token_hash staged global_limit owner_limit auth_now ts db
          ≡ err storage_quota_exceeded
    unfolding add_file_revision admit_revision chains
    push_over_quota version over =
        rw
          (
            metadata_holds,
            authorized,
            version_holds r.expected_version version,
            quotas_fail metadata.2 over,
          )
          refl
