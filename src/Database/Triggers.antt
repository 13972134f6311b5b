-- ===== src/Database/Triggers.antt =====
-- The running total that the triggers keep is the sum that a query would compute.
use blackglass_server.Base.{◌≡◌, ◌+◌, refl, arith, Bool, ℕ, [], ◌∷◌}
use blackglass_server.Table.{sum_of}
use blackglass_server.Table.Laws.{sum_of-append, sum_of-delete}
use blackglass_server.Database.{
  Db, RevisionRow, VaultRow, delete_revisions, insert_revision, delete_vaults,
  initialize_runtime_storage_usage,
}

abbrev pub stored_bytes : Db → ℕ
stored_bytes db = sum_of (λ r. r.size) db.revisions

abbrev pub IsMetered : Db → Type 0
IsMetered db = db.usage ≡ stored_bytes db

pub delete_revisions-IsMetered :
    (p : RevisionRow → Bool) (db : Db) → IsMetered db → IsMetered (delete_revisions p db)
unfolding delete_revisions
delete_revisions-IsMetered p db h = omega (arith, sum_of-delete (λ r. r.size) p db.revisions)

pub insert_revision-IsMetered :
    (row : ℕ → RevisionRow) (db : Db) → IsMetered db → IsMetered (insert_revision row db).1
unfolding insert_revision sum_of
insert_revision-IsMetered row db h =
    omega (arith, sum_of-append (λ r. r.size) db.revisions (row (db.revisions_sequence + 1) ∷ []))

pub delete_vaults-IsMetered :
    (p : VaultRow → Bool) (db : Db) → IsMetered db → IsMetered (delete_vaults p db)
unfolding delete_vaults
delete_vaults-IsMetered p db h = omega (arith, sum_of-delete (λ r. r.size) _ db.revisions)

pub initialize-IsMetered : (db : Db) → IsMetered (initialize_runtime_storage_usage db)
unfolding initialize_runtime_storage_usage
initialize-IsMetered db = refl
