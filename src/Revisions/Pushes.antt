-- ===== src/Revisions/Pushes.antt =====
-- Both kinds of push, through all their checks, end in a committed state.
use blackglass_server.Base.{
  ℕ, ◌+◌, ◌≡◌, refl, Option, List, [], ◌∷◌, ◌++◌, Text, OnOk, OnOk-ok, OnOk-ensure, OnOk-bind, ok,
  length, arith,
}
use blackglass_server.Database.{Db, insert_revision}
use blackglass_server.Database.Triggers.{IsMetered}
use blackglass_server.Revisions.{
  NewRevision, Revision, refresh_vault, add_revision, add_empty_revision, add_file_revision,
}
use blackglass_server.Revisions.Commit.{
  IsCommitted, IsIssuedUids, admit_revision-IsAdmitted, committed,
}

-- One content is appended, the staged bytes under the new number, as many as declared.
abbrev pub IsStored : NewRevision → Db → List ℕ → Db → Type 0
IsStored r db staged db' =
    (db'.revision_content
      ≡ db.revision_content ++ record { uid = db.revisions_sequence + 1; content = staged } ∷ [])
    × (length staged ≡ r.size)

module _ (r : NewRevision) (token_hash : Option Text) (global_limit owner_limit auth_now ts : ℕ)
    (db : Db) (metered : IsMetered db) (issued : IsIssuedUids db) where
  abbrev Goal : Revision × Db → Type 0
  Goal out = IsCommitted r ts global_limit owner_limit db out.0 out.1

  adds : OnOk Goal (add_revision r token_hash global_limit owner_limit auth_now ts db)
  unfolding add_revision
  adds = OnOk-bind Goal _ _ λ _ admitted. OnOk-ensure Goal _ _ _ λ _. OnOk-bind Goal _ _ λ stored e.
      OnOk-ok Goal _ (
        committed r ts db db.revision_content global_limit owner_limit stored metered issued
          ((admit_revision-IsAdmitted r token_hash global_limit owner_limit auth_now db).at tt
            admitted)
          e)

  adds_empty : OnOk Goal (add_empty_revision r token_hash global_limit owner_limit auth_now ts db)
  unfolding add_empty_revision
  adds_empty = OnOk-ensure Goal _ _ _ λ _. adds

  adds_file :
      (staged : List ℕ)
      → OnOk
          (λ out. Goal out × IsStored r db staged out.1)
          (add_file_revision r token_hash staged global_limit owner_limit auth_now ts db)
  unfolding add_file_revision
  adds_file staged =
      let P = λ (out : Revision × Db). Goal out × IsStored r db staged out.1 in
      OnOk-ensure P _ _ _ λ _. OnOk-bind P _ _ λ _ admitted. OnOk-ensure P _ _ _ λ _.
        OnOk-ensure P _ _ _ λ whole. OnOk-bind P _ _ λ stored e. OnOk-ok P _ (
          committed r ts db _ global_limit owner_limit stored metered issued
              ((admit_revision-IsAdmitted r token_hash global_limit owner_limit auth_now db).at tt
                admitted)
              e,
          (unfold refresh_vault insert_revision in refl, ground arith),
        )

  -- With an exact meter and every uid of the table issued by the sequence, a push without content that
  -- succeeds appends exactly the pushed row under the next number and returns it; the vault's version
  -- becomes that number and no other vault's version changes; an expected version, where one is
  -- given, was the vault's version; the meter stays exact.
  pub add_empty_revision-IsCommitted :
      (stored : Revision) (db' : Db)
      → add_empty_revision r token_hash global_limit owner_limit auth_now ts db ≡ ok (stored, db')
      → IsCommitted r ts global_limit owner_limit db stored db'
  add_empty_revision-IsCommitted stored db' e = adds_empty.at (stored, db') e

  -- With an exact meter and every uid of the table issued by the sequence, a push of a file that
  -- succeeds appends exactly the pushed row under the next number and returns it, moves the version of
  -- its vault to that number and no other's, was made against the expected version where one is given,
  -- appends to the stored contents exactly the staged bytes under that number, which are as many as
  -- declared, keeps the meter exact and, where it declares bytes, leaves the stored bytes within the
  -- global limit and the owner's within the owner's limit.
  pub add_file_revision-IsCommitted :
      (staged : List ℕ) (stored : Revision) (db' : Db)
      → add_file_revision r token_hash staged global_limit owner_limit auth_now ts db
        ≡ ok (stored, db')
      → IsCommitted r ts global_limit owner_limit db stored db' × IsStored r db staged db'
  add_file_revision-IsCommitted staged stored db' e = (adds_file staged).at (stored, db') e
