-- ===== src/Vaults/Deletion.antt =====
-- A deleted vault is gone with all that hangs on it, is marked as retired, and no other vault is touched.
use blackglass_server.Base.{
  ℕ, ◌≤◌, ◌<◌, ◌≡◌, ◌⊎◌, inl, inr, refl, sym, ap, subst, Bool, true, false, ◌&&◌, Option, none,
  some, List, [], ◌∷◌, ◌++◌, All, arith, Text, ◌==◌, nat_eq, text_eq, text_beq_iff, ==_refl, ltb→lt,
  length, length-append, OnOk, OnOk-ok, OnOk-ensure, OnOk-bind, OnOk-require, OnOk-branch,
  Bool-cases, ok,
}
use blackglass_server.Table.{select, delete, exists, find}
use blackglass_server.Table.Laws.{length-delete, find-eq-some, exists-append_right}
use blackglass_server.Table.Keys.{IsKeyed}
use blackglass_server.Table.Members.{
  exists_witness, exists_intro, In-select, select-In, bool_ext, select-delete_eq,
}
use blackglass_server.Table.Sorted.{keyed_same, find-In, All-In, find-delete_unread}
use blackglass_server.Database.{
  Db, VaultRow, Membership, RevisionRow, RetiredVault, is_owned, delete_vaults, delete_revisions,
  max_retired_vaults,
}
use blackglass_server.Database.Triggers.{IsMetered, delete_vaults-IsMetered}
use blackglass_server.Vaults.{retire_vault_identity, delete_vault, is_retired_vault_for_user}

abbrev pub id_of : VaultRow → Text
id_of v = v.id

abbrev pub of_vault : Text → RevisionRow → Bool
of_vault vault r = r.vault_id == vault

abbrev pub shares : Text → Membership → Bool
shares vault m = m.vault_id == vault

module _ {A : Type 0} where
  select_gone :
      (p q : A → Bool) (xs : List A)
      → ((x : A) → q x ≡ true → p x ≡ true)
      → select q (delete p xs) ≡ []
  unfolding select delete
  select_gone p q [] h = refl
  select_gone p q (x ∷ xs) h = ground (arith, h x, select_gone p q xs h)

  find_gone :
      (p q : A → Bool) (xs : List A)
      → All (λ x. q x ≡ true → p x ≡ true) xs
      → find q (delete p xs) ≡ none
  unfolding find delete
  find_gone p q [] h = refl
  find_gone p q (x ∷ xs) (h, hs) = ground (arith, find_gone p q xs hs)

-- The vault and what refers to it are gone; of every other vault all rows are as they were.
pub record IsGone (vault : Text) (db db' : Db) : Type 0 where
  pub row : find (λ (v : VaultRow). v.id == vault) db'.vaults ≡ none
  pub revisions : select (of_vault vault) db'.revisions ≡ []
  pub memberships : select (shares vault) db'.memberships ≡ []
  pub others :
      (other : Text)
      → (other ≡ vault)
        ⊎ ((find (λ (v : VaultRow). v.id == other) db'.vaults
              ≡ find (λ (v : VaultRow). v.id == other) db.vaults)
            × (select (of_vault other) db'.revisions ≡ select (of_vault other) db.revisions)
            × (select (shares other) db'.memberships ≡ select (shares other) db.memberships))

abbrev with_retired : List RetiredVault → Db → Db
with_retired rs db = record db { retired_vaults = rs }

module _ (vault : Text) (user_id : ℕ) (db : Db) (keyed : IsKeyed id_of db.vaults)
    (owned : exists (is_owned vault user_id) db.vaults ≡ true) where
  -- What the cascade tests: some deleted row has the id.
  gone_id :
      (id : Text)
      → exists (λ (v : VaultRow). v.id == id) (select (is_owned vault user_id) db.vaults)
        ≡ (id == vault)
  gone_id id =
      bool_ext _ _
        (λ h.
          let (v, i, e) =
            exists_witness (λ (v : VaultRow). v.id == id)
              (select (is_owned vault user_id) db.vaults) h in
          let (j, o) = select-In (is_owned vault user_id) v db.vaults i in
          ground (arith, text_beq_iff v.id id, text_beq_iff v.id vault, text_beq_iff id vault))
        λ h.
          let (v, i, o) = exists_witness (is_owned vault user_id) db.vaults owned in
          exists_intro (λ (v : VaultRow). v.id == id) v (select (is_owned vault user_id) db.vaults)
            (In-select (is_owned vault user_id) v db.vaults i o)
            (ground (arith, text_beq_iff v.id id, text_beq_iff v.id vault, text_beq_iff id vault))

  owned_only :
      All (λ (v : VaultRow). (v.id == vault) ≡ true → is_owned vault user_id v ≡ true) db.vaults
  owned_only =
      All-In (λ (v : VaultRow). (v.id == vault) ≡ true → is_owned vault user_id v ≡ true) db.vaults
        λ v i h.
          let (w, j, o) = exists_witness (is_owned vault user_id) db.vaults owned in
          rw
            (keyed_same id_of v w db.vaults keyed i j (
              ground
                (arith, text_beq_iff v.id w.id, text_beq_iff v.id vault, text_beq_iff w.id vault)))
            o

  pub delete_vaults-IsGone :
      (rs : List RetiredVault)
      → IsGone vault db (delete_vaults (is_owned vault user_id) (with_retired rs db))
  unfolding delete_vaults delete_revisions
  delete_vaults-IsGone rs = record {
    row = find_gone (is_owned vault user_id) (λ (v : VaultRow). v.id == vault) db.vaults owned_only;
    revisions = select_gone _ (of_vault vault) db.revisions λ r h. rw (gone_id r.vault_id) h;
    memberships = select_gone _ (shares vault) db.memberships λ m h. rw (gone_id m.vault_id) h;
    others = λ other. elim (Bool-cases (other == vault)) [
      | inl same ↦ inl (ground (arith, text_beq_iff other vault))
      | inr differs ↦ inr (
        find-delete_unread (is_owned vault user_id) (λ (v : VaultRow). v.id == other) db.vaults
            (All-In (λ (v : VaultRow). is_owned vault user_id v ≡ true → (v.id == other) ≡ false)
              db.vaults
              λ v i h. ground (
                arith,
                text_beq_iff v.id vault,
                text_beq_iff v.id other,
                text_beq_iff other vault,
              )),
        select-delete_eq _ (of_vault other) db.revisions (λ r h. ground (
          arith,
          gone_id r.vault_id,
          text_beq_iff r.vault_id vault,
          text_beq_iff r.vault_id other,
          text_beq_iff other vault,
        )),
        select-delete_eq _ (shares other) db.memberships (λ m h. ground (
          arith,
          gone_id m.vault_id,
          text_beq_iff m.vault_id vault,
          text_beq_iff m.vault_id other,
          text_beq_iff other vault,
        )),
      )
    ];
  }

-- Retiring an id marks it for its owner, within the capacity of the table, and touches nothing else.
pub record IsRetired (vault : Text) (user_id : ℕ) (db' : Db) : Type 0 where
  pub marked : is_retired_vault_for_user user_id vault db' ≡ true
  pub capacity : length db'.retired_vaults ≤ max_retired_vaults

owner_is :
    (vault : Text) (user_id : ℕ) (db : Db) (v : VaultRow)
    → IsKeyed id_of db.vaults
    → exists (is_owned vault user_id) db.vaults ≡ true
    → find (λ (v : VaultRow). v.id == vault) db.vaults ≡ some v
    → v.owner_user_id ≡ user_id
owner_is vault user_id db v keyed owned found =
    let (w, j, o) = exists_witness (is_owned vault user_id) db.vaults owned in
    let same =
      keyed_same id_of v w db.vaults keyed
        (find-In (λ (v : VaultRow). v.id == vault) v db.vaults found) j
        (ground (
          arith,
          find-eq-some (λ (v : VaultRow). v.id == vault) db.vaults v found,
          text_beq_iff v.id w.id,
          text_beq_iff v.id vault,
          text_beq_iff w.id vault,
        )) in
    ground (arith, ap (λ (x : VaultRow). x.owner_user_id) same)

-- The markers once the vault is retired: its own among them, and no more than the maximum.
abbrev Marks : Text → ℕ → List RetiredVault → Type 0
Marks vault user_id rs =
    (exists (λ (r : RetiredVault). r.id == vault && r.owner_user_id == user_id) rs ≡ true)
    × (length rs ≤ max_retired_vaults)

capacity_after :
    (p : RetiredVault → Bool) (kept : List RetiredVault) (r : RetiredVault)
    → length kept < max_retired_vaults
    → length (delete p kept ++ r ∷ []) ≤ max_retired_vaults
capacity_after p kept r room =
    omega (arith, length-append (delete p kept) (r ∷ []), length-delete p kept)

retire-Marks :
    (vault : Text) (user_id now : ℕ) (db : Db)
    → IsKeyed id_of db.vaults
    → exists (is_owned vault user_id) db.vaults ≡ true
    → OnOk
        (λ db'. (rs : List RetiredVault) × (db' ≡ with_retired rs db) × Marks vault user_id rs)
        (retire_vault_identity vault now db)
unfolding retire_vault_identity
retire-Marks vault user_id now db keyed owned =
    let P = λ (db' : Db).
      (rs : List RetiredVault) × (db' ≡ with_retired rs db) × Marks vault user_id rs in
    OnOk-require P _ _ _ λ v found. OnOk-ensure P _ _ _ λ room. OnOk-ok P _ (
      _,
      refl,
      (
        exists-append_right _ _ _
            (ground (arith, ==_refl vault, owner_is vault user_id db v keyed owned found)),
        capacity_after _ _ _ (ltb→lt _ _ room),
      ),
    )

-- By the answer: the vault is gone and retired with an exact meter, or nothing is written.
pub IsDeletion : ℕ → Text → Db → Bool → Db → Type 0
IsDeletion user_id vault db false db' = db' ≡ db
IsDeletion user_id vault db true db' =
    IsGone vault db db' × IsRetired vault user_id db' × IsMetered db'

module _ (vault : Text) (user_id : ℕ) (db : Db) (keyed : IsKeyed id_of db.vaults)
    (metered : IsMetered db) where
  deletes :
      (rs : List RetiredVault)
      → exists (is_owned vault user_id) db.vaults ≡ true
      → Marks vault user_id rs
      → IsDeletion user_id vault db true
          (delete_vaults (is_owned vault user_id) (with_retired rs db))
  unfolding delete_vaults is_retired_vault_for_user IsDeletion
  deletes rs owned (marked, capacity) = (
    delete_vaults-IsGone vault user_id db keyed owned rs,
    record { marked = marked; capacity = capacity },
    delete_vaults-IsMetered (is_owned vault user_id) (with_retired rs db) metered,
  )

  -- With vault ids as keys and an exact meter, a deletion that answers true leaves no row of the vault,
  -- its revisions or its memberships, those of every other vault as they were, the meter exact and
  -- the id marked as retired for the user, within 8,192 markers; answering false it writes nothing.
  pub delete_vault-IsDeletion :
      (token_hash : Option Text) (auth_now now : ℕ) (db' : Db) (done : Bool)
      → delete_vault user_id token_hash vault auth_now now db ≡ ok (done, db')
      → IsDeletion user_id vault db done db'
  delete_vault-IsDeletion token_hash auth_now now db' done e = deleted.at (done, db') e
    where
      P : Bool × Db → Type 0
      P out = IsDeletion user_id vault db out.0 out.1

      deleted : OnOk P (delete_vault user_id token_hash vault auth_now now db)
      deleted =
          unfold delete_vault IsDeletion in
          OnOk-bind P _ _ λ _ _.
            OnOk-branch P _ _ _ (λ _. OnOk-ok P _ refl)
              λ owned. OnOk-bind P _ _ λ retired r.
                let own : exists (is_owned vault user_id) db.vaults ≡ true =
                  ground (arith, owned) in
                let (rs, same, marks) =
                  (retire-Marks vault user_id now db keyed own).at retired r in
                OnOk-ok P _ (
                  subst
                    (λ (d : Db).
                      IsDeletion user_id vault db true (delete_vaults (is_owned vault user_id) d))
                    (sym same) (deletes rs own marks))
