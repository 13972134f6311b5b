-- ===== src/SignIn/Roundtrip.antt =====
-- Who has registered can sign in.
use blackglass_server.Base.{
  ℕ, ◌≡◌, refl, Bool, true, false, not, Option, some, Text, ◌==◌, nat_eq, text_eq, ==_refl, Outcome,
  ok, err, arith, if◌then◌else◌, Bool-cases, inl, inr, OnOk, OnOk-ok, OnOk-ensure, OnOk-bind,
  OnOk-branch,
}
use blackglass_server.Table.{find, exists}
use blackglass_server.Table.Keys.{IsFresh-exists}
use blackglass_server.Table.Rows.{find-append_new}
use blackglass_server.Database.{Db, User, is_active}
use blackglass_server.Auth.{CanonicalEmail, PasswordHash, canonicalize_email}
use blackglass_server.Accounts.{
  RegistrationResult, created, registration_disabled, registration_unavailable,
  create_self_registered_user, insert_user, self_registration_enabled,
}
use blackglass_server.Limits.Source.{Entries, admit_signin}
use blackglass_server.SignIn.{
  UserCredential, credential, signin_candidate, Capacity, granted, waiters_full, queue_timed_out,
  memory_reached, signed_in, check_password, authenticate_credentials, Registration, result,
  invalid, register_account, admit_registration, registered, validated,
}

-- The new account, as a sign-in finds it.
pub record IsFound (email password_hash : Text) (id : ℕ) (db : Db) : Type 0 where
  pub address : CanonicalEmail
  pub canonical : canonicalize_email email ≡ ok address
  pub row : User
  pub found : find (λ (x : User). x.email_canonical == address.canonical) db.users ≡ some row
  pub numbered : row.id ≡ id
  pub is_open : is_active row ≡ true
  pub hashed : row.password_hash ≡ password_hash

abbrev IsStored : Text → Text → RegistrationResult × Db → Type 0
IsStored email password_hash (created id, db) = IsFound email password_hash id db
IsStored email password_hash (_, db) = Unit

inserted-IsFound :
    (email name password_hash : Text) (e : CanonicalEmail) (now : ℕ) (db : Db) (r : ℕ × Db)
    → canonicalize_email email ≡ ok e
    → insert_user e name password_hash now db ≡ ok r
    → IsFound email password_hash r.0 r.1
unfolding insert_user
inserted-IsFound email name password_hash e now db r canonical inserted =
    let P = λ (q : ℕ × Db). IsFound email password_hash q.0 q.1 in
    (OnOk-ensure P (not (exists (λ (x : User). x.email_canonical == e.canonical) db.users)) _ _
        λ free. OnOk-ok P _ record {
          address = e;
          canonical = canonical;
          row = _;
          found =
              find-append_new (λ (x : User). x.email_canonical == e.canonical) db.users _
                (IsFresh-exists (λ (x : User). x.email_canonical) e.canonical db.users
                  (ground arith))
                (==_refl e.canonical);
          numbered = refl;
          is_open = refl;
          hashed = refl;
        }).at
      r inserted

module _ (parse : Text → Option PasswordHash) where
  stores :
      (email name password_hash : Text) (now : ℕ) (db : Db)
      → OnOk
          (IsStored email password_hash)
          (create_self_registered_user parse email name password_hash now db)
  unfolding create_self_registered_user
  stores email name password_hash now db =
      let P = IsStored email password_hash in
      OnOk-bind P _ _ λ e canonical. OnOk-bind P _ _ λ n _. OnOk-ensure P _ _ _ λ _.
        OnOk-branch P _ _ _ (λ _. OnOk-ok P _ tt)
          λ _.
            OnOk-branch P _ _ _ (λ _. OnOk-ok P _ tt)
              λ _.
                OnOk-branch P _ _ _ (λ _. OnOk-ok P _ tt)
                  λ _. OnOk-bind P _ _ λ r inserted.
                    OnOk-ok P _
                      (inserted-IsFound email n password_hash e now db r canonical inserted)

found_signs_in :
    (verify : Text → Text → Bool) (dummy email password password_hash : Text) (id source later : ℕ)
    (db : Db) (entries : Entries)
    → IsFound email password_hash id db
    → verify password password_hash ≡ true
    → (u : UserCredential) × ((check_password verify dummy source later
          (some email)
          (some password)
          db
          entries).0
        ≡ signed_in u)
      × (u.id ≡ id)
unfolding check_password signin_candidate
found_signs_in verify dummy email password password_hash id source later db entries f verified = (
  credential f.row,
  ground (arith, f.canonical, f.found, f.is_open, f.hashed, verified),
  f.numbered,
)

module _ (parse : Text → Option PasswordHash) (hash : Text → Text) where
  made :
      (answer : Outcome (RegistrationResult × Db)) (db db' : Db) (email password_hash : Text)
      (id : ℕ)
      → OnOk (IsStored email password_hash) answer
      → registered answer db ≡ (result (created id), db')
      → IsFound email password_hash id db'
  made (err e) db db' email password_hash id h q = absurd (ground (arith, q))
  made (ok (created j, out)) db db' email password_hash id h q =
      let number : j ≡ id = ground (arith, q) in
      let same : out ≡ db' = ground (arith, q) in rw (← number, ← same) (h.at (created j, out) refl)
  made (ok (registration_disabled, out)) db db' email password_hash id h q =
      absurd (ground (arith, q))
  made (ok (registration_unavailable, out)) db db' email password_hash id h q =
      absurd (ground (arith, q))

  Registers : Text → Text → Text → ℕ → Db → Db → ℕ → Type 0
  Registers email name password clock db db' id =
      registered (create_self_registered_user parse email name (hash password) clock db) db
      ≡ (result (created id), db')

  admission_makes :
      (source now : ℕ) (capacity : Capacity) (email name password : Text) (clock : ℕ) (db db' : Db)
      (entries entries' : Entries) (id : ℕ)
      → admit_registration parse hash source now capacity email name password clock db entries
        ≡ (result (created id), db', entries')
      → Registers email name password clock db db' id
  unfolding admit_registration Registers
  admission_makes source now granted email name password clock db db' entries entries' id e =
      elim (Bool-cases (admit_signin source now entries).0) [
        | inl admitted ↦ ground (arith, admitted, e)
        | inr refused ↦ absurd (ground (arith, refused, e))
      ]
  admission_makes source now waiters_full email name password clock db db' entries entries' id e =
      absurd (ground (arith, e))
  admission_makes source now queue_timed_out email name password clock db db' entries entries' id
        e =
      absurd (ground (arith, e))
  admission_makes source now memory_reached email name password clock db db' entries entries' id e =
      absurd (ground (arith, e))

  registers :
      (source now : ℕ) (capacity : Capacity) (email name password : Text) (clock : ℕ) (db db' : Db)
      (entries entries' : Entries) (id : ℕ)
      → register_account parse hash source now capacity email name password clock db entries
        ≡ (result (created id), db', entries')
      → Registers email name password clock db db' id
  unfolding register_account
  registers source now capacity email name password clock db db' entries entries' id e =
      at_valid (validated email name password) e
    where
      at_enabled :
          (b : Bool)
          → (if not b
              then (result registration_disabled, db, entries)
              else admit_registration parse hash source now capacity email name password clock db
                  entries)
            ≡ (result (created id), db', entries')
          → Registers email name password clock db db' id
      at_enabled false q = absurd cc
      at_enabled true q =
          admission_makes source now capacity email name password clock db db' entries entries' id q

      at_valid :
          (o : Outcome (Unit {0}))
          → (elim o as (λ _. Registration × Db × Entries) [
            | err x ↦ (invalid x, db, entries)
            | ok _ ↦
                if not (self_registration_enabled db)
                then (result registration_disabled, db, entries)
                else admit_registration parse hash source now capacity email name password clock db
                    entries
          ])
            ≡ (result (created id), db', entries')
          → Registers email name password clock db db' id
      at_valid (err x) q = absurd cc
      at_valid (ok _) q = at_enabled (self_registration_enabled db) q

  -- An account that has registered can sign in with its address and its password, if the hash of the
  -- password verifies against it: from a source that is admitted, and with capacity for the check,
  -- the sign-in after the registration is answered by the account that was created.
  pub registered_signs_in :
      (verify : Text → Text → Bool) (dummy : Text) (source now later clock id : ℕ)
      (capacity : Capacity) (email name password : Text) (db db' : Db)
      (entries entries' entries'' : Entries) (from at : ℕ)
      → register_account parse hash source now capacity email name password clock db entries
        ≡ (result (created id), db', entries')
      → verify password (hash password) ≡ true
      → (admit_signin from at entries'').0 ≡ true
      → (u : UserCredential) × ((authenticate_credentials verify dummy from at later granted
            (some email)
            (some password)
            db'
            entries'').0
          ≡ signed_in u)
        × (u.id ≡ id)
  unfolding authenticate_credentials Registers
  registered_signs_in verify dummy source now later clock id capacity email name password db db'
        entries entries' entries'' from at e verified admitted =
      let stored =
        made _ db db' email (hash password) id (stores parse email name (hash password) clock db)
          (registers source now capacity email name password clock db db' entries entries' id e) in
      rw admitted (
        found_signs_in verify dummy email password (hash password) id from later db'
          (admit_signin from at entries'').1 stored verified)
