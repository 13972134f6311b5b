-- ===== src/SignIn.antt =====
-- Sign-in and registration in apps/server-rust/src/server.rs (`authenticate_credentials`,
-- `register_account`) and `signin_candidate` of db.rs: the source limit, the capacity for password
-- work, and the database. Argon2 is another crate: `verify` and `hash` are parameters.
pub mod Candidates
pub mod Uniform
pub mod Roundtrip
use blackglass_server.Base.{
  ℕ, Bool, true, false, not, ◌&&◌, Option, none, some, List, [], Text, ◌>>=◌, ◌==◌, nat_eq, text_eq,
  Outcome, ok, err, Error, if◌then◌else◌,
}
use blackglass_server.Table.{find}
use blackglass_server.Database.{Db, User, Role, is_active}
use blackglass_server.Auth.{
  CanonicalEmail, PasswordHash, canonicalize_email, normalize_display_name,
  validate_self_registered_password,
}
use blackglass_server.Accounts.{
  RegistrationResult, registration_disabled, create_self_registered_user, self_registration_enabled,
}
use blackglass_server.Limits.Source.{Entries, admit_signin, refund_successful_signin}

pub record UserCredential : Type 0 where
  pub id : ℕ
  pub email : Text
  pub name : Text
  pub password_hash : Text
  pub active : Bool
  pub role : Role

abbrev pub credential : User → UserCredential
credential u = record {
  id = u.id;
  email = u.email;
  name = u.name;
  password_hash = u.password_hash;
  active = is_active u;
  role = u.role;
}

abbrev pub credential_of : Option User → Option UserCredential
credential_of none = none
credential_of (some u) = some (credential u)

unfoldable pub signin_candidate : Text → Db → Option UserCredential
signin_candidate canonical db =
    credential_of (find (λ (u : User). u.email_canonical == canonical) db.users)

-- What the waiters, the queue and the memory for one check of a password come to.
pub data Capacity : Type 0 where
  granted waiters_full queue_timed_out memory_reached : Capacity

pub data SignIn : Type 0 where
  signed_in : UserCredential → SignIn
  too_many_attempts try_again_later invalid_email_or_password : SignIn

abbrev pub canonical_of : Outcome CanonicalEmail → Option Text
canonical_of (ok e) = some e.canonical
canonical_of (err _) = none

abbrev pub canonical_email : Option Text → Option Text
canonical_email none = none
canonical_email (some email) = canonical_of (canonicalize_email email)

abbrev pub candidate_of : Option Text → Db → Option UserCredential
candidate_of none db = none
candidate_of (some canonical) db = signin_candidate canonical db

-- The hash that the password is checked against: the dummy's where there is no active account.
abbrev pub checked_hash : Text → Option UserCredential → Text
checked_hash dummy none = dummy
checked_hash dummy (some u) = if u.active then u.password_hash else dummy

abbrev pub password_or_empty : Option Text → Text
password_or_empty none = []
password_or_empty (some p) = p

-- `candidate.filter(active && password_ok)`
abbrev pub accepted : Bool → Option UserCredential → Option UserCredential
accepted password_ok none = none
accepted password_ok (some u) = if u.active && password_ok then some u else none

module _ (verify : Text → Text → Bool) (dummy : Text) where
  unfoldable pub check_password :
      ℕ → ℕ → Option Text → Option Text → Db → Entries → SignIn × Entries
  check_password source later email password db entries =
      let candidate = candidate_of (canonical_email email) db in
      let password_ok = verify (password_or_empty password) (checked_hash dummy candidate) in
      elim (accepted password_ok candidate) [
        | none ↦ (invalid_email_or_password, entries)
        | some u ↦ (signed_in u, refund_successful_signin source later entries)
      ]

  -- `now` is the instant of the admission, `later` that of the refund.
  unfoldable pub authenticate_credentials :
      ℕ → ℕ → ℕ → Capacity → Option Text → Option Text → Db → Entries → SignIn × Entries
  unfolding check_password
  authenticate_credentials source now later capacity email password db entries =
      let (admitted, counted) = admit_signin source now entries in
      if not admitted then (too_many_attempts, counted) else elim capacity [
        | granted ↦ check_password source later email password db counted
        | _ ↦ (try_again_later, counted)
      ]

pub data Registration : Type 0 where
  result : RegistrationResult → Registration
  invalid : Error → Registration
  rate_limited unavailable : Registration

abbrev pub registered : Outcome (RegistrationResult × Db) → Db → Registration × Db
registered (err e) db = (unavailable, db)
registered (ok (r, db')) db = (result r, db')

-- The three checks of the fields, in their order.
abbrev pub validated : Text → Text → Text → Outcome (Unit {0})
validated email name password = canonicalize_email email >>= λ _.
    normalize_display_name name >>= λ _. validate_self_registered_password password

module _ (parse : Text → Option PasswordHash) (hash : Text → Text) where
  unfoldable pub admit_registration :
      ℕ → ℕ → Capacity → Text → Text → Text → ℕ → Db → Entries → Registration × Db × Entries
  admit_registration source now capacity email name password clock db entries =
      let (admitted, counted) = admit_signin source now entries in
      let (answer, db') =
        registered (create_self_registered_user parse email name (hash password) clock db) db in
      if not admitted
      then (rate_limited, db, counted)
      else elim capacity [ granted ↦ (answer, db', counted) | _ ↦ (unavailable, db, counted) ]

  unfoldable pub register_account :
      ℕ → ℕ → Capacity → Text → Text → Text → ℕ → Db → Entries → Registration × Db × Entries
  unfolding admit_registration
  register_account source now capacity email name password clock db entries =
      elim (validated email name password) [
        | err e ↦ (invalid e, db, entries)
        | ok _ ↦
            if not (self_registration_enabled db)
            then (result registration_disabled, db, entries)
            else admit_registration source now capacity email name password clock db entries
      ]
