-- ===== src/Accounts.antt =====
-- The accounts of apps/server-rust/src/db.rs: creation, self-registration, and the changes of email,
-- name, password, status and role. A transaction that raises is rolled back, so an operation
-- returns a new database only with `ok`. `now` is what `now_ms()` reads.
pub mod Admins
pub mod Registration
use blackglass_server.Base.{
  ℕ, suc, ◌+◌, ◌*◌, Bool, true, false, not, ◌&&◌, ◌||◌, Option, none, some, List, [], ◌∷◌, ◌++◌,
  map, take, Text, ◌==◌, nat_eq, text_eq, is_none, is_some, ltb, leb, max, length, Outcome, ok, err,
  Error, ◌>>=◌, ◌>>◌, ensure, require, branch, weak_password_hash, user_limit_reached,
  user_sequence_exhausted, user_not_found, administrator_authorization_changed, last_administrator,
  constraint,
}
use blackglass_server.Table.{select, update, count, exists, find}
use blackglass_server.Auth.{
  CanonicalEmail, PasswordHash, canonicalize_email, normalize_display_name,
  password_hash_is_production_grade,
}
use blackglass_server.Database.{
  Db, User, Status, active, disabled, Role, admin, user, ServerSettings, SessionRow, VaultRow,
  is_active, is_admin, is_active_admin, max_users, max_js_safe_integer,
}

-- UPDATE sessions SET revoked_at=MAX(now,created_at) WHERE user_id=? AND revoked_at IS NULL
abbrev pub revoke : ℕ → SessionRow → SessionRow
revoke now s = record s { revoked_at = some (max now s.created_at) }

abbrev pub is_open_of : ℕ → SessionRow → Bool
is_open_of user_id s = s.user_id == user_id && is_none s.revoked_at

unfoldable pub revoke_sessions_of : ℕ → ℕ → Db → Db
revoke_sessions_of now user_id db = record db {
  sessions = update (is_open_of user_id) (revoke now) db.sessions;
}

-- INSERT INTO users(...,'active','user',...): the key `email_canonical` is unique.
unfoldable pub insert_user : CanonicalEmail → Text → Text → ℕ → Db → Outcome (ℕ × Db)
insert_user email name password_hash now db = do
  ensure (not (exists (λ u. u.email_canonical == email.canonical) db.users)) constraint
  let id = db.users_sequence + 1
  let row : User = record {
    id = id;
    email_canonical = email.canonical;
    email = email.display;
    name = name;
    password_hash = password_hash;
    status = active;
    role = user;
    created_at = now;
    updated_at = now;
  }
  ok (id, record db { users = db.users ++ row ∷ []; users_sequence = id })

pub data RegistrationResult : Type 0 where
  created : ℕ → RegistrationResult
  registration_disabled : RegistrationResult
  registration_unavailable : RegistrationResult

pub record UserSummary : Type 0 where
  pub id : ℕ
  pub email : Text
  pub name : Text
  pub status : Status
  pub role : Role
  pub owned_vaults : ℕ
  pub sessions : ℕ

module _ (parse : Text → Option PasswordHash) where
  unfoldable pub create_user : Text → Text → Text → ℕ → Db → Outcome (ℕ × Db)
  create_user email name password_hash now db = do
    e ← canonicalize_email email
    n ← normalize_display_name name
    ensure (password_hash_is_production_grade parse password_hash) weak_password_hash
    ensure (ltb (length db.users) max_users) user_limit_reached
    ensure (ltb db.users_sequence max_js_safe_integer) user_sequence_exhausted
    insert_user e n password_hash now db

  -- The early returns roll the transaction back: nothing is written.
  unfoldable pub create_self_registered_user :
      Text → Text → Text → ℕ → Db → Outcome (RegistrationResult × Db)
  create_self_registered_user email name password_hash now db = do
    e ← canonicalize_email email
    n ← normalize_display_name name
    ensure (password_hash_is_production_grade parse password_hash) weak_password_hash
    let taken = exists (λ u. u.email_canonical == e.canonical) db.users
    branch (not db.settings.self_registration_enabled) (ok (registration_disabled, db)) (
        branch (leb max_users (length db.users) || taken) (ok (registration_unavailable, db)) (
          branch (leb max_js_safe_integer db.users_sequence) (ok (registration_unavailable, db))
            do r ← insert_user e n password_hash now db; ok (created r.0, r.1)))

  unfoldable pub set_user_password : ℕ → Text → ℕ → Db → Outcome Db
  unfolding revoke_sessions_of
  set_user_password user_id password_hash now db = do
    ensure (password_hash_is_production_grade parse password_hash) weak_password_hash
    ensure (count (λ u. u.id == user_id) db.users == 1) user_not_found
    ok (
        revoke_sessions_of now user_id (record db {
          users =
              update (λ u. u.id == user_id)
                (λ u. record u { password_hash = password_hash; updated_at = now }) db.users;
        }))

unfoldable pub list_users : Db → List UserSummary
list_users db =
    map
      (λ (u : User). record {
        id = u.id;
        email = u.email;
        name = u.name;
        status = u.status;
        role = u.role;
        owned_vaults = count (λ (v : VaultRow). v.owner_user_id == u.id) db.vaults;
        sessions = count (λ (s : SessionRow). s.user_id == u.id) db.sessions;
      })
      (take max_users db.users)

unfoldable pub self_registration_enabled : Db → Bool
self_registration_enabled db = db.settings.self_registration_enabled

unfoldable pub set_self_registration_enabled : ℕ → Bool → ℕ → Db → Outcome Db
set_self_registration_enabled administrator_id enabled now db = do
  ensure (exists (λ u. u.id == administrator_id && is_active_admin u) db.users)
      administrator_authorization_changed
  ok (record db {
    settings = record {
      self_registration_enabled = enabled;
      updated_at = now;
      updated_by = administrator_id;
    };
  })

-- The unique key refuses an address that another account holds.
unfoldable pub set_user_email : ℕ → Text → ℕ → Db → Outcome Db
unfolding revoke_sessions_of
set_user_email user_id value now db = do
  email ← canonicalize_email value
  ensure
      (not (
        exists (λ u. not (u.id == user_id) && u.email_canonical == email.canonical) db.users
        && exists (λ u. u.id == user_id) db.users))
      constraint
  ensure (count (λ u. u.id == user_id) db.users == 1) user_not_found
  ok (
      revoke_sessions_of now user_id (record db {
        users =
            update (λ u. u.id == user_id)
              (λ u. record u {
                email_canonical = email.canonical;
                email = email.display;
                updated_at = now;
              })
              db.users;
      }))

unfoldable pub set_user_name : ℕ → Text → ℕ → Db → Outcome Db
set_user_name user_id value now db = do
  name ← normalize_display_name value
  ensure (count (λ u. u.id == user_id) db.users == 1) user_not_found
  ok (record db {
    users =
        update (λ u. u.id == user_id) (λ u. record u { name = name; updated_at = now }) db.users;
  })

-- The argument is one of the two texts that the guard lets through.
unfoldable pub set_user_status : ℕ → Status → ℕ → Db → Outcome Db
unfolding revoke_sessions_of
set_user_status user_id disabled now db = do
  u ← require (find (λ u. u.id == user_id) db.users) user_not_found
  ensure (not (is_admin u && leb (count is_active_admin db.users) 1)) last_administrator
  ok (
      revoke_sessions_of now user_id (record db {
        users =
            update (λ u. u.id == user_id) (λ u. record u { status = disabled; updated_at = now })
              db.users;
      }))
set_user_status user_id active now db = do
  ensure (count (λ u. u.id == user_id) db.users == 1) user_not_found
  ok (record db {
    users =
        update (λ u. u.id == user_id) (λ u. record u { status = active; updated_at = now })
          db.users;
  })

abbrev is_user_role : Role → Bool
is_user_role r = elim r [ user ↦ true | admin ↦ false ]

unfoldable pub set_user_role : ℕ → Role → ℕ → Db → Outcome Db
unfolding revoke_sessions_of
set_user_role user_id role now db = do
  u ← require (find (λ u. u.id == user_id) db.users) user_not_found
  ensure
      (not
        (is_admin u && is_user_role role && is_active u && leb (count is_active_admin db.users) 1))
      last_administrator
  ok (
      revoke_sessions_of now user_id (record db {
        users =
            update (λ u. u.id == user_id) (λ u. record u { role = role; updated_at = now })
              db.users;
      }))

-- Returns the number of sessions that it has revoked.
unfoldable pub revoke_user_sessions : ℕ → ℕ → Db → Outcome (ℕ × Db)
unfolding revoke_sessions_of
revoke_user_sessions user_id now db = do
  ensure (exists (λ u. u.id == user_id) db.users) user_not_found
  ok (count (is_open_of user_id) db.sessions, revoke_sessions_of now user_id db)
