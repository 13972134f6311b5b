-- ===== src/Accounts/Admins.antt =====
-- No change of an account leaves the server without an active administrator.
use blackglass_server.Base.{
  user_not_found, last_administrator, OnOk, OnOk-ok, OnOk-ensure, OnOk-require, ℕ, ◌<◌, ◌≡◌, refl,
  true, false, not, ◌&&◌, some, List, ◌==◌, nat_eq, leb, arith, ok, Bool-cases, inl, inr,
}
use blackglass_server.Table.{update, count, find}
use blackglass_server.Table.Laws.{count-update_ge, count-update_drop}
use blackglass_server.Table.Keys.{
  IsKeyed, IsKeyed-update, count-keyed, found_is_only, count-update_found,
}
use blackglass_server.Database.{
  Db, User, Status, active, disabled, Role, admin, user, is_active, is_admin, is_active_admin,
}
use blackglass_server.Accounts.{set_user_status, set_user_role, is_user_role}

-- The primary key of `users`, and an administrator who can sign in.
pub record HasAdmin (db : Db) : Type 0 where
  pub keyed : IsKeyed (λ (u : User). u.id) db.users
  pub administered : 0 < count is_active_admin db.users

-- A change of the one found row keeps an active administrator if that row is none, or is not the
-- last one.
update_keeps_admin :
    (k : ℕ) (f : User → User) (us : List User) (x : User)
    → IsKeyed (λ (u : User). u.id) us
    → find (λ u. u.id == k) us ≡ some x
    → (is_active_admin x && leb (count is_active_admin us) 1) ≡ false
    → 0 < count is_active_admin us
    → 0 < count is_active_admin (update (λ u. u.id == k) f us)
update_keeps_admin k f us x keyed found safe some_admin = elim (Bool-cases (is_active_admin x)) [
  | inl is_one ↦
      let many : leb (count is_active_admin us) 1 ≡ false = rw is_one at safe in
      ground (
        arith,
        count-update_drop (λ (u : User). u.id == k) is_active_admin f us,
        count-keyed (λ (u : User). u.id) k us keyed,
      )
  | inr is_none ↦ omega (
    arith,
    count-update_found (λ (u : User). u.id) k is_active_admin f us x is_none
        (found_is_only (λ (u : User). u.id) k us x keyed found),
  )
]

-- A change that leaves active administrators active administrators keeps one.
update_raises_admin :
    (k : ℕ) (f : User → User) (us : List User)
    → ((u : User) → is_active_admin u ≡ true → is_active_admin (f u) ≡ true)
    → 0 < count is_active_admin us
    → 0 < count is_active_admin (update (λ u. u.id == k) f us)
update_raises_admin k f us up h =
    omega (arith, count-update_ge (λ (u : User). u.id == k) is_active_admin f us (λ u _. up u))

activated :
    (now : ℕ) (u : User)
    → is_active_admin u ≡ true
    → is_active_admin (record u { status = active; updated_at = now }) ≡ true
activated now u h = ground arith

promoted :
    (now : ℕ) (u : User)
    → is_active_admin u ≡ true
    → is_active_admin (record u { role = admin; updated_at = now }) ≡ true
promoted now u h = ground arith

not_last :
    (u : User) (us : List User)
    → not (is_admin u && leb (count is_active_admin us) 1) ≡ true
    → (is_active_admin u && leb (count is_active_admin us) 1) ≡ false
not_last u us h = ground arith

not_last_active :
    (u : User) (us : List User)
    → not (is_admin u && is_user_role user && is_active u && leb (count is_active_admin us) 1)
      ≡ true
    → (is_active_admin u && leb (count is_active_admin us) 1) ≡ false
not_last_active u us h = ground arith

set_user_status_keeps :
    (user_id : ℕ) (status : Status) (now : ℕ) (db : Db)
    → HasAdmin db
    → OnOk HasAdmin (set_user_status user_id status now db)
unfolding set_user_status
set_user_status_keeps user_id active now db h = OnOk-ensure HasAdmin _ user_not_found _ λ _.
    OnOk-ok HasAdmin _ (record {
      keyed = IsKeyed-update (λ (u : User). u.id) _ _ db.users (λ u. refl) h.keyed;
      administered = update_raises_admin user_id _ db.users (activated now) h.administered;
    })
set_user_status_keeps user_id disabled now db h =
    OnOk-require HasAdmin _ user_not_found _ λ u found.
      OnOk-ensure HasAdmin _ last_administrator _ λ guarded. OnOk-ok HasAdmin _ (record {
        keyed = IsKeyed-update (λ (u : User). u.id) _ _ db.users (λ u. refl) h.keyed;
        administered =
            update_keeps_admin user_id _ db.users u h.keyed found (not_last u db.users guarded)
              h.administered;
      })

set_user_role_keeps :
    (user_id : ℕ) (role : Role) (now : ℕ) (db : Db)
    → HasAdmin db
    → OnOk HasAdmin (set_user_role user_id role now db)
unfolding set_user_role
set_user_role_keeps user_id admin now db h = OnOk-require HasAdmin _ user_not_found _ λ u found.
    OnOk-ensure HasAdmin _ last_administrator _ λ guarded. OnOk-ok HasAdmin _ (record {
      keyed = IsKeyed-update (λ (u : User). u.id) _ _ db.users (λ u. refl) h.keyed;
      administered = update_raises_admin user_id _ db.users (promoted now) h.administered;
    })
set_user_role_keeps user_id user now db h = OnOk-require HasAdmin _ user_not_found _ λ u found.
    OnOk-ensure HasAdmin _ last_administrator _ λ guarded. OnOk-ok HasAdmin _ (record {
      keyed = IsKeyed-update (λ (u : User). u.id) _ _ db.users (λ u. refl) h.keyed;
      administered =
          update_keeps_admin user_id _ db.users u h.keyed found (not_last_active u db.users guarded)
            h.administered;
    })

-- A change of any account's status, to either status, keeps an active administrator and keeps the
-- account numbers distinct.
pub set_user_status-HasAdmin :
    (user_id : ℕ) (status : Status) (now : ℕ) (db db' : Db)
    → HasAdmin db
    → set_user_status user_id status now db ≡ ok db'
    → HasAdmin db'
set_user_status-HasAdmin user_id status now db db' h e =
    (set_user_status_keeps user_id status now db h).at db' e

-- A change of any account's role, to either role, keeps an active administrator and keeps the
-- account numbers distinct.
pub set_user_role-HasAdmin :
    (user_id : ℕ) (role : Role) (now : ℕ) (db db' : Db)
    → HasAdmin db
    → set_user_role user_id role now db ≡ ok db'
    → HasAdmin db'
set_user_role-HasAdmin user_id role now db db' h e =
    (set_user_role_keeps user_id role now db h).at db' e
