-- ===== src/Accounts/Registration.antt =====
-- What self-registration may create, and that a change of credentials ends every session.
use blackglass_server.Base.{
  Option, ℕ, ◌+◌, ◌<◌, leb, ◌||◌, ◌≡◌, refl, true, false, not, List, [], ◌∷◌, ◌++◌, length, Text,
  ◌==◌, nat_eq, text_eq, arith, OnOk, OnOk-ok, OnOk-ensure, OnOk-bind, OnOk-branch, OnOk-require,
  ok,
}
use blackglass_server.Table.{update, count, exists, select}
use blackglass_server.Table.Laws.{count-append}
use blackglass_server.Auth.{CanonicalEmail, PasswordHash}
use blackglass_server.Database.{
  Db, User, SessionRow, active, disabled, Role, user, is_admin, max_users,
}
use blackglass_server.Accounts.{
  RegistrationResult, created, create_self_registered_user, insert_user, set_user_password,
  set_user_email, set_user_status, set_user_role, revoke_sessions_of, is_open_of, revoke,
}

-- By its answer: an ordinary, active account under the next number, with registration enabled and
-- room left, and no other account changed; or nothing written at all.
abbrev pub Registered : Db → RegistrationResult × Db → Type 0
Registered db (created id, db') =
    (db.settings.self_registration_enabled ≡ true)
    × (length db.users < max_users)
    × ((u : User) × (db'.users ≡ db.users ++ u ∷ [])
        × (u.id ≡ id)
        × (u.role ≡ user)
        × (u.status ≡ active))
    × (id ≡ db.users_sequence + 1)
    × (count is_admin db'.users ≡ count is_admin db.users)
    × (db'.sessions ≡ db.sessions)
Registered db (_, db') = db' ≡ db

inserts :
    (e : CanonicalEmail) (n password_hash : Text) (now : ℕ) (db : Db) (r : ℕ × Db)
    → not db.settings.self_registration_enabled ≡ false
    → (leb max_users (length db.users) || exists (λ u. u.email_canonical == e.canonical) db.users)
      ≡ false
    → insert_user e n password_hash now db ≡ ok r
    → Registered db (created r.0, r.1)
unfolding insert_user count
inserts e n password_hash now db r on room inserted =
    let P = λ (q : ℕ × Db). Registered db (created q.0, q.1) in
    (OnOk-ensure P _ _ _ λ _. OnOk-ok P _ (
      ground arith,
      ground arith,
      (_, refl, refl, refl, refl),
      refl,
      omega (arith, count-append is_admin db.users _),
      refl,
    )).at
      r inserted

module _ (parse : Text → Option PasswordHash) where
  registers :
      (email name password_hash : Text) (now : ℕ) (db : Db)
      → OnOk (Registered db) (create_self_registered_user parse email name password_hash now db)
  unfolding create_self_registered_user
  registers email name password_hash now db = OnOk-bind (Registered db) _ _ λ e _.
      OnOk-bind (Registered db) _ _ λ n _. OnOk-ensure (Registered db) _ _ _ λ _.
        OnOk-branch (Registered db) _ _ _ (λ _. OnOk-ok (Registered db) _ refl)
          λ on.
            OnOk-branch (Registered db) _ _ _ (λ _. OnOk-ok (Registered db) _ refl)
              λ room.
                OnOk-branch (Registered db) _ _ _ (λ _. OnOk-ok (Registered db) _ refl)
                  λ _. OnOk-bind (Registered db) _ _ λ r inserted.
                    OnOk-ok (Registered db) _ (inserts e n password_hash now db r on room inserted)

  -- Self-registration answers `created` only while it is enabled and fewer than 256 accounts exist,
  -- and then it has appended one active account without the administrator role and changed no other
  -- account, no session and not the number of administrators; with any other answer nothing is written.
  pub create_self_registered_user-Registered :
      (email name password_hash : Text) (now : ℕ) (db db' : Db) (result : RegistrationResult)
      → create_self_registered_user parse email name password_hash now db ≡ ok (result, db')
      → Registered db (result, db')
  create_self_registered_user-Registered email name password_hash now db db' result e =
      (registers email name password_hash now db).at (result, db') e

-- Revoking the sessions of a user leaves none of them open, and the rows of all other users as they were.
pub record IsRevoked (user_id : ℕ) (db db' : Db) : Type 0 where
  pub none_open : count (is_open_of user_id) db'.sessions ≡ 0
  pub others_kept :
      select (λ s. not (s.user_id == user_id)) db'.sessions
      ≡ select (λ s. not (s.user_id == user_id)) db.sessions

module _ (now user_id : ℕ) where
  none_open_after :
      (ss : List SessionRow)
      → count (is_open_of user_id) (update (is_open_of user_id) (revoke now) ss) ≡ 0
  unfolding count update
  none_open_after [] = refl
  none_open_after (s ∷ ss) = ground (arith, none_open_after ss)

  others_after :
      (ss : List SessionRow)
      → select (λ s. not (s.user_id == user_id)) (update (is_open_of user_id) (revoke now) ss)
        ≡ select (λ s. not (s.user_id == user_id)) ss
  unfolding select update
  others_after [] = refl
  others_after (s ∷ ss) = ground (arith, others_after ss)

  pub revoke_sessions_of-IsRevoked :
      (db db' : Db)
      → db'.sessions ≡ db.sessions
      → IsRevoked user_id db (revoke_sessions_of now user_id db')
  unfolding revoke_sessions_of
  revoke_sessions_of-IsRevoked db db' e = record {
    none_open = none_open_after db'.sessions;
    others_kept = rw (← e) (others_after db'.sessions);
  }

-- The changes of an account that must end its sessions.
pub data CredentialChange (parse : Text → Option PasswordHash) (user_id now : ℕ) (db db' : Db)
    : Type 0 where
  new_password :
      (h : Text)
      → set_user_password parse user_id h now db ≡ ok db'
      → CredentialChange parse user_id now db db'
  new_email :
      (value : Text)
      → set_user_email user_id value now db ≡ ok db'
      → CredentialChange parse user_id now db db'
  new_status :
      set_user_status user_id disabled now db ≡ ok db' → CredentialChange parse user_id now db db'
  new_role :
      (role : Role)
      → set_user_role user_id role now db ≡ ok db'
      → CredentialChange parse user_id now db db'

module _ (parse : Text → Option PasswordHash) (user_id now : ℕ) (db : Db) where
  revoked :
      (us : List User)
      → IsRevoked user_id db (revoke_sessions_of now user_id (record db { users = us }))
  revoked us = revoke_sessions_of-IsRevoked now user_id db (record db { users = us }) refl

  password_revokes :
      (h : Text) → OnOk (IsRevoked user_id db) (set_user_password parse user_id h now db)
  unfolding set_user_password
  password_revokes h =
      let P = IsRevoked user_id db in
      OnOk-ensure P _ _ _ λ _. OnOk-ensure P _ _ _ λ _. OnOk-ok P _ (revoked _)

  email_revokes : (v : Text) → OnOk (IsRevoked user_id db) (set_user_email user_id v now db)
  unfolding set_user_email
  email_revokes v =
      let P = IsRevoked user_id db in
      OnOk-bind P _ _
        λ e _. OnOk-ensure P _ _ _ λ _. OnOk-ensure P _ _ _ λ _. OnOk-ok P _ (revoked _)

  status_revokes : OnOk (IsRevoked user_id db) (set_user_status user_id disabled now db)
  unfolding set_user_status
  status_revokes =
      let P = IsRevoked user_id db in
      OnOk-require P _ _ _ λ u _. OnOk-ensure P _ _ _ λ _. OnOk-ok P _ (revoked _)

  role_revokes : (r : Role) → OnOk (IsRevoked user_id db) (set_user_role user_id r now db)
  unfolding set_user_role
  role_revokes r =
      let P = IsRevoked user_id db in
      OnOk-require P _ _ _ λ u _. OnOk-ensure P _ _ _ λ _. OnOk-ok P _ (revoked _)

  -- A change of an account's password, email or role, and its disabling, leave none of its sessions
  -- open and the row of every session of any other user as it was.
  pub CredentialChange-IsRevoked :
      (db' : Db) → CredentialChange parse user_id now db db' → IsRevoked user_id db db'
  CredentialChange-IsRevoked db' (new_password h e) = (password_revokes h).at db' e
  CredentialChange-IsRevoked db' (new_email v e) = (email_revokes v).at db' e
  CredentialChange-IsRevoked db' (new_status e) = status_revokes.at db' e
  CredentialChange-IsRevoked db' (new_role r e) = (role_revokes r).at db' e
