-- ===== src/Sessions.antt =====
-- The sessions of apps/server-rust/src/db.rs: issue, authentication, renewal and revocation. The
-- random token and its SHA-256 hash are other crates': `new_token` and `hash_of` are arguments.
pub mod Issue
pub mod Renewal
pub mod Ended
use blackglass_server.Base.{
  ℕ, suc, ◌+◌, ◌*◌, ◌-◌, ◌^◌, ◌/◌, min, Bool, true, false, not, ◌&&◌, ◌||◌, Option, none, some,
  List, [], ◌∷◌, ◌++◌, Text, ◌==◌, nat_eq, text_eq, is_none, is_some, ltb, leb, max, length, all,
  within, Outcome, ok, err, ◌>>=◌, ◌>>◌, ensure, branch, if◌then◌else◌, session_limit_reached,
  user_session_limit_reached, user_unavailable, mutation_unauthorized, constraint,
}
use blackglass_server.Table.{select, delete, update, count, exists, find}
use blackglass_server.Database.{
  Db, User, Role, SessionRow, VaultRow, Membership, is_active, is_active_user, is_live,
  is_active_member, max_sessions, max_sessions_per_user,
}
use blackglass_server.Accounts.{revoke}

abbrev pub is_expired_or_revoked : ℕ → SessionRow → Bool
is_expired_or_revoked now s = leb s.expires_at now || is_some s.revoked_at

abbrev pub is_current_of : ℕ → ℕ → SessionRow → Bool
is_current_of user_id now s = s.user_id == user_id && is_none s.revoked_at && ltb now s.expires_at

-- The hash is the primary key of the table.
unfoldable pub issue_session_for_user : (Text → Text) → Text → ℕ → ℕ → ℕ → Db → Outcome (Text × Db)
issue_session_for_user hash_of token user_id ttl_secs now db = do
  let hash = hash_of token
  let kept = delete (is_expired_or_revoked now) db.sessions
  ensure (ltb (length kept) max_sessions) session_limit_reached
  ensure (exists (is_active_user user_id) db.users) user_unavailable
  ensure (ltb (count (is_current_of user_id now) kept) max_sessions_per_user)
      user_session_limit_reached
  ensure (not (exists (λ s. s.token_hash == hash) kept)) constraint
  let row : SessionRow = record {
    token_hash = hash;
    user_id = user_id;
    created_at = now;
    expires_at = now + ttl_secs * 1000;
    revoked_at = none;
  }
  ok (token, record db { sessions = kept ++ row ∷ [] })

pub record AuthContext : Type 0 where
  pub user_id : ℕ
  pub email : Text
  pub name : Text
  pub role : Role
  pub token_hash : Text

abbrev is_hex : ℕ → Bool
is_hex b = within b'0' b'9' b || within b'a' b'f' b || within b'A' b'F' b

unfoldable pub is_token : Text → Bool
is_token t = length t == 64 && all is_hex t

abbrev pub context_of : SessionRow → User → AuthContext
context_of s u = record {
  user_id = u.id;
  email = u.email;
  name = u.name;
  role = u.role;
  token_hash = s.token_hash;
}

-- FROM sessions s JOIN users u ON u.id=s.user_id WHERE ... AND u.status='active'
abbrev pub join_user : SessionRow → Option User → Option (AuthContext × ℕ)
join_user s none = none
join_user s (some u) = some (context_of s u, s.expires_at)

abbrev pub with_user : List User → Option SessionRow → Option (AuthContext × ℕ)
with_user users none = none
with_user users (some s) = join_user s (find (is_active_user s.user_id) users)

-- The row of the authentication query; the token hash is a primary key, so there is at most one.
unfoldable pub live_context : Text → ℕ → Db → Option (AuthContext × ℕ)
live_context hash now db = with_user db.users (find (is_live hash now) db.sessions)

abbrev pub first {ℓ} : {A B : Type ℓ} → Option (A × B) → Option A
first none = none
first (some (a, _)) = some a

unfoldable pub auth_context_hash : Text → ℕ → Db → Option AuthContext
unfolding is_token live_context
auth_context_hash hash now db = if is_token hash then first (live_context hash now db) else none

unfoldable pub auth_context : (Text → Text) → Text → ℕ → Db → Option AuthContext
unfolding auth_context_hash
auth_context hash_of token now db =
    if is_token token then auth_context_hash (hash_of token) now db else none

abbrev pub i64_max : ℕ
i64_max = 2 ^ 63 - 1

-- `saturating_mul` and `saturating_add` of numbers that are not negative.
abbrev pub sat_mul : ℕ → ℕ → ℕ
sat_mul a b = min (a * b) i64_max

abbrev pub sat_add : ℕ → ℕ → ℕ
sat_add a b = min (a + b) i64_max

abbrev pub renewal_threshold : ℕ → ℕ → ℕ
renewal_threshold ttl_secs now = sat_add now (sat_mul ttl_secs 1000 / 2)

abbrev pub renewed_expiry : ℕ → ℕ → ℕ
renewed_expiry ttl_secs now = sat_add now (sat_mul ttl_secs 1000)

-- The rows that the renewing UPDATE changes, by what its EXISTS clause asks of the session's user.
abbrev pub is_due : (ℕ → Bool) → Text → ℕ → ℕ → SessionRow → Bool
is_due authorized hash now threshold s =
    s.token_hash == hash
    && ltb now s.expires_at
    && leb s.expires_at threshold
    && is_none s.revoked_at
    && authorized s.user_id

abbrev pub extend : ℕ → SessionRow → SessionRow
extend expiry s = record s { expires_at = expiry }

abbrev pub has_active_user : Db → ℕ → Bool
has_active_user db k = exists (is_active_user k) db.users

unfoldable pub renew_context : Text → ℕ → ℕ → Db → (Option AuthContext × Bool) × Db
unfolding live_context
renew_context hash ttl_secs now db =
    let due = is_due (has_active_user db) hash now (renewal_threshold ttl_secs now) in
    let db' = record db {
      sessions = update due (extend (renewed_expiry ttl_secs now)) db.sessions;
    } in
    ((first (live_context hash now db'), count due db.sessions == 1), db')

unfoldable pub auth_context_hash_with_renewal : Text → ℕ → ℕ → Db → (Option AuthContext × Bool) × Db
unfolding is_token live_context renew_context
auth_context_hash_with_renewal hash ttl_secs now db =
    if not (is_token hash) then ((none, false), db) else elim (live_context hash now db) [
      | none ↦ ((none, false), db)
      | some (context, expires_at) ↦
          if ltb (renewal_threshold ttl_secs now) expires_at
          then ((some context, false), db)
          else renew_context hash ttl_secs now db
    ]

unfoldable pub auth_context_with_renewal :
    (Text → Text) → Text → ℕ → ℕ → Db → (Option AuthContext × Bool) × Db
unfolding auth_context_hash_with_renewal
auth_context_with_renewal hash_of token ttl_secs now db =
    if is_token token
    then auth_context_hash_with_renewal (hash_of token) ttl_secs now db
    else ((none, false), db)

-- (v.owner_user_id=user OR EXISTS(an active membership of the user in v)) for a vault v with the id
abbrev pub may_open : Db → Text → ℕ → Bool
may_open db vault user_id =
    exists
      (λ (v : VaultRow).
        v.id == vault
        && (v.owner_user_id == user_id || exists (is_active_member vault user_id) db.memberships))
      db.vaults

-- The EXISTS clause `authorization` of the renewal on a vault's socket.
abbrev pub may_use : Db → Text → ℕ → Bool
may_use db vault user_id = exists (is_active_user user_id) db.users && may_open db vault user_id

unfoldable pub valid_session_for_vault : Text → Text → ℕ → Db → Bool
valid_session_for_vault hash vault now db =
    if not (length hash == 64) || length vault == 0
    then false
    else exists (λ s. is_live hash now s && may_use db vault s.user_id) db.sessions

unfoldable pub renew_session_for_vault : Text → Text → ℕ → ℕ → Db → Option Bool × Db
renew_session_for_vault hash vault ttl_secs now db =
    let usable = λ (s : SessionRow). is_live hash now s && may_use db vault s.user_id in
    if not (length hash == 64) || length vault == 0
    then (none, db)
    else elim (find usable db.sessions) [
      | none ↦ (none, db)
      | some s ↦
          if ltb (renewal_threshold ttl_secs now) s.expires_at
          then (some false, db)
          else (let due = is_due (may_use db vault) hash now (renewal_threshold ttl_secs now) in
              let sessions' = update due (extend (renewed_expiry ttl_secs now)) db.sessions in
              (
                (if exists usable sessions' then some (count due db.sessions == 1) else none),
                record db { sessions = sessions' },
              ))
    ]

unfoldable pub revoke_session : (Text → Text) → Text → ℕ → Db → Db
revoke_session hash_of token now db = record db {
  sessions = update (λ s. s.token_hash == hash_of token) (revoke now) db.sessions;
}

-- Returns the number of sessions that it has revoked.
unfoldable pub revoke_all_sessions : ℕ → Db → ℕ × Db
revoke_all_sessions now db = (
  count (λ (s : SessionRow). is_none s.revoked_at) db.sessions,
  record db { sessions = update (λ s. is_none s.revoked_at) (revoke now) db.sessions },
)

-- authorize_account_mutation, outside test builds: without a token it is refused.
unfoldable pub authorize_account_mutation : Option Text → ℕ → ℕ → Db → Outcome (Unit {0})
authorize_account_mutation none user_id now db = ensure false mutation_unauthorized
authorize_account_mutation (some hash) user_id now db =
    ensure
      (exists
        (λ s.
          is_live hash now s && s.user_id == user_id && exists (is_active_user s.user_id) db.users)
        db.sessions)
      mutation_unauthorized
