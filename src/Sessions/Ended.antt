-- ===== src/Sessions/Ended.antt =====
-- A token whose sessions are all revoked stays so, unless a session is issued under its hash.
use blackglass_server.Base.{
  ℕ, ◌≡◌, refl, none, List, [], ◌∷◌, Text, ◌==◌, nat_eq, text_eq, arith, Option-cases, Bool-cases,
  inl, inr, Bool, false, not, ◌&&◌, ◌||◌, ok, All, All-append, OnOk, OnOk-ok, OnOk-ensure, is_none,
  ltb, length,
}
use blackglass_server.Table.{find, update}
use blackglass_server.Database.{Db, SessionRow, is_live}
use blackglass_server.Accounts.{revoke, revoke_sessions_of}
use blackglass_server.Table.Laws.{All-update, All-delete}
use blackglass_server.Sessions.{
  live_context, auth_context_hash_with_renewal, revoke_session, issue_session_for_user,
  renew_session_for_vault, revoke_all_sessions, renew_context, is_token, is_due, has_active_user,
  renewal_threshold, renewed_expiry, extend, may_use,
}

-- Every row of the token is revoked.
abbrev pub IsDead : Text → Db → Type 0
IsDead hash db =
    All (λ (s : SessionRow). (s.token_hash == hash && is_none s.revoked_at) ≡ false) db.sessions

unlive :
    (hash : Text) (now : ℕ) (rows : List SessionRow)
    → All (λ (s : SessionRow). (s.token_hash == hash && is_none s.revoked_at) ≡ false) rows
    → find (is_live hash now) rows ≡ none
unfolding find
unlive hash now [] h = refl
unlive hash now (s ∷ rows) (h, hs) = ground (arith, h, unlive hash now rows hs)

pub dead_context :
    (hash : Text) (now : ℕ) (db : Db) → IsDead hash db → live_context hash now db ≡ none
unfolding live_context
dead_context hash now db h = rw (unlive hash now db.sessions h) refl

revokes :
    (hash : Text) (now : ℕ) (rows : List SessionRow)
    → All
        (λ (s : SessionRow). (s.token_hash == hash && is_none s.revoked_at) ≡ false)
        (update (λ s. s.token_hash == hash) (revoke now) rows)
unfolding update
revokes hash now [] = tt
revokes hash now (s ∷ rows) = (ground arith, revokes hash now rows)

pub revoked-IsDead :
    (hash_of : Text → Text) (token : Text) (now : ℕ) (db : Db)
    → IsDead (hash_of token) (revoke_session hash_of token now db)
unfolding revoke_session
revoked-IsDead hash_of token now db = revokes (hash_of token) now db.sessions

-- The operations on sessions, with any operation that writes to other tables only. A new session has
-- another token's hash.
pub data SessionStep (hash_of : Text → Text) (hash : Text) : Db → Db → Type 0 where
  elsewhere : (db db' : Db) → db'.sessions ≡ db.sessions → SessionStep hash_of hash db db'
  issues :
      (token : Text) (user_id ttl now : ℕ) (db db' : Db) (given : Text)
      → (hash_of token == hash) ≡ false
      → issue_session_for_user hash_of token user_id ttl now db ≡ ok (given, db')
      → SessionStep hash_of hash db db'
  renews :
      (own : Text) (ttl now : ℕ) (db : Db)
      → SessionStep hash_of hash db (auth_context_hash_with_renewal own ttl now db).1
  renews_for_vault :
      (own vault : Text) (ttl now : ℕ) (db : Db)
      → SessionStep hash_of hash db (renew_session_for_vault own vault ttl now db).1
  revokes_one :
      (token : Text) (now : ℕ) (db : Db)
      → SessionStep hash_of hash db (revoke_session hash_of token now db)
  revokes_user :
      (user_id now : ℕ) (db : Db) → SessionStep hash_of hash db (revoke_sessions_of now user_id db)
  revokes_all : (now : ℕ) (db : Db) → SessionStep hash_of hash db (revoke_all_sessions now db).1

pub data SessionSteps (hash_of : Text → Text) (hash : Text) (db : Db) : Db → Type 0 where
  start : SessionSteps hash_of hash db db
  step :
      (db' db'' : Db)
      → SessionSteps hash_of hash db db'
      → SessionStep hash_of hash db' db''
      → SessionSteps hash_of hash db db''

-- An UPDATE that gives no row another token and revives none.
dead_update :
    (hash : Text) (p : SessionRow → Bool) (f : SessionRow → SessionRow) (rows : List SessionRow)
    → ((s : SessionRow)
        → (s.token_hash == hash && is_none s.revoked_at) ≡ false
        → ((f s).token_hash == hash && is_none (f s).revoked_at) ≡ false)
    → All (λ (s : SessionRow). (s.token_hash == hash && is_none s.revoked_at) ≡ false) rows
    → All
        (λ (s : SessionRow). (s.token_hash == hash && is_none s.revoked_at) ≡ false)
        (update p f rows)
dead_update hash p f rows kept h =
    All-update (λ (s : SessionRow). (s.token_hash == hash && is_none s.revoked_at) ≡ false) p f rows
      (λ s _ dead. kept s dead) h

issue-IsDead :
    (hash_of : Text → Text) (hash token : Text) (user_id ttl now : ℕ) (db : Db)
    → IsDead hash db
    → (hash_of token == hash) ≡ false
    → OnOk
        (λ (out : Text × Db). IsDead hash out.1)
        (issue_session_for_user hash_of token user_id ttl now db)
unfolding issue_session_for_user
issue-IsDead hash_of hash token user_id ttl now db h other =
    let P = λ (out : Text × Db). IsDead hash out.1 in
    OnOk-ensure P _ _ _ λ _. OnOk-ensure P _ _ _ λ _. OnOk-ensure P _ _ _ λ _.
      OnOk-ensure P _ _ _ λ _. OnOk-ok P _ (
        All-append (λ (s : SessionRow). (s.token_hash == hash && is_none s.revoked_at) ≡ false) _ _
          (All-delete (λ (s : SessionRow). (s.token_hash == hash && is_none s.revoked_at) ≡ false) _
            db.sessions h)
          (ground (arith, other), tt))

renewal-IsDead :
    (hash own : Text) (ttl now : ℕ) (db : Db)
    → IsDead hash db
    → IsDead hash (auth_context_hash_with_renewal own ttl now db).1
unfolding auth_context_hash_with_renewal renew_context
renewal-IsDead hash own ttl now db h =
    let extended =
      dead_update hash (is_due (has_active_user db) own now (renewal_threshold ttl now))
        (extend (renewed_expiry ttl now)) db.sessions (λ s dead. dead) h in
    elim (Bool-cases (is_token own)) [
      | inr bad ↦ rw bad h
      | inl good ↦ elim (Option-cases (live_context own now db)) [
        | inl nobody ↦ rw (good, nobody) h
        | inr ((context, expires_at), found) ↦
            elim (Bool-cases (ltb (renewal_threshold ttl now) expires_at)) [
              | inl late ↦ rw (good, found, late) h
              | inr due ↦ rw (good, found, due) extended
            ]
      ]
    ]

vault_renewal-IsDead :
    (hash own vault : Text) (ttl now : ℕ) (db : Db)
    → IsDead hash db
    → IsDead hash (renew_session_for_vault own vault ttl now db).1
unfolding renew_session_for_vault
vault_renewal-IsDead hash own vault ttl now db h =
    let extended =
      dead_update hash (is_due (may_use db vault) own now (renewal_threshold ttl now))
        (extend (renewed_expiry ttl now)) db.sessions (λ s dead. dead) h in
    let usable = λ (s : SessionRow). is_live own now s && may_use db vault s.user_id in
    elim (Bool-cases (not (length own == 64) || length vault == 0)) [
      | inl bad ↦ rw bad h
      | inr good ↦ elim (Option-cases (find usable db.sessions)) [
        | inl nobody ↦ rw (good, nobody) h
        | inr (s, found) ↦ elim (Bool-cases (ltb (renewal_threshold ttl now) s.expires_at)) [
          | inl late ↦ rw (good, found, late) h
          | inr due ↦ rw (good, found, due) extended
        ]
      ]
    ]

step-IsDead :
    (hash_of : Text → Text) (hash : Text) (db db' : Db)
    → SessionStep hash_of hash db db'
    → IsDead hash db
    → IsDead hash db'
unfolding revoke_session revoke_sessions_of revoke_all_sessions
step-IsDead hash_of hash _ _ (elsewhere db db' e) h = rw e h
step-IsDead hash_of hash _ _ (issues token user_id ttl now db db' given other e) h =
    (issue-IsDead hash_of hash token user_id ttl now db h other).at (given, db') e
step-IsDead hash_of hash _ _ (renews own ttl now db) h = renewal-IsDead hash own ttl now db h
step-IsDead hash_of hash _ _ (renews_for_vault own vault ttl now db) h =
    vault_renewal-IsDead hash own vault ttl now db h
step-IsDead hash_of hash _ _ (revokes_one token now db) h =
    dead_update hash _ (revoke now) db.sessions (λ s dead. ground arith) h
step-IsDead hash_of hash _ _ (revokes_user user_id now db) h =
    dead_update hash _ (revoke now) db.sessions (λ s dead. ground arith) h
step-IsDead hash_of hash _ _ (revokes_all now db) h =
    dead_update hash _ (revoke now) db.sessions (λ s dead. ground arith) h

pub steps-IsDead :
    (hash_of : Text → Text) (hash : Text) (db db' : Db)
    → SessionSteps hash_of hash db db'
    → IsDead hash db
    → IsDead hash db'
steps-IsDead hash_of hash db _ start h = h
steps-IsDead hash_of hash db _ (step db' db'' before next) h =
    step-IsDead hash_of hash db' db'' next (steps-IsDead hash_of hash db db' before h)
