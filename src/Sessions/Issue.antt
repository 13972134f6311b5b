-- ===== src/Sessions/Issue.antt =====
-- An issued session authenticates its user, within the limits, and no other session is affected.
use blackglass_server.Base.{
  ℕ, ◌+◌, ◌*◌, ◌≤◌, ◌<◌, ◌≡◌, ◌⊎◌, inl, inr, Bool-cases, refl, true, false, not, none, some, List,
  [], ◌∷◌, ◌++◌, length, length-append, Text, ◌==◌, nat_eq, text_eq, ==_refl, arith, ok, OnOk,
  OnOk-ok, OnOk-ensure, ltb, text_beq_iff,
}
use blackglass_server.Table.{delete, count, exists, find}
use blackglass_server.Table.Laws.{find-delete, count-append, find-append}
use blackglass_server.Table.Rows.{find_of_exists}
use blackglass_server.Table.Keys.{IsFresh, IsFresh-exists}
use blackglass_server.Database.{
  Db, User, SessionRow, is_live, is_active_user, max_sessions, max_sessions_per_user,
}
use blackglass_server.Sessions.{
  issue_session_for_user, live_context, is_expired_or_revoked, is_current_of,
}

-- What holds of the database after a session with the given hash has been issued at `now`.
pub record IsIssued (hash : Text) (user_id now expiry : ℕ) (db db' : Db) : Type 0 where
  pub in_capacity : length db'.sessions ≤ max_sessions
  pub in_user_capacity : count (is_current_of user_id now) db'.sessions ≤ max_sessions_per_user
  pub authenticates :
      (u : User) × (find (is_active_user user_id) db.users ≡ some u)
      × (live_context hash now db'
          ≡ some (
            record {
              user_id = u.id;
              email = u.email;
              name = u.name;
              role = u.role;
              token_hash = hash;
            },
            expiry,
          ))
  pub others_kept : (h : Text) → (h ≡ hash) ⊎ (live_context h now db' ≡ live_context h now db)
  pub accounts_kept : db'.users ≡ db.users

not_live :
    (hash : Text) (now : ℕ) (ss : List SessionRow)
    → IsFresh (λ (s : SessionRow). s.token_hash) hash ss
    → find (is_live hash now) ss ≡ none
unfolding find
not_live hash now [] h = refl
not_live hash now (s ∷ ss) (h, hs) = ground (arith, not_live hash now ss hs)

stale_is_dead :
    (h : Text) (now : ℕ) (s : SessionRow)
    → is_expired_or_revoked now s ≡ true
    → is_live h now s ≡ false
stale_is_dead h now s e = ground arith

module _ (hash : Text) (user_id now expiry : ℕ) (db : Db) where
  abbrev row : SessionRow
  row = record {
    token_hash = hash;
    user_id = user_id;
    created_at = now;
    expires_at = expiry;
    revoked_at = none;
  }

  abbrev kept : List SessionRow
  kept = delete (is_expired_or_revoked now) db.sessions

  issued :
      now < expiry
      → ltb (length kept) max_sessions ≡ true
      → exists (is_active_user user_id) db.users ≡ true
      → ltb (count (is_current_of user_id now) kept) max_sessions_per_user ≡ true
      → not (exists (λ s. s.token_hash == hash) kept) ≡ true
      → IsIssued hash user_id now expiry db (record db { sessions = kept ++ row ∷ [] })
  unfolding live_context find count
  issued later a b c d =
      let (u, found) = find_of_exists (is_active_user user_id) db.users b in
      let fresh = IsFresh-exists (λ (s : SessionRow). s.token_hash) hash kept (ground arith) in
      record {
        in_capacity = ground (arith, length-append kept (row ∷ []));
        in_user_capacity = ground (arith, count-append (is_current_of user_id now) kept (row ∷ []));
        authenticates = (
          u,
          found,
          rw (find-append (is_live hash now) kept (row ∷ []), not_live hash now kept fresh)
              (ground (arith, ==_refl hash)),
        );
        others_kept = λ h. elim (Bool-cases (hash == h)) [
          | inl same ↦ inl (ground (arith, text_beq_iff hash h))
          | inr differs ↦ inr (
              rw
                (
                  find-append (is_live h now) kept (row ∷ []),
                  find-delete (is_expired_or_revoked now) (is_live h now) db.sessions
                      (stale_is_dead h now),
                )
                (ground (arith, differs)))
        ];
        accounts_kept = refl;
      }

-- A session that is issued with a positive lifetime has the returned token's hash, authenticates its
-- active user at once, with the expiry that the lifetime gives, and leaves the tables within 1,024
-- sessions and 64 current ones of the user; at that time every other token authenticates as
-- before, and the accounts are unchanged.
pub issue_session-IsIssued :
    (hash_of : Text → Text) (token : Text) (user_id ttl_secs now : ℕ) (db db' : Db) (t : Text)
    → 0 < ttl_secs
    → issue_session_for_user hash_of token user_id ttl_secs now db ≡ ok (t, db')
    → (t ≡ token) × IsIssued (hash_of token) user_id now (now + ttl_secs * 1000) db db'
issue_session-IsIssued hash_of token user_id ttl_secs now db db' t pos e = issues.at (t, db') e
  where
    P : Text × Db → Type 0
    P r = (r.0 ≡ token) × IsIssued (hash_of token) user_id now (now + ttl_secs * 1000) db r.1

    issues : OnOk P (issue_session_for_user hash_of token user_id ttl_secs now db)
    issues =
        unfold issue_session_for_user in
        OnOk-ensure P _ _ _ λ a. OnOk-ensure P _ _ _ λ b. OnOk-ensure P _ _ _ λ c.
          OnOk-ensure P _ _ _ λ d. OnOk-ok P _ (
            refl,
            issued (hash_of token) user_id now (now + ttl_secs * 1000) db (omega arith) a b c d,
          )
