-- ===== src/Sessions/Renewal.antt =====
-- A renewal lengthens the session that asks for it, authenticates nobody else and ends nothing.
use blackglass_server.Base.{
  ◌⊎◌, inl, inr, Bool-cases, ℕ, ◌≤◌, ◌<◌, ◌≡◌, refl, Bool, true, false, List, [], ◌∷◌, Text, nat_eq,
  text_eq, arith, is_some, ap, none, some, leb, ltb, Option-cases, if◌then◌else◌,
}
use blackglass_server.Table.{update, find}
use blackglass_server.Database.{Db, User, SessionRow, is_live, is_active_user}
use blackglass_server.Table.Laws.{exists-of_find, find-eq-some}
use blackglass_server.Sessions.{
  live_context, with_user, first, is_due, extend, auth_context_hash, auth_context_hash_with_renewal,
  renewal_threshold, renewed_expiry, has_active_user, i64_max, is_token, renew_context,
}

module _ (ok_user : ℕ → Bool) (hash : Text) (now threshold expiry : ℕ) (users : List User) where
  -- The renewed row stands for the same user and token.
  same_context :
      (ss : List SessionRow)
      → now < expiry
      → first (
          with_user users (
            find
              (is_live hash now)
              (update (is_due ok_user hash now threshold) (extend expiry) ss)))
        ≡ first (with_user users (find (is_live hash now) ss))
  unfolding find update
  same_context [] h = refl
  same_context (s ∷ ss) h = ground (arith, same_context ss h)

  -- At any time, what was live stays live: the expiry is moved to a later time only.
  still_live :
      (h : Text) (t : ℕ) (ss : List SessionRow)
      → threshold ≤ expiry
      → is_some (find (is_live h t) ss) ≡ true
      → is_some (find (is_live h t) (update (is_due ok_user hash now threshold) (extend expiry) ss))
        ≡ true
  unfolding find update
  still_live h t [] le e = e
  still_live h t (s ∷ ss) le e = ground (arith, still_live h t ss le)

  -- A session that is due is live until its new expiry.
  lengthened :
      (t : ℕ) (s : SessionRow) (ss : List SessionRow)
      → find (is_live hash now) ss ≡ some s
      → leb s.expires_at threshold ≡ true
      → ok_user s.user_id ≡ true
      → t < expiry
      → is_some
          (find (is_live hash t) (update (is_due ok_user hash now threshold) (extend expiry) ss))
        ≡ true
  unfolding find update
  lengthened t s [] found due own lt = cc
  lengthened t s (r ∷ ss) found due own lt = elim (Bool-cases (is_live hash now r)) [
    | inl live ↦
        let same : r ≡ s = ground (arith, found, live) in
        ground (
          arith,
          live,
          ap (λ (x : SessionRow). x.expires_at) same,
          ap (λ (x : SessionRow). ok_user x.user_id) same,
        )
    | inr dead ↦ ground (arith, lengthened t s ss (rw dead at found) due own lt)
  ]

-- A session that ends later than asked for.
lives_on :
    (hash : Text) (now t : ℕ) (s : SessionRow) (ss : List SessionRow)
    → find (is_live hash now) ss ≡ some s
    → t < s.expires_at
    → is_some (find (is_live hash t) ss) ≡ true
unfolding find
lives_on hash now t s [] found lt = cc
lives_on hash now t s (r ∷ ss) found lt = elim (Bool-cases (is_live hash now r)) [
  | inl live ↦
      let same : r ≡ s = ground (arith, found, live) in
      ground (arith, live, ap (λ (x : SessionRow). x.expires_at) same)
  | inr dead ↦ ground (arith, lives_on hash now t s ss (rw dead at found) lt)
]

threshold-le-expiry : (ttl now : ℕ) → renewal_threshold ttl now ≤ renewed_expiry ttl now
threshold-le-expiry ttl now = omega arith

expires_later : (ttl now : ℕ) → 0 < ttl → now < i64_max → now < renewed_expiry ttl now
expires_later ttl now a b = omega arith

renews :
    (hash : Text) (ttl_secs now : ℕ) (db : Db) (h : Text) (t : ℕ)
    → 0 < ttl_secs
    → now < i64_max
    → ((auth_context_hash_with_renewal hash ttl_secs now db).0.0 ≡ auth_context_hash hash now db)
      × ((is_some (find (is_live h t) db.sessions) ≡ false)
          ⊎ (is_some (
                find (is_live h t) (auth_context_hash_with_renewal hash ttl_secs now db).1.sessions)
              ≡ true))
unfolding auth_context_hash_with_renewal auth_context_hash live_context
renews hash ttl_secs now db h t pos clock =
    let threshold = renewal_threshold ttl_secs now in
    let expiry = renewed_expiry ttl_secs now in
    let same =
      same_context (has_active_user db) hash now threshold expiry db.users db.sessions
        (expires_later ttl_secs now pos clock) in
    (
      ground (arith, same),
      elim (Bool-cases (is_some (find (is_live h t) db.sessions))) [
        | inl e ↦ inr (
            ground (
              arith,
              still_live (has_active_user db) hash now threshold expiry db.users h t db.sessions
                  (threshold-le-expiry ttl_secs now) e,
            ))
        | inr dead ↦ inl dead
      ],
    )

-- What a renewal asks of the session's user is what the authentication has found.
user_is_active :
    (db : Db) (s : SessionRow) (u : User)
    → find (is_active_user s.user_id) db.users ≡ some u
    → has_active_user db s.user_id ≡ true
user_is_active db s u found =
    exists-of_find (is_active_user s.user_id) (is_active_user s.user_id) db.users u found
      (find-eq-some (is_active_user s.user_id) db.users u found)

-- How long the session of an answer lasts at least.
abbrev pub lasts_until : ℕ → ℕ → Bool → ℕ
lasts_until ttl_secs now renewed =
    if renewed then renewed_expiry ttl_secs now else renewal_threshold ttl_secs now

lasts :
    (hash : Text) (ttl_secs now : ℕ) (db : Db) (u : ℕ)
    → let out = auth_context_hash_with_renewal hash ttl_secs now db in
      (out.0.0 ≡ none)
      ⊎ ((lasts_until ttl_secs now out.0.1 ≤ u)
          ⊎ (is_some (find (is_live hash u) out.1.sessions) ≡ true))
unfolding auth_context_hash_with_renewal live_context renew_context
lasts hash ttl_secs now db u = elim (Bool-cases (is_token hash)) [
  | inr bad ↦ inl (rw bad refl)
  | inl good ↦ elim (Option-cases (find (is_live hash now) db.sessions)) [
    | inl nobody ↦ inl (rw (good, nobody) refl)
    | inr (s, found) ↦ elim (Option-cases (find (is_active_user s.user_id) db.users)) [
      | inl missing ↦ inl (rw (good, found, missing) refl)
      | inr (user, active) ↦ elim (Bool-cases (ltb (renewal_threshold ttl_secs now) s.expires_at)) [
        | inl late ↦ inr (elim (Bool-cases (ltb u (renewal_threshold ttl_secs now))) [
          | inl soon ↦ inr (
              rw (good, found, active, late)
                (lives_on hash now u s db.sessions found (ground arith)))
          | inr after ↦ inl (rw (good, found, active, late) (ground arith))
        ])
        | inr due ↦ inr (elim (Bool-cases (ltb u (renewed_expiry ttl_secs now))) [
          | inl soon ↦ inr (
              rw (good, found, active, due)
                (lengthened (has_active_user db) hash now (renewal_threshold ttl_secs now)
                  (renewed_expiry ttl_secs now) db.users u s db.sessions found (ground arith)
                  (user_is_active db s user active) (ground arith)))
          | inr after ↦
              inl (rw (good, found, active, due) (ground (arith, threshold-le-expiry ttl_secs now)))
        ])
      ]
    ]
  ]
]

-- With a positive lifetime and a clock below the largest `i64`, authentication with renewal gives the
-- same context as authentication without, and a token that had a live session row at some time
-- still has one after it. Where it authenticates, the session of the token is live at every time
-- before the clock plus its lifetime if the answer says that it was renewed, and else before the
-- clock plus half its lifetime.
pub renewal_authenticates :
    (hash : Text) (ttl_secs now : ℕ) (db : Db) (h : Text) (t u : ℕ)
    → 0 < ttl_secs
    → now < i64_max
    → let out = auth_context_hash_with_renewal hash ttl_secs now db in
      (out.0.0 ≡ auth_context_hash hash now db)
      × ((is_some (find (is_live h t) db.sessions) ≡ false)
          ⊎ (is_some (find (is_live h t) out.1.sessions) ≡ true))
      × ((out.0.0 ≡ none)
          ⊎ ((lasts_until ttl_secs now out.0.1 ≤ u)
              ⊎ (is_some (find (is_live hash u) out.1.sessions) ≡ true)))
renewal_authenticates hash ttl_secs now db h t u pos clock =
    let (same, kept) = renews hash ttl_secs now db h t pos clock in
    (same, kept, lasts hash ttl_secs now db u)
