-- ===== src/Limits/Invites.antt =====
-- `ShareInviteLimits` of apps/server-rust/src/server.rs: the invitations of the last hour, by source
-- address, account and target. The keyed SHA-256 of a target is the argument `digest_of`, its value a
-- number; instants are milliseconds of a monotonic clock.
pub mod Bounds
use blackglass_server.Base.{
  ℕ, suc, ◌-◌, Bool, true, false, not, ◌&&◌, ◌||◌, List, [], ◌∷◌, ◌++◌, map, Text, ltb, leb, ◌==◌,
  nat_eq, if◌then◌else◌, length,
}
use blackglass_server.Table.{select, count, exists}

abbrev pub share_invite_window : ℕ
share_invite_window = 3600000

abbrev pub max_share_invite_user_entries : ℕ
max_share_invite_user_entries = 256

pub record ShareInviteAttempt : Type 0 where
  pub source : ℕ
  pub user_id : ℕ
  pub target_digest : ℕ
  pub at : ℕ

-- The fields of `Config` that bound invitations.
pub record InviteConfig : Type 0 where
  pub share_invites_global : ℕ
  pub share_invites_per_source : ℕ
  pub share_invites_per_user : ℕ
  pub share_invite_targets_per_user : ℕ

-- Pops the front while it is as old as the window.
unfoldable pub pop_old : ℕ → List ShareInviteAttempt → List ShareInviteAttempt
pop_old now [] = []
pop_old now (a ∷ rest) =
    let popped = pop_old now rest in
    if leb share_invite_window (now - a.at) then popped else a ∷ rest

abbrev pub is_in : ℕ → List ℕ → Bool
is_in x xs = exists (λ y. y == x) xs

-- `collect::<HashSet<_>>()`
unfoldable pub distinct : List ℕ → List ℕ
distinct [] = []
distinct (x ∷ xs) = let rest = distinct xs in if is_in x xs then rest else x ∷ rest

abbrev pub user_of : ShareInviteAttempt → ℕ
user_of a = a.user_id

abbrev pub digest : ShareInviteAttempt → ℕ
digest a = a.target_digest

abbrev pub is_from : ℕ → ShareInviteAttempt → Bool
is_from source a = a.source == source

abbrev pub is_by : ℕ → ShareInviteAttempt → Bool
is_by user_id a = a.user_id == user_id

abbrev pub targets_of : ℕ → List ShareInviteAttempt → List ℕ
targets_of user_id attempts = map digest (select (is_by user_id) attempts)

-- Some limit is reached.
abbrev pub is_refused : ℕ → ℕ → ℕ → InviteConfig → List ShareInviteAttempt → Bool
is_refused source user_id target config attempts =
    leb config.share_invites_global (length attempts)
    || leb config.share_invites_per_source (count (is_from source) attempts)
    || leb config.share_invites_per_user (count (is_by user_id) attempts)
    || (not (is_in target (targets_of user_id attempts))
        && leb config.share_invite_targets_per_user
            (length (distinct (targets_of user_id attempts))))
    || (not (ltb 0 (count (is_by user_id) attempts))
        && leb max_share_invite_user_entries (length (distinct (map user_of attempts))))

unfoldable pub admit :
    (Text → ℕ)
    → ℕ
    → ℕ
    → Text
    → InviteConfig
    → ℕ
    → List ShareInviteAttempt
    → Bool × List ShareInviteAttempt
unfolding pop_old distinct
admit digest_of source user_id canonical_target config now attempts =
    let recent = pop_old now attempts in
    let target = digest_of canonical_target in
    if is_refused source user_id target config recent then (false, recent) else (
      true,
      recent
          ++ record { source = source; user_id = user_id; target_digest = target; at = now } ∷ [],
    )
