-- ===== src/Limits/Invites/Bounds.antt =====
-- Every run of invitations keeps all five limits.
use blackglass_server.Base.{
  map-append, ℕ, ◌+◌, ◌≤◌, ◌≡◌, inl, inr, refl, sym, subst, Bool, false, ◌||◌, List, [], ◌∷◌, ◌++◌,
  map, Text, arith, ltb, ◌==◌, nat_eq, if◌then◌else◌, length, length-append, Bool-cases,
}
use blackglass_server.Table.{select, count, exists}
use blackglass_server.Table.Laws.{count-append, select-append}
use blackglass_server.Limits.Invites.{
  ShareInviteAttempt, InviteConfig, max_share_invite_user_entries, pop_old, is_in, distinct,
  user_of, digest, is_from, is_by, targets_of, is_refused, admit,
}

append_nil : {A : Type 0} (xs : List A) → xs ++ [] ≡ xs
append_nil [] = refl
append_nil (x ∷ xs) = ground (arith, append_nil xs)

exists-append : (p : ℕ → Bool) (xs ys : List ℕ) → exists p (xs ++ ys) ≡ (exists p xs || exists p ys)
unfolding exists
exists-append p [] ys = refl
exists-append p (x ∷ xs) ys = ground (arith, exists-append p xs ys)

length-distinct-append :
    (y : ℕ) (xs : List ℕ)
    → length (distinct (xs ++ y ∷ [])) ≤ length (distinct xs) + (if is_in y xs then 0 else 1)
unfolding distinct exists
length-distinct-append y [] = ground arith
length-distinct-append y (x ∷ xs) =
    ground (arith, length-distinct-append y xs, exists-append (λ z. z == x) xs (y ∷ []))

-- The limits on the attempts that are remembered.
pub record IsLimited (config : InviteConfig) (attempts : List ShareInviteAttempt) : Type 0 where
  pub global : length attempts ≤ config.share_invites_global
  pub by_source : (s : ℕ) → count (is_from s) attempts ≤ config.share_invites_per_source
  pub by_user : (u : ℕ) → count (is_by u) attempts ≤ config.share_invites_per_user
  pub targets :
      (u : ℕ) → length (distinct (targets_of u attempts)) ≤ config.share_invite_targets_per_user
  pub users : length (distinct (map user_of attempts)) ≤ max_share_invite_user_entries

-- Forgetting the first attempt lets every count go down or stay.
tail-IsLimited :
    (config : InviteConfig) (a : ShareInviteAttempt) (rest : List ShareInviteAttempt)
    → IsLimited config (a ∷ rest)
    → IsLimited config rest
unfolding count select distinct
tail-IsLimited config a rest h = record {
  global = omega (arith, h.global);
  by_source = λ s. ground (arith, h.by_source s);
  by_user = λ u. ground (arith, h.by_user u);
  targets = λ u. ground (arith, h.targets u);
  users = ground (arith, h.users);
}

pop-IsLimited :
    (config : InviteConfig) (now : ℕ) (attempts : List ShareInviteAttempt)
    → IsLimited config attempts
    → IsLimited config (pop_old now attempts)
unfolding pop_old
pop-IsLimited config now [] h = h
pop-IsLimited config now (a ∷ rest) h =
    ground (arith, pop-IsLimited config now rest (tail-IsLimited config a rest h))

in_of_count :
    (u : ℕ) (attempts : List ShareInviteAttempt)
    → ltb 0 (count (is_by u) attempts) ≡ is_in u (map user_of attempts)
unfolding count exists
in_of_count u [] = ground arith
in_of_count u (a ∷ rest) = ground (arith, in_of_count u rest)

module _ (config : InviteConfig) (a : ShareInviteAttempt) (recent : List ShareInviteAttempt)
    (h : IsLimited config recent)
    (free : is_refused a.source a.user_id a.target_digest config recent ≡ false) where
  targets_after :
      (u : ℕ)
      → length (distinct (targets_of u (recent ++ a ∷ []))) ≤ config.share_invite_targets_per_user
  unfolding select
  targets_after u = elim (Bool-cases (a.user_id == u)) [
    | inl same ↦
        rw
          (
            select-append (is_by u) recent (a ∷ []),
            same,
            map-append digest (select (is_by u) recent) (a ∷ []),
          )
          (ground (
            arith,
            h.targets u,
            length-distinct-append a.target_digest (targets_of u recent),
            free,
          ))
    | inr differs ↦
        rw (select-append (is_by u) recent (a ∷ []), differs, append_nil (select (is_by u) recent))
          (h.targets u)
  ]

  added-IsLimited : IsLimited config (recent ++ a ∷ [])
  unfolding count
  added-IsLimited = record {
    global = ground (arith, length-append recent (a ∷ []), free);
    by_source = λ s. ground (arith, count-append (is_from s) recent (a ∷ []), h.by_source s, free);
    by_user = λ u. ground (arith, count-append (is_by u) recent (a ∷ []), h.by_user u, free);
    targets = targets_after;
    users = rw (map-append user_of recent (a ∷ [])) (
        ground (
          arith,
          length-distinct-append a.user_id (map user_of recent),
          h.users,
          in_of_count a.user_id recent,
          free,
        ));
  }

admit-IsLimited :
    (digest_of : Text → ℕ) (source user_id : ℕ) (target : Text) (config : InviteConfig) (now : ℕ)
    (attempts : List ShareInviteAttempt)
    → IsLimited config attempts
    → IsLimited config (admit digest_of source user_id target config now attempts).1
unfolding admit
admit-IsLimited digest_of source user_id target config now attempts h =
    let recent = pop_old now attempts in
    let kept = pop-IsLimited config now attempts h in
    let new : ShareInviteAttempt = record {
      source = source;
      user_id = user_id;
      target_digest = digest_of target;
      at = now;
    } in
    elim (Bool-cases (is_refused source user_id (digest_of target) config recent)) [
      | inl refused ↦ rw refused kept
      | inr free ↦ rw free (added-IsLimited config new recent kept free)
    ]

-- The attempts that a run leads to, from none, under one configuration.
pub data Reachable (digest_of : Text → ℕ) (config : InviteConfig)
    : List ShareInviteAttempt → Type 0 where
  start : (attempts : List ShareInviteAttempt) → attempts ≡ [] → Reachable digest_of config attempts
  invite :
      {attempts : List ShareInviteAttempt} (source user_id now : ℕ) (target : Text)
      → Reachable digest_of config attempts
      → Reachable digest_of config (admit digest_of source user_id target config now attempts).1

-- After any sequence of invitations, admitted or refused, from any sources at any times, the attempts
-- that are remembered are within the five limits: in all, by source, by account, distinct targets
-- by account, and 256 accounts.
pub invites-IsLimited :
    (digest_of : Text → ℕ) (config : InviteConfig) (attempts : List ShareInviteAttempt)
    → Reachable digest_of config attempts
    → IsLimited config attempts
unfolding count select distinct
invites-IsLimited digest_of config attempts (start _ e) = subst (IsLimited config) (sym e) record {
  global = omega arith;
  by_source = λ s. omega arith;
  by_user = λ u. omega arith;
  targets = λ u. omega arith;
  users = omega arith;
}
invites-IsLimited digest_of config _ (invite {attempts} source user_id now target r) =
    admit-IsLimited digest_of source user_id target config now attempts
      (invites-IsLimited digest_of config attempts r)
