-- ===== src/Limits/Admin/Counts.antt =====
-- What the administration's sign-in limit amounts to, after any attempts.
use blackglass_server.Base.{
  ℕ, suc, ◌≤◌, ◌<◌, ◌≡◌, refl, sym, subst, ◌↔◌, ◌⊎◌, inl, inr, true, none, some, List, [], ◌∷◌, leb,
  nat_eq, is_some, length, min, arith, Option-cases, Bool-cases,
}
use blackglass_server.Table.{select}
use blackglass_server.Table.Sorted.{length-select_le}
use blackglass_server.Limits.Map.{get, put, remove, get-remove}
use blackglass_server.Limits.Admin.{
  AdminAuthFailureBucket, Buckets, admin_auth_failures_per_source, max_admin_auth_sources,
  is_current, oldest_bucket, without_oldest, current_buckets, bucket_or_new, register_at, clear,
}

-- The failures of the source in its window, if that has not ended.
abbrev pub recent : ℕ → ℕ → Buckets → ℕ
recent source now entries = elim (get source (select (is_current now) entries)) [
  | none ↦ 0
  | some b ↦ b.failures
]

length-put_le :
    (source : ℕ) (b : AdminAuthFailureBucket) (entries : Buckets)
    → (is_some (get source entries) ≡ true → length (put source b entries) ≤ length entries)
      × (length (put source b entries) ≤ suc (length entries))
unfolding put get
length-put_le source b [] = ground arith
length-put_le source b ((j, w) ∷ m) = ground (arith, length-put_le source b m)

length-remove_le :
    (source : ℕ) (entries : Buckets)
    → (length (remove source entries) ≤ length entries)
      × (is_some (get source entries) ≡ true → length (remove source entries) < length entries)
unfolding remove get
length-remove_le source [] = ground arith
length-remove_le source ((j, w) ∷ m) = ground (arith, length-remove_le source m)

is_some_there :
    (source : ℕ) (b c : AdminAuthFailureBucket) (j : ℕ) (m : Buckets)
    → is_some (get source m) ≡ true
    → is_some (get source ((j, c) ∷ m)) ≡ true
unfolding get
is_some_there source b c j m h = ground (arith, h)

-- The oldest of some is one of them.
oldest_there :
    (entry : ℕ × AdminAuthFailureBucket) (rest : Buckets)
    → (a : ℕ) × (b : AdminAuthFailureBucket) × (oldest_bucket (entry ∷ rest) ≡ some (a, b))
      × (is_some (get a (entry ∷ rest)) ≡ true)
unfolding oldest_bucket get
oldest_there (j, w) [] = (j, w, refl, ground arith)
oldest_there (j, w) (f ∷ rest) =
    let (a, b, e, there) = oldest_there f rest in
    elim (Bool-cases (leb w.window_started b.window_started)) [
      | inl below ↦ (j, w, ground (arith, e, below), ground arith)
      | inr above ↦ (a, b, ground (arith, e, above), is_some_there a b w j (f ∷ rest) there)
    ]

length-without_oldest :
    (entries : Buckets)
    → length entries ≤ max_admin_auth_sources
    → length (without_oldest (oldest_bucket entries) entries) < max_admin_auth_sources
unfolding oldest_bucket
length-without_oldest [] h = omega arith
length-without_oldest (f ∷ rest) h =
    let (a, b, e, there) = oldest_there f rest in
    subst (λ o. length (without_oldest o (f ∷ rest)) < max_admin_auth_sources) (sym e)
      (ground (arith, h, (length-remove_le a (f ∷ rest)).1 there))

-- Eviction spares the source that is about to be counted.
length-current :
    (source now : ℕ) (entries : Buckets)
    → length entries ≤ max_admin_auth_sources
    → (length (current_buckets source now entries) ≤ max_admin_auth_sources)
      × ((is_some (get source (current_buckets source now entries)) ≡ true)
          ⊎ (length (current_buckets source now entries) < max_admin_auth_sources))
unfolding current_buckets
length-current source now entries h =
    let kept = select (is_current now) entries in
    let fewer : length kept ≤ max_admin_auth_sources =
      omega (arith, h, length-select_le (is_current now) entries) in
    ground (arith, fewer, length-without_oldest kept fewer)

same_bucket :
    (source now : ℕ) (entries : Buckets)
    → get source (current_buckets source now entries) ≡ get source (select (is_current now) entries)
unfolding current_buckets
same_bucket source now entries =
    let kept = select (is_current now) entries in
    elim (Option-cases (oldest_bucket kept)) [
      | inl e ↦ ground (arith, e)
      | inr ((a, b), e) ↦ ground (arith, e, get-remove a source kept)
    ]

-- What happens in turn: a failed sign-in of a source at some time, or a successful one.
pub data Attempt : Type 0 where
  fails : (source now : ℕ) → Attempt
  succeeds : (source : ℕ) → Attempt

abbrev pub after : List Attempt → Buckets
after [] = []
after (fails source now ∷ earlier) = (register_at source now (after earlier)).1
after (succeeds source ∷ earlier) = clear source (after earlier)

register-bounded :
    (source now : ℕ) (entries : Buckets)
    → length entries ≤ max_admin_auth_sources
    → length (register_at source now entries).1 ≤ max_admin_auth_sources
unfolding register_at
register-bounded source now entries h =
    let kept = current_buckets source now entries in
    let b = bucket_or_new now (get source kept) in
    ground (
      arith,
      length-current source now entries h,
      length-put_le source (record b { failures = min 255 (suc b.failures) }) kept,
    )

after-bounded : (attempts : List Attempt) → length (after attempts) ≤ max_admin_auth_sources
unfolding clear
after-bounded [] = omega arith
after-bounded (fails source now ∷ earlier) =
    register-bounded source now (after earlier) (after-bounded earlier)
after-bounded (succeeds source ∷ earlier) =
    omega (arith, after-bounded earlier, (length-remove_le source (after earlier)).0)

pub record IsLimited (source now : ℕ) (entries : Buckets) : Type 0 where
  pub bounded : length (register_at source now entries).1 ≤ max_admin_auth_sources
  pub allowed :
      ((register_at source now entries).0 ≡ none)
      ↔ (recent source now entries < admin_auth_failures_per_source)
  pub waits :
      (seconds : ℕ)
      → (register_at source now entries).0 ≡ some seconds
      → (1 ≤ seconds) × (seconds ≤ 60)

-- After any failed and successful sign-ins of any sources at any times, a further failure leaves at
-- most eight sources remembered; it is answered by no wait exactly if fewer than eight failures of its
-- source are remembered in a window that has not ended, and otherwise by a wait of 1 to 60 seconds.
pub register_at-IsLimited :
    (attempts : List Attempt) (source now : ℕ) → IsLimited source now (after attempts)
register_at-IsLimited attempts source now = record {
  bounded = register-bounded source now (after attempts) (after-bounded attempts);
  allowed = unfold register_at in ground (arith, same_bucket source now (after attempts));
  waits = λ seconds e. unfold register_at in ground (arith, e);
}
