-- ===== src/Limits/Admin.antt =====
-- `AdminAuthFailures` of apps/server-rust/src/admin.rs: the failed sign-ins to the administration, by
-- source address. Instants are milliseconds of a monotonic clock, and the window's seconds are rounded
-- down as the code does; a source address is the number that it encodes.
pub mod Counts
use blackglass_server.Base.{
  ℕ, zero, suc, ◌+◌, ◌-◌, ◌*◌, ◌/◌, ◌≤◌, ◌<◌, ◌≡◌, refl, sym, subst, ◌↔◌, ◌⊎◌, inl, inr, Bool, true,
  false, not, ◌&&◌, Option, none, some, List, [], ◌∷◌, ltb, leb, ◌==◌, nat_eq, is_some,
  if◌then◌else◌, length, min, max, arith, Option-cases, Bool-cases,
}
use blackglass_server.Table.{select}
use blackglass_server.Table.Sorted.{length-select_le}
use blackglass_server.Limits.Map.{get, put, remove, get-put, get-remove}

abbrev pub admin_auth_failures_per_source : ℕ
admin_auth_failures_per_source = 8

abbrev pub admin_auth_failure_window : ℕ
admin_auth_failure_window = 60000

abbrev pub max_admin_auth_sources : ℕ
max_admin_auth_sources = 8

pub record AdminAuthFailureBucket : Type 0 where
  pub window_started : ℕ
  pub failures : ℕ

abbrev pub Buckets : Type 0
Buckets = List (ℕ × AdminAuthFailureBucket)

abbrev pub is_current : ℕ → ℕ × AdminAuthFailureBucket → Bool
is_current now (source, bucket) = ltb (now - bucket.window_started) admin_auth_failure_window

abbrev pub older_bucket :
    ℕ × AdminAuthFailureBucket
    → Option (ℕ × AdminAuthFailureBucket)
    → Option (ℕ × AdminAuthFailureBucket)
older_bucket b none = some b
older_bucket (a, bucket) (some (b, other)) =
    if leb bucket.window_started other.window_started then some (a, bucket) else some (b, other)

-- `min_by_key`: the first of the oldest.
unfoldable pub oldest_bucket : Buckets → Option (ℕ × AdminAuthFailureBucket)
oldest_bucket [] = none
oldest_bucket (b ∷ rest) = older_bucket b (oldest_bucket rest)

abbrev pub without_oldest : Option (ℕ × AdminAuthFailureBucket) → Buckets → Buckets
without_oldest none entries = entries
without_oldest (some (address, _)) entries = remove address entries

-- The windows that have not ended, with room for the source.
unfoldable pub current_buckets : ℕ → ℕ → Buckets → Buckets
unfolding oldest_bucket
current_buckets source now entries =
    let kept = select (is_current now) entries in
    if not (is_some (get source kept)) && leb max_admin_auth_sources (length kept)
    then without_oldest (oldest_bucket kept) kept
    else kept

abbrev pub bucket_or_new : ℕ → Option AdminAuthFailureBucket → AdminAuthFailureBucket
bucket_or_new now none = record { window_started = now; failures = 0 }
bucket_or_new now (some b) = b

-- Nothing, or the seconds to wait; `failures` is a `u8` that saturates.
unfoldable pub register_at : ℕ → ℕ → Buckets → Option ℕ × Buckets
unfolding current_buckets
register_at source now entries =
    let kept = current_buckets source now entries in
    let bucket = bucket_or_new now (get source kept) in
    let failed : AdminAuthFailureBucket = record bucket {
      failures = min 255 (suc bucket.failures);
    } in
    let wait = max 1 ((admin_auth_failure_window - (now - bucket.window_started)) / 1000) in
    (
      if leb failed.failures admin_auth_failures_per_source then none else some wait,
      put source failed kept,
    )

unfoldable pub clear : ℕ → Buckets → Buckets
clear source entries = remove source entries
