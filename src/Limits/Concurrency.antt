-- ===== src/Limits/Concurrency.antt =====
-- `UserConcurrency` of apps/server-rust/src/server.rs: the connections and uploads that each user
-- has open, and the permits that count them.
pub mod Bounds
use blackglass_server.Base.{
  ℕ, suc, ◌-◌, Bool, true, false, ◌&&◌, Option, none, some, List, ltb, leb, ◌==◌, nat_eq,
  if◌then◌else◌,
}
use blackglass_server.Limits.Map.{get, put, remove, or_default}

pub record UserConcurrencyEntry : Type 0 where
  pub connections : ℕ
  pub uploads : ℕ

pub data UserConcurrencyKind : Type 0 where
  connection upload : UserConcurrencyKind

pub record UserConcurrencyPermit : Type 0 where
  pub user_id : ℕ
  pub kind : UserConcurrencyKind

abbrev pub no_permits : UserConcurrencyEntry
no_permits = record { connections = 0; uploads = 0 }

unfoldable pub count_of : UserConcurrencyKind → UserConcurrencyEntry → ℕ
count_of connection entry = entry.connections
count_of upload entry = entry.uploads

-- Writes through the `&mut` that the `match` on the kind selects.
unfoldable pub set_count : UserConcurrencyKind → ℕ → UserConcurrencyEntry → UserConcurrencyEntry
set_count connection n entry = record { connections = n; uploads = entry.uploads }
set_count upload n entry = record { connections = entry.connections; uploads = n }

-- A refusal, too, leaves the entry that `or_default` put there.
unfoldable pub try_acquire :
    ℕ
    → UserConcurrencyKind
    → ℕ
    → List (ℕ × UserConcurrencyEntry)
    → Option UserConcurrencyPermit × List (ℕ × UserConcurrencyEntry)
unfolding count_of set_count
try_acquire user_id kind limit entries =
    let entry = or_default no_permits (get user_id entries) in
    let count = count_of kind entry in
    if leb limit count then (none, put user_id entry entries) else (
      some (record { user_id = user_id; kind = kind }),
      put user_id (set_count kind (suc count) entry) entries,
    )

abbrev drop_entry :
    UserConcurrencyPermit
    → Option UserConcurrencyEntry
    → List (ℕ × UserConcurrencyEntry)
    → List (ℕ × UserConcurrencyEntry)
drop_entry permit none entries = entries
drop_entry permit (some entry) entries =
    let left = set_count permit.kind (count_of permit.kind entry - 1) entry in
    if (left.connections == 0) && (left.uploads == 0)
    then remove permit.user_id entries
    else put permit.user_id left entries

-- `drop` of a permit
unfoldable pub drop_permit :
    UserConcurrencyPermit → List (ℕ × UserConcurrencyEntry) → List (ℕ × UserConcurrencyEntry)
unfolding count_of set_count
drop_permit permit entries = drop_entry permit (get permit.user_id entries) entries
