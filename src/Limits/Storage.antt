-- ===== src/Limits/Storage.antt =====
-- `StorageReservations`: bytes that uploads in flight have claimed, in all and by owner. Amounts are
-- natural numbers, so the guards against negative ones do not fire; a subtraction that would pass
-- below 0 stops there, and `Counts` shows that none does.
pub mod Counts
use blackglass_server.Base.{
  ℕ, ◌+◌, ◌-◌, Bool, true, ◌||◌, Option, none, some, List, [], ltb, leb, ◌==◌, nat_eq,
  if◌then◌else◌, min, max,
}
use blackglass_server.Limits.Map.{get, put, remove, or_default}

pub record ReservationState : Type 0 where
  pub global_bytes : ℕ
  pub owner_bytes : List (ℕ × ℕ)

abbrev pub no_reservations : ReservationState
no_reservations = record { global_bytes = 0; owner_bytes = [] }

pub record StorageReservation : Type 0 where
  pub owner_user_id : ℕ
  pub bytes : ℕ

unfoldable pub reserved : ReservationState → ℕ
reserved state = state.global_bytes

unfoldable pub reserved_for_owner : ℕ → ReservationState → ℕ
reserved_for_owner user_id state = or_default 0 (get user_id state.owner_bytes)

-- Returns the reservation, or nothing and the state as it was.
unfoldable pub try_reserve :
    (committed_global committed_owner owner_user_id additional global_limit owner_limit : ℕ)
    → ReservationState
    → Option StorageReservation × ReservationState
unfolding reserved_for_owner
try_reserve committed_global committed_owner owner_user_id additional global_limit owner_limit
      state =
    let owner_reserved = reserved_for_owner owner_user_id state in
    if additional == 0 || global_limit == 0 || owner_limit == 0
    then (none, state)
    else if ltb global_limit committed_global
        || ltb (global_limit - committed_global) state.global_bytes
        || ltb (global_limit - committed_global - state.global_bytes) additional
        || ltb owner_limit committed_owner
        || ltb (owner_limit - committed_owner) owner_reserved
        || ltb (owner_limit - committed_owner - owner_reserved) additional
    then (none, state)
    else (
      some (record { owner_user_id = owner_user_id; bytes = additional }),
      record {
        global_bytes = state.global_bytes + additional;
        owner_bytes = put owner_user_id (owner_reserved + additional) state.owner_bytes;
      },
    )

abbrev release_owner : ℕ → ℕ → Option ℕ → List (ℕ × ℕ) → List (ℕ × ℕ)
release_owner owner bytes none m = m
release_owner owner bytes (some held) m =
    if held - bytes == 0 then remove owner m else put owner (held - bytes) m

-- `drop` of a reservation
unfoldable pub release : StorageReservation → ReservationState → ReservationState
release r state = record {
  global_bytes = state.global_bytes - r.bytes;
  owner_bytes =
      release_owner r.owner_user_id r.bytes (get r.owner_user_id state.owner_bytes)
        state.owner_bytes;
}

-- The limit that a client is told: what its owner has and could still add.
unfoldable pub effective_storage_limit :
    (owner_used global_used owner_reserved global_reserved owner_limit global_limit : ℕ) → ℕ
effective_storage_limit owner_used global_used owner_reserved global_reserved owner_limit
      global_limit =
    let global_free = global_limit - global_used - global_reserved in
    min (owner_limit - owner_reserved) (owner_used + global_free)
