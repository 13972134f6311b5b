-- ===== src/Limits/Source.antt =====
-- `SourceLimits` of apps/server-rust/src/server.rs: the sign-in attempts and the unauthenticated
-- websockets of each source address. Instants are milliseconds of a monotonic clock; a source address
-- is the number that it encodes.
pub mod Bounds
pub mod Steps
use blackglass_server.Base.{
  ℕ, suc, ◌-◌, Bool, true, false, not, ◌&&◌, ◌||◌, Option, none, some, List, [], ◌∷◌, ◌++◌, ltb,
  leb, ◌==◌, nat_eq, is_some, if◌then◌else◌, length,
}
use blackglass_server.Table.{select, delete}
use blackglass_server.Limits.Map.{get, put, remove}

abbrev pub signin_rate_window : ℕ
signin_rate_window = 60000

abbrev pub signin_attempts_per_source : ℕ
signin_attempts_per_source = 6

abbrev pub max_unauthenticated_ws_per_source : ℕ
max_unauthenticated_ws_per_source = 4

abbrev pub max_source_limit_entries : ℕ
max_source_limit_entries = 4096

pub record SourceLimitEntry : Type 0 where
  pub signin_attempts : List ℕ
  pub unauthenticated_websockets : ℕ
  pub last_seen : ℕ

abbrev pub Entries : Type 0
Entries = List (ℕ × SourceLimitEntry)

abbrev pub is_kept : ℕ → ℕ × SourceLimitEntry → Bool
is_kept now (source, entry) =
    ltb 0 entry.unauthenticated_websockets || leb (now - entry.last_seen) signin_rate_window

abbrev older : ℕ × SourceLimitEntry → Option (ℕ × SourceLimitEntry) → Option (ℕ × SourceLimitEntry)
older e none = some e
older (a, entry) (some (b, other)) =
    if leb entry.last_seen other.last_seen then some (a, entry) else some (b, other)

-- `min_by_key` of the entries without a websocket: the first of the least.
unfoldable pub oldest_idle : Entries → Option (ℕ × SourceLimitEntry)
oldest_idle [] = none
oldest_idle ((source, entry) ∷ rest) =
    let later = oldest_idle rest in
    if entry.unauthenticated_websockets == 0 then older (source, entry) later else later

abbrev pub evict : Option (ℕ × SourceLimitEntry) → Entries → Entries
evict none entries = entries
evict (some (oldest, _)) entries = remove oldest entries

unfoldable pub make_room : ℕ → ℕ → Entries → Entries
unfolding oldest_idle
make_room source now entries =
    let kept = select (is_kept now) entries in
    if not (is_some (get source kept)) && leb max_source_limit_entries (length kept)
    then evict (oldest_idle kept) kept
    else kept

abbrev pub or_new : ℕ → Option SourceLimitEntry → SourceLimitEntry
or_new now none = record { signin_attempts = []; unauthenticated_websockets = 0; last_seen = now }
or_new now (some entry) = entry

-- The entry through whose `&mut` the caller writes, and the entries that hold it.
unfoldable pub entry_of : ℕ → ℕ → Entries → Option SourceLimitEntry × Entries
unfolding make_room
entry_of source now entries =
    let roomy = make_room source now entries in
    if not (is_some (get source roomy)) && leb max_source_limit_entries (length roomy)
    then (none, roomy)
    else (some (or_new now (get source roomy)), roomy)

-- Pops the front while it is as old as the window.
unfoldable pub pop_expired : ℕ → List ℕ → List ℕ
pop_expired now [] = []
pop_expired now (attempt ∷ rest) =
    let popped = pop_expired now rest in
    if leb signin_rate_window (now - attempt) then popped else attempt ∷ rest

abbrev pub signin_in : ℕ → ℕ → Option SourceLimitEntry → Entries → Bool × Entries
signin_in source now none entries = (false, entries)
signin_in source now (some entry) entries =
    let recent = pop_expired now entry.signin_attempts in
    if leb signin_attempts_per_source (length recent)
    then (false, put source (record entry { signin_attempts = recent; last_seen = now }) entries)
    else (
      true,
      put source (record entry { signin_attempts = recent ++ now ∷ []; last_seen = now }) entries,
    )

unfoldable pub admit_signin : ℕ → ℕ → Entries → Bool × Entries
unfolding entry_of pop_expired
admit_signin source now entries =
    let (entry, roomy) = entry_of source now entries in signin_in source now entry roomy

unfoldable pub pop_back : List ℕ → List ℕ
pop_back [] = []
pop_back (a ∷ []) = []
pop_back (a ∷ b ∷ rest) = a ∷ pop_back (b ∷ rest)

abbrev pub refund_in : ℕ → ℕ → Option SourceLimitEntry → Entries → Entries
refund_in source now none entries = entries
refund_in source now (some entry) entries =
    put source (record entry { signin_attempts = pop_back entry.signin_attempts; last_seen = now })
      entries

unfoldable pub refund_successful_signin : ℕ → ℕ → Entries → Entries
unfolding pop_back
refund_successful_signin source now entries = refund_in source now (get source entries) entries

abbrev pub websocket_in : ℕ → ℕ → Option SourceLimitEntry → Entries → Bool × Entries
websocket_in source now none entries = (false, entries)
websocket_in source now (some entry) entries =
    if leb max_unauthenticated_ws_per_source entry.unauthenticated_websockets
    then (false, put source (record entry { last_seen = now }) entries)
    else (
      true,
      put source
          (record entry {
            unauthenticated_websockets = suc entry.unauthenticated_websockets;
            last_seen = now;
          })
          entries,
    )

unfoldable pub admit_websocket : ℕ → ℕ → Entries → Bool × Entries
unfolding entry_of
admit_websocket source now entries =
    let (entry, roomy) = entry_of source now entries in websocket_in source now entry roomy

abbrev pub drop_in : ℕ → ℕ → Option SourceLimitEntry → Entries → Entries
drop_in source now none entries = entries
drop_in source now (some entry) entries =
    put source
      (record entry {
        unauthenticated_websockets = entry.unauthenticated_websockets - 1;
        last_seen = now;
      })
      entries

-- `drop` of a `SourceConnectionPermit`
unfoldable pub drop_connection : ℕ → ℕ → Entries → Entries
drop_connection source now entries = drop_in source now (get source entries) entries
