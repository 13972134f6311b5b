-- ===== src/Live.antt =====
-- `LiveRegistry` and `LiveGuard` of apps/server-rust/src/admin.rs: the websockets that are open, and
-- how a change of authority reaches them. Texts that the code cuts by characters are lists of
-- characters here, `is_whitespace` and `is_control` are Rust's tests of one; ids are those of `Uuid`.
pub mod Registry
pub mod Listing
use blackglass_server.Base.{
  ℕ, suc, Bool, true, false, not, ◌&&◌, ◌||◌, Option, none, some, List, [], ◌∷◌, ◌++◌, map, take,
  Text, text, leb, length, ◌==◌, nat_eq, text_eq, if◌then◌else◌,
}
use blackglass_server.Table.{select, update, delete, order_by}

abbrev pub max_device_bytes : ℕ
max_device_bytes = 128

pub record LiveConnection : Type 0 where
  pub id : Text
  pub vault_id : Text
  pub device : Text
  pub connected_at : ℕ
  pub last_activity_at : ℕ
  pub client_cursor : ℕ
  pub state : Text
  pub user_id : ℕ

-- `cancelled` is the value that the entry's watch channel carries.
pub record LiveEntry : Type 0 where
  pub connection : LiveConnection
  pub session_hash : Text
  pub cancelled : Bool

abbrev space : ℕ
space = 32

-- `split_whitespace().collect().join(" ")`: `started` after the first word, `gap` inside a gap.
unfoldable pub collapse : (ℕ → Bool) → Bool → Bool → Text → Text
collapse is_whitespace started gap [] = []
collapse is_whitespace started gap (c ∷ cs) =
    let in_gap = collapse is_whitespace started true cs in
    let in_word = collapse is_whitespace true false cs in
    if is_whitespace c then in_gap else if gap && started then space ∷ c ∷ in_word else c ∷ in_word

abbrev named : Text → Text
named [] = text "Unknown device"
named (c ∷ cs) = c ∷ cs

unfoldable pub sanitize_device : (is_whitespace is_control : ℕ → Bool) → Text → Text
unfolding collapse
sanitize_device is_whitespace is_control value =
    named (delete is_control (take max_device_bytes (collapse is_whitespace false false value)))

abbrev pub has_id : Text → LiveEntry → Bool
has_id id e = e.connection.id == id

-- `sanitized` is the device as `sanitize_device` leaves it. The id is new, so the insertion adds an
-- entry; the guard that is returned is its id.
unfoldable pub register :
    (max : ℕ)
    → (id : Text) → (now user_id : ℕ) → (session_hash vault sanitized : Text) → (cursor : ℕ)
    → List LiveEntry
    → Option Text × List LiveEntry
register max id now user_id session_hash vault sanitized cursor entries =
    if leb max (length entries) then (none, entries) else (
      some id,
      entries
          ++ record {
            connection = record {
              id = id;
              vault_id = vault;
              device = sanitized;
              connected_at = now;
              last_activity_at = now;
              client_cursor = cursor;
              state = text "replaying";
              user_id = user_id;
            };
            session_hash = session_hash;
            cancelled = false;
          }
            ∷ [],
    )

abbrev pub cancel : LiveEntry → LiveEntry
cancel e = record e { cancelled = true }

unfoldable pub cancel_session : Text → List LiveEntry → List LiveEntry
cancel_session session_hash entries = update (λ e. e.session_hash == session_hash) cancel entries

unfoldable pub cancel_vault : Text → List LiveEntry → List LiveEntry
cancel_vault vault_id entries = update (λ e. e.connection.vault_id == vault_id) cancel entries

unfoldable pub cancel_user_vault : ℕ → Text → List LiveEntry → List LiveEntry
cancel_user_vault user_id vault_id entries =
    update (λ e. (e.connection.user_id == user_id) && (e.connection.vault_id == vault_id)) cancel
      entries

abbrev pub by_connection : LiveConnection → LiveConnection → Bool
by_connection a b = leb a.connected_at b.connected_at

unfoldable pub snapshot : ℕ → List LiveEntry → List LiveConnection
snapshot max entries = take max (order_by by_connection (map (λ e. e.connection) entries))

-- `LiveGuard::activity`
unfoldable pub activity : Text → ℕ → Text → ℕ → List LiveEntry → List LiveEntry
activity id cursor state now entries =
    update (has_id id)
      (λ e. record e {
        connection = record (e.connection) {
          client_cursor = cursor;
          last_activity_at = now;
          state = take 32 state;
        };
      })
      entries

unfoldable pub protocol_activity : Text → Text → ℕ → List LiveEntry → List LiveEntry
protocol_activity id state now entries =
    update (has_id id)
      (λ e. record e {
        connection = record (e.connection) { last_activity_at = now; state = take 32 state };
      })
      entries

-- `drop` of a guard
unfoldable pub drop_guard : Text → List LiveEntry → List LiveEntry
drop_guard id entries = delete (has_id id) entries
