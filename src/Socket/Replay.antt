-- ===== src/Socket/Replay.antt =====
-- The replay at the end of `init` in apps/server-rust/src/server.rs: the client is sent every page of
-- changes, or of the snapshot, up to the version that was current when it joined, then `ready`.
pub mod Pages
pub mod Rounds
pub mod Complete
pub mod Commits
use blackglass_server.Base.{
  ℕ, zero, suc, List, [], ◌∷◌, ◌++◌, Option, none, some, Bool, true, false, ltb, length,
  if◌then◌else◌,
}
use blackglass_server.Base.{Text}
use blackglass_server.Database.{Db}
use blackglass_server.Revisions.{Revision}
use blackglass_server.Revisions.Reads.{list_changes_page, initial_snapshot_page}

abbrev pub replay_page_size : ℕ
replay_page_size = 16

-- What the checks before a step of the loop find: nothing, that the server shuts down (or the memory
-- of the step could not be had for that reason), or that the session is no longer valid.
pub data Gate : Type 0 where
  go : Gate
  shutdown : Gate
  revoked : Gate

-- How the replay ends; `unfinished` if the fuel of the model runs out.
pub data Ending : Type 0 where
  ready : (version : ℕ) → Ending
  stopped : Ending
  closed : Ending
  unfinished : Ending

-- The inner loop: the next step's number, the revisions sent, and the end if a check stopped it.
unfoldable pub send_page : (ℕ → Gate) → ℕ → List Revision → ℕ × List Revision × Option Ending
send_page gate n [] = (n, [], none)
send_page gate n (r ∷ rs) =
    let (m, sent, end) = send_page gate (suc n) rs in
    elim (gate n) [
      | go ↦ (m, r ∷ sent, end)
      | shutdown ↦ (n, [], some stopped)
      | revoked ↦ (n, [], some closed)
    ]

-- `cursor = revision.uid` at each item
unfoldable pub last_uid : ℕ → List Revision → ℕ
last_uid cursor [] = cursor
last_uid cursor (r ∷ rs) = last_uid r.uid rs

-- After the loop the session is checked once more.
abbrev pub finish : Gate → ℕ → Ending
finish revoked version = closed
finish _ version = ready version

-- `page n cursor` is what the query of step `n` returns.
unfoldable pub replay :
    ℕ → (ℕ → Gate) → (ℕ → ℕ → List Revision) → ℕ → ℕ → ℕ → List Revision × Ending
unfolding send_page last_uid
replay zero gate page version n cursor = ([], unfinished)
replay (suc fuel) gate page version n cursor =
    let rows = page n cursor in
    let (m, sent, end) = send_page gate (suc n) rows in
    let (later, ending) = replay fuel gate page version m (last_uid cursor rows) in
    elim (gate n) [
      | shutdown ↦ ([], stopped)
      | revoked ↦ ([], closed)
      | go ↦ elim end [
        | some e ↦ (sent, e)
        | none ↦
            if ltb (length rows) replay_page_size
            then (sent, finish (gate m) version)
            else (sent ++ later, ending)
      ]
    ]

-- The query of a step, by whether the client asked for the initial state.
unfoldable pub replay_page : Bool → Text → ℕ → (ℕ → Db) → ℕ → ℕ → List Revision
replay_page initial vault version db_at n cursor =
    if initial
    then initial_snapshot_page vault cursor version replay_page_size (db_at n)
    else list_changes_page vault cursor version replay_page_size (db_at n)
