-- ===== src/Socket/Pull.antt =====
-- `pull` of apps/server-rust/src/server.rs: a client downloads the content of one revision in pieces,
-- each read from the database when its turn comes.
pub mod Pieces
pub mod Roundtrip
use blackglass_server.Base.{
  ℕ, zero, suc, ◌+◌, ◌-◌, min, List, [], ◌∷◌, map, Option, none, some, Bool, true, false, not, ◌||◌,
  ltb, Text, ◌==◌, nat_eq, text_eq, if◌then◌else◌, Error, Outcome, ok, err,
}
use blackglass_server.Database.{Db}
use blackglass_server.Revisions.{piece_size}
use blackglass_server.Revisions.Reads.{PullInfo, pull_info, content_chunk}
use blackglass_server.Socket.Replay.{Gate, go, shutdown, revoked}

-- A message to the client.
pub data Frame : Type 0 where
  not_found : Frame
  header : (size pieces : ℕ) (deleted : Bool) (hash : Text) → Frame
  binary : (chunk : List ℕ) → Frame

-- How the download ends: served, stopped by a shutdown, closed with the session, or with an error of
-- the database; `out_of_fuel` if the fuel of the model runs out.
pub data Served : Type 0 where
  served interrupted refused out_of_fuel : Served
  failed : Error → Served

-- One round of the loop: what the checks before, after the read and after the piece find, the chunk
-- read, and the outcome of the rounds that follow. A shutdown that begins after the first check does
-- not stop the piece.
unfoldable pub send_piece :
    Gate → Gate → Gate → Outcome (List ℕ) → List (List ℕ) × Served → List (List ℕ) × Served
send_piece shutdown read_gate sent_gate chunk rest = ([], interrupted)
send_piece revoked read_gate sent_gate chunk rest = ([], refused)
send_piece go read_gate sent_gate (err e) rest = ([], failed e)
send_piece go revoked sent_gate (ok chunk) rest = ([], refused)
send_piece go _ revoked (ok chunk) rest = (chunk ∷ [], refused)
send_piece go _ _ (ok chunk) (pieces, end) = (chunk ∷ pieces, end)

-- `gate n` is what the checks of step `n` find, and `db_at n` the database then.
unfoldable pub pull_pieces : ℕ → (ℕ → Gate) → (ℕ → Db) → ℕ → ℕ → ℕ → ℕ → List (List ℕ) × Served
unfolding send_piece
pull_pieces zero gate db_at uid size n offset = ([], out_of_fuel)
pull_pieces (suc fuel) gate db_at uid size n offset =
    let len = min (size - offset) piece_size in
    let rest = pull_pieces fuel gate db_at uid size (n + 3) (offset + len) in
    if ltb offset size
    then send_piece (gate n) (gate (n + 1)) (gate (n + 2)) (content_chunk uid offset len (db_at n))
        rest
    else ([], served)

abbrev pub same_vault : Option Text → Text → Bool
same_vault none vault = false
same_vault (some v) vault = v == vault

-- What follows once the revision is found.
unfoldable pub pull_found :
    ℕ → (ℕ → Gate) → (ℕ → Db) → Option Text → ℕ → PullInfo → List Frame × Served
pull_found fuel gate db_at vault uid info =
    let (pieces, end) = pull_pieces fuel gate db_at uid info.size 1 0 in
    if not (same_vault vault info.vault_id) then (not_found ∷ [], served) else elim (gate 0) [
      | revoked ↦ ([], refused)
      | _ ↦
          if info.deleted || info.folder || not info.has_content
          then (header 0 0 info.deleted info.hash ∷ [], served)
          else (header info.size info.pieces false info.hash ∷ map binary pieces, end)
    ]

unfoldable pub pull : ℕ → (ℕ → Gate) → (ℕ → Db) → Option Text → Option ℕ → List Frame × Served
unfolding pull_found
pull fuel gate db_at vault none = (not_found ∷ [], served)
pull fuel gate db_at vault (some uid) = elim (pull_info uid (db_at 0)) [
  | none ↦ (not_found ∷ [], served)
  | some info ↦ pull_found fuel gate db_at vault uid info
]
