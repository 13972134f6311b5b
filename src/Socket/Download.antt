-- ===== src/Socket/Download.antt =====
-- `pull` of apps/server-rust/src/server.rs with the renewals of the session that it writes: the run of one
-- request while no other task writes. Pull has the same loop against any databases and checks.
pub mod Rounds
use blackglass_server.Base.{
  ℕ, zero, suc, ◌+◌, ◌-◌, ◌/◌, min, List, [], ◌∷◌, map, Option, none, some, Bool, true, false, not,
  ◌||◌, ltb, Text, ◌==◌, nat_eq, text_eq, if◌then◌else◌, Outcome, ok, err,
}
use blackglass_server.Database.{Db}
use blackglass_server.Sessions.{valid_session_for_vault, renew_session_for_vault}
use blackglass_server.Revisions.{piece_size}
use blackglass_server.Revisions.Reads.{PullInfo, pull_info, content_chunk}
use blackglass_server.Socket.Replay.{Gate, go, shutdown, revoked}
use blackglass_server.Socket.Session.{Config, Session}
use blackglass_server.Socket.Pull.{
  Frame, not_found, header, binary, Served, served, refused, out_of_fuel, send_piece,
}

abbrev gate_of : Bool → Gate
gate_of active = if active then go else revoked

-- What renewing the session at a time answers, and the database after it.
abbrev gate_of_renewal : Option Bool → Gate
gate_of_renewal none = revoked
gate_of_renewal (some _) = go

-- The database after a piece: as before it if it was not sent, and else renewed.
abbrev after_piece : Gate → Gate → Gate → Outcome (List ℕ) → Db → Db → Db → Db
after_piece go go go (ok chunk) db renewed later = later
after_piece go go _ (ok chunk) db renewed later = renewed
after_piece _ _ _ _ db renewed later = db

-- The clock and the shutdown are read at each step.
module _ (config : Config) (clock : ℕ → ℕ) (stops : ℕ → Bool) (session : Session) where
  abbrev active_at : ℕ → Db → Gate
  active_at n db = gate_of (valid_session_for_vault session.token_hash session.vault (clock n) db)

  unfoldable pub download_pieces : ℕ → ℕ → ℕ → ℕ → ℕ → Db → (List (List ℕ) × Served) × Db
  unfolding send_piece
  download_pieces zero uid size n offset db = (([], out_of_fuel), db)
  download_pieces (suc fuel) uid size n offset db =
      let len = min (size - offset) piece_size in
      let before = if stops n then shutdown else active_at n db in
      let read = active_at (n + 1) db in
      let chunk = content_chunk uid offset len db in
      let (answer, renewed) =
        renew_session_for_vault session.token_hash session.vault config.control.session_ttl
          (clock (n + 2)) db in
      let sent = gate_of_renewal answer in
      let (rest, later) = download_pieces fuel uid size (n + 3) (offset + len) renewed in
      if ltb offset size
      then (
        send_piece before read sent chunk rest,
        after_piece before read sent chunk db renewed later,
      )
      else (([], served), db)

  -- As many rounds as there are pieces, and the test that ends the loop.
  unfoldable pub download : Option ℕ → Db → (List Frame × Served) × Db
  unfolding download_pieces
  download none db = ((not_found ∷ [], served), db)
  download (some uid) db = elim (pull_info uid db) [
    | none ↦ ((not_found ∷ [], served), db)
    | some info ↦
        let ((pieces, end), after) =
          download_pieces (info.size / piece_size + 2) uid info.size 1 0 db in
        if not (session.vault == info.vault_id)
        then ((not_found ∷ [], served), db)
        else elim (active_at 0 db) [
          | go ↦
              if info.deleted || info.folder || not info.has_content
              then ((header 0 0 info.deleted info.hash ∷ [], served), db)
              else ((header info.size info.pieces false info.hash ∷ map binary pieces, end), after)
          | _ ↦ (([], refused), db)
        ]
  ]
