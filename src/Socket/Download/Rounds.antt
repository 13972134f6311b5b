-- ===== src/Socket/Download/Rounds.antt =====
-- The rounds of a download are enough for its pieces.
use blackglass_server.Base.{
  ℕ, zero, suc, Bool, ◌+◌, ◌*◌, ◌/◌, ◌≤◌, ◌≢◌, min, ◌-◌, List, Outcome, ok, err, arith, ltb,
  Bool-cases, inl, inr,
}
use blackglass_server.Database.{Db}
use blackglass_server.Revisions.{piece_size}
use blackglass_server.Socket.Replay.{Gate, go, shutdown, revoked}
use blackglass_server.Socket.Session.{Config, Session}
use blackglass_server.Socket.Pull.{Served, out_of_fuel, send_piece}
use blackglass_server.Socket.Download.{download_pieces}

piece_ends :
    (g g' g'' : Gate) (chunk : Outcome (List ℕ)) (rest : List (List ℕ) × Served)
    → rest.1 ≢ out_of_fuel
    → (send_piece g g' g'' chunk rest).1 ≢ out_of_fuel
unfolding send_piece
piece_ends shutdown g' g'' chunk rest h = λ k. cc
piece_ends revoked g' g'' chunk rest h = λ k. cc
piece_ends go g' g'' (err e) rest h = λ k. cc
piece_ends go revoked g'' (ok chunk) rest h = λ k. cc
piece_ends go go revoked (ok chunk) rest h = λ k. cc
piece_ends go shutdown revoked (ok chunk) rest h = λ k. cc
piece_ends go go go (ok chunk) rest h = h
piece_ends go go shutdown (ok chunk) rest h = h
piece_ends go shutdown go (ok chunk) rest h = h
piece_ends go shutdown shutdown (ok chunk) rest h = h

module _ (config : Config) (clock : ℕ → ℕ) (stops : ℕ → Bool) (session : Session) where
  pieces_end :
      (fuel uid size n offset : ℕ) (db : Db)
      → offset ≤ size
      → size + piece_size ≤ offset + fuel * piece_size
      → (download_pieces config clock stops session fuel uid size n offset db).0.1 ≢ out_of_fuel
  unfolding download_pieces
  pieces_end zero uid size n offset db le enough = absurd (omega arith)
  pieces_end (suc fuel) uid size n offset db le enough =
      let len = min (size - offset) piece_size in
      elim (Bool-cases (ltb offset size)) [
        | inl more ↦ rw more (
            piece_ends _ _ _ _ _
              (pieces_end fuel uid size (n + 3) (offset + len) _ (ground arith) (ground arith)))
        | inr end ↦ rw end (λ k. cc)
      ]

  -- The rounds that `download` allows for a size do not run out.
  download_rounds_suffice :
      (uid size n : ℕ) (db : Db)
      → (download_pieces config clock stops session (size / piece_size + 2) uid size n 0 db).0.1
        ≢ out_of_fuel
  download_rounds_suffice uid size n db =
      pieces_end (size / piece_size + 2) uid size n 0 db (omega arith) (omega arith)
