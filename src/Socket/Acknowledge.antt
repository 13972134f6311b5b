-- ===== src/Socket/Acknowledge.antt =====
-- `acknowledge_commit` of apps/server-rust/src/server.rs: a commit is acknowledged to its client in the order
-- of the change stream, after the events that were committed before it.
pub mod Order
use blackglass_server.Base.{
  ℕ, suc, List, [], ◌∷◌, Bool, true, false, ltb, ◌==◌, nat_eq, text_eq, if◌then◌else◌,
}
use blackglass_server.Socket.Replay.{Gate, go, shutdown, revoked}
use blackglass_server.Socket.Session.{Event}

-- What `events.recv()` returns.
pub data Received : Type 0 where
  event : Event → Received
  lagged channel_closed : Received

-- How it ends: `res: ok`, with or without the uid, is `acknowledged`. `waiting` if nothing more comes.
pub data Acknowledged : Type 0 where
  acknowledged stopped closed_deleted closed_revoked closed_lagged : Acknowledged
  skipped_commit stream_closed waiting : Acknowledged

-- After the commit's own event, the session is checked once more before `ok`.
unfoldable pub own_event : Gate → Event → List Event × Acknowledged
own_event revoked e = (e ∷ [], closed_revoked)
own_event _ e = (e ∷ [], acknowledged)

-- The loop's round for an event of the vault that is not an invalidation: what the checks before and
-- after the message find, and the rest of the loop.
unfoldable pub send_event :
    Gate → Gate → Event → Event → List Event × Acknowledged → List Event × Acknowledged
unfolding own_event
send_event shutdown after e committed rest = ([], stopped)
send_event revoked after e committed rest = ([], closed_revoked)
send_event go after e committed (sent, end) =
    if e.uid == committed.uid
    then own_event after e
    else if ltb committed.uid e.uid
    then (e ∷ [], skipped_commit)
    else (e ∷ sent, end)

unfoldable pub receive : (ℕ → Gate) → ℕ → List Received → Event → List Event × Acknowledged
unfolding send_event
receive gate n [] committed = ([], waiting)
receive gate n (lagged ∷ rs) committed = ([], closed_lagged)
receive gate n (channel_closed ∷ rs) committed = ([], stream_closed)
receive gate n (event e ∷ rs) committed =
    let rest = receive gate (suc n) rs committed in
    if e.vault == committed.vault
    then (if e.invalidated
        then ([], closed_deleted)
        else send_event (gate n) (gate (suc n)) e committed rest)
    else rest

unfoldable pub acknowledge_commit :
    Bool → (ℕ → Gate) → List Received → Event → List Event × Acknowledged
unfolding receive
acknowledge_commit stopping gate received committed =
    if stopping then ([], stopped) else receive gate 0 received committed
