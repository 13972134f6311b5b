-- ===== src/Socket.antt =====
-- The websocket of a vault (apps/server-rust/src/server.rs): what a client is sent when it joins, the
-- download of a revision, and the upload of one piece by piece.
pub mod Replay
pub mod Pull
pub mod Session
pub mod Upload
pub mod Acknowledge
pub mod Init
pub mod Download
pub mod Messages
