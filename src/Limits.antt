-- ===== src/Limits.antt =====
-- The admission limits of apps/server-rust/src/server.rs, which the handlers share behind mutexes:
-- bytes reserved for uploads, connections and uploads of a user, the attempts and websockets of a
-- source address, and invitations. Each method runs under its lock, so it is a function on the locked state.
pub mod Map
pub mod Storage
pub mod Concurrency
pub mod Source
pub mod Admin
pub mod Invites
