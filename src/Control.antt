-- ===== src/Control.antt =====
-- The control API of apps/server-rust/src/server.rs: the requests of a signed-in account on its vaults and
-- their sharing, from the token to the answer, with the live connections that they end.
pub mod State
pub mod Vaults
pub mod Shares
pub mod Dispatch
pub mod Safety
pub mod Reach
