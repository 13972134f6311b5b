-- ===== src/Tests.antt =====
-- Runs of the operations at small inputs, and the theorems of the other modules applied there.
mod Data
mod Limits
mod Accounts
mod Socket
mod Control
mod SignIn
mod Sharing
mod Revisions
mod Vaults
mod Sources
mod Invites
