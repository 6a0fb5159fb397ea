-- ===== src/Connection.antt =====
-- internal/postgres/machine.go: how a machine is connected to a space, and revoked.
pub mod Tables
pub mod Requests
pub mod Machines
pub mod Begin
pub mod Poll
pub mod Revoke
pub mod Inventory
pub mod Later
pub mod Honest
pub mod Changes
pub mod Beginning
pub mod Deciding
pub mod Polling
pub mod Revoking
pub mod Steps
pub mod Walk
pub mod Enrollment
pub mod Told
pub mod Again
pub mod Ended
