-- ===== src/Works.antt =====
-- internal/postgres/work.go: the transactions on a Work and its messages and reviews.
pub mod Create
pub mod Append
pub mod Accept
pub mod Invariant
pub mod Acceptance
pub mod Replay
pub mod AcceptAgain
pub mod Effects
pub mod Reviewing
